-- ===== src/Routing/RunMatch/Before.antt =====
-- The log, the executor calls and the destinations up to the log entry of a match.
use fragments_engine.Common.{
  ℕ, ◌+◌, String, ◌≡◌, refl, sym, ap, ◌∙◌, Option, none, some, List, [], ◌∷◌,
}
use fragments_engine.Common.Error.{Err}
use fragments_engine.Delivery.Types.{
  Destination, DeliveryRetryConfig, Fragment, FragmentAttachment, PublishedAttachment,
}
use fragments_engine.Delivery.Attempt.{Outside, execute_destination_with_retry}
use fragments_engine.Store.Action.{World, Route, RouteLogEntry, step}
use fragments_engine.Store.Action.Preserves.{
  Preserves, Preserves-pure, Preserves-bind, Preserves-attempt, Preserves-query, Preserves-write,
}
use fragments_engine.Store.Action.Hoare.{Hoare, Hoare-query, Ends}
use fragments_engine.Store.Statements.{
  or_no_rows, get_destination, resolve_canonical_fragment_id, update_storage_paths,
}
use fragments_engine.Routing.Stage.{StageContext, Retrier, RouteStage}
use fragments_engine.Routing.Tables.{IsRetrier, IsRetrier?}
use fragments_engine.Routing.RunMatch.{
  execute_destination, enqueue_callback, queue_retry, store_paths,
}
use fragments_engine.Routing.RunMatch.Turn.{Unsaid, Rows, KeepsRows}

module _ {Q : Type 0} (K : Rows → Type 0) (log : List RouteLogEntry) where
  -- The log, the executor calls and the destinations before a match's turn.
  abbrev pub Before : ℕ → World Q → Type 0
  Before n w = (w.route_log ≡ log) × (w.calls ≡ n) × K w.destinations

  module _ (n : ℕ) where
    resolve-Before : (id : String) → Preserves (Before n) (resolve_canonical_fragment_id id)
    unfolding resolve_canonical_fragment_id
    resolve-Before id = Preserves-query (λ w faults h. h) _

    update_storage_paths-Before :
        (id : String) (ps : List PublishedAttachment)
        → Preserves (Before n) (update_storage_paths id ps)
    unfolding update_storage_paths
    update_storage_paths-Before id ps =
        Preserves-bind _ _ (resolve-Before id)
          (λ canonical. Preserves-write (λ w faults h. h) _ (λ w h. h))

    pub store_paths-Before :
        (id : String) (ps : List PublishedAttachment) → Preserves (Before n) (store_paths id ps)
    unfolding store_paths
    store_paths-Before id [] = Preserves-pure tt
    store_paths-Before id (p ∷ ps) = update_storage_paths-Before id (p ∷ ps)

    retrier-Before :
        (enqueue : Retrier Q) (fragment route destination : String) (retry : DeliveryRetryConfig)
        → IsRetrier enqueue
        → KeepsRows K (some enqueue)
        → Preserves (Before n) (enqueue fragment route destination retry)
    retrier-Before enqueue fragment route destination retry law keeps = record {
      at = λ w h.
          let same = law.same fragment route destination retry w in
          (same.route_log ∙ h.0, same.calls ∙ h.1, keeps fragment route destination retry w h.2);
    }

    -- The row that was read.
    pub get_destination-Before :
        (id : String)
        → Hoare
            (Before n)
            (get_destination id)
            (λ d w. Before n w × ((rows : Rows) × K rows × (rows id ≡ some d)))
            Unsaid
    unfolding get_destination
    get_destination-Before id =
        Hoare-query _ (λ w faults h. h) (λ w h. found w h (w.destinations id) refl) (λ w h. tt)
          (λ w faults h. h) (λ d w faults h. h)
      where
        found :
            (w : World Q)
            → Before n w
            → (row : Option Destination) → w.destinations id ≡ row
            → Ends
                (λ d w. Before n w × ((rows : Rows) × K rows × (rows id ≡ some d)))
                Unsaid
                (or_no_rows row, w)
        found w h none there = tt
        found w h (some d) there = (h, (w.destinations, h.2, there))

    pub execute_destination-Before :
        (o : Outside) (d : Destination) (f : Fragment) (attachments : List FragmentAttachment)
        → Hoare
            (Before n)
            (execute_destination o d f attachments)
            (λ out w.
              Before (n + out.0.attempts) w
              × (execute_destination_with_retry o n d f attachments ≡ out))
            Unsaid
    unfolding execute_destination step
    execute_destination-Before o d f attachments = record {
      at = λ w h. (
        (
          h.0,
          ap (λ k. k + (execute_destination_with_retry o w.calls d f attachments).0.attempts) h.1,
          h.2,
        ),
        ap (λ k. execute_destination_with_retry o k d f attachments) (sym h.1),
      );
    }

  module _ (s : RouteStage Q) (law : IsRetrier? s.retrier) (keeps : KeepsRows K s.retrier)
      (ctx : StageContext) where
    pub enqueue_callback-Before :
        (n : ℕ) (retrier : Option (Retrier Q)) (matched : Route) (d : Destination)
        → IsRetrier? retrier
        → KeepsRows K retrier
        → Preserves (Before n) (enqueue_callback retrier s.outside ctx matched d)
    unfolding enqueue_callback
    enqueue_callback-Before n none matched d lawful kept = Preserves-pure _
    enqueue_callback-Before n (some enqueue) matched d lawful kept =
        Preserves-attempt _ _ _ (retrier-Before n enqueue _ _ _ _ lawful kept)
          (λ _. Preserves-pure _) (λ e. Preserves-pure _)

    pub queue_retry-Before :
        (n : ℕ) (retrier : Option (Retrier Q)) (matched : Route) (d : Destination) (attempts : ℕ)
        (e : Err)
        → IsRetrier? retrier
        → KeepsRows K retrier
        → Preserves (Before n) (queue_retry retrier s.outside ctx matched d attempts e)
    unfolding queue_retry
    queue_retry-Before n none matched d attempts e lawful kept = Preserves-pure _
    queue_retry-Before n (some enqueue) matched d attempts e lawful kept =
        Preserves-attempt _ _ _ (retrier-Before n enqueue _ _ _ _ lawful kept)
          (λ _. Preserves-pure _) (λ _. Preserves-pure _)
