-- ===== src/Routing/RunMatch/Audit.antt =====
-- The log entry of each match, and what its executor did.
use fragments_engine.Common.{
  ℕ, ◌+◌, ◌≡◌, refl, ap, ◌∙◌, Bool, true, false, Option, none, some, List, [], ◌∷◌, ◌++◌, str_eq,
}
use fragments_engine.Common.Error.{Err}
use fragments_engine.Delivery.Types.{Destination, Fragment, FragmentAttachment, DeliveryResult}
use fragments_engine.Delivery.Attempt.{Outside}
use fragments_engine.Store.Action.{World, Route, RouteLogEntry, Reason, words, ◌>>=◌}
use fragments_engine.Store.Action.Hoare.{
  Hoare, Hoare-pure, Hoare-bind, Hoare-write, Hoare-Preserves, Hoare-cases, Hoare-weaken,
}
use fragments_engine.Store.Action.Reads.{given}
use fragments_engine.Store.Statements.{log_decision}
use fragments_engine.Routing.Stage.{StageContext, RouteStage}
use fragments_engine.Routing.Tables.{IsRetrier?}
use fragments_engine.Routing.RunMatch.{
  Winners, entry, execute_destination, enqueue_callback_delivery, finish_match, deliver_match,
  run_match,
}
use fragments_engine.Routing.RunMatch.Turn.{
  decision, IsEntry, Unsaid, Rows, executor_destination, succeeded, tried, TurnOf, KeepsRows,
  executor_destination-review, executor_destination-callback, executor_destination-executed,
}
use fragments_engine.Routing.RunMatch.Before.{
  Before, store_paths-Before, get_destination-Before, execute_destination-Before,
  enqueue_callback-Before, queue_retry-Before,
}

module _ {Q : Type 0} (K : Rows → Type 0) (log : List RouteLogEntry) where
  -- One entry more, which is this match's.
  abbrev Entered : StageContext → Route → Bool → ℕ → World Q → Type 0
  Entered ctx matched delivered n w =
      (e : RouteLogEntry) × (w.route_log ≡ log ++ e ∷ [])
      × IsEntry ctx matched delivered e
      × (w.calls ≡ n)
      × K w.destinations

  -- So too, and the entry says what the executor did.
  abbrev pub Told :
      StageContext
      → Outside
      → Fragment
      → List FragmentAttachment
      → Route
      → ℕ
      → Bool
      → World Q
      → Type 0
  Told ctx o f attachments matched n delivered w =
      (after : ℕ) × Entered ctx matched delivered after w
      × TurnOf K o f attachments matched n delivered after

  module _ (s : RouteStage Q) (law : IsRetrier? s.retrier) (keeps : KeepsRows K s.retrier)
      (ctx : StageContext) where
    log_decision-Entered :
        (n : ℕ) (matched : Route) (delivered : Bool) (reason : Reason)
        → Hoare
            (Before K log n)
            (log_decision (entry ctx matched (decision delivered) reason))
            (λ done. Entered ctx matched delivered n)
            Unsaid
    unfolding log_decision
    log_decision-Entered n matched delivered reason =
        Hoare-write _
          (λ w h. (
            _,
            ap (λ l. l ++ entry ctx matched (decision delivered) reason ∷ []) h.0,
            record { fragment = refl; route = refl; destination = refl; decided = refl; at = refl },
            h.1,
            h.2,
          ))
          (λ w h. tt) (λ w faults h. h) (λ w faults h. h)

    finish_match-Entered :
        (n : ℕ) (matched : Route) (d : Destination) (winners : Winners)
        (out : DeliveryResult × Option Err)
        → Hoare
            (Before K log n)
            (finish_match s ctx matched d winners out)
            (λ answer w. Entered ctx matched answer.0 n w × (succeeded out.1 ≡ answer.0))
            Unsaid
    unfolding finish_match
    finish_match-Entered n matched d winners (delivery, none) =
        Hoare-bind _ _
          (Hoare-Preserves _
            (store_paths-Before K log n ctx.fragment.id delivery.published_attachments) (λ w h. tt))
          (λ done.
            Hoare-bind _ _ (log_decision-Entered n matched true _)
              (λ done. Hoare-pure _ (λ w h. (h, refl))))
    finish_match-Entered n matched d winners (delivery, some e) =
        Hoare-bind _ _
          (Hoare-Preserves _
            (queue_retry-Before K log s law keeps ctx n s.retrier matched d delivery.attempts e law
              keeps)
            (λ w h. tt))
          (λ reason.
            Hoare-bind _ _ (log_decision-Entered n matched false reason)
              (λ done. Hoare-pure _ (λ w h. (h, refl))))

    module _ (n : ℕ) (matched : Route) (f : Fragment) (attachments : List FragmentAttachment)
        (winners : Winners) where
      executed-Told :
          (d : Destination) (rows : Rows)
          → K rows
          → executor_destination rows matched ≡ some d
          → Hoare
              (Before K log n)
              (execute_destination s.outside d f attachments
                >>= finish_match s ctx matched d winners)
              (λ answer. Told ctx s.outside f attachments matched n answer.0)
              Unsaid
      executed-Told d rows known row =
          Hoare-bind _ _ (execute_destination-Before K log n s.outside d f attachments) (λ out.
            given _ (λ ran.
              Hoare-weaken _ (finish_match-Entered (n + out.0.attempts) matched d winners out)
                (λ answer w (entered, said). (
                  n + out.0.attempts,
                  entered,
                  (
                    rows,
                    known,
                    ap (λ r. tried s.outside f attachments r n) row
                        ∙ ap
                            (λ (o : DeliveryResult × Option Err). (succeeded o.1, n + o.0.attempts))
                            ran
                        ∙ ap (λ b. (b, n + out.0.attempts)) said,
                  ),
                ))
                (λ w h. tt)))

      unexecuted :
          (w : World Q) (rows : Rows)
          → K rows
          → executor_destination rows matched ≡ none
          → Entered ctx matched false n w
          → Told ctx s.outside f attachments matched n false w
      unexecuted w rows known row entered =
          (n, entered, (rows, known, ap (λ r. tried s.outside f attachments r n) row))

      deliver_match-Told :
          (d : Destination) (rows : Rows)
          → matched.auto_route ≡ true
          → K rows
          → rows matched.destination_id ≡ some d
          → Hoare
              (Before K log n)
              (deliver_match s ctx matched f attachments winners d)
              (λ answer. Told ctx s.outside f attachments matched n answer.0)
              Unsaid
      unfolding deliver_match enqueue_callback_delivery
      deliver_match-Told d rows auto known row =
          Hoare-cases (str_eq d.kind "callback") _ _
            (λ callback.
              Hoare-bind _ _
                (Hoare-bind _ _
                  (Hoare-Preserves _
                    (enqueue_callback-Before K log s law keeps ctx n s.retrier matched d law keeps)
                    (λ w h. tt))
                  (λ reason. log_decision-Entered n matched false reason))
                (λ done. Hoare-pure _ (λ w h.
                  unexecuted w rows known
                    (executor_destination-callback rows matched d auto row callback) h)))
            (λ executor.
              executed-Told d rows known
                (executor_destination-executed rows matched d auto row executor))

      pub run_match-Told :
          Hoare
            (Before K log n)
            (run_match s ctx matched f attachments winners)
            (λ answer. Told ctx s.outside f attachments matched n answer.0)
            Unsaid
      unfolding run_match
      run_match-Told =
          Hoare-cases matched.auto_route _ _
            (λ auto.
              Hoare-bind _ _ (get_destination-Before K log n matched.destination_id)
                (λ d. given _ (λ (rows, known, row). deliver_match-Told d rows auto known row)))
            (λ review. Hoare-bind _ _ (reviewed review) (λ done. Hoare-pure _ (λ w h. h)))
        where
          reviewed :
              matched.auto_route ≡ false
              → Hoare
                  (Before K log n)
                  (log_decision (entry ctx matched "inbox" (words "matched_manual_review")))
                  (λ done. Told ctx s.outside f attachments matched n false)
                  Unsaid
          reviewed review = record {
            at = λ w h.
                (Hoare-weaken _ (log_decision-Entered n matched false _)
                    (λ done v e.
                      unexecuted v w.destinations h.2
                        (executor_destination-review w.destinations matched review) e)
                    (λ v h. tt)).at
                  w h;
          }
