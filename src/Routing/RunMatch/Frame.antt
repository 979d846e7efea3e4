-- ===== src/Routing/RunMatch/Frame.antt =====
-- A match's turn leaves the fragments' status and the inbox alone.
use fragments_engine.Common.{ℕ, String, str_eq, false, ◌≡◌, refl, Option, none, some, List, [], ◌∷◌}
use fragments_engine.Common.Error.{Err}
use fragments_engine.Delivery.Types.{
  Destination, DeliveryRetryConfig, Fragment, FragmentAttachment, PublishedAttachment,
  DeliveryResult,
}
use fragments_engine.Delivery.Attempt.{Outside}
use fragments_engine.Store.Action.{World, Route, RouteLogEntry, step}
use fragments_engine.Store.Action.Preserves.{
  Preserves, Preserves-pure, Preserves-if, Preserves-bind, Preserves-attempt, Preserves-query,
  Preserves-write, preserving,
}
use fragments_engine.Store.Statements.{
  log_decision, get_route, get_destination, list_routes, list_entities, list_attachments,
  resolve_canonical_fragment_id, update_storage_paths,
}
use fragments_engine.Routing.Stage.{StageContext, Retrier, RouteStage}
use fragments_engine.Routing.Tables.{IsRetrier, IsRetrier?}
use fragments_engine.Routing.RunMatch.{
  Winners, execute_destination, enqueue_callback, enqueue_callback_delivery, queue_retry,
  store_paths, finish_match, deliver_match, run_match,
}

module _ {Q : Type 0} (P : World Q → Type 0)
    (framed : (w w' : World Q)
      → w'.status ≡ w.status
      → w'.inbox ≡ w.inbox
      → w'.aliases ≡ w.aliases
      → P w
      → P w') where
  pub log_decision-framed : (e : RouteLogEntry) → Preserves P (log_decision e)
  unfolding log_decision
  log_decision-framed e =
      Preserves-write (λ w faults. framed w _ refl refl refl) _ (λ w. framed w _ refl refl refl)

  pub list_routes-framed : Preserves P list_routes
  unfolding list_routes
  list_routes-framed = Preserves-query (λ w faults. framed w _ refl refl refl) _

  pub list_entities-framed : (id : String) → Preserves P (list_entities id)
  unfolding list_entities
  list_entities-framed id = Preserves-query (λ w faults. framed w _ refl refl refl) _

  pub list_attachments-framed : (id : String) → Preserves P (list_attachments id)
  unfolding list_attachments
  list_attachments-framed id = Preserves-query (λ w faults. framed w _ refl refl refl) _

  pub get_route-framed : (id : String) → Preserves P (get_route id)
  unfolding get_route
  get_route-framed id = Preserves-query (λ w faults. framed w _ refl refl refl) _

  pub get_destination-framed : (id : String) → Preserves P (get_destination id)
  unfolding get_destination
  get_destination-framed id = Preserves-query (λ w faults. framed w _ refl refl refl) _

  resolve-framed : (id : String) → Preserves P (resolve_canonical_fragment_id id)
  unfolding resolve_canonical_fragment_id
  resolve-framed id = Preserves-query (λ w faults. framed w _ refl refl refl) _

  pub update_storage_paths-framed :
      (id : String) (ps : List PublishedAttachment) → Preserves P (update_storage_paths id ps)
  unfolding update_storage_paths
  update_storage_paths-framed id ps = Preserves-bind _ _ (resolve-framed id) (λ canonical_id.
      Preserves-write (λ w faults. framed w _ refl refl refl) _ (λ w. framed w _ refl refl refl))

  store_paths-framed :
      (id : String) (ps : List PublishedAttachment) → Preserves P (store_paths id ps)
  unfolding store_paths
  store_paths-framed id [] = search preserving
  store_paths-framed id (p ∷ ps) = update_storage_paths-framed id (p ∷ ps)

  pub execute_destination-framed :
      (o : Outside) (d : Destination) (f : Fragment) (attachments : List FragmentAttachment)
      → Preserves P (execute_destination o d f attachments)
  unfolding execute_destination step
  execute_destination-framed o d f attachments = record { at = λ w. framed w _ refl refl refl }

  retrier-framed :
      (enqueue : Retrier Q) (fragment route destination : String) (retry : DeliveryRetryConfig)
      → IsRetrier enqueue
      → Preserves P (enqueue fragment route destination retry)
  retrier-framed enqueue fragment route destination retry law = record {
    at = λ w.
        let same = law.same fragment route destination retry w in
        framed w _ same.status same.inbox same.aliases;
  }

  ruleset framed_rules = (
    preserving, log_decision-framed, list_routes-framed, list_entities-framed,
    list_attachments-framed, get_destination-framed, resolve-framed, update_storage_paths-framed,
    store_paths-framed, execute_destination-framed, retrier-framed,
  )

  module _ (s : RouteStage Q) (law : IsRetrier? s.retrier) (ctx : StageContext) where
    enqueue_callback-framed :
        (retrier : Option (Retrier Q)) (matched : Route) (d : Destination)
        → IsRetrier? retrier
        → Preserves P (enqueue_callback retrier s.outside ctx matched d)
    unfolding enqueue_callback
    enqueue_callback-framed none matched d lawful = search framed_rules
    enqueue_callback-framed (some enqueue) matched d lawful =
        Preserves-attempt _ _ _ (retrier-framed enqueue _ _ _ _ lawful) (λ _. Preserves-pure _)
          (λ e. Preserves-pure _)

    queue_retry-framed :
        (retrier : Option (Retrier Q)) (matched : Route) (d : Destination) (attempts : ℕ) (e : Err)
        → IsRetrier? retrier
        → Preserves P (queue_retry retrier s.outside ctx matched d attempts e)
    unfolding queue_retry
    queue_retry-framed none matched d attempts e lawful = search framed_rules
    queue_retry-framed (some enqueue) matched d attempts e lawful =
        Preserves-attempt _ _ _ (retrier-framed enqueue _ _ _ _ lawful) (λ _. Preserves-pure _)
          (λ _. Preserves-pure _)

    finish_match-framed :
        (matched : Route) (d : Destination) (winners : Winners) (out : DeliveryResult × Option Err)
        → Preserves P (finish_match s ctx matched d winners out)
    unfolding finish_match
    finish_match-framed matched d winners (delivery, none) = search framed_rules
    finish_match-framed matched d winners (delivery, some e) =
        Preserves-bind _ _ (queue_retry-framed s.retrier matched d delivery.attempts e law)
          (λ reason. search framed_rules)

    enqueue_callback_delivery-framed :
        (matched : Route) (d : Destination)
        → Preserves P (enqueue_callback_delivery s ctx matched d)
    unfolding enqueue_callback_delivery
    enqueue_callback_delivery-framed matched d =
        Preserves-bind _ _ (enqueue_callback-framed s.retrier matched d law)
          (λ reason. search framed_rules)

    deliver_match-framed :
        (matched : Route) (f : Fragment) (attachments : List FragmentAttachment) (winners : Winners)
        (d : Destination)
        → Preserves P (deliver_match s ctx matched f attachments winners d)
    unfolding deliver_match
    deliver_match-framed matched f attachments winners d =
        Preserves-if (str_eq d.kind "callback") _ _
          (λ _.
            Preserves-bind _ _ (enqueue_callback_delivery-framed matched d)
              (λ _. Preserves-pure (false, winners)))
          (λ _.
            Preserves-bind _ _ (execute_destination-framed s.outside d f attachments)
              (finish_match-framed matched d winners))

    pub run_match-framed :
        (matched : Route) (f : Fragment) (attachments : List FragmentAttachment) (winners : Winners)
        → Preserves P (run_match s ctx matched f attachments winners)
    unfolding run_match
    run_match-framed matched f attachments winners =
        Preserves-if matched.auto_route _ _
          (λ _.
            Preserves-bind _ _ (get_destination-framed matched.destination_id)
              (deliver_match-framed matched f attachments winners))
          (λ _. search framed_rules)
