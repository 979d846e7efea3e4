-- ===== src/Manual.antt =====
-- A route applied by hand: `RouteFragment`, `enqueueCallbackApply` and `routeMatchesPreview`
-- (internal/service/routing.go).
pub mod Preview
pub mod Inbox
mod Examples
use fragments_engine.Common.{
  ℕ, String, Bool, true, false, not, ◌&&◌, ◌||◌, Option, none, some, List, [], ◌∷◌, str_eq,
  if◌then◌else◌,
}
use fragments_engine.Common.Error.{Err, plain, wrap}
use fragments_engine.Delivery.Types.{
  Destination, DeliveryConfig, routed, Fragment, FragmentAttachment, PublishedAttachment,
  DeliveryResult,
}
use fragments_engine.Delivery.Policy.{destination_retry_config}
use fragments_engine.Delivery.Attempt.{Outside}
use fragments_engine.Store.Action.{
  Route, FragmentEntity, Reason, RouteLogEntry, Action, pure, raise, attempt, ◌>>=◌, ◌>>◌,
}
use fragments_engine.Store.Statements.{
  remove, log_decision, get_route, get_destination, get_by_id, list_attachments, update_status,
  update_storage_paths,
}
use fragments_engine.Routing.Reason.{
  empty_payload, encode_delivery_reason, encode_delivery_queued, encode_delivery_queued_by_design,
  encode_manual_route_success, encode_manual_route_error,
}
use fragments_engine.Routing.RunMatch.{execute_destination}
use fragments_engine.Queue.Types.{DeliveryQueueService}
use fragments_engine.Queue.Job.{enqueue_destination_retry, now}

-- `trim_space` is `strings.TrimSpace`.
pub record RoutingService (Q : Type 0) : Type 0 where
  pub outside : Outside
  pub trim_space : String → String
  pub has_attachments : Bool
  pub delivery : Option (DeliveryQueueService Q)
  pub cfg : DeliveryConfig

-- What the call answers when it returns no error.
pub record RouteApplyItem : Type 0 where
  pub fragment_id : String
  pub status : String
  pub written_path : String

queue_unconfigured : Err
queue_unconfigured = plain "callback destination has no delivery queue configured"

abbrev apply_entry : ℕ → String → Route → Destination → String → Reason → RouteLogEntry
apply_entry t fragment_id route d decision reason = record {
  fragment_id = fragment_id;
  route_id = route.id;
  destination_id = d.id;
  decision = decision;
  reason = reason;
  created_at = t;
}

-- The loop of `routeMatchesPreview` over the entities.
preview_entities : Route → List FragmentEntity → Bool
preview_entities route [] = false
preview_entities route (entity ∷ entities) =
    let rest = preview_entities route entities in
    if not (str_eq route.match_entity_kind "") && not (str_eq route.match_entity_kind entity.kind)
    then rest
    else if not (str_eq route.match_entity_value "")
        && not (str_eq route.match_entity_value entity.value)
    then rest
    else true

unfoldable pub route_matches_preview : Route → Fragment → List FragmentEntity → Bool
unfolding preview_entities
route_matches_preview route fragment entities =
    if not (str_eq route.match_source "") && not (str_eq route.match_source fragment.source)
    then false
    else if not (str_eq route.match_type "") && not (str_eq route.match_type fragment.source_type)
    then false
    else if not (str_eq route.match_entity_kind "") || not (str_eq route.match_entity_value "")
    then preview_entities route entities
    else true

module _ {Q : Type 0} where
  -- `_ = s.repo.LogDecision(…)`.
  log_anyway : RouteLogEntry → Action Q (Unit {0})
  log_anyway e = attempt (log_decision e) (λ _. pure tt) (λ _. pure tt)

  -- The reason to log, and the error if the enqueue failed.
  unfoldable pub enqueue_callback_apply :
      RoutingService Q → String → Route → Destination → Action Q (Reason × Option Err)
  unfolding queue_unconfigured
  enqueue_callback_apply s fragment_id route d = enqueue s.delivery
    where
      failed : String → Err → Action Q (Reason × Option Err)
      failed prefix e =
          pure (encode_delivery_reason prefix (record empty_payload { error = some e }), some e)

      enqueue : Option (DeliveryQueueService Q) → Action Q (Reason × Option Err)
      enqueue none = failed "callback_queue_unavailable" queue_unconfigured
      enqueue (some delivery) =
          attempt
            (enqueue_destination_retry delivery fragment_id route.id d.id
              (destination_retry_config s.outside.json d s.cfg))
            (λ _. pure (encode_delivery_queued_by_design d.kind, none))
            (failed "callback_enqueue_error")

  callback_answer : String → Reason × Option Err → Action Q RouteApplyItem
  callback_answer fragment_id (reason, none) =
      pure (record { fragment_id = fragment_id; status = "queued"; written_path = "" })
  callback_answer fragment_id (reason, some e) = raise e

  queue_failed :
      RoutingService Q
      → String
      → Route
      → Destination
      → ℕ
      → Err
      → Option (DeliveryQueueService Q)
      → Action Q (Reason × Bool)
  queue_failed s fragment_id route d attempts e none =
      pure (encode_manual_route_error "reader" route.id attempts e, false)
  queue_failed s fragment_id route d attempts e (some delivery) =
      attempt
        (enqueue_destination_retry delivery fragment_id route.id d.id
          (destination_retry_config s.outside.json d s.cfg))
        (λ _. pure (encode_delivery_queued attempts e, true))
        (λ _. pure (encode_manual_route_error "reader" route.id attempts e, false))

  paths_of_fragment : Bool → String → List PublishedAttachment → Action Q (Unit {0})
  paths_of_fragment false fragment_id ps = pure tt
  paths_of_fragment true fragment_id [] = pure tt
  paths_of_fragment true fragment_id (p ∷ ps) = update_storage_paths fragment_id (p ∷ ps)

  failed_answer : String → Err → Bool → Action Q RouteApplyItem
  failed_answer fragment_id e true =
      pure (record { fragment_id = fragment_id; status = "queued"; written_path = "" })
  failed_answer fragment_id e false = raise e

  finish_apply :
      RoutingService Q
      → ℕ
      → Route
      → Destination
      → String
      → DeliveryResult × Option Err
      → Action Q RouteApplyItem
  finish_apply s t route d fragment_id (delivery, some e) = do
    out ← queue_failed s fragment_id route d delivery.attempts e s.delivery
    log_anyway (apply_entry t fragment_id route d "inbox" out.0)
    failed_answer fragment_id e out.1
  finish_apply s t route d fragment_id (delivery, none) = do
    update_status fragment_id routed
    paths_of_fragment s.has_attachments fragment_id delivery.published_attachments
    remove fragment_id
    log_decision (
        apply_entry t fragment_id route d "manual_route"
          (encode_manual_route_success "reader" route.id delivery.attempts delivery.ref))
    pure (record { fragment_id = fragment_id; status = "routed"; written_path = delivery.ref })

  apply_attachments : Bool → String → Action Q (List FragmentAttachment)
  apply_attachments false fragment_id = pure []
  apply_attachments true fragment_id = list_attachments fragment_id

  deliver_apply :
      RoutingService Q
      → ℕ
      → Route
      → Destination
      → Fragment
      → List FragmentAttachment
      → Action Q RouteApplyItem
  deliver_apply s t route d fragment attachments =
      if str_eq d.kind "callback"
      then (enqueue_callback_apply s fragment.id route d >>= λ out.
          log_anyway (apply_entry t fragment.id route d "inbox" out.0)
          >> callback_answer fragment.id out)
      else (execute_destination s.outside d (record fragment { status = routed }) attachments
          >>= finish_apply s t route d fragment.id)

  -- From the fragment on.
  apply_to : RoutingService Q → Route → Destination → Fragment → Action Q RouteApplyItem
  apply_to s route d fragment = do
    attachments ← apply_attachments s.has_attachments fragment.id
    t ← now
    deliver_apply s t route d fragment attachments

  unfoldable pub apply_route : RoutingService Q → String → String → Action Q RouteApplyItem
  unfolding apply_to deliver_apply failed_answer finish_apply callback_answer queue_failed
      paths_of_fragment apply_attachments log_anyway now
  apply_route s fragment_id route_id =
      if str_eq (s.trim_space fragment_id) "" || str_eq (s.trim_space route_id) ""
      then raise (plain "fragment and route ids are required")
      else (get_route (s.trim_space route_id) >>= λ route.
          get_destination route.destination_id >>= λ d.
          get_by_id (s.trim_space fragment_id) >>= apply_to s route d)
