-- ===== src/Routing/RunMatch.antt =====
-- `runMatch` of pipeline.go: one matched route gets its turn.
pub mod Frame
pub mod Silent
pub mod Turn
pub mod Before
pub mod Audit
use fragments_engine.Common.{
  ℕ, ◌+◌, String, Bool, true, false, Option, none, some, List, [], ◌∷◌, str_eq, if◌then◌else◌,
}
use fragments_engine.Common.Error.{Err, plain}
use fragments_engine.Delivery.Types.{
  Destination, Fragment, FragmentAttachment, PublishedAttachment, DeliveryResult,
}
use fragments_engine.Delivery.Policy.{retry_config_for_destination}
use fragments_engine.Delivery.Attempt.{Outside, execute_destination_with_retry}
use fragments_engine.Store.Action.{
  Route, AttachmentCollision, Reason, RouteLogEntry, words, Action, pure, step, attempt, update,
  ◌>>=◌, ◌>>◌,
}
use fragments_engine.Store.Statements.{log_decision, get_destination, update_storage_paths}
use fragments_engine.Routing.Stage.{StageContext, Retrier, RouteStage}
use fragments_engine.Routing.Reason.{
  empty_payload, encode_delivery_reason, encode_delivery_queued, encode_delivery_queued_by_design,
}

-- Which route's match claimed each attachment last in this pass.
abbrev pub Winners : Type 0
Winners = String → Option String

abbrev pub no_winners : Winners
no_winners attachment_id = none

-- The collision of one published attachment, if another route claimed it before.
collision : String → String → Option String → List AttachmentCollision
collision route_id attachment_id none = []
collision route_id attachment_id (some previous) =
    if str_eq previous route_id
    then []
    else record { attachment_id = attachment_id; previous_route_id = previous } ∷ []

abbrev append : List AttachmentCollision → List AttachmentCollision → List AttachmentCollision
append [] ys = ys
append (x ∷ xs) ys = x ∷ append xs ys

-- The loop over the published attachments, which are a map: the list stands in the order of their
-- ids, in which the code sorts the collisions.
unfoldable pub claim :
    String → List PublishedAttachment → Winners → Winners × List AttachmentCollision
unfolding collision
claim route_id [] winners = (winners, [])
claim route_id (p ∷ ps) winners =
    let (winners', collisions) =
      claim route_id ps (update p.attachment_id (some route_id) winners) in
    (winners', append (collision route_id p.attachment_id (winners p.attachment_id)) collisions)

abbrev pub entry : StageContext → Route → String → Reason → RouteLogEntry
entry ctx matched decision reason = record {
  fragment_id = ctx.fragment.id;
  route_id = matched.id;
  destination_id = matched.destination_id;
  decision = decision;
  reason = reason;
  created_at = ctx.now;
}

module _ {Q : Type 0} where
  -- The call of `ExecuteDestinationWithRetry`, which counts the executor calls.
  unfoldable pub execute_destination :
      Outside
      → Destination
      → Fragment
      → List FragmentAttachment
      → Action Q (DeliveryResult × Option Err)
  execute_destination o d fragment attachments = step λ w.
      let out = execute_destination_with_retry o w.calls d fragment attachments in
      (out, record w { calls = w.calls + out.0.attempts })

  pub enqueue_callback :
      Option (Retrier Q) → Outside → StageContext → Route → Destination → Action Q Reason
  enqueue_callback none o ctx matched d = pure (
      encode_delivery_reason "callback_queue_unavailable"
        (record empty_payload { error = some (plain "delivery queue not configured") }))
  enqueue_callback (some enqueue) o ctx matched d =
      attempt
        (enqueue ctx.fragment.id matched.id matched.destination_id
          (retry_config_for_destination o.json d))
        (λ _. pure (encode_delivery_queued_by_design d.kind))
        (λ e. pure (
          encode_delivery_reason "callback_enqueue_error"
            (record empty_payload { error = some e })))

  -- `enqueueCallbackDelivery`: in each case one log entry with the case's reason.
  unfoldable pub enqueue_callback_delivery :
      RouteStage Q → StageContext → Route → Destination → Action Q (Unit {0})
  unfolding enqueue_callback
  enqueue_callback_delivery s ctx matched d = do
    reason ← enqueue_callback s.retrier s.outside ctx matched d
    log_decision (entry ctx matched "inbox" reason)

  pub queue_retry :
      Option (Retrier Q) → Outside → StageContext → Route → Destination → ℕ → Err → Action Q Reason
  queue_retry none o ctx matched d attempts e = pure (
      encode_delivery_reason "destination_error"
        (record empty_payload { attempts = attempts; error = some e }))
  queue_retry (some enqueue) o ctx matched d attempts e =
      attempt
        (enqueue ctx.fragment.id matched.id matched.destination_id
          (retry_config_for_destination o.json d))
        (λ _. pure (encode_delivery_queued attempts e))
        (λ _. pure (
          encode_delivery_reason "destination_error"
            (record empty_payload { attempts = attempts; error = some e })))

  pub store_paths : String → List PublishedAttachment → Action Q (Unit {0})
  store_paths fragment_id [] = pure tt
  store_paths fragment_id (p ∷ ps) = update_storage_paths fragment_id (p ∷ ps)

  finish_match :
      RouteStage Q
      → StageContext
      → Route
      → Destination
      → Winners
      → DeliveryResult × Option Err
      → Action Q (Bool × Winners)
  finish_match s ctx matched d winners (delivery, some e) = do
    reason ← queue_retry s.retrier s.outside ctx matched d delivery.attempts e
    log_decision (entry ctx matched "inbox" reason)
    pure (false, winners)
  finish_match s ctx matched d winners (delivery, none) = do
    let (winners', collisions) = claim matched.id delivery.published_attachments winners
    store_paths ctx.fragment.id delivery.published_attachments
    log_decision (
        entry ctx matched "auto_route" (
          encode_delivery_reason "matched_auto_route" (record empty_payload {
            attempts = delivery.attempts;
            ref = delivery.ref;
            attachment_collisions = collisions;
          })))
    pure (true, winners')

  deliver_match :
      RouteStage Q
      → StageContext
      → Route
      → Fragment
      → List FragmentAttachment
      → Winners
      → Destination
      → Action Q (Bool × Winners)
  deliver_match s ctx matched fragment attachments winners d =
      if str_eq d.kind "callback"
      then (enqueue_callback_delivery s ctx matched d >> pure (false, winners))
      else (execute_destination s.outside d fragment attachments
          >>= finish_match s ctx matched d winners)

  -- Whether the route delivered at once, and the claims after it.
  unfoldable pub run_match :
      RouteStage Q
      → StageContext
      → Route
      → Fragment
      → List FragmentAttachment
      → Winners
      → Action Q (Bool × Winners)
  unfolding deliver_match finish_match queue_retry store_paths
  run_match s ctx matched fragment attachments winners =
      if matched.auto_route
      then (get_destination matched.destination_id
          >>= deliver_match s ctx matched fragment attachments winners)
      else (log_decision (entry ctx matched "inbox" (words "matched_manual_review"))
          >> pure (false, winners))
