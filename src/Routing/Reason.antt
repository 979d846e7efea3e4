-- ===== src/Routing/Reason.antt =====
-- The reasons that route_log records (internal/ingest/delivery_reason.go).
use fragments_engine.Common.{ℕ, String, none, some, []}
use fragments_engine.Common.Error.{Err}
use fragments_engine.Store.Action.{ReasonPayload, Reason, encoded}

abbrev pub empty_payload : ReasonPayload
empty_payload = record {
  entity_kind = "";
  entity_value = "";
  attempts = 0;
  ref = "";
  error = none;
  destination_kind = "";
  attachment_collisions = [];
}

unfoldable pub encode_delivery_reason : String → ReasonPayload → Reason
encode_delivery_reason prefix payload = encoded prefix payload

unfoldable pub encode_queued_delivery_success : ℕ → String → Reason
unfolding encode_delivery_reason
encode_queued_delivery_success attempts ref =
    encode_delivery_reason "queued_delivery_success"
      (record empty_payload { attempts = attempts; ref = ref })

unfoldable pub encode_queued_delivery_dead_letter : ℕ → Err → Reason
unfolding encode_delivery_reason
encode_queued_delivery_dead_letter attempts error =
    encode_delivery_reason "queued_delivery_dead_letter"
      (record empty_payload { attempts = attempts; error = some error })

unfoldable pub encode_delivery_queued : ℕ → Err → Reason
unfolding encode_delivery_reason
encode_delivery_queued attempts error =
    encode_delivery_reason "delivery_queued"
      (record empty_payload { attempts = attempts; error = some error })

unfoldable pub encode_delivery_queued_by_design : String → Reason
unfolding encode_delivery_reason
encode_delivery_queued_by_design kind =
    encode_delivery_reason "delivery_queued_by_design"
      (record empty_payload { destination_kind = kind })

unfoldable pub encode_manual_route_success : String → String → ℕ → String → Reason
unfolding encode_delivery_reason
encode_manual_route_success kind value attempts ref =
    encode_delivery_reason "manual_route_entity" (record empty_payload {
      entity_kind = kind;
      entity_value = value;
      attempts = attempts;
      ref = ref;
    })

unfoldable pub encode_manual_route_error : String → String → ℕ → Err → Reason
unfolding encode_delivery_reason
encode_manual_route_error kind value attempts error =
    encode_delivery_reason "manual_route_error" (record empty_payload {
      entity_kind = kind;
      entity_value = value;
      attempts = attempts;
      error = some error;
    })
