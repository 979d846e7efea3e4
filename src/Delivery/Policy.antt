-- ===== src/Delivery/Policy.antt =====
-- How often a delivery is tried, and the limits of a destination's queue
-- (internal/ingest/delivery.go, internal/service/routing.go,
-- internal/service/destination_policy.go). `encoding/json` is a parameter.
pub mod Retry
use fragments_engine.Common.{String, Bool, true, ◌&&◌, Option, none, some, str_eq, if◌then◌else◌}
use fragments_engine.Common.Int.{ℤ, pos, ltb_ℤ, leb_ℤ}
use fragments_engine.Delivery.Types.{Destination, DeliveryRetryConfig, DeliveryConfig, QueueConfig}

-- A JSON value as far as this package tells values apart. `number` is an integer literal that fits
-- Go's int, `opaque` is any other number or an array.
mutual
  pub data Json : Type 0 where
    null : Json
    boolean : Bool → Json
    number : ℤ → Json
    text : String → Json
    opaque : Json
    object : Fields → Json

  pub data Fields : Type 0 where
    end : Fields
    field : String → Json → Fields → Fields

-- `encoding/json`: the `retry` field that `json.Unmarshal` fills in the config type of a destination
-- kind, and the document as a value; `none` stands for its error.
pub record JsonDecoder : Type 0 where
  pub retry_field : String → String → Option DeliveryRetryConfig
  pub parse : String → Option Json

abbrev zero_retry : DeliveryRetryConfig
zero_retry = record { max_attempts = pos 0; backoff_ms = pos 0 }

-- `DecodeDestinationConfig[T]` for the config type of `kind`, and its field `Retry`.
decode_destination_config : JsonDecoder → String → Destination → Option DeliveryRetryConfig
decode_destination_config json kind destination =
    if str_eq destination.config_json ""
    then some zero_retry
    else json.retry_field kind destination.config_json

abbrev single_attempt : DeliveryRetryConfig
single_attempt = record { max_attempts = pos 1; backoff_ms = pos 0 }

unfoldable pub with_retry_defaults : DeliveryRetryConfig → ℤ → ℤ → DeliveryRetryConfig
with_retry_defaults cfg attempts backoff =
    let max_attempts = if leb_ℤ cfg.max_attempts (pos 0) then attempts else cfg.max_attempts in
    let backoff_ms = if ltb_ℤ cfg.backoff_ms (pos 0) then pos 0 else cfg.backoff_ms in
    record {
      max_attempts = max_attempts;
      backoff_ms =
          if leb_ℤ backoff_ms (pos 0) && ltb_ℤ (pos 0) backoff && ltb_ℤ (pos 1) max_attempts
          then backoff
          else backoff_ms;
    }

unfoldable pub normalize_retry : DeliveryRetryConfig → ℤ → ℤ → DeliveryRetryConfig
normalize_retry cfg attempts backoff =
    let max_attempts = if leb_ℤ cfg.max_attempts (pos 0) then attempts else cfg.max_attempts in
    let backoff_ms = if ltb_ℤ cfg.backoff_ms (pos 0) then pos 0 else cfg.backoff_ms in
    record {
      max_attempts = max_attempts;
      backoff_ms =
          if leb_ℤ backoff_ms (pos 0) && ltb_ℤ (pos 1) max_attempts then backoff else backoff_ms;
    }

abbrev or_single :
    Option DeliveryRetryConfig → (DeliveryRetryConfig → DeliveryRetryConfig) → DeliveryRetryConfig
or_single none f = single_attempt
or_single (some cfg) f = f cfg

-- The switch on a destination's kind, whose five cases decode another config type each.
abbrev pub by_kind : String → (String → DeliveryRetryConfig) → DeliveryRetryConfig
by_kind kind decoded =
    if str_eq kind "file"
    then decoded "file"
    else if str_eq kind "mcp"
    then decoded "mcp"
    else if str_eq kind "api"
    then decoded "api"
    else if str_eq kind "cli"
    then decoded "cli"
    else if str_eq kind "callback"
    then decoded "callback"
    else single_attempt

-- The defaults that the ingest pipeline writes down, for each kind.
ingest_defaults : String → DeliveryRetryConfig
ingest_defaults kind =
    if str_eq kind "file"
    then single_attempt
    else record { max_attempts = pos 3; backoff_ms = pos 500 }

-- The ingest pipeline's policy: fixed defaults for each kind.
unfoldable pub retry_config_for_destination : JsonDecoder → Destination → DeliveryRetryConfig
unfolding decode_destination_config ingest_defaults
retry_config_for_destination json d = by_kind d.kind λ kind.
    or_single (decode_destination_config json kind d) (λ cfg.
      with_retry_defaults cfg (ingest_defaults kind).max_attempts (ingest_defaults kind).backoff_ms)

max_int : ℤ → ℤ → ℤ
max_int a b = if ltb_ℤ b a then a else b

abbrev or_default : ℤ → ℤ → ℤ
or_default n default = if leb_ℤ n (pos 0) then default else n

-- The branches of `mcp`, `api`, `cli` and `callback` are one text with another field each.
network_defaults : DeliveryRetryConfig → DeliveryRetryConfig
network_defaults given = record {
  max_attempts = or_default given.max_attempts (pos 3);
  backoff_ms = or_default given.backoff_ms (pos 500);
}

unfoldable pub delivery_retry_defaults : String → DeliveryConfig → DeliveryRetryConfig
unfolding max_int network_defaults
delivery_retry_defaults kind defaults =
    if str_eq kind "file"
    then record {
      max_attempts = max_int defaults.file.max_attempts (pos 1);
      backoff_ms = max_int defaults.file.backoff_ms (pos 0);
    }
    else if str_eq kind "mcp"
    then network_defaults defaults.mcp
    else if str_eq kind "api"
    then network_defaults defaults.api
    else if str_eq kind "cli"
    then network_defaults defaults.cli
    else if str_eq kind "callback"
    then network_defaults defaults.callback
    else single_attempt

-- The service's policy: the operator's defaults.
unfoldable pub destination_retry_config :
    JsonDecoder → Destination → DeliveryConfig → DeliveryRetryConfig
unfolding decode_destination_config
destination_retry_config json d defaults = by_kind d.kind λ kind.
    or_single (decode_destination_config json kind d) (λ cfg.
      normalize_retry cfg (delivery_retry_defaults kind defaults).max_attempts
        (delivery_retry_defaults kind defaults).backoff_ms)

-- The copy of it in destination_policy.go.
unfoldable pub effective_retry_config :
    JsonDecoder → Destination → DeliveryConfig → DeliveryRetryConfig
unfolding decode_destination_config
effective_retry_config json d defaults = by_kind d.kind λ kind.
    or_single (decode_destination_config json kind d) (λ cfg.
      let base = delivery_retry_defaults kind defaults in
      normalize_retry cfg base.max_attempts base.backoff_ms)

-- `json.Unmarshal` into a map of raw messages: `null` gives the nil map. A later field of the same
-- name wins, as in Go's map.
get_field : String → Fields → Option Json
get_field k end = none
get_field k (field j v rest) = elim (get_field k rest) [
  | some w ↦ some w
  | none ↦ if str_eq j k then some v else none
]

as_object : Json → Option Fields
as_object null = some end
as_object (object fs) = some fs
as_object _ = none

-- `json.Unmarshal` into a fresh int: `null` leaves it 0.
as_int : Json → Option ℤ
as_int null = some (pos 0)
as_int (number n) = some n
as_int _ = none

int_field : String → Fields → ℤ → ℤ
unfolding get_field as_int
int_field name fields old = elim (get_field name fields) [
  | none ↦ old
  | some raw ↦ elim (as_int raw) [ none ↦ old | some v ↦ v ]
]

-- The four optional overrides.
override : Fields → QueueConfig → QueueConfig
unfolding int_field
override fields policy = record {
  replay_cooldown_seconds =
      int_field "replay_cooldown_seconds" fields policy.replay_cooldown_seconds;
  max_replays_per_hour = int_field "max_replays_per_hour" fields policy.max_replays_per_hour;
  alert_pending_threshold =
      int_field "alert_pending_threshold" fields policy.alert_pending_threshold;
  alert_dead_letter_threshold =
      int_field "alert_dead_letter_threshold" fields policy.alert_dead_letter_threshold;
}

-- `json.Unmarshal` of the document, then of its field `queue_policy`; any failure keeps the policy.
queue_fields : Json → Option Fields
unfolding get_field as_object
queue_fields document = elim (as_object document) [
  | none ↦ none
  | some raw ↦ elim (get_field "queue_policy" raw) [ none ↦ none | some policy ↦ as_object policy ]
]

unfoldable pub effective_queue_config : JsonDecoder → Destination → QueueConfig → QueueConfig
unfolding override queue_fields
effective_queue_config json d policy =
    if str_eq d.config_json "" then policy else elim (json.parse d.config_json) [
      | none ↦ policy
      | some document ↦ elim (queue_fields document) [
        | none ↦ policy
        | some fields ↦ override fields policy
      ]
    ]
