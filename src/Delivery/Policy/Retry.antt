-- ===== src/Delivery/Policy/Retry.antt =====
-- What the two retry policies promise.
use fragments_engine.Common.{
  ◌≡◌, refl, Bool, true, false, Option, none, some, arith, String, if◌then◌else◌,
}
use fragments_engine.Common.Int.{pos, ◌≤ℤ◌}
use fragments_engine.Delivery.Types.{Destination, DeliveryRetryConfig, DeliveryConfig}
use fragments_engine.Delivery.Policy.{
  JsonDecoder, by_kind, or_single, single_attempt, ingest_defaults, with_retry_defaults,
  normalize_retry, retry_config_for_destination, delivery_retry_defaults, destination_retry_config,
  decode_destination_config,
}

-- At least one attempt, and no negative wait.
pub record IsUsable (cfg : DeliveryRetryConfig) : Type 0 where
  pub attempts : pos 1 ≤ℤ cfg.max_attempts
  pub backoff : pos 0 ≤ℤ cfg.backoff_ms

normalize_retry-IsUsable :
    (cfg base : DeliveryRetryConfig)
    → IsUsable base
    → IsUsable (normalize_retry cfg base.max_attempts base.backoff_ms)
unfolding normalize_retry
normalize_retry-IsUsable cfg base u = ground arith

delivery_retry_defaults-IsUsable :
    (kind : String) (defaults : DeliveryConfig) → IsUsable (delivery_retry_defaults kind defaults)
unfolding delivery_retry_defaults
delivery_retry_defaults-IsUsable kind defaults = ground arith

-- The switch has what all its cases have.
by_kind-case {ℓ} :
    (P : DeliveryRetryConfig → Type ℓ) (decoded : String → DeliveryRetryConfig) (kind : String)
    → ((k : String) → P (decoded k))
    → P single_attempt
    → P (by_kind kind decoded)
by_kind-case P decoded kind each other = if_case _ (each "file") (
    if_case _ (each "mcp")
      (if_case _ (each "api") (if_case _ (each "cli") (if_case _ (each "callback") other))))
  where
    if_case : (b : Bool) {x y : DeliveryRetryConfig} → P x → P y → P (if b then x else y)
    if_case true px py = px
    if_case false px py = py

or_single-IsUsable :
    (o : Option DeliveryRetryConfig) (f : DeliveryRetryConfig → DeliveryRetryConfig)
    → ((cfg : DeliveryRetryConfig) → IsUsable (f cfg))
    → IsUsable (or_single o f)
or_single-IsUsable none f each = omega arith
or_single-IsUsable (some cfg) f each = each cfg

-- Whatever a destination's document and the operator's defaults say, the service's retry policy
-- allows at least one attempt and waits no negative time.
pub destination_retry_config-IsUsable :
    (json : JsonDecoder) (d : Destination) (defaults : DeliveryConfig)
    → IsUsable (destination_retry_config json d defaults)
unfolding destination_retry_config
destination_retry_config-IsUsable json d defaults =
    by_kind-case IsUsable _ d.kind
      (λ kind. or_single-IsUsable (decode_destination_config json kind d) _ (λ cfg.
        normalize_retry-IsUsable cfg (delivery_retry_defaults kind defaults)
          (delivery_retry_defaults-IsUsable kind defaults)))
      (omega arith)

ingest_policy-IsUsable :
    (kind : String) (cfg : DeliveryRetryConfig)
    → IsUsable (
        with_retry_defaults cfg
          (ingest_defaults kind).max_attempts
          (ingest_defaults kind).backoff_ms)
unfolding with_retry_defaults ingest_defaults
ingest_policy-IsUsable kind cfg = ground arith

-- Whatever a destination's document says, the ingest pipeline's retry policy allows at least one
-- attempt and waits no negative time.
pub retry_config_for_destination-IsUsable :
    (json : JsonDecoder) (d : Destination) → IsUsable (retry_config_for_destination json d)
unfolding retry_config_for_destination
retry_config_for_destination-IsUsable json d =
    by_kind-case IsUsable _ d.kind
      (λ kind.
        or_single-IsUsable (decode_destination_config json kind d) _ (ingest_policy-IsUsable kind))
      (omega arith)

-- The five kinds of destination.
data IsKind : String → Type 0 where
  file_kind : IsKind "file"
  mcp_kind : IsKind "mcp"
  api_kind : IsKind "api"
  cli_kind : IsKind "cli"
  callback_kind : IsKind "callback"

abbrev unset : DeliveryRetryConfig
unset = record { max_attempts = pos 0; backoff_ms = pos 0 }

-- An operator that sets nothing.
abbrev pub no_defaults : DeliveryConfig
no_defaults = record { file = unset; mcp = unset; api = unset; cli = unset; callback = unset }

by_kind-cong :
    (f g : String → DeliveryRetryConfig) (kind : String)
    → ((k : String) → IsKind k → f k ≡ g k)
    → by_kind kind f ≡ by_kind kind g
by_kind-cong f g kind each = cc (
  each "file" file_kind,
  each "mcp" mcp_kind,
  each "api" api_kind,
  each "cli" cli_kind,
  each "callback" callback_kind,
)

policies_agree :
    (k : String) (cfg : DeliveryRetryConfig)
    → IsKind k
    → with_retry_defaults cfg (ingest_defaults k).max_attempts (ingest_defaults k).backoff_ms
      ≡ normalize_retry cfg
          (delivery_retry_defaults k no_defaults).max_attempts
          (delivery_retry_defaults k no_defaults).backoff_ms
unfolding with_retry_defaults normalize_retry ingest_defaults delivery_retry_defaults
policies_agree k cfg file_kind = ground arith
policies_agree k cfg _ = ground arith

or_single-cong :
    (o : Option DeliveryRetryConfig) (f g : DeliveryRetryConfig → DeliveryRetryConfig)
    → ((cfg : DeliveryRetryConfig) → f cfg ≡ g cfg)
    → or_single o f ≡ or_single o g
or_single-cong none f g each = refl
or_single-cong (some cfg) f g each = each cfg

-- Where the operator sets no default, the ingest pipeline and the service give every destination the
-- same policy.
pub retry_config_for_destination-eq-destination_retry_config :
    (json : JsonDecoder) (d : Destination)
    → retry_config_for_destination json d ≡ destination_retry_config json d no_defaults
unfolding retry_config_for_destination destination_retry_config
retry_config_for_destination-eq-destination_retry_config json d =
    by_kind-cong _ _ d.kind (λ k known.
      or_single-cong (decode_destination_config json k d) _ _ (λ cfg. policies_agree k cfg known))
