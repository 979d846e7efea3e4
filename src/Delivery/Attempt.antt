-- ===== src/Delivery/Attempt.antt =====
-- One delivery with its retries (internal/ingest/delivery.go). The executors of
-- internal/ingest/destination_writer.go and mcp_transport.go do the input and output and are
-- parameters; the number that they take first counts the executor calls before this one, so that
-- each call may answer anew.
pub mod Bounds
use fragments_engine.Common.{
  ℕ, zero, suc, ◌+◌, ◌-◌, String, Bool, true, false, ◌||◌, ◌&&◌, not, Option, none, some, List, [],
  str_eq, if◌then◌else◌,
}
use fragments_engine.Common.Int.{ℤ, pos, pos_part, ltb_ℤ, leb_ℤ}
use fragments_engine.Common.Error.{
  Err, plain, delivery_error, wrap, after_attempts, conflict, Result, ok, err,
}
use fragments_engine.Delivery.Types.{
  Destination, DeliveryRetryConfig, Fragment, FragmentAttachment, DeliveryResult,
}
use fragments_engine.Delivery.Policy.{JsonDecoder, retry_config_for_destination}

-- `errors.As` finds the first `*deliveryError` of the chain.
unfoldable pub is_retryable : Err → Bool
is_retryable (plain s) = false
is_retryable (delivery_error b e) = b
is_retryable (wrap s e) = is_retryable e
is_retryable (after_attempts n e) = is_retryable e
is_retryable (conflict kind identity reason) = false

unfoldable pub mark_retryable : Option Err → Option Err
mark_retryable none = none
mark_retryable (some e) = some (delivery_error true e)

abbrev pub Executor : Type 0
Executor = ℕ → Destination → Fragment → List FragmentAttachment → Result DeliveryResult

-- What lies outside: the five executors, JSON, and whether the context is done in the wait after
-- an executor call.
pub record Outside : Type 0 where
  pub json : JsonDecoder
  pub file : Executor
  pub mcp : Executor
  pub api : Executor
  pub cli : Executor
  pub callback : Executor
  pub cancelled : ℕ → Bool

unfoldable pub execute_destination_once : Outside → Executor
execute_destination_once o call d fragment attachments =
    if str_eq d.kind "file"
    then o.file call d fragment attachments
    else if str_eq d.kind "mcp"
    then o.mcp call d fragment attachments
    else if str_eq d.kind "api"
    then o.api call d fragment attachments
    else if str_eq d.kind "cli"
    then o.cli call d fragment attachments
    else if str_eq d.kind "callback"
    then o.callback call d fragment attachments
    else err (wrap "unsupported destination kind" (plain d.kind))

abbrev pub context_cancelled : Err
context_cancelled = plain "context canceled"

abbrev only_attempts : ℕ → DeliveryResult
only_attempts n = record { ref = ""; attempts = n; published_attachments = [] }

-- The loop of `ExecuteDestinationWithRetry`. `once` is the executor call with the given number of
-- calls before it; `left` is what `MaxAttempts` allows after the attempt at hand, so that the
-- code's test `attempts >= MaxAttempts` holds just at 0.
module _ (once : ℕ → Result DeliveryResult) (cancelled : ℕ → Bool) (backoff_ms : ℤ)
    (start : ℕ) where
  retry_loop : ℕ → ℕ → DeliveryResult × Option Err
  retry_loop zero made = elim (once (start + made)) [
    | ok result ↦ (record result { attempts = suc made }, none)
    | err e ↦ (only_attempts (suc made), some (after_attempts (suc made) e))
  ]
  retry_loop (suc left) made =
      let again = retry_loop left (suc made) in
      elim (once (start + made)) [
        | ok result ↦ (record result { attempts = suc made }, none)
        | err e ↦
            if not (is_retryable e)
            then (only_attempts (suc made), some (after_attempts (suc made) e))
            else if ltb_ℤ (pos 0) backoff_ms && cancelled (start + made)
            then (only_attempts (suc made), some context_cancelled)
            else again
      ]

-- `start` is the number of executor calls made before.
unfoldable pub execute_destination_with_retry :
    Outside → ℕ → Destination → Fragment → List FragmentAttachment → DeliveryResult × Option Err
unfolding retry_loop
execute_destination_with_retry o start d fragment attachments =
    let retry = retry_config_for_destination o.json d in
    retry_loop (λ call. execute_destination_once o call d fragment attachments) o.cancelled
      retry.backoff_ms start (pos_part retry.max_attempts - 1) 0
