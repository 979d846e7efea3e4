-- ===== src/Delivery/Attempt/Bounds.antt =====
-- How often a delivery calls its executor, and what its answer says of those calls.
use fragments_engine.Common.{
  ℕ, zero, suc, ◌+◌, ◌≤◌, ◌<◌, ◌≡◌, ◌⊎◌, inl, inr, Bool, true, false, Option, none, some, List,
  arith, Bool-cases, ◌&&◌,
}
use native.Mathlib.Decide.{ℕ_discrete}
use fragments_engine.Common.Int.{ℤ, pos, pos_part, ltb_ℤ}
use fragments_engine.Common.Error.{Err, Result, Result-cases, ok, err, after_attempts}
use fragments_engine.Delivery.Types.{Destination, Fragment, FragmentAttachment, DeliveryResult}
use fragments_engine.Delivery.Policy.{retry_config_for_destination}
use fragments_engine.Delivery.Policy.Retry.{retry_config_for_destination-IsUsable}
use fragments_engine.Delivery.Attempt.{
  Outside, is_retryable, context_cancelled, execute_destination_once,
  execute_destination_with_retry, retry_loop,
}

-- An answer that a loop retries.
abbrev pub IsTransient : Result DeliveryResult → Type 0
IsTransient (ok r) = ⊥
IsTransient (err e) = is_retryable e ≡ true

-- What the outcome says of the executor's last answer: a success is handed on; a failure stands for
-- the last attempt that is allowed, for a permanent error or for a cancelled wait.
abbrev pub Concludes : Result DeliveryResult → ℕ → Bool → DeliveryResult × Option Err → Type 0
Concludes (ok result) limit cancelled (r, e) =
    (r ≡ record result { attempts = r.attempts }) × (e ≡ none)
Concludes (err last) limit cancelled (r, e) =
    (e ≡ some (after_attempts r.attempts last))
      × ((r.attempts ≡ limit) ⊎ (is_retryable last ≡ false))
    ⊎ (e ≡ some context_cancelled) × (cancelled ≡ true)

-- The calls from number `made` on, up to and with number `last`.
pub record Ran (once : ℕ → Result DeliveryResult) (cancelled : ℕ → Bool) (start made limit : ℕ)
    (out : DeliveryResult × Option Err) : Type 0 where
  pub last : ℕ
  pub attempts : out.0.attempts ≡ suc last
  pub least : made ≤ last
  pub most : last < limit
  pub before : (i : ℕ) → made ≤ i → i < last → IsTransient (once (start + i))
  pub concludes : Concludes (once (start + last)) limit (cancelled (start + last)) out

module _ (once : ℕ → Result DeliveryResult) (cancelled : ℕ → Bool) (start : ℕ) where
  -- The loop stops after the attempt at hand,
  stop-Ran :
      (made limit : ℕ) (out : DeliveryResult × Option Err)
      → out.0.attempts ≡ suc made
      → made < limit
      → Concludes (once (start + made)) limit (cancelled (start + made)) out
      → Ran once cancelled start made limit out
  stop-Ran made limit out counted room conclusion = record {
    last = made;
    attempts = counted;
    least = omega arith;
    most = room;
    before = λ i p q. absurd (omega arith);
    concludes = conclusion;
  }

  -- or goes on.
  IsTransient-before :
      (made last : ℕ)
      → IsTransient (once (start + made))
      → ((i : ℕ) → suc made ≤ i → i < last → IsTransient (once (start + i)))
      → (i : ℕ) → made ≤ i
      → i < last
      → IsTransient (once (start + i))
  IsTransient-before made last transient before i p q = elim (ℕ_discrete i made) [
    | yes e ↦ rw e transient
    | no ne ↦ before i (omega arith) q
  ]

  again-Ran :
      (made limit : ℕ) (out : DeliveryResult × Option Err)
      → IsTransient (once (start + made))
      → Ran once cancelled start (suc made) limit out
      → Ran once cancelled start made limit out
  again-Ran made limit out transient r = record {
    last = r.last;
    attempts = r.attempts;
    least = omega (arith, r.least);
    most = r.most;
    before = IsTransient-before made r.last transient r.before;
    concludes = r.concludes;
  }

module _ (once : ℕ → Result DeliveryResult) (cancelled : ℕ → Bool) (backoff_ms : ℤ)
    (start : ℕ) where
  retry_loop-Ran :
      (left made limit : ℕ)
      → limit ≡ suc made + left
      → Ran once cancelled start made limit (retry_loop once cancelled backoff_ms start left made)
  unfolding retry_loop
  retry_loop-Ran zero made limit full =
      stop-Ran once cancelled start made limit _ (ground arith) (omega arith) (ground arith)
  retry_loop-Ran (suc left) made limit full = elim (Result-cases (once (start + made))) [
    | inl (result, done) ↦
        stop-Ran once cancelled start made limit _ (ground arith) (omega arith) (ground arith)
    | inr (e, failed) ↦ elim (Bool-cases (is_retryable e)) [
      | inr permanent ↦
          stop-Ran once cancelled start made limit _ (ground arith) (omega arith) (ground arith)
      | inl transient ↦ elim (Bool-cases (ltb_ℤ (pos 0) backoff_ms && cancelled (start + made))) [
        | inl stopped ↦
            stop-Ran once cancelled start made limit _ (ground arith) (omega arith) (ground arith)
        | inr waits ↦
            rw (failed, retry_loop, transient, waits)
              (again-Ran once cancelled start made limit _ (rw failed transient)
                (retry_loop-Ran left (suc made) limit (omega arith)))
      ]
    ]
  ]

-- A delivery makes at least one and at most `MaxAttempts` calls of its executor, and none past the
-- first that succeeds or fails for good. All calls but the last failed with a retryable error; the
-- outcome hands the last answer on, with the number of calls: its success, its error after the last
-- attempt or a permanent error, or the error of a cancelled wait.
pub execute_destination_with_retry-Ran :
    (o : Outside) (start : ℕ) (d : Destination) (fragment : Fragment)
    (attachments : List FragmentAttachment)
    → Ran
        (λ call. execute_destination_once o call d fragment attachments)
        o.cancelled
        start
        0
        (pos_part (retry_config_for_destination o.json d).max_attempts)
        (execute_destination_with_retry o start d fragment attachments)
unfolding execute_destination_with_retry
execute_destination_with_retry-Ran o start d fragment attachments =
    retry_loop-Ran _ o.cancelled _ start _ 0 _
      (omega (arith, (retry_config_for_destination-IsUsable o.json d).attempts))
