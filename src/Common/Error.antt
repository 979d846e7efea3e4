-- ===== src/Common/Error.antt =====
-- Go's `error` values, and the result of a call that may return one.
use Prim.Native.Nat.{ℕ}
use mathlib.Core.Path.{◌≡◌, refl}
use mathlib.Core.Logic.{◌⊎◌, inl, inr}
use Prim.Native.String.{String}
use mathlib.Core.Bool.{Bool}

-- `errors.New`, ingest's `*deliveryError`, `fmt.Errorf("prefix: %w", err)`,
-- `fmt.Errorf("attempts=%d: %w", n, err)`, and a repository's conflict error of a kind, an identity
-- and a reason.
pub data Err : Type 0 where
  plain : String → Err
  delivery_error : Bool → Err → Err
  wrap : String → Err → Err
  after_attempts : ℕ → Err → Err
  conflict : String → String → String → Err

pub data Result {ℓ} (A : Type ℓ) : Type ℓ where
  ok : A → Result A
  err : Err → Result A

-- To split on a computed result and keep the equation.
pub Result-cases {ℓ} :
    {A : Type ℓ} (r : Result A) → ((a : A) × (r ≡ ok a)) ⊎ ((e : Err) × (r ≡ err e))
Result-cases (ok a) = inl (a, refl)
Result-cases (err e) = inr (e, refl)
