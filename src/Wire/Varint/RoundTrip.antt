-- ===== src/Wire/Varint/RoundTrip.antt =====
-- The reader against an independent writer of base-128 numbers.
use mathlib.Core.Path.{ap₂}
use native.Mathlib.Nat.{pow-suc}
use fragments_engine.Common.{
  ℕ, zero, suc, ◌+◌, ◌*◌, ◌/◌, ◌%◌, ◌^◌, ◌≤◌, ◌<◌, ◌≡◌, refl, Bool-cases, inl, inr, some, List, [],
  ◌∷◌, ◌++◌, arith, ltb, true, false, ap, length, if◌then◌else◌, ltb→lt, ◌⊎◌, ◌∙◌,
}
use fragments_engine.Wire.Varint.{uvarint, uvarint_from}

-- Seven bits a byte, the lowest first; all bytes but the last have the high bit.
unfoldable pub put_bytes : ℕ → ℕ → List ℕ
put_bytes zero n = []
put_bytes (suc f) n =
    let more = (n % 128 + 128) ∷ put_bytes f (n / 128) in if ltb n 128 then n ∷ [] else more

-- Ten bytes hold 64 bits.
unfoldable pub put_uvarint : ℕ → List ℕ
unfolding put_bytes
put_uvarint n = put_bytes 10 n

put_bytes-small : (f n : ℕ) → ltb n 128 ≡ true → put_bytes (suc f) n ≡ n ∷ []
unfolding put_bytes
put_bytes-small f n small = rw small

put_bytes-large :
    (f n : ℕ) → ltb n 128 ≡ false → put_bytes (suc f) n ≡ (n % 128 + 128) ∷ put_bytes f (n / 128)
unfolding put_bytes
put_bytes-large f n large = rw large

uvarint_from-last :
    (i x unit b : ℕ) (buf : List ℕ)
    → i < 10
    → b < 128
    → (i < 9) ⊎ (b < 2)
    → uvarint_from i x unit (b ∷ buf) ≡ some (x + b * unit, i + 1)
unfolding uvarint_from
uvarint_from-last i x unit b buf h low fits = ground arith

uvarint_from-more :
    (i x unit b : ℕ) (buf : List ℕ)
    → i < 10
    → 128 ≤ b
    → uvarint_from i x unit (b ∷ buf) ≡ uvarint_from (i + 1) (x + b % 128 * unit) (unit * 128) buf
unfolding uvarint_from
uvarint_from-more i x unit b buf h high = ground arith

-- One digit and the rest make the number.
join_digit :
    (x unit q r : ℕ)
    → r < 128
    → x + (r + 128) % 128 * unit + q * (unit * 128) ≡ x + (q * 128 + r) * unit
join_digit x unit q r h = let e : (r + 128) % 128 ≡ r = omega arith in rw e (omega arith)

uvarint_from-put_bytes :
    (f i x unit n : ℕ) (rest : List ℕ)
    → i + suc f ≡ 10
    → n < 2 * 128 ^ f
    → uvarint_from i x unit (put_bytes (suc f) n ++ rest)
      ≡ some (x + n * unit, i + length (put_bytes (suc f) n))
uvarint_from-put_bytes zero i x unit n rest e h =
    rw (put_bytes-small 0 n (ground arith))
      (uvarint_from-last i x unit n rest (omega arith) (omega arith) (inr h))
uvarint_from-put_bytes (suc f) i x unit n rest e h = elim (Bool-cases (ltb n 128)) [
  | inl small ↦
      rw (put_bytes-small (suc f) n small)
        (uvarint_from-last i x unit n rest (omega arith) (ltb→lt n 128 small) (inl (omega arith)))
  | inr large ↦ rw (put_bytes-large (suc f) n large) (
      uvarint_from-more i x unit (n % 128 + 128) _ (omega arith) (omega arith)
      ∙ uvarint_from-put_bytes f (i + 1) _ (unit * 128) (n / 128) rest (omega arith)
          (omega (arith, pow-suc 128 f))
      ∙ ap₂ (λ v k. some (v, k))
          (join_digit x unit (n / 128) (n % 128) (omega arith)
            ∙ ap (λ m. x + m * unit) (omega arith))
          (omega arith))
]

-- What the writer writes of a 64-bit number, the reader reads back, whatever bytes follow.
pub uvarint-put_uvarint :
    (n : ℕ) (rest : List ℕ)
    → n < 2 ^ 64
    → uvarint (put_uvarint n ++ rest) ≡ some (n, length (put_uvarint n))
unfolding uvarint put_uvarint
uvarint-put_uvarint n rest h =
    uvarint_from-put_bytes 9 0 0 1 n rest refl h
    ∙ ap₂ (λ v k. some (v, k)) (omega arith) (omega arith)

uvarint_from-bounds :
    (i x unit : ℕ) (buf : List ℕ) (v n : ℕ)
    → i ≤ 10
    → uvarint_from i x unit buf ≡ some (v, n)
    → (i < n) × (n ≤ i + length buf) × (n ≤ 10)
unfolding uvarint_from
uvarint_from-bounds i x unit [] v n start h = cc
uvarint_from-bounds i x unit (b ∷ buf) v n start h =
    ground (arith, uvarint_from-bounds (i + 1) (x + b % 128 * unit) (unit * 128) buf v n)

-- A number that is read takes at least one byte, at most ten, and none past the buffer.
pub uvarint_bounds :
    (buf : List ℕ) (v n : ℕ) → uvarint buf ≡ some (v, n) → (0 < n) × (n ≤ length buf) × (n ≤ 10)
unfolding uvarint
uvarint_bounds buf v n h = omega (arith, uvarint_from-bounds 0 0 1 buf v n (omega arith) h)
