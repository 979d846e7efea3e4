-- ===== src/Wire/Varint.antt =====
-- `binary.Uvarint` of Go's standard library, as protobuf.go uses it.
pub mod RoundTrip
use fragments_engine.Common.{
  ℕ, ◌+◌, ◌*◌, ◌%◌, Bool, ◌&&◌, Option, none, some, List, [], ◌∷◌, ltb, ◌==◌, if◌then◌else◌,
}

-- The loop over the buffer: `i` bytes were read, `x` is their value and `unit` is 2^(7 * i). The bits
-- that a round adds lie above those of `x`, so `|` is `+`. `none` stands for a count of 0 or below,
-- which is a buffer that ends inside the number, or a number that does not fit 64 bits.
uvarint_from : ℕ → ℕ → ℕ → List ℕ → Option (ℕ × ℕ)
uvarint_from i x unit [] = none
uvarint_from i x unit (b ∷ buf) =
    let more = uvarint_from (i + 1) (x + b % 128 * unit) (unit * 128) buf in
    if i == 10
    then none
    else if ltb b 128
    then (if (i == 9) && ltb 1 b then none else some (x + b * unit, i + 1))
    else more

-- The value, and how many bytes it takes.
unfoldable pub uvarint : List ℕ → Option (ℕ × ℕ)
unfolding uvarint_from
uvarint buf = uvarint_from 0 0 1 buf
