-- ===== src/Wire/Fields/Bounds.antt =====
-- What is read is no larger than what was given.
use native.Mathlib.Decide.{dec_lt}
use fragments_engine.Common.{
  ℕ, zero, suc, ◌+◌, ◌*◌, ◌%◌, ◌/◌, ◌≤◌, ◌<◌, ◌≡◌, Option, none, some, [], ◌∷◌, arith, lt→ltb, sym,
  ◌∙◌, ltb, true, false, ◌==◌, ◌⊎◌, length, length-take, length-drop, drop, inl, inr, Option-cases,
}
use fragments_engine.Wire.Varint.{uvarint}
use fragments_engine.Wire.Varint.RoundTrip.{uvarint_bounds}
use fragments_engine.Wire.Fields.{
  Bytes, Entries, fields, fields_loop, read_entry, read_tagged, payload_size, cut_payload,
  max_count, max_payload,
}

abbrev pub value_length : Option Bytes → ℕ
value_length none = 0
value_length (some p) = length p

-- The bytes of all values that were kept.
abbrev pub kept : Entries → ℕ
kept [] = 0
kept ((f, v) ∷ rest) = value_length v + kept rest

-- A length-delimited payload starts past its length; any other takes some bytes of the input.
abbrev SizedAt : ℕ → Bytes → ℕ × Bytes → Type 0
SizedAt wire raw (size, raw') =
    ((wire == 2) ≡ true) × (length raw' < length raw)
    ⊎ ((wire == 2) ≡ false) × (length raw' ≡ length raw) × (0 < size)

payload_size-SizedAt :
    (wire : ℕ) (raw : Bytes) (sized : ℕ × Bytes)
    → payload_size wire raw ≡ some sized
    → SizedAt wire raw sized
unfolding payload_size
payload_size-SizedAt wire raw (size, raw') h = elim (Option-cases (uvarint raw)) [
  | inl e ↦ ground (arith)
  | inr ((v, n), e) ↦ ground (arith, uvarint_bounds raw v n e, length-drop n raw)
]

-- The payload of a field: what is kept of it and the rest are shorter than the input.
cut_payload_bounds :
    (f wire field : ℕ) (raw rest : Bytes) (v : Option Bytes) (sized : ℕ × Bytes)
    → SizedAt wire raw sized
    → cut_payload f wire sized ≡ some (field, v, rest)
    → suc (value_length v + length rest) ≤ length raw
unfolding cut_payload
cut_payload_bounds f wire field raw rest v (size, raw') s h =
    ground (arith, length-take size raw', length-drop size raw')

-- Every round takes two bytes at least, besides those that it keeps.
read_entry_bounds :
    (raw : Bytes) (field : ℕ) (v : Option Bytes) (rest : Bytes)
    → read_entry raw ≡ some (field, v, rest)
    → 2 + value_length v + length rest ≤ length raw
unfolding read_entry read_tagged
read_entry_bounds raw field v rest h = elim (Option-cases (uvarint raw)) [
  | inl e ↦ ground arith
  | inr ((tag, n), e) ↦ elim (Option-cases (payload_size (tag % 8) (drop n raw))) [
    | inl none_sized ↦ ground arith
    | inr (sized, e') ↦ ground (
      arith,
      uvarint_bounds raw tag n e,
      length-drop n raw,
      cut_payload_bounds (tag / 8) (tag % 8) field (drop n raw) rest v sized
          (payload_size-SizedAt (tag % 8) (drop n raw) sized e'),
    )
  ]
]

-- The entries take two bytes each besides what they keep, and are as many as rounds are left.
fields_loop_bounds :
    (left : ℕ) (raw : Bytes) (entries : Entries)
    → fields_loop left raw ≡ some entries
    → (2 * length entries + kept entries ≤ length raw) × (length entries ≤ left)
unfolding fields_loop
fields_loop_bounds zero [] entries h = ground arith
fields_loop_bounds zero (b ∷ raw) entries h = cc
fields_loop_bounds (suc left) [] entries h = ground arith
fields_loop_bounds (suc left) (b ∷ raw) entries h = elim (Option-cases (read_entry (b ∷ raw))) [
  | inl e ↦ ground arith
  | inr ((field, v, rest), e) ↦ elim (Option-cases (fields_loop left rest)) [
    | inl e' ↦ ground arith
    | inr (others, e') ↦
        ground (
          arith,
          read_entry_bounds (b ∷ raw) field v rest e,
          fields_loop_bounds left rest others e',
        )
  ]
]

fields-large : (raw : Bytes) → max_payload < length raw → fields raw ≡ none
unfolding fields
fields-large raw large = rw (lt→ltb max_payload (length raw) large)

pub fields-loop : (raw : Bytes) → length raw ≤ max_payload → fields raw ≡ fields_loop max_count raw
unfolding fields
fields-loop raw fits = let e : ltb max_payload (length raw) ≡ false = ground arith in rw e

-- A message that is read has at most 10 MiB and at most 100000 fields, and its fields take two bytes
-- each besides the payloads that are kept: the reader never keeps more than it was given.
pub fields_bounds :
    (raw : Bytes) (entries : Entries)
    → fields raw ≡ some entries
    → (length raw ≤ max_payload)
      × (length entries ≤ max_count)
      × (2 * length entries + kept entries ≤ length raw)
fields_bounds raw entries h = elim (dec_lt max_payload (length raw)) [
  | yes large ↦ cc (fields-large raw large)
  | no small ↦
      let fits : length raw ≤ max_payload = omega arith in
      let (size, count) =
        fields_loop_bounds max_count raw entries (sym (fields-loop raw fits) ∙ h) in
      (fits, count, size)
]
