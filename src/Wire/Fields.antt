-- ===== src/Wire/Fields.antt =====
-- `fields` of protobuf.go: the length-delimited fields of one message, one level deep.
pub mod Bounds
pub mod RoundTrip
use fragments_engine.Common.{
  ℕ, zero, suc, ◌-◌, ◌*◌, ◌/◌, ◌%◌, ◌^◌, Bool, ◌||◌, Option, none, some, List, [], ◌∷◌, ltb, ◌==◌,
  length, take, drop, if◌then◌else◌,
}
use fragments_engine.Wire.Varint.{uvarint}

abbrev pub Bytes : Type 0
Bytes = List ℕ

-- The occurrences of fields in wire order. The code appends each to the list of its field number in
-- a map; `values` below reads that list. `none` is Go's nil, a field of another wire type.
abbrev pub Entries : Type 0
Entries = List (ℕ × Option Bytes)

abbrev pub max_payload : ℕ
max_payload = 10 * 1024 * 1024

abbrev pub max_count : ℕ
max_count = 100000

abbrev pub max_field : ℕ
max_field = 2 ^ 29 - 1

-- The switch on the wire type: the size of the payload, and the input from the payload on.
payload_size : ℕ → Bytes → Option (ℕ × Bytes)
payload_size wire raw =
    if wire == 0
    then (elim (uvarint raw) [ none ↦ none | some (v, n) ↦ some (n, raw) ])
    else if wire == 1
    then some (8, raw)
    else if wire == 2
    then (elim (uvarint raw) [ none ↦ none | some (size, n) ↦ some (size, drop n raw) ])
    else if wire == 5
    then some (4, raw)
    else none

cut_payload : ℕ → ℕ → ℕ × Bytes → Option (ℕ × Option Bytes × Bytes)
cut_payload field wire (size, raw) =
    if ltb (length raw) size
    then none
    else some (field, if wire == 2 then some (take size raw) else none, drop size raw)

-- A field after its tag: the number lies in the tag's upper bits, the wire type in the low three.
read_tagged : ℕ → Bytes → Option (ℕ × Option Bytes × Bytes)
read_tagged tag raw =
    if tag / 8 == 0 || ltb max_field (tag / 8) then none else elim (payload_size (tag % 8) raw) [
      | none ↦ none
      | some sized ↦ cut_payload (tag / 8) (tag % 8) sized
    ]

-- One round of the loop: a field's number, its value, and the input after it.
read_entry : Bytes → Option (ℕ × Option Bytes × Bytes)
read_entry raw = elim (uvarint raw) [ none ↦ none | some (tag, n) ↦ read_tagged tag (drop n raw) ]

abbrev prepend : ℕ × Option Bytes → Option Entries → Option Entries
prepend entry none = none
prepend entry (some rest) = some (entry ∷ rest)

-- `left` counts the rounds down from `max_count`: the code's `count >= 100000` is 0 left.
pub fields_loop : ℕ → Bytes → Option Entries
fields_loop zero [] = some []
fields_loop zero (b ∷ raw) = none
fields_loop (suc left) [] = some []
fields_loop (suc left) (b ∷ raw) = elim (read_entry (b ∷ raw)) [
  | none ↦ none
  | some (field, value, rest) ↦ prepend (field, value) (fields_loop left rest)
]

-- `none` is `errPayload`, the only error.
unfoldable pub fields : Bytes → Option Entries
unfolding fields_loop read_entry read_tagged payload_size cut_payload
fields raw = if ltb max_payload (length raw) then none else fields_loop max_count raw

-- The map's list of a field number.
unfoldable pub values : ℕ → Entries → List (Option Bytes)
values field [] = []
values field ((f, v) ∷ rest) =
    let others = values field rest in if f == field then v ∷ others else others
