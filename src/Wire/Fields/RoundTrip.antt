-- ===== src/Wire/Fields/RoundTrip.antt =====
-- The reader against an independent writer of protobuf's wire format.
use fragments_engine.Common.{
  ℕ, zero, suc, ◌+◌, ◌*◌, ◌^◌, ◌≤◌, ◌<◌, ◌≡◌, refl, ◌∙◌, ap, Option, none, some, List, [], ◌∷◌,
  ◌++◌, map, arith, length, All, take-append, drop-append, length-append, append_assoc, sym,
  if◌then◌else◌, ◌==◌, drop, ◌/◌, ◌%◌,
}
use fragments_engine.Wire.Varint.{uvarint}
use fragments_engine.Wire.Varint.RoundTrip.{put_uvarint, uvarint-put_uvarint}
use fragments_engine.Wire.Fields.Bounds.{fields-loop}
use fragments_engine.Wire.Fields.{
  Bytes, fields, fields_loop, read_entry, read_tagged, prepend, payload_size, cut_payload,
  max_count, max_payload, max_field,
}

-- A field's value on the wire: its wire types are 0, 1, 2 and 5.
pub data WireValue : Type 0 where
  varint : ℕ → WireValue
  fixed64 : Bytes → WireValue
  delimited : Bytes → WireValue
  fixed32 : Bytes → WireValue

abbrev pub wire_type : WireValue → ℕ
wire_type (varint n) = 0
wire_type (fixed64 p) = 1
wire_type (delimited p) = 2
wire_type (fixed32 p) = 5

abbrev pub put_value : WireValue → Bytes
put_value (varint n) = put_uvarint n
put_value (fixed64 p) = p
put_value (delimited p) = put_uvarint (length p) ++ p
put_value (fixed32 p) = p

abbrev pub put_field : ℕ × WireValue → Bytes
put_field (field, v) = put_uvarint (field * 8 + wire_type v) ++ put_value v

abbrev pub put_message : List (ℕ × WireValue) → Bytes
put_message [] = []
put_message (f ∷ m) = put_field f ++ put_message m

abbrev pub IsWritable : WireValue → Type 0
IsWritable (varint n) = n < 2 ^ 64
IsWritable (fixed64 p) = length p ≡ 8
IsWritable (delimited p) = length p < 2 ^ 64
IsWritable (fixed32 p) = length p ≡ 4

abbrev pub IsField : ℕ × WireValue → Type 0
IsField (field, v) = (1 ≤ field) × (field ≤ max_field) × IsWritable v

-- What the reader keeps of a field.
abbrev pub value_of : WireValue → Option Bytes
value_of (delimited p) = some p
value_of _ = none

abbrev pub entry_of : ℕ × WireValue → ℕ × Option Bytes
entry_of (field, v) = (field, value_of v)

cut_payload-append :
    (field wire n : ℕ) (p rest : Bytes)
    → n ≡ length p
    → cut_payload field wire (n, p ++ rest) ≡ some (field, if wire == 2 then some p else none, rest)
unfolding cut_payload
cut_payload-append field wire n p rest e =
    ground (arith, length-append p rest, take-append n p rest e, drop-append n p rest e)

drop_uvarint : (n : ℕ) (rest : Bytes) → drop (length (put_uvarint n)) (put_uvarint n ++ rest) ≡ rest
drop_uvarint n rest = drop-append (length (put_uvarint n)) (put_uvarint n) rest refl

payload_size-put_uvarint :
    (n : ℕ) (rest : Bytes) → n < 2 ^ 64 → payload_size 2 (put_uvarint n ++ rest) ≡ some (n, rest)
unfolding payload_size
payload_size-put_uvarint n rest h =
    ground (arith, uvarint-put_uvarint n rest h, drop_uvarint n rest)

read_value :
    (field : ℕ) (v : WireValue) (rest : Bytes)
    → IsWritable v
    → (sized : ℕ × Bytes) × (payload_size (wire_type v) (put_value v ++ rest) ≡ some sized)
      × (cut_payload field (wire_type v) sized ≡ some (field, value_of v, rest))
unfolding payload_size
read_value field (varint n) rest h = (
  (length (put_uvarint n), put_uvarint n ++ rest),
  rw (uvarint-put_uvarint n rest h),
  cut_payload-append field 0 (length (put_uvarint n)) (put_uvarint n) rest refl,
)
read_value field (fixed64 p) rest h =
    ((8, p ++ rest), refl, cut_payload-append field 1 8 p rest (sym h))
read_value field (delimited p) rest h = (
  (length p, p ++ rest),
  ap (payload_size 2) (append_assoc (put_uvarint (length p)) p rest)
      ∙ payload_size-put_uvarint (length p) (p ++ rest) h,
  cut_payload-append field 2 (length p) p rest refl,
)
read_value field (fixed32 p) rest h =
    ((4, p ++ rest), refl, cut_payload-append field 5 4 p rest (sym h))

tag_parts :
    (field : ℕ) (v : WireValue)
    → ((field * 8 + wire_type v) / 8 ≡ field) × ((field * 8 + wire_type v) % 8 ≡ wire_type v)
tag_parts field (varint n) = omega arith
tag_parts field (fixed64 p) = omega arith
tag_parts field (delimited p) = omega arith
tag_parts field (fixed32 p) = omega arith

tag-lt : (field : ℕ) (v : WireValue) → field ≤ max_field → field * 8 + wire_type v < 2 ^ 64
tag-lt field (varint n) h = omega arith
tag-lt field (fixed64 p) h = omega arith
tag-lt field (delimited p) h = omega arith
tag-lt field (fixed32 p) h = omega arith

read_entry-put_uvarint :
    (tag : ℕ) (rest : Bytes)
    → tag < 2 ^ 64
    → read_entry (put_uvarint tag ++ rest) ≡ read_tagged tag rest
unfolding read_entry
read_entry-put_uvarint tag rest h =
    ground (arith, uvarint-put_uvarint tag rest h, drop_uvarint tag rest)

read_tagged-put_value :
    (field tag : ℕ) (v : WireValue) (rest : Bytes)
    → IsField (field, v)
    → tag / 8 ≡ field
    → tag % 8 ≡ wire_type v
    → read_tagged tag (put_value v ++ rest) ≡ some (field, value_of v, rest)
unfolding read_tagged
read_tagged-put_value field tag v rest (least, most, writable) field_eq type_eq =
    let (sized, size_eq, cut_eq) = read_value field v rest writable in
    ground (arith, size_eq, cut_eq)

-- One field that is written is read back, with all that follows it.
read_entry-put_field :
    (f : ℕ × WireValue) (rest : Bytes)
    → IsField f
    → read_entry (put_field f ++ rest) ≡ some (f.0, value_of f.1, rest)
read_entry-put_field (field, v) rest h =
    let tag = field * 8 + wire_type v in
    let (field_eq, type_eq) = tag_parts field v in
    ap read_entry (append_assoc (put_uvarint tag) (put_value v) rest)
    ∙ read_entry-put_uvarint tag (put_value v ++ rest) (tag-lt field v h.1)
    ∙ read_tagged-put_value field tag v rest h field_eq type_eq

not-read_entry-nil : {out : ℕ × Option Bytes × Bytes} → ¬ (read_entry [] ≡ some out)
unfolding read_entry uvarint
not-read_entry-nil h = cc

fields_loop-read :
    (left : ℕ) (raw : Bytes) (field : ℕ) (v : Option Bytes) (rest : Bytes)
    → read_entry raw ≡ some (field, v, rest)
    → fields_loop (suc left) raw ≡ prepend (field, v) (fields_loop left rest)
unfolding fields_loop
fields_loop-read left [] field v rest h = absurd (not-read_entry-nil h)
fields_loop-read left (b ∷ raw) field v rest h = rw (h, fields_loop)

fields_loop-put_field :
    (left : ℕ) (f : ℕ × WireValue) (rest : Bytes)
    → IsField f
    → fields_loop (suc left) (put_field f ++ rest) ≡ prepend (entry_of f) (fields_loop left rest)
fields_loop-put_field left f rest h =
    fields_loop-read left (put_field f ++ rest) f.0 (value_of f.1) rest
      (read_entry-put_field f rest h)

fields_loop-put_message :
    (left : ℕ) (m : List (ℕ × WireValue))
    → length m ≤ left
    → All IsField m
    → fields_loop left (put_message m) ≡ some (map entry_of m)
unfolding fields_loop
fields_loop-put_message zero [] count h = refl
fields_loop-put_message (suc left) [] count h = refl
fields_loop-put_message zero (f ∷ m) count h = absurd (omega arith)
fields_loop-put_message (suc left) (f ∷ m) count h =
    fields_loop-put_field left f (put_message m) h.0
    ∙ ap (prepend (entry_of f)) (fields_loop-put_message left m (omega arith) h.1)

-- A message of at most 100000 fields and 10 MiB that is written is read back field by field: the
-- bytes of each length-delimited field, and the mere presence of each other one.
pub fields-put_message :
    (m : List (ℕ × WireValue))
    → All IsField m
    → length m ≤ max_count
    → length (put_message m) ≤ max_payload
    → fields (put_message m) ≡ some (map entry_of m)
fields-put_message m h count size =
    fields-loop (put_message m) size ∙ fields_loop-put_message max_count m count h
