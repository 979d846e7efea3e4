-- ===== src/Wire/Step/Sound.antt =====
-- Every text that a step yields is valid text, and it comes from one field of the payload.
use fragments_engine.Common.{
  ℕ, ◌≡◌, refl, Bool, true, false, Option, none, some, List, [], ◌∷◌, arith, All, inl, inr,
  Option-cases, Bool-cases, if◌then◌else◌, ap, ◌==◌,
}
use fragments_engine.Wire.Text.{valid_text, is_blank}
use fragments_engine.Wire.Text.Laws.{valid_text-newline}
use fragments_engine.Wire.Fields.{Bytes, Entries, fields, values}
use fragments_engine.Wire.Step.{
  text_of, string_field, item_text, item_texts, join_lines, items_or_first, user_text, inner_text,
  part_text, part_field, planner_step, step_text,
}

abbrev pub IsText : Bytes → Type 0
IsText p = valid_text p ≡ true

nil-IsText : IsText []
unfolding valid_text
nil-IsText = refl

text_of-IsText : (vs : List (Option Bytes)) (p : Bytes) → text_of vs ≡ some p → IsText p
unfolding text_of
text_of-IsText [] p h = ground (arith, nil-IsText)
text_of-IsText (some q ∷ []) p h = ground arith
text_of-IsText vs p h = cc

string_field-IsText :
    (entries : Entries) (field : ℕ) (p : Bytes) → string_field entries field ≡ some p → IsText p
unfolding string_field
string_field-IsText entries field p h = text_of-IsText (values field entries) p h

item_text-IsText : (item : Option Bytes) (p : Bytes) → item_text item ≡ some p → IsText p
unfolding item_text
item_text-IsText none p h = cc
item_text-IsText (some item) p h = elim (Option-cases (fields item)) [
  | inl e ↦ ground arith
  | inr (entries, e) ↦ string_field-IsText entries 1 p (ground arith)
]

keep-IsText :
    (blank : Bool) (text : Bytes) (others : List Bytes)
    → IsText text
    → All IsText others
    → All IsText (if blank then others else text ∷ others)
keep-IsText true text others h hs = hs
keep-IsText false text others h hs = (h, hs)

item_texts-IsText :
    (items : List (Option Bytes)) (texts : List Bytes)
    → item_texts items ≡ some texts
    → All IsText texts
unfolding item_texts
item_texts-IsText [] [] h = tt
item_texts-IsText [] (t ∷ texts) h = cc
item_texts-IsText (item ∷ items) texts h = elim (Option-cases (item_text item)) [
  | inl e ↦ absurd (ground arith)
  | inr (text, e) ↦ elim (Option-cases (item_texts items)) [
    | inl e' ↦ absurd (ground arith)
    | inr (others, e') ↦
        let e'' : (if is_blank text then others else text ∷ others) ≡ texts = ground arith in
        rw (← e'') (
          keep-IsText (is_blank text) text others (item_text-IsText item text e)
            (item_texts-IsText items others e'))
  ]
]

join_lines-IsText :
    (text : Bytes) (texts : List Bytes)
    → IsText text
    → All IsText texts
    → IsText (join_lines text texts)
unfolding join_lines
join_lines-IsText text [] h hs = h
join_lines-IsText text (next ∷ texts) h hs =
    valid_text-newline text (join_lines next texts) h (join_lines-IsText next texts hs.0 hs.1)

items_or_first-IsText :
    (inner : Entries) (texts : List Bytes) (p : Bytes)
    → All IsText texts
    → items_or_first inner texts ≡ some p
    → IsText p
unfolding items_or_first
items_or_first-IsText inner [] p hs h = string_field-IsText inner 1 p h
items_or_first-IsText inner (t ∷ texts) p hs h =
    let e : join_lines t texts ≡ p = ground arith in rw (← e) (join_lines-IsText t texts hs.0 hs.1)

user_text-IsText : (inner : Entries) (p : Bytes) → user_text inner ≡ some p → IsText p
unfolding user_text
user_text-IsText inner p h = elim (Option-cases (string_field inner 2)) [
  | inl e ↦ ground arith
  | inr (text, e) ↦ elim (Bool-cases (is_blank text)) [
    | inr filled ↦ string_field-IsText inner 2 p (ground arith)
    | inl blank ↦ elim (Option-cases (item_texts (values 3 inner))) [
      | inl e' ↦ ground arith
      | inr (texts, e') ↦
          items_or_first-IsText inner texts p (item_texts-IsText (values 3 inner) texts e')
            (ground arith)
    ]
  ]
]

inner_text-IsText :
    (step_type : ℕ) (inner : Entries) (p : Bytes) → inner_text step_type inner ≡ some p → IsText p
unfolding inner_text
inner_text-IsText step_type inner p h = elim (Bool-cases (step_type == planner_step)) [
  | inl e ↦ string_field-IsText inner 1 p (ground arith)
  | inr e ↦ user_text-IsText inner p (ground arith)
]

part_text-IsText :
    (step_type : ℕ) (vs : List (Option Bytes)) (p : Bytes)
    → part_text step_type vs ≡ some p
    → IsText p
unfolding part_text
part_text-IsText step_type (some part ∷ []) p h = elim (Option-cases (fields part)) [
  | inl e ↦ ground arith
  | inr (inner, e) ↦ inner_text-IsText step_type inner p (ground arith)
]
part_text-IsText step_type vs p h = cc

-- Whatever the payload, the text that a step yields is valid UTF-8 with no control characters but
-- line feed, carriage return and tab.
pub step_text-IsText : (step_type : ℕ) (raw p : Bytes) → step_text step_type raw ≡ some p → IsText p
unfolding step_text
step_text-IsText step_type raw p h = elim (Option-cases (fields raw)) [
  | inl e ↦ ground arith
  | inr (outer, e) ↦
      part_text-IsText step_type (values (part_field step_type) outer) p (ground arith)
]

-- Two payloads that are read and that agree in the one field of the step's type, 20 for a planner
-- response and 19 for any other, yield the same text or refusal: no other field (tools, images,
-- thinking, metadata) bears on it.
pub step_text-one_field :
    (step_type : ℕ) (a b : Bytes) (outer_a outer_b : Entries)
    → fields a ≡ some outer_a
    → fields b ≡ some outer_b
    → values (part_field step_type) outer_a ≡ values (part_field step_type) outer_b
    → step_text step_type a ≡ step_text step_type b
unfolding step_text
step_text-one_field step_type a b outer_a outer_b ha hb same =
    rw (ha, step_text, hb, step_text) (ap (part_text step_type) same)
