-- ===== src/Wire/Step.antt =====
-- `stepText` of protobuf.go: the text of one Antigravity step.
pub mod Sound
pub mod Decode
use fragments_engine.Common.{
  ℕ, Bool, true, false, Option, none, some, List, [], ◌∷◌, ◌++◌, ◌==◌, if◌then◌else◌,
}
use fragments_engine.Wire.Text.{valid_text, is_blank}
use fragments_engine.Wire.Fields.{Bytes, Entries, fields, values}

-- `stringField`: an absent field is the empty text; a field that is repeated, of another wire type
-- or not valid text is refused.
text_of : List (Option Bytes) → Option Bytes
text_of [] = some []
text_of (some p ∷ []) = if valid_text p then some p else none
text_of _ = none

unfoldable pub string_field : Entries → ℕ → Option Bytes
unfolding text_of values
string_field entries field = text_of (values field entries)

-- One round of the loop over the items of field 3: their texts that are not blank.
item_text : Option Bytes → Option Bytes
item_text none = none
item_text (some item) = elim (fields item) [ none ↦ none | some entries ↦ string_field entries 1 ]

item_texts : List (Option Bytes) → Option (List Bytes)
item_texts [] = some []
item_texts (item ∷ items) = elim (item_text item) [
  | none ↦ none
  | some text ↦ elim (item_texts items) [
    | none ↦ none
    | some texts ↦ some (if is_blank text then texts else text ∷ texts)
  ]
]

-- `strings.Join(items, "\n")`.
unfoldable pub join_lines : Bytes → List Bytes → Bytes
join_lines text [] = text
join_lines text (next ∷ texts) = text ++ b'\n' ∷ join_lines next texts

-- What follows the items: they are joined, or without any field 1 is read.
items_or_first : Entries → List Bytes → Option Bytes
items_or_first inner [] = string_field inner 1
items_or_first inner (text ∷ texts) = some (join_lines text texts)

-- A user input: field 2 if it is not blank, else the items of field 3, else field 1.
user_text : Entries → Option Bytes
user_text inner = elim (string_field inner 2) [
  | none ↦ none
  | some text ↦
      if is_blank text
      then elim (item_texts (values 3 inner)) [
        | none ↦ none
        | some texts ↦ items_or_first inner texts
      ]
      else some text
]

abbrev pub planner_step : ℕ
planner_step = 15

inner_text : ℕ → Entries → Option Bytes
inner_text step_type inner =
    if step_type == planner_step then string_field inner 1 else user_text inner

-- The one part that the step's type names.
part_text : ℕ → List (Option Bytes) → Option Bytes
part_text step_type (some part ∷ []) = elim (fields part) [
  | none ↦ none
  | some inner ↦ inner_text step_type inner
]
part_text step_type _ = none

abbrev pub part_field : ℕ → ℕ
part_field step_type = if step_type == planner_step then 20 else 19

unfoldable pub step_text : ℕ → Bytes → Option Bytes
unfolding part_text inner_text user_text items_or_first item_texts item_text
step_text step_type raw = elim (fields raw) [
  | none ↦ none
  | some outer ↦ part_text step_type (values (part_field step_type) outer)
]
