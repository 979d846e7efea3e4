-- ===== src/Wire/Step/Decode.antt =====
-- Steps that were written are read back.
use fragments_engine.Common.{
  ℕ, ◌≤◌, ◌≡◌, ◌≢◌, true, false, some, List, [], ◌∷◌, map, arith, length, All,
}
use fragments_engine.Wire.Text.{valid_text, is_blank}
use fragments_engine.Wire.Fields.{Bytes, Entries, values, max_count, max_payload}
use fragments_engine.Wire.Fields.RoundTrip.{
  WireValue, IsField, put_message, entry_of, fields-put_message,
}
use fragments_engine.Wire.Step.{
  text_of, string_field, user_text, inner_text, part_text, part_field, planner_step, step_text,
}

-- A message that may be written, within the reader's limits.
pub record IsMessage (m : List (ℕ × WireValue)) : Type 0 where
  pub fields : All IsField m
  pub count : length m ≤ max_count
  pub size : length (put_message m) ≤ max_payload

-- Its entries as the reader gives them.
abbrev pub entries_of : List (ℕ × WireValue) → Entries
entries_of m = map entry_of m

module _ (step_type : ℕ) (outer inner : List (ℕ × WireValue)) (text : Bytes)
    (outer_ok : IsMessage outer) (inner_ok : IsMessage inner)
    (part : values (part_field step_type) (entries_of outer) ≡ some (put_message inner) ∷ [])
    (valid : valid_text text ≡ true) where
  step_text-inner_text :
      step_text step_type (put_message outer) ≡ inner_text step_type (entries_of inner)
  unfolding step_text part_text
  step_text-inner_text = ground (
    arith,
    fields-put_message outer outer_ok.fields outer_ok.count outer_ok.size,
    fields-put_message inner inner_ok.fields inner_ok.count inner_ok.size,
  )

  field_text :
      (field : ℕ)
      → values field (entries_of inner) ≡ some text ∷ []
      → string_field (entries_of inner) field ≡ some text
  unfolding string_field text_of
  field_text field once = rw (once, text_of, valid)

  -- A planner response whose part holds the text once, in field 1, yields it, whatever other fields
  -- stand in the payload and in the part.
  pub step_text_planner :
      step_type ≡ planner_step
      → values 1 (entries_of inner) ≡ some text ∷ []
      → step_text step_type (put_message outer) ≡ some text
  unfolding inner_text
  step_text_planner planner once = ground (arith, step_text-inner_text, field_text 1 once)

  -- A user input whose part holds a text that is not blank once, in field 2, yields it.
  pub step_text_user :
      step_type ≢ planner_step
      → values 2 (entries_of inner) ≡ some text ∷ []
      → is_blank text ≡ false
      → step_text step_type (put_message outer) ≡ some text
  unfolding inner_text user_text
  step_text_user user once filled = ground (arith, step_text-inner_text, field_text 2 once)
