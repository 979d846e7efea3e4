-- ===== src/Wire/Examples.antt =====
-- Payloads small enough to run, and each theorem at one of them.
use fragments_engine.Common.{
  ℕ, ◌+◌, ◌*◌, ◌≤◌, ◌≡◌, refl, true, false, some, none, List, [], ◌∷◌, ◌++◌, map, arith,
}
use fragments_engine.Wire.Varint.{uvarint}
use fragments_engine.Wire.Varint.RoundTrip.{put_uvarint}
use fragments_engine.Wire.Text.{valid_text, is_blank}
use fragments_engine.Wire.Text.Laws.{valid_text-newline}
use fragments_engine.Wire.Fields.{Bytes, fields, values, max_payload, max_count}
use fragments_engine.Wire.Fields.Bounds.{fields_bounds}
use fragments_engine.Wire.Fields.RoundTrip.{
  WireValue, varint, delimited, put_message, entry_of, fields-put_message,
}
use fragments_engine.Wire.Step.{step_text}
use fragments_engine.Wire.Step.Sound.{IsText, step_text-IsText, step_text-one_field}
use fragments_engine.Wire.Step.Decode.{IsMessage, step_text_planner, step_text_user}

abbrev hi : Bytes
hi = b'h' ∷ b'i' ∷ []

abbrev planner_inner : List (ℕ × WireValue)
planner_inner = (1, delimited hi) ∷ (2, varint 300) ∷ []

abbrev planner_outer : List (ℕ × WireValue)
planner_outer = (20, delimited (put_message planner_inner)) ∷ (5, varint 7) ∷ []

abbrev user_inner : List (ℕ × WireValue)
user_inner = (2, delimited hi) ∷ []

abbrev user_outer : List (ℕ × WireValue)
user_outer = (19, delimited (put_message user_inner)) ∷ []

fields_hi : fields (10 ∷ 2 ∷ hi) ≡ some ((1, some hi) ∷ [])
unfolding fields uvarint
fields_hi = refl

fields_bounds_example : (4 ≤ max_payload) × (1 ≤ max_count) × (2 * 1 + 2 ≤ 4)
fields_bounds_example = fields_bounds (10 ∷ 2 ∷ hi) ((1, some hi) ∷ []) fields_hi

valid_hi : valid_text hi ≡ true
unfolding valid_text
valid_hi = refl

valid_text-newline_example : valid_text (hi ++ b'\n' ∷ hi) ≡ true
valid_text-newline_example = valid_text-newline hi hi valid_hi valid_hi

planner_inner-IsMessage : IsMessage planner_inner
unfolding put_uvarint
planner_inner-IsMessage = record { fields = omega arith; count = omega arith; size = omega arith }

planner_outer-IsMessage : IsMessage planner_outer
unfolding put_uvarint
planner_outer-IsMessage = record { fields = omega arith; count = omega arith; size = omega arith }

user_inner-IsMessage : IsMessage user_inner
unfolding put_uvarint
user_inner-IsMessage = record { fields = omega arith; count = omega arith; size = omega arith }

user_outer-IsMessage : IsMessage user_outer
unfolding put_uvarint
user_outer-IsMessage = record { fields = omega arith; count = omega arith; size = omega arith }

fields-put_message_example :
    fields (put_message planner_inner) ≡ some ((1, some hi) ∷ (2, none) ∷ [])
fields-put_message_example =
    fields-put_message planner_inner planner_inner-IsMessage.fields planner_inner-IsMessage.count
      planner_inner-IsMessage.size

planner_part : values 20 (map entry_of planner_outer) ≡ some (put_message planner_inner) ∷ []
unfolding values
planner_part = refl

planner_once : values 1 (map entry_of planner_inner) ≡ some hi ∷ []
unfolding values
planner_once = refl

step_text_planner_example : step_text 15 (put_message planner_outer) ≡ some hi
step_text_planner_example =
    step_text_planner 15 planner_outer planner_inner hi planner_outer-IsMessage
      planner_inner-IsMessage planner_part valid_hi refl planner_once

user_part : values 19 (map entry_of user_outer) ≡ some (put_message user_inner) ∷ []
unfolding values
user_part = refl

user_once : values 2 (map entry_of user_inner) ≡ some hi ∷ []
unfolding values
user_once = refl

hi_filled : is_blank hi ≡ false
unfolding is_blank
hi_filled = refl

step_text_user_example : step_text 14 (put_message user_outer) ≡ some hi
step_text_user_example =
    step_text_user 14 user_outer user_inner hi user_outer-IsMessage user_inner-IsMessage user_part
      valid_hi (omega arith) user_once hi_filled

step_text-IsText_example : IsText hi
step_text-IsText_example = step_text-IsText 14 (put_message user_outer) hi step_text_user_example

-- One payload with a second field, and one without it.
abbrev user_outer_more : List (ℕ × WireValue)
user_outer_more = (19, delimited (put_message user_inner)) ∷ (5, varint 7) ∷ []

user_outer_more-IsMessage : IsMessage user_outer_more
unfolding put_uvarint
user_outer_more-IsMessage = record { fields = omega arith; count = omega arith; size = omega arith }

user_outer-read : fields (put_message user_outer) ≡ some (map entry_of user_outer)
user_outer-read =
    fields-put_message user_outer user_outer-IsMessage.fields user_outer-IsMessage.count
      user_outer-IsMessage.size

user_outer_more-read : fields (put_message user_outer_more) ≡ some (map entry_of user_outer_more)
user_outer_more-read =
    fields-put_message user_outer_more user_outer_more-IsMessage.fields
      user_outer_more-IsMessage.count user_outer_more-IsMessage.size

user_same : values 19 (map entry_of user_outer) ≡ values 19 (map entry_of user_outer_more)
unfolding values
user_same = refl

step_text-one_field_example :
    step_text 14 (put_message user_outer) ≡ step_text 14 (put_message user_outer_more)
step_text-one_field_example =
    step_text-one_field 14 (put_message user_outer) (put_message user_outer_more)
      (map entry_of user_outer) (map entry_of user_outer_more) user_outer-read user_outer_more-read
      user_same
