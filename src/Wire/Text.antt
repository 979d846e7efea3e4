-- ===== src/Wire/Text.antt =====
-- Text in payloads: `validText` of protobuf.go, and what it uses of Go's `utf8.Valid` and
-- `strings.TrimSpace`.
pub mod Laws
use fragments_engine.Common.{
  ℕ, zero, suc, Bool, true, false, ◌&&◌, ◌||◌, Option, none, some, List, [], ◌∷◌, ltb, leb, ◌==◌,
  if◌then◌else◌,
}

abbrev between : ℕ → ℕ → ℕ → Bool
between lo hi b = leb lo b && leb b hi

-- The state inside a character: how many bytes it still wants, and the range of the next one.
-- The lead bytes and their ranges are the table of Go's `unicode/utf8`.
utf8_lead : ℕ → Option (ℕ × ℕ × ℕ)
utf8_lead b =
    if ltb b 0x80
    then some (0, 0x80, 0xbf)
    else if between 0xc2 0xdf b
    then some (1, 0x80, 0xbf)
    else if b == 0xe0
    then some (2, 0xa0, 0xbf)
    else if b == 0xed
    then some (2, 0x80, 0x9f)
    else if between 0xe1 0xef b
    then some (2, 0x80, 0xbf)
    else if b == 0xf0
    then some (3, 0x90, 0xbf)
    else if between 0xf1 0xf3 b
    then some (3, 0x80, 0xbf)
    else if b == 0xf4
    then some (3, 0x80, 0x8f)
    else none

utf8_step : ℕ → ℕ → ℕ → ℕ → Option (ℕ × ℕ × ℕ)
utf8_step zero lo hi b = utf8_lead b
utf8_step (suc wanted) lo hi b = if between lo hi b then some (wanted, 0x80, 0xbf) else none

valid_from : ℕ → ℕ → ℕ → List ℕ → Bool
valid_from wanted lo hi [] = wanted == 0
valid_from wanted lo hi (b ∷ raw) = elim (utf8_step wanted lo hi b) [
  | none ↦ false
  | some (wanted', lo', hi') ↦ valid_from wanted' lo' hi' raw
]

-- `utf8.Valid`.
unfoldable pub valid_utf8 : List ℕ → Bool
unfolding valid_from utf8_step utf8_lead
valid_utf8 raw = valid_from 0 0x80 0xbf raw

-- The test of the loop in `validText`, negated.
is_printable : ℕ → Bool
is_printable b =
    (leb 32 b || b == b'\n' || b == b'\r' || b == b'\t') && (if b == 127 then false else true)

all_printable : List ℕ → Bool
all_printable [] = true
all_printable (b ∷ raw) = is_printable b && all_printable raw

unfoldable pub valid_text : List ℕ → Bool
unfolding valid_utf8 all_printable is_printable
valid_text raw = valid_utf8 raw && all_printable raw

-- Go's white space (`unicode.IsSpace`) in UTF-8: one, two or three bytes.
ascii_space : ℕ → Bool
ascii_space a = between 9 13 a || a == 32

space2 : ℕ → ℕ → Bool
space2 a b = a == 0xc2 && (b == 0x85 || b == 0xa0)

space3 : ℕ → ℕ → ℕ → Bool
space3 a b c =
    a == 0xe1 && b == 0x9a && c == 0x80
    || a == 0xe2 && b == 0x80 && (between 0x80 0x8a c || c == 0xa8 || c == 0xa9 || c == 0xaf)
    || a == 0xe2 && b == 0x81 && c == 0x9f
    || a == 0xe3 && b == 0x80 && c == 0x80

-- `strings.TrimSpace(text) == ""`.
unfoldable pub is_blank : List ℕ → Bool
unfolding ascii_space space2 space3
is_blank [] = true
is_blank (a ∷ []) = ascii_space a
is_blank (a ∷ b ∷ []) = ascii_space a && ascii_space b || space2 a b
is_blank (a ∷ b ∷ c ∷ text) =
    let after_one = is_blank (b ∷ c ∷ text) in
    let after_two = is_blank (c ∷ text) in
    let after_three = is_blank text in
    if ascii_space a
    then after_one
    else if space2 a b
    then after_two
    else if space3 a b c
    then after_three
    else false
