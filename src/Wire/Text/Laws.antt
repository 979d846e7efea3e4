-- ===== src/Wire/Text/Laws.antt =====
-- Valid texts, joined.
use fragments_engine.Common.{
  ℕ, ◌≡◌, refl, true, List, [], ◌∷◌, ◌++◌, arith, Option-cases, inl, inr, ◌∙◌,
}
use fragments_engine.Wire.Text.{
  valid_from, utf8_step, valid_utf8, is_printable, all_printable, valid_text,
}

-- Between characters the range of the next continuation byte does not matter.
valid_from-range :
    (lo hi lo' hi' : ℕ) (raw : List ℕ) → valid_from 0 lo hi raw ≡ valid_from 0 lo' hi' raw
unfolding valid_from utf8_step
valid_from-range lo hi lo' hi' [] = refl
valid_from-range lo hi lo' hi' (b ∷ raw) = refl

valid_from-append :
    (wanted lo hi : ℕ) (xs ys : List ℕ)
    → valid_from wanted lo hi xs ≡ true
    → valid_from 0 0x80 0xbf ys ≡ true
    → valid_from wanted lo hi (xs ++ ys) ≡ true
unfolding valid_from
valid_from-append wanted lo hi [] ys hx hy =
    let e : wanted ≡ 0 = ground arith in rw e (valid_from-range lo hi 0x80 0xbf ys ∙ hy)
valid_from-append wanted lo hi (b ∷ xs) ys hx hy = elim (Option-cases (utf8_step wanted lo hi b)) [
  | inl e ↦ ground arith
  | inr ((w, l, h), e) ↦ ground (arith, valid_from-append w l h xs ys)
]

all_printable-append :
    (xs ys : List ℕ)
    → all_printable xs ≡ true
    → all_printable ys ≡ true
    → all_printable (xs ++ ys) ≡ true
unfolding all_printable
all_printable-append [] ys hx hy = hy
all_printable-append (b ∷ xs) ys hx hy = ground (arith, all_printable-append xs ys)

valid_utf8-newline :
    (xs ys : List ℕ)
    → valid_utf8 xs ≡ true
    → valid_utf8 ys ≡ true
    → valid_utf8 (xs ++ b'\n' ∷ ys) ≡ true
unfolding valid_utf8
valid_utf8-newline xs ys hx hy = valid_from-append 0 0x80 0xbf xs (b'\n' ∷ ys) hx hy

all_printable-newline :
    (xs ys : List ℕ)
    → all_printable xs ≡ true
    → all_printable ys ≡ true
    → all_printable (xs ++ b'\n' ∷ ys) ≡ true
unfolding all_printable is_printable
all_printable-newline xs ys hx hy = all_printable-append xs (b'\n' ∷ ys) hx hy

-- Valid texts around a newline make a valid text.
pub valid_text-newline :
    (xs ys : List ℕ)
    → valid_text xs ≡ true
    → valid_text ys ≡ true
    → valid_text (xs ++ b'\n' ∷ ys) ≡ true
unfolding valid_text
valid_text-newline xs ys hx hy =
    ground (arith, valid_utf8-newline xs ys, all_printable-newline xs ys)
