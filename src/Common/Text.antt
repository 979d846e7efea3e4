-- ===== src/Common/Text.antt =====
-- `strings.TrimSpace` of Go, on a text's characters.
use fragments_engine.Common.Tests.{leb, ◌==◌, if◌then◌else◌}
use Prim.Native.Nat.{ℕ}
use Prim.Native.Char.{code}
use text.Mathlib.Text.{◌==◌ as str_eq}
use text.Mathlib.TextEquality.{eq_iff}
use mathlib.Core.Path.{◌≡◌, refl}
use Prim.Native.String.{String, [], ◌∷◌}
use mathlib.Core.Bool.{Bool, true, false, ◌&&◌, ◌||◌}

-- `unicode.IsSpace` of a character's number.
abbrev pub is_space : ℕ → Bool
is_space n =
    (leb 9 n && leb n 13)
    || n == 32
    || n == 133
    || n == 160
    || n == 5760
    || (leb 8192 n && leb n 8202)
    || n == 8232
    || n == 8233
    || n == 8239
    || n == 8287
    || n == 12288

abbrev pub is_empty : String → Bool
is_empty [] = true
is_empty (c ∷ s) = false

unfoldable pub trim_left : String → String
trim_left [] = []
trim_left (c ∷ s) = if is_space (code c) then trim_left s else c ∷ s

unfoldable pub trim_right : String → String
trim_right [] = []
trim_right (c ∷ s) =
    let rest = trim_right s in if is_empty rest && is_space (code c) then [] else c ∷ rest

abbrev pub trim_space : String → String
trim_space s = trim_right (trim_left s)

trim_space-empty : trim_space "" ≡ ""
unfolding trim_left trim_right
trim_space-empty = refl

pub trim_space_blank : (s : String) → str_eq s "" ≡ true → str_eq (trim_space s) "" ≡ true
trim_space_blank s h = rw ((eq_iff s "").0 h) (rw trim_space-empty refl)
