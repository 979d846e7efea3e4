-- ===== src/Media/Digest.antt =====
-- `ContentDigest` of internal/domain/media.go: the one algorithm and the 64 digits.
use fragments_engine.Common.{ℕ, String, Bool, not, ◌&&◌, ◌||◌, ◌==◌, leb, str_eq, if◌then◌else◌}
use fragments_engine.Common.Error.{plain}
use fragments_engine.Common.Text.{trim_space}
use fragments_engine.Store.Action.{pure, raise}
use fragments_engine.Media.Types.{ContentDigest, Texts}
use fragments_engine.Media.Session.{MediaAction}
use Prim.Native.Char.{code}
use Prim.Native.String.{[], ◌∷◌, count}
use mathlib.Core.Bool.{true}

abbrev pub no_digest : ContentDigest
no_digest = record { algorithm = ""; value = "" }

-- `ContentDigest.Empty`
abbrev pub empty_digest : ContentDigest → Bool
empty_digest d = str_eq (trim_space d.algorithm) "" && str_eq (trim_space d.value) ""

-- A digit of `[a-f0-9]`.
abbrev is_hex : ℕ → Bool
is_hex n = (leb 97 n && leb n 102) || (leb 48 n && leb n 57)

all_hex : String → Bool
all_hex [] = true
all_hex (c ∷ s) = let rest = all_hex s in is_hex (code c) && rest

-- `^[a-f0-9]{64}$`
unfoldable pub sha256_hex : String → Bool
unfolding all_hex
sha256_hex s = count s == 64 && all_hex s

abbrev pub sha256_digest : String → ContentDigest
sha256_digest value = record { algorithm = "sha256"; value = value }

abbrev pub canonical_algorithm : String → String
canonical_algorithm a = if str_eq a "sha-256" then "sha256" else a

-- `ContentDigest.Normalized`
unfoldable pub normalized : Texts → ContentDigest → MediaAction ContentDigest
normalized texts d =
    let algorithm = canonical_algorithm (texts.to_lower (trim_space d.algorithm)) in
    let value = texts.to_lower (trim_space d.value) in
    if not (str_eq algorithm "sha256") || not (sha256_hex value)
    then raise (plain "digest must be sha256 with 64 lowercase hexadecimal characters")
    else pure (record { algorithm = algorithm; value = value })

-- A digest's column, which keeps the value, as the next load reads it.
abbrev pub stored_digest : ContentDigest → ContentDigest
stored_digest d = if str_eq d.value "" then no_digest else sha256_digest d.value
