-- ===== src/Media/Conflict.antt =====
-- The second half of `upsertAssetVariant` (internal/repository/media.go): the comparison with the row
-- that is there, the gaps that are filled, and the columns of a new row.
use fragments_engine.Common.{
  ℕ, String, Bool, not, Option, none, some, List, [], ◌∷◌, ◌&&◌, ◌==◌, str_eq, if◌then◌else◌,
}
use fragments_engine.Common.Int.{ℤ, pos, same_ℤ}
use fragments_engine.Media.Types.{
  same_custody, Float64, is_zero, same_float, ContentDigest, AssetFailure, AssetVariant,
}
use fragments_engine.Media.Digest.{empty_digest, stored_digest}

-- The first reason whose test holds.
abbrev pub first_reason : List (Bool × String) → Option String
first_reason [] = none
first_reason ((b, reason) ∷ checks) =
    let rest = first_reason checks in if b then some reason else rest

abbrev both_and_differ : ContentDigest → ContentDigest → Bool
both_and_differ a b = not (empty_digest a) && not (empty_digest b) && not (str_eq a.value b.value)

abbrev pub set_text : String → String → Bool
set_text a b = not (str_eq a "") && not (str_eq b "") && not (str_eq a b)

abbrev pub set_ℤ : ℤ → ℤ → Bool
set_ℤ a b = not (same_ℤ a (pos 0)) && not (same_ℤ b (pos 0)) && not (same_ℤ a b)

abbrev pub set_float : Float64 → Float64 → Bool
set_float a b = not (is_zero a) && not (is_zero b) && not (same_float a b)

-- `assetVariantSemanticConflict`, of the row that is there and of what is given; the reason of a changed
-- kind or custody is without its two values.
unfoldable pub asset_variant_semantic_conflict : AssetVariant → AssetVariant → Option String
asset_variant_semantic_conflict a b = first_reason (
    (not (str_eq a.kind b.kind), "kind changed")
    ∷ (not (same_custody a.custody b.custody), "custody changed")
    ∷ (both_and_differ a.expected_digest b.expected_digest, "expected digest changed")
    ∷ (both_and_differ a.digest b.expected_digest, "expected digest conflicts with acquired bytes")
    ∷ (both_and_differ a.digest b.digest, "actual digest changed")
    ∷ (set_text a.mime_type b.mime_type, "MIME type changed")
    ∷ (set_ℤ a.width b.width, "width changed")
    ∷ (set_ℤ a.height b.height, "height changed")
    ∷ (set_float a.duration_seconds b.duration_seconds, "duration changed")
    ∷ (set_ℤ a.byte_size b.byte_size, "byte size changed")
    ∷ [])

abbrev pub fill_text : String → String → String → String
fill_text gap old new = if str_eq old gap then new else old

abbrev pub fill_ℤ : ℤ → ℤ → ℤ
fill_ℤ old new = if same_ℤ old (pos 0) then new else old

-- The UPDATE of a row that is there: its gaps are filled, and its URL and expiry rotate.
unfoldable pub fill_variant : AssetVariant → ℕ → AssetVariant → AssetVariant
fill_variant v now row = record row {
  source_url = if str_eq v.source_url "" then row.source_url else v.source_url;
  source_expires_at =
      if v.source_expires_at == 0 then row.source_expires_at else v.source_expires_at;
  source_path = fill_text "" row.source_path v.source_path;
  mime_type = fill_text "" row.mime_type v.mime_type;
  width = fill_ℤ row.width v.width;
  height = fill_ℤ row.height v.height;
  duration_seconds =
      if is_zero row.duration_seconds then v.duration_seconds else row.duration_seconds;
  byte_size = fill_ℤ row.byte_size v.byte_size;
  expected_digest =
      if str_eq row.expected_digest.value ""
      then stored_digest v.expected_digest
      else row.expected_digest;
  metadata_json = fill_text "{}" row.metadata_json v.metadata_json;
  updated_at = now;
}

-- The columns of a failure, as the next load reads them.
abbrev pub stored_failure : Option AssetFailure → Option AssetFailure
stored_failure none = none
stored_failure (some f) = if str_eq f.code "" && str_eq f.message "" then none else some f

-- A row that the INSERT writes, as the next load reads it.
unfoldable pub stored_variant : AssetVariant → AssetVariant
stored_variant v = record v {
  expected_digest = stored_digest v.expected_digest;
  digest = stored_digest v.digest;
  failure = stored_failure v.failure;
}
