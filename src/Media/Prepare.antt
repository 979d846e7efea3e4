-- ===== src/Media/Prepare.antt =====
-- The first half of `upsertAssetVariant` (internal/repository/media.go): the checks of what is given
-- and the defaults.
use fragments_engine.Common.{
  ℕ, String, Bool, true, false, not, Option, none, some, ◌&&◌, ◌||◌, ◌==◌, str_eq, if◌then◌else◌,
}
use fragments_engine.Common.Int.{ℤ, pos, ltb_ℤ}
use fragments_engine.Common.Error.{plain}
use fragments_engine.Common.Text.{trim_space}
use fragments_engine.Store.Action.{pure, wrapped, ◌>>=◌, ◌>>◌}
use fragments_engine.Media.Types.{
  CustodyMode, reference, mirror, adopted, custody_text, same_custody, valid_custody,
  AcquisitionState, available, pending, reference_only, failed, state_text, valid_state,
  RetentionPolicy, indefinite, external, retention_text, is_indefinite, valid_kind, is_negative,
  ContentDigest, AssetFailure, AssetVariant, Texts,
}
use fragments_engine.Media.Session.{MediaAction, refuse}
use fragments_engine.Media.Digest.{empty_digest, sha256_digest, normalized}
use fragments_engine.Media.Rows.{◌⧺◌}

-- The texts that are trimmed and lowered before anything else.
abbrev pub trimmed : Texts → AssetVariant → AssetVariant
trimmed texts v = record v {
  source_url = trim_space v.source_url;
  source_path = trim_space v.source_path;
  mime_type = texts.to_lower (trim_space v.mime_type);
}

abbrev pub is_below_zero : ℤ → Bool
is_below_zero n = ltb_ℤ n (pos 0)

abbrev pub is_mirrored : CustodyMode → Bool
is_mirrored mirror = true
is_mirrored adopted = true
is_mirrored _ = false

unfoldable pub normalize_unless_empty : Texts → String → ContentDigest → MediaAction ContentDigest
normalize_unless_empty texts prefix d =
    if empty_digest d then pure d else wrapped prefix (normalized texts d)

-- The digest of the blob, which must be that of the bytes.
unfoldable pub normalize_blob : Texts → String → ContentDigest → MediaAction String
normalize_blob texts blob_digest digest =
    if str_eq (trim_space blob_digest) "" then pure blob_digest else do
      blob ← wrapped "upsert asset variant blob" (normalized texts (sha256_digest blob_digest))
      refuse (empty_digest digest || not (str_eq digest.value blob.value))
          (plain "upsert asset variant: blob digest must equal actual digest")
      pure blob.value

abbrev pub default_custody : CustodyMode → CustodyMode
default_custody c = if same_custody c (custody_text "") then reference else c

abbrev is_unset_state : AcquisitionState → Bool
is_unset_state (state_text s) = str_eq s ""
is_unset_state _ = false

abbrev is_unset_retention : RetentionPolicy → Bool
is_unset_retention (retention_text s) = str_eq s ""
is_unset_retention _ = false

abbrev default_state : CustodyMode → String → AcquisitionState → AcquisitionState
default_state custody source_path state =
    if is_unset_state state
    then (if same_custody custody reference
        then reference_only
        else (if not (str_eq source_path "") then available else pending))
    else state

abbrev retention_of : CustodyMode → RetentionPolicy
retention_of mirror = indefinite
retention_of adopted = indefinite
retention_of CustodyMode.cache = RetentionPolicy.cache
retention_of _ = external

abbrev default_retention : CustodyMode → RetentionPolicy → RetentionPolicy
default_retention custody retention =
    if is_unset_retention retention then retention_of custody else retention

abbrev pub is_coded : Option AssetFailure → Bool
is_coded none = false
is_coded (some f) = not (str_eq (trim_space f.code) "") && not (str_eq (trim_space f.message) "")

abbrev pub is_failed : AcquisitionState → Bool
is_failed failed = true
is_failed _ = false

-- `if in.CreatedAt.IsZero()`, for the row's `created_at`, and the other defaults.
abbrev pub with_defaults : AssetVariant → ContentDigest → ContentDigest → String → ℕ → AssetVariant
with_defaults v expected digest blob now =
    let custody = default_custody v.custody in
    record v {
      expected_digest = expected;
      digest = digest;
      blob_digest = blob;
      custody = custody;
      acquisition_state = default_state custody v.source_path v.acquisition_state;
      retention = default_retention custody v.retention;
      metadata_json = if str_eq (trim_space v.metadata_json) "" then "{}" else v.metadata_json;
      created_at = if v.created_at == 0 then now else v.created_at;
    }

-- The checks on the defaults, in their order.
unfoldable pub refuse_unsound : AssetVariant → MediaAction (Unit {0})
refuse_unsound v = do
  refuse (not (valid_custody v.custody)) (plain "upsert asset variant: invalid custody")
  refuse (not (valid_state v.acquisition_state))
      (plain "upsert asset variant: invalid acquisition state")
  refuse (is_failed v.acquisition_state && not (is_coded v.failure))
      (plain "upsert asset variant: failed state requires a coded failure")
  refuse (is_mirrored v.custody && not (is_indefinite v.retention))
      (plain "upsert asset variant: mirrored and adopted bytes default to indefinite retention")

-- Lines 399 to 472: what is upserted, its identity apart.
unfoldable pub prepare_variant : Texts → ℕ → AssetVariant → MediaAction AssetVariant
unfolding normalize_unless_empty normalize_blob refuse_unsound
prepare_variant texts now given = do
  refuse (not (valid_kind given.kind)) (plain "upsert asset variant: invalid variant kind")
  let v = trimmed texts given
  refuse
      (is_below_zero v.width
        || is_below_zero v.height
        || is_negative v.duration_seconds
        || is_below_zero v.byte_size)
      (plain "upsert asset variant: dimensions, duration, and byte size must be non-negative")
  expected ← normalize_unless_empty texts "upsert asset variant expected" v.expected_digest
  digest ← normalize_unless_empty texts "upsert asset variant actual" v.digest
  refuse
      (not (empty_digest v.digest)
        && not (empty_digest expected)
        && not (str_eq expected.value digest.value))
      (plain "upsert asset variant: expected and actual digests differ")
  blob ← normalize_blob texts v.blob_digest digest
  let settled = with_defaults v expected digest blob now
  refuse_unsound settled
  pure (record settled {
    id =
        texts.digest_text
          ("asset-variant\n" ⧺ trim_space v.media_asset_id ⧺ "\n" ⧺ trim_space v.variant_identity);
    updated_at = now;
  })
