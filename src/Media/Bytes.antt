-- ===== src/Media/Bytes.antt =====
-- A variant's bytes: AttachBlobOn and MarkVariantFailed of internal/repository/media.go, and
-- StoreVariantContentAtomic of internal/service/media.go, which holds the write transaction while the
-- blob store installs the file.
use fragments_engine.Common.{
  ℕ, String, Bool, true, false, not, none, some, List, [], ◌∷◌, ◌++◌, ◌&&◌, ◌||◌, str_eq,
  if◌then◌else◌,
}
use fragments_engine.Common.Int.{ℤ, same_ℤ}
use fragments_engine.Common.Error.{plain, conflict, ok}
use fragments_engine.Common.Text.{trim_space}
use fragments_engine.Store.Action.{wrapped, ◌>>=◌, ◌>>◌}
use fragments_engine.Store.Statements.{or_no_rows}
use fragments_engine.Media.Types.{
  CustodyMode, reference, same_custody, available, failed, is_available, RetentionPolicy,
  indefinite, retention_text, is_indefinite, ContentDigest, AssetFailure, AssetVariant, MediaBlob,
  MediaStore, Texts,
}
use fragments_engine.Media.Session.{MediaAction, refuse, select, modify, transaction}
use fragments_engine.Media.Digest.{empty_digest, sha256_digest, normalized}
use fragments_engine.Media.Rows.{
  find_blob, update_blob, is_some, update_variant, load_asset_variant,
}
use fragments_engine.Media.Prepare.{is_mirrored, is_below_zero}
use fragments_engine.Media.Conflict.{stored_failure}

abbrev default_blob_retention : CustodyMode → RetentionPolicy
default_blob_retention CustodyMode.cache = RetentionPolicy.cache
default_blob_retention _ = indefinite

abbrev pub blob_retention : CustodyMode → RetentionPolicy → RetentionPolicy
blob_retention custody (retention_text s) =
    if str_eq s "" then default_blob_retention custody else retention_text s
blob_retention custody retention = retention

-- `ON CONFLICT(digest) DO UPDATE`: the longer retention stays.
abbrev kept_retention : RetentionPolicy → RetentionPolicy → RetentionPolicy
kept_retention old new =
    if is_indefinite old || is_indefinite new then indefinite else RetentionPolicy.cache

abbrev has_handle : String → List MediaBlob → Bool
has_handle handle [] = false
has_handle handle (b ∷ bs) =
    let rest = has_handle handle bs in str_eq handle b.storage_handle || rest

abbrev storable : RetentionPolicy → Bool
storable indefinite = true
storable RetentionPolicy.cache = true
storable _ = false

-- The checks of `media_blobs`, and its unique handle for a digest that is new.
abbrev blob_violates : MediaStore → MediaBlob → Bool
blob_violates s b =
    not (storable b.retention)
    || is_below_zero b.byte_size
    || (not (is_some (find_blob b.digest.value s.blobs)) && has_handle b.storage_handle s.blobs)

abbrev pub upsert_blob : MediaBlob → List MediaBlob → List MediaBlob
upsert_blob b bs =
    if is_some (find_blob b.digest.value bs)
    then update_blob b.digest.value
        (λ row. record row {
          retention = kept_retention row.retention b.retention;
          verified_at = b.verified_at;
        })
        bs
    else bs ++ b ∷ []

unfoldable pub insert_blob : MediaBlob → MediaAction (Unit {0})
insert_blob b = do
  violated ← select λ s. ok (blob_violates s b)
  refuse violated (plain "constraint failed")
  modify λ s. record s { blobs = upsert_blob b s.blobs }

-- The UPDATE of a variant whose bytes have come.
unfoldable pub own_bytes : String → ℤ → RetentionPolicy → ℕ → AssetVariant → AssetVariant
own_bytes value byte_size retention now row = record row {
  expected_digest =
      if str_eq row.expected_digest.value "" then sha256_digest value else row.expected_digest;
  digest = sha256_digest value;
  blob_digest = value;
  byte_size = byte_size;
  acquisition_state = available;
  failure = none;
  retention = retention;
  updated_at = now;
}

abbrev pub differs : ContentDigest → ContentDigest → Bool
differs old new = not (empty_digest old) && not (str_eq old.value new.value)

-- The guards of `AttachBlobOn` on the variant, the digest and the retention.
unfoldable pub refuse_bytes :
    AssetVariant → ContentDigest → RetentionPolicy → MediaAction (Unit {0})
refuse_bytes variant digest retention = do
  refuse (differs variant.expected_digest digest)
      (conflict "asset variant" variant.id "blob digest differs from expected digest")
  refuse (differs variant.digest digest)
      (conflict "asset variant" variant.id "variant already owns different bytes")
  refuse (same_custody variant.custody reference)
      (conflict "asset variant" variant.id "reference-only custody cannot own a blob")
  refuse (is_mirrored variant.custody && not (is_indefinite retention))
      (plain "attach blob: mirrored/adopted retention must be indefinite")

-- `AttachBlobOn`
unfoldable pub attach_blob_on : Texts → String → MediaBlob → ℕ → MediaAction AssetVariant
unfolding insert_blob refuse_bytes
attach_blob_on texts variant_id blob now = do
  variant ← load_asset_variant (trim_space variant_id)
  digest ← wrapped "attach blob" (normalized texts blob.digest)
  let retention = blob_retention variant.custody blob.retention
  refuse_bytes variant digest retention
  wrapped "record media blob" (insert_blob (record blob { digest = digest; retention = retention }))
  stored ← wrapped "verify media blob row" (select λ s. or_no_rows (find_blob digest.value s.blobs))
  refuse
      (not (str_eq stored.storage_handle blob.storage_handle)
        || not (same_ℤ stored.byte_size blob.byte_size))
      (conflict "media blob" digest.value "digest is bound to conflicting storage semantics")
  wrapped "attach blob to variant" (
      modify λ s. record s {
        variants =
            update_variant variant.id (own_bytes digest.value blob.byte_size retention now)
              s.variants;
      })
  load_asset_variant variant.id

unfoldable pub fail_variant : AssetFailure → ℕ → AssetVariant → AssetVariant
fail_variant failure now row = record row {
  acquisition_state = failed;
  failure = stored_failure (some failure);
  updated_at = now;
}

-- What the two forms of MarkVariantFailed have in common.
unfoldable pub mark_failed : String → AssetFailure → ℕ → MediaAction AssetVariant
mark_failed variant_id failure now = do
  current ← load_asset_variant variant_id
  refuse (is_available current.acquisition_state)
      (conflict "asset variant" current.id "available verified bytes cannot be degraded to failed")
  wrapped "mark variant failed" (
      modify λ s. record s {
        variants = update_variant variant_id (fail_variant failure now) s.variants;
      })
  load_asset_variant variant_id

unfoldable pub refuse_uncoded : AssetFailure → MediaAction (Unit {0})
refuse_uncoded failure =
    refuse (str_eq (trim_space failure.code) "" || str_eq (trim_space failure.message) "")
      (plain "mark variant failed: code and message are required")

unfoldable pub mark_variant_failed : String → AssetFailure → ℕ → MediaAction AssetVariant
unfolding mark_failed refuse_uncoded
mark_variant_failed variant_id failure now = do
  refuse_uncoded failure
  transaction "commit variant failure" (mark_failed variant_id failure now)

unfoldable pub mark_variant_failed_on : String → AssetFailure → ℕ → MediaAction AssetVariant
unfolding mark_failed refuse_uncoded
mark_variant_failed_on variant_id failure now = do
  refuse_uncoded failure
  mark_failed variant_id failure now
