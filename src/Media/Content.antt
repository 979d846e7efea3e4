-- ===== src/Media/Content.antt =====
-- StoreVariantContentAtomic of internal/service/media.go: bytes go to the blob store while the write
-- transaction is held, and a file that no row came to own is taken away again.
pub mod Files
pub mod Clean
use fragments_engine.Common.{
  ℕ, zero, suc, String, Bool, not, List, [], ◌∷◌, ◌&&◌, ◌==◌, str_eq, if◌then◌else◌,
}
use fragments_engine.Common.Error.{Err, conflict, Result, ok}
use fragments_engine.Common.Text.{trim_space}
use fragments_engine.Store.Action.{pure, raise, step, attempt, wrapped, ◌>>=◌, ◌>>◌}
use fragments_engine.Media.Types.{
  CustodyMode, reference, same_custody, RetentionPolicy, indefinite, ContentDigest, AssetVariant,
  MediaBlob, Texts,
}
use fragments_engine.Media.Session.{
  MediaWorld, MediaAction, refuse, select, deferred, begin_immediate, commit,
}
use fragments_engine.Media.Digest.{empty_digest, normalized}
use fragments_engine.Media.Rows.{load_asset_variant}
use fragments_engine.Media.Bytes.{attach_blob_on}

pub record PutResult : Type 0 where
  pub blob : MediaBlob
  pub created : Bool

-- The interface `MediaBlobStore`, on the names of the files that the store holds. The errors of
-- `Remove` are dropped by the service.
pub record MediaBlobStore : Type 0 where
  pub put : ContentDigest → String → RetentionPolicy → List String → Result PutResult × List String
  pub remove : String → List String → List String

-- `blob_digest = ?`: a column with NULL, which stands as "", equals nothing.
abbrev pub refers_to : String → AssetVariant → Bool
refers_to digest v = not (str_eq v.blob_digest "") && str_eq v.blob_digest digest

abbrev pub count_references : String → List AssetVariant → ℕ
count_references digest [] = zero
count_references digest (v ∷ vs) =
    let rest = count_references digest vs in if refers_to digest v then suc rest else rest

-- `BlobReferenceCountOn`
unfoldable pub blob_reference_count_on : String → MediaAction ℕ
blob_reference_count_on digest = select λ s. ok (count_references (trim_space digest) s.variants)

-- A callback of the caller, which may write in the same transaction.
abbrev Callback : Type 0
Callback = AssetVariant → MediaAction (Unit {0})

module _ (texts : Texts) (blobs : MediaBlobStore) where
  -- `s.blobs.Put`
  unfoldable pub put_bytes : ContentDigest → String → RetentionPolicy → MediaAction PutResult
  put_bytes expected src retention w =
      let (r, files) = blobs.put expected src retention w.queue.files in
      (r, record w { queue = record w.queue { files = files } })

  -- `_ = s.blobs.Remove(put.Blob.StorageHandle)`, where the file is ours to take away.
  unfoldable pub discard : Bool → MediaBlob → MediaAction (Unit {0})
  discard ours blob = step λ w. (
    tt,
    (if ours
        then record w {
          queue = record w.queue { files = blobs.remove blob.storage_handle w.queue.files };
        }
        else w),
  )

  -- The error of a step after the file is in place.
  unfoldable pub or_discard : {A : Type 0} → Bool → MediaBlob → MediaAction A → MediaAction A
  or_discard ours blob m = attempt m pure (λ e. discard ours blob >> raise e)

  -- The digest that the bytes must have.
  unfoldable pub expected_of : AssetVariant → ContentDigest → MediaAction ContentDigest
  expected_of variant expected = if empty_digest expected then pure variant.expected_digest else do
    given ← wrapped "store variant content expected" (normalized texts expected)
    refuse
        (not (empty_digest variant.expected_digest)
          && not (str_eq variant.expected_digest.value given.value))
        (conflict "asset variant" variant.id "request digest conflicts with manifest digest")
    pure given

  unfoldable pub retention_for : CustodyMode → RetentionPolicy
  retention_for CustodyMode.cache = RetentionPolicy.cache
  retention_for _ = indefinite

  -- The part of the body after the file is in place.
  unfoldable pub link_bytes : AssetVariant → PutResult → Callback → MediaAction AssetVariant
  unfolding discard or_discard
  link_bytes variant put finalize = do
    refs ←
        or_discard put.created put.blob
          (wrapped "inspect media blob references" (blob_reference_count_on put.blob.digest.value))
    let ours = put.created && refs == 0
    now ← step λ w. (w.now, w)
    stored ← or_discard ours put.blob (attach_blob_on texts variant.id put.blob now)
    or_discard ours put.blob (finalize stored)
    or_discard ours put.blob (wrapped "commit stored media variant" commit)
    pure stored

  -- A missing callback is one that does nothing.
  unfoldable pub store_variant_content_atomic :
      String → ContentDigest → String → Callback → Callback → MediaAction AssetVariant
  unfolding put_bytes expected_of retention_for link_bytes
  store_variant_content_atomic variant_id expected src guard finalize = deferred (do
    begin_immediate
    variant ← load_asset_variant (trim_space variant_id)
    refuse (same_custody variant.custody reference)
        (conflict "asset variant" variant.id "reference-only custody cannot accept bytes")
    guard variant
    digest ← expected_of variant expected
    put ← put_bytes digest src (retention_for variant.custody)
    link_bytes variant put finalize)

  -- `StoreVariantContent`
  abbrev pub store_variant_content : String → ContentDigest → String → MediaAction AssetVariant
  store_variant_content id expected src =
      store_variant_content_atomic id expected src (λ v. pure tt) (λ v. pure tt)
