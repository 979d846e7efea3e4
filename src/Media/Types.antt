-- ===== src/Media/Types.antt =====
-- The records of internal/domain/media.go and internal/domain/asset_acquisition.go that a variant's
-- life goes through, and the tables that hold them. The texts that Go declares as enumerations are data
-- types here, with one constructor for any other text.
use fragments_engine.Common.{
  ℕ, String, Bool, true, false, Option, List, ◌&&◌, ◌||◌, not, ◌==◌, str_eq,
}
use fragments_engine.Common.Int.{ℤ}

pub data CustodyMode : Type 0 where
  reference cache mirror adopted : CustodyMode
  custody_text : String → CustodyMode

pub data AcquisitionState : Type 0 where
  pending available reference_only failed : AcquisitionState
  state_text : String → AcquisitionState

pub data RetentionPolicy : Type 0 where
  indefinite cache external : RetentionPolicy
  retention_text : String → RetentionPolicy

abbrev pub same_custody : CustodyMode → CustodyMode → Bool
same_custody reference reference = true
same_custody CustodyMode.cache CustodyMode.cache = true
same_custody mirror mirror = true
same_custody adopted adopted = true
same_custody (custody_text s) (custody_text t) = str_eq s t
same_custody _ _ = false

abbrev pub valid_custody : CustodyMode → Bool
valid_custody (custody_text s) = false
valid_custody _ = true

abbrev pub valid_state : AcquisitionState → Bool
valid_state (state_text s) = false
valid_state _ = true

abbrev pub is_available : AcquisitionState → Bool
is_available available = true
is_available _ = false

abbrev pub is_indefinite : RetentionPolicy → Bool
is_indefinite indefinite = true
is_indefinite _ = false

-- `MediaKind.Valid`
abbrev pub valid_media_kind : String → Bool
valid_media_kind k =
    str_eq k "image"
    || str_eq k "video"
    || str_eq k "audio"
    || str_eq k "document"
    || str_eq k "timed_text"
    || str_eq k "other"

-- `AttachmentRole.Valid`
abbrev pub valid_role : String → Bool
valid_role r =
    str_eq r "primary"
    || str_eq r "gallery_item"
    || str_eq r "hero"
    || str_eq r "inline"
    || str_eq r "poster"
    || str_eq r "transcript"
    || str_eq r "other"

-- `AssetVariantKind.Valid`
abbrev pub valid_kind : String → Bool
valid_kind k =
    str_eq k "original"
    || str_eq k "preview"
    || str_eq k "thumbnail"
    || str_eq k "poster"
    || str_eq k "audio"
    || str_eq k "subtitles"
    || str_eq k "transcript"

-- The three fields of an IEEE 754 double.
pub record Float64 : Type 0 where
  pub sign : Bool
  pub exponent : ℕ
  pub fraction : ℕ

abbrev pub is_nan : Float64 → Bool
is_nan x = x.exponent == 2047 && not (x.fraction == 0)

abbrev pub is_zero : Float64 → Bool
is_zero x = x.exponent == 0 && x.fraction == 0

abbrev pub is_negative : Float64 → Bool
is_negative x = x.sign && not (is_zero x) && not (is_nan x)

abbrev same_sign : Bool → Bool → Bool
same_sign true b = b
same_sign false b = not b

-- Go's `==` of two doubles.
abbrev pub same_float : Float64 → Float64 → Bool
same_float x y =
    not (is_nan x)
    && ((is_zero x && is_zero y)
        || (same_sign x.sign y.sign && x.exponent == y.exponent && x.fraction == y.fraction))

pub record ContentDigest : Type 0 where
  pub algorithm : String
  pub value : String

pub record AssetFailure : Type 0 where
  pub code : String
  pub message : String
  pub retryable : Bool

-- Times are numbers, and Go's zero time is 0.
pub record AssetVariant : Type 0 where
  pub id : String
  pub media_asset_id : String
  pub variant_identity : String
  pub kind : String
  pub source_url : String
  pub source_expires_at : ℕ
  pub source_path : String
  pub mime_type : String
  pub width : ℤ
  pub height : ℤ
  pub duration_seconds : Float64
  pub byte_size : ℤ
  pub expected_digest : ContentDigest
  pub digest : ContentDigest
  pub blob_digest : String
  pub custody : CustodyMode
  pub acquisition_state : AcquisitionState
  pub failure : Option AssetFailure
  pub retention : RetentionPolicy
  pub metadata_json : String
  pub legacy_storage_path : String
  pub created_at : ℕ
  pub updated_at : ℕ

pub record MediaBlob : Type 0 where
  pub digest : ContentDigest
  pub storage_handle : String
  pub byte_size : ℤ
  pub retention : RetentionPolicy
  pub created_at : ℕ
  pub verified_at : ℕ

pub record AssetAcquisitionRequest : Type 0 where
  pub id : String
  pub idempotency_key : String
  pub semantic_digest : String
  pub media_asset_id : String
  pub asset_variant_id : String
  pub variant_kind : String
  pub requested_custody : CustodyMode
  pub requested_by : String
  pub reason : String
  pub created_at : ℕ

-- A row of `asset_variant_source_observations`.
pub record SourceObservation : Type 0 where
  pub id : String
  pub asset_variant_id : String
  pub source_url : String
  pub source_expires_at : ℕ
  pub observed_at : ℕ

pub record MediaAsset : Type 0 where
  pub id : String
  pub identity_key : String
  pub source_registration_id : String
  pub provider : String
  pub provider_media_id : String
  pub source_media_key : String
  pub source_locator : String
  pub kind : String
  pub width : ℤ
  pub height : ℤ
  pub duration_seconds : Float64
  pub page_count : ℤ
  pub alt_text : String
  pub source_authority : String
  pub default_custody : CustodyMode
  pub metadata_json : String
  pub legacy_attachment_id : String
  pub created_at : ℕ
  pub updated_at : ℕ

pub record AttachmentRef : Type 0 where
  pub id : String
  pub fragment_revision_id : String
  pub media_asset_id : String
  pub role : String
  pub position : ℤ
  pub caption : String
  pub source_context : String
  pub legacy_fragment_id : String
  pub legacy_attachment_id : String
  pub created_at : ℕ

pub record MediaManifestItem : Type 0 where
  pub asset : MediaAsset
  pub variants : List AssetVariant
  pub attachment : AttachmentRef

-- A row of `media_asset_source_observations`.
pub record AssetObservation : Type 0 where
  pub id : String
  pub media_asset_id : String
  pub source_media_key : String
  pub source_locator : String
  pub observed_at : ℕ

-- A row of `media_asset_identity_aliases`.
pub record IdentityAlias : Type 0 where
  pub identity_key : String
  pub media_asset_id : String
  pub created_at : ℕ

-- The media tables, the ids of the fragment revisions, and the names of the files that the blob store
-- holds.
pub record MediaStore : Type 0 where
  pub revisions : List String
  pub assets : List MediaAsset
  pub aliases : List IdentityAlias
  pub asset_observations : List AssetObservation
  pub refs : List AttachmentRef
  pub variants : List AssetVariant
  pub blobs : List MediaBlob
  pub requests : List AssetAcquisitionRequest
  pub observations : List SourceObservation
  pub files : List String

-- What the code takes from Go's `strings.ToLower`, `crypto/sha256`, `time.Format` and `%d`.
pub record Texts : Type 0 where
  pub to_lower : String → String
  pub digest_text : String → String
  pub format_time : ℕ → String
  pub format_int : ℤ → String
