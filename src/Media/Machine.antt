-- ===== src/Media/Machine.antt =====
-- The life of a variant's row as a state machine: the ways in which a row changes, the ways in which the
-- table does, and where a number of those lead.
pub mod Follows
pub mod Advances
pub mod Sound
use fragments_engine.Common.{
  ◌≡◌, ◌⊎◌, String, ℕ, Bool, true, false, not, Option, some, List, [], ◌∷◌, ◌++◌, ◌&&◌, str_eq,
}
use fragments_engine.Common.Int.{ℤ}
use fragments_engine.Common.Text.{trim_space}
use fragments_engine.Media.Types.{
  CustodyMode, reference, same_custody, AcquisitionState, is_available, RetentionPolicy,
  is_indefinite, AssetFailure, AssetVariant,
}
use fragments_engine.Media.Prepare.{is_mirrored, is_coded, is_failed}
use fragments_engine.Media.Conflict.{fill_variant, stored_variant}
use fragments_engine.Media.Bytes.{own_bytes, fail_variant, differs}
use fragments_engine.Media.Acquire.{allows_custody, advance_variant, next_state}
use fragments_engine.Media.Digest.{sha256_digest}
use fragments_engine.Media.Rows.{find_variant, update_variant}

-- Mirrored and adopted bytes are kept for good, a blob's digest is that of the bytes, and a failure is
-- coded.
abbrev pub IsSound : AssetVariant → Type 0
IsSound v =
    ((is_mirrored v.custody && not (is_indefinite v.retention)) ≡ false)
    × (((str_eq (trim_space v.blob_digest) "") ≡ true) ⊎ (v.digest.value ≡ v.blob_digest))
    × ((is_failed v.acquisition_state && not (is_coded v.failure)) ≡ false)

pub data RowStep (row : AssetVariant) : AssetVariant → Type 0 where
  fills : (v : AssetVariant) (now : ℕ) → RowStep row (fill_variant v now row)
  owns :
      (value : String) (byte_size : ℤ) (retention : RetentionPolicy) (now : ℕ)
      → differs row.digest (sha256_digest value) ≡ false
      → same_custody row.custody reference ≡ false
      → (is_mirrored row.custody && not (is_indefinite retention)) ≡ false
      → RowStep row (own_bytes value byte_size retention now row)
  fails :
      (failure : AssetFailure) (now : ℕ)
      → is_available row.acquisition_state ≡ false
      → is_coded (some failure) ≡ true
      → RowStep row (fail_variant failure now row)
  advances :
      (requested : CustodyMode) (now : ℕ)
      → allows_custody row.custody requested ≡ true
      → RowStep row (advance_variant requested (next_state row.acquisition_state) now row)
  stays : RowStep row row

pub data TableStep (vs : List AssetVariant) : List AssetVariant → Type 0 where
  inserted : (v : AssetVariant) → IsSound v → TableStep vs (vs ++ stored_variant v ∷ [])
  updated :
      (id : String) (f : AssetVariant → AssetVariant) (row : AssetVariant)
      → find_variant id vs ≡ some row
      → RowStep row (f row)
      → ((v : AssetVariant) → (f v).id ≡ v.id)
      → TableStep vs (update_variant id f vs)

-- Any number of steps.
pub data Reaches (vs : List AssetVariant) : List AssetVariant → Type 0 where
  here : Reaches vs vs
  after : {ws us : List AssetVariant} → Reaches vs ws → TableStep ws us → Reaches vs us
