-- ===== src/Media/Machine/Follows.antt =====
-- The rules by which an operation on variants follows the state machine, at each statement that may
-- fail.
pub mod Prepare
pub mod Upsert
pub mod Custody
pub mod Resolve
pub mod Acquire
pub mod Content
use fragments_engine.Common.{
  ◌≡◌, refl, ◌⊎◌, inl, inr, String, Bool, true, false, Option, none, some, List,
}
use fragments_engine.Common.Error.{Err, Result, ok, err}
use fragments_engine.Store.Action.{wrapped}
use fragments_engine.Store.Statements.{or_no_rows}
use fragments_engine.Media.Types.{AssetVariant, AssetAcquisitionRequest, AttachmentRef, MediaStore}
use fragments_engine.Media.Session.{MediaWorld, MediaAction, select, modify, deferred, roll_back}
use fragments_engine.Media.Session.Ensures.{
  Ensures, Ensures-weaken, Ensures-wrapped, Ensures-select, Ensures-modify, Ensures-deferred,
}
use fragments_engine.Media.Rows.{find_variant, update_variant, load_asset_variant}
use fragments_engine.Media.Machine.Advances.{find_variant-id}
use fragments_engine.Media.Machine.{RowStep, Reaches, updated, after}

-- The variants came from `start` by steps of the machine, and the requests and refs are as `K`
-- says.
pub record Came (start : List AssetVariant)
    (K : List AssetAcquisitionRequest → List AttachmentRef → Type 0) (vs : List AssetVariant)
    (rs : List AssetAcquisitionRequest) (refs : List AttachmentRef) : Type 0 where
  pub reached : Reaches start vs
  pub kept : K rs refs

abbrev pub From :
    List AssetVariant
    → (List AssetAcquisitionRequest → List AttachmentRef → Type 0)
    → MediaStore
    → Type 0
From start K s = Came start K s.variants s.requests s.refs

-- The tables came here by the machine, and the row is the one that the id finds.
abbrev pub Holding :
    List AssetVariant
    → (List AssetAcquisitionRequest → List AttachmentRef → Type 0)
    → String
    → AssetVariant
    → MediaStore
    → Type 0
Holding start K id row s = From start K s × (find_variant id s.variants ≡ some row)

found_row : {A : Type 0} (o : Option A) (a : A) → or_no_rows o ≡ ok a → o ≡ some a
found_row none a h = cc
found_row (some b) a h = cc

found_by_id :
    (id : String) (v : AssetVariant) (vs : List AssetVariant)
    → find_variant id vs ≡ some v
    → find_variant v.id vs ≡ some v
found_by_id id v vs h = let e = find_variant-id id v vs h in cc

module _ {S F : MediaStore → Type 0} (fails : (s : MediaStore) → S s → F s) where
  pub Ensures-load :
      (id : String)
      → Ensures S (load_asset_variant id) (λ v s. S s × (find_variant id s.variants ≡ some v)) F
  unfolding load_asset_variant
  Ensures-load id =
      Ensures-wrapped _ _
        (Ensures-weaken _ (Ensures-select fails _) (λ v s h. (h.0, found_row _ v h.1)) (λ s h. h))

  -- The row is the one that its own id finds.
  pub Ensures-load_row :
      (id : String)
      → Ensures S (load_asset_variant id) (λ v s. S s × (find_variant v.id s.variants ≡ some v)) F
  Ensures-load_row id =
      Ensures-weaken _ (Ensures-load id) (λ v s h. (h.0, found_by_id id v s.variants h.1))
        (λ s h. h)

module _ {start : List AssetVariant}
    {K : List AssetAcquisitionRequest → List AttachmentRef → Type 0} {S : MediaStore → Type 0}
    (fails : (s : MediaStore) → S s → From start K s) where
  -- The UPDATE of a row that was found.
  pub Ensures-update :
      (prefix id : String) (row : AssetVariant) (f : AssetVariant → AssetVariant)
      → ((s : MediaStore) → S s → find_variant id s.variants ≡ some row)
      → RowStep row (f row)
      → ((v : AssetVariant) → (f v).id ≡ v.id)
      → Ensures S
          (wrapped prefix (modify λ s. record s { variants = update_variant id f s.variants }))
          (λ _. From start K)
          (From start K)
  Ensures-update prefix id row f found step same = Ensures-wrapped _ _ (
      Ensures-modify fails (From start K) _ (λ s h. record {
        reached = after (fails s h).reached (updated id f row (found s h) step same);
        kept = (fails s h).kept;
      }))
