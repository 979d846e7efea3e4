-- ===== src/Media/Machine/Follows/Resolve.antt =====
-- resolveAcquisitionVariant follows the state machine.
use fragments_engine.Common.{
  ◌≡◌, refl, ℕ, String, Bool, true, false, not, Option, none, some, List, [], ◌∷◌, str_eq, ◌&&◌,
  if◌then◌else◌,
}
use fragments_engine.Media.Types.{
  AttachmentRef, AssetVariant, Texts, RetentionPolicy, CustodyMode, AcquisitionState,
  AssetAcquisitionRequest, is_indefinite,
}
use fragments_engine.Media.Session.Ensures.{
  Ensures, Ensures-pure, Ensures-raise, Ensures-if, Ensures-bind, Ensures-weaken, Ensures-wrapped,
  Ensures-refuse, Ensures-select, Ensures-modify,
}
use fragments_engine.Media.Acquire.{
  allows_custody, next_state, advance_variant, advance_of, select_identity,
  acquisition_variant_identity, choose, retain_blob, advance_existing, resolve_candidates,
  resolve_acquisition_variant,
}
use fragments_engine.Media.Machine.{RowStep, advances, stays}
use fragments_engine.Media.Machine.Follows.{From, Holding, Ensures-load_row, Ensures-update}
use fragments_engine.Media.Machine.Follows.Upsert.{upsert_asset_variant-Holding, with_fact}

advance_of-RowStep :
    (b : Bool) (row : AssetVariant) (requested : CustodyMode) (now : ℕ)
    → allows_custody row.custody requested ≡ true
    → RowStep row
        (if b then advance_variant requested (next_state row.acquisition_state) now row else row)
advance_of-RowStep true row requested now h = advances requested now h
advance_of-RowStep false row requested now h = stays

if_same_id :
    (b : Bool) (requested : CustodyMode) (state : AcquisitionState) (now : ℕ) (v : AssetVariant)
    → (if b then advance_variant requested state now v else v).id ≡ v.id
unfolding advance_variant
if_same_id true requested state now v = refl
if_same_id false requested state now v = refl

allowed : (b : Bool) → not b ≡ false → b ≡ true
allowed true h = refl
allowed false h = cc

module _ {start : List AssetVariant}
    {K : List AssetAcquisitionRequest → List AttachmentRef → Type 0} where
  select_identity-From :
      (asset_id kind : String) (selected : Option AssetVariant) (vs : List AssetVariant)
      → Ensures
          (From start K)
          (select_identity asset_id kind selected vs)
          (λ _. From start K)
          (From start K)
  unfolding select_identity
  select_identity-From asset_id kind (some v) [] = Ensures-pure _ (λ s h. h)
  select_identity-From asset_id kind none [] = Ensures-raise _ (λ s h. h)
  select_identity-From asset_id kind (some u) (v ∷ vs) =
      Ensures-if (str_eq v.variant_identity (acquisition_variant_identity kind)) _ _
        (λ e. Ensures-raise _ (λ s h. h)) (λ e. select_identity-From asset_id kind (some u) vs)
  select_identity-From asset_id kind none (v ∷ vs) =
      Ensures-if (str_eq v.variant_identity (acquisition_variant_identity kind)) _ _
        (λ e. select_identity-From asset_id kind (some v) vs)
        (λ e. select_identity-From asset_id kind none vs)

  choose-From :
      (asset_id kind : String) (v : AssetVariant) (vs : List AssetVariant)
      → Ensures (From start K) (choose asset_id kind v vs) (λ _. From start K) (From start K)
  unfolding choose
  choose-From asset_id kind v [] = Ensures-pure _ (λ s h. h)
  choose-From asset_id kind v (w ∷ ws) = select_identity-From asset_id kind none (v ∷ w ∷ ws)

  retain_blob-From :
      (v : AssetVariant) (r : RetentionPolicy)
      → Ensures (From start K) (retain_blob v r) (λ _. From start K) (From start K)
  unfolding retain_blob
  retain_blob-From v r =
      Ensures-if (not (str_eq v.blob_digest "") && is_indefinite r) _ _
        (λ e. Ensures-wrapped _ _ (Ensures-modify (λ s h. h) (From start K) _ (λ s h. h)))
        (λ e. Ensures-pure _ (λ s h. h))

  advance_existing-Holding :
      (asset_id : String) (requested : CustodyMode) (now : ℕ) (v : AssetVariant)
      → Ensures
          (From start K)
          (advance_existing asset_id requested now v)
          (λ u. Holding start K u.id u)
          (From start K)
  unfolding advance_existing
  advance_existing-Holding asset_id requested now v =
      Ensures-bind _ _ (Ensures-load_row (λ s h. h) v.id) λ row.
        Ensures-bind _ _ (Ensures-refuse (λ s h. h.0) _ _) λ _. with_fact _ (λ legal.
          Ensures-bind _ _
            (Ensures-update (λ s h. h.0) _ row.id row
              (advance_of asset_id requested (next_state row.acquisition_state) now) (λ s h. h.1)
              (advance_of-RowStep _ row requested now (allowed _ legal))
              (λ u. if_same_id _ requested (next_state row.acquisition_state) now u))
            λ _. Ensures-bind _ _ (retain_blob-From row _) λ _. Ensures-load_row (λ s h. h) row.id)

  resolve_candidates-Holding :
      (texts : Texts) (asset_id kind : String) (requested : CustodyMode) (now : ℕ)
      (vs : List AssetVariant)
      → Ensures
          (From start K)
          (resolve_candidates texts asset_id kind requested now vs)
          (λ u. Holding start K u.id u)
          (From start K)
  unfolding resolve_candidates
  resolve_candidates-Holding texts asset_id kind requested now [] =
      upsert_asset_variant-Holding texts _ now
  resolve_candidates-Holding texts asset_id kind requested now (v ∷ vs) =
      Ensures-bind _ _ (choose-From asset_id kind v vs)
        λ u. advance_existing-Holding asset_id requested now u

  pub resolve-Holding :
      (texts : Texts) (asset_id kind : String) (requested : CustodyMode) (now : ℕ)
      → Ensures
          (From start K)
          (resolve_acquisition_variant texts asset_id kind requested now)
          (λ u. Holding start K u.id u)
          (From start K)
  unfolding resolve_acquisition_variant
  resolve-Holding texts asset_id kind requested now =
      Ensures-bind _ _
        (Ensures-weaken _ (Ensures-wrapped _ _ (Ensures-select (λ s h. h) _)) (λ vs s h. h.0)
          (λ s h. h))
        (resolve_candidates-Holding texts asset_id kind requested now)
