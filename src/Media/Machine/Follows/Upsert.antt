-- ===== src/Media/Machine/Follows/Upsert.antt =====
-- `upsertAssetVariant` follows the state machine.
use fragments_engine.Common.{◌≡◌, refl, ℕ, String, Option, none, some, List, [], ◌∷◌, str_eq}
use fragments_engine.Common.Text.{trim_space}
use fragments_engine.Media.Types.{
  AttachmentRef, AssetVariant, MediaStore, Texts, AssetAcquisitionRequest,
}
use fragments_engine.Media.Session.{MediaAction}
use fragments_engine.Media.Session.Ensures.{
  Ensures, Ensures-pure, Ensures-raise, Ensures-if, Ensures-from, Ensures-bind, Ensures-weaken,
  Ensures-wrapped, Ensures-refuse, Ensures-select, Ensures-modify,
}
use fragments_engine.Media.Variant.{
  refuse_conflict, upsert_found, upsert_asset_variant, upsert_each, upsert_asset_variants,
}
use fragments_engine.Media.Rows.{
  find_variant, insert_variant_source_observation, find_asset_variant_by_identity, load_found,
  insert_variant,
}
use fragments_engine.Media.Conflict.{stored_variant, fill_variant}
use fragments_engine.Media.Machine.{IsSound, inserted, fills, after}
use fragments_engine.Media.Machine.Advances.{find_variant-id}
use fragments_engine.Media.Machine.Follows.{
  From, Holding, Ensures-load, Ensures-load_row, Ensures-update,
}
use fragments_engine.Media.Machine.Follows.Prepare.{prepare_variant-Sound}

-- A fact beside the tables is a hypothesis.
pub with_fact :
    {A : Type 0} {S F : MediaStore → Type 0} {R : A → MediaStore → Type 0} {P : Type 0}
    (m : MediaAction A)
    → (P → Ensures S m R F)
    → Ensures (λ s. S s × P) m R F
with_fact m h = record { hoare = record { at = λ w g. (h g.1).hoare.at w g.0 } }

fill_variant-id :
    (v : AssetVariant) (now : ℕ) (row : AssetVariant) → (fill_variant v now row).id ≡ row.id
unfolding fill_variant
fill_variant-id v now row = refl

refuse_conflict-Keeps :
    {S F : MediaStore → Type 0} (fails : (s : MediaStore) → S s → F s) (identity : String)
    (o : Option String)
    → Ensures S (refuse_conflict identity o) (λ _. S) F
unfolding refuse_conflict
refuse_conflict-Keeps fails identity none = Ensures-pure _ (λ s h. h)
refuse_conflict-Keeps fails identity (some reason) = Ensures-raise _ fails

-- The row that a lookup by identity loads is the one that its id finds.
abbrev Loaded :
    List AssetVariant
    → (List AssetAcquisitionRequest → List AttachmentRef → Type 0)
    → Option AssetVariant
    → MediaStore
    → Type 0
Loaded start K o s =
    From start K s
    × ((row : AssetVariant) → o ≡ some row → find_variant row.id s.variants ≡ some row)

same_found :
    (id : String) (v row : AssetVariant) (vs : List AssetVariant)
    → find_variant id vs ≡ some v
    → some v ≡ some row
    → find_variant row.id vs ≡ some row
same_found id v row vs h e = let i = find_variant-id id v vs h in cc

module _ {start : List AssetVariant}
    {K : List AssetAcquisitionRequest → List AttachmentRef → Type 0} where
  -- What writes no variant follows the machine.
  observation-From :
      (texts : Texts) (id url : String) (expires now : ℕ)
      → Ensures
          (From start K)
          (insert_variant_source_observation texts id url expires now)
          (λ _. From start K)
          (From start K)
  unfolding insert_variant_source_observation
  observation-From texts id url expires now =
      Ensures-if (str_eq (trim_space url) "") _ _ (λ e. Ensures-pure _ (λ s h. h))
        (λ e. Ensures-wrapped _ _ (Ensures-modify (λ s h. h) (From start K) _ (λ s h. h)))

  load_found-Loaded :
      (o : Option AssetVariant)
      → Ensures (From start K) (load_found o) (Loaded start K) (From start K)
  unfolding load_found
  load_found-Loaded none = Ensures-pure _ (λ s h. (h, λ row e. cc))
  load_found-Loaded (some v) =
      Ensures-bind _ _ (Ensures-load (λ s h. h) v.id)
        λ w. Ensures-pure _ (λ s h. (h.0, λ row e. same_found v.id w row s.variants h.1 e))

  find_by_identity-Loaded :
      (asset_id identity : String)
      → Ensures
          (From start K)
          (find_asset_variant_by_identity asset_id identity)
          (Loaded start K)
          (From start K)
  unfolding find_asset_variant_by_identity
  find_by_identity-Loaded asset_id identity =
      Ensures-bind _ _
        (Ensures-weaken _ (Ensures-wrapped _ _ (Ensures-select (λ s h. h) _)) (λ o s h. h.0)
          (λ s h. h))
        load_found-Loaded

  insert_variant-From :
      (v : AssetVariant)
      → IsSound v
      → Ensures
          (From start K)
          (insert_variant (stored_variant v))
          (λ _. From start K)
          (From start K)
  unfolding insert_variant
  insert_variant-From v sound = Ensures-bind _ _ (Ensures-select (λ s h. h) _) λ violated.
      Ensures-bind _ _ (Ensures-refuse (λ s h. h.0) _ _) λ _.
        Ensures-modify (λ s h. h.0.0) (From start K) _
          (λ s h. record { reached = after h.0.0.reached (inserted v sound); kept = h.0.0.kept })

  upsert_found-Holding :
      (texts : Texts) (now : ℕ) (v : AssetVariant) (o : Option AssetVariant)
      → IsSound v
      → Ensures
          (Loaded start K o)
          (upsert_found texts now v o)
          (λ w. Holding start K w.id w)
          (From start K)
  unfolding upsert_found
  upsert_found-Holding texts now v none sound =
      Ensures-from _
        (Ensures-bind _ _ (Ensures-wrapped _ _ (insert_variant-From v sound)) λ _.
          Ensures-bind _ _ (observation-From texts _ _ _ _) λ _. Ensures-load_row (λ s h. h) v.id)
        (λ s h. h.0)
  upsert_found-Holding texts now v (some row) sound =
      Ensures-bind _ _ (refuse_conflict-Keeps (λ s h. h.0) v.variant_identity _) λ _.
        Ensures-bind _ _
          (Ensures-update (λ s h. h.0) _ row.id row (fill_variant v now) (λ s h. h.1 row refl)
            (fills v now) (fill_variant-id v now))
          λ _.
            Ensures-bind _ _ (observation-From texts _ _ _ _)
              λ _. Ensures-load_row (λ s h. h) row.id

  pub upsert_asset_variant-Holding :
      (texts : Texts) (given : AssetVariant) (now : ℕ)
      → Ensures
          (From start K)
          (upsert_asset_variant texts given now)
          (λ w. Holding start K w.id w)
          (From start K)
  unfolding upsert_asset_variant
  upsert_asset_variant-Holding texts given now =
      Ensures-bind _ _ (prepare_variant-Sound (λ s h. h) texts now given) λ v. with_fact _ (λ sound.
        Ensures-bind _ _ (find_by_identity-Loaded v.media_asset_id v.variant_identity)
          λ o. upsert_found-Holding texts now v o sound)

  upsert_each-From :
      (texts : Texts) (asset_id : String) (seen : List String) (vs : List AssetVariant) (now : ℕ)
      → Ensures
          (From start K)
          (upsert_each texts asset_id seen vs now)
          (λ _. From start K)
          (From start K)
  unfolding upsert_each
  upsert_each-From texts asset_id seen [] now = Ensures-pure _ (λ s h. h)
  upsert_each-From texts asset_id seen (v ∷ vs) now =
      Ensures-bind _ _ (Ensures-refuse (λ s h. h) _ _) λ _.
        Ensures-bind _ _
          (Ensures-weaken _ (Ensures-refuse (λ s h. h.0) _ _) (λ _ s h. h.0.0) (λ s h. h))
          λ _.
            Ensures-bind _ _
              (Ensures-weaken _ (upsert_asset_variant-Holding texts _ now) (λ w s h. h.0)
                (λ s h. h))
              λ item.
                Ensures-bind _ _
                  (upsert_each-From texts asset_id (trim_space v.variant_identity ∷ seen) vs now)
                  λ rest. Ensures-pure _ (λ s h. h)

  pub upsert_asset_variants-From :
      (texts : Texts) (asset_id : String) (vs : List AssetVariant) (now : ℕ)
      → Ensures
          (From start K)
          (upsert_asset_variants texts asset_id vs now)
          (λ _. From start K)
          (From start K)
  unfolding upsert_asset_variants
  upsert_asset_variants-From texts asset_id [] now = Ensures-raise _ (λ s h. h)
  upsert_asset_variants-From texts asset_id (v ∷ vs) now =
      upsert_each-From texts asset_id [] (v ∷ vs) now
