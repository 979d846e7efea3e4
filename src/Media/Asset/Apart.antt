-- ===== src/Media/Asset/Apart.antt =====
-- The upsert of an asset writes no variant, no request and no attachment ref.
use fragments_engine.Common.{ℕ, String, Bool, Option, none, some, List, str_eq}
use fragments_engine.Common.Error.{Err}
use fragments_engine.Common.Text.{trim_space}
use fragments_engine.Store.Action.{wrapped}
use fragments_engine.Media.Types.{
  AssetVariant, AssetAcquisitionRequest, AttachmentRef, AssetObservation, MediaAsset, MediaStore,
  Texts,
}
use fragments_engine.Media.Session.{MediaAction, refuse, modify}
use fragments_engine.Media.Session.Ensures.{
  Ensures, Ensures-pure, Ensures-raise, Ensures-if, Ensures-bind, Ensures-weaken, Ensures-wrapped,
  Ensures-attempt, Ensures-refuse, Ensures-select, Ensures-modify,
}
use fragments_engine.Media.Rows.{load_media_asset}
use fragments_engine.Media.AssetRows.{
  load_found_asset, find_media_asset_by_identity, find_by_observed_field, by_media_key,
  or_by_media_key, find_media_asset_by_observation, insert_asset, insert_media_source_observation,
}
use fragments_engine.Media.Asset.{
  refuse_asset, trimmed_asset, strengthen, strengthen_if, reconcile, resolve_asset, refine_kind,
  refuse_asset_conflict, store_asset, upsert_media_asset,
}

-- A predicate on the tables that the upsert leaves alone.
abbrev pub Apart :
    (List AssetVariant → List AssetAcquisitionRequest → List AttachmentRef → Type 0)
    → MediaStore
    → Type 0
Apart T s = T s.variants s.requests s.refs

module _ (T : List AssetVariant → List AssetAcquisitionRequest → List AttachmentRef → Type 0) where
  -- `m` keeps it, whether it returns or fails.
  abbrev Keeps : {A : Type 0} → MediaAction A → Type 0
  Keeps m = Ensures (Apart T) m (λ _. Apart T) (Apart T)

  looked :
      {A : Type 0} (m : MediaAction A) {P : A → MediaStore → Type 0}
      → Ensures (Apart T) m (λ a s. Apart T s × P a s) (Apart T)
      → Keeps m
  looked m h = Ensures-weaken m h (λ a s k. k.0) (λ s k. k)

  load_media_asset-Keeps : (id : String) → Keeps (load_media_asset id)
  unfolding load_media_asset
  load_media_asset-Keeps id = Ensures-wrapped _ _ (looked _ (Ensures-select (λ s h. h) _))

  load_found_asset-Keeps : (id : Option String) → Keeps (load_found_asset id)
  unfolding load_found_asset
  load_found_asset-Keeps none = Ensures-pure _ (λ s h. h)
  load_found_asset-Keeps (some id) =
      Ensures-bind _ _ (load_media_asset-Keeps id) (λ a. Ensures-pure _ (λ s h. h))

  by_identity-Keeps : (key : String) → Keeps (find_media_asset_by_identity key)
  unfolding find_media_asset_by_identity
  by_identity-Keeps key =
      Ensures-attempt _ _ _ (looked _ (Ensures-select (λ s h. h) _)) load_found_asset-Keeps
        (λ e. Ensures-pure none (λ s h. h))

  by_field-Keeps :
      (texts : Texts) (given : MediaAsset) (test : MediaAsset → AssetObservation → Bool)
      → Keeps (find_by_observed_field texts given test)
  unfolding find_by_observed_field
  by_field-Keeps texts given test =
      Ensures-bind _ _ (Ensures-wrapped _ _ (looked _ (Ensures-select (λ s h. h) _)))
        load_found_asset-Keeps

  by_media_key-Keeps : (texts : Texts) (given : MediaAsset) → Keeps (by_media_key texts given)
  unfolding by_media_key
  by_media_key-Keeps texts given =
      Ensures-if (str_eq (trim_space given.source_media_key) "") _ _
        (λ e. Ensures-pure _ (λ s h. h)) (λ e. by_field-Keeps texts given _)

  or_by_media_key-Keeps :
      (texts : Texts) (given : MediaAsset) (o : Option MediaAsset)
      → Keeps (or_by_media_key texts given o)
  unfolding or_by_media_key
  or_by_media_key-Keeps texts given none = by_media_key-Keeps texts given
  or_by_media_key-Keeps texts given (some a) = Ensures-pure _ (λ s h. h)

  by_observation-Keeps :
      (texts : Texts) (given : MediaAsset) → Keeps (find_media_asset_by_observation texts given)
  unfolding find_media_asset_by_observation
  by_observation-Keeps texts given =
      Ensures-if (str_eq (trim_space given.source_locator) "") _ _
        (λ e. by_media_key-Keeps texts given)
        (λ e. Ensures-bind _ _ (by_field-Keeps texts given _) (or_by_media_key-Keeps texts given))

  written :
      (prefix : String) (f : MediaStore → MediaStore)
      → ((s : MediaStore) → Apart T s → Apart T (f s))
      → Keeps (wrapped prefix (modify f))
  written prefix f h = Ensures-wrapped _ _ (Ensures-modify (λ s k. k) (Apart T) f h)

  refused : (b : Bool) (e : Err) → Keeps (refuse b e)
  refused b e = looked _ (Ensures-refuse (λ s h. h) b e)

  strengthen-Keeps : (given existing : MediaAsset) (now : ℕ) → Keeps (strengthen given existing now)
  unfolding strengthen
  strengthen-Keeps given existing now = Ensures-bind _ _ (refused _ _) λ _.
      Ensures-bind _ _ (written _ _ (λ s h. h)) λ _.
        Ensures-bind _ _ (Ensures-wrapped _ _ (looked _ (Ensures-select (λ s h. h) _))) λ claimed.
          Ensures-bind _ _ (refused _ _)
            λ _. Ensures-bind _ _ (written _ _ (λ s h. h)) λ _. load_media_asset-Keeps existing.id

  strengthen_if-Keeps :
      (given existing : MediaAsset) (now : ℕ) → Keeps (strengthen_if given existing now)
  unfolding strengthen_if
  strengthen_if-Keeps given existing now =
      Ensures-if (str_eq existing.identity_key given.identity_key) _ _
        (λ e. Ensures-pure _ (λ s h. h))
        (λ e.
          Ensures-bind _ _ (strengthen-Keeps given existing now) (λ a. Ensures-pure _ (λ s h. h)))

  reconcile-Keeps :
      (given : MediaAsset) (now : ℕ) (a b : Option MediaAsset) → Keeps (reconcile given now a b)
  unfolding reconcile
  reconcile-Keeps given now none none = Ensures-pure _ (λ s h. h)
  reconcile-Keeps given now (some a) none = strengthen_if-Keeps given a now
  reconcile-Keeps given now none (some b) = strengthen_if-Keeps given b now
  reconcile-Keeps given now (some a) (some b) =
      Ensures-bind _ _ (refused _ _) (λ _. strengthen_if-Keeps given a now)

  resolve_asset-Keeps :
      (texts : Texts) (given : MediaAsset) (now : ℕ) (found : Option MediaAsset)
      → Keeps (resolve_asset texts given now found)
  unfolding resolve_asset
  resolve_asset-Keeps texts given now found =
      Ensures-if (str_eq given.provider_media_id "") _ _ (λ e. Ensures-pure _ (λ s h. h))
        (λ e. Ensures-bind _ _ (by_observation-Keeps texts given) (reconcile-Keeps given now found))

  refine_kind-Keeps :
      (given : MediaAsset) (now : ℕ) (existing : MediaAsset)
      → Keeps (refine_kind given now existing)
  unfolding refine_kind
  refine_kind-Keeps given now existing =
      Ensures-if (str_eq existing.kind given.kind) _ _ (λ e. Ensures-pure _ (λ s h. h))
        (λ e. Ensures-bind _ _ (refused _ _) (λ _. written _ _ (λ s h. h)))

  refuse_asset_conflict-Keeps :
      (identity : String) (o : Option String) → Keeps (refuse_asset_conflict identity o)
  unfolding refuse_asset_conflict
  refuse_asset_conflict-Keeps identity none = Ensures-pure _ (λ s h. h)
  refuse_asset_conflict-Keeps identity (some reason) = Ensures-raise _ (λ s h. h)

  observation-Keeps :
      (texts : Texts) (id key locator : String) (now : ℕ)
      → Keeps (insert_media_source_observation texts id key locator now)
  unfolding insert_media_source_observation
  observation-Keeps texts id key locator now = written _ _ (λ s h. h)

  insert_asset-Keeps : (a : MediaAsset) → Keeps (insert_asset a)
  unfolding insert_asset
  insert_asset-Keeps a =
      Ensures-bind _ _ (looked _ (Ensures-select (λ s h. h) _))
        λ _. Ensures-bind _ _ (refused _ _) λ _. Ensures-modify (λ s h. h) (Apart T) _ (λ s h. h)

  store_asset-Keeps :
      (texts : Texts) (now : ℕ) (given : MediaAsset) (o : Option MediaAsset)
      → Keeps (store_asset texts now given o)
  unfolding store_asset
  store_asset-Keeps texts now given none =
      Ensures-bind _ _ (Ensures-wrapped _ _ (insert_asset-Keeps given)) λ _.
        Ensures-bind _ _ (observation-Keeps texts _ _ _ now) λ _. load_media_asset-Keeps given.id
  store_asset-Keeps texts now given (some existing) =
      Ensures-bind _ _ (refine_kind-Keeps given now existing) λ _.
        Ensures-bind _ _ (refused _ _) λ _.
          Ensures-bind _ _ (refuse_asset_conflict-Keeps given.identity_key _) λ _.
            Ensures-bind _ _ (written _ _ (λ s h. h)) λ _.
              Ensures-bind _ _ (observation-Keeps texts _ _ _ now)
                λ _. load_media_asset-Keeps existing.id

  refuse_asset-Keeps : (a : MediaAsset) → Keeps (refuse_asset a)
  unfolding refuse_asset
  refuse_asset-Keeps a = Ensures-bind _ _ (refused _ _) λ _.
      Ensures-bind _ _ (refused _ _)
        λ _. Ensures-bind _ _ (refused _ _) λ _. Ensures-bind _ _ (refused _ _) (λ _. refused _ _)

  pub upsert_media_asset-Keeps :
      (texts : Texts) (raw : MediaAsset) (now : ℕ)
      → Ensures (Apart T) (upsert_media_asset texts raw now) (λ _. Apart T) (Apart T)
  unfolding upsert_media_asset
  upsert_media_asset-Keeps texts raw now =
      Ensures-bind _ _ (refuse_asset-Keeps (trimmed_asset texts raw)) λ _.
        Ensures-bind _ _ (by_identity-Keeps _) λ found.
          Ensures-bind _ _ (resolve_asset-Keeps texts _ now found)
            λ resolved. store_asset-Keeps texts now _ resolved
