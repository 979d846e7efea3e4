-- ===== src/Media/Variant.antt =====
-- `upsertAssetVariant` and `upsertAssetVariants` of internal/repository/media.go.
use fragments_engine.Common.{ℕ, String, Option, none, some, List, [], ◌∷◌, str_eq}
use fragments_engine.Common.Error.{plain, conflict}
use fragments_engine.Common.Text.{trim_space}
use fragments_engine.Store.Action.{pure, raise, wrapped, ◌>>=◌, ◌>>◌}
use fragments_engine.Media.Types.{AssetVariant, Texts}
use fragments_engine.Media.Session.{MediaAction, refuse, modify}
use fragments_engine.Media.Prepare.{prepare_variant}
use fragments_engine.Media.Conflict.{asset_variant_semantic_conflict, fill_variant, stored_variant}
use fragments_engine.Media.Rows.{
  has_text, update_variant, insert_variant, load_asset_variant, find_asset_variant_by_identity,
  insert_variant_source_observation,
}

unfoldable pub refuse_conflict : String → Option String → MediaAction (Unit {0})
refuse_conflict identity none = pure tt
refuse_conflict identity (some reason) = raise (conflict "asset variant" identity reason)

-- The two ways of the upsert: the row is there, or it is not.
unfoldable pub upsert_found :
    Texts → ℕ → AssetVariant → Option AssetVariant → MediaAction AssetVariant
unfolding refuse_conflict
upsert_found texts now v (some row) = do
  refuse_conflict v.variant_identity (asset_variant_semantic_conflict row v)
  wrapped "fill asset variant observations"
      (modify λ s. record s { variants = update_variant row.id (fill_variant v now) s.variants })
  insert_variant_source_observation texts row.id v.source_url v.source_expires_at now
  load_asset_variant row.id
upsert_found texts now v none = do
  wrapped "insert asset variant" (insert_variant (stored_variant v))
  insert_variant_source_observation texts v.id v.source_url v.source_expires_at now
  load_asset_variant v.id

unfoldable pub upsert_asset_variant : Texts → AssetVariant → ℕ → MediaAction AssetVariant
unfolding upsert_found
upsert_asset_variant texts given now = do
  v ← prepare_variant texts now given
  found ← find_asset_variant_by_identity v.media_asset_id v.variant_identity
  upsert_found texts now v found

-- `upsertAssetVariants`, with the identities seen so far.
unfoldable pub upsert_each :
    Texts → String → List String → List AssetVariant → ℕ → MediaAction (List AssetVariant)
upsert_each texts asset_id seen [] now = pure []
upsert_each texts asset_id seen (v ∷ vs) now = do
  let identity = trim_space v.variant_identity
  refuse (str_eq identity "") (plain "upsert asset variant: variant identity is required")
  refuse (has_text identity seen) (plain "upsert asset variant: duplicate identity")
  item ←
      upsert_asset_variant texts
        (record v { media_asset_id = asset_id; variant_identity = identity }) now
  rest ← upsert_each texts asset_id (identity ∷ seen) vs now
  pure (item ∷ rest)

unfoldable pub upsert_asset_variants :
    Texts → String → List AssetVariant → ℕ → MediaAction (List AssetVariant)
unfolding upsert_each
upsert_asset_variants texts asset_id [] now =
    raise (plain "upsert asset variants: at least one variant is required")
upsert_asset_variants texts asset_id (v ∷ vs) now = upsert_each texts asset_id [] (v ∷ vs) now
