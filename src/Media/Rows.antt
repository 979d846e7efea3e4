-- ===== src/Media/Rows.antt =====
-- The statements on asset variants, blobs and source observations, with the constraints of
-- internal/store/migrations/013_media_assets.sql.
use fragments_engine.Common.{
  ℕ, String, Bool, true, false, not, Option, none, some, List, [], ◌∷◌, ◌++◌, ◌&&◌, ◌||◌, ◌==◌,
  str_eq, if◌then◌else◌,
}
use fragments_engine.Common.Error.{plain, ok}
use fragments_engine.Common.Text.{trim_space}
use fragments_engine.Store.Action.{wrapped, pure, ◌>>=◌, ◌>>◌}
use fragments_engine.Store.Statements.{or_no_rows}
use fragments_engine.Media.Types.{
  RetentionPolicy, retention_text, AssetVariant, MediaAsset, MediaBlob, SourceObservation,
  MediaStore, Texts,
}
use fragments_engine.Media.Session.{MediaAction, refuse, select, modify}
use Prim.Native.Nat.{Ordering}
use Prim.Native.String.{◌++◌ as text_append, compare}

-- `ORDER BY created_at, id`, where the time stands in the table as text.
abbrev pub row_before : Texts → ℕ → String → ℕ → String → Bool
row_before texts time id time' id' =
    elim (compare (texts.format_time time) (texts.format_time time')) [
      | Ordering.lt ↦ true
      | Ordering.eq ↦ elim (compare id id') [ Ordering.gt ↦ false | _ ↦ true ]
      | Ordering.gt ↦ false
    ]

unfoldable pub find_variant : String → List AssetVariant → Option AssetVariant
find_variant id [] = none
find_variant id (v ∷ vs) = let rest = find_variant id vs in if str_eq id v.id then some v else rest

abbrev pub names_variant : String → String → AssetVariant → Bool
names_variant asset_id identity v =
    str_eq asset_id v.media_asset_id && str_eq identity v.variant_identity

unfoldable pub find_by_identity : String → String → List AssetVariant → Option AssetVariant
find_by_identity asset_id identity [] = none
find_by_identity asset_id identity (v ∷ vs) =
    let rest = find_by_identity asset_id identity vs in
    if names_variant asset_id identity v then some v else rest

-- UPDATE asset_variants … WHERE id = ?
unfoldable pub update_variant :
    String → (AssetVariant → AssetVariant) → List AssetVariant → List AssetVariant
update_variant id f [] = []
update_variant id f (v ∷ vs) =
    let rest = update_variant id f vs in (if str_eq id v.id then f v else v) ∷ rest

unfoldable pub find_blob : String → List MediaBlob → Option MediaBlob
find_blob digest [] = none
find_blob digest (b ∷ bs) =
    let rest = find_blob digest bs in if str_eq digest b.digest.value then some b else rest

unfoldable pub update_blob : String → (MediaBlob → MediaBlob) → List MediaBlob → List MediaBlob
update_blob digest f [] = []
update_blob digest f (b ∷ bs) =
    let rest = update_blob digest f bs in (if str_eq digest b.digest.value then f b else b) ∷ rest

unfoldable pub find_asset : String → List MediaAsset → Option MediaAsset
find_asset id [] = none
find_asset id (a ∷ assets) =
    let rest = find_asset id assets in if str_eq id a.id then some a else rest

-- `loadMediaAsset`
unfoldable pub load_media_asset : String → MediaAction MediaAsset
load_media_asset id = wrapped "load media asset" (select λ s. or_no_rows (find_asset id s.assets))

abbrev pub has_text : String → List String → Bool
has_text s [] = false
has_text s (t ∷ ts) = let rest = has_text s ts in str_eq s t || rest

abbrev pub is_some {ℓ} : {A : Type ℓ} → Option A → Bool
is_some none = false
is_some (some a) = true

abbrev known_retention : RetentionPolicy → Bool
known_retention (retention_text s) = false
known_retention _ = true

-- The primary key, the unique pair, the two foreign keys and the check of `retention`.
abbrev pub violates : MediaStore → AssetVariant → Bool
violates s v =
    is_some (find_variant v.id s.variants)
    || is_some (find_by_identity v.media_asset_id v.variant_identity s.variants)
    || not (is_some (find_asset v.media_asset_id s.assets))
    || not (str_eq v.blob_digest "" || is_some (find_blob v.blob_digest s.blobs))
    || not (known_retention v.retention)

unfoldable pub insert_variant : AssetVariant → MediaAction (Unit {0})
insert_variant v = do
  violated ← select λ s. ok (violates s v)
  refuse violated (plain "constraint failed")
  modify λ s. record s { variants = s.variants ++ v ∷ [] }

-- `loadAssetVariant`
unfoldable pub load_asset_variant : String → MediaAction AssetVariant
load_asset_variant id =
    wrapped "load asset variant" (select λ s. or_no_rows (find_variant id s.variants))

-- `findAssetVariantByIdentity`
unfoldable pub load_found : Option AssetVariant → MediaAction (Option AssetVariant)
load_found none = pure none
load_found (some v) = load_asset_variant v.id >>= λ found. pure (some found)

unfoldable pub find_asset_variant_by_identity : String → String → MediaAction (Option AssetVariant)
unfolding load_found
find_asset_variant_by_identity asset_id identity = do
  found ←
      wrapped "find asset variant" (select λ s. ok (find_by_identity asset_id identity s.variants))
  load_found found

-- INSERT … ON CONFLICT(asset_variant_id, source_url, source_expires_at) DO NOTHING
unfoldable pub observe : SourceObservation → List SourceObservation → List SourceObservation
observe o [] = o ∷ []
observe o (p ∷ ps) =
    let rest = observe o ps in
    if str_eq o.asset_variant_id p.asset_variant_id
      && str_eq o.source_url p.source_url
      && o.source_expires_at == p.source_expires_at
    then p ∷ ps
    else p ∷ rest

infixr 65 ◌⧺◌
abbrev pub ◌⧺◌ : String → String → String
s ⧺ t = text_append s t

-- `formatOptionalTime`
abbrev pub format_optional_time : Texts → ℕ → String
format_optional_time texts t = if t == 0 then "" else texts.format_time t

-- `insertVariantSourceObservation`
unfoldable pub insert_variant_source_observation :
    Texts → String → String → ℕ → ℕ → MediaAction (Unit {0})
insert_variant_source_observation texts variant_id source_url expires_at observed_at =
    if str_eq (trim_space source_url) ""
    then pure tt
    else wrapped "record asset variant source observation" (
        modify λ s. record s {
          observations =
              observe
                (record {
                  id = texts.digest_text (
                      "variant-source-observation\n"
                      ⧺ variant_id
                      ⧺ "\n"
                      ⧺ trim_space source_url
                      ⧺ "\n"
                      ⧺ format_optional_time texts expires_at);
                  asset_variant_id = variant_id;
                  source_url = trim_space source_url;
                  source_expires_at = expires_at;
                  observed_at = observed_at;
                })
                s.observations;
        })
