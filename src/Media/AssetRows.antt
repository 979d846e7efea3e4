-- ===== src/Media/AssetRows.antt =====
-- The statements on media assets, their aliases and their source observations
-- (internal/repository/media.go), and the identity of an asset (internal/domain/media.go).
use fragments_engine.Common.{
  ℕ, String, Bool, false, Option, none, some, List, [], ◌∷◌, ◌++◌, ◌&&◌, ◌||◌, str_eq,
  if◌then◌else◌,
}
use fragments_engine.Common.Error.{plain, ok}
use fragments_engine.Common.Text.{trim_space}
use fragments_engine.Store.Action.{pure, attempt, wrapped, ◌>>=◌, ◌>>◌}
use fragments_engine.Media.Types.{MediaAsset, AssetObservation, IdentityAlias, MediaStore, Texts}
use fragments_engine.Media.Session.{MediaAction, refuse, select, modify}
use fragments_engine.Media.Rows.{◌⧺◌, row_before, is_some, find_asset, load_media_asset}

-- The provider's id, else the locator, else the key of the source.
abbrev preferred_key : String → String → String → String
preferred_key provider_media_id source_media_key source_locator =
    if str_eq (trim_space provider_media_id) ""
    then (if str_eq (trim_space source_locator) ""
        then trim_space source_media_key
        else trim_space source_locator)
    else trim_space provider_media_id

-- The second value of `StableMediaAssetID`, and the first, which is made of it.
abbrev pub asset_identity_key : Texts → MediaAsset → String
asset_identity_key texts a = texts.digest_text (
    trim_space a.source_registration_id
    ⧺ "\n"
    ⧺ texts.to_lower (trim_space a.provider)
    ⧺ "\n"
    ⧺ preferred_key a.provider_media_id a.source_media_key a.source_locator)

abbrev pub stable_media_asset_id : Texts → MediaAsset → String
stable_media_asset_id texts a = texts.digest_text ("media-asset\n" ⧺ asset_identity_key texts a)

asset_with_identity : String → List MediaAsset → Option String
asset_with_identity key [] = none
asset_with_identity key (a ∷ assets) =
    let rest = asset_with_identity key assets in
    if str_eq key a.identity_key then some a.id else rest

unfoldable pub find_alias : String → List IdentityAlias → Option String
find_alias key [] = none
find_alias key (a ∷ aliases) =
    let rest = find_alias key aliases in
    if str_eq key a.identity_key then some a.media_asset_id else rest

-- COALESCE of the asset and of the alias with the identity; an empty id is none.
coalesce : Option String → Option String → Option String
coalesce (some id) other = if str_eq id "" then none else some id
coalesce none (some id) = if str_eq id "" then none else some id
coalesce none none = none

unfoldable pub load_found_asset : Option String → MediaAction (Option MediaAsset)
load_found_asset none = pure none
load_found_asset (some id) = load_media_asset id >>= λ a. pure (some a)

-- `findMediaAssetByIdentity`, for which a failing SELECT is one without a row.
unfoldable pub find_media_asset_by_identity : String → MediaAction (Option MediaAsset)
unfolding asset_with_identity coalesce load_found_asset
find_media_asset_by_identity key =
    attempt
      (select λ s. ok (coalesce (asset_with_identity key s.assets) (find_alias key s.aliases)))
      load_found_asset (λ e. pure none)

-- Whether an asset has an observation that passes a test.
observed : (AssetObservation → Bool) → String → List AssetObservation → Bool
observed test id [] = false
observed test id (o ∷ os) =
    let rest = observed test id os in (str_eq o.media_asset_id id && test o) || rest

older : Texts → MediaAsset → MediaAsset → Bool
older texts a b = row_before texts a.created_at a.id b.created_at b.id

oldest : Texts → MediaAsset → Option MediaAsset → MediaAsset
unfolding older
oldest texts a none = a
oldest texts a (some b) = if older texts a b then a else b

-- ORDER BY created_at, id LIMIT 1
oldest_match : Texts → (MediaAsset → Bool) → List MediaAsset → Option MediaAsset
unfolding oldest
oldest_match texts test [] = none
oldest_match texts test (a ∷ assets) =
    let rest = oldest_match texts test assets in if test a then some (oldest texts a rest) else rest

abbrev id_of : Option MediaAsset → Option String
id_of none = none
id_of (some a) = some a.id

-- `findMediaAssetByObservedField`, with the predicate on an asset and an observation.
unfoldable pub find_by_observed_field :
    Texts → MediaAsset → (MediaAsset → AssetObservation → Bool) → MediaAction (Option MediaAsset)
unfolding observed oldest_match load_found_asset
find_by_observed_field texts given test = do
  id ← wrapped "find media asset by source observation" (
      select λ s. ok (
        id_of (
          oldest_match texts
            (λ a.
              str_eq a.source_registration_id given.source_registration_id
              && str_eq a.provider given.provider
              && observed (test a) a.id s.asset_observations)
            s.assets)))
  load_found_asset id

unfoldable pub by_media_key : Texts → MediaAsset → MediaAction (Option MediaAsset)
unfolding find_by_observed_field
by_media_key texts given =
    if str_eq (trim_space given.source_media_key) ""
    then pure none
    else find_by_observed_field texts given
        (λ a o. str_eq o.source_media_key given.source_media_key && str_eq a.source_locator "")

unfoldable pub or_by_media_key :
    Texts → MediaAsset → Option MediaAsset → MediaAction (Option MediaAsset)
unfolding by_media_key
or_by_media_key texts given none = by_media_key texts given
or_by_media_key texts given (some a) = pure (some a)

-- `findMediaAssetByObservation`
unfoldable pub find_media_asset_by_observation :
    Texts → MediaAsset → MediaAction (Option MediaAsset)
unfolding or_by_media_key by_media_key find_by_observed_field
find_media_asset_by_observation texts given =
    if str_eq (trim_space given.source_locator) ""
    then by_media_key texts given
    else find_by_observed_field texts given (λ a o. str_eq o.source_locator given.source_locator)
      >>= or_by_media_key texts given

unfoldable pub update_asset : String → (MediaAsset → MediaAsset) → List MediaAsset → List MediaAsset
update_asset id f [] = []
update_asset id f (a ∷ assets) =
    let rest = update_asset id f assets in (if str_eq id a.id then f a else a) ∷ rest

-- INSERT … ON CONFLICT(identity_key) DO NOTHING
abbrev pub insert_alias : IdentityAlias → List IdentityAlias → List IdentityAlias
insert_alias alias aliases =
    if is_some (find_alias alias.identity_key aliases) then aliases else aliases ++ alias ∷ []

abbrev asset_violates : MediaStore → MediaAsset → Bool
asset_violates s a =
    is_some (find_asset a.id s.assets) || is_some (asset_with_identity a.identity_key s.assets)

unfoldable pub insert_asset : MediaAsset → MediaAction (Unit {0})
unfolding asset_with_identity
insert_asset a = do
  violated ← select λ s. ok (asset_violates s a)
  refuse violated (plain "constraint failed")
  modify λ s. record s { assets = s.assets ++ a ∷ [] }

-- INSERT … ON CONFLICT(media_asset_id, source_media_key, source_locator) DO NOTHING
observe_asset : AssetObservation → List AssetObservation → List AssetObservation
observe_asset o [] = o ∷ []
observe_asset o (p ∷ ps) =
    let rest = observe_asset o ps in
    if str_eq o.media_asset_id p.media_asset_id
      && str_eq o.source_media_key p.source_media_key
      && str_eq o.source_locator p.source_locator
    then p ∷ ps
    else p ∷ rest

-- `insertMediaSourceObservation`
unfoldable pub insert_media_source_observation :
    Texts → String → String → String → ℕ → MediaAction (Unit {0})
unfolding observe_asset
insert_media_source_observation texts asset_id source_media_key source_locator observed_at =
    wrapped "record media source observation" (
      modify λ s. record s {
        asset_observations =
            observe_asset
              (record {
                id = texts.digest_text (
                    "media-source-observation\n" ⧺ asset_id ⧺ "\n" ⧺ source_media_key ⧺ "\n"
                    ⧺ source_locator);
                media_asset_id = asset_id;
                source_media_key = source_media_key;
                source_locator = source_locator;
                observed_at = observed_at;
              })
              s.asset_observations;
      })
