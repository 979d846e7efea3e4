-- ===== src/Media/Asset.antt =====
-- `upsertMediaAsset` of internal/repository/media.go: a logical asset under its identity, under an alias
-- of it, or under an earlier observation of its source.
pub mod Apart
use fragments_engine.Common.{
  ℕ, String, Bool, true, false, not, Option, none, some, List, [], ◌∷◌, ◌&&◌, ◌||◌, ◌==◌, str_eq,
  if◌then◌else◌,
}
use fragments_engine.Common.Error.{plain, conflict, ok}
use fragments_engine.Common.Text.{trim_space}
use fragments_engine.Store.Action.{pure, raise, wrapped, ◌>>=◌, ◌>>◌}
use fragments_engine.Store.Statements.{or_no_rows}
use fragments_engine.Media.Types.{
  CustodyMode, custody_text, same_custody, valid_custody, valid_media_kind, is_zero, is_negative,
  MediaAsset, Texts,
}
use fragments_engine.Media.Session.{MediaAction, refuse, select, modify}
use fragments_engine.Media.Rows.{load_media_asset}
use fragments_engine.Media.Prepare.{is_below_zero, default_custody}
use fragments_engine.Media.Conflict.{first_reason, set_ℤ, set_float, set_text, fill_text, fill_ℤ}
use fragments_engine.Media.AssetRows.{
  asset_identity_key, stable_media_asset_id, find_alias, find_media_asset_by_identity,
  find_media_asset_by_observation, update_asset, insert_alias, insert_asset,
  insert_media_source_observation,
}

abbrev trimmed_asset : Texts → MediaAsset → MediaAsset
trimmed_asset texts a = record a {
  source_registration_id = trim_space a.source_registration_id;
  provider = texts.to_lower (trim_space a.provider);
  provider_media_id = trim_space a.provider_media_id;
  source_media_key = trim_space a.source_media_key;
  source_locator = trim_space a.source_locator;
  source_authority = trim_space a.source_authority;
  alt_text = trim_space a.alt_text;
}

-- The checks of the trimmed asset, in their order.
unfoldable pub refuse_asset : MediaAsset → MediaAction (Unit {0})
refuse_asset a = do
  refuse (str_eq a.source_registration_id "" || str_eq a.provider "")
      (plain "upsert media asset: source registration and provider are required")
  refuse
      (str_eq a.provider_media_id "" && str_eq a.source_media_key "" && str_eq a.source_locator "")
      (plain
        "upsert media asset: provider media ID, source media key, or source locator is required")
  refuse (not (valid_media_kind a.kind)) (plain "upsert media asset: invalid media kind")
  refuse
      (is_below_zero a.width
        || is_below_zero a.height
        || is_negative a.duration_seconds
        || is_below_zero a.page_count)
      (plain "upsert media asset: dimensions, duration, and page count must be non-negative")
  refuse (not (valid_custody (default_custody a.default_custody)))
      (plain "upsert media asset: invalid default custody")

abbrev settled_asset : Texts → ℕ → MediaAsset → MediaAsset
settled_asset texts now a = record a {
  default_custody = default_custody a.default_custody;
  source_authority = if str_eq a.source_authority "" then a.provider else a.source_authority;
  metadata_json = if str_eq (trim_space a.metadata_json) "" then "{}" else a.metadata_json;
  id = stable_media_asset_id texts a;
  identity_key = asset_identity_key texts a;
  created_at = if a.created_at == 0 then now else a.created_at;
  updated_at = now;
}

-- A stronger identity of an asset that was observed before: an alias, and the provider's id.
unfoldable pub strengthen : MediaAsset → MediaAsset → ℕ → MediaAction MediaAsset
strengthen given existing now = do
  refuse
      (not (str_eq existing.provider_media_id "")
        && not (str_eq existing.provider_media_id given.provider_media_id))
      (conflict "media asset" given.identity_key
        "provider media ID conflicts with the observed asset")
  wrapped "record stronger media identity" (
      modify λ s. record s {
        aliases =
            insert_alias
              (record {
                identity_key = given.identity_key;
                media_asset_id = existing.id;
                created_at = now;
              })
              s.aliases;
      })
  claimed ←
      wrapped "verify stronger media identity"
        (select λ s. or_no_rows (find_alias given.identity_key s.aliases))
  refuse (not (str_eq claimed existing.id)) (
      conflict "media identity alias" given.identity_key
        "identity is already claimed by another asset")
  wrapped "complete provider media identity" (
      modify λ s. record s {
        assets =
            update_asset existing.id
              (λ row. record row {
                provider_media_id = fill_text "" row.provider_media_id given.provider_media_id;
                updated_at = now;
              })
              s.assets;
      })
  load_media_asset existing.id

unfoldable pub strengthen_if : MediaAsset → MediaAsset → ℕ → MediaAction (Option MediaAsset)
strengthen_if given existing now =
    if str_eq existing.identity_key given.identity_key
    then pure (some existing)
    else strengthen given existing now >>= λ a. pure (some a)

-- The asset under the identity and the one observed before.
unfoldable pub reconcile :
    MediaAsset → ℕ → Option MediaAsset → Option MediaAsset → MediaAction (Option MediaAsset)
reconcile given now none none = pure none
reconcile given now (some existing) none = strengthen_if given existing now
reconcile given now none (some seen) = strengthen_if given seen now
reconcile given now (some existing) (some seen) =
    refuse (not (str_eq existing.id seen.id)) (
      conflict "media asset" given.identity_key
        "provider identity and prior source observation resolve to different assets")
    >> strengthen_if given existing now

unfoldable pub resolve_asset :
    Texts → MediaAsset → ℕ → Option MediaAsset → MediaAction (Option MediaAsset)
resolve_asset texts given now found =
    if str_eq given.provider_media_id ""
    then pure found
    else find_media_asset_by_observation texts given >>= reconcile given now found

-- A known kind takes the place of `other`, and nothing else changes.
unfoldable pub refine_kind : MediaAsset → ℕ → MediaAsset → MediaAction (Unit {0})
refine_kind given now existing = if str_eq existing.kind given.kind then pure tt else do
  refuse (not (str_eq existing.kind "other") || str_eq given.kind "other")
      (conflict "media asset" given.identity_key "kind changed")
  wrapped "refine media asset kind" (
      modify λ s. record s {
        assets =
            update_asset existing.id (λ row. record row { kind = given.kind; updated_at = now })
              s.assets;
      })

-- `mediaAssetSemanticConflict`; the default custodies are both set here.
unfoldable pub media_asset_semantic_conflict : MediaAsset → MediaAsset → Option String
media_asset_semantic_conflict a b = first_reason (
    (set_ℤ a.width b.width, "width changed")
    ∷ (set_ℤ a.height b.height, "height changed")
    ∷ (set_float a.duration_seconds b.duration_seconds, "duration changed")
    ∷ (set_ℤ a.page_count b.page_count, "page count changed")
    ∷ (set_text a.source_authority b.source_authority, "source authority changed")
    ∷ (
      not (same_custody a.default_custody (custody_text ""))
          && not (same_custody b.default_custody (custody_text ""))
          && not (same_custody a.default_custody b.default_custody),
      "default custody changed",
    )
    ∷ [])

unfoldable pub refuse_asset_conflict : String → Option String → MediaAction (Unit {0})
refuse_asset_conflict identity none = pure tt
refuse_asset_conflict identity (some reason) = raise (conflict "media asset" identity reason)

abbrev fill_asset : MediaAsset → ℕ → MediaAsset → MediaAsset
fill_asset given now row = record row {
  source_locator = fill_text "" row.source_locator given.source_locator;
  width = fill_ℤ row.width given.width;
  height = fill_ℤ row.height given.height;
  duration_seconds =
      if is_zero row.duration_seconds then given.duration_seconds else row.duration_seconds;
  page_count = fill_ℤ row.page_count given.page_count;
  alt_text = fill_text "" row.alt_text given.alt_text;
  metadata_json = fill_text "{}" row.metadata_json given.metadata_json;
  updated_at = now;
}

-- The asset is there, or it is not.
unfoldable pub store_asset : Texts → ℕ → MediaAsset → Option MediaAsset → MediaAction MediaAsset
store_asset texts now given (some existing) = do
  refine_kind given now existing
  refuse
      (not (str_eq existing.source_registration_id given.source_registration_id)
        || not (str_eq existing.provider given.provider)
        || set_text existing.provider_media_id given.provider_media_id
        || (str_eq existing.provider_media_id ""
            && str_eq existing.source_locator ""
            && not (str_eq existing.source_media_key given.source_media_key)))
      (conflict "media asset" given.identity_key "stable source identity changed")
  refuse_asset_conflict given.identity_key (media_asset_semantic_conflict existing given)
  wrapped "fill media asset observations"
      (modify λ s. record s { assets = update_asset existing.id (fill_asset given now) s.assets })
  insert_media_source_observation texts existing.id given.source_media_key given.source_locator now
  load_media_asset existing.id
store_asset texts now given none = do
  wrapped "insert media asset" (insert_asset given)
  insert_media_source_observation texts given.id given.source_media_key given.source_locator now
  load_media_asset given.id

unfoldable pub upsert_media_asset : Texts → MediaAsset → ℕ → MediaAction MediaAsset
upsert_media_asset texts raw now = do
  refuse_asset (trimmed_asset texts raw)
  let given = settled_asset texts now (trimmed_asset texts raw)
  found ← find_media_asset_by_identity given.identity_key
  resolved ← resolve_asset texts given now found
  store_asset texts now given resolved
