-- ===== src/Media/Manifest.antt =====
-- UpsertMediaManifest and UpsertMediaAssetVariants of internal/repository/media.go, with the transactions
-- around them: a revision's ordered attachments, which are compared and never changed.
pub mod Stored
pub mod Kept
use fragments_engine.Common.{
  ℕ, zero, suc, String, Bool, true, false, not, Option, none, some, List, [], ◌∷◌, ◌++◌, ◌&&◌, ◌||◌,
  ◌==◌, str_eq, length, if◌then◌else◌,
}
use fragments_engine.Common.Int.{ℤ, pos, same_ℤ, leb_ℤ}
use fragments_engine.Common.Error.{plain, conflict, wrap, ok}
use fragments_engine.Common.Text.{trim_space}
use fragments_engine.Store.Action.{pure, raise, wrapped, ◌>>=◌, ◌>>◌}
use fragments_engine.Store.Statements.{no_rows}
use fragments_engine.Media.Types.{
  valid_role, AssetVariant, AttachmentRef, MediaAsset, MediaManifestItem, MediaStore, Texts,
}
use fragments_engine.Media.Session.{MediaAction, refuse, select, modify, transaction}
use fragments_engine.Media.Prepare.{is_below_zero}
use fragments_engine.Media.Rows.{◌⧺◌, is_some, has_text, find_asset}
use fragments_engine.Media.Variant.{upsert_asset_variants}
use fragments_engine.Media.Asset.{upsert_media_asset}

-- The placement at a position of a revision.
unfoldable pub find_ref : String → ℤ → List AttachmentRef → Option AttachmentRef
find_ref revision_id position [] = none
find_ref revision_id position (r ∷ rs) =
    let rest = find_ref revision_id position rs in
    if str_eq revision_id r.fragment_revision_id && same_ℤ position r.position then some r else rest

abbrev has_ref_id : String → List AttachmentRef → Bool
has_ref_id id [] = false
has_ref_id id (r ∷ rs) = let rest = has_ref_id id rs in str_eq id r.id || rest

-- The primary key, the unique position, and the asset that the placement refers to.
abbrev ref_violates : MediaStore → AttachmentRef → Bool
ref_violates s r =
    is_some (find_ref r.fragment_revision_id r.position s.refs)
    || has_ref_id r.id s.refs
    || not (is_some (find_asset r.media_asset_id s.assets))

unfoldable pub insert_ref : AttachmentRef → MediaAction (Unit {0})
insert_ref r = do
  violated ← select λ s. ok (ref_violates s r)
  refuse violated (plain "constraint failed")
  modify λ s. record s { refs = s.refs ++ r ∷ [] }

abbrev pub identified_ref : Texts → ℕ → AttachmentRef → AttachmentRef
identified_ref texts now r = record r {
  id =
      texts.digest_text (
        "attachment-ref\n"
        ⧺ trim_space r.fragment_revision_id
        ⧺ "\n"
        ⧺ texts.format_int r.position);
  created_at = if r.created_at == 0 then now else r.created_at;
}

-- The same placement: the asset, the role and the two texts.
abbrev pub same_placement : AttachmentRef → AttachmentRef → Bool
same_placement a b =
    str_eq a.media_asset_id b.media_asset_id
    && str_eq a.role b.role
    && str_eq a.caption b.caption
    && str_eq a.source_context b.source_context

unfoldable pub store_ref : AttachmentRef → Option AttachmentRef → MediaAction AttachmentRef
unfolding insert_ref
store_ref r (some existing) = do
  refuse (not (same_placement existing r))
      (conflict "attachment ref" r.id "immutable placement semantics changed")
  pure existing
store_ref r none = do wrapped "insert attachment ref" (insert_ref r); pure r

-- `insertOrCompareAttachmentRef`
unfoldable pub insert_or_compare_attachment_ref :
    Texts → AttachmentRef → ℕ → MediaAction AttachmentRef
unfolding store_ref
insert_or_compare_attachment_ref texts given now = do
  refuse (not (valid_role given.role)) (plain "insert attachment ref: invalid role")
  refuse (is_below_zero given.position)
      (plain "insert attachment ref: position must be non-negative")
  let r = identified_ref texts now given
  existing ←
      wrapped "find attachment ref"
        (select λ s. ok (find_ref r.fragment_revision_id r.position s.refs))
  store_ref r existing

-- `sort.SliceStable` by position.
insert_item : MediaManifestItem → List MediaManifestItem → List MediaManifestItem
insert_item item [] = item ∷ []
insert_item item (x ∷ xs) =
    let rest = insert_item item xs in
    if leb_ℤ item.attachment.position x.attachment.position then item ∷ x ∷ xs else x ∷ rest

unfoldable pub ordered_items : List MediaManifestItem → List MediaManifestItem
unfolding insert_item
ordered_items [] = []
ordered_items (item ∷ items) = let rest = ordered_items items in insert_item item rest

-- The positions are i, i + 1, and so on.
unfoldable pub contiguous : ℕ → List MediaManifestItem → Bool
contiguous i [] = true
contiguous i (item ∷ items) =
    let rest = contiguous (suc i) items in same_ℤ item.attachment.position (pos i) && rest

abbrev count_refs : String → List AttachmentRef → ℕ
count_refs revision_id [] = zero
count_refs revision_id (r ∷ rs) =
    let rest = count_refs revision_id rs in
    if str_eq r.fragment_revision_id revision_id then suc rest else rest

unfoldable pub store_item : Texts → String → MediaManifestItem → ℕ → MediaAction MediaManifestItem
store_item texts revision_id item now = do
  asset ← upsert_media_asset texts item.asset now
  variants ← upsert_asset_variants texts asset.id item.variants now
  attachment ←
      insert_or_compare_attachment_ref texts
        (record item.attachment { fragment_revision_id = revision_id; media_asset_id = asset.id })
        now
  pure (record { asset = asset; variants = variants; attachment = attachment })

unfoldable pub store_items :
    Texts → String → List MediaManifestItem → ℕ → MediaAction (List MediaManifestItem)
unfolding store_item
store_items texts revision_id [] now = pure []
store_items texts revision_id (item ∷ items) now = do
  stored ← store_item texts revision_id item now
  rest ← store_items texts revision_id items now
  pure (stored ∷ rest)

unfoldable pub upsert_media_manifest :
    Texts → String → List MediaManifestItem → ℕ → MediaAction (List MediaManifestItem)
unfolding store_items
upsert_media_manifest texts given_id items now = do
  let revision_id = trim_space given_id
  refuse (str_eq revision_id "") (plain "upsert media manifest: fragment revision ID is required")
  exists ←
      wrapped "upsert media manifest: resolve revision"
        (select λ s. ok (has_text revision_id s.revisions))
  refuse (not exists) (wrap "upsert media manifest: resolve revision" no_rows)
  let ordered = ordered_items items
  refuse (not (contiguous 0 ordered))
      (plain "upsert media manifest: positions must be contiguous and zero-based")
  existing ←
      wrapped "count revision attachment refs" (select λ s. ok (count_refs revision_id s.refs))
  refuse (not (existing == 0) && not (existing == length ordered)) (
      conflict "attachment manifest" revision_id
        "immutable revision already has a different attachment count")
  store_items texts revision_id ordered now

-- UpsertManifest
unfoldable pub upsert_manifest :
    Texts → String → List MediaManifestItem → ℕ → MediaAction (List MediaManifestItem)
upsert_manifest texts revision_id items now =
    transaction "commit media manifest" (upsert_media_manifest texts revision_id items now)

-- UpsertAssetVariants, and UpsertMediaAssetVariants in it.
unfoldable pub upsert_media_asset_variants :
    Texts → MediaAsset → List AssetVariant → ℕ → MediaAction (MediaAsset × List AssetVariant)
upsert_media_asset_variants texts asset variants now = do
  resolved ← upsert_media_asset texts asset now
  stored ← upsert_asset_variants texts resolved.id variants now
  pure (resolved, stored)

unfoldable pub upsert_variants :
    Texts → MediaAsset → List AssetVariant → ℕ → MediaAction (MediaAsset × List AssetVariant)
upsert_variants texts asset variants now =
    transaction "commit media asset variants" (upsert_media_asset_variants texts asset variants now)
