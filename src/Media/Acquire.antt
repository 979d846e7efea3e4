-- ===== src/Media/Acquire.antt =====
-- resolveAcquisitionVariant of internal/repository/asset_acquisition.go: the variant that a custody
-- command means, and its advance.
use fragments_engine.Common.{
  ℕ, String, Bool, false, not, Option, none, some, List, [], ◌∷◌, ◌&&◌, ◌||◌, str_eq, if◌then◌else◌,
}
use fragments_engine.Common.Int.{pos}
use fragments_engine.Common.Error.{conflict, ok}
use fragments_engine.Store.Action.{pure, raise, wrapped, ◌>>=◌, ◌>>◌}
use fragments_engine.Media.Types.{
  CustodyMode, reference, mirror, same_custody, AcquisitionState, available, pending,
  RetentionPolicy, indefinite, is_indefinite, AssetVariant, Texts,
}
use fragments_engine.Media.Session.{MediaAction, refuse, select, modify}
use fragments_engine.Media.Digest.{no_digest}
use fragments_engine.Media.Rows.{◌⧺◌, row_before, update_blob, update_variant, load_asset_variant}
use fragments_engine.Media.Variant.{upsert_asset_variant}

-- Custody stays, comes from a reference, or goes from the cache to a mirror.
unfoldable pub allows_custody : CustodyMode → CustodyMode → Bool
allows_custody current requested =
    same_custody current requested
    || same_custody current reference
    || (same_custody current CustodyMode.cache && same_custody requested mirror)

abbrev pub retention_for_requested_custody : CustodyMode → RetentionPolicy
retention_for_requested_custody CustodyMode.cache = RetentionPolicy.cache
retention_for_requested_custody _ = indefinite

abbrev pub acquisition_variant_identity : String → String
acquisition_variant_identity kind = "acquisition:" ⧺ kind

-- `ORDER BY created_at, id`
insert_by_age : Texts → AssetVariant → List AssetVariant → List AssetVariant
insert_by_age texts v [] = v ∷ []
insert_by_age texts v (w ∷ ws) =
    let rest = insert_by_age texts v ws in
    if row_before texts v.created_at v.id w.created_at w.id then v ∷ w ∷ ws else w ∷ rest

unfoldable pub candidates_of : Texts → String → String → List AssetVariant → List AssetVariant
unfolding insert_by_age
candidates_of texts asset_id kind [] = []
candidates_of texts asset_id kind (v ∷ vs) =
    let rest = candidates_of texts asset_id kind vs in
    if str_eq v.media_asset_id asset_id && str_eq v.kind kind
    then insert_by_age texts v rest
    else rest

-- The loop over several candidates, with the one selected so far.
unfoldable pub select_identity :
    String → String → Option AssetVariant → List AssetVariant → MediaAction AssetVariant
select_identity asset_id kind (some v) [] = pure v
select_identity asset_id kind none [] = raise (
    conflict "asset acquisition" asset_id
      "variant kind is ambiguous; an explicit variant identity is required")
select_identity asset_id kind selected (v ∷ vs) =
    let keep = select_identity asset_id kind selected vs in
    let take_this = select_identity asset_id kind (some v) vs in
    if str_eq v.variant_identity (acquisition_variant_identity kind)
    then elim selected [
      | some _ ↦ raise (
          conflict "asset acquisition" asset_id
            "multiple acquisition variants have the requested kind")
      | none ↦ take_this
    ]
    else keep

-- The one candidate, or the one among several.
unfoldable pub choose :
    String → String → AssetVariant → List AssetVariant → MediaAction AssetVariant
unfolding select_identity
choose asset_id kind v [] = pure v
choose asset_id kind v (w ∷ ws) = select_identity asset_id kind none (v ∷ w ∷ ws)

abbrev pub next_state : AcquisitionState → AcquisitionState
next_state available = available
next_state _ = pending

-- The UPDATE of a variant that custody was asked for.
unfoldable pub advance_variant : CustodyMode → AcquisitionState → ℕ → AssetVariant → AssetVariant
advance_variant requested state now row = record row {
  custody = requested;
  acquisition_state = state;
  retention = retention_for_requested_custody requested;
  failure = none;
  updated_at = now;
}

-- What the UPDATE's WHERE clause asks for beside the id.
abbrev pub advance_of : String → CustodyMode → AcquisitionState → ℕ → AssetVariant → AssetVariant
advance_of asset_id requested state now row =
    if str_eq row.media_asset_id asset_id then advance_variant requested state now row else row

-- The bytes of the variant, if it has any and they are to stay.
unfoldable pub retain_blob : AssetVariant → RetentionPolicy → MediaAction (Unit {0})
retain_blob variant retention =
    if not (str_eq variant.blob_digest "") && is_indefinite retention
    then wrapped "retain requested media blob" (
        modify λ s. record s {
          blobs =
              update_blob variant.blob_digest (λ b. record b { retention = indefinite }) s.blobs;
        })
    else pure tt

unfoldable pub advance_existing : String → CustodyMode → ℕ → AssetVariant → MediaAction AssetVariant
unfolding retain_blob
advance_existing asset_id requested now selected = do
  variant ← load_asset_variant selected.id
  refuse (not (allows_custody variant.custody requested))
      (conflict "asset acquisition" variant.id "custody transition is not allowed")
  wrapped "advance asset variant acquisition" (
      modify λ s. record s {
        variants =
            update_variant variant.id
              (advance_of asset_id requested (next_state variant.acquisition_state) now) s.variants;
      })
  retain_blob variant (retention_for_requested_custody requested)
  load_asset_variant variant.id

abbrev acquisition_variant : String → String → CustodyMode → AssetVariant
acquisition_variant asset_id kind requested = record {
  id = "";
  media_asset_id = asset_id;
  variant_identity = acquisition_variant_identity kind;
  kind = kind;
  source_url = "";
  source_expires_at = 0;
  source_path = "";
  mime_type = "";
  width = pos 0;
  height = pos 0;
  duration_seconds = record { sign = false; exponent = 0; fraction = 0 };
  byte_size = pos 0;
  expected_digest = no_digest;
  digest = no_digest;
  blob_digest = "";
  custody = requested;
  acquisition_state = pending;
  failure = none;
  retention = retention_for_requested_custody requested;
  metadata_json = "";
  legacy_storage_path = "";
  created_at = 0;
  updated_at = 0;
}

unfoldable pub resolve_candidates :
    Texts → String → String → CustodyMode → ℕ → List AssetVariant → MediaAction AssetVariant
unfolding choose advance_existing
resolve_candidates texts asset_id kind requested now [] =
    upsert_asset_variant texts (acquisition_variant asset_id kind requested) now
resolve_candidates texts asset_id kind requested now (v ∷ vs) = do
  selected ← choose asset_id kind v vs
  advance_existing asset_id requested now selected

unfoldable pub resolve_acquisition_variant :
    Texts → String → String → CustodyMode → ℕ → MediaAction AssetVariant
unfolding resolve_candidates
resolve_acquisition_variant texts asset_id kind requested now = do
  candidates ←
      wrapped "list acquisition variants"
        (select λ s. ok (candidates_of texts asset_id kind s.variants))
  resolve_candidates texts asset_id kind requested now candidates
