-- ===== src/Media/Examples.antt =====
-- A cached and a mirrored variant, a blob store on a list of names, and each theorem on them.
use fragments_engine.Common.{
  ◌≡◌, refl, inl, String, Bool, true, false, none, some, List, [], ◌∷◌, str_eq, eq_refl,
  if◌then◌else◌,
}
use fragments_engine.Common.Int.{pos}
use fragments_engine.Common.Error.{Result, ok, err, wrap}
use fragments_engine.Store.Action.{
  ◌>>=◌, query, attempt, pure, write, raise, step, statement_failed,
}
use fragments_engine.Common.Text.{trim_left, trim_right, trim_space}
use fragments_engine.Routing.Examples.{waiting_with}
use fragments_engine.Media.Types.{
  CustodyMode, reference, MediaAsset, AttachmentRef, MediaManifestItem, mirror, pending,
  RetentionPolicy, indefinite, AssetVariant, MediaStore, AssetAcquisitionRequest, Texts,
}
use fragments_engine.Media.Session.{
  MediaWorld, transaction, refuse, deferred, begin_immediate, select, modify, commit, roll_back,
}
use fragments_engine.Media.Digest.{no_digest, sha256_digest, sha256_hex, normalized}
use fragments_engine.Media.Rows.{
  find_asset_variant_by_identity, find_by_identity, insert_variant,
  insert_variant_source_observation, load_found, find_asset, load_media_asset, find_variant,
  load_asset_variant, find_blob, update_variant, update_blob,
}
use fragments_engine.Media.Bytes.{attach_blob_on, own_bytes}
use fragments_engine.Media.Acquire.{
  resolve_acquisition_variant, candidates_of, allows_custody, advance_variant,
}
use fragments_engine.Media.Request.{find_request, request_asset_acquisition, AssetAcquisitionResult}
use fragments_engine.Media.Request.Replayed.{request_asset_acquisition-Replayed}
use fragments_engine.Media.Content.{
  MediaBlobStore, blob_reference_count_on, store_variant_content_atomic,
}
use fragments_engine.Media.Content.Files.{IsBlobStore, CleanFiles}
use fragments_engine.Media.Content.Clean.{store_variant_content-Clean}
use fragments_engine.Media.Machine.{IsSound}
use mathlib.Core.Path.{subst}
use fragments_engine.Media.Machine.Advances.{TableAdvances}
use fragments_engine.Media.Machine.Sound.{TableSound}
use fragments_engine.Media.Asset.{
  upsert_media_asset, refuse_asset, media_asset_semantic_conflict, reconcile, refine_kind,
  refuse_asset_conflict, resolve_asset, store_asset, strengthen_if,
}
use fragments_engine.Media.AssetRows.{
  find_media_asset_by_identity, find_alias, find_media_asset_by_observation, by_media_key,
  update_asset, insert_media_source_observation, load_found_asset,
}
use fragments_engine.Media.Prepare.{
  prepare_variant, normalize_unless_empty, normalize_blob, refuse_unsound,
}
use fragments_engine.Media.Variant.{
  upsert_asset_variant, upsert_asset_variants, upsert_each, upsert_found,
}
use fragments_engine.Media.Conflict.{stored_variant}
use fragments_engine.Media.Manifest.{
  upsert_media_manifest, find_ref, insert_or_compare_attachment_ref, store_item, store_items,
  store_ref, insert_ref, upsert_manifest, contiguous, ordered_items,
}
use fragments_engine.Media.Manifest.Stored.{Grows, AllAnswer}
use fragments_engine.Media.Manifest.Kept.{upsert_manifest-Grows, upsert_manifest-AllAnswer}
use fragments_engine.Media.Commands.{MediaCommand, mark, store, request, run_commands}
use fragments_engine.Media.Commands.Kept.{run_commands-TableAdvances, run_commands-TableSound}

abbrev texts : Texts
texts = record {
  to_lower = λ s. s;
  digest_text = λ s. s;
  format_time = λ t. "";
  format_int = λ n. "";
}

abbrev zeros : String
zeros = "0000000000000000000000000000000000000000000000000000000000000000"

-- A variant of the asset `a1`.
abbrev variant_of : String → CustodyMode → RetentionPolicy → AssetVariant
variant_of id custody retention = record {
  id = id;
  media_asset_id = "a1";
  variant_identity = id;
  kind = "original";
  source_url = "";
  source_expires_at = 0;
  source_path = "";
  mime_type = "";
  width = pos 0;
  height = pos 0;
  duration_seconds = record { sign = false; exponent = 0; fraction = 0 };
  byte_size = pos 0;
  expected_digest = no_digest;
  digest = no_digest;
  blob_digest = "";
  custody = custody;
  acquisition_state = pending;
  failure = none;
  retention = retention;
  metadata_json = "{}";
  legacy_storage_path = "";
  created_at = 1;
  updated_at = 1;
}

abbrev photo : MediaAsset
photo = record {
  id = "a1";
  identity_key = "reg\nsite\nm1";
  source_registration_id = "reg";
  provider = "site";
  provider_media_id = "m1";
  source_media_key = "";
  source_locator = "";
  kind = "image";
  width = pos 0;
  height = pos 0;
  duration_seconds = record { sign = false; exponent = 0; fraction = 0 };
  page_count = pos 0;
  alt_text = "";
  source_authority = "site";
  default_custody = reference;
  metadata_json = "{}";
  legacy_attachment_id = "";
  created_at = 1;
  updated_at = 1;
}

abbrev media : MediaStore
media = record {
  revisions = "rev1" ∷ [];
  assets = photo ∷ [];
  aliases = [];
  asset_observations = [];
  refs = [];
  variants = variant_of "v1" CustodyMode.cache RetentionPolicy.cache ∷ [];
  blobs = [];
  requests = [];
  observations = [];
  files = [];
}

-- The request for a mirror of the cached variant.
abbrev mirror_request : AssetAcquisitionRequest
mirror_request = record {
  id = "c1";
  idempotency_key = "k1";
  semantic_digest = "s1";
  media_asset_id = "a1";
  asset_variant_id = "";
  variant_kind = "original";
  requested_custody = mirror;
  requested_by = "me";
  reason = "";
  created_at = 7;
}

abbrev calm : MediaWorld
calm = waiting_with [] media

abbrev mirrored : AssetVariant
mirrored = record (variant_of "v1" mirror indefinite) { updated_at = 7 }

abbrev receipt : AssetAcquisitionResult
receipt = record {
  request = record mirror_request { asset_variant_id = "v1" };
  variant = mirrored;
  idempotent_replay = false;
}

abbrev after_request : MediaWorld
after_request = waiting_with [] (record media {
  variants = mirrored ∷ [];
  requests = record mirror_request { asset_variant_id = "v1" } ∷ [];
})

first_answer : request_asset_acquisition texts mirror_request calm ≡ (ok receipt, after_request)
unfolding request_asset_acquisition ◌>>=◌ refuse trim_right trim_left deferred begin_immediate
    select query attempt pure find_request resolve_acquisition_variant candidates_of
    load_asset_variant load_media_asset find_asset find_variant allows_custody modify write
    update_variant update_blob advance_variant raise commit
first_answer = refl

request_asset_acquisition-Replayed_example :
    request_asset_acquisition texts mirror_request after_request
    ≡ (ok (record receipt { idempotent_replay = true }), after_request)
request_asset_acquisition-Replayed_example =
    request_asset_acquisition-Replayed texts mirror_request calm after_request receipt first_answer
      refl

-- A store that takes every file under the name of its bytes.
abbrev remove_name : String → List String → List String
remove_name name [] = []
remove_name name (f ∷ fs) = let rest = remove_name name fs in if str_eq name f then fs else f ∷ rest

abbrev shelf : MediaBlobStore
shelf = record {
  put = λ d src r files. (
    ok (record {
      blob = record {
        digest = sha256_digest zeros;
        storage_handle = src;
        byte_size = pos 5;
        retention = r;
        created_at = 3;
        verified_at = 3;
      };
      created = true;
    }),
    src ∷ files,
  );
  remove = remove_name;
}

shelf-IsBlobStore : IsBlobStore (λ src. zeros) shelf
unfolding trim_right trim_left
shelf-IsBlobStore = record {
  trimmed = λ src. refl;
  put_digest = λ d src r files p h. cc;
  put_fails = λ d src r files e h. cc;
  put_finds = λ d src r files p h c. cc;
  put_creates = λ d src r files p h c. cc;
  remove_last = λ handle files. rw (eq_refl handle) refl;
}

-- The commit of the store fails.
abbrev failing : MediaWorld
failing =
    waiting_with (false ∷ false ∷ false ∷ false ∷ false ∷ false ∷ false ∷ false ∷ false ∷ true ∷ [])
      media

store_refused :
    store_variant_content_atomic texts shelf "v1" no_digest "bytes"
      (λ v. pure tt)
      (λ v. pure tt)
      failing
    ≡ (err (wrap "commit stored media variant" statement_failed), waiting_with [] media)
unfolding store_variant_content_atomic deferred ◌>>=◌ begin_immediate select query
    load_asset_variant attempt find_variant trim_right trim_left pure refuse blob_reference_count_on
    step attach_blob_on normalized sha256_hex own_bytes find_blob update_variant commit modify
    roll_back raise write
store_refused = refl

store_variant_content-Clean_example :
    (media ≡ record media { files = [] }) × CleanFiles (λ src. zeros) shelf "bytes" media []
store_variant_content-Clean_example =
    store_variant_content-Clean texts (λ src. zeros) shelf shelf-IsBlobStore failing
      (waiting_with [] media) "v1" no_digest "bytes"
      (wrap "commit stored media variant" statement_failed) store_refused

-- The mirror is asked for, its bytes come, and a failure is refused.
abbrev calls : List MediaCommand
calls =
    request mirror_request
    ∷ store "v1" no_digest "bytes"
    ∷ mark "v1" (record { code = "gone"; message = "404"; retryable = false }) 9
    ∷ []

run_commands-TableAdvances_example :
    TableAdvances media.variants (run_commands texts shelf calls failing).queue.variants
run_commands-TableAdvances_example = run_commands-TableAdvances texts shelf calls failing

some_inj : (v w : AssetVariant) → some v ≡ some w → v ≡ w
some_inj v w h = cc

cached-IsSound :
    (b : Bool) (v : AssetVariant)
    → (if b then some (variant_of "v1" CustodyMode.cache RetentionPolicy.cache) else none) ≡ some v
    → IsSound v
unfolding trim_left trim_right
cached-IsSound true v h = subst IsSound (some_inj _ v h) (refl, inl refl, refl)
cached-IsSound false v h = cc

media-TableSound : TableSound media.variants
unfolding find_variant
media-TableSound = record { at = λ id v h. cached-IsSound (str_eq id "v1") v h }

run_commands-TableSound_example : TableSound (run_commands texts shelf calls failing).queue.variants
run_commands-TableSound_example = run_commands-TableSound texts shelf calls failing media-TableSound

-- One picture with one variant, placed first in a revision.
abbrev placement : AttachmentRef
placement = record {
  id = "";
  fragment_revision_id = "";
  media_asset_id = "";
  role = "primary";
  position = pos 0;
  caption = "a picture";
  source_context = "";
  legacy_fragment_id = "";
  legacy_attachment_id = "";
  created_at = 0;
}

abbrev item : MediaManifestItem
item = record {
  asset = photo;
  variants = variant_of "v2" CustodyMode.cache RetentionPolicy.cache ∷ [];
  attachment = placement;
}

abbrev outcome : Result (List MediaManifestItem) × MediaWorld
outcome = upsert_manifest texts "rev1" (item ∷ []) 9 calm

abbrev items_of : Result (List MediaManifestItem) → List MediaManifestItem
items_of (ok items) = items
items_of (err e) = []

manifest_taken : outcome ≡ (ok (items_of outcome.0), outcome.1)
unfolding upsert_manifest transaction deferred ◌>>=◌ begin_immediate select query refuse trim_right
    trim_left attempt pure contiguous ordered_items find_asset find_variant load_asset_variant
    load_media_asset commit modify roll_back raise write normalized sha256_hex upsert_media_asset
    refuse_asset media_asset_semantic_conflict reconcile refine_kind refuse_asset_conflict
    resolve_asset store_asset strengthen_if find_media_asset_by_identity find_alias
    find_media_asset_by_observation by_media_key update_asset insert_media_source_observation
    load_found_asset upsert_media_manifest find_ref insert_or_compare_attachment_ref store_item
    store_items store_ref insert_ref prepare_variant normalize_unless_empty normalize_blob
    refuse_unsound find_asset_variant_by_identity find_by_identity insert_variant
    insert_variant_source_observation load_found upsert_asset_variant upsert_asset_variants
    upsert_each upsert_found stored_variant
manifest_taken = refl

upsert_manifest-AllAnswer_example :
    (contiguous 0 (ordered_items (item ∷ [])) ≡ true)
    × AllAnswer
        (trim_space "rev1")
        (ordered_items (item ∷ []))
        (items_of outcome.0)
        outcome.1.queue.refs
upsert_manifest-AllAnswer_example =
    upsert_manifest-AllAnswer texts "rev1" (item ∷ []) (items_of outcome.0) 9 calm outcome.1
      manifest_taken

upsert_manifest-Grows_example : Grows calm.queue.refs outcome.1.queue.refs
upsert_manifest-Grows_example = upsert_manifest-Grows texts "rev1" (item ∷ []) 9 calm
