-- ===== src/Media/Request.antt =====
-- RequestAssetAcquisition of internal/repository/asset_acquisition.go: a custody command that is
-- recorded once, under its id and its idempotency key.
pub mod Recorded
pub mod Replayed
use fragments_engine.Common.{
  ℕ, String, Bool, true, false, not, Option, none, some, List, [], ◌∷◌, ◌++◌, ◌&&◌, ◌||◌, ◌==◌,
  str_eq, if◌then◌else◌,
}
use fragments_engine.Common.Error.{plain, conflict, ok}
use fragments_engine.Common.Text.{trim_space}
use fragments_engine.Store.Action.{pure, raise, wrapped, ◌>>=◌, ◌>>◌}
use fragments_engine.Media.Types.{
  CustodyMode, mirror, adopted, same_custody, valid_kind, AssetVariant, AssetAcquisitionRequest,
  Texts,
}
use fragments_engine.Media.Session.{
  MediaAction, refuse, select, modify, deferred, begin_immediate, commit,
}
use fragments_engine.Media.Rows.{is_some, load_asset_variant, load_media_asset}
use fragments_engine.Media.Acquire.{resolve_acquisition_variant}

-- `AssetAcquisitionResult`
pub record AssetAcquisitionResult : Type 0 where
  pub request : AssetAcquisitionRequest
  pub variant : AssetVariant
  pub idempotent_replay : Bool

abbrev pub trim_request : AssetAcquisitionRequest → AssetAcquisitionRequest
trim_request r = record r {
  id = trim_space r.id;
  idempotency_key = trim_space r.idempotency_key;
  semantic_digest = trim_space r.semantic_digest;
  media_asset_id = trim_space r.media_asset_id;
  requested_by = trim_space r.requested_by;
  reason = trim_space r.reason;
}

unfoldable pub find_request :
    (AssetAcquisitionRequest → String)
    → String
    → List AssetAcquisitionRequest
    → Option AssetAcquisitionRequest
find_request column value [] = none
find_request column value (r ∷ rs) =
    let rest = find_request column value rs in if str_eq value (column r) then some r else rest

-- `loadAssetAcquisitionRequest` by each of its two columns.
abbrev pub load_by_id : String → MediaAction (Option AssetAcquisitionRequest)
load_by_id id =
    wrapped "load asset acquisition request"
      (select λ s. ok (find_request (λ r. r.id) id s.requests))

abbrev pub load_by_key : String → MediaAction (Option AssetAcquisitionRequest)
load_by_key key =
    wrapped "load asset acquisition request"
      (select λ s. ok (find_request (λ r. r.idempotency_key) key s.requests))

-- The early returns before the transaction begins.
unfoldable pub refuse_request : AssetAcquisitionRequest → MediaAction (Unit {0})
refuse_request r = do
  refuse
      (str_eq r.id ""
        || str_eq r.idempotency_key ""
        || str_eq r.semantic_digest ""
        || str_eq r.media_asset_id ""
        || str_eq r.requested_by ""
        || r.created_at == 0)
      (plain
        "request asset acquisition: command, idempotency, semantic digest, asset, actor, and timestamp are required")
  refuse (not (valid_kind r.variant_kind)) (plain "request asset acquisition: invalid variant kind")
  refuse
      (not (
        same_custody r.requested_custody CustodyMode.cache
        || same_custody r.requested_custody mirror
        || same_custody r.requested_custody adopted))
      (plain "request asset acquisition: custody must be cache, mirror, or adopted")

-- The row and the command mean the same; the time and the variant are not compared.
abbrev pub same_semantics : AssetAcquisitionRequest → AssetAcquisitionRequest → Bool
same_semantics a b =
    str_eq a.id b.id
    && str_eq a.idempotency_key b.idempotency_key
    && str_eq a.semantic_digest b.semantic_digest
    && str_eq a.media_asset_id b.media_asset_id
    && str_eq a.variant_kind b.variant_kind
    && same_custody a.requested_custody b.requested_custody
    && str_eq a.requested_by b.requested_by
    && str_eq a.reason b.reason

abbrev replay_of : AssetAcquisitionRequest → AssetVariant → AssetAcquisitionResult
replay_of existing variant = record {
  request = existing;
  variant = variant;
  idempotent_replay = true;
}

abbrev receipt_of : AssetAcquisitionRequest → AssetVariant → AssetAcquisitionResult
receipt_of request variant = record {
  request = record request { asset_variant_id = variant.id };
  variant = variant;
  idempotent_replay = false;
}

-- An id or a key that is there already: the recorded answer, if it means the same.
unfoldable pub replay :
    AssetAcquisitionRequest → AssetAcquisitionRequest → MediaAction AssetAcquisitionResult
replay request existing = do
  refuse (not (same_semantics existing request)) (
      conflict "asset acquisition" request.idempotency_key
        "command or idempotency identity was reused with different semantics")
  variant ← load_asset_variant existing.asset_variant_id
  wrapped "commit asset acquisition replay" commit
  pure (replay_of existing variant)

-- The INSERT, with the unique id and key and the variant that the row refers to.
unfoldable pub insert_request : AssetAcquisitionRequest → MediaAction (Unit {0})
insert_request r = do
  violated ← select λ s. ok (
      is_some (find_request (λ q. q.id) r.id s.requests)
      || is_some (find_request (λ q. q.idempotency_key) r.idempotency_key s.requests))
  refuse violated (plain "constraint failed")
  modify λ s. record s { requests = s.requests ++ r ∷ [] }

unfoldable pub acquire : Texts → AssetAcquisitionRequest → MediaAction AssetAcquisitionResult
unfolding insert_request
acquire texts request = do
  wrapped "request asset acquisition" (load_media_asset request.media_asset_id)
  variant ←
      resolve_acquisition_variant texts request.media_asset_id request.variant_kind
        request.requested_custody request.created_at
  wrapped "record asset acquisition request"
      (insert_request (record request { asset_variant_id = variant.id }))
  wrapped "commit asset acquisition request" commit
  pure (receipt_of request variant)

-- The two lookups decide between the replay and the acquisition.
unfoldable pub answer :
    Texts
    → AssetAcquisitionRequest
    → Option AssetAcquisitionRequest
    → Option AssetAcquisitionRequest
    → MediaAction AssetAcquisitionResult
unfolding acquire replay
answer texts request none none = acquire texts request
answer texts request (some existing) none = replay request existing
answer texts request none (some existing) = replay request existing
answer texts request (some by_id) (some by_key) =
    refuse (not (str_eq by_id.id by_key.id)) (
      conflict "asset acquisition" request.id
        "command ID and idempotency key identify different requests")
    >> replay request by_id

unfoldable pub begun : Texts → AssetAcquisitionRequest → MediaAction AssetAcquisitionResult
unfolding answer
begun texts request = do
  begin_immediate
  by_id ← load_by_id request.id
  by_key ← load_by_key request.idempotency_key
  answer texts request by_id by_key

unfoldable pub request_asset_acquisition :
    Texts → AssetAcquisitionRequest → MediaAction AssetAcquisitionResult
unfolding begun refuse_request
request_asset_acquisition texts given = do
  refuse_request (trim_request given)
  deferred (begun texts (trim_request given))
