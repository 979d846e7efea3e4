-- ===== src/Media/Machine/Follows/Acquire.antt =====
-- RequestAssetAcquisition follows the state machine.
use fragments_engine.Common.{String, Option, none, some, List}
use fragments_engine.Media.Types.{AttachmentRef, AssetVariant, Texts, AssetAcquisitionRequest}
use fragments_engine.Media.Session.Ensures.{
  Ensures, Ensures-pure, Ensures-bind, Ensures-weaken, Ensures-wrapped, Ensures-refuse,
  Ensures-select, Ensures-modify, Ensures-begin, Ensures-commit,
}
use fragments_engine.Media.Rows.{load_media_asset}
use fragments_engine.Media.Machine.Follows.{From, Ensures-load}
use fragments_engine.Media.Machine.Follows.Resolve.{resolve-Holding}
use fragments_engine.Media.Machine.Follows.Custody.{deferred-From}
use fragments_engine.Media.Request.{
  refuse_request, replay, insert_request, acquire, answer, begun, request_asset_acquisition,
  trim_request,
}

module _ {start : List AssetVariant}
    {K : List AssetAcquisitionRequest → List AttachmentRef → Type 0} where
  replay-From :
      (request existing : AssetAcquisitionRequest)
      → Ensures (From start K) (replay request existing) (λ _. From start K) (From start K)
  unfolding replay
  replay-From request existing =
      Ensures-bind _ _ (Ensures-weaken _ (Ensures-refuse (λ s h. h) _ _) (λ _ s h. h.0) (λ s h. h))
        λ _.
          Ensures-bind _ _
            (Ensures-weaken _ (Ensures-load (λ s h. h) existing.asset_variant_id) (λ _ s h. h.0)
              (λ s h. h))
            λ v.
              Ensures-bind _ _ (Ensures-wrapped _ _ (Ensures-commit (λ s h. h)))
                λ _. Ensures-pure _ (λ s h. h)

  load_media_asset-From :
      (id : String)
      → Ensures (From start K) (load_media_asset id) (λ _. From start K) (From start K)
  unfolding load_media_asset
  load_media_asset-From id =
      Ensures-wrapped _ _ (Ensures-weaken _ (Ensures-select (λ s h. h) _) (λ a s h. h.0) (λ s h. h))

-- Of the requests and refs nothing is said.
abbrev pub Any : List AssetAcquisitionRequest → List AttachmentRef → Type 0
Any rs refs = Unit {0}

module _ {start : List AssetVariant} where
  insert_request-From :
      (r : AssetAcquisitionRequest)
      → Ensures (From start Any) (insert_request r) (λ _. From start Any) (From start Any)
  unfolding insert_request
  insert_request-From r = Ensures-bind _ _ (Ensures-select (λ s h. h) _) λ violated.
      Ensures-bind _ _ (Ensures-refuse (λ s h. h.0) _ _) λ _.
        Ensures-modify (λ s h. h.0.0) (From start Any) _
          (λ s h. record { reached = h.0.0.reached; kept = tt })

  acquire-From :
      (texts : Texts) (request : AssetAcquisitionRequest)
      → Ensures (From start Any) (acquire texts request) (λ _. From start Any) (From start Any)
  unfolding acquire
  acquire-From texts request =
      Ensures-bind _ _ (Ensures-wrapped _ _ (load_media_asset-From request.media_asset_id)) λ _.
        Ensures-bind _ _
          (Ensures-weaken _ (resolve-Holding texts _ _ _ _) (λ v s h. h.0) (λ s h. h))
          λ v. Ensures-bind _ _ (Ensures-wrapped _ _ (insert_request-From _)) λ _.
            Ensures-bind _ _ (Ensures-wrapped _ _ (Ensures-commit (λ s h. h)))
              λ _. Ensures-pure _ (λ s h. h)

  answer-From :
      (texts : Texts) (request : AssetAcquisitionRequest)
      (by_id by_key : Option AssetAcquisitionRequest)
      → Ensures
          (From start Any)
          (answer texts request by_id by_key)
          (λ _. From start Any)
          (From start Any)
  unfolding answer
  answer-From texts request none none = acquire-From texts request
  answer-From texts request (some existing) none = replay-From request existing
  answer-From texts request none (some existing) = replay-From request existing
  answer-From texts request (some by_id) (some by_key) =
      Ensures-bind _ _ (Ensures-weaken _ (Ensures-refuse (λ s h. h) _ _) (λ _ s h. h.0) (λ s h. h))
        λ _. replay-From request by_id

  begun-From :
      (texts : Texts) (request : AssetAcquisitionRequest)
      → Ensures (From start Any) (begun texts request) (λ _. From start Any) (From start Any)
  unfolding begun
  begun-From texts request = Ensures-bind _ _ (Ensures-begin (λ s h. h)) λ _.
      Ensures-bind _ _
        (Ensures-weaken _ (Ensures-wrapped _ _ (Ensures-select (λ s h. h) _)) (λ _ s h. h.0)
          (λ s h. h))
        λ by_id.
          Ensures-bind _ _
            (Ensures-weaken _ (Ensures-wrapped _ _ (Ensures-select (λ s h. h) _)) (λ _ s h. h.0)
              (λ s h. h))
            (answer-From texts request by_id)

  refuse_request-From :
      (r : AssetAcquisitionRequest)
      → Ensures (From start Any) (refuse_request r) (λ _. From start Any) (From start Any)
  unfolding refuse_request
  refuse_request-From r = Ensures-bind _ _ (Ensures-refuse (λ s h. h) _ _) λ _.
      Ensures-bind _ _ (Ensures-refuse (λ s h. h.0) _ _)
        λ _. Ensures-weaken _ (Ensures-refuse (λ s h. h.0.0) _ _) (λ _ s h. h.0.0.0) (λ s h. h)

  pub request_asset_acquisition-From :
      (texts : Texts) (given : AssetAcquisitionRequest)
      → Ensures
          (From start Any)
          (request_asset_acquisition texts given)
          (λ _. From start Any)
          (From start Any)
  unfolding request_asset_acquisition
  request_asset_acquisition-From texts given =
      Ensures-bind _ _ (refuse_request-From (trim_request given))
        λ _. deferred-From _ (begun-From texts (trim_request given))
