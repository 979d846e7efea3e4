-- ===== src/Media/Machine/Follows/Content.antt =====
-- StoreVariantContentAtomic follows the state machine if its callbacks do.
use fragments_engine.Common.{String, Bool, true, false, List}
use fragments_engine.Common.Error.{Result, ok, err}
use fragments_engine.Common.Text.{trim_space}
use fragments_engine.Store.Action.Hoare.{Ends}
use fragments_engine.Media.Types.{
  AttachmentRef, AssetVariant, AssetAcquisitionRequest, MediaBlob, Texts, RetentionPolicy,
  ContentDigest,
}
use fragments_engine.Media.Session.{MediaWorld, MediaAction}
use fragments_engine.Media.Session.Ensures.{
  Ensures, Ensures-pure, Ensures-raise, Ensures-if, Ensures-bind, Ensures-weaken, Ensures-wrapped,
  Ensures-step, Ensures-attempt, Ensures-refuse, Ensures-select, Ensures-begin, Ensures-commit,
}
use fragments_engine.Media.Digest.{empty_digest}
use fragments_engine.Media.Content.{
  PutResult, MediaBlobStore, blob_reference_count_on, put_bytes, discard, or_discard, expected_of,
  link_bytes, store_variant_content_atomic,
}
use fragments_engine.Media.Machine.Follows.{From, Ensures-load}
use fragments_engine.Media.Machine.Follows.Prepare.{Ensures-normalized}
use fragments_engine.Media.Machine.Follows.Custody.{deferred-From, attach_blob_on-From}

module _ {start : List AssetVariant}
    {K : List AssetAcquisitionRequest → List AttachmentRef → Type 0} (texts : Texts)
    (blobs : MediaBlobStore) where
  -- The blob store writes files and no table.
  put_bytes-From :
      (expected : ContentDigest) (src : String) (retention : RetentionPolicy)
      → Ensures
          (From start K)
          (put_bytes texts blobs expected src retention)
          (λ _. From start K)
          (From start K)
  unfolding put_bytes
  put_bytes-From expected src retention = record {
    hoare = record { at = λ w h. ends (blobs.put expected src retention w.queue.files) w h };
  }
    where
      ends :
          (out : Result PutResult × List String) (w : MediaWorld)
          → From start K w.queue
          → Ends
              (λ _ w. From start K w.queue)
              (λ w. From start K w.queue)
              (out.0, record w { queue = record w.queue { files = out.1 } })
      ends (ok put, files) w h = h
      ends (err e, files) w h = h

  discard-From :
      (ours : Bool) (blob : MediaBlob)
      → Ensures (From start K) (discard texts blobs ours blob) (λ _. From start K) (From start K)
  unfolding discard
  discard-From true blob = Ensures-step _ (λ w h. h)
  discard-From false blob = Ensures-step _ (λ w h. h)

  or_discard-From :
      {A : Type 0} (ours : Bool) (blob : MediaBlob) (m : MediaAction A)
      → Ensures (From start K) m (λ _. From start K) (From start K)
      → Ensures
          (From start K)
          (or_discard texts blobs ours blob m)
          (λ _. From start K)
          (From start K)
  unfolding or_discard
  or_discard-From ours blob m h =
      Ensures-attempt m _ _ h (λ a. Ensures-pure a (λ s k. k))
        (λ e. Ensures-bind _ _ (discard-From ours blob) (λ _. Ensures-raise e (λ s k. k)))

  expected_of-From :
      (v : AssetVariant) (expected : ContentDigest)
      → Ensures
          (From start K)
          (expected_of texts blobs v expected)
          (λ _. From start K)
          (From start K)
  unfolding expected_of
  expected_of-From v expected =
      Ensures-if (empty_digest expected) _ _ (λ e. Ensures-pure _ (λ s h. h))
        (λ e.
          Ensures-bind _ _ (Ensures-wrapped _ _ (Ensures-normalized (λ s h. h) texts expected))
            λ given.
              Ensures-bind _ _ (Ensures-refuse (λ s h. h) _ _) λ _. Ensures-pure _ (λ s h. h.0))

  module _ (finalize : AssetVariant → MediaAction (Unit {0}))
      (finalize-From : (v : AssetVariant)
        → Ensures (From start K) (finalize v) (λ _. From start K) (From start K)) where
    link_bytes-From :
        (v : AssetVariant) (put : PutResult)
        → Ensures
            (From start K)
            (link_bytes texts blobs v put finalize)
            (λ _. From start K)
            (From start K)
    unfolding link_bytes blob_reference_count_on
    link_bytes-From v put =
        Ensures-bind _ _
          (or_discard-From _ put.blob _ (
            Ensures-wrapped _ _
              (Ensures-weaken _ (Ensures-select (λ s h. h) _) (λ n s h. h.0) (λ s h. h))))
          λ refs. Ensures-bind _ _ (Ensures-step _ (λ w h. h)) λ now.
            Ensures-bind _ _
              (or_discard-From _ put.blob _ (attach_blob_on-From texts v.id put.blob now))
              λ stored. Ensures-bind _ _ (or_discard-From _ put.blob _ (finalize-From stored)) λ _.
                Ensures-bind _ _
                  (or_discard-From _ put.blob _ (Ensures-wrapped _ _ (Ensures-commit (λ s h. h))))
                  λ _. Ensures-pure stored (λ s h. h)

    pub store_variant_content_atomic-From :
        (id : String) (expected : ContentDigest) (src : String)
        (guard : AssetVariant → MediaAction (Unit {0}))
        → ((v : AssetVariant) → Ensures (From start K) (guard v) (λ _. From start K) (From start K))
        → Ensures
            (From start K)
            (store_variant_content_atomic texts blobs id expected src guard finalize)
            (λ _. From start K)
            (From start K)
    unfolding store_variant_content_atomic
    store_variant_content_atomic-From id expected src guard guard-From = deferred-From _ (
        Ensures-bind _ _ (Ensures-begin (λ s h. h)) λ _.
          Ensures-bind _ _
            (Ensures-weaken _ (Ensures-load (λ s h. h) (trim_space id)) (λ v s h. h.0) (λ s h. h))
            λ v.
              Ensures-bind _ _
                (Ensures-weaken _ (Ensures-refuse (λ s h. h) _ _) (λ _ s h. h.0) (λ s h. h))
                λ _. Ensures-bind _ _ (guard-From v) λ _.
                  Ensures-bind _ _ (expected_of-From v expected) λ digest.
                    Ensures-bind _ _ (put_bytes-From digest src _) λ put. link_bytes-From v put)
