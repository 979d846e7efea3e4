-- ===== src/Media/Manifest/Kept.antt =====
-- An attachment ref is never changed, and a manifest that was taken stands in the table item by item.
use fragments_engine.Common.{◌≡◌, ℕ, String, true, List}
use fragments_engine.Common.Text.{trim_space}
use fragments_engine.Common.Error.{Result, ok, err}
use mathlib.Core.Path.{subst}
use fragments_engine.Store.Action.Hoare.{Ends}
use fragments_engine.Media.Types.{
  AssetVariant, AssetAcquisitionRequest, AttachmentRef, MediaManifestItem, Texts,
}
use fragments_engine.Media.Session.{MediaWorld, transaction, roll_back}
use fragments_engine.Media.Session.Ensures.{
  Ensures, Ensures-pure, Ensures-bind, Ensures-weaken, Ensures-wrapped, Ensures-refuse,
  Ensures-select, Ensures-begin, Ensures-commit, Ensures-deferred,
}
use fragments_engine.Media.Machine.{here}
use fragments_engine.Media.Machine.Follows.{From}
use fragments_engine.Media.Machine.Follows.Upsert.{with_fact}
use fragments_engine.Media.Manifest.{
  ordered_items, contiguous, upsert_media_manifest, upsert_manifest,
}
use fragments_engine.Media.Manifest.Stored.{
  Grows, Grows-refl, Closed, said, AllAnswer, store_items-AllAnswer,
}

-- The refs have only grown from `before`.
abbrev pub Grown : List AttachmentRef → List AssetAcquisitionRequest → List AttachmentRef → Type 0
Grown before qs rs = Grows before rs

Grown-Closed : (before : List AttachmentRef) → Closed (Grown before)
Grown-Closed before qs rs us more h = record {
  at = λ i p r found. more.at i p r (h.at i p r found);
}

-- What a manifest leaves when it was taken.
abbrev pub Taken :
    List AttachmentRef
    → String
    → List MediaManifestItem
    → List MediaManifestItem
    → List AssetAcquisitionRequest
    → List AttachmentRef
    → Type 0
Taken before revision_id items outs qs rs =
    Grows before rs
    × (contiguous 0 (ordered_items items) ≡ true)
    × AllAnswer (trim_space revision_id) (ordered_items items) outs rs

module _ (texts : Texts) (start : List AssetVariant) (before : List AttachmentRef) where
  upsert_media_manifest-Taken :
      (revision_id : String) (items : List MediaManifestItem) (now : ℕ)
      → Ensures
          (From start (Grown before))
          (upsert_media_manifest texts revision_id items now)
          (λ outs. From start (Taken before revision_id items outs))
          (From start (Grown before))
  unfolding upsert_media_manifest
  upsert_media_manifest-Taken revision_id items now =
      Ensures-bind _ _ (Ensures-weaken _ (Ensures-refuse (λ s h. h) _ _) (λ _ s h. h.0) (λ s h. h))
        λ _.
          Ensures-bind _ _
            (Ensures-weaken _ (Ensures-wrapped _ _ (Ensures-select (λ s h. h) _)) (λ _ s h. h.0)
              (λ s h. h))
            λ exists.
              Ensures-bind _ _
                (Ensures-weaken _ (Ensures-refuse (λ s h. h) _ _) (λ _ s h. h.0) (λ s h. h))
                λ _. Ensures-bind _ _ (Ensures-refuse (λ s h. h) _ _) λ _. with_fact _ (λ ordered.
                  Ensures-bind _ _
                    (Ensures-weaken _ (Ensures-wrapped _ _ (Ensures-select (λ s h. h) _))
                      (λ _ s h. h.0) (λ s h. h))
                    λ n.
                      Ensures-bind _ _
                        (Ensures-weaken _ (Ensures-refuse (λ s h. h) _ _) (λ _ s h. h.0) (λ s h. h))
                        λ _.
                          Ensures-weaken _
                            (store_items-AllAnswer texts start (trim_space revision_id)
                              (ordered_items items) now (Grown before) (Grown-Closed before))
                            (λ outs s h. record {
                              reached = h.reached;
                              kept = (h.kept.0, said _ ordered, h.kept.1);
                            })
                            (λ s h. h))

  pub upsert_manifest-Taken :
      (revision_id : String) (items : List MediaManifestItem) (now : ℕ)
      → Ensures
          (From start (Grown before))
          (upsert_manifest texts revision_id items now)
          (λ outs. From start (Taken before revision_id items outs))
          (From start (Grown before))
  unfolding upsert_manifest transaction roll_back
  upsert_manifest-Taken revision_id items now =
      Ensures-deferred _
        (Ensures-weaken _
          (Ensures-bind _ _
            (Ensures-bind _ _ (Ensures-begin (λ s h. h))
              (λ _. upsert_media_manifest-Taken revision_id items now))
            λ outs.
              Ensures-bind _ _
                (Ensures-wrapped _ _
                  (Ensures-commit (λ s h. record { reached = h.reached; kept = h.kept.0 })))
                λ _. Ensures-pure outs (λ s h. h))
          (λ outs s h. h) (λ s h. tt))
        (λ w v h. h)

began : (w : MediaWorld) → From w.queue.variants (Grown w.queue.refs) w.queue
began w = record { reached = here; kept = Grows-refl w.queue.refs }

grown :
    (start : List AssetVariant) (before : List AttachmentRef) (revision_id : String)
    (items : List MediaManifestItem) (out : Result (List MediaManifestItem) × MediaWorld)
    → Ends
        (λ outs w. From start (Taken before revision_id items outs) w.queue)
        (λ w. From start (Grown before) w.queue)
        out
    → Grows before out.1.queue.refs
grown start before revision_id items (ok outs, w) h = h.kept.0
grown start before revision_id items (err e, w) h = h.kept

-- However the upsert of a manifest ends, at whichever statement it fails, every attachment ref that was
-- found at a position of a revision is found there unchanged.
pub upsert_manifest-Grows :
    (texts : Texts) (revision_id : String) (items : List MediaManifestItem) (now : ℕ)
    (w : MediaWorld)
    → Grows w.queue.refs (upsert_manifest texts revision_id items now w).1.queue.refs
upsert_manifest-Grows texts revision_id items now w =
    grown w.queue.variants w.queue.refs revision_id items _ (
      (upsert_manifest-Taken texts w.queue.variants w.queue.refs revision_id items now).hoare.at w
        (began w))

-- If the upsert of a manifest returns, whichever statements may fail, the items in the order of their
-- positions have the positions 0, 1 and so on, and each has its answer in turn: the attachment ref that
-- the table has at the item's position of the trimmed revision, with the item's role, caption and
-- context and the asset of the answer.
pub upsert_manifest-AllAnswer :
    (texts : Texts) (revision_id : String) (items outs : List MediaManifestItem) (now : ℕ)
    (w v : MediaWorld)
    → upsert_manifest texts revision_id items now w ≡ (ok outs, v)
    → (contiguous 0 (ordered_items items) ≡ true)
      × AllAnswer (trim_space revision_id) (ordered_items items) outs v.queue.refs
upsert_manifest-AllAnswer texts revision_id items outs now w v e = taken (
    subst
      (λ o.
        Ends (λ os u. From w.queue.variants (Taken w.queue.refs revision_id items os) u.queue)
          (λ u. From w.queue.variants (Grown w.queue.refs) u.queue) o)
      e
      ((upsert_manifest-Taken texts w.queue.variants w.queue.refs revision_id items now).hoare.at w
        (began w)))
  where
    taken :
        From w.queue.variants (Taken w.queue.refs revision_id items outs) v.queue
        → (contiguous 0 (ordered_items items) ≡ true)
          × AllAnswer (trim_space revision_id) (ordered_items items) outs v.queue.refs
    taken h = (h.kept.1, h.kept.2)
