-- ===== src/Media/Machine/Follows/Custody.antt =====
-- AttachBlobOn, MarkVariantFailed and RequestAssetAcquisition follow the state machine.
use fragments_engine.Common.{◌≡◌, refl, ℕ, String, true, false, not, ◌&&◌, some, List, arith}
use fragments_engine.Common.Int.{ℤ}
use fragments_engine.Common.Text.{trim_space}
use fragments_engine.Media.Types.{
  AttachmentRef, AssetVariant, AssetFailure, MediaBlob, MediaStore, Texts, ContentDigest,
  RetentionPolicy, AssetAcquisitionRequest, reference, same_custody, is_indefinite,
}
use fragments_engine.Media.Session.{MediaAction, transaction, deferred, roll_back}
use fragments_engine.Media.Session.Ensures.{
  Ensures, Ensures-pure, Ensures-bind, Ensures-weaken, Ensures-wrapped, Ensures-refuse,
  Ensures-select, Ensures-modify, Ensures-begin, Ensures-commit, Ensures-deferred,
}
use fragments_engine.Media.Prepare.{is_mirrored, is_coded}
use fragments_engine.Media.Bytes.{
  differs, blob_retention, insert_blob, own_bytes, refuse_bytes, attach_blob_on, fail_variant,
  mark_failed, refuse_uncoded, mark_variant_failed, mark_variant_failed_on,
}
use fragments_engine.Media.Machine.{owns, fails}
use fragments_engine.Media.Machine.Follows.{
  From, Holding, Ensures-load, Ensures-load_row, Ensures-update,
}
use fragments_engine.Media.Machine.Follows.Prepare.{Ensures-normalized}
use fragments_engine.Media.Machine.Follows.Upsert.{with_fact}

module _ {S F : MediaStore → Type 0} (failing : (s : MediaStore) → S s → F s) where
  refuse_bytes-Owns :
      (row : AssetVariant) (digest : ContentDigest) (retention : RetentionPolicy)
      → Ensures S
          (refuse_bytes row digest retention)
          (λ _ s.
            S s
            × ((differs row.digest digest ≡ false)
                × (same_custody row.custody reference ≡ false)
                × ((is_mirrored row.custody && not (is_indefinite retention)) ≡ false)))
          F
  unfolding refuse_bytes
  refuse_bytes-Owns row digest retention = Ensures-bind _ _ (Ensures-refuse failing _ _) λ _.
      Ensures-bind _ _ (Ensures-refuse (λ s h. failing s h.0) _ _) λ _.
        Ensures-bind _ _ (Ensures-refuse (λ s h. failing s h.0.0) _ _) λ _.
          Ensures-weaken _ (Ensures-refuse (λ s h. failing s h.0.0.0) _ _)
            (λ _ s h. (h.0.0.0.0, (h.0.0.1, h.0.1, h.1))) (λ s h. h)

own_bytes-id :
    (value : String) (size : ℤ) (retention : RetentionPolicy) (now : ℕ) (row : AssetVariant)
    → (own_bytes value size retention now row).id ≡ row.id
unfolding own_bytes
own_bytes-id value size retention now row = refl

fail_variant-id :
    (failure : AssetFailure) (now : ℕ) (row : AssetVariant)
    → (fail_variant failure now row).id ≡ row.id
unfolding fail_variant
fail_variant-id failure now row = refl

module _ {start : List AssetVariant}
    {K : List AssetAcquisitionRequest → List AttachmentRef → Type 0} where
  -- What writes only blobs leaves the rows where they are.
  insert_blob-Holding :
      (id : String) (row : AssetVariant) (blob : MediaBlob)
      → Ensures
          (Holding start K id row)
          (insert_blob blob)
          (λ _. Holding start K id row)
          (From start K)
  unfolding insert_blob
  insert_blob-Holding id row blob = Ensures-bind _ _ (Ensures-select (λ s h. h.0) _) λ violated.
      Ensures-bind _ _ (Ensures-refuse (λ s h. h.0.0) _ _)
        λ _. Ensures-modify (λ s h. h.0.0.0) (Holding start K id row) _ (λ s h. h.0.0)

  pub attach_blob_on-From :
      (texts : Texts) (id : String) (blob : MediaBlob) (now : ℕ)
      → Ensures (From start K) (attach_blob_on texts id blob now) (λ _. From start K) (From start K)
  unfolding attach_blob_on
  attach_blob_on-From texts id blob now =
      Ensures-bind _ _ (Ensures-load_row (λ s h. h) (trim_space id)) λ row.
        Ensures-bind _ _ (Ensures-wrapped _ _ (Ensures-normalized (λ s h. h.0) texts _)) λ digest.
          Ensures-bind _ _ (refuse_bytes-Owns (λ s h. h.0) row digest _) λ _. with_fact _ (λ may.
            Ensures-bind _ _ (Ensures-wrapped _ _ (insert_blob-Holding row.id row _)) λ _.
              Ensures-bind _ _ (Ensures-wrapped _ _ (Ensures-select (λ s h. h.0) _)) λ stored.
                Ensures-bind _ _ (Ensures-refuse (λ s h. h.0.0) _ _) λ _.
                  Ensures-bind _ _
                    (Ensures-update (λ s h. h.0.0.0) _ row.id row
                      (own_bytes digest.value blob.byte_size
                        (blob_retention row.custody blob.retention) now)
                      (λ s h. h.0.0.1) (owns digest.value blob.byte_size _ now may.0 may.1 may.2)
                      (own_bytes-id _ _ _ now))
                    λ _.
                      Ensures-weaken _ (Ensures-load (λ s h. h) row.id) (λ v s h. h.0) (λ s h. h))

  mark_failed-From :
      (id : String) (failure : AssetFailure) (now : ℕ)
      → is_coded (some failure) ≡ true
      → Ensures (From start K) (mark_failed id failure now) (λ _. From start K) (From start K)
  unfolding mark_failed
  mark_failed-From id failure now coded = Ensures-bind _ _ (Ensures-load (λ s h. h) id) λ row.
      Ensures-bind _ _ (Ensures-refuse (λ s h. h.0) _ _) λ _. with_fact _ (λ young.
        Ensures-bind _ _
          (Ensures-update (λ s h. h.0) _ id row (fail_variant failure now) (λ s h. h.1)
            (fails failure now young coded) (fail_variant-id failure now))
          λ _. Ensures-weaken _ (Ensures-load (λ s h. h) id) (λ w s h. h.0) (λ s h. h))

  refuse_uncoded-Coded :
      (failure : AssetFailure)
      → Ensures
          (From start K)
          (refuse_uncoded failure)
          (λ _ s. From start K s × (is_coded (some failure) ≡ true))
          (From start K)
  unfolding refuse_uncoded
  refuse_uncoded-Coded failure =
      Ensures-weaken _ (Ensures-refuse (λ s h. h) _ _) (λ _ s h. (h.0, ground (arith, h.1)))
        (λ s h. h)

  pub mark_variant_failed_on-From :
      (id : String) (failure : AssetFailure) (now : ℕ)
      → Ensures
          (From start K)
          (mark_variant_failed_on id failure now)
          (λ _. From start K)
          (From start K)
  unfolding mark_variant_failed_on
  mark_variant_failed_on-From id failure now =
      Ensures-bind _ _ (refuse_uncoded-Coded failure)
        λ _. with_fact _ (λ coded. mark_failed-From id failure now coded)

  -- A transaction follows the machine if its body does: a rollback goes back to where it began.
  pub deferred-From :
      {A : Type 0} (m : MediaAction A)
      → Ensures (From start K) m (λ _. From start K) (From start K)
      → Ensures (From start K) (deferred m) (λ _. From start K) (From start K)
  unfolding roll_back
  deferred-From m h =
      Ensures-deferred m (Ensures-weaken m h (λ a s k. k) (λ s k. tt)) (λ before w k. k)

  pub transaction-From :
      {A : Type 0} (name : String) (m : MediaAction A)
      → Ensures (From start K) m (λ _. From start K) (From start K)
      → Ensures (From start K) (transaction name m) (λ _. From start K) (From start K)
  unfolding transaction
  transaction-From name m h = deferred-From _ (
      Ensures-bind _ _ (Ensures-bind _ _ (Ensures-begin (λ s k. k)) (λ _. h)) λ a.
        Ensures-bind _ _ (Ensures-wrapped _ _ (Ensures-commit (λ s k. k)))
          λ _. Ensures-pure a (λ s k. k))

  pub mark_variant_failed-From :
      (id : String) (failure : AssetFailure) (now : ℕ)
      → Ensures
          (From start K)
          (mark_variant_failed id failure now)
          (λ _. From start K)
          (From start K)
  unfolding mark_variant_failed
  mark_variant_failed-From id failure now =
      Ensures-bind _ _ (refuse_uncoded-Coded failure)
        λ _. with_fact _ (λ coded. transaction-From _ _ (mark_failed-From id failure now coded))
