-- ===== src/Media/Machine/Follows/Prepare.antt =====
-- What `upsertAssetVariant` accepts is sound.
use fragments_engine.Common.{
  ◌≡◌, ◌⊎◌, inl, inr, ℕ, String, true, false, not, ◌&&◌, ◌||◌, str_eq, arith, eq_iff,
}
use fragments_engine.Common.Text.{trim_space}
use fragments_engine.Media.Types.{AssetVariant, MediaStore, Texts, ContentDigest, is_indefinite}
use fragments_engine.Media.Session.Ensures.{
  Ensures, Ensures-pure, Ensures-raise, Ensures-if, Ensures-from, Ensures-bind, Ensures-weaken,
  Ensures-wrapped, Ensures-refuse,
}
use fragments_engine.Media.Digest.{normalized, empty_digest, canonical_algorithm, sha256_hex}
use fragments_engine.Media.Prepare.{
  normalize_unless_empty, normalize_blob, refuse_unsound, with_defaults, trimmed, prepare_variant,
  is_mirrored, is_failed, is_coded,
}
use fragments_engine.Media.Machine.{IsSound}

module _ {S F : MediaStore → Type 0} (fails : (s : MediaStore) → S s → F s) where
  pub Ensures-normalized :
      (texts : Texts) (d : ContentDigest) → Ensures S (normalized texts d) (λ _. S) F
  unfolding normalized
  Ensures-normalized texts d =
      Ensures-if
        (not (str_eq (canonical_algorithm (texts.to_lower (trim_space d.algorithm))) "sha256")
          || not (sha256_hex (texts.to_lower (trim_space d.value))))
        _ _ (λ e. Ensures-raise _ fails) (λ e. Ensures-pure _ (λ s h. h))

  pub Ensures-normalize_unless_empty :
      (texts : Texts) (prefix : String) (d : ContentDigest)
      → Ensures S (normalize_unless_empty texts prefix d) (λ _. S) F
  unfolding normalize_unless_empty
  Ensures-normalize_unless_empty texts prefix d =
      Ensures-if (empty_digest d) _ _ (λ e. Ensures-pure _ (λ s h. h))
        (λ e. Ensures-wrapped _ _ (Ensures-normalized texts d))

  pub refuse_unsound-Sound :
      (v : AssetVariant)
      → Ensures S
          (refuse_unsound v)
          (λ _ s.
            S s
            × ((is_failed v.acquisition_state && not (is_coded v.failure)) ≡ false)
            × ((is_mirrored v.custody && not (is_indefinite v.retention)) ≡ false))
          F
  unfolding refuse_unsound
  refuse_unsound-Sound v = Ensures-bind _ _ (Ensures-refuse fails _ _) λ _.
      Ensures-bind _ _ (Ensures-refuse (λ s h. fails s h.0) _ _) λ _.
        Ensures-bind _ _ (Ensures-refuse (λ s h. fails s h.0.0) _ _) λ _.
          Ensures-weaken _ (Ensures-refuse (λ s h. fails s h.0.0.0) _ _)
            (λ _ s h. (h.0.0.0.0, h.0.1, h.1)) (λ s h. h)

  -- What is left of the blob's digest is blank or the digest of the bytes.
  pub normalize_blob-Sound :
      (texts : Texts) (blob_digest : String) (digest : ContentDigest)
      → Ensures S
          (normalize_blob texts blob_digest digest)
          (λ b s. S s × ((str_eq (trim_space b) "" ≡ true) ⊎ (digest.value ≡ b)))
          F
  unfolding normalize_blob
  normalize_blob-Sound texts blob_digest digest =
      Ensures-if (str_eq (trim_space blob_digest) "") _ _ (λ e. Ensures-pure _ (λ s h. (h, inl e)))
        λ e. Ensures-bind _ _ (Ensures-wrapped _ _ (Ensures-normalized texts _)) λ b.
          Ensures-bind _ _ (Ensures-refuse fails _ _) λ _.
            Ensures-pure _ (λ s h. (h.0, inr (ground (arith, h.1, eq_iff digest.value b.value))))

module _ {S F : MediaStore → Type 0} (fails : (s : MediaStore) → S s → F s) where
  pub prepare_variant-Sound :
      (texts : Texts) (now : ℕ) (given : AssetVariant)
      → Ensures S (prepare_variant texts now given) (λ v s. S s × IsSound v) F
  unfolding prepare_variant
  prepare_variant-Sound texts now given = Ensures-bind _ _ (Ensures-refuse fails _ _) λ _.
      Ensures-bind _ _ (Ensures-refuse (λ s h. fails s h.0) _ _) λ _.
        Ensures-from _
          (Ensures-bind _ _ (Ensures-normalize_unless_empty fails texts _ _) λ expected.
            Ensures-bind _ _ (Ensures-normalize_unless_empty fails texts _ _) λ digest.
              Ensures-bind _ _ (Ensures-refuse fails _ _) λ _.
                Ensures-from _
                  (Ensures-bind _ _ (normalize_blob-Sound fails texts given.blob_digest digest)
                    λ blob.
                      Ensures-bind _ _
                        (refuse_unsound-Sound (λ s h. fails s h.0)
                          (with_defaults (trimmed texts given) expected digest blob now))
                        λ _. Ensures-pure _ (λ s h. (h.0.0, (h.2, h.0.1, h.1))))
                  (λ s h. h.0))
          (λ s h. h.0.0)
