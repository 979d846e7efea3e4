-- ===== src/Media/Content/Clean.antt =====
-- A store that fails leaves the tables as they were, and no file that nothing refers to.
use fragments_engine.Common.{
  ◌≡◌, refl, sym, ap, ◌∙◌, ◌⊎◌, inl, inr, ℕ, String, Bool, true, false, ◌&&◌, ◌==◌, List, ◌∷◌,
  arith, Bool-cases,
}
use mathlib.Core.Path.{subst, subst⁻¹}
use fragments_engine.Common.Error.{Err, Result, ok, err}
use fragments_engine.Common.Text.{trim_space}
use fragments_engine.Store.Action.{pure, wrapped}
use fragments_engine.Store.Action.Hoare.{Ends}
use fragments_engine.Media.Types.{AssetVariant, MediaStore, Texts, RetentionPolicy, ContentDigest}
use fragments_engine.Media.Session.{MediaWorld, MediaAction}
use fragments_engine.Media.Session.Ensures.{
  Ensures, Ensures-pure, Ensures-raise, Ensures-if, Ensures-from, Ensures-bind, Ensures-weaken,
  Ensures-wrapped, Ensures-step, Ensures-attempt, Ensures-refuse, Ensures-select, Ensures-begin,
  Ensures-commit, Ensures-each, Ensures-rolled_back,
}
use fragments_engine.Media.Digest.{empty_digest}
use fragments_engine.Media.Content.{
  PutResult, MediaBlobStore, count_references, blob_reference_count_on, put_bytes, discard,
  or_discard, expected_of, link_bytes, store_variant_content_atomic, store_variant_content,
}
use fragments_engine.Media.Machine.Follows.{Ensures-load}
use fragments_engine.Media.Machine.Follows.Prepare.{Ensures-normalized}
use fragments_engine.Media.Machine.Follows.Upsert.{with_fact}
use fragments_engine.Media.Content.Files.{
  ok_inj, IsBlobStore, Created, CleanFiles, count_references-Referred, Files, attach_blob_on-Files,
}

module _ (texts : Texts) (sha256 : String → String) (blobs : MediaBlobStore)
    (contract : IsBlobStore sha256 blobs) (src : String) where
  -- The files after a failure.
  abbrev Clean : MediaStore → List String → Type 0
  Clean = CleanFiles sha256 blobs src

  -- The tables of `s` with other files.
  abbrev With : MediaStore → List String → MediaStore → Type 0
  With s fs t = t ≡ record s { files = fs }

  -- The file of a put is in place.
  abbrev Placed : MediaStore → PutResult → List String → Type 0
  Placed s p fs =
      (Created blobs src s.files p × (fs ≡ p.blob.storage_handle ∷ s.files))
      ⊎ ((p.created ≡ false) × (fs ≡ s.files))

  -- The put answers the digest of the bytes.
  abbrev Named : PutResult → Type 0
  Named p = trim_space p.blob.digest.value ≡ sha256 src

  placed :
      (s : MediaStore) (d : ContentDigest) (r : RetentionPolicy)
      (out : Result PutResult × List String) (w : MediaWorld)
      → w.queue ≡ s
      → blobs.put d src r s.files ≡ out
      → Ends
          (λ p v. With s v.queue.files v.queue × Placed s p v.queue.files × Named p)
          (λ v. Clean s v.queue.files)
          (out.0, record w { queue = record w.queue { files = out.1 } })
  placed s d r (err e, files) w here_now put =
      inl (sym (ap (λ o. o.1) put) ∙ contract.put_fails d src r s.files e (ap (λ o. o.0) put))
  placed s d r (ok p, files) w here_now put = (
    ap (λ (t : MediaStore). record t { files = files }) here_now,
    elim (Bool-cases p.created) [
      | inl e ↦ inl (
        (e, (d, r, ap (λ o. o.0) put)),
        sym (ap (λ o. o.1) put) ∙ contract.put_creates d src r s.files p (ap (λ o. o.0) put) e,
      )
      | inr e ↦
          inr (
            e,
            sym (ap (λ o. o.1) put) ∙ contract.put_finds d src r s.files p (ap (λ o. o.0) put) e,
          )
    ],
    ap trim_space (contract.put_digest d src r s.files p (ap (λ o. o.0) put))
        ∙ contract.trimmed src,
  )

  put_bytes-Placed :
      (s : MediaStore) (d : ContentDigest) (r : RetentionPolicy)
      → Ensures
          (λ t. t ≡ s)
          (put_bytes texts blobs d src r)
          (λ p t. With s t.files t × Placed s p t.files × Named p)
          (λ t. Clean s t.files)
  unfolding put_bytes
  put_bytes-Placed s d r = record {
    hoare = record {
      at = λ w e.
          placed s d r (blobs.put d src r w.queue.files) w e
            (ap (λ (t : MediaStore). blobs.put d src r t.files) (sym e));
    };
  }

  -- The file is ours to take away exactly if the put created it and nothing referred to it.
  abbrev IsOurs : MediaStore → PutResult → Bool → Type 0
  IsOurs s p ours =
      (ours ≡ true → p.created ≡ true)
      × (ours ≡ false
          → (p.created ≡ false)
            ⊎ ((count_references (trim_space p.blob.digest.value) s.variants == 0) ≡ false))

  module _ (s : MediaStore) (p : PutResult) (named : Named p) where
    discard-Clean :
        (ours : Bool)
        → IsOurs s p ours
        → Ensures
            (λ t. Placed s p t.files)
            (discard texts blobs ours p.blob)
            (λ _ t. Clean s t.files)
            (λ t. Clean s t.files)
    unfolding discard
    discard-Clean true rule = Ensures-step _ (λ w h. removed w.queue.files h (rule.0 refl))
      where
        removed :
            (fs : List String)
            → Placed s p fs
            → p.created ≡ true
            → Clean s (blobs.remove p.blob.storage_handle fs)
        removed fs (inl h) c = inl (
            subst⁻¹ (λ l. blobs.remove p.blob.storage_handle l ≡ s.files) h.1
              (contract.remove_last p.blob.storage_handle s.files))
        removed fs (inr h) c = absurd cc
    discard-Clean false rule = Ensures-step _ (λ w h. kept w.queue.files h (rule.1 refl))
      where
        kept :
            (fs : List String)
            → Placed s p fs
            → (p.created ≡ false)
              ⊎ ((count_references (trim_space p.blob.digest.value) s.variants == 0) ≡ false)
            → Clean s fs
        kept fs (inr h) k = inl h.1
        kept fs (inl h) (inl c) = cc
        kept fs (inl h) (inr k) = inr (
          p,
          h.0,
          h.1,
          count_references-Referred (sha256 src) s.variants
              (subst (λ n. (count_references n s.variants == 0) ≡ false) named k),
        )

    -- A step that writes no file, with the discard after its failure.
    or_discard-Clean :
        {A : Type 0} (ours : Bool) (m : MediaAction A)
        → ((fs : List String) → Ensures (Files fs) m (λ _. Files fs) (Files fs))
        → IsOurs s p ours
        → Ensures
            (λ t. Placed s p t.files)
            (or_discard texts blobs ours p.blob m)
            (λ _ t. Placed s p t.files)
            (λ t. Clean s t.files)
    unfolding or_discard
    or_discard-Clean ours m keeps rule =
        Ensures-attempt m _ _
          (Ensures-each m λ t h.
            Ensures-weaken m
              (Ensures-from m (keeps t.files) (λ u e. ap (λ (x : MediaStore). x.files) e))
              (λ a u e. subst⁻¹ (Placed s p) e h) (λ u e. subst⁻¹ (Placed s p) e h))
          (λ a. Ensures-pure a (λ t h. h))
          (λ e. Ensures-bind _ _ (discard-Clean ours rule) (λ _. Ensures-raise e (λ t h. h)))

    counted :
        (t : MediaStore) (n : ℕ) (digest : String)
        → With s t.files t
        → ok (count_references (trim_space digest) t.variants) ≡ ok n
        → n ≡ count_references (trim_space digest) s.variants
    counted t n digest e h =
        sym (ok_inj _ n h)
        ∙ ap (λ (x : MediaStore). count_references (trim_space digest) x.variants) e

    IsOurs-rule :
        (n : ℕ)
        → n ≡ count_references (trim_space p.blob.digest.value) s.variants
        → IsOurs s p (p.created && n == 0)
    IsOurs-rule n e =
        subst⁻¹ (λ k. IsOurs s p (p.created && k == 0)) e (λ c. ground arith, λ c. ground arith)

    refs-Counted :
        Ensures
          (λ t. With s t.files t × Placed s p t.files)
          (or_discard texts blobs p.created p.blob
            (wrapped "inspect media blob references" (blob_reference_count_on p.blob.digest.value)))
          (λ n t.
            Placed s p t.files × (n ≡ count_references (trim_space p.blob.digest.value) s.variants))
          (λ t. Clean s t.files)
    unfolding blob_reference_count_on or_discard
    refs-Counted =
        Ensures-attempt _ _ _ (Ensures-wrapped _ _ (Ensures-select (λ t h. h) _))
          (λ n. Ensures-pure n (λ t h. (h.0.1, counted t n p.blob.digest.value h.0.0 h.1)))
          (λ e.
            Ensures-from _
              (Ensures-bind _ _ (discard-Clean p.created (λ c. c, λ c. inl c))
                (λ _. Ensures-raise e (λ t h. h)))
              (λ t h. h.1))

    link_bytes-Clean :
        (v : AssetVariant)
        → Ensures
            (λ t. With s t.files t × Placed s p t.files)
            (link_bytes texts blobs v p (λ u. pure tt))
            (λ _ t. Unit {0})
            (λ t. Clean s t.files)
    unfolding link_bytes
    link_bytes-Clean v = Ensures-bind _ _ refs-Counted λ n. with_fact _ (λ e.
        Ensures-bind _ _ (Ensures-step _ (λ w h. h)) λ now.
          Ensures-bind _ _
            (or_discard-Clean _ _ (λ fs. attach_blob_on-Files texts fs v.id p.blob now)
              (IsOurs-rule n e))
            λ stored.
              Ensures-bind _ _
                (or_discard-Clean _ _ (λ fs. Ensures-pure tt (λ t h. h)) (IsOurs-rule n e))
                λ _.
                  Ensures-bind _ _
                    (or_discard-Clean _ _ (λ fs. Ensures-wrapped _ _ (Ensures-commit (λ t h. h)))
                      (IsOurs-rule n e))
                    λ _. Ensures-pure stored (λ t h. tt))

  -- The part of the store before the bytes are put looks and does not write.
  expected_of-Same :
      (s : MediaStore) (v : AssetVariant) (d : ContentDigest)
      → Ensures (λ t. t ≡ s) (expected_of texts blobs v d) (λ _ t. t ≡ s) (λ t. t ≡ s)
  unfolding expected_of
  expected_of-Same s v d =
      Ensures-if (empty_digest d) _ _ (λ e. Ensures-pure _ (λ t h. h))
        (λ e.
          Ensures-bind _ _ (Ensures-wrapped _ _ (Ensures-normalized (λ t h. h) texts d)) λ given.
            Ensures-bind _ _ (Ensures-refuse (λ t h. h) _ _) λ _. Ensures-pure _ (λ t h. h.0))

  store-Clean :
      (s : MediaStore) (id : String) (expected : ContentDigest)
      → Ensures
          (λ t. t ≡ s)
          (store_variant_content texts blobs id expected src)
          (λ _ t. Unit {0})
          (λ t. With s t.files t × Clean s t.files)
  unfolding store_variant_content_atomic
  store-Clean s id expected = Ensures-rolled_back (Clean s) s _ (
      Ensures-bind _ _ (Ensures-begin (λ t h. unchanged t h)) λ _.
        Ensures-bind _ _
          (Ensures-weaken _ (Ensures-load (λ t h. unchanged t h) (trim_space id)) (λ v t h. h.0)
            (λ t h. h))
          λ v.
            Ensures-bind _ _
              (Ensures-weaken _ (Ensures-refuse (λ t h. unchanged t h) _ _) (λ _ t h. h.0)
                (λ t h. h))
              λ _. Ensures-bind _ _ (Ensures-pure tt (λ t h. h)) λ _.
                Ensures-bind _ _
                  (Ensures-weaken _ (expected_of-Same s v expected) (λ _ t h. h) unchanged)
                  λ digest. Ensures-bind _ _ (put_bytes-Placed s digest _) λ p.
                    Ensures-from _ (with_fact _ (λ named. link_bytes-Clean s p named v))
                      (λ t h. ((h.0, h.1), h.2)))
    where
      unchanged : (t : MediaStore) → t ≡ s → Clean s t.files
      unchanged t h = inl (ap (λ (x : MediaStore). x.files) h)

-- With a blob store that keeps its promises, a store of a variant's content that fails, at whichever
-- step, leaves every media table as it was, and the files as they were, or with the one more file that
-- the put of these bytes has just created, and only if a variant of the tables refers to a blob of the
-- bytes' digest.
pub store_variant_content-Clean :
    (texts : Texts) (sha256 : String → String) (blobs : MediaBlobStore)
    → IsBlobStore sha256 blobs
    → (w v : MediaWorld) (id : String) (expected : ContentDigest) (src : String) (e : Err)
    → store_variant_content texts blobs id expected src w ≡ (err e, v)
    → (v.queue ≡ record w.queue { files = v.queue.files })
      × CleanFiles sha256 blobs src w.queue v.queue.files
store_variant_content-Clean texts sha256 blobs contract w v id expected src e h =
    subst
      (λ o.
        Ends (λ a u. Unit {0})
          (λ u.
            (u.queue ≡ record w.queue { files = u.queue.files })
            × CleanFiles sha256 blobs src w.queue u.queue.files)
          o)
      h ((store-Clean texts sha256 blobs contract src w.queue id expected).hoare.at w refl)
