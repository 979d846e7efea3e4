-- ===== src/Media/Content/Files.antt =====
-- What the blob store promises of its files, and that attaching a blob writes none.
use fragments_engine.Common.{
  ◌≡◌, ◌≢◌, sym, ◌∙◌, ◌⊎◌, inl, inr, ℕ, String, true, false, ◌==◌, List, [], ◌∷◌, str_eq, eq_iff,
  Bool-cases,
}
use fragments_engine.Common.Error.{Err, ok, err}
use fragments_engine.Common.Text.{trim_space}
use fragments_engine.Media.Types.{
  AssetVariant, MediaBlob, MediaStore, Texts, RetentionPolicy, ContentDigest,
}
use fragments_engine.Media.Session.Ensures.{
  Ensures, Ensures-bind, Ensures-weaken, Ensures-wrapped, Ensures-refuse, Ensures-select,
  Ensures-modify,
}
use fragments_engine.Media.Bytes.{attach_blob_on, refuse_bytes, insert_blob}
use fragments_engine.Media.Content.{PutResult, MediaBlobStore, refers_to, count_references}
use fragments_engine.Media.Machine.Follows.{Ensures-load}
use fragments_engine.Media.Machine.Follows.Prepare.{Ensures-normalized}

contradiction : false ≡ true → ⊥
contradiction h = cc

pub ok_inj : {A : Type 0} (a b : A) → ok a ≡ ok b → a ≡ b
ok_inj a b h = cc

-- What `Put` and `Remove` of the blob store promise of its files: a put that fails or finds its file
-- changes none, one that creates a file adds it, and removing that file takes it away again. A put that
-- succeeds answers the digest of the bytes it was given, in hexadecimal, which has no blanks.
pub record IsBlobStore (sha256 : String → String) (blobs : MediaBlobStore) : Type 0 where
  pub trimmed : (src : String) → trim_space (sha256 src) ≡ sha256 src
  pub put_digest :
      (d : ContentDigest) (src : String) (r : RetentionPolicy) (files : List String) (p : PutResult)
      → (blobs.put d src r files).0 ≡ ok p
      → p.blob.digest.value ≡ sha256 src
  pub put_fails :
      (d : ContentDigest) (src : String) (r : RetentionPolicy) (files : List String) (e : Err)
      → (blobs.put d src r files).0 ≡ err e
      → (blobs.put d src r files).1 ≡ files
  pub put_finds :
      (d : ContentDigest) (src : String) (r : RetentionPolicy) (files : List String) (p : PutResult)
      → (blobs.put d src r files).0 ≡ ok p
      → p.created ≡ false
      → (blobs.put d src r files).1 ≡ files
  pub put_creates :
      (d : ContentDigest) (src : String) (r : RetentionPolicy) (files : List String) (p : PutResult)
      → (blobs.put d src r files).0 ≡ ok p
      → p.created ≡ true
      → (blobs.put d src r files).1 ≡ p.blob.storage_handle ∷ files
  pub remove_last :
      (handle : String) (files : List String) → blobs.remove handle (handle ∷ files) ≡ files

-- Some variant's row owns the blob of this digest.
abbrev pub Referred : String → List AssetVariant → Type 0
Referred digest [] = ⊥
Referred digest (v ∷ vs) = ((v.blob_digest ≡ digest) × (v.blob_digest ≢ "")) ⊎ Referred digest vs

-- The put of the bytes `src` into the files `files` answers `p`, which says that it created a file.
abbrev pub Created : MediaBlobStore → String → List String → PutResult → Type 0
Created blobs src files p =
    (p.created ≡ true)
    × ((d : ContentDigest) × (r : RetentionPolicy) × ((blobs.put d src r files).0 ≡ ok p))

-- The files after a failure to store the bytes `src`: those before, or one more, which this put
-- created, and a variant refers to the digest of the bytes.
abbrev pub CleanFiles :
    (String → String) → MediaBlobStore → String → MediaStore → List String → Type 0
CleanFiles sha256 blobs src s files =
    (files ≡ s.files)
    ⊎ ((p : PutResult) × Created blobs src s.files p
        × (files ≡ p.blob.storage_handle ∷ s.files)
        × Referred (sha256 src) s.variants)

refers_to-Owns :
    (digest : String) (v : AssetVariant)
    → refers_to digest v ≡ true
    → (v.blob_digest ≡ digest) × (v.blob_digest ≢ "")
refers_to-Owns digest v h = owns (Bool-cases (str_eq v.blob_digest ""))
  where
    owns :
        (str_eq v.blob_digest "" ≡ true) ⊎ (str_eq v.blob_digest "" ≡ false)
        → (v.blob_digest ≡ digest) × (v.blob_digest ≢ "")
    owns (inl e) = absurd (contradiction (rw e at h))
    owns (inr e) = (
      (eq_iff v.blob_digest digest).0 (rw e at h),
      λ null. contradiction (sym e ∙ (eq_iff v.blob_digest "").1 null),
    )

pub count_references-Referred :
    (digest : String) (vs : List AssetVariant)
    → (count_references digest vs == 0) ≡ false
    → Referred digest vs
count_references-Referred digest [] h = cc
count_references-Referred digest (v ∷ vs) h = elim (Bool-cases (refers_to digest v)) [
  | inl e ↦ inl (refers_to-Owns digest v e)
  | inr e ↦ inr (count_references-Referred digest vs (rw e at h))
]

abbrev pub Files : List String → MediaStore → Type 0
Files fs s = s.files ≡ fs

module _ (texts : Texts) where
  pub refuse_bytes-Files :
      (fs : List String) (row : AssetVariant) (digest : ContentDigest) (r : RetentionPolicy)
      → Ensures (Files fs) (refuse_bytes row digest r) (λ _. Files fs) (Files fs)
  unfolding refuse_bytes
  refuse_bytes-Files fs row digest r = Ensures-bind _ _ (Ensures-refuse (λ s h. h) _ _) λ _.
      Ensures-bind _ _ (Ensures-refuse (λ s h. h.0) _ _) λ _.
        Ensures-bind _ _ (Ensures-refuse (λ s h. h.0.0) _ _) λ _.
          Ensures-weaken _ (Ensures-refuse (λ s h. h.0.0.0) _ _) (λ _ s h. h.0.0.0.0) (λ s h. h)

  pub insert_blob-Files :
      (fs : List String) (b : MediaBlob)
      → Ensures (Files fs) (insert_blob b) (λ _. Files fs) (Files fs)
  unfolding insert_blob
  insert_blob-Files fs b = Ensures-bind _ _ (Ensures-select (λ s h. h) _) λ _.
      Ensures-bind _ _ (Ensures-refuse (λ s h. h.0) _ _)
        λ _. Ensures-modify (λ s h. h.0.0) (Files fs) _ (λ s h. h.0.0)

  -- Attaching a blob writes tables and no file.
  pub attach_blob_on-Files :
      (fs : List String) (id : String) (b : MediaBlob) (now : ℕ)
      → Ensures (Files fs) (attach_blob_on texts id b now) (λ _. Files fs) (Files fs)
  unfolding attach_blob_on
  attach_blob_on-Files fs id b now =
      Ensures-bind _ _
        (Ensures-weaken _ (Ensures-load (λ s h. h) (trim_space id)) (λ v s h. h.0) (λ s h. h))
        λ row.
          Ensures-bind _ _ (Ensures-wrapped _ _ (Ensures-normalized (λ s h. h) texts _)) λ digest.
            Ensures-bind _ _ (refuse_bytes-Files fs row digest _) λ _.
              Ensures-bind _ _ (Ensures-wrapped _ _ (insert_blob-Files fs _)) λ _.
                Ensures-bind _ _
                  (Ensures-weaken _ (Ensures-wrapped _ _ (Ensures-select (λ s h. h) _))
                    (λ b s h. h.0) (λ s h. h))
                  λ stored. Ensures-bind _ _ (Ensures-refuse (λ s h. h) _ _) λ _.
                    Ensures-bind _ _
                      (Ensures-wrapped _ _ (Ensures-modify (λ s h. h.0) (Files fs) _ (λ s h. h.0)))
                      λ _.
                        Ensures-weaken _ (Ensures-load (λ s h. h) row.id) (λ v s h. h.0) (λ s h. h)
