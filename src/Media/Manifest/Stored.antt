-- ===== src/Media/Manifest/Stored.antt =====
-- What the upsert of a manifest's items stores, while the attachment refs only grow.
use fragments_engine.Common.{
  ◌≡◌, refl, ◌∙◌, ℕ, String, Bool, true, false, not, ◌||◌, Option, none, some, List, [], ◌∷◌, ◌++◌,
  eq_refl, arith,
}
use fragments_engine.Common.Int.{ℤ, pos, negsuc, same_ℤ}
use fragments_engine.Common.Error.{ok}
use fragments_engine.Media.Types.{
  AssetVariant, AssetAcquisitionRequest, AttachmentRef, MediaManifestItem, MediaStore, Texts,
}
use fragments_engine.Media.Session.Ensures.{
  Ensures, Ensures-pure, Ensures-from, Ensures-bind, Ensures-weaken, Ensures-wrapped,
  Ensures-refuse, Ensures-select, Ensures-modify,
}
use fragments_engine.Media.Rows.{is_some}
use fragments_engine.Media.Asset.Apart.{upsert_media_asset-Keeps}
use fragments_engine.Media.Machine.Follows.{From, Came}
use fragments_engine.Media.Machine.Follows.Upsert.{upsert_asset_variants-From}
use fragments_engine.Media.Manifest.{
  find_ref, insert_ref, same_placement, store_ref, identified_ref, insert_or_compare_attachment_ref,
  store_item, store_items,
}

-- Every placement that was found is found again, unchanged.
pub record Grows (before after : List AttachmentRef) : Type 0 where
  pub at :
      (revision_id : String) (position : ℤ) (r : AttachmentRef)
      → find_ref revision_id position before ≡ some r
      → find_ref revision_id position after ≡ some r

pub Grows-refl : (rs : List AttachmentRef) → Grows rs rs
Grows-refl rs = record { at = λ i p r h. h }

pub find_ref-append :
    (i : String) (p : ℤ) (r : AttachmentRef) (rs qs : List AttachmentRef)
    → find_ref i p rs ≡ some r
    → find_ref i p (rs ++ qs) ≡ some r
unfolding find_ref
find_ref-append i p r [] qs h = cc
find_ref-append i p r (x ∷ rs) qs h = ground (arith, find_ref-append i p r rs qs)

pub same_ℤ_refl : (n : ℤ) → same_ℤ n n ≡ true
same_ℤ_refl (pos n) = ground arith
same_ℤ_refl (negsuc n) = ground arith

pub find_ref-new :
    (r : AttachmentRef) (rs : List AttachmentRef)
    → is_some (find_ref r.fragment_revision_id r.position rs) ≡ false
    → find_ref r.fragment_revision_id r.position (rs ++ r ∷ []) ≡ some r
unfolding find_ref
find_ref-new r [] h = rw (eq_refl r.fragment_revision_id, same_ℤ_refl r.position) refl
find_ref-new r (x ∷ rs) h = ground (arith, find_ref-new r rs)

pub ok_inj : {A : Type 0} (a b : A) → ok a ≡ ok b → a ≡ b
ok_inj a b h = cc

pub not_found : (a b : Bool) → (a || b) ≡ false → a ≡ false
not_found true b h = cc
not_found false b h = refl

-- What is said of the refs stays true while they grow.
abbrev pub Closed : (List AssetAcquisitionRequest → List AttachmentRef → Type 0) → Type 0
Closed K =
    (qs : List AssetAcquisitionRequest) (rs us : List AttachmentRef)
    → Grows rs us
    → K qs rs
    → K qs us

abbrev pub Said :
    (List AssetAcquisitionRequest → List AttachmentRef → Type 0)
    → String
    → ℤ
    → AttachmentRef
    → List AssetAcquisitionRequest
    → List AttachmentRef
    → Type 0
Said K i p r qs rs = K qs rs × (find_ref i p rs ≡ some r)

-- The placement that was stored means what was given.
abbrev pub Stored :
    List AssetVariant
    → (List AssetAcquisitionRequest → List AttachmentRef → Type 0)
    → AttachmentRef
    → AttachmentRef
    → MediaStore
    → Type 0
Stored start K r out s =
    From start (Said K r.fragment_revision_id r.position out) s × (same_placement out r ≡ true)

pub same_self : (r : AttachmentRef) → same_placement r r ≡ true
same_self r =
    rw (eq_refl r.media_asset_id, eq_refl r.role, eq_refl r.caption, eq_refl r.source_context) refl

pub said : (b : Bool) → not b ≡ false → b ≡ true
said true h = refl
said false h = cc

module _ (texts : Texts) (start : List AssetVariant)
    (K : List AssetAcquisitionRequest → List AttachmentRef → Type 0) (closed : Closed K) where
  pub insert_ref-Said :
      (r : AttachmentRef)
      → Ensures
          (From start K)
          (insert_ref r)
          (λ _. From start (Said K r.fragment_revision_id r.position r))
          (From start K)
  unfolding insert_ref
  insert_ref-Said r = Ensures-bind _ _ (Ensures-select (λ s h. h) _) λ violated.
      Ensures-bind _ _ (Ensures-refuse (λ s h. h.0) _ _) λ _.
        Ensures-modify (λ s h. h.0.0) (From start (Said K r.fragment_revision_id r.position r)) _
          (λ s h. record {
            reached = h.0.0.reached;
            kept = (
              closed s.requests s.refs _
                  (record { at = λ i p q. find_ref-append i p q s.refs (r ∷ []) }) h.0.0.kept,
              find_ref-new r s.refs (not_found _ _ (not_found _ _ (ok_inj _ violated h.0.1 ∙ h.1))),
            );
          })

  pub came-Said :
      (i : String) (p : ℤ) (r : AttachmentRef) (s : MediaStore)
      → From start K s
      → find_ref i p s.refs ≡ some r
      → From start (Said K i p r) s
  came-Said i p r s h e = record { reached = h.reached; kept = (h.kept, e) }

  pub store_ref-Stored :
      (r : AttachmentRef) (o : Option AttachmentRef)
      → Ensures
          (λ s. From start K s × (find_ref r.fragment_revision_id r.position s.refs ≡ o))
          (store_ref r o)
          (Stored start K r)
          (From start K)
  unfolding store_ref
  store_ref-Stored r none =
      Ensures-from _
        (Ensures-bind _ _ (Ensures-wrapped _ _ (insert_ref-Said r))
          λ _. Ensures-pure r (λ s h. (h, same_self r)))
        (λ s h. h.0)
  store_ref-Stored r (some q) =
      Ensures-bind _ _ (Ensures-refuse (λ s h. h.0) _ _)
        λ _. Ensures-pure q (λ s h. (came-Said _ _ q s h.0.0 h.0.1, said _ h.1))

  pub insert_or_compare-Stored :
      (r : AttachmentRef) (now : ℕ)
      → Ensures
          (From start K)
          (insert_or_compare_attachment_ref texts r now)
          (Stored start K r)
          (From start K)
  unfolding insert_or_compare_attachment_ref
  insert_or_compare-Stored r now = Ensures-bind _ _ (Ensures-refuse (λ s h. h) _ _) λ _.
      Ensures-bind _ _
        (Ensures-weaken _ (Ensures-refuse (λ s h. h.0) _ _) (λ _ s h. h.0.0) (λ s h. h))
        λ _. Ensures-bind _ _ (Ensures-wrapped _ _ (Ensures-select (λ s h. h) _)) λ o.
          Ensures-from _ (store_ref-Stored (identified_ref texts now r) o)
            (λ s h. (h.0, ok_inj _ o h.1))

-- The stored item is the placement of the given one.
abbrev pub Answers : String → MediaManifestItem → MediaManifestItem → List AttachmentRef → Type 0
Answers revision_id given out refs =
    (find_ref revision_id given.attachment.position refs ≡ some out.attachment)
    × (same_placement out.attachment (record given.attachment {
      fragment_revision_id = revision_id;
      media_asset_id = out.asset.id;
    })
        ≡ true)

abbrev pub AllAnswer :
    String → List MediaManifestItem → List MediaManifestItem → List AttachmentRef → Type 0
AllAnswer revision_id [] [] refs = Unit {0}
AllAnswer revision_id (x ∷ xs) (y ∷ ys) refs =
    Answers revision_id x y refs × AllAnswer revision_id xs ys refs
AllAnswer revision_id _ _ refs = true ≡ false

pub Answers-Closed :
    (K : List AssetAcquisitionRequest → List AttachmentRef → Type 0)
    → Closed K
    → (i : String) (x y : MediaManifestItem) → Closed (λ qs rs. K qs rs × Answers i x y rs)
Answers-Closed K closed i x y qs rs us grows (k, (found, same)) =
    (closed qs rs us grows k, (grows.at i x.attachment.position y.attachment found, same))

module _ (texts : Texts) (start : List AssetVariant) where
  pub store_item-Answers :
      (K : List AssetAcquisitionRequest → List AttachmentRef → Type 0)
      → Closed K
      → (i : String) (item : MediaManifestItem) (now : ℕ)
      → Ensures
          (From start K)
          (store_item texts i item now)
          (λ out. From start (λ qs rs. K qs rs × Answers i item out rs))
          (From start K)
  unfolding store_item
  store_item-Answers K closed i item now =
      Ensures-bind _ _ (upsert_media_asset-Keeps (Came start K) texts item.asset now) λ asset.
        Ensures-bind _ _ (upsert_asset_variants-From texts asset.id item.variants now) λ variants.
          Ensures-bind _ _ (insert_or_compare-Stored texts start K closed _ now) λ attachment.
            Ensures-pure _
              (λ s h. record { reached = h.0.reached; kept = (h.0.kept.0, (h.0.kept.1, h.1)) })

  pub store_items-AllAnswer :
      (i : String) (items : List MediaManifestItem) (now : ℕ)
      (K : List AssetAcquisitionRequest → List AttachmentRef → Type 0)
      → Closed K
      → Ensures
          (From start K)
          (store_items texts i items now)
          (λ outs. From start (λ qs rs. K qs rs × AllAnswer i items outs rs))
          (From start K)
  unfolding store_items
  store_items-AllAnswer i [] now K closed =
      Ensures-pure [] (λ s h. record { reached = h.reached; kept = (h.kept, tt) })
  store_items-AllAnswer i (item ∷ items) now K closed =
      Ensures-bind _ _ (store_item-Answers K closed i item now) λ out.
        Ensures-bind _ _
          (Ensures-weaken _
            (store_items-AllAnswer i items now (λ qs rs. K qs rs × Answers i item out rs)
              (Answers-Closed K closed i item out))
            (λ outs s h. h) (λ s h. record { reached = h.reached; kept = h.kept.0 }))
          λ outs.
            Ensures-pure (out ∷ outs)
              (λ s h. record { reached = h.reached; kept = (h.kept.0.0, (h.kept.0.1, h.kept.1)) })
