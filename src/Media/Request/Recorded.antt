-- ===== src/Media/Request/Recorded.antt =====
-- What a custody command that was answered leaves in the tables.
use fragments_engine.Common.{
  ◌≡◌, refl, sym, ap, String, true, false, not, Option, none, some, List, [], ◌∷◌, ◌++◌, str_eq,
  eq_refl, arith,
}
use mathlib.Core.Path.{subst⁻¹, subst₂}
use fragments_engine.Common.Error.{ok}
use fragments_engine.Media.Types.{
  CustodyMode, reference, mirror, adopted, custody_text, same_custody, AssetVariant,
  AssetAcquisitionRequest, MediaStore, Texts,
}
use fragments_engine.Media.Session.Ensures.{
  Ensures, Ensures-pure, Ensures-bind, Ensures-weaken, Ensures-from, Ensures-each, Ensures-wrapped,
  Ensures-refuse, Ensures-select, Ensures-modify, Ensures-begin, Ensures-commit,
}
use fragments_engine.Media.Rows.{find_variant, load_media_asset}
use fragments_engine.Media.Request.{
  AssetAcquisitionResult, find_request, same_semantics, replay, load_media_asset, insert_request,
  acquire, answer, begun,
}
use fragments_engine.Media.Machine.{Reaches, here}
use fragments_engine.Media.Machine.Follows.{From, Holding, Ensures-load}
use fragments_engine.Media.Machine.Follows.Resolve.{resolve-Holding}

-- The request that two lookups answer with.
abbrev pub Chosen :
    Option AssetAcquisitionRequest
    → Option AssetAcquisitionRequest
    → AssetAcquisitionRequest
    → Type 0
Chosen none none r = true ≡ false
Chosen (some a) none r = a ≡ r
Chosen none (some b) r = b ≡ r
Chosen (some a) (some b) r = (not (str_eq a.id b.id) ≡ false) × (a ≡ r)

abbrev pub by_id : AssetAcquisitionRequest → MediaStore → Option AssetAcquisitionRequest
by_id request s = find_request (λ r. r.id) request.id s.requests

abbrev pub by_key : AssetAcquisitionRequest → MediaStore → Option AssetAcquisitionRequest
by_key request s = find_request (λ r. r.idempotency_key) request.idempotency_key s.requests

-- The tables hold the request of an answer, with the same meaning, and its variant.
abbrev pub Recorded : AssetAcquisitionRequest → AssetAcquisitionResult → MediaStore → Type 0
Recorded request out s =
    Chosen (by_id request s) (by_key request s) out.request
    × (not (same_semantics out.request request) ≡ false)
    × (find_variant out.request.asset_variant_id s.variants ≡ some out.variant)

abbrev pub Nothing : MediaStore → Type 0
Nothing s = Unit {0}

pub replay-Recorded :
    (request existing : AssetAcquisitionRequest)
    → Ensures
        (λ s. Chosen (by_id request s) (by_key request s) existing)
        (replay request existing)
        (Recorded request)
        Nothing
unfolding replay
replay-Recorded request existing = Ensures-bind _ _ (Ensures-refuse (λ s h. tt) _ _) λ _.
    Ensures-bind _ _ (Ensures-load (λ s h. tt) existing.asset_variant_id) λ v.
      Ensures-bind _ _ (Ensures-wrapped _ _ (Ensures-commit (λ s h. tt)))
        λ _. Ensures-pure _ (λ s h. (h.0.0, h.0.1, h.1))

pub same_custody_refl : (c : CustodyMode) → same_custody c c ≡ true
same_custody_refl reference = refl
same_custody_refl CustodyMode.cache = refl
same_custody_refl mirror = refl
same_custody_refl adopted = refl
same_custody_refl (custody_text s) = eq_refl s

pub find_request-appended :
    (column : AssetAcquisitionRequest → String) (r : AssetAcquisitionRequest)
    (rs : List AssetAcquisitionRequest)
    → find_request column (column r) rs ≡ none
    → find_request column (column r) (rs ++ r ∷ []) ≡ some r
unfolding find_request
find_request-appended column r [] h = rw (eq_refl (column r)) refl
find_request-appended column r (x ∷ rs) h = ground (arith, find_request-appended column r rs)

-- No request has the id or the key.
abbrev pub Fresh : AssetAcquisitionRequest → List AssetAcquisitionRequest → Type 0
Fresh request rs =
    (find_request (λ r. r.id) request.id rs ≡ none)
    × (find_request (λ r. r.idempotency_key) request.idempotency_key rs ≡ none)

pub self_same : (r : AssetAcquisitionRequest) → not (same_semantics r r) ≡ false
self_same r =
    rw
      (
        eq_refl r.id,
        eq_refl r.idempotency_key,
        eq_refl r.semantic_digest,
        eq_refl r.media_asset_id,
        eq_refl r.variant_kind,
        same_custody_refl r.requested_custody,
        eq_refl r.requested_by,
        eq_refl r.reason,
      )
      refl

pub Chosen-now :
    (r : AssetAcquisitionRequest) (rs : List AssetAcquisitionRequest)
    → Fresh r rs
    → Chosen
        (find_request (λ q. q.id) r.id (rs ++ r ∷ []))
        (find_request (λ q. q.idempotency_key) r.idempotency_key (rs ++ r ∷ []))
        r
Chosen-now r rs fresh =
    subst₂ (λ a b. Chosen a b r) (sym (find_request-appended (λ q. q.id) r rs fresh.0))
      (sym (find_request-appended (λ q. q.idempotency_key) r rs fresh.1))
      (rw (eq_refl r.id) refl, refl)

pub ok_inj : {A : Type 0} (a b : A) → ok a ≡ ok b → a ≡ b
ok_inj a b h = cc

module _ (request : AssetAcquisitionRequest) where
  pub insert_request-Recorded :
      (v : AssetVariant) (start : List AssetVariant) (rs : List AssetAcquisitionRequest)
      → Fresh request rs
      → Ensures
          (Holding start (λ qs refs. qs ≡ rs) v.id v)
          (insert_request (record request { asset_variant_id = v.id }))
          (λ _. Recorded request (record {
            request = record request { asset_variant_id = v.id };
            variant = v;
            idempotent_replay = false;
          }))
          Nothing
  unfolding insert_request
  insert_request-Recorded v start rs fresh = Ensures-bind _ _ (Ensures-select (λ s h. tt) _) λ _.
      Ensures-bind _ _ (Ensures-refuse (λ s h. tt) _ _) λ _.
        Ensures-modify (λ s h. tt) _ _
          (λ s h. (
            Chosen-now (record request { asset_variant_id = v.id }) s.requests
                (subst⁻¹ (Fresh request) h.0.0.0.kept fresh),
            self_same request,
            h.0.0.1,
          ))

  pub asset_From :
      (s : MediaStore)
      → Ensures
          (λ t. t ≡ s)
          (load_media_asset request.media_asset_id)
          (λ _. From s.variants (λ qs refs. qs ≡ s.requests))
          Nothing
  unfolding load_media_asset
  asset_From s = Ensures-wrapped _ _ (
      Ensures-weaken _ (Ensures-select (λ t h. tt) _)
        (λ a t h. record {
          reached = subst⁻¹ (λ x. Reaches s.variants x.variants) h.0 here;
          kept = ap (λ x. x.requests) h.0;
        })
        (λ t h. tt))

  pub acquire-Recorded :
      (texts : Texts)
      → Ensures (λ s. Fresh request s.requests) (acquire texts request) (Recorded request) Nothing
  unfolding acquire
  acquire-Recorded texts = Ensures-each _ λ s fresh.
      Ensures-bind _ _ (Ensures-wrapped _ _ (asset_From s)) λ _.
        Ensures-bind _ _ (Ensures-weaken _ (resolve-Holding texts _ _ _ _) (λ v t h. h) (λ t h. tt))
          λ v.
            Ensures-bind _ _
              (Ensures-wrapped _ _ (insert_request-Recorded v s.variants s.requests fresh))
              λ _.
                Ensures-bind _ _ (Ensures-wrapped _ _ (Ensures-commit (λ t h. tt)))
                  λ _. Ensures-pure _ (λ t h. h)

  pub answer-Recorded :
      (texts : Texts) (a b : Option AssetAcquisitionRequest)
      → Ensures
          (λ s. (by_id request s ≡ a) × (by_key request s ≡ b))
          (answer texts request a b)
          (Recorded request)
          Nothing
  unfolding answer
  answer-Recorded texts none none = Ensures-from _ (acquire-Recorded texts) (λ s h. h)
  answer-Recorded texts (some a) none =
      Ensures-from _ (replay-Recorded request a)
        (λ s h. subst₂ (λ x y. Chosen x y a) (sym h.0) (sym h.1) refl)
  answer-Recorded texts none (some b) =
      Ensures-from _ (replay-Recorded request b)
        (λ s h. subst₂ (λ x y. Chosen x y b) (sym h.0) (sym h.1) refl)
  answer-Recorded texts (some a) (some b) = Ensures-bind _ _ (Ensures-refuse (λ s h. tt) _ _) λ _.
      Ensures-from _ (replay-Recorded request a)
        (λ s h. subst₂ (λ x y. Chosen x y a) (sym h.0.0) (sym h.0.1) (h.1, refl))

  pub begun-Recorded :
      (texts : Texts) → Ensures Nothing (begun texts request) (Recorded request) Nothing
  unfolding begun
  begun-Recorded texts = Ensures-bind _ _ (Ensures-begin (λ s h. h)) λ _.
      Ensures-bind _ _ (Ensures-wrapped _ _ (Ensures-select (λ s h. h) _)) λ a.
        Ensures-bind _ _ (Ensures-wrapped _ _ (Ensures-select (λ s h. tt) _)) λ b.
          Ensures-from _ (answer-Recorded texts a b) (λ s h. (ok_inj _ a h.0.1, ok_inj _ b h.1))
