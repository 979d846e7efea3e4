-- ===== src/Media/Machine/Sound.antt =====
-- Rows stay sound along the machine's steps.
use fragments_engine.Common.{
  ◌≡◌, refl, ◌⊎◌, inl, inr, String, Bool, true, false, not, ◌&&◌, Option, none, some, List, [], ◌∷◌,
  ◌++◌, str_eq, arith, eq_iff, Bool-cases, if◌then◌else◌,
}
use mathlib.Core.Path.{subst}
use fragments_engine.Common.Text.{trim_space_blank}
use fragments_engine.Media.Types.{
  CustodyMode, custody_text, reference, mirror, adopted, AcquisitionState, available, pending,
  reference_only, failed, state_text, is_indefinite, AssetFailure, AssetVariant, ContentDigest,
}
use fragments_engine.Media.Digest.{stored_digest}
use fragments_engine.Media.Prepare.{is_mirrored, is_coded, is_failed}
use fragments_engine.Media.Rows.{find_variant, update_variant}
use fragments_engine.Media.Conflict.{fill_variant, stored_variant, stored_failure}
use fragments_engine.Media.Bytes.{own_bytes, fail_variant}
use fragments_engine.Media.Acquire.{advance_variant, next_state, retention_for_requested_custody}
use fragments_engine.Media.Machine.{
  IsSound, RowStep, fills, owns, fails, advances, stays, TableStep, inserted, updated, Reaches,
  here, after,
}
use fragments_engine.Media.Machine.Advances.{find_variant-id, same_row}

retention_sound :
    (c : CustodyMode)
    → (is_mirrored c && not (is_indefinite (retention_for_requested_custody c))) ≡ false
retention_sound reference = refl
retention_sound CustodyMode.cache = refl
retention_sound mirror = refl
retention_sound adopted = refl
retention_sound (custody_text s) = refl

next_state_sound :
    (s : AcquisitionState) (f : Option AssetFailure)
    → (is_failed (next_state s) && not (is_coded f)) ≡ false
next_state_sound available f = refl
next_state_sound pending f = refl
next_state_sound reference_only f = refl
next_state_sound failed f = refl
next_state_sound (state_text s) f = refl

stored_failure_coded :
    (f : Option AssetFailure) → is_coded f ≡ true → is_coded (stored_failure f) ≡ true
stored_failure_coded none h = h
stored_failure_coded (some f) h = ground (arith, trim_space_blank f.code)

stored_failure_sound :
    (s : AcquisitionState) (f : Option AssetFailure)
    → (is_failed s && not (is_coded f)) ≡ false
    → (is_failed s && not (is_coded (stored_failure f))) ≡ false
stored_failure_sound s f h = ground (arith, stored_failure_coded f)

stored_digest_value : (d : ContentDigest) → (stored_digest d).value ≡ d.value
stored_digest_value d = ground (arith, eq_iff d.value "")

stored_variant-IsSound : (v : AssetVariant) → IsSound v → IsSound (stored_variant v)
unfolding stored_variant
stored_variant-IsSound v (kept, blob, coded) = (
  kept,
  rw (stored_digest_value v.digest) blob,
  stored_failure_sound v.acquisition_state v.failure coded,
)

RowStep-IsSound : (v w : AssetVariant) → RowStep v w → IsSound v → IsSound w
unfolding fill_variant own_bytes fail_variant advance_variant
RowStep-IsSound v w (fills given now) h = h
RowStep-IsSound v w (owns value byte_size retention now same held kept) h = (kept, inr refl, refl)
RowStep-IsSound v w (fails failure now young coded) (kept, blob, _) =
    (kept, blob, ground (arith, stored_failure_coded (some failure) coded))
RowStep-IsSound v w (advances requested now allowed) (kept, blob, coded) =
    (retention_sound requested, blob, next_state_sound v.acquisition_state none)
RowStep-IsSound v w stays h = h

-- Every row that the table finds is sound.
pub record TableSound (vs : List AssetVariant) : Type 0 where
  pub at : (id : String) (v : AssetVariant) → find_variant id vs ≡ some v → IsSound v

-- A row that is found after an UPDATE, or after an INSERT.
find_variant_before :
    (id j : String) (f : AssetVariant → AssetVariant) (w : AssetVariant) (vs : List AssetVariant)
    → ((x : AssetVariant) → (f x).id ≡ x.id)
    → find_variant id (update_variant j f vs) ≡ some w
    → (v : AssetVariant) × (find_variant id vs ≡ some v) × ((if str_eq j v.id then f v else v) ≡ w)
unfolding find_variant update_variant
find_variant_before id j f w [] same h = cc
find_variant_before id j f w (x ∷ vs) same h = elim (Bool-cases (str_eq id x.id)) [
  | inl e ↦ (x, ground arith, ground (arith, same x))
  | inr e ↦
      let (v, found, d) = find_variant_before id j f w vs same (ground (arith, same x)) in
      (v, ground arith, d)
]

find_variant_appended :
    (id : String) (v w : AssetVariant) (vs : List AssetVariant)
    → find_variant id (vs ++ v ∷ []) ≡ some w
    → (find_variant id vs ≡ some w) ⊎ (v ≡ w)
unfolding find_variant
find_variant_appended id v w [] h = ground arith
find_variant_appended id v w (x ∷ vs) h = ground (arith, find_variant_appended id v w vs)

updated-IsSound :
    (b : Bool) (f : AssetVariant → AssetVariant) (row v : AssetVariant)
    → (b ≡ true → row ≡ v)
    → RowStep row (f row)
    → IsSound v
    → IsSound (if b then f v else v)
updated-IsSound false f row v same step h = h
updated-IsSound true f row v same step h =
    RowStep-IsSound v (f v) (subst (λ x. RowStep x (f x)) (same refl) step) h

TableStep-TableSound : (vs us : List AssetVariant) → TableStep vs us → TableSound vs → TableSound us
TableStep-TableSound vs us (inserted given sound) h = record {
  at = λ id w found. elim (find_variant_appended id (stored_variant given) w vs found) [
    | inl there ↦ h.at id w there
    | inr new ↦ subst (λ x. IsSound x) new (stored_variant-IsSound given sound)
  ];
}
TableStep-TableSound vs us (updated j f row there step same) h = record {
  at = λ id w found.
      let (v, before, e) = find_variant_before id j f w vs same found in
      subst (λ x. IsSound x) e
        (updated-IsSound (str_eq j v.id) f row v
          (λ t.
            same_row id j row v vs ((eq_iff j v.id).0 t) (find_variant-id id v vs before) there
              before)
          step (h.at id v before));
}

pub Reaches-TableSound : (vs us : List AssetVariant) → Reaches vs us → TableSound vs → TableSound us
Reaches-TableSound vs us here h = h
Reaches-TableSound vs us (after {ws} r step) h =
    TableStep-TableSound ws us step (Reaches-TableSound vs ws r h)
