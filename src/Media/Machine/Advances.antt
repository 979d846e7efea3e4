-- ===== src/Media/Machine/Advances.antt =====
-- What a row never loses along the machine's steps.
use fragments_engine.Common.{
  ◌≡◌, refl, ap, ◌∙◌, ◌⊎◌, inl, inr, String, Bool, true, false, some, List, [], ◌∷◌, ◌++◌, str_eq,
  arith, eq_iff, if◌then◌else◌,
}
use mathlib.Core.Path.{subst}
use fragments_engine.Common.Text.{trim_space}
use fragments_engine.Media.Types.{
  CustodyMode, reference, mirror, adopted, custody_text, same_custody, AcquisitionState,
  is_available, available, AssetVariant,
}
use fragments_engine.Media.Rows.{find_variant, update_variant}
use fragments_engine.Media.Conflict.{fill_variant}
use fragments_engine.Media.Bytes.{own_bytes, fail_variant}
use fragments_engine.Media.Acquire.{allows_custody, advance_variant, next_state}
use fragments_engine.Media.Machine.{
  RowStep, fills, owns, fails, advances, stays, TableStep, inserted, updated, Reaches, here, after,
}

-- A reference may become anything, a cached variant a mirror, and nothing else changes.
abbrev pub CustodyGrows : CustodyMode → CustodyMode → Type 0
CustodyGrows c d = (c ≡ d) ⊎ (c ≡ reference) ⊎ ((c ≡ CustodyMode.cache) × (d ≡ mirror))

-- The identity of the row stays, its custody grows, available bytes stay available, and a digest once
-- known is the digest.
pub record Advances (v w : AssetVariant) : Type 0 where
  pub same_id : v.id ≡ w.id
  pub same_asset : v.media_asset_id ≡ w.media_asset_id
  pub same_identity : v.variant_identity ≡ w.variant_identity
  pub same_kind : v.kind ≡ w.kind
  pub same_age : v.created_at ≡ w.created_at
  pub custody : CustodyGrows v.custody w.custody
  pub availability :
      is_available v.acquisition_state ≡ true → is_available w.acquisition_state ≡ true
  pub known_digest : (trim_space v.digest.value ≡ "") ⊎ (v.digest.value ≡ w.digest.value)

pub same_custody_eq : (c d : CustodyMode) → same_custody c d ≡ true → c ≡ d
same_custody_eq reference reference h = refl
same_custody_eq CustodyMode.cache CustodyMode.cache h = refl
same_custody_eq mirror mirror h = refl
same_custody_eq adopted adopted h = refl
same_custody_eq (custody_text s) (custody_text t) h = ap (λ x. custody_text x) ((eq_iff s t).0 h)
same_custody_eq c d h = cc

pub allows_custody-CustodyGrows : (c d : CustodyMode) → allows_custody c d ≡ true → CustodyGrows c d
unfolding allows_custody
allows_custody-CustodyGrows c d h = ground (
  arith,
  same_custody_eq c d,
  same_custody_eq c reference,
  same_custody_eq c CustodyMode.cache,
  same_custody_eq d mirror,
)

CustodyGrows-trans : (c d e : CustodyMode) → CustodyGrows c d → CustodyGrows d e → CustodyGrows c e
CustodyGrows-trans c d e h k = grind arith

Advances-refl : (v : AssetVariant) → Advances v v
Advances-refl v = record {
  same_id = refl;
  same_asset = refl;
  same_identity = refl;
  same_kind = refl;
  same_age = refl;
  custody = inl refl;
  availability = λ h. h;
  known_digest = inr refl;
}

known_digest_trans :
    (a b c : String)
    → (trim_space a ≡ "") ⊎ (a ≡ b)
    → (trim_space b ≡ "") ⊎ (b ≡ c)
    → (trim_space a ≡ "") ⊎ (a ≡ c)
known_digest_trans a b c (inl h) k = inl h
known_digest_trans a b c (inr h) (inl k) = inl (rw h k)
known_digest_trans a b c (inr h) (inr k) = inr (h ∙ k)

Advances-trans : (u v w : AssetVariant) → Advances u v → Advances v w → Advances u w
Advances-trans u v w h k = record {
  same_id = h.same_id ∙ k.same_id;
  same_asset = h.same_asset ∙ k.same_asset;
  same_identity = h.same_identity ∙ k.same_identity;
  same_kind = h.same_kind ∙ k.same_kind;
  same_age = h.same_age ∙ k.same_age;
  custody = CustodyGrows-trans u.custody v.custody w.custody h.custody k.custody;
  availability = λ e. k.availability (h.availability e);
  known_digest =
      known_digest_trans u.digest.value v.digest.value w.digest.value h.known_digest k.known_digest;
}

-- What a step on a row changes beside its identity.
changed :
    (v w : AssetVariant)
    → v.id ≡ w.id
    → v.media_asset_id ≡ w.media_asset_id
    → v.variant_identity ≡ w.variant_identity
    → v.kind ≡ w.kind
    → v.created_at ≡ w.created_at
    → CustodyGrows v.custody w.custody
    → (is_available v.acquisition_state ≡ true → is_available w.acquisition_state ≡ true)
    → (trim_space v.digest.value ≡ "") ⊎ (v.digest.value ≡ w.digest.value)
    → Advances v w
changed v w i a d k c custody availability known = record {
  same_id = i;
  same_asset = a;
  same_identity = d;
  same_kind = k;
  same_age = c;
  custody = custody;
  availability = availability;
  known_digest = known;
}

next_state_available :
    (s : AcquisitionState) → is_available s ≡ true → is_available (next_state s) ≡ true
next_state_available available h = refl
next_state_available s h = cc

RowStep-Advances : (v w : AssetVariant) → RowStep v w → Advances v w
unfolding fill_variant own_bytes fail_variant advance_variant
RowStep-Advances v w (fills given now) =
    changed v (fill_variant given now v) refl refl refl refl refl (inl refl) (λ h. h) (inr refl)
RowStep-Advances v w (owns value byte_size retention now same held kept) =
    changed v (own_bytes value byte_size retention now v) refl refl refl refl refl (inl refl)
      (λ h. refl)
      (ground (arith, eq_iff v.digest.value value, eq_iff (trim_space v.digest.value) ""))
RowStep-Advances v w (fails failure now young coded) =
    changed v (fail_variant failure now v) refl refl refl refl refl (inl refl) (λ h. cc) (inr refl)
RowStep-Advances v w (advances requested now allowed) =
    changed v (advance_variant requested (next_state v.acquisition_state) now v) refl refl refl refl
      refl (allows_custody-CustodyGrows v.custody requested allowed)
      (next_state_available v.acquisition_state) (inr refl)
RowStep-Advances v w stays = Advances-refl v

-- The row that is found after an UPDATE.
find_variant-update_variant :
    (id j : String) (f : AssetVariant → AssetVariant) (v : AssetVariant) (vs : List AssetVariant)
    → ((x : AssetVariant) → (f x).id ≡ x.id)
    → find_variant id vs ≡ some v
    → find_variant id (update_variant j f vs) ≡ some (if str_eq j v.id then f v else v)
unfolding find_variant update_variant
find_variant-update_variant id j f v [] same h = cc
find_variant-update_variant id j f v (x ∷ vs) same h =
    ground (arith, same x, find_variant-update_variant id j f v vs same)

pub find_variant-append :
    (id : String) (v : AssetVariant) (vs ws : List AssetVariant)
    → find_variant id vs ≡ some v
    → find_variant id (vs ++ ws) ≡ some v
unfolding find_variant
find_variant-append id v [] ws h = cc
find_variant-append id v (x ∷ vs) ws h = ground (arith, find_variant-append id v vs ws)

pub find_variant-id :
    (id : String) (v : AssetVariant) (vs : List AssetVariant)
    → find_variant id vs ≡ some v
    → id ≡ v.id
unfolding find_variant
find_variant-id id v [] h = cc
find_variant-id id v (x ∷ vs) h = ground (arith, find_variant-id id v vs, eq_iff id x.id)

-- Every row of the table before is there after, and has only advanced.
pub record TableAdvances (vs us : List AssetVariant) : Type 0 where
  pub at :
      (id : String) (v : AssetVariant)
      → find_variant id vs ≡ some v
      → (w : AssetVariant) × (find_variant id us ≡ some w) × Advances v w

updated_row :
    (b : Bool) (f : AssetVariant → AssetVariant) (row v : AssetVariant)
    → (b ≡ true → row ≡ v)
    → RowStep row (f row)
    → Advances v (if b then f v else v)
updated_row false f row v same step = Advances-refl v
updated_row true f row v same step =
    RowStep-Advances v (f v) (subst (λ x. RowStep x (f x)) (same refl) step)

pub same_row :
    (id j : String) (row v : AssetVariant) (vs : List AssetVariant)
    → j ≡ v.id
    → id ≡ v.id
    → find_variant j vs ≡ some row
    → find_variant id vs ≡ some v
    → row ≡ v
same_row id j row v vs e i found h = cc

TableStep-TableAdvances : (vs us : List AssetVariant) → TableStep vs us → TableAdvances vs us
TableStep-TableAdvances vs us (inserted given sound) = record {
  at = λ id v h. (v, find_variant-append id v vs _ h, Advances-refl v);
}
TableStep-TableAdvances vs us (updated j f row found step same) = record {
  at = λ id v h. (
    _,
    find_variant-update_variant id j f v vs same h,
    updated_row (str_eq j v.id) f row v
        (λ e. same_row id j row v vs ((eq_iff j v.id).0 e) (find_variant-id id v vs h) found h)
        step,
  );
}

TableAdvances-trans :
    (vs ws us : List AssetVariant) → TableAdvances vs ws → TableAdvances ws us → TableAdvances vs us
TableAdvances-trans vs ws us h k = record {
  at = λ id v found.
      let (w, there, first) = h.at id v found in
      let (u, later, second) = k.at id w there in (u, later, Advances-trans v w u first second);
}

pub Reaches-TableAdvances : (vs us : List AssetVariant) → Reaches vs us → TableAdvances vs us
Reaches-TableAdvances vs us here = record { at = λ id v h. (v, h, Advances-refl v) }
Reaches-TableAdvances vs us (after {ws} r step) =
    TableAdvances-trans vs ws us (Reaches-TableAdvances vs ws r)
      (TableStep-TableAdvances ws us step)
