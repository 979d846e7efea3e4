-- ===== src/Store/Action/Reads.antt =====
-- What a run of statements that only read has found.
use fragments_engine.Common.{◌≡◌, refl, sym, ap, ◌∙◌, Bool, List}
use fragments_engine.Common.Error.{Err, Result, ok, err}
use fragments_engine.Store.Action.{World, Action, raise, lift, query}
use fragments_engine.Store.Action.Preserves.{Blind}
use fragments_engine.Store.Action.Hoare.{Hoare, Hoare-query, Ends}

abbrev with_faults : {Q : Type 0} → List Bool → World Q → World Q
with_faults faults w = record w { faults = faults }

-- The tables as they were; only statements that read were run since.
abbrev pub Read : {Q : Type 0} → World Q → World Q → Type 0
Read u w = w ≡ record u { faults = w.faults }

abbrev pub Anything : {Q : Type 0} → World Q → Type 0
Anything w = Unit {0}

-- An action that reads only.
abbrev pub ReadsOnly : {Q A : Type 0} → Action Q A → Type 0
ReadsOnly {Q} m = (w : World Q) → Read w (m w).1

module _ {Q A : Type 0} {P : World Q → Type 0} {R : A → World Q → Type 0} {X : Type 0} where
  pub given : (m : Action Q A) → (X → Hoare P m R Anything) → Hoare (λ w. P w × X) m R Anything
  given m h = record { at = λ w (p, x). (h x).at w p }

module _ {Q : Type 0} (u : World Q) where
  pub Read-Blind : Blind (Read u)
  Read-Blind w faults e = ap (with_faults faults) e

  pub read :
      {A : Type 0} (f : World Q → Result A)
      → ((w : World Q) (faults : List Bool) → f (record w { faults = faults }) ≡ f w)
      → Hoare (Read u) (query f) (λ a w. Read u w × (f u ≡ ok a)) Anything
  read {A} f blind =
      Hoare-query f Read-Blind (λ w e. ends w e (f w) (sym (blind u w.faults) ∙ ap f (sym e)))
        (λ w e. tt) (λ w faults h. h) (λ a w faults h. (Read-Blind w faults h.0, h.1))
    where
      ends :
          (w : World Q)
          → Read u w
          → (r : Result A) → f u ≡ r
          → Ends (λ a w. Read u w × (f u ≡ ok a)) Anything (r, w)
      ends w e (ok a) there = (e, there)
      ends w e (err x) there = tt

  pub reads_only :
      {A : Type 0} (m : Action Q A) → ReadsOnly m → Hoare (Read u) m (λ a. Read u) Anything
  reads_only {A} m only = record { at = λ w e. ends (m w) (after w e) }
    where
      after : (w : World Q) → Read u w → Read u (m w).1
      after w e = only w ∙ ap (with_faults (m w).1.faults) e

      ends : (out : Result A × World Q) → Read u out.1 → Ends (λ a. Read u) Anything out
      ends (ok a, w) e = e
      ends (err x, w) e = tt

  pub lifted :
      {A : Type 0} (r : Result A) → Hoare (Read u) (lift r) (λ a w. Read u w × (r ≡ ok a)) Anything
  unfolding lift
  lifted (ok a) = record { at = λ w e. (e, refl) }
  lifted (err x) = record { at = λ w e. tt }

  pub stops :
      {A : Type 0} {P : World Q → Type 0} {R : A → World Q → Type 0} (e : Err)
      → Hoare P (raise {A = A} e) R Anything
  unfolding raise
  stops e = record { at = λ w h. tt }

-- What was ensured, where the action returned.
pub ends_sound :
    {Q A : Type 0} (R : World Q → Type 0) (out : Result A × World Q) (a : A)
    → Ends (λ done. R) Anything out
    → out.0 ≡ ok a
    → R out.1
ends_sound R (ok b, w) a h e = h
ends_sound R (err x, w) a h e = absurd cc
