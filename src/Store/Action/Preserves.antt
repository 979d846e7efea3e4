-- ===== src/Store/Action/Preserves.antt =====
-- Invariants of actions, with a rule for each way to build one.
use fragments_engine.Common.{◌≡◌, refl, Bool, true, false, List, [], ◌∷◌, if◌then◌else◌}
use fragments_engine.Common.Error.{Err, Result, ok, err}
use fragments_engine.Store.Action.{
  World, Action, pure, raise, lift, run_query, query, run_write, write, continue, ◌>>=◌, handle,
  attempt,
}

-- `m` keeps `P`, whether it returns or fails.
pub record Preserves {Q A : Type 0} (P : World Q → Type 0) (m : Action Q A) : Type 0 where
  pub at : (w : World Q) → P w → P (m w).1

module _ {Q A : Type 0} {P : World Q → Type 0} where
  pub Preserves-pure : (a : A) → Preserves P (pure a)
  unfolding pure
  Preserves-pure a = record { at = λ w h. h }

  pub Preserves-raise : (e : Err) → Preserves P (raise {A = A} e)
  unfolding raise
  Preserves-raise e = record { at = λ w h. h }

  pub Preserves-lift : (r : Result A) → Preserves P (lift r)
  unfolding lift
  Preserves-lift r = record { at = λ w h. h }

  pub Preserves-if :
      (test : Bool) (first second : Action Q A)
      → (test ≡ true → Preserves P first)
      → (test ≡ false → Preserves P second)
      → Preserves P (if test then first else second)
  Preserves-if true first second pf ps = pf refl
  Preserves-if false first second pf ps = ps refl

-- `P` does not look at the faults to come.
abbrev pub Blind : {Q : Type 0} → (World Q → Type 0) → Type 0
Blind {Q} P = (w : World Q) (faults : List Bool) → P w → P (record w { faults = faults })

module _ {Q A : Type 0} {P : World Q → Type 0} (blind : Blind P) where
  pub Preserves-query : (f : World Q → Result A) → Preserves P (query f)
  unfolding query
  Preserves-query f = record { at = λ w h. go w w.faults h }
    where
      go : (w : World Q) (faults : List Bool) → P w → P (run_query faults f w).1
      go w [] h = h
      go w (false ∷ faults) h = blind w faults h
      go w (true ∷ faults) h = blind w faults h

module _ {Q : Type 0} {P : World Q → Type 0} (blind : Blind P) where
  pub Preserves-write :
      (f : World Q → World Q) → ((w : World Q) → P w → P (f w)) → Preserves P (write f)
  unfolding write
  Preserves-write f keep = record { at = λ w h. go w w.faults h }
    where
      go : (w : World Q) (faults : List Bool) → P w → P (run_write faults f w).1
      go w [] h = keep w h
      go w (false ∷ faults) h = blind (f w) faults (keep w h)
      go w (true ∷ faults) h = blind w faults h

module _ {Q A B : Type 0} {P : World Q → Type 0} where
  continue_preserves :
      (r : Result A) (f : A → Action Q B) (w : World Q)
      → ((a : A) → Preserves P (f a))
      → P w
      → P (continue r f w).1
  continue_preserves (ok a) f w right h = (right a).at w h
  continue_preserves (err e) f w right h = h

  pub Preserves-bind :
      (m : Action Q A) (f : A → Action Q B)
      → Preserves P m
      → ((a : A) → Preserves P (f a))
      → Preserves P (m >>= f)
  unfolding ◌>>=◌
  Preserves-bind m f left right = record {
    at = λ w h. continue_preserves (m w).0 f (m w).1 right (left.at w h);
  }

  handle_preserves :
      (r : Result A) (f : A → Action Q B) (g : Err → Action Q B) (w : World Q)
      → ((a : A) → Preserves P (f a))
      → ((e : Err) → Preserves P (g e))
      → P w
      → P (handle r f g w).1
  unfolding handle
  handle_preserves (ok a) f g w right failing h = (right a).at w h
  handle_preserves (err e) f g w right failing h = (failing e).at w h

  pub Preserves-attempt :
      (m : Action Q A) (f : A → Action Q B) (g : Err → Action Q B)
      → Preserves P m
      → ((a : A) → Preserves P (f a))
      → ((e : Err) → Preserves P (g e))
      → Preserves P (attempt m f g)
  unfolding attempt
  Preserves-attempt m f g left right failing = record {
    at = λ w h. handle_preserves (m w).0 f g (m w).1 right failing (left.at w h);
  }

pub ruleset preserving = (
  Preserves-pure, Preserves-raise, Preserves-lift, Preserves-if, Preserves-bind, Preserves-attempt,
)
