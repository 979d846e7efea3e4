-- ===== src/Store/Action/Hoare.antt =====
-- What an action ensures when it returns and when it fails, with a rule for each way to build one.
use fragments_engine.Common.{◌≡◌, refl, String, Bool, true, false, List, [], ◌∷◌, if◌then◌else◌}
use fragments_engine.Common.Error.{Err, Result, ok, err}
use fragments_engine.Store.Action.{
  World, Action, pure, run_query, query, run_write, write, continue, ◌>>=◌, handle, attempt, raise,
  wrapped,
}
use fragments_engine.Store.Action.Preserves.{Preserves, Blind}

-- `R` of the value and the tables where the action returned, `F` of the tables where it failed.
abbrev pub Ends :
    {Q A : Type 0} → (A → World Q → Type 0) → (World Q → Type 0) → Result A × World Q → Type 0
Ends R F (ok a, w) = R a w
Ends R F (err e, w) = F w

pub record Hoare {Q A : Type 0} (P : World Q → Type 0) (m : Action Q A) (R : A → World Q → Type 0)
    (F : World Q → Type 0) : Type 0 where
  pub at : (w : World Q) → P w → Ends R F (m w)

module _ {Q A : Type 0} {P F : World Q → Type 0} {R : A → World Q → Type 0} where
  pub Hoare-pure : (a : A) → ((w : World Q) → P w → R a w) → Hoare P (pure a) R F
  unfolding pure
  Hoare-pure a h = record { at = h }

  pub Hoare-if :
      (b : Bool) (m n : Action Q A)
      → Hoare P m R F
      → Hoare P n R F
      → Hoare P (if b then m else n) R F
  Hoare-if true m n hm hn = hm
  Hoare-if false m n hm hn = hn

  pub Hoare-cases :
      (b : Bool) (m n : Action Q A)
      → (b ≡ true → Hoare P m R F)
      → (b ≡ false → Hoare P n R F)
      → Hoare P (if b then m else n) R F
  Hoare-cases true m n hm hn = hm refl
  Hoare-cases false m n hm hn = hn refl

  pub Hoare-query :
      (f : World Q → Result A)
      → Blind P
      → ((w : World Q) → P w → Ends R F (f w, w))
      → ((w : World Q) → P w → F w)
      → Blind F
      → ((a : A) → Blind (R a))
      → Hoare P (query f) R F
  unfolding query
  Hoare-query f blind good bad blind_f blind_r = record { at = λ w h. go w w.faults h }
    where
      ends :
          (r : Result A) (w : World Q) (faults : List Bool)
          → Ends R F (r, w)
          → Ends R F (r, record w { faults = faults })
      ends (ok a) w faults h = blind_r a w faults h
      ends (err e) w faults h = blind_f w faults h

      go : (w : World Q) (faults : List Bool) → P w → Ends R F (run_query faults f w)
      go w [] h = good w h
      go w (false ∷ faults) h = ends (f w) w faults (good w h)
      go w (true ∷ faults) h = blind_f w faults (bad w h)

module _ {Q : Type 0} {P F R : World Q → Type 0} where
  pub Hoare-write :
      (f : World Q → World Q)
      → ((w : World Q) → P w → R (f w))
      → ((w : World Q) → P w → F w)
      → Blind F
      → Blind R
      → Hoare P (write f) (λ _. R) F
  unfolding write
  Hoare-write f good bad blind_f blind_r = record { at = λ w h. go w w.faults h }
    where
      go : (w : World Q) (faults : List Bool) → P w → Ends (λ _. R) F (run_write faults f w)
      go w [] h = good w h
      go w (false ∷ faults) h = blind_r (f w) faults (good w h)
      go w (true ∷ faults) h = blind_f w faults (bad w h)

module _ {Q A B : Type 0} {F : World Q → Type 0} where
  continue-Ends :
      {R : A → World Q → Type 0} {S : B → World Q → Type 0} (out : Result A × World Q)
      (f : A → Action Q B)
      → Ends R F out
      → ((a : A) → Hoare (R a) (f a) S F)
      → Ends S F (continue out.0 f out.1)
  continue-Ends (ok a, w) f h hf = (hf a).at w h
  continue-Ends (err e, w) f h hf = h

module _ {Q A B : Type 0} {P F : World Q → Type 0} {R : A → World Q → Type 0}
    {S : B → World Q → Type 0} where
  pub Hoare-bind :
      (m : Action Q A) (f : A → Action Q B)
      → Hoare P m R F
      → ((a : A) → Hoare (R a) (f a) S F)
      → Hoare P (m >>= f) S F
  unfolding ◌>>=◌
  Hoare-bind m f hm hf = record { at = λ w h. continue-Ends (m w) f (hm.at w h) hf }

module _ {Q A : Type 0} {P F : World Q → Type 0} where
  Preserves-Ends :
      (out : Result A × World Q) → P out.1 → ((w : World Q) → P w → F w) → Ends (λ _. P) F out
  Preserves-Ends (ok a, w) h bad = h
  Preserves-Ends (err e, w) h bad = bad w h

  -- What keeps `P` ensures it.
  pub Hoare-Preserves :
      (m : Action Q A) → Preserves P m → ((w : World Q) → P w → F w) → Hoare P m (λ _. P) F
  Hoare-Preserves m k bad = record { at = λ w h. Preserves-Ends (m w) (k.at w h) bad }

module _ {Q A B : Type 0} {F : World Q → Type 0} {R : A → World Q → Type 0}
    {S : B → World Q → Type 0} where
  handle-Ends :
      {F' : World Q → Type 0} (out : Result A × World Q) (f : A → Action Q B) (g : Err → Action Q B)
      → Ends R F' out
      → ((a : A) → Hoare (R a) (f a) S F)
      → ((e : Err) → Hoare F' (g e) S F)
      → Ends S F (handle out.0 f g out.1)
  unfolding handle
  handle-Ends (ok a, w) f g h hf hg = (hf a).at w h
  handle-Ends (err e, w) f g h hf hg = (hg e).at w h

module _ {Q A B : Type 0} {P F : World Q → Type 0} {R : A → World Q → Type 0}
    {S : B → World Q → Type 0} where
  pub Hoare-attempt :
      {F' : World Q → Type 0} (m : Action Q A) (f : A → Action Q B) (g : Err → Action Q B)
      → Hoare P m R F'
      → ((a : A) → Hoare (R a) (f a) S F)
      → ((e : Err) → Hoare F' (g e) S F)
      → Hoare P (attempt m f g) S F
  unfolding attempt
  Hoare-attempt m f g hm hf hg = record { at = λ w h. handle-Ends (m w) f g (hm.at w h) hf hg }

module _ {Q A : Type 0} {F : World Q → Type 0} {R : A → World Q → Type 0} where
  Hoare-raise : (e : Err) → Hoare F (raise {A = A} e) R F
  unfolding raise
  Hoare-raise e = record { at = λ w h. h }

module _ {Q A : Type 0} {P F : World Q → Type 0} {R : A → World Q → Type 0} where
  pub Hoare-wrapped :
      (prefix : String) (m : Action Q A) → Hoare P m R F → Hoare P (wrapped prefix m) R F
  Hoare-wrapped prefix m hm =
      Hoare-attempt m _ _ hm (λ a. Hoare-pure a (λ w h. h)) (λ e. Hoare-raise _)

module _ {Q A : Type 0} {F G : World Q → Type 0} {R S : A → World Q → Type 0} where
  weaken-Ends :
      (out : Result A × World Q)
      → Ends R F out
      → ((a : A) (w : World Q) → R a w → S a w)
      → ((w : World Q) → F w → G w)
      → Ends S G out
  weaken-Ends (ok a, w) h good bad = good a w h
  weaken-Ends (err e, w) h good bad = bad w h

module _ {Q A : Type 0} {P F G : World Q → Type 0} {R S : A → World Q → Type 0} where
  pub Hoare-weaken :
      (m : Action Q A)
      → Hoare P m R F
      → ((a : A) (w : World Q) → R a w → S a w)
      → ((w : World Q) → F w → G w)
      → Hoare P m S G
  Hoare-weaken m hm good bad = record { at = λ w h. weaken-Ends (m w) (hm.at w h) good bad }
