-- ===== src/Store/Action/Returns.antt =====
-- How an action runs where no statement fails, with a rule for each way to build one.
use fragments_engine.Common.{◌≡◌, refl, ap, ◌∙◌, String, Bool, List, [], ◌∷◌}
use fragments_engine.Common.Error.{Result, ok}
use fragments_engine.Store.Action.{
  World, Action, pure, run_query, query, run_write, write, ◌>>=◌, handle, attempt, wrapped,
}

module _ {Q A : Type 0} where
  run_query_calm :
      (faults : List Bool) (f : World Q → Result A) (w : World Q)
      → faults ≡ []
      → run_query faults f w ≡ (f w, w)
  unfolding run_query
  run_query_calm [] f w e = refl
  run_query_calm (b ∷ faults) f w e = cc

  pub Returns-query :
      (f : World Q → Result A) (w : World Q) (a : A)
      → w.faults ≡ []
      → f w ≡ ok a
      → query f w ≡ (ok a, w)
  unfolding query
  Returns-query f w a calm e = run_query_calm w.faults f w calm ∙ ap (λ r. (r, w)) e

module _ {Q : Type 0} where
  run_write_calm :
      (faults : List Bool) (f : World Q → World Q) (w : World Q)
      → faults ≡ []
      → run_write faults f w ≡ (ok tt, f w)
  unfolding run_write
  run_write_calm [] f w e = refl
  run_write_calm (b ∷ faults) f w e = cc

  pub Returns-write :
      (f : World Q → World Q) (w : World Q) → w.faults ≡ [] → write f w ≡ (ok tt, f w)
  unfolding write
  Returns-write f w calm = run_write_calm w.faults f w calm

module _ {Q A B : Type 0} where
  pub Returns-bind :
      (m : Action Q A) (f : A → Action Q B) (w v : World Q) (a : A) (out : Result B × World Q)
      → m w ≡ (ok a, v)
      → f a v ≡ out
      → (m >>= f) w ≡ out
  unfolding ◌>>=◌
  Returns-bind m f w v a out e h = rw e h

module _ {Q A : Type 0} where
  pub Returns-wrapped :
      (prefix : String) (m : Action Q A) (w v : World Q) (a : A)
      → m w ≡ (ok a, v)
      → wrapped prefix m w ≡ (ok a, v)
  unfolding attempt handle pure
  Returns-wrapped prefix m w v a e = rw e refl
