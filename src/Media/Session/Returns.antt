-- ===== src/Media/Session/Returns.antt =====
-- How the statements on the media tables run where none fails.
use fragments_engine.Common.{◌≡◌, refl, Bool, true, false, []}
use fragments_engine.Common.Error.{Err, Result, ok}
use fragments_engine.Store.Action.Returns.{Returns-query, Returns-write}
use fragments_engine.Media.Types.{MediaStore}
use fragments_engine.Media.Session.{
  MediaWorld, MediaAction, refuse, select, modify, settle, deferred, begin_immediate, commit,
}

pub Returns-refuse : (b : Bool) (e : Err) (w : MediaWorld) → b ≡ false → refuse b e w ≡ (ok tt, w)
unfolding refuse
Returns-refuse true e w h = cc
Returns-refuse false e w h = refl

module _ {A : Type 0} where
  pub Returns-select :
      (f : MediaStore → Result A) (w : MediaWorld) (a : A)
      → w.faults ≡ []
      → f w.queue ≡ ok a
      → select f w ≡ (ok a, w)
  unfolding select
  Returns-select f w a calm e = Returns-query _ w a calm e

  pub Returns-deferred :
      (m : MediaAction A) (w v : MediaWorld) (a : A) → m w ≡ (ok a, v) → deferred m w ≡ (ok a, v)
  unfolding deferred settle
  Returns-deferred m w v a e = rw e refl

pub Returns-begin : (w : MediaWorld) → w.faults ≡ [] → begin_immediate w ≡ (ok tt, w)
unfolding begin_immediate
Returns-begin w calm = Returns-select _ w tt calm refl

pub Returns-commit : (w : MediaWorld) → w.faults ≡ [] → commit w ≡ (ok tt, w)
unfolding commit modify
Returns-commit w calm = Returns-write _ w calm
