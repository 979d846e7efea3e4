-- ===== src/Media/Session/Ensures.antt =====
-- What an action ensures of the media tables and files alone, with a rule for each statement.
use fragments_engine.Common.{◌≡◌, refl, String, List, Bool, true, false, if◌then◌else◌}
use mathlib.Core.Path.{subst}
use fragments_engine.Common.Error.{Err, Result, ok, err}
use fragments_engine.Store.Action.{pure, raise, step, attempt, wrapped, ◌>>=◌}
use fragments_engine.Store.Action.Hoare.{
  Ends, Hoare, Hoare-pure, Hoare-query, Hoare-write, Hoare-bind, Hoare-attempt, Hoare-wrapped,
  Hoare-weaken,
}
use fragments_engine.Media.Types.{MediaStore}
use fragments_engine.Media.Session.{
  MediaWorld, MediaAction, refuse, select, modify, roll_back, settle, deferred, begin_immediate,
  commit,
}

-- From `S`, the action returns with `R` of the value, or fails with `F`.
pub record Ensures {A : Type 0} (S : MediaStore → Type 0) (m : MediaAction A)
    (R : A → MediaStore → Type 0) (F : MediaStore → Type 0) : Type 0 where
  pub hoare : Hoare (λ w. S w.queue) m (λ a w. R a w.queue) (λ w. F w.queue)

module _ {A : Type 0} {S F : MediaStore → Type 0} {R : A → MediaStore → Type 0} where
  pub Ensures-pure : (a : A) → ((s : MediaStore) → S s → R a s) → Ensures S (pure a) R F
  Ensures-pure a h = record { hoare = Hoare-pure a (λ w. h w.queue) }

  pub Ensures-raise : (e : Err) → ((s : MediaStore) → S s → F s) → Ensures S (raise e) R F
  unfolding raise
  Ensures-raise e h = record { hoare = record { at = λ w. h w.queue } }

  pub Ensures-if :
      (b : Bool) (m n : MediaAction A)
      → (b ≡ true → Ensures S m R F)
      → (b ≡ false → Ensures S n R F)
      → Ensures S (if b then m else n) R F
  Ensures-if true m n hm hn = hm refl
  Ensures-if false m n hm hn = hn refl

  pub Ensures-wrapped :
      (prefix : String) (m : MediaAction A) → Ensures S m R F → Ensures S (wrapped prefix m) R F
  Ensures-wrapped prefix m h = record { hoare = Hoare-wrapped prefix m h.hoare }

  pub Ensures-step :
      (f : MediaWorld → A × MediaWorld)
      → ((w : MediaWorld) → S w.queue → R (f w).0 (f w).1.queue)
      → Ensures S (step f) R F
  unfolding step
  Ensures-step f h = record { hoare = record { at = h } }

module _ {A : Type 0} {S F G : MediaStore → Type 0} {R T : A → MediaStore → Type 0} where
  pub Ensures-weaken :
      (m : MediaAction A)
      → Ensures S m R F
      → ((a : A) (s : MediaStore) → R a s → T a s)
      → ((s : MediaStore) → F s → G s)
      → Ensures S m T G
  Ensures-weaken m h good bad = record {
    hoare = Hoare-weaken m h.hoare (λ a w. good a w.queue) (λ w. bad w.queue);
  }

module _ {A : Type 0} {S S' F : MediaStore → Type 0} {R : A → MediaStore → Type 0} where
  pub Ensures-from :
      (m : MediaAction A) → Ensures S m R F → ((s : MediaStore) → S' s → S s) → Ensures S' m R F
  Ensures-from m h start = record { hoare = record { at = λ w g. h.hoare.at w (start w.queue g) } }

-- A proof for each of the tables that it starts from.
module _ {A : Type 0} {S F : MediaStore → Type 0} {R : A → MediaStore → Type 0} where
  pub Ensures-each :
      (m : MediaAction A) → ((s : MediaStore) → S s → Ensures (λ t. t ≡ s) m R F) → Ensures S m R F
  Ensures-each m h = record { hoare = record { at = λ w g. (h w.queue g).hoare.at w refl } }

module _ {A B : Type 0} {S F : MediaStore → Type 0} {R : A → MediaStore → Type 0}
    {T : B → MediaStore → Type 0} where
  pub Ensures-bind :
      (m : MediaAction A) (f : A → MediaAction B)
      → Ensures S m R F
      → ((a : A) → Ensures (R a) (f a) T F)
      → Ensures S (m >>= f) T F
  Ensures-bind m f hm hf = record { hoare = Hoare-bind m f hm.hoare (λ a. (hf a).hoare) }

  pub Ensures-attempt :
      {G : MediaStore → Type 0} (m : MediaAction A) (f : A → MediaAction B)
      (g : Err → MediaAction B)
      → Ensures S m R G
      → ((a : A) → Ensures (R a) (f a) T F)
      → ((e : Err) → Ensures G (g e) T F)
      → Ensures S (attempt m f g) T F
  Ensures-attempt m f g hm hf hg = record {
    hoare = Hoare-attempt m f g hm.hoare (λ a. (hf a).hoare) (λ e. (hg e).hoare);
  }

module _ {S F : MediaStore → Type 0} (fails : (s : MediaStore) → S s → F s) where
  pub Ensures-refuse : (b : Bool) (e : Err) → Ensures S (refuse b e) (λ _ s. S s × (b ≡ false)) F
  unfolding refuse
  Ensures-refuse true e = record { hoare = record { at = λ w h. fails w.queue h } }
  Ensures-refuse false e = record { hoare = record { at = λ w h. (h, refl) } }

  pub Ensures-select :
      {A : Type 0} (f : MediaStore → Result A) → Ensures S (select f) (λ a s. S s × (f s ≡ ok a)) F
  unfolding select
  Ensures-select {A} f = record {
    hoare =
        Hoare-query _ (λ w fs h. h) (λ w h. ends (f w.queue) w refl h) (λ w. fails w.queue)
          (λ w fs h. h) (λ a w fs h. h);
  }
    where
      ends :
          (r : Result A) (w : MediaWorld)
          → f w.queue ≡ r
          → S w.queue
          → Ends (λ a w. S w.queue × (f w.queue ≡ ok a)) (λ w. F w.queue) (r, w)
      ends (ok a) w e h = (h, e)
      ends (err x) w e h = fails w.queue h

  pub Ensures-modify :
      (R : MediaStore → Type 0) (f : MediaStore → MediaStore)
      → ((s : MediaStore) → S s → R (f s))
      → Ensures S (modify f) (λ _. R) F
  unfolding modify
  Ensures-modify R f good = record {
    hoare = Hoare-write _ (λ w. good w.queue) (λ w. fails w.queue) (λ w fs h. h) (λ w fs h. h);
  }

  pub Ensures-begin : Ensures S begin_immediate (λ _. S) F
  unfolding begin_immediate
  Ensures-begin = Ensures-weaken _ (Ensures-select (λ s. ok tt)) (λ a s h. h.0) (λ s h. h)

  pub Ensures-commit : Ensures S commit (λ _. S) F
  unfolding commit
  Ensures-commit = Ensures-modify _ (λ s. s) (λ s h. h)

-- A failure of a deferred body is one of the tables that a rollback brings back.
settle-Ends :
    {A : Type 0} (R : A → MediaWorld → Type 0) (F : MediaWorld → Type 0) (before : MediaWorld)
    (out : Result A × MediaWorld)
    → Ends R (λ w. Unit {0}) out
    → ((after : MediaWorld) → F (roll_back before after))
    → Ends R F (settle before out)
unfolding settle
settle-Ends R F before (ok a, after) h back = h
settle-Ends R F before (err e, after) h back = back after

module _ {A : Type 0} {S F : MediaStore → Type 0} {R : A → MediaStore → Type 0} where
  pub Ensures-deferred :
      (m : MediaAction A)
      → Ensures S m R (λ s. Unit {0})
      → ((before after : MediaWorld) → S before.queue → F (roll_back before after).queue)
      → Ensures S (deferred m) R F
  unfolding deferred
  Ensures-deferred m hm back = record {
    hoare = record {
      at = λ w h. settle-Ends _ _ w (m w) (hm.hoare.at w h) (λ after. back w after h);
    };
  }

-- What a failed body leaves: the tables before, and the files as it left them.
rolled-Ends :
    {A : Type 0} (G : List String → Type 0) (before : MediaWorld) (out : Result A × MediaWorld)
    → Ends (λ a w. Unit {0}) (λ w. G w.queue.files) out
    → Ends
        (λ a w. Unit {0})
        (λ w. (w.queue ≡ record before.queue { files = w.queue.files }) × G w.queue.files)
        (settle before out)
unfolding settle roll_back
rolled-Ends G before (ok a, after) h = tt
rolled-Ends G before (err e, after) h = (refl, h)

pub Ensures-rolled_back :
    {A : Type 0} (G : List String → Type 0) (s : MediaStore) (m : MediaAction A)
    → Ensures (λ t. t ≡ s) m (λ a t. Unit {0}) (λ t. G t.files)
    → Ensures
        (λ t. t ≡ s)
        (deferred m)
        (λ a t. Unit {0})
        (λ t. (t ≡ record s { files = t.files }) × G t.files)
unfolding deferred
Ensures-rolled_back G s m h = record {
  hoare = record {
    at = λ w e.
        subst
          (λ (b : MediaStore).
            Ends (λ a v. Unit {0})
              (λ v. (v.queue ≡ record b { files = v.queue.files }) × G v.queue.files)
              (settle w (m w)))
          e (rolled-Ends G w (m w) (h.hoare.at w e));
  };
}
