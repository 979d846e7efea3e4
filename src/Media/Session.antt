-- ===== src/Media/Session.antt =====
-- Statements on the media tables, and the write transactions of
-- internal/repository/media.go: what fails inside one takes every write back.
pub mod Ensures
pub mod Returns
use fragments_engine.Common.{String, Bool, if◌then◌else◌}
use fragments_engine.Common.Error.{Err, Result, ok, err}
use fragments_engine.Store.Action.{World, Action, pure, query, write, wrapped, ◌>>=◌, ◌>>◌}
use fragments_engine.Media.Types.{MediaStore}

abbrev pub MediaWorld : Type 0
MediaWorld = World MediaStore

abbrev pub MediaAction : Type 0 → Type 0
MediaAction A = Action MediaStore A

-- A guard with an early return.
unfoldable pub refuse : Bool → Err → MediaAction (Unit {0})
refuse b e w = (if b then err e else ok tt, w)

unfoldable pub select : {A : Type 0} → (MediaStore → Result A) → MediaAction A
select f = query λ w. f w.queue

unfoldable pub modify : (MediaStore → MediaStore) → MediaAction (Unit {0})
modify f = write λ w. record w { queue = f w.queue }

-- The tables go back to what they were. The files of the blob store, the executor calls, the clock
-- and the faults to come are no tables.
unfoldable pub roll_back : MediaWorld → MediaWorld → MediaWorld
roll_back before after = record before {
  faults = after.faults;
  calls = after.calls;
  now = after.now;
  queue = record before.queue { files = after.queue.files };
}

settle : {A : Type 0} → MediaWorld → Result A × MediaWorld → Result A × MediaWorld
settle before (ok a, after) = (ok a, after)
settle before (err e, after) = (err e, roll_back before after)

-- A body with `defer tx.Rollback()`.
unfoldable pub deferred : {A : Type 0} → MediaAction A → MediaAction A
unfolding settle
deferred m w = settle w (m w)

-- `BeginImmediate` and `Commit`, statements that may fail.
unfoldable pub begin_immediate : MediaAction (Unit {0})
begin_immediate = select λ s. ok tt

unfoldable pub commit : MediaAction (Unit {0})
commit = modify λ s. s

unfoldable pub transaction : {A : Type 0} → String → MediaAction A → MediaAction A
transaction name m = deferred (begin_immediate >> m >>= λ a. wrapped name commit >> pure a)
