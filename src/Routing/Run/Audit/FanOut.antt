-- ===== src/Routing/Run/Audit/FanOut.antt =====
-- The log and the context that the route stage leaves.
use fragments_engine.Common.{◌≡◌, ◌≢◌, Option, none, some, refl, ◌∙◌, List, [], ◌∷◌}
use mathlib.Core.Path.{subst}
use fragments_engine.Common.Error.{Result, ok, err}
use fragments_engine.Store.Action.{World, Route}
use fragments_engine.Store.Action.Hoare.{Ends}
use fragments_engine.Store.Action.Reads.{Anything}
use fragments_engine.Routing.Stage.{skipped, StageContext, Retrier, RouteStage}
use fragments_engine.Routing.Tables.{IsRetrier?, KeepsDestinations?}
use fragments_engine.Routing.RunMatch.Turn.{Turn, KeepsRows, tried, executor_destination}
use fragments_engine.Routing.Run.Audit.{Turns-weaken}
use fragments_engine.Routing.Run.{run_route_stage, matching}
use fragments_engine.Routing.Run.Audit.Turned.{
  Left, as_routed, matched_entities, turn_of, run_route_stage-Ends,
}

-- A match's turn on the tables before the stage: whether the executor of the route's destination, if
-- the turn runs one, returned without an error, and the executor calls so far.
abbrev pub turn_on : {Q : Type 0} → RouteStage Q → World Q → StageContext → Turn
turn_on s u ctx matched n delivered after =
    tried s.outside (as_routed ctx.fragment) (u.attachments ctx.fragment.id)
      (executor_destination u.destinations matched) n
    ≡ (delivered, after)

ends_at :
    {Q A : Type 0} (R : A → World Q → Type 0) (out : Result A × World Q) (a : A)
    → Ends R Anything out
    → out.0 ≡ ok a
    → R a out.1
ends_at R (ok b, w) a h e = let same : a ≡ b = cc in rw same h
ends_at R (err x, w) a h e = absurd cc

-- A retrier that leaves the destinations alone keeps those of `u`.
keeps_rows :
    {Q : Type 0} (u : World Q) (retrier : Option (Retrier Q))
    → KeepsDestinations? retrier
    → KeepsRows (λ rows. rows ≡ u.destinations) retrier
keeps_rows u none law = tt
keeps_rows u (some enqueue) law =
    λ fragment route destination retry w e. law.same fragment route destination retry w ∙ e

Left-turn_on :
    {Q : Type 0} (s : RouteStage Q) (u : World Q) (ctx ctx' : StageContext) (matches : List Route)
    (w : World Q)
    → Left (turn_of (λ rows. rows ≡ u.destinations) s u ctx) u ctx matches ctx' w
    → Left (turn_on s u ctx) u ctx matches ctx' w
Left-turn_on s u ctx ctx' [] w h = h
Left-turn_on s u ctx ctx' (matched ∷ matches) w (entries, logged, (delivered, turns, flag)) = (
  entries,
  logged,
  (
    delivered,
    Turns-weaken
        (λ matched n b after (rows, same, did).
          subst
            (λ r.
              tried s.outside (as_routed ctx.fragment) (u.attachments ctx.fragment.id)
                (executor_destination r matched) n
              ≡ (b, after))
            same did)
        turns,
    flag,
  ),
)

-- A route stage that succeeds on a fragment that was not skipped appends to the log just one entry
-- for each matching route, in the order of the table, and without a match the one entry
-- "no_route_match". The entry says "auto_route" if the route has auto_route set, its destination is
-- no callback, and ExecuteDestinationWithRetry of that destination, on the fragment as routed, its
-- attachments and the executor calls of the matches before, returns no error; else it says "inbox".
-- The context's fragment becomes routed exactly if some entry says "auto_route". The retrier writes
-- none of the tables that routing works on, and no destination.
pub run_route_stage-Left :
    {Q : Type 0} (s : RouteStage Q) (ctx ctx' : StageContext) (w : World Q)
    → IsRetrier? s.retrier
    → KeepsDestinations? s.retrier
    → ctx.outcome ≢ skipped
    → (run_route_stage s ctx w).0 ≡ ok ctx'
    → Left
        (turn_on s w ctx)
        w
        ctx
        (matching w.routes ctx.fragment (matched_entities s ctx w))
        ctx'
        (run_route_stage s ctx w).1
run_route_stage-Left s ctx ctx' w law keeps live done =
    Left-turn_on s w ctx ctx' (matching w.routes ctx.fragment (matched_entities s ctx w))
      (run_route_stage s ctx w).1
      (ends_at
        (Left (turn_of (λ rows. rows ≡ w.destinations) s w ctx) w ctx
          (matching w.routes ctx.fragment (matched_entities s ctx w)))
        (run_route_stage s ctx w) ctx'
        ((run_route_stage-Ends (λ rows. rows ≡ w.destinations) s ctx w law
            (keeps_rows w s.retrier keeps) refl live).at
          w refl)
        done)
