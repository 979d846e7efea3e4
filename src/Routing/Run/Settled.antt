-- ===== src/Routing/Run/Settled.antt =====
-- Where a fragment is after both stages of routing.
use fragments_engine.Common.{
  ◌≡◌, ◌≢◌, refl, ◌∙◌, ◌⊎◌, inl, inr, Bool, true, false, Option, none, some, List, [], ◌∷◌, ◌++◌,
  if◌then◌else◌,
}
use fragments_engine.Common.Error.{ok}
use fragments_engine.Delivery.Types.{inbox, routed}
use fragments_engine.Store.Action.{World, Route, RouteLogEntry}
use fragments_engine.Store.Action.Hoare.{Hoare, Hoare-bind, Hoare-Preserves, Hoare-weaken, Ends}
use fragments_engine.Store.Action.Reads.{Anything, ends_sound}
use fragments_engine.Routing.Stage.{skipped, StageContext, Retrier, RouteStage, run_inbox_stage}
use fragments_engine.Routing.Stage.Staging.{
  IsStaged, run_inbox_stage-IsStaged, run_inbox_stage-quiet,
}
use fragments_engine.Routing.Tables.{IsRetrier?}
use fragments_engine.Routing.RunMatch.Turn.{Turn, KeepsRows}
use fragments_engine.Routing.Run.Audit.{Trail, Turns-Trail}
use fragments_engine.Routing.Run.Audit.Turned.{Left, matched_entities, run_route_stage-Ends}
use fragments_engine.Routing.Run.{run_stages, matching}

module _ {Q : Type 0} (u : World Q) (ctx : StageContext) (matches : List Route) where
  -- Some match of the trail has delivered.
  abbrev Delivered : World Q → Type 0
  Delivered w =
      (entries : List RouteLogEntry) × (w.route_log ≡ u.route_log ++ entries)
      × Trail ctx matches entries true

  abbrev pub Settled : World Q → Type 0
  Settled w = IsStaged ctx.fragment.id w ⊎ Delivered w

  staged :
      (ctx' : StageContext) (w : World Q)
      → ctx' ≡ ctx
      → ctx.outcome ≢ skipped
      → ctx.fragment.status ≡ inbox
      → Ends (λ done. Settled) Anything (run_inbox_stage ctx' w)
  staged ctx' w same live waits = rw same (
      (Hoare-weaken (run_inbox_stage ctx) (run_inbox_stage-IsStaged ctx live waits) (λ a w h. inl h)
          (λ w h. tt)).at
        w tt)

  delivered :
      (ctx' : StageContext) (w : World Q)
      → Delivered w
      → Ends (λ done. Settled) Anything (run_inbox_stage ctx' w)
  delivered ctx' w h =
      (Hoare-weaken (run_inbox_stage ctx')
          (Hoare-Preserves {P = Delivered} _
            (run_inbox_stage-quiet ctx' Delivered
              (λ w w' same (entries, logged, trail). (entries, same ∙ logged, trail)))
            (λ w h. h))
          (λ a w h. inr h) (λ w h. tt)).at
        w h

after_match :
    {Q : Type 0} (u : World Q) (ctx ctx' : StageContext) (matched : Route) (matches : List Route)
    (w : World Q) (entries : List RouteLogEntry) (b : Bool)
    → ctx.outcome ≢ skipped
    → ctx.fragment.status ≡ inbox
    → w.route_log ≡ u.route_log ++ entries
    → Trail ctx (matched ∷ matches) entries b
    → ctx' ≡ (if b then record ctx { fragment = record ctx.fragment { status = routed } } else ctx)
    → Ends (λ done. Settled u ctx (matched ∷ matches)) Anything (run_inbox_stage ctx' w)
after_match u ctx ctx' matched matches w entries true live waits logged trail same =
    delivered u ctx (matched ∷ matches) ctx' w (entries, logged, trail)
after_match u ctx ctx' matched matches w entries false live waits logged trail same =
    staged u ctx (matched ∷ matches) ctx' w same live waits

after_route :
    {Q : Type 0} (did : Turn) (u : World Q) (ctx ctx' : StageContext) (matches : List Route)
    → ctx.outcome ≢ skipped
    → ctx.fragment.status ≡ inbox
    → Hoare
        (Left did u ctx matches ctx')
        (run_inbox_stage ctx')
        (λ done. Settled u ctx matches)
        Anything
after_route did u ctx ctx' [] live waits = record {
  at = λ w (entries, logged, (only, same)). staged u ctx [] ctx' w same live waits;
}
after_route did u ctx ctx' (matched ∷ matches) live waits = record {
  at = λ w (entries, logged, (b, turns, same)).
      after_match u ctx ctx' matched matches w entries b live waits logged (Turns-Trail turns) same;
}

-- Here nothing is asked of the destinations.
keeps_any : {Q : Type 0} (retrier : Option (Retrier Q)) → KeepsRows (λ rows. Unit {0}) retrier
keeps_any none = tt
keeps_any (some enqueue) = λ fragment route destination retry w h. tt

-- A fragment with status inbox that was not skipped is never lost between the stages: if the route
-- stage and the inbox stage after it both succeed, then the fragment has a row in the inbox, or the
-- log gained an entry for each matching route, one of which says that it delivered.
pub run_stages-Settled :
    {Q : Type 0} (s : RouteStage Q) (ctx : StageContext) (w : World Q)
    → IsRetrier? s.retrier
    → ctx.outcome ≢ skipped
    → ctx.fragment.status ≡ inbox
    → (run_stages s ctx w).0 ≡ ok tt
    → Settled w ctx
        (matching w.routes ctx.fragment (matched_entities s ctx w))
        (run_stages s ctx w).1
unfolding run_stages
run_stages-Settled s ctx w law live waits done =
    ends_sound (Settled w ctx (matching w.routes ctx.fragment (matched_entities s ctx w))) _ tt
      ((Hoare-bind _ _
          (run_route_stage-Ends (λ rows. Unit {0}) s ctx w law (keeps_any s.retrier) tt live)
          (λ ctx'. after_route _ w ctx ctx' _ live waits)).at
        w refl)
      done
