-- ===== src/Routing/Run/Audit.antt =====
-- The log that a fan-out leaves.
pub mod Turned
pub mod FanOut
use fragments_engine.Common.{
  ℕ, String, ◌≡◌, ◌≢◌, refl, sym, ap, ◌∙◌, Bool, true, false, ◌||◌, Option, none, some, List, [],
  ◌∷◌, ◌++◌, append_assoc, append-nil, if◌then◌else◌,
}
use fragments_engine.Common.Error.{Result, ok, err}
use fragments_engine.Delivery.Types.{routed, Fragment, FragmentAttachment}
use fragments_engine.Store.Action.{
  World, Action, Route, FragmentEntity, RouteLogEntry, words, pure, ◌>>=◌,
}
use fragments_engine.Store.Action.Preserves.{
  Preserves, Preserves-query, Preserves-bind, Preserves-write,
}
use fragments_engine.Store.Action.Hoare.{
  Hoare, Hoare-pure, Hoare-bind, Hoare-write, Hoare-weaken, Hoare-Preserves, Ends,
}
use fragments_engine.Store.Action.Reads.{Read, Anything, given, read, ends_sound}
use fragments_engine.Store.Statements.{
  remove, log_decision, list_routes, list_entities, list_attachments, update_status, write_status,
  resolve_canonical_fragment_id,
}
use fragments_engine.Routing.Stage.{
  UpsertOutcome, inserted, updated, skipped, StageContext, RouteStage,
}
use fragments_engine.Routing.Tables.{IsRetrier?}
use fragments_engine.Routing.RunMatch.{Winners, no_winners}
use fragments_engine.Routing.RunMatch.Turn.{IsEntry, Rows, Turn, TurnOf, KeepsRows}
use fragments_engine.Routing.RunMatch.Before.{Before}
use fragments_engine.Routing.RunMatch.Audit.{Told, run_match-Told}
use fragments_engine.Routing.Run.{
  run_matches, leave_inbox, fan_out, fragment_entities, route_fragment, run_unless_skipped,
  run_route_stage, matching,
}

-- One entry for each match in turn, and whether any of them says that its match delivered.
pub data Trail (ctx : StageContext) : List Route → List RouteLogEntry → Bool → Type 0 where
  over : Trail ctx [] [] false
  turn :
      {matched : Route} {matches : List Route} {e : RouteLogEntry} {entries : List RouteLogEntry}
      {delivered later : Bool}
      → IsEntry ctx matched delivered e
      → Trail ctx matches entries later
      → Trail ctx (matched ∷ matches) (e ∷ entries) (delivered || later)

-- So too, where each entry says what the match's turn did; the number counts the executor calls before
-- the first of them.
pub data Turns (turn : Turn) (ctx : StageContext)
    : ℕ → List Route → List RouteLogEntry → Bool → Type 0 where
  over : {n : ℕ} → Turns turn ctx n [] [] false
  turned :
      {n after : ℕ} {matched : Route} {matches : List Route} {e : RouteLogEntry}
      {entries : List RouteLogEntry} {delivered later : Bool}
      → IsEntry ctx matched delivered e
      → turn matched n delivered after
      → Turns turn ctx after matches entries later
      → Turns turn ctx n (matched ∷ matches) (e ∷ entries) (delivered || later)

pub Turns-Trail :
    {turn : Turn} {ctx : StageContext} {n : ℕ} {matches : List Route} {entries : List RouteLogEntry}
    {b : Bool}
    → Turns turn ctx n matches entries b
    → Trail ctx matches entries b
Turns-Trail Turns.over = Trail.over
Turns-Trail (turned entry did rest) = turn entry (Turns-Trail rest)

pub Turns-weaken :
    {turn turn' : Turn} {ctx : StageContext} {n : ℕ} {matches : List Route}
    {entries : List RouteLogEntry} {b : Bool}
    → ((matched : Route) (n : ℕ) (delivered : Bool) (after : ℕ)
        → turn matched n delivered after
        → turn' matched n delivered after)
    → Turns turn ctx n matches entries b
    → Turns turn' ctx n matches entries b
Turns-weaken weaken Turns.over = Turns.over
Turns-weaken weaken (turned entry did rest) =
    turned entry (weaken _ _ _ _ did) (Turns-weaken weaken rest)

abbrev pub no_match : StageContext → RouteLogEntry
no_match ctx = record {
  fragment_id = ctx.fragment.id;
  route_id = "";
  destination_id = "";
  decision = "inbox";
  reason = words "no_route_match";
  created_at = ctx.now;
}

-- The log entries and the context that a list of matches leaves, from a number of executor calls.
abbrev pub Leaves :
    Turn → StageContext → ℕ → List Route → List RouteLogEntry → StageContext → Type 0
Leaves did ctx n [] entries ctx' = (entries ≡ no_match ctx ∷ []) × (ctx' ≡ ctx)
Leaves did ctx n (matched ∷ matches) entries ctx' =
    (delivered : Bool) × Turns did ctx n (matched ∷ matches) entries delivered
    × (ctx' ≡ (
        if delivered
        then record ctx { fragment = record ctx.fragment { status = routed } }
        else ctx))

or_false : (b : Bool) → b ≡ (b || false)
or_false true = refl
or_false false = refl

or_assoc : (a b c : Bool) → ((a || b) || c) ≡ (a || (b || c))
or_assoc true b c = refl
or_assoc false b c = refl

module _ {Q : Type 0} (K : Rows → Type 0) (s : RouteStage Q) (law : IsRetrier? s.retrier)
    (keeps : KeepsRows K s.retrier) (ctx : StageContext) (f : Fragment)
    (attachments : List FragmentAttachment) where
  -- The log after the matches, from a log, a number of calls and a flag before them.
  abbrev pub Trailed : List RouteLogEntry → ℕ → List Route → Bool → Bool → World Q → Type 0
  Trailed log n matches before after w =
      (entries : List RouteLogEntry) × (delivered : Bool) × (w.route_log ≡ log ++ entries)
      × Turns (TurnOf K s.outside f attachments) ctx n matches entries delivered
      × (after ≡ (before || delivered))

  pub run_matches-Trailed :
      (log : List RouteLogEntry) (n : ℕ) (matches : List Route) (delivered : Bool)
      (winners : Winners)
      → Hoare
          (Before K log n)
          (run_matches s ctx f attachments matches delivered winners)
          (Trailed log n matches delivered)
          Anything
  unfolding run_matches
  run_matches-Trailed log n [] delivered winners =
      Hoare-pure delivered
        (λ w h. ([], false, h.0 ∙ sym (append-nil log), Turns.over, or_false delivered))
  run_matches-Trailed log n (matched ∷ matches) delivered winners =
      Hoare-bind _ _ (run_match-Told K log s law keeps ctx n matched f attachments winners) (λ out.
        record {
          at = λ w (after, (e, same, entry, calls, known), did).
              (Hoare-weaken _
                  (run_matches-Trailed (log ++ e ∷ []) after matches (delivered || out.0) out.1)
                  (λ flag w (entries, later, logged, turns, whether). (
                    e ∷ entries,
                    out.0 || later,
                    logged ∙ append_assoc log (e ∷ []) entries,
                    turned entry did turns,
                    whether ∙ or_assoc delivered out.0 later,
                  ))
                  (λ w h. tt)).at
                w (same, calls, known);
        })
