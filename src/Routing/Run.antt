-- ===== src/Routing/Run.antt =====
-- `RouteStage.Run` of pipeline.go: the fan-out over all matching routes.
pub mod Inbox
pub mod Audit
pub mod Settled
use fragments_engine.Common.{Bool, true, false, ◌||◌, List, [], ◌∷◌, ◌++◌, if◌then◌else◌}
use fragments_engine.Delivery.Types.{routed, Fragment, FragmentAttachment}
use fragments_engine.Store.Action.{Route, FragmentEntity, words, Action, pure, ◌>>=◌, ◌>>◌}
use fragments_engine.Store.Statements.{
  remove, log_decision, list_routes, list_entities, list_attachments, update_status,
}
use fragments_engine.Routing.Match.{route_matches}
use fragments_engine.Routing.Stage.{
  UpsertOutcome, inserted, updated, skipped, StageContext, RouteStage, run_inbox_stage,
}
use fragments_engine.Routing.RunMatch.{Winners, no_winners, run_match}

-- The routes that match, in the order of the table.
unfoldable pub matching : List Route → Fragment → List FragmentEntity → List Route
matching [] fragment entities = []
matching (route ∷ routes) fragment entities =
    let rest = matching routes fragment entities in
    if route_matches route fragment entities then route ∷ rest else rest

module _ {Q : Type 0} where
  fragment_entities : RouteStage Q → Fragment → Action Q (List FragmentEntity)
  fragment_entities s fragment =
      if s.has_entities
      then (list_entities fragment.id >>= λ persisted. pure (s.extract fragment ++ persisted))
      else pure (s.extract fragment)

  -- The loop over the matches: whether any delivered at once.
  unfoldable pub run_matches :
      RouteStage Q
      → StageContext
      → Fragment
      → List FragmentAttachment
      → List Route
      → Bool
      → Winners
      → Action Q Bool
  run_matches s ctx fragment attachments [] delivered winners = pure delivered
  run_matches s ctx fragment attachments (matched ∷ matches) delivered winners = do
    out ← run_match s ctx matched fragment attachments winners
    run_matches s ctx fragment attachments matches (delivered || out.0) out.1

  -- The end of `Run`: the fragment leaves the inbox once any match has delivered.
  leave_inbox : StageContext → Fragment → Bool → Action Q StageContext
  leave_inbox ctx fragment false = pure ctx
  leave_inbox ctx fragment true = do
    update_status ctx.fragment.id routed
    remove ctx.fragment.id
    pure (record ctx { fragment = fragment })

  fan_out : RouteStage Q → StageContext → List Route → Action Q StageContext
  fan_out s ctx [] = do
    log_decision (record {
      fragment_id = ctx.fragment.id;
      route_id = "";
      destination_id = "";
      decision = "inbox";
      reason = words "no_route_match";
      created_at = ctx.now;
    })
    pure ctx
  fan_out s ctx (matched ∷ matches) = do
    attachments ← list_attachments ctx.fragment.id
    let fragment = record ctx.fragment { status = routed }
    delivered ← run_matches s ctx fragment attachments (matched ∷ matches) false no_winners
    leave_inbox ctx fragment delivered

  route_fragment : RouteStage Q → StageContext → Action Q StageContext
  route_fragment s ctx = do
    routes ← list_routes
    entities ← fragment_entities s ctx.fragment
    fan_out s ctx (matching routes ctx.fragment entities)

  run_unless_skipped : UpsertOutcome → RouteStage Q → StageContext → Action Q StageContext
  run_unless_skipped skipped s ctx = pure ctx
  run_unless_skipped inserted s ctx = route_fragment s ctx
  run_unless_skipped updated s ctx = route_fragment s ctx

  -- The context after the stage.
  unfoldable pub run_route_stage : RouteStage Q → StageContext → Action Q StageContext
  unfolding run_unless_skipped route_fragment fan_out leave_inbox fragment_entities
  run_route_stage s ctx = run_unless_skipped ctx.outcome s ctx

  -- The loop of `RunOnce` over the stages, for the two stages of routing in the app's order.
  unfoldable pub run_stages : RouteStage Q → StageContext → Action Q (Unit {0})
  run_stages s ctx = run_route_stage s ctx >>= run_inbox_stage
