-- ===== src/Routing/Run/Inbox.antt =====
-- A fragment that awaits routing stays in the inbox, whatever fails.
use fragments_engine.Common.{◌≡◌, Bool, true, false, none, List, [], ◌∷◌, ◌||◌}
use fragments_engine.Delivery.Types.{routed, Fragment, FragmentAttachment}
use fragments_engine.Store.Action.{World, Route}
use fragments_engine.Store.Action.Preserves.{
  Preserves, Preserves-pure, Preserves-if, Preserves-bind,
}
use fragments_engine.Store.Action.Hoare.{Hoare, Hoare-pure, Hoare-bind, Hoare-Preserves}
use fragments_engine.Store.Waiting.{
  NothingLost, Holds, Holds-framed, remove-NothingLost, update_status-MayLeave, ends_same,
}
use fragments_engine.Routing.Stage.{
  UpsertOutcome, inserted, updated, skipped, StageContext, RouteStage,
}
use fragments_engine.Routing.Tables.{IsRetrier?}
use fragments_engine.Routing.RunMatch.{Winners, no_winners}
use fragments_engine.Routing.RunMatch.Frame.{
  log_decision-framed, list_routes-framed, list_entities-framed, list_attachments-framed,
  run_match-framed,
}
use fragments_engine.Routing.Run.{
  run_matches, leave_inbox, fan_out, fragment_entities, route_fragment, run_unless_skipped,
  run_route_stage, matching,
}

module _ {Q : Type 0} (s : RouteStage Q) (law : IsRetrier? s.retrier) (ctx : StageContext) where
  abbrev Before : World Q → Type 0
  Before = Holds ctx.fragment.id

  framed :
      (w w' : World Q)
      → w'.status ≡ w.status
      → w'.inbox ≡ w.inbox
      → w'.aliases ≡ w.aliases
      → Before w
      → Before w'
  framed = Holds-framed ctx.fragment.id

  run_matches-Before :
      (f : Fragment) (attachments : List FragmentAttachment) (matches : List Route)
      (delivered : Bool) (winners : Winners)
      → Preserves Before (run_matches s ctx f attachments matches delivered winners)
  unfolding run_matches
  run_matches-Before f attachments [] delivered winners = Preserves-pure delivered
  run_matches-Before f attachments (matched ∷ matches) delivered winners =
      Preserves-bind _ _ (run_match-framed Before framed s law ctx matched f attachments winners)
        (λ out. run_matches-Before f attachments matches (delivered || out.0) out.1)

  leave_inbox-NothingLost :
      (f : Fragment) (delivered : Bool)
      → Hoare Before (leave_inbox ctx f delivered) (λ _. NothingLost) NothingLost
  unfolding leave_inbox
  leave_inbox-NothingLost f false = Hoare-pure ctx (λ w h. h.0)
  leave_inbox-NothingLost f true =
      Hoare-bind _ _ (update_status-MayLeave ctx.fragment.id)
        (λ _. Hoare-bind _ _ (remove-NothingLost ctx.fragment.id) (λ _. Hoare-pure _ (λ w h. h)))

  fan_out-NothingLost :
      (matches : List Route) → Hoare Before (fan_out s ctx matches) (λ _. NothingLost) NothingLost
  unfolding fan_out
  fan_out-NothingLost [] =
      Hoare-bind _ _ (Hoare-Preserves _ (log_decision-framed Before framed _) (λ w h. h.0))
        (λ _. Hoare-pure ctx (λ w h. h.0))
  fan_out-NothingLost (matched ∷ matches) =
      Hoare-bind _ _ (Hoare-Preserves _ (list_attachments-framed Before framed _) (λ w h. h.0))
        (λ attachments.
          Hoare-bind _ _
            (Hoare-Preserves _
              (run_matches-Before (record ctx.fragment { status = routed }) attachments
                (matched ∷ matches) false no_winners)
              (λ w h. h.0))
            (leave_inbox-NothingLost (record ctx.fragment { status = routed })))

  fragment_entities-Before : Preserves Before (fragment_entities s ctx.fragment)
  unfolding fragment_entities
  fragment_entities-Before =
      Preserves-if s.has_entities _ _
        (λ _.
          Preserves-bind _ _ (list_entities-framed Before framed _) (λ persisted. Preserves-pure _))
        (λ _. Preserves-pure (s.extract ctx.fragment))

  route_fragment-NothingLost : Hoare Before (route_fragment s ctx) (λ _. NothingLost) NothingLost
  unfolding route_fragment
  route_fragment-NothingLost =
      Hoare-bind _ _ (Hoare-Preserves _ (list_routes-framed Before framed) (λ w h. h.0)) (λ routes.
        Hoare-bind _ _ (Hoare-Preserves _ fragment_entities-Before (λ w h. h.0))
          (λ entities. fan_out-NothingLost (matching routes ctx.fragment entities)))

  run_unless_skipped-NothingLost :
      (outcome : UpsertOutcome)
      → Hoare Before (run_unless_skipped outcome s ctx) (λ _. NothingLost) NothingLost
  unfolding run_unless_skipped
  run_unless_skipped-NothingLost inserted = route_fragment-NothingLost
  run_unless_skipped-NothingLost updated = route_fragment-NothingLost
  run_unless_skipped-NothingLost skipped = Hoare-pure ctx (λ w h. h.0)

-- If every fragment that awaits routing has its inbox row before the route stage, then it has after
-- it too, whichever statement or delivery fails on the way and whatever routes match: a row goes only
-- once the status `routed` is written. The fragment at hand is no alias of another one.
pub run_route_stage-NothingLost :
    {Q : Type 0} (s : RouteStage Q) (ctx : StageContext) (w : World Q)
    → IsRetrier? s.retrier
    → w.aliases ctx.fragment.id ≡ none
    → NothingLost w
    → NothingLost (run_route_stage s ctx w).1
unfolding run_route_stage
run_route_stage-NothingLost s ctx w law own kept =
    ends_same NothingLost (run_unless_skipped ctx.outcome s ctx w)
      ((run_unless_skipped-NothingLost s law ctx ctx.outcome).at w (kept, own))
