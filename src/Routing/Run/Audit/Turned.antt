-- ===== src/Routing/Run/Audit/Turned.antt =====
-- The log and the context that the route stage leaves, from the tables that it finds.
use fragments_engine.Common.{
  String, ◌≡◌, ◌≢◌, refl, ap, ◌∙◌, Bool, true, false, List, [], ◌∷◌, ◌++◌, if◌then◌else◌,
}
use mathlib.Core.Path.{subst⁻¹}
use fragments_engine.Common.Error.{ok}
use fragments_engine.Delivery.Types.{routed, Fragment, FragmentAttachment}
use fragments_engine.Store.Action.{World, Route, FragmentEntity, RouteLogEntry, pure, ◌>>=◌}
use fragments_engine.Store.Action.Preserves.{
  Preserves, Preserves-query, Preserves-bind, Preserves-write,
}
use fragments_engine.Store.Action.Hoare.{
  Hoare, Hoare-pure, Hoare-bind, Hoare-write, Hoare-Preserves,
}
use fragments_engine.Store.Action.Reads.{Read, Anything, given, read}
use fragments_engine.Store.Statements.{
  remove, log_decision, list_routes, list_entities, list_attachments, update_status, write_status,
  resolve_canonical_fragment_id,
}
use fragments_engine.Routing.Stage.{
  UpsertOutcome, inserted, updated, skipped, StageContext, RouteStage,
}
use fragments_engine.Routing.Tables.{IsRetrier?}
use fragments_engine.Routing.RunMatch.{no_winners}
use fragments_engine.Routing.RunMatch.Turn.{Rows, Turn, TurnOf, KeepsRows}
use fragments_engine.Routing.RunMatch.Before.{Before}
use fragments_engine.Routing.Run.Audit.{no_match, Leaves, Trailed, run_matches-Trailed}
use fragments_engine.Routing.Run.{
  run_matches, leave_inbox, fan_out, fragment_entities, route_fragment, run_unless_skipped,
  run_route_stage, matching,
}

-- Writing the status and removing the row tell the log nothing.
module _ {Q : Type 0} (P : World Q → Type 0)
    (by_log : (w w' : World Q) → w'.route_log ≡ w.route_log → P w → P w') where
  update_status-quiet : (id : String) → Preserves P (update_status id routed)
  unfolding update_status write_status resolve_canonical_fragment_id
  update_status-quiet id =
      Preserves-bind _ _ (Preserves-query (λ w faults. by_log w _ refl) _)
        (λ canonical. Preserves-write (λ w faults. by_log w _ refl) _ (λ w. by_log w _ refl))

  remove-quiet : (id : String) → Preserves P (remove id)
  unfolding remove
  remove-quiet id = Preserves-write (λ w faults. by_log w _ refl) _ (λ w. by_log w _ refl)

-- The log and the context after the matches, against the tables before them.
abbrev pub Left :
    {Q : Type 0} → Turn → World Q → StageContext → List Route → StageContext → World Q → Type 0
Left did u ctx matches ctx' w =
    (entries : List RouteLogEntry) × (w.route_log ≡ u.route_log ++ entries)
    × Leaves did ctx u.calls matches entries ctx'

-- The fragment that the executors get.
abbrev pub as_routed : Fragment → Fragment
as_routed fragment = record fragment { status = routed }

-- A match's turn on the tables before the stage, with destinations of which `K` holds.
abbrev pub turn_of : {Q : Type 0} → (Rows → Type 0) → RouteStage Q → World Q → StageContext → Turn
turn_of K s u ctx = TurnOf K s.outside (as_routed ctx.fragment) (u.attachments ctx.fragment.id)

-- The entities that the routes are matched against.
abbrev pub matched_entities :
    {Q : Type 0} → RouteStage Q → StageContext → World Q → List FragmentEntity
matched_entities s ctx u =
    if s.has_entities
    then s.extract ctx.fragment ++ u.entities ctx.fragment.id
    else s.extract ctx.fragment

module _ {Q : Type 0} (K : Rows → Type 0) (s : RouteStage Q) (law : IsRetrier? s.retrier)
    (keeps : KeepsRows K s.retrier) (ctx : StageContext) (u : World Q)
    (known_before : K u.destinations) where
  abbrev TrailedBy : List Route → Bool → World Q → Type 0
  TrailedBy matches =
      Trailed K s law keeps ctx (as_routed ctx.fragment) (u.attachments ctx.fragment.id) u.route_log
        u.calls matches false

  leave_inbox-Left :
      (matched : Route) (matches : List Route) (delivered : Bool)
      → Hoare
          (TrailedBy (matched ∷ matches) delivered)
          (leave_inbox ctx (as_routed ctx.fragment) delivered)
          (Left (turn_of K s u ctx) u ctx (matched ∷ matches))
          Anything
  unfolding leave_inbox
  leave_inbox-Left matched matches false =
      Hoare-pure ctx (λ w (entries, delivered, logged, trail, flag).
        (entries, logged, (delivered, trail, ap (after ctx) flag)))
    where
      after : StageContext → Bool → StageContext
      after ctx b =
          if b then record ctx { fragment = record ctx.fragment { status = routed } } else ctx
  leave_inbox-Left matched matches true =
      Hoare-bind _ _
        (Hoare-Preserves _ (update_status-quiet _ (quiet true) ctx.fragment.id) (λ w h. tt))
        (λ done.
          Hoare-bind _ _
            (Hoare-Preserves _ (remove-quiet _ (quiet true) ctx.fragment.id) (λ w h. tt))
            (λ done. Hoare-pure _ (λ w (entries, delivered, logged, trail, flag).
              (entries, logged, (delivered, trail, ap (after ctx) flag)))))
    where
      after : StageContext → Bool → StageContext
      after ctx b =
          if b then record ctx { fragment = record ctx.fragment { status = routed } } else ctx

      quiet :
          (delivered : Bool) (w w' : World Q)
          → w'.route_log ≡ w.route_log
          → TrailedBy (matched ∷ matches) delivered w
          → TrailedBy (matched ∷ matches) delivered w'
      quiet delivered w w' same (entries, later, logged, trail, flag) =
          (entries, later, same ∙ logged, trail, flag)

  fan_out-Left :
      (matches : List Route)
      → Hoare (Read u) (fan_out s ctx matches) (Left (turn_of K s u ctx) u ctx matches) Anything
  unfolding fan_out log_decision list_attachments
  fan_out-Left [] =
      Hoare-bind {R = λ done w. w.route_log ≡ u.route_log ++ no_match ctx ∷ []} _ _
        (Hoare-write _ (λ w h. ap (λ v. v.route_log ++ no_match ctx ∷ []) h) (λ w h. tt)
          (λ w faults h. h) (λ w faults h. h))
        (λ done. Hoare-pure ctx (λ w h. (no_match ctx ∷ [], h, (refl, refl))))
  fan_out-Left (matched ∷ matches) =
      Hoare-bind _ _ (read u (λ w. ok (w.attachments ctx.fragment.id)) (λ w faults. refl))
        (λ attachments. given _ (λ listed. after_listing attachments (cc)))
    where
      before : (w : World Q) → Read u w → Before K u.route_log u.calls w
      before w h = (
        ap (λ (v : World Q). v.route_log) h,
        ap (λ (v : World Q). v.calls) h,
        subst⁻¹ (λ (v : World Q). K v.destinations) h known_before,
      )

      after_listing :
          (attachments : List FragmentAttachment)
          → attachments ≡ u.attachments ctx.fragment.id
          → Hoare
              (Read u)
              (run_matches s ctx
                  (as_routed ctx.fragment)
                  attachments
                  (matched ∷ matches)
                  false
                  no_winners
                >>= leave_inbox ctx (as_routed ctx.fragment))
              (Left (turn_of K s u ctx) u ctx (matched ∷ matches))
              Anything
      after_listing attachments listed = rw listed (
          Hoare-bind _ _
            (record {
              at = λ w h.
                  (run_matches-Trailed K s law keeps ctx (as_routed ctx.fragment)
                      (u.attachments ctx.fragment.id) u.route_log u.calls (matched ∷ matches) false
                      no_winners).at
                    w (before w h);
            })
            (leave_inbox-Left matched matches))

  fragment_entities-known :
      Hoare
        (Read u)
        (fragment_entities s ctx.fragment)
        (λ entities w. Read u w × (entities ≡ (matched_entities s ctx u)))
        Anything
  unfolding fragment_entities list_entities
  fragment_entities-known = go s.has_entities
    where
      go :
          (b : Bool)
          → Hoare
              (Read u)
              (if b
                then (list_entities ctx.fragment.id >>= λ persisted.
                    pure (s.extract ctx.fragment ++ persisted))
                else pure (s.extract ctx.fragment))
              (λ entities w.
                Read u w
                × (entities ≡ (
                    if b
                    then s.extract ctx.fragment ++ u.entities ctx.fragment.id
                    else s.extract ctx.fragment)))
              Anything
      go true =
          Hoare-bind _ _ (read u (λ w. ok (w.entities ctx.fragment.id)) (λ w faults. refl))
            (λ persisted.
              given _
                (λ e. Hoare-pure _ (λ w h. (h, ap (λ es. s.extract ctx.fragment ++ es) (cc)))))
      go false = Hoare-pure _ (λ w h. (h, refl))

  route_fragment-Left :
      Hoare
        (Read u)
        (route_fragment s ctx)
        (Left (turn_of K s u ctx) u ctx (matching u.routes ctx.fragment (matched_entities s ctx u)))
        Anything
  unfolding route_fragment list_routes
  route_fragment-Left = Hoare-bind _ _ (read u (λ w. ok w.routes) (λ w faults. refl)) (λ routes.
      given _ (λ listed.
        Hoare-bind _ _ fragment_entities-known
          (λ entities. given _ (λ known. matched routes entities (cc) known))))
    where
      matched :
          (routes : List Route) (entities : List FragmentEntity)
          → routes ≡ u.routes
          → entities ≡ (matched_entities s ctx u)
          → Hoare
              (Read u)
              (fan_out s ctx (matching routes ctx.fragment entities))
              (Left
                (turn_of K s u ctx)
                u
                ctx
                (matching u.routes ctx.fragment (matched_entities s ctx u)))
              Anything
      matched routes entities listed known =
          rw (listed, known)
            (fan_out-Left (matching u.routes ctx.fragment (matched_entities s ctx u)))

  run_unless_skipped-Left :
      (outcome : UpsertOutcome)
      → outcome ≢ skipped
      → Hoare
          (Read u)
          (run_unless_skipped outcome s ctx)
          (Left
            (turn_of K s u ctx)
            u
            ctx
            (matching u.routes ctx.fragment (matched_entities s ctx u)))
          Anything
  unfolding run_unless_skipped
  run_unless_skipped-Left inserted live = route_fragment-Left
  run_unless_skipped-Left updated live = route_fragment-Left
  run_unless_skipped-Left skipped live = absurd (live refl)

pub run_route_stage-Ends :
    {Q : Type 0} (K : Rows → Type 0) (s : RouteStage Q) (ctx : StageContext) (u : World Q)
    → IsRetrier? s.retrier
    → KeepsRows K s.retrier
    → K u.destinations
    → ctx.outcome ≢ skipped
    → Hoare
        (Read u)
        (run_route_stage s ctx)
        (Left (turn_of K s u ctx) u ctx (matching u.routes ctx.fragment (matched_entities s ctx u)))
        Anything
unfolding run_route_stage
run_route_stage-Ends K s ctx u law keeps known live =
    run_unless_skipped-Left K s law keeps ctx u known ctx.outcome live
