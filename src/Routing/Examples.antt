-- ===== src/Routing/Examples.antt =====
-- Tables, routes and a stage to run, and each theorem on them.
use mathlib.Core.Logic.{◌↔◌}
use fragments_engine.Common.{
  String, ◌≡◌, refl, inl, Bool, true, false, Option, none, some, List, [], ◌∷◌, str_eq,
  if◌then◌else◌,
}
use fragments_engine.Delivery.Types.{inbox, routed}
use fragments_engine.Delivery.Examples.{outside, api_destination, note}
use fragments_engine.Delivery.Policy.{retry_config_for_destination, with_retry_defaults}
use fragments_engine.Delivery.Attempt.{
  execute_destination_once, execute_destination_with_retry, is_retryable,
}
use fragments_engine.Routing.Reason.{encode_delivery_reason}
use fragments_engine.Routing.RunMatch.Silent.{run_match-silent}
use fragments_engine.Routing.RunMatch.{no_winners, run_match, execute_destination, claim}
use fragments_engine.Store.Statements.{
  list_routes, list_entities, list_attachments, get_destination, log_decision, remove,
  resolve_canonical_fragment_id, update_status, write_status,
}
use fragments_engine.Store.Action.{
  ◌>>=◌, query, write, step, World, Route, FragmentEntity, InboxItem, pure,
}
use fragments_engine.Store.Waiting.{NothingLost}
use fragments_engine.Routing.Match.{route_matches, Matches, route_matches_iff}
use fragments_engine.Routing.Stage.{inserted, StageContext, RouteStage, Retrier}
use fragments_engine.Routing.Run.Audit.Turned.{Left, matched_entities}
use fragments_engine.Routing.Tables.{IsRetrier, KeepsDestinations}
use fragments_engine.Routing.Stage.{run_inbox_stage}
use fragments_engine.Routing.Run.Settled.{Settled, run_stages-Settled}
use fragments_engine.Routing.Run.{run_stages, run_route_stage, run_matches, matching}
use fragments_engine.Routing.Run.Audit.FanOut.{turn_on, run_route_stage-Left}
use fragments_engine.Common.Error.{ok}
use fragments_engine.Routing.Run.Inbox.{run_route_stage-NothingLost}

abbrev pub todo_route : Route
todo_route = record {
  id = "r1";
  name = "todos";
  match_source = "notes";
  match_type = "";
  match_entity_kind = "tag";
  match_entity_value = "";
  destination_id = "d1";
  auto_route = true;
}

abbrev pub tags : List FragmentEntity
tags = record { kind = "tag"; value = "todo" } ∷ []

-- The row of one fragment.
abbrev only_f1 : {V : Type 0} → V → String → Option V
only_f1 v id = if str_eq id "f1" then some v else none

-- One fragment that waits, with its inbox row.
abbrev pub waiting_with : {Q : Type 0} → List Bool → Q → World Q
waiting_with faults queue = record {
  faults = faults;
  calls = 0;
  now = 5000;
  status = only_f1 inbox;
  aliases = λ id. none;
  inbox = only_f1 (record { reason = "awaiting routing"; staged_at = 1; route_id = none });
  route_log = [];
  routes = todo_route ∷ [];
  destinations = λ id. if str_eq id "d1" then some api_destination else none;
  origins = λ id. record { source = "notes"; source_type = "text" };
  entities = λ id. tags;
  attachments = λ id. [];
  published = λ fragment_id attachment_id. none;
  events = [];
  queue = queue;
}

-- The first statement to come fails.
abbrev waiting : World (Unit {0})
waiting = waiting_with (true ∷ []) tt

pub waiting_with-NothingLost :
    {Q : Type 0} (faults : List Bool) (queue : Q) → NothingLost (waiting_with faults queue)
waiting_with-NothingLost faults queue id waits = row (str_eq id "f1") waits
  where
    row :
        (b : Bool)
        → (if b then some inbox else none) ≡ some inbox
        → (item : InboxItem) × ((if b
              then some (record { reason = "awaiting routing"; staged_at = 1; route_id = none })
              else none)
            ≡ some item)
    row true e = (_, refl)
    row false e = absurd cc

-- A queue that takes every job and keeps none.
abbrev sink : Retrier (Unit {0})
sink fragment route destination retry = pure tt

sink-IsRetrier : IsRetrier sink
unfolding pure
sink-IsRetrier = record {
  same = λ fragment route destination retry w. record {
    calls = refl;
    status = refl;
    inbox = refl;
    route_log = refl;
    aliases = refl;
  };
}

abbrev stage : RouteStage (Unit {0})
stage = record {
  outside = outside;
  extract = λ fragment. [];
  has_entities = true;
  retrier = some sink;
}

abbrev ctx : StageContext
ctx = record { fragment = note; outcome = inserted; now = 7 }

run_route_stage-NothingLost_example : NothingLost (run_route_stage stage ctx waiting).1
run_route_stage-NothingLost_example =
    run_route_stage-NothingLost stage ctx waiting sink-IsRetrier refl
      (waiting_with-NothingLost (true ∷ []) tt)

route_matches_iff_example :
    (route_matches todo_route note tags ≡ true) ↔ Matches todo_route note tags
route_matches_iff_example = route_matches_iff todo_route note tags

abbrev routed_ctx : StageContext
routed_ctx = record ctx { fragment = record note { status = routed } }

todo_delivered : (run_route_stage stage ctx (waiting_with [] tt)).0 ≡ ok routed_ctx
unfolding run_route_stage ◌>>=◌ list_routes query list_entities pure matching route_matches
    list_attachments run_matches run_match get_destination execute_destination step
    execute_destination_with_retry retry_config_for_destination with_retry_defaults
    execute_destination_once is_retryable encode_delivery_reason claim write log_decision remove
    resolve_canonical_fragment_id update_status write_status
todo_delivered = refl

sink-KeepsDestinations : KeepsDestinations sink
unfolding pure
sink-KeepsDestinations = record { same = λ fragment route destination retry w. refl }

run_route_stage-Left_example :
    Left
      (turn_on stage (waiting_with [] tt) ctx)
      (waiting_with [] tt)
      ctx
      (matching (todo_route ∷ []) note (matched_entities stage ctx (waiting_with [] tt)))
      routed_ctx
      (run_route_stage stage ctx (waiting_with [] tt)).1
run_route_stage-Left_example =
    run_route_stage-Left stage ctx routed_ctx (waiting_with [] tt) sink-IsRetrier
      sink-KeepsDestinations (λ e. cc) todo_delivered

abbrev review_route : Route
review_route = record todo_route { auto_route = false }

run_match-silent_example :
    (run_match stage ctx review_route note [] no_winners (waiting_with [] tt)).1.calls ≡ 0
run_match-silent_example =
    run_match-silent stage ctx review_route note [] no_winners (waiting_with [] tt) sink-IsRetrier
      (inl refl)

todo_settled : (run_stages stage ctx (waiting_with [] tt)).0 ≡ ok tt
unfolding run_stages run_inbox_stage run_route_stage ◌>>=◌ list_routes query list_entities pure
    matching route_matches list_attachments run_matches run_match get_destination
    execute_destination step execute_destination_with_retry retry_config_for_destination
    with_retry_defaults execute_destination_once is_retryable encode_delivery_reason claim write
    log_decision remove resolve_canonical_fragment_id update_status write_status
todo_settled = refl

run_stages-Settled_example :
    Settled
      (waiting_with [] tt)
      ctx
      (matching (todo_route ∷ []) note (matched_entities stage ctx (waiting_with [] tt)))
      (run_stages stage ctx (waiting_with [] tt)).1
run_stages-Settled_example =
    run_stages-Settled stage ctx (waiting_with [] tt) sink-IsRetrier (λ e. cc) refl todo_settled
