-- ===== src/Store/Statements.antt =====
-- The repositories' statements.
use fragments_engine.Common.{
  ℕ, String, Option, none, some, List, [], ◌∷◌, ◌++◌, str_eq, if◌then◌else◌,
}
use fragments_engine.Common.Error.{Err, plain, Result, ok, err}
use fragments_engine.Delivery.Types.{
  Destination, FragmentStatus, Fragment, FragmentAttachment, PublishedAttachment,
}
use fragments_engine.Store.Action.{
  Route, FragmentOrigin, FragmentEntity, RouteLogEntry, QueueJobEvent, InboxItem, Action, query,
  write, update, ◌>>=◌,
}

-- `sql.ErrNoRows`.
abbrev pub no_rows : Err
no_rows = plain "sql: no rows in result set"

abbrev pub or_no_rows {ℓ} : {A : Type ℓ} → Option A → Result A
or_no_rows none = err no_rows
or_no_rows (some a) = ok a

-- The upsert of an inbox row keeps the route of a row that is there.
kept_route : Option InboxItem → Option String
kept_route none = none
kept_route (some item) = item.route_id

-- An alias comes first, then the fragment itself; the empty text is no fragment.
abbrev pub canonical : Option String → Option FragmentStatus → String → Option String
canonical (some id) row fragment_id = if str_eq id "" then none else some id
canonical none none fragment_id = none
canonical none (some s) fragment_id = if str_eq fragment_id "" then none else some fragment_id

-- The route with an id.
abbrev pub find_route : String → List Route → Option Route
find_route id [] = none
find_route id (route ∷ routes) =
    let rest = find_route id routes in if str_eq route.id id then some route else rest

-- An UPDATE writes no row that is not there.
abbrev pub set_status : Option FragmentStatus → FragmentStatus → Option FragmentStatus
set_status none s = none
set_status (some old) s = some s

-- The paths of each attachment in turn.
record_paths :
    List PublishedAttachment
    → (String → Option PublishedAttachment)
    → String
    → Option PublishedAttachment
record_paths [] t = t
record_paths (p ∷ ps) t = record_paths ps (update p.attachment_id (some p) t)

abbrev pub fragment_of : String → FragmentOrigin → FragmentStatus → Fragment
fragment_of id origin status = record {
  id = id;
  source = origin.source;
  source_type = origin.source_type;
  status = status;
}

abbrev pub found_fragment : String → FragmentOrigin → Option FragmentStatus → Result Fragment
found_fragment id origin none = err no_rows
found_fragment id origin (some status) = ok (fragment_of id origin status)

module _ {Q : Type 0} where
  -- InboxRepository.Stage: an upsert.
  unfoldable pub stage : String → String → ℕ → Action Q (Unit {0})
  unfolding kept_route
  stage fragment_id reason staged_at = write λ w. record w {
    inbox =
        update fragment_id
          (some (record {
            reason = reason;
            staged_at = staged_at;
            route_id = kept_route (w.inbox fragment_id);
          }))
          w.inbox;
  }

  -- InboxRepository.Remove.
  unfoldable pub remove : String → Action Q (Unit {0})
  remove fragment_id = write λ w. record w { inbox = update fragment_id none w.inbox }

  -- RoutingRepository.LogDecision.
  unfoldable pub log_decision : RouteLogEntry → Action Q (Unit {0})
  log_decision entry = write λ w. record w { route_log = w.route_log ++ entry ∷ [] }

  -- RoutingRepository.ListRoutes and GetDestination, EntityRepository.ListByFragment,
  -- AttachmentRepository.ListByFragment.
  unfoldable pub list_routes : Action Q (List Route)
  list_routes = query λ w. ok w.routes

  -- RoutingRepository.GetRoute.
  unfoldable pub get_route : String → Action Q Route
  get_route id = query λ w. or_no_rows (find_route id w.routes)

  unfoldable pub get_destination : String → Action Q Destination
  get_destination id = query λ w. or_no_rows (w.destinations id)

  unfoldable pub list_entities : String → Action Q (List FragmentEntity)
  list_entities fragment_id = query λ w. ok (w.entities fragment_id)

  unfoldable pub list_attachments : String → Action Q (List FragmentAttachment)
  list_attachments fragment_id = query λ w. ok (w.attachments fragment_id)

  -- FragmentRepository.ResolveCanonicalFragmentID.
  unfoldable pub resolve_canonical_fragment_id : String → Action Q String
  resolve_canonical_fragment_id fragment_id =
      query λ w. or_no_rows (canonical (w.aliases fragment_id) (w.status fragment_id) fragment_id)

  -- FragmentRepository.GetByID.
  unfoldable pub get_by_id : String → Action Q Fragment
  get_by_id fragment_id = do
    id ← resolve_canonical_fragment_id fragment_id
    query λ w. found_fragment id (w.origins id) (w.status id)

  -- FragmentRepository.UpdateStatus.
  unfoldable pub write_status : String → FragmentStatus → Action Q (Unit {0})
  write_status id s =
      write λ w. record w { status = update id (set_status (w.status id) s) w.status }

  unfoldable pub update_status : String → FragmentStatus → Action Q (Unit {0})
  unfolding write_status
  update_status fragment_id s = do id ← resolve_canonical_fragment_id fragment_id; write_status id s

  -- AttachmentRepository.UpdateFragmentAttachmentStoragePaths: one transaction, so it happens whole
  -- or not at all. What it writes to the media tables is left out.
  unfoldable pub update_storage_paths : String → List PublishedAttachment → Action Q (Unit {0})
  unfolding record_paths
  update_storage_paths fragment_id paths = do
    id ← resolve_canonical_fragment_id fragment_id
    write λ w. record w { published = update id (record_paths paths (w.published id)) w.published }

  -- The INSERT of DeliveryQueueService.logEvent.
  unfoldable pub insert_event : QueueJobEvent → Action Q (Unit {0})
  insert_event event = write λ w. record w { events = w.events ++ event ∷ [] }
