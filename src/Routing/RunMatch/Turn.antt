-- ===== src/Routing/RunMatch/Turn.antt =====
-- What a match's turn does, and its log entry.
use fragments_engine.Common.{
  ℕ, ◌+◌, String, ◌≡◌, refl, Bool, true, false, Option, none, some, List, str_eq, if◌then◌else◌,
}
use fragments_engine.Common.Error.{Err}
use fragments_engine.Delivery.Types.{Destination, DeliveryRetryConfig, Fragment, FragmentAttachment}
use fragments_engine.Delivery.Attempt.{Outside, execute_destination_with_retry}
use fragments_engine.Store.Action.{World, Route, RouteLogEntry}
use fragments_engine.Routing.Stage.{StageContext, Retrier}

-- What a log entry says of a match that delivered at once, or did not.
abbrev pub decision : Bool → String
decision delivered = if delivered then "auto_route" else "inbox"

-- The entry is the one of this match.
pub record IsEntry (ctx : StageContext) (matched : Route) (delivered : Bool) (e : RouteLogEntry)
    : Type 0 where
  pub fragment : e.fragment_id ≡ ctx.fragment.id
  pub route : e.route_id ≡ matched.id
  pub destination : e.destination_id ≡ matched.destination_id
  pub decided : e.decision ≡ decision delivered
  pub at : e.created_at ≡ ctx.now

abbrev pub Unsaid : {Q : Type 0} → World Q → Type 0
Unsaid w = Unit {0}

-- The table of destinations.
abbrev pub Rows : Type 0
Rows = String → Option Destination

abbrev unless_callback : Option Destination → Option Destination
unless_callback none = none
unless_callback (some d) = if str_eq d.kind "callback" then none else some d

-- The destination whose executor the match's turn runs, if it runs any.
abbrev pub executor_destination : Rows → Route → Option Destination
executor_destination rows matched =
    if matched.auto_route then unless_callback (rows matched.destination_id) else none

abbrev pub succeeded : Option Err → Bool
succeeded none = true
succeeded (some e) = false

-- Whether the executor delivered, and the number of executor calls after it, from that before.
abbrev pub tried : Outside → Fragment → List FragmentAttachment → Option Destination → ℕ → Bool × ℕ
tried o f attachments none n = (false, n)
tried o f attachments (some d) n =
    let out = execute_destination_with_retry o n d f attachments in
    (succeeded out.1, n + out.0.attempts)

-- What a turn did, with the calls before and after it.
abbrev pub Turn : Type 1
Turn = Route → ℕ → Bool → ℕ → Type 0

-- The turn with a table of destinations as `K` says.
abbrev pub TurnOf : (Rows → Type 0) → Outside → Fragment → List FragmentAttachment → Turn
TurnOf K o f attachments matched n delivered after =
    (rows : Rows) × K rows
    × (tried o f attachments (executor_destination rows matched) n ≡ (delivered, after))

-- A retrier keeps what `K` says of the destinations.
abbrev pub KeepsRows : {Q : Type 0} → (Rows → Type 0) → Option (Retrier Q) → Type 0
KeepsRows K none = Unit
KeepsRows K (some enqueue) =
    (fragment route destination : String) (retry : DeliveryRetryConfig) (w : World _)
    → K w.destinations
    → K (enqueue fragment route destination retry w).1.destinations

pub executor_destination-review :
    (rows : Rows) (matched : Route)
    → matched.auto_route ≡ false
    → executor_destination rows matched ≡ none
executor_destination-review rows matched h = rw h refl

pub executor_destination-callback :
    (rows : Rows) (matched : Route) (d : Destination)
    → matched.auto_route ≡ true
    → rows matched.destination_id ≡ some d
    → str_eq d.kind "callback" ≡ true
    → executor_destination rows matched ≡ none
executor_destination-callback rows matched d auto row h = rw (auto, row, h) refl

pub executor_destination-executed :
    (rows : Rows) (matched : Route) (d : Destination)
    → matched.auto_route ≡ true
    → rows matched.destination_id ≡ some d
    → str_eq d.kind "callback" ≡ false
    → executor_destination rows matched ≡ some d
executor_destination-executed rows matched d auto row h = rw (auto, row, h) refl
