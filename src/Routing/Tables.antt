-- ===== src/Routing/Tables.antt =====
-- What routing relies on of a `DeliveryRetrier`.
use fragments_engine.Common.{String, ◌≡◌, Option, none, some}
use fragments_engine.Delivery.Types.{DeliveryRetryConfig}
use fragments_engine.Store.Action.{World}
use fragments_engine.Routing.Stage.{Retrier}

-- The columns that routing works on are the same.
pub record SameTables {Q : Type 0} (w w' : World Q) : Type 0 where
  pub calls : w'.calls ≡ w.calls
  pub status : w'.status ≡ w.status
  pub inbox : w'.inbox ≡ w.inbox
  pub route_log : w'.route_log ≡ w.route_log
  pub aliases : w'.aliases ≡ w.aliases

-- A retrier puts the delivery into the queue: it changes none of those columns, whether it succeeds
-- or fails.
pub record IsRetrier {Q : Type 0} (enqueue : Retrier Q) : Type 0 where
  pub same :
      (fragment route destination : String) (retry : DeliveryRetryConfig) (w : World Q)
      → SameTables w (enqueue fragment route destination retry w).1

abbrev pub IsRetrier? : {Q : Type 0} → Option (Retrier Q) → Type 0
IsRetrier? none = Unit
IsRetrier? (some enqueue) = IsRetrier enqueue

-- It leaves the destinations alone too.
pub record KeepsDestinations {Q : Type 0} (enqueue : Retrier Q) : Type 0 where
  pub same :
      (fragment route destination : String) (retry : DeliveryRetryConfig) (w : World Q)
      → (enqueue fragment route destination retry w).1.destinations ≡ w.destinations

abbrev pub KeepsDestinations? : {Q : Type 0} → Option (Retrier Q) → Type 0
KeepsDestinations? none = Unit
KeepsDestinations? (some enqueue) = KeepsDestinations enqueue
