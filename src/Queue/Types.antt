-- ===== src/Queue/Types.antt =====
-- What the delivery queue service is built from. The queue driver of hollis-labs/libs, SQLite's JSON
-- and the probe of a destination lie outside and are fields of `Driver` and of the service.
use fragments_engine.Common.{ℕ, String, Bool, Option, List}
use fragments_engine.Common.Int.{ℤ}
use fragments_engine.Common.Error.{Err, Result}
use fragments_engine.Delivery.Types.{Destination, DeliveryConfig, QueueConfig}
use fragments_engine.Delivery.Attempt.{Outside}
use fragments_engine.Store.Action.{Action}

pub record DeliveryJobPayload : Type 0 where
  pub fragment_id : String
  pub route_id : String
  pub destination_id : String
  pub backoff_ms : ℤ

pub record QueuedJob : Type 0 where
  pub id : ℕ
  pub payload : String
  pub attempts : ℕ
  pub max_tries : ℤ

-- A row of `delivery_failed_jobs`.
pub record FailedJob : Type 0 where
  pub id : ℕ
  pub queue : String
  pub job_type : String
  pub payload : String

-- The state `Q` of the driver, its operations, and its two tables as the service's own SQL reads
-- them. `extract` is SQLite's `json_extract(payload, '$.field')`.
pub record Driver (Q : Type 0) : Type 0 where
  pub encode_payload : DeliveryJobPayload → String
  pub decode_payload : String → Result DeliveryJobPayload
  pub extract : String → String → Option String
  pub push : String → String → String → ℤ → Action Q (Unit {0})
  pub pop : String → Action Q (Option QueuedJob)
  pub delete : ℕ → Action Q (Unit {0})
  pub release : ℕ → ℤ → Action Q (Unit {0})
  pub failed : QueuedJob → Err → Action Q (Unit {0})
  pub failed_jobs : Q → List FailedJob
  pub remove_failed : ℕ → Q → Q

-- The fields of `domain.DestinationStatus` that the queue reads.
pub record DestinationStatus : Type 0 where
  pub config_valid : Bool
  pub reachable : Bool

pub record DeliveryQueueService (Q : Type 0) : Type 0 where
  pub driver : Driver Q
  pub outside : Outside
  pub has_attachments : Bool
  pub delivery : DeliveryConfig
  pub cfg : QueueConfig
  pub destination_status : Destination → Action Q DestinationStatus
