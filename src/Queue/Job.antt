-- ===== src/Queue/Job.antt =====
-- A job's way through the queue: enqueue, drain, deliver, release or dead-letter.
pub mod Laws
pub mod Inbox
pub mod Drain
use fragments_engine.Common.{
  ℕ, zero, suc, String, Bool, true, false, Option, none, some, List, [], ◌∷◌, str_eq, ◌&&◌,
  if◌then◌else◌,
}
use fragments_engine.Common.Int.{ℤ, pos, leb_ℤ}
use fragments_engine.Common.Error.{Err, wrap, Result, ok, err}
use fragments_engine.Delivery.Types.{
  Destination, DeliveryRetryConfig, routed, Fragment, FragmentAttachment, PublishedAttachment,
  DeliveryResult,
}
use fragments_engine.Store.Action.{
  World, Action, pure, raise, query, attempt, wrapped, QueueJobEvent, RouteLogEntry, Reason, ◌>>=◌,
  ◌>>◌,
}
use fragments_engine.Store.Statements.{
  remove, log_decision, get_destination, get_by_id, list_attachments, update_status,
  update_storage_paths, insert_event,
}
use fragments_engine.Routing.Reason.{
  encode_queued_delivery_success, encode_queued_delivery_dead_letter,
}
use fragments_engine.Routing.RunMatch.{execute_destination}
use fragments_engine.Queue.Types.{
  DeliveryJobPayload, QueuedJob, FailedJob, Driver, DeliveryQueueService,
}

-- Both of `deliveryQueueName` and `deliveryQueueJobKey`.
abbrev pub delivery_queue_name : String
delivery_queue_name = "destination_delivery"

abbrev pub max_tries_of : ℤ → ℤ
max_tries_of n = if leb_ℤ n (pos 0) then pos 3 else n

-- `queueEventDetail`.
pub record QueueEventDetail : Type 0 where
  pub error : Option Err
  pub attempts : ℕ
  pub ref : String

abbrev pub no_detail : QueueEventDetail
no_detail = record { error = none; attempts = 0; ref = "" }

abbrev pub event_of : ℕ → Option ℕ → DeliveryJobPayload → String → QueueEventDetail → QueueJobEvent
event_of now failed_job_id payload event_type detail = record {
  failed_job_id = failed_job_id;
  fragment_id = payload.fragment_id;
  route_id = payload.route_id;
  destination_id = payload.destination_id;
  event_type = event_type;
  attempts = detail.attempts;
  error = detail.error;
  ref = detail.ref;
  created_at = now;
}

abbrev job_entry : ℕ → DeliveryJobPayload → String → Reason → RouteLogEntry
job_entry now payload decision reason = record {
  fragment_id = payload.fragment_id;
  route_id = payload.route_id;
  destination_id = payload.destination_id;
  decision = decision;
  reason = reason;
  created_at = now;
}

-- `json_extract` of one field is the text given.
abbrev extracts : Option String → String → Bool
extracts none s = false
extracts (some t) s = str_eq t s

-- The answer of `Drain`, whose count is there in an error case too, and the tables after it.
abbrev pub Drained : Type 0 → Type 0
Drained Q = (ℕ × Option Err) × World Q

abbrev pub payload_of : String → String → String → DeliveryRetryConfig → DeliveryJobPayload
payload_of fragment_id route_id destination_id retry = record {
  fragment_id = fragment_id;
  route_id = route_id;
  destination_id = destination_id;
  backoff_ms = retry.backoff_ms;
}

module _ {Q : Type 0} where
  -- `time.Now()`.
  unfoldable pub now : Action Q ℕ
  now w = (ok w.now, w)

  unfoldable pub log_event :
      Option ℕ → DeliveryJobPayload → String → QueueEventDetail → Action Q (Unit {0})
  unfolding now
  log_event failed_job_id payload event_type detail = do
    t ← now
    wrapped "insert queue event" (insert_event (event_of t failed_job_id payload event_type detail))

  unfoldable pub enqueue_destination_retry :
      DeliveryQueueService Q → String → String → String → DeliveryRetryConfig → Action Q (Unit {0})
  enqueue_destination_retry s fragment_id route_id destination_id retry = do
    let payload = payload_of fragment_id route_id destination_id retry
    s.driver.push delivery_queue_name (s.driver.encode_payload payload) delivery_queue_name
        (max_tries_of retry.max_attempts)
    wrapped "log enqueue queue event" (log_event none payload "enqueue" no_detail)

  -- The newest dead letter of the fragment at the destination; the list stands newest first.
  newest_failed : Driver Q → DeliveryJobPayload → List FailedJob → Option ℕ
  newest_failed d payload [] = none
  newest_failed d payload (job ∷ jobs) =
      let rest = newest_failed d payload jobs in
      if str_eq job.queue delivery_queue_name
        && str_eq job.job_type delivery_queue_name
        && extracts (d.extract job.payload "fragment_id") payload.fragment_id
        && extracts (d.extract job.payload "destination_id") payload.destination_id
      then some job.id
      else rest

  unfoldable pub fail_job :
      DeliveryQueueService Q → QueuedJob → DeliveryJobPayload → Err → Action Q (Unit {0})
  unfolding newest_failed now
  fail_job s job payload e = do
    wrapped "mark delivery job failed" (s.driver.failed job e)
    failed_job_id ←
        attempt (query λ w. ok (newest_failed s.driver payload (s.driver.failed_jobs w.queue))) pure
          (λ _. pure none)
    t ← now
    wrapped "log queued delivery dead-letter" (
        log_decision
          (job_entry t payload "inbox" (encode_queued_delivery_dead_letter job.attempts e)))
    wrapped "log dead-letter queue event" (
        log_event failed_job_id payload "dead_letter"
          (record { error = some e; attempts = job.attempts; ref = "" }))

  paths_of_job : Bool → String → List PublishedAttachment → Action Q (Unit {0})
  paths_of_job false fragment_id ps = pure tt
  paths_of_job true fragment_id [] = pure tt
  paths_of_job true fragment_id (p ∷ ps) =
      wrapped "update queued attachment storage paths" (update_storage_paths fragment_id (p ∷ ps))

  log_settled :
      DeliveryQueueService Q → QueuedJob → DeliveryJobPayload → DeliveryResult → Action Q (Unit {0})
  unfolding now
  log_settled s job payload result = do
    t ← now
    wrapped "log queued delivery success" (
        log_decision (
          job_entry t payload "queued_route"
            (encode_queued_delivery_success result.attempts result.ref)))
    wrapped "delete queued job" (s.driver.delete job.id)
    wrapped "log delivered queue event" (
        log_event none payload "delivered"
          (record { error = none; attempts = result.attempts; ref = result.ref }))

  -- The end of `processJob`, after the delivery.
  settle_job :
      DeliveryQueueService Q
      → QueuedJob
      → DeliveryJobPayload
      → DeliveryResult × Option Err
      → Action Q (Unit {0})
  settle_job s job payload (result, none) = do
    wrapped "update routed status" (update_status payload.fragment_id routed)
    paths_of_job s.has_attachments payload.fragment_id result.published_attachments
    wrapped "remove inbox item" (remove payload.fragment_id)
    log_settled s job payload result
  settle_job s job payload (result, some e) =
      if leb_ℤ (max_tries_of job.max_tries) (pos job.attempts)
      then fail_job s job payload e
      else wrapped "release queued job" (s.driver.release job.id payload.backoff_ms)

  job_attachments : Bool → String → Action Q (List FragmentAttachment)
  job_attachments false fragment_id = pure []
  job_attachments true fragment_id = list_attachments fragment_id

  deliver_job :
      DeliveryQueueService Q → QueuedJob → DeliveryJobPayload → Fragment → Action Q (Unit {0})
  deliver_job s job payload fragment =
      attempt (get_destination payload.destination_id)
        (λ destination.
          attempt (job_attachments s.has_attachments payload.fragment_id)
            (λ attachments.
              execute_destination s.outside destination (record fragment { status = routed })
                attachments
              >>= settle_job s job payload)
            (λ e. fail_job s job payload (wrap "get attachments" e)))
        (λ e. fail_job s job payload (wrap "get destination" e))

  process_decoded :
      DeliveryQueueService Q → QueuedJob → Result DeliveryJobPayload → Action Q (Unit {0})
  process_decoded s job (err e) =
      attempt (s.driver.failed job e) (λ _. raise (wrap "decode delivery job payload" e))
        (λ _. raise (wrap "decode delivery job payload" e))
  process_decoded s job (ok payload) =
      attempt (get_by_id payload.fragment_id)
        (λ fragment. deliver_job s job (record payload { fragment_id = fragment.id }) fragment)
        (λ e. fail_job s job payload (wrap "get fragment" e))

  unfoldable pub process_job : DeliveryQueueService Q → QueuedJob → Action Q (Unit {0})
  unfolding process_decoded deliver_job job_attachments settle_job log_settled paths_of_job fail_job
      now
  process_job s job = process_decoded s job (s.driver.decode_payload job.payload)

  after_job : (ℕ → World Q → Drained Q) → ℕ → Result (Unit {0}) × World Q → Drained Q
  after_job again processed (err e, w) = ((processed, some e), w)
  after_job again processed (ok done, w) = again (suc processed) w

  after_pop :
      DeliveryQueueService Q
      → (ℕ → World Q → Drained Q)
      → ℕ
      → Result (Option QueuedJob) × World Q
      → Drained Q
  after_pop s again processed (err e, w) = ((processed, some (wrap "pop delivery job" e)), w)
  after_pop s again processed (ok none, w) = ((processed, none), w)
  after_pop s again processed (ok (some job), w) = after_job again processed (process_job s job w)

  drain_loop : DeliveryQueueService Q → ℕ → ℕ → World Q → Drained Q
  drain_loop s zero processed w = ((processed, none), w)
  drain_loop s (suc left) processed w =
      after_pop s (drain_loop s left) processed (s.driver.pop delivery_queue_name w)

  -- `Drain` for a limit above 0. The call without a limit, which ends only when the queue is empty,
  -- is left out.
  unfoldable pub drain : DeliveryQueueService Q → ℕ → World Q → Drained Q
  unfolding drain_loop after_pop after_job
  drain s limit w = drain_loop s limit 0 w
