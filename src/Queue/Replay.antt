-- ===== src/Queue/Replay.antt =====
-- `ReplayFailed` and `validateReplayPolicy`: a dead letter goes back into the queue.
pub mod Policy
use fragments_engine.Common.{
  ℕ, suc, ◌+◌, ◌-◌, ◌*◌, ◌%◌, ◌^◌, String, Bool, true, false, Option, none, some, List, [], ◌∷◌,
  str_eq, ltb, leb, ◌==◌, ◌&&◌, if◌then◌else◌,
}
use fragments_engine.Common.Int.{ℤ, pos, negsuc, pos_part, neg_part, ltb_ℤ, leb_ℤ}
use fragments_engine.Common.Error.{Err, plain, wrap, Result, ok, err}
use fragments_engine.Delivery.Types.{Destination, DeliveryRetryConfig, QueueConfig}
use fragments_engine.Delivery.Policy.{destination_retry_config, effective_queue_config}
use fragments_engine.Store.Action.{
  World, Action, QueueJobEvent, pure, raise, lift, query, write, wrapped, ◌>>=◌, ◌>>◌,
}
use fragments_engine.Store.Statements.{get_destination, or_no_rows}
use fragments_engine.Queue.Types.{
  DeliveryJobPayload, FailedJob, DestinationStatus, DeliveryQueueService,
}
use fragments_engine.Queue.Job.{log_event, no_detail, max_tries_of}

abbrev pub find_failed : ℕ → List FailedJob → Option FailedJob
find_failed id [] = none
find_failed id (job ∷ jobs) =
    let rest = find_failed id jobs in if job.id == id then some job else rest

abbrev is_replay : String → QueueJobEvent → Bool
is_replay destination_id e = str_eq e.destination_id destination_id && str_eq e.event_type "replay"

abbrev or_else : Option ℕ → ℕ → Option ℕ
or_else none n = some n
or_else (some m) n = some m

-- The newest replay of a destination; the events stand oldest first.
unfoldable pub last_replay : String → List QueueJobEvent → Option ℕ
last_replay destination_id [] = none
last_replay destination_id (e ∷ events) =
    let later = last_replay destination_id events in
    if is_replay destination_id e then or_else later e.created_at else later

-- The replays of a destination from one hour before `now` on.
unfoldable pub recent_replays : String → ℕ → List QueueJobEvent → ℕ
recent_replays destination_id now [] = 0
recent_replays destination_id now (e ∷ events) =
    let rest = recent_replays destination_id now events in
    if is_replay destination_id e && leb now (e.created_at + 3600) then suc rest else rest

abbrev nanos_per_second : ℕ
nanos_per_second = 1000000000

abbrev signed64 : ℕ → ℤ
signed64 n = if ltb n (2 ^ 63) then pos n else negsuc (2 ^ 64 - n - 1)

-- `time.Duration(seconds) * time.Second` wraps around at 64 bits. Only a count above 0 gets here.
abbrev pub duration : ℤ → ℤ
duration seconds = signed64 (pos_part seconds * nanos_per_second % 2 ^ 64)

-- `now.Before(last.Add(d))` of two times in seconds and a duration in nanoseconds.
abbrev pub before_end : ℕ → ℕ → ℤ → Bool
before_end now last d =
    ltb (now * nanos_per_second + neg_part d) (last * nanos_per_second + pos_part d)

abbrev cooling : ℕ → ℤ → Option ℕ → Bool
cooling now seconds none = false
cooling now seconds (some last) = before_end now last (duration seconds)

abbrev pub cooldown_active : Err
cooldown_active = plain "replay cooldown active"

abbrev pub limit_exceeded : Err
limit_exceeded = plain "exceeded replay limit"

module _ {Q : Type 0} where
  check_cooldown : Destination → ℤ → Action Q (Unit {0})
  unfolding last_replay
  check_cooldown d seconds =
      if ltb_ℤ (pos 0) seconds
      then (wrapped "check replay cooldown"
            (query λ w. ok (cooling w.now seconds (last_replay d.id w.events)))
          >>= λ active. if active then raise cooldown_active else pure tt)
      else pure tt

  check_limit : Destination → ℤ → Action Q (Unit {0})
  unfolding recent_replays
  check_limit d max_replays =
      wrapped "count recent replays" (query λ w. ok (recent_replays d.id w.now w.events))
      >>= λ count. if leb_ℤ max_replays (pos count) then raise limit_exceeded else pure tt

  unfoldable pub validate_replay_policy : DeliveryQueueService Q → Destination → Action Q (Unit {0})
  unfolding check_cooldown check_limit
  validate_replay_policy s d = do
    let policy = effective_queue_config s.outside.json d s.cfg
    check_cooldown d policy.replay_cooldown_seconds
    check_limit d policy.max_replays_per_hour

  get_destination_status : DeliveryQueueService Q → String → Action Q DestinationStatus
  get_destination_status s id = get_destination id >>= s.destination_status

  check_status : DestinationStatus → Action Q (Unit {0})
  check_status status =
      if status.config_valid
      then (if status.reachable then pure tt else raise (plain "destination unreachable"))
      else raise (plain "destination config invalid")

  preflight : DeliveryQueueService Q → Bool → Destination → Action Q (Unit {0})
  preflight s true d = pure tt
  preflight s false d = do
    status ← wrapped "preflight destination status" (get_destination_status s d.id)
    check_status status
    wrapped "retry with force to override" (validate_replay_policy s d)

  requeue : DeliveryQueueService Q → ℕ → Bool → FailedJob → DeliveryJobPayload → Action Q (Unit {0})
  requeue s id force job payload = do
    destination ← wrapped "get replay destination" (get_destination payload.destination_id)
    preflight s force destination
    let retry = destination_retry_config s.outside.json destination s.delivery
    wrapped "requeue failed delivery job"
        (s.driver.push job.job_type job.payload job.queue (max_tries_of retry.max_attempts))
    wrapped "log replay queue event" (log_event (some id) payload "replay" no_detail)
    wrapped "delete failed delivery job after replay"
        (write λ w. record w { queue = s.driver.remove_failed id w.queue })

  unfoldable pub replay_failed : DeliveryQueueService Q → ℕ → Bool → Action Q (Unit {0})
  unfolding requeue preflight check_status get_destination_status
  replay_failed s id force = do
    job ←
        wrapped "get failed delivery job"
          (query λ w. or_no_rows (find_failed id (s.driver.failed_jobs w.queue)))
    payload ← wrapped "decode failed delivery payload" (lift (s.driver.decode_payload job.payload))
    requeue s id force job payload

  unfoldable pub purge_failed : DeliveryQueueService Q → ℕ → Action Q (Unit {0})
  purge_failed s id = do
    job ←
        wrapped "get failed delivery job for purge"
          (query λ w. or_no_rows (find_failed id (s.driver.failed_jobs w.queue)))
    payload ←
        wrapped "decode failed delivery payload for purge"
          (lift (s.driver.decode_payload job.payload))
    wrapped "log purge queue event" (log_event (some id) payload "purge" no_detail)
    wrapped "purge failed delivery job"
        (write λ w. record w { queue = s.driver.remove_failed id w.queue })
