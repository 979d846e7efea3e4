-- ===== src/Queue/Replay/Policy.antt =====
-- What a replay without `force` has to pass.
pub mod Sound
use fragments_engine.Common.{
  ℕ, ◌+◌, ◌*◌, ◌≤◌, ◌<◌, String, ◌≡◌, refl, sym, ap, ◌∙◌, Bool, true, false, Option, none, some,
  List, [], ◌∷◌, ◌++◌, arith, Bool-cases, if◌then◌else◌, inl, inr,
}
use fragments_engine.Common.Int.{ℤ, pos, pos_part, ltb_ℤ, leb_ℤ, ◌≤ℤ◌}
use fragments_engine.Common.Error.{Err, plain, Result, ok, err}
use fragments_engine.Delivery.Types.{Destination, QueueConfig}
use fragments_engine.Delivery.Policy.{destination_retry_config, effective_queue_config}
use fragments_engine.Store.Action.{
  World, Action, QueueJobEvent, pure, raise, lift, query, write, wrapped,
}
use fragments_engine.Store.Action.Preserves.{Blind}
use fragments_engine.Store.Action.Hoare.{
  Hoare, Hoare-pure, Hoare-bind, Hoare-query, Hoare-write, Hoare-wrapped, Hoare-weaken, Ends,
}
use fragments_engine.Store.Statements.{get_destination, insert_event, or_no_rows}
use fragments_engine.Store.Action.Reads.{Read, Anything, given, read, stops}
use fragments_engine.Queue.Types.{
  DeliveryJobPayload, FailedJob, DestinationStatus, DeliveryQueueService,
}
use fragments_engine.Queue.Job.{log_event, event_of, no_detail, now, max_tries_of, QueueEventDetail}
use fragments_engine.Queue.Job.Laws.{IsDriver, OnlyQueue}
use fragments_engine.Queue.Replay.{
  find_failed, last_replay, recent_replays, duration, before_end, cooling, check_cooldown,
  check_limit, validate_replay_policy, get_destination_status, check_status, preflight,
  replay_failed, cooldown_active, limit_exceeded,
}

-- The limits of a destination's policy hold: fewer replays in the last hour than it allows, and the
-- cooldown after the last one is over.
pub record Allowed {Q : Type 0} (s : DeliveryQueueService Q) (d : Destination) (w : World Q)
    : Type 0 where
  pub below :
      pos (recent_replays d.id w.now w.events + 1)
      ≤ℤ (effective_queue_config s.outside.json d s.cfg).max_replays_per_hour
  pub cooled :
      (last : ℕ)
      → last_replay d.id w.events ≡ some last
      → pos 1 ≤ℤ (effective_queue_config s.outside.json d s.cfg).replay_cooldown_seconds
      → (effective_queue_config s.outside.json d s.cfg).replay_cooldown_seconds ≤ℤ pos 9223372036
      → last + pos_part (effective_queue_config s.outside.json d s.cfg).replay_cooldown_seconds
        ≤ w.now

below :
    (n count : ℕ) (max_replays : ℤ)
    → ok n ≡ ok count
    → leb_ℤ max_replays (pos count) ≡ false
    → pos (n + 1) ≤ℤ max_replays
below n count max_replays e room = ground arith

pub cooling-false :
    (now last : ℕ) (seconds : ℤ)
    → pos 1 ≤ℤ seconds
    → seconds ≤ℤ pos 9223372036
    → cooling now seconds (some last) ≡ false
    → last + pos_part seconds ≤ now
cooling-false now last seconds least most over = ground arith

module _ {Q : Type 0} (u : World Q) where
  check_cooldown-cooled :
      (d : Destination) (seconds : ℤ)
      → Hoare
          (Read u)
          (check_cooldown d seconds)
          (λ done w.
            Read u w
            × (pos 1 ≤ℤ seconds → cooling u.now seconds (last_replay d.id u.events) ≡ false))
          Anything
  unfolding check_cooldown
  check_cooldown-cooled d seconds = elim (Bool-cases (ltb_ℤ (pos 0) seconds)) [
    | inl set ↦ rw set (
        Hoare-bind _ _
          (Hoare-wrapped _ _ (
            read u (λ w. ok (cooling w.now seconds (last_replay d.id w.events)))
              (λ w faults. refl)))
          (λ active. given _ (λ e. tested active e)))
    | inr unset ↦ rw unset (Hoare-pure tt (λ w h. (h, λ least. ground arith)))
  ]
    where
      tested :
          (active : Bool)
          → ok (cooling u.now seconds (last_replay d.id u.events)) ≡ ok active
          → Hoare
              (Read u)
              (if active then raise cooldown_active else pure tt)
              (λ done w.
                Read u w
                × (pos 1 ≤ℤ seconds → cooling u.now seconds (last_replay d.id u.events) ≡ false))
              Anything
      tested true e = stops u cooldown_active
      tested false e = Hoare-pure tt (λ w h. (h, λ least. cc))

  check_limit-below :
      (d : Destination) (max_replays : ℤ)
      → Hoare
          (Read u)
          (check_limit d max_replays)
          (λ done w. Read u w × (pos (recent_replays d.id u.now u.events + 1) ≤ℤ max_replays))
          Anything
  unfolding check_limit
  check_limit-below d max_replays =
      Hoare-bind _ _
        (Hoare-wrapped _ _
          (read u (λ w. ok (recent_replays d.id w.now w.events)) (λ w faults. refl)))
        (λ count. given _ (λ e. tested count e))
    where
      tested :
          (count : ℕ)
          → ok (recent_replays d.id u.now u.events) ≡ ok count
          → Hoare
              (Read u)
              (if leb_ℤ max_replays (pos count) then raise limit_exceeded else pure tt)
              (λ done w. Read u w × (pos (recent_replays d.id u.now u.events + 1) ≤ℤ max_replays))
              Anything
      tested count e = elim (Bool-cases (leb_ℤ max_replays (pos count))) [
        | inl full ↦ rw full (stops u limit_exceeded)
        | inr room ↦ rw room (
            Hoare-pure tt
              (λ w h. (h, below (recent_replays d.id u.now u.events) count max_replays e room)))
      ]
