-- ===== src/Queue/Replay/Policy/Sound.antt =====
-- What a replay that succeeds has passed and left.
use fragments_engine.Common.{
  ℕ, ◌≡◌, refl, sym, ap, ◌∙◌, Bool, true, false, Option, none, some, [], ◌∷◌, ◌++◌, if◌then◌else◌,
}
use fragments_engine.Common.Error.{plain, Result, ok, err}
use fragments_engine.Delivery.Types.{Destination}
use fragments_engine.Delivery.Policy.{effective_queue_config}
use fragments_engine.Store.Action.{World, Action, pure, raise}
use fragments_engine.Store.Action.Hoare.{
  Hoare, Hoare-pure, Hoare-bind, Hoare-write, Hoare-wrapped, Hoare-weaken, Ends,
}
use fragments_engine.Store.Statements.{get_destination, insert_event, or_no_rows}
use fragments_engine.Queue.Types.{
  DeliveryJobPayload, FailedJob, DestinationStatus, DeliveryQueueService,
}
use fragments_engine.Queue.Job.{log_event, event_of, no_detail, now}
use fragments_engine.Queue.Job.Laws.{IsDriver, OnlyQueue}
use fragments_engine.Queue.Replay.{
  cooling, requeue, find_failed, validate_replay_policy, get_destination_status, check_status,
  preflight, replay_failed,
}
use fragments_engine.Store.Action.Reads.{
  Read, Anything, ReadsOnly, given, read, reads_only, lifted, stops, ends_sound,
}
use fragments_engine.Queue.Replay.Policy.{
  Allowed, check_cooldown-cooled, check_limit-below, cooling-false,
}

module _ {Q : Type 0} (s : DeliveryQueueService Q) (u : World Q) where
  validate_replay_policy-Allowed :
      (d : Destination)
      → Hoare (Read u) (validate_replay_policy s d) (λ done w. Read u w × Allowed s d u) Anything
  unfolding validate_replay_policy
  validate_replay_policy-Allowed d = Hoare-bind _ _ (check_cooldown-cooled u d _) (λ done.
      given _ (λ cooled.
        Hoare-weaken _ (check_limit-below u d _)
          (λ a w h. (
            h.0,
            record {
              below = h.1;
              cooled = λ last newest least most. cooling-false u.now last _ least most (
                  ap
                    (cooling u.now
                      (effective_queue_config s.outside.json d s.cfg).replay_cooldown_seconds)
                    (sym newest)
                  ∙ cooled least);
            },
          ))
          (λ w h. tt)))

  check_status-Read :
      (status : DestinationStatus) → Hoare (Read u) (check_status status) (λ done. Read u) Anything
  unfolding check_status
  check_status-Read status = go status.config_valid status.reachable
    where
      go :
          (valid reachable : Bool)
          → Hoare
              (Read u)
              (if valid
                then (if reachable then pure tt else raise (plain "destination unreachable"))
                else raise (plain "destination config invalid"))
              (λ done. Read u)
              Anything
      go true true = Hoare-pure tt (λ w h. h)
      go true false = stops u _
      go false reachable = stops u _

  preflight-Allowed :
      (force : Bool) (d : Destination)
      → ((d : Destination) → ReadsOnly (s.destination_status d))
      → Hoare
          (Read u)
          (preflight s force d)
          (λ done w. Read u w × (force ≡ false → Allowed s d u))
          Anything
  unfolding preflight get_destination_status get_destination
  preflight-Allowed true d reads = Hoare-pure tt (λ w h. (h, λ e. absurd cc))
  preflight-Allowed false d reads =
      Hoare-bind _ _
        (Hoare-wrapped _ _ (
          Hoare-bind _ _ (read u (λ w. or_no_rows (w.destinations d.id)) (λ w faults. refl))
            (λ item. given _ (λ e. reads_only u _ (reads item)))))
        (λ status. Hoare-bind _ _ (check_status-Read status) (λ done.
          Hoare-weaken _ (Hoare-wrapped _ _ (validate_replay_policy-Allowed d))
            (λ a w h. (h.0, λ e. h.1)) (λ w h. tt)))

-- A replay of dead letter `id` that succeeded: the row it took, its payload and destination, and the
-- event it left.
pub record Replayed {Q : Type 0} (s : DeliveryQueueService Q) (id : ℕ) (force : Bool)
    (u w : World Q) : Type 0 where
  pub job : FailedJob
  pub payload : DeliveryJobPayload
  pub destination : Destination
  pub listed : find_failed id (s.driver.failed_jobs u.queue) ≡ some job
  pub decoded : s.driver.decode_payload job.payload ≡ ok payload
  pub known : u.destinations payload.destination_id ≡ some destination
  pub allowed : force ≡ false → Allowed s destination u
  pub logged : w.events ≡ u.events ++ event_of u.now (some id) payload "replay" no_detail ∷ []

or_no_rows-some : {A : Type 0} (o : Option A) (a : A) → or_no_rows o ≡ ok a → o ≡ some a
or_no_rows-some none a e = absurd cc
or_no_rows-some (some b) a e = cc

module _ {Q : Type 0} (s : DeliveryQueueService Q) (id : ℕ) (force : Bool) (u : World Q) where
  abbrev Pushed : World Q → Type 0
  Pushed w = (w.events ≡ u.events) × (w.now ≡ u.now)

  abbrev Logged : DeliveryJobPayload → World Q → Type 0
  Logged payload w = w.events ≡ u.events ++ event_of u.now (some id) payload "replay" no_detail ∷ []

  pushed : (m : Action Q (Unit {0})) → OnlyQueue m → Hoare (Read u) m (λ done. Pushed) Anything
  pushed m only = record {
    at = λ w e. ends (m w) (only.events w ∙ ap (λ v. v.events) e, only.now w ∙ ap (λ v. v.now) e);
  }
    where
      ends : (out : Result (Unit {0}) × World Q) → Pushed out.1 → Ends (λ done. Pushed) Anything out
      ends (ok done, w) h = h
      ends (err e, w) h = tt

  logged :
      (payload : DeliveryJobPayload)
      → Hoare Pushed
          (log_event (some id) payload "replay" no_detail)
          (λ done. Logged payload)
          Anything
  unfolding log_event now insert_event
  logged payload =
      Hoare-bind {R = λ t w. Pushed w × (t ≡ u.now)} _ _ (record { at = λ w h. (h, h.1) })
        (λ t. Hoare-wrapped _ _ (
          Hoare-write _
            (λ w (h, e).
              ap (λ events. events ++ event_of t (some id) payload "replay" no_detail ∷ []) h.0
              ∙ ap (λ t. u.events ++ event_of t (some id) payload "replay" no_detail ∷ []) e)
            (λ w h. tt) (λ w faults h. h) (λ w faults h. h)))

  requeue-Replayed :
      (job : FailedJob) (payload : DeliveryJobPayload)
      → or_no_rows (find_failed id (s.driver.failed_jobs u.queue)) ≡ ok job
      → s.driver.decode_payload job.payload ≡ ok payload
      → IsDriver s.driver
      → ((d : Destination) → ReadsOnly (s.destination_status d))
      → Hoare (Read u) (requeue s id force job payload) (λ done. Replayed s id force u) Anything
  unfolding requeue get_destination
  requeue-Replayed job payload listed decoded law reads =
      Hoare-bind _ _
        (Hoare-wrapped _ _
          (read u (λ w. or_no_rows (w.destinations payload.destination_id)) (λ w faults. refl)))
        (λ d. given _ (λ known. Hoare-bind _ _ (preflight-Allowed s u force d reads) (λ done.
          given _ (λ allowed.
            Hoare-bind _ _ (Hoare-wrapped _ _ (pushed _ (law.push _ _ _ _))) (λ done.
              Hoare-bind _ _ (Hoare-wrapped _ _ (logged payload)) (λ done. Hoare-wrapped _ _ (
                Hoare-write _
                  (λ w h. record {
                    job = job;
                    payload = payload;
                    destination = d;
                    listed = or_no_rows-some _ _ listed;
                    decoded = decoded;
                    known = or_no_rows-some _ _ known;
                    allowed = allowed;
                    logged = h;
                  })
                  (λ w h. tt) (λ w faults h. h)
                  (λ w faults h. record {
                    job = h.job;
                    payload = h.payload;
                    destination = h.destination;
                    listed = h.listed;
                    decoded = h.decoded;
                    known = h.known;
                    allowed = h.allowed;
                    logged = h.logged;
                  }))))))))

  replay_failed_sound :
      IsDriver s.driver
      → ((d : Destination) → ReadsOnly (s.destination_status d))
      → Hoare (Read u) (replay_failed s id force) (λ done. Replayed s id force u) Anything
  unfolding replay_failed
  replay_failed_sound law reads =
      Hoare-bind _ _
        (Hoare-wrapped _ _ (
          read u (λ w. or_no_rows (find_failed id (s.driver.failed_jobs w.queue)))
            (λ w faults. refl)))
        (λ job. given _ (λ listed.
          Hoare-bind _ _ (Hoare-wrapped _ _ (lifted u (s.driver.decode_payload job.payload)))
            (λ payload.
              given _ (λ decoded. requeue-Replayed job payload listed decoded law reads))))

-- A replay of a dead letter that returns without an error took a listed dead letter whose payload
-- decodes and whose destination exists, and appended just one replay event for it. Without `force`
-- the destination had fewer replays in the last hour than its policy allows, and its cooldown (of at
-- most 9223372036 seconds, where Go's duration does not wrap around) was over. The queue's driver
-- changes only its own tables, and a destination's status is only read.
pub replay_failed-Replayed :
    {Q : Type 0} (s : DeliveryQueueService Q) (id : ℕ) (force : Bool) (w : World Q)
    → IsDriver s.driver
    → ((d : Destination) → ReadsOnly (s.destination_status d))
    → (replay_failed s id force w).0 ≡ ok tt
    → Replayed s id force w (replay_failed s id force w).1
replay_failed-Replayed s id force w law reads done =
    ends_sound (Replayed s id force w) (replay_failed s id force w) tt
      ((replay_failed_sound s id force w law reads).at w refl) done
