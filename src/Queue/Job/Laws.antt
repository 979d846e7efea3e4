-- ===== src/Queue/Job/Laws.antt =====
-- What the service relies on of its driver.
use fragments_engine.Common.{◌≡◌, refl, ◌∙◌, String}
use fragments_engine.Delivery.Types.{DeliveryRetryConfig}
use fragments_engine.Store.Action.{World, Action}
use fragments_engine.Store.Action.Preserves.{
  Preserves, Preserves-pure, Preserves-raise, Preserves-bind, Preserves-attempt, Preserves-write,
}
use fragments_engine.Store.Statements.{insert_event}
use fragments_engine.Routing.Tables.{SameTables, IsRetrier, KeepsDestinations}
use fragments_engine.Queue.Types.{Driver, QueuedJob, DeliveryQueueService}
use fragments_engine.Queue.Job.{enqueue_destination_retry, log_event, now, QueueEventDetail}

-- A call of the driver changes only the driver's own tables.
pub record OnlyQueue {Q A : Type 0} (m : Action Q A) : Type 0 where
  pub tables : (w : World Q) → SameTables w (m w).1
  pub events : (w : World Q) → (m w).1.events ≡ w.events
  pub now : (w : World Q) → (m w).1.now ≡ w.now

pub record IsDriver {Q : Type 0} (d : Driver Q) : Type 0 where
  pub push :
      (job_type payload queue : String) (max_tries : _)
      → OnlyQueue (d.push job_type payload queue max_tries)
  pub pop : (queue : String) → OnlyQueue (d.pop queue)
  pub delete : (id : _) → OnlyQueue (d.delete id)
  pub release : (id delay : _) → OnlyQueue (d.release id delay)
  pub failed : (job : QueuedJob) (e : _) → OnlyQueue (d.failed job e)

module _ {Q : Type 0} (P : World Q → Type 0)
    (framed : (w w' : World Q) → SameTables w w' → P w → P w') where
  -- The service's own rows in `queue_job_events` are none of those columns.
  pub log_event-framed :
      (id : _) (payload : _) (event_type : String) (detail : QueueEventDetail)
      → Preserves P (log_event id payload event_type detail)
  unfolding log_event insert_event now
  log_event-framed id payload event_type detail =
      Preserves-bind _ _ (record { at = λ w h. h })
        (λ t.
          Preserves-attempt _ _ _
            (Preserves-write
              (λ w faults. framed w _ (record {
                calls = refl;
                status = refl;
                inbox = refl;
                route_log = refl;
                aliases = refl;
              }))
              _
              (λ w. framed w _ (record {
                calls = refl;
                status = refl;
                inbox = refl;
                route_log = refl;
                aliases = refl;
              })))
            (λ a. Preserves-pure _) (λ e. Preserves-raise _))

  pub driver-framed : {A : Type 0} (m : Action Q A) → OnlyQueue m → Preserves P m
  driver-framed m only = record { at = λ w. framed w _ (only.tables w) }

SameTables-trans : {Q : Type 0} (u v w : World Q) → SameTables u v → SameTables v w → SameTables u w
SameTables-trans u v w a b = record {
  calls = b.calls ∙ a.calls;
  status = b.status ∙ a.status;
  inbox = b.inbox ∙ a.inbox;
  route_log = b.route_log ∙ a.route_log;
  aliases = b.aliases ∙ a.aliases;
}

enqueue_destination_retry-Preserves :
    {Q : Type 0} (s : DeliveryQueueService Q) (u : World Q) (fragment route destination : String)
    (retry : DeliveryRetryConfig)
    → IsDriver s.driver
    → Preserves (SameTables u) (enqueue_destination_retry s fragment route destination retry)
unfolding enqueue_destination_retry
enqueue_destination_retry-Preserves s u fragment route destination retry law =
    Preserves-bind _ _ (driver-framed _ go _ (law.push _ _ _ _)) (λ done.
      Preserves-attempt _ _ _ (log_event-framed _ go _ _ _ _) (λ a. Preserves-pure _)
        (λ e. Preserves-raise _))
  where
    go : (v w : World _) → SameTables v w → SameTables u v → SameTables u w
    go v w b a = SameTables-trans u v w a b

-- The service's `EnqueueDestinationRetry` is a retrier as the route stage needs one: whether it
-- succeeds or fails, no status, inbox row, alias or log entry of routing changes and no executor is
-- called, given a driver that changes only its own tables.
pub enqueue_destination_retry-IsRetrier :
    {Q : Type 0} (s : DeliveryQueueService Q)
    → IsDriver s.driver
    → IsRetrier (enqueue_destination_retry s)
enqueue_destination_retry-IsRetrier s law = record {
  same = λ fragment route destination retry w.
      (enqueue_destination_retry-Preserves s w fragment route destination retry law).at w
        (record { calls = refl; status = refl; inbox = refl; route_log = refl; aliases = refl });
}

-- So too the destinations, given a driver whose push leaves them alone.
enqueue_destination_retry-KeepsDestinations :
    {Q : Type 0} (s : DeliveryQueueService Q)
    → ((job_type payload queue : String) (max_tries : _) (w : World Q)
        → (s.driver.push job_type payload queue max_tries w).1.destinations ≡ w.destinations)
    → KeepsDestinations (enqueue_destination_retry s)
unfolding enqueue_destination_retry log_event insert_event now
enqueue_destination_retry-KeepsDestinations s push = record {
  same = λ fragment route destination retry w.
      (Preserves-bind {P = λ v. v.destinations ≡ w.destinations} _ _
          (record { at = λ v h. push _ _ _ _ v ∙ h })
          (λ done.
            Preserves-attempt _ _ _
              (Preserves-bind _ _ (record { at = λ v h. h })
                (λ t.
                  Preserves-attempt _ _ _ (Preserves-write (λ v faults h. h) _ (λ v h. h))
                    (λ a. Preserves-pure _) (λ e. Preserves-raise _)))
              (λ a. Preserves-pure _) (λ e. Preserves-raise _))).at
        w refl;
}
