-- ===== src/Queue/Examples.antt =====
-- A queue on two lists as the driver, and each theorem on it.
use fragments_engine.Common.{
  ◌≡◌, refl, true, false, Option, none, some, List, [], ◌∷◌, ◌++◌, length,
}
use fragments_engine.Common.Int.{pos}
use fragments_engine.Common.Error.{ok}
use fragments_engine.Delivery.Policy.Retry.{no_defaults}
use fragments_engine.Delivery.Examples.{outside}
use fragments_engine.Delivery.Policy.{effective_queue_config}
use fragments_engine.Store.Action.{World, ◌>>=◌, attempt, query, pure, lift, write}
use fragments_engine.Store.Statements.{get_destination, insert_event}
use fragments_engine.Store.Waiting.{NothingLost}
use fragments_engine.Store.Canonical.{NoChains}
use fragments_engine.Routing.Tables.{IsRetrier, SameTables}
use fragments_engine.Routing.Examples.{waiting_with, waiting_with-NothingLost}
use fragments_engine.Queue.Types.{
  DeliveryJobPayload, QueuedJob, FailedJob, Driver, DeliveryQueueService,
}
use fragments_engine.Queue.Job.{
  log_event, process_job, enqueue_destination_retry, delivery_queue_name,
}
use fragments_engine.Queue.Job.Laws.{IsDriver, enqueue_destination_retry-IsRetrier}
use fragments_engine.Queue.Job.Drain.{DrainedFrom, drain-Ended}
use fragments_engine.Queue.Job.{drain}
use fragments_engine.Queue.Job.Inbox.{process_job-NothingLost}
use fragments_engine.Queue.Replay.{replay_failed, validate_replay_policy}
use fragments_engine.Queue.Replay.Policy.Sound.{Replayed, replay_failed-Replayed}

-- The jobs that wait and those that failed.
pub record Shelf : Type 0 where
  pub pending : List QueuedJob
  pub dead : List FailedJob

abbrev f1_payload : DeliveryJobPayload
f1_payload = record {
  fragment_id = "f1";
  route_id = "r1";
  destination_id = "d1";
  backoff_ms = pos 100;
}

abbrev first : List QueuedJob → Option QueuedJob
first [] = none
first (job ∷ jobs) = some job

abbrev others : List QueuedJob → List QueuedJob
others [] = []
others (job ∷ jobs) = jobs

abbrev pub shelf_driver : Driver Shelf
shelf_driver = record {
  encode_payload = λ payload. "f1";
  decode_payload = λ raw. ok f1_payload;
  extract = λ raw field. none;
  push = λ job_type payload queue max_tries w. (
    ok tt,
    record w {
      queue = record w.queue {
        pending =
            w.queue.pending
            ++ (record {
              id = length w.queue.pending;
              payload = payload;
              attempts = 0;
              max_tries = max_tries;
            })
              ∷ [];
      };
    },
  );
  pop = λ queue w. (
    ok (first w.queue.pending),
    record w { queue = record w.queue { pending = others w.queue.pending } },
  );
  delete = λ id w. (ok tt, w);
  release = λ id delay w. (ok tt, w);
  failed = λ job e w. (
    ok tt,
    record w {
      queue = record w.queue {
        dead =
            (record {
              id = job.id;
              queue = delivery_queue_name;
              job_type = delivery_queue_name;
              payload = job.payload;
            })
            ∷ w.queue.dead;
      };
    },
  );
  failed_jobs = λ q. q.dead;
  remove_failed = λ id q. record q { dead = [] };
}

same_tables :
    {Q : Type 0} (w w' : World Q)
    → w'.calls ≡ w.calls
    → w'.status ≡ w.status
    → w'.inbox ≡ w.inbox
    → w'.route_log ≡ w.route_log
    → w'.aliases ≡ w.aliases
    → SameTables w w'
same_tables w w' a b c d e = record { calls = a; status = b; inbox = c; route_log = d; aliases = e }

pub shelf_driver-IsDriver : IsDriver shelf_driver
shelf_driver-IsDriver = record {
  push = λ job_type payload queue max_tries. record {
    tables = λ w. same_tables w _ refl refl refl refl refl;
    events = λ w. refl;
    now = λ w. refl;
  };
  pop = λ queue. record {
    tables = λ w. same_tables w _ refl refl refl refl refl;
    events = λ w. refl;
    now = λ w. refl;
  };
  delete = λ id. record {
    tables = λ w. same_tables w _ refl refl refl refl refl;
    events = λ w. refl;
    now = λ w. refl;
  };
  release = λ id delay. record {
    tables = λ w. same_tables w _ refl refl refl refl refl;
    events = λ w. refl;
    now = λ w. refl;
  };
  failed = λ job e. record {
    tables = λ w. same_tables w _ refl refl refl refl refl;
    events = λ w. refl;
    now = λ w. refl;
  };
}

abbrev pub service : DeliveryQueueService Shelf
service = record {
  driver = shelf_driver;
  outside = outside;
  has_attachments = true;
  delivery = no_defaults;
  cfg = record {
    replay_cooldown_seconds = pos 60;
    max_replays_per_hour = pos 3;
    alert_pending_threshold = pos 10;
    alert_dead_letter_threshold = pos 5;
  };
  destination_status = λ d w. (ok (record { config_valid = true; reachable = true }), w);
}

abbrev job : QueuedJob
job = record { id = 0; payload = "f1"; attempts = 3; max_tries = pos 3 }

abbrev dead_letter : FailedJob
dead_letter = record {
  id = 1;
  queue = delivery_queue_name;
  job_type = delivery_queue_name;
  payload = "f1";
}

abbrev pub shelf : Shelf
shelf = record { pending = []; dead = dead_letter ∷ [] }

pub shelf-NoChains : NoChains (waiting_with [] shelf)
shelf-NoChains a id e = absurd cc

enqueue_destination_retry-IsRetrier_example : IsRetrier (enqueue_destination_retry service)
enqueue_destination_retry-IsRetrier_example =
    enqueue_destination_retry-IsRetrier service shelf_driver-IsDriver

process_job-NothingLost_example : NothingLost (process_job service job (waiting_with [] shelf)).1
process_job-NothingLost_example =
    process_job-NothingLost service job (waiting_with [] shelf) shelf_driver-IsDriver shelf-NoChains
      (waiting_with-NothingLost [] shelf)

replay_succeeds : (replay_failed service 1 false (waiting_with [] shelf)).0 ≡ ok tt
unfolding replay_failed ◌>>=◌ attempt query pure lift get_destination validate_replay_policy
    effective_queue_config log_event insert_event write
replay_succeeds = refl

replay_failed-Replayed_example :
    Replayed service 1 false
      (waiting_with [] shelf)
      (replay_failed service 1 false (waiting_with [] shelf)).1
replay_failed-Replayed_example =
    replay_failed-Replayed service 1 false (waiting_with [] shelf) shelf_driver-IsDriver
      (λ d w. refl) replay_succeeds

abbrev busy : Shelf
busy = record { pending = job ∷ job ∷ []; dead = [] }

drain-Ended_example :
    DrainedFrom service 1 0 (waiting_with [] busy) (drain service 1 (waiting_with [] busy))
drain-Ended_example = drain-Ended service 1 (waiting_with [] busy)
