-- ===== src/Queue/Job/Drain.antt =====
-- What a drain of the queue does, job by job, and where it ends.
use fragments_engine.Common.{ℕ, zero, suc, ◌+◌, ◌≤◌, ◌≡◌, refl, Option, none, some, arith}
use fragments_engine.Common.Error.{Err, wrap, Result, ok, err}
use fragments_engine.Store.Action.{World}
use fragments_engine.Queue.Types.{QueuedJob, DeliveryQueueService}
use fragments_engine.Queue.Job.{
  Drained, delivery_queue_name, process_job, after_job, after_pop, drain_loop, drain,
}

module _ {Q : Type 0} (s : DeliveryQueueService Q) where
  -- From the tables `u` to the tables `w`, so many jobs were popped in turn, each processed with success
  -- before the next pop.
  pub data Worked : ℕ → World Q → World Q → Type 0 where
    rested : {w : World Q} → Worked zero w w
    worked :
        {n : ℕ} {u popped settled w : World Q} {job : QueuedJob}
        → s.driver.pop delivery_queue_name u ≡ (ok (some job), popped)
        → process_job s job popped ≡ (ok tt, settled)
        → Worked n settled w
        → Worked (suc n) u w

  -- Why a drain stops after its `count`th job, at the tables `v`, with the error and the tables it
  -- answers: the limit, an empty queue, a pop that fails, or a job whose processing fails.
  pub data Stopped (limit count : ℕ) (v : World Q) (error : Option Err) (out : World Q)
      : Type 0 where
    at_limit : count ≡ limit → error ≡ none → out ≡ v → Stopped limit count v error out
    when_empty :
        s.driver.pop delivery_queue_name v ≡ (ok none, out)
        → error ≡ none
        → Stopped limit count v error out
    at_pop :
        (e : Err)
        → s.driver.pop delivery_queue_name v ≡ (err e, out)
        → error ≡ some (wrap "pop delivery job" e)
        → Stopped limit count v error out
    at_job :
        (e : Err) (job : QueuedJob) (popped : World Q)
        → s.driver.pop delivery_queue_name v ≡ (ok (some job), popped)
        → process_job s job popped ≡ (err e, out)
        → error ≡ some e
        → Stopped limit count v error out

  -- The drain from the tables `u`, with `before` jobs counted already.
  pub record DrainedFrom (limit before : ℕ) (u : World Q) (out : Drained Q) : Type 0 where
    pub count : ℕ
    pub last : World Q
    pub total : out.0.0 ≡ count + before
    pub most : out.0.0 ≤ limit
    pub jobs : Worked count u last
    pub stop : Stopped limit out.0.0 last out.0.1 out.1

  -- The drain that stops before another job.
  stops_here :
      (limit processed : ℕ) (u : World Q) (error : Option Err) (w : World Q)
      → processed ≤ limit
      → Stopped limit processed u error w
      → DrainedFrom limit processed u ((processed, error), w)
  stops_here limit processed u error w room why = record {
    count = zero;
    last = u;
    total = omega arith;
    most = room;
    jobs = rested;
    stop = why;
  }

  after_job-DrainedFrom :
      (limit processed : ℕ) (again : ℕ → World Q → Drained Q) (job : QueuedJob) (u popped : World Q)
      (done : Result (Unit {0}) × World Q)
      → s.driver.pop delivery_queue_name u ≡ (ok (some job), popped)
      → process_job s job popped ≡ done
      → processed ≤ limit
      → ((w : World Q) → DrainedFrom limit (suc processed) w (again (suc processed) w))
      → DrainedFrom limit processed u (after_job again processed done)
  unfolding after_job
  after_job-DrainedFrom limit processed again job u popped (ok tt, w) there ran room each =
      let rest = each w in
      record {
        count = suc rest.count;
        last = rest.last;
        total = omega (arith, rest.total);
        most = rest.most;
        jobs = worked there ran rest.jobs;
        stop = rest.stop;
      }
  after_job-DrainedFrom limit processed again job u popped (err e, w) there ran room each =
      stops_here limit processed u (some e) w room (at_job e job popped there ran refl)

  after_pop-DrainedFrom :
      (limit processed : ℕ) (again : ℕ → World Q → Drained Q) (u : World Q)
      (popped : Result (Option QueuedJob) × World Q)
      → s.driver.pop delivery_queue_name u ≡ popped
      → processed ≤ limit
      → ((w : World Q) → DrainedFrom limit (suc processed) w (again (suc processed) w))
      → DrainedFrom limit processed u (after_pop s again processed popped)
  unfolding after_pop
  after_pop-DrainedFrom limit processed again u (err e, w) there room each =
      stops_here limit processed u _ w room (at_pop e there refl)
  after_pop-DrainedFrom limit processed again u (ok none, w) there room each =
      stops_here limit processed u none w room (when_empty there refl)
  after_pop-DrainedFrom limit processed again u (ok (some job), w) there room each =
      after_job-DrainedFrom limit processed again job u w (process_job s job w) there refl room each

  drain_loop-DrainedFrom :
      (limit left processed : ℕ) (u : World Q)
      → left + processed ≡ limit
      → DrainedFrom limit processed u (drain_loop s left processed u)
  unfolding drain_loop
  drain_loop-DrainedFrom limit zero processed u e =
      stops_here limit processed u none u (omega arith) (at_limit (omega arith) refl refl)
  drain_loop-DrainedFrom limit (suc left) processed u e =
      after_pop-DrainedFrom limit processed (drain_loop s left) u
        (s.driver.pop delivery_queue_name u) refl (omega arith)
        (λ w. drain_loop-DrainedFrom limit left (suc processed) w (omega arith))

-- A drain with a limit, whatever fails, answers the number of jobs that it has popped and processed
-- with success, one after the other from the tables it was called on, and that number is at most the
-- limit. It stops for one of four reasons only: the limit is reached, or the next pop finds the queue
-- empty, both without an error; the next pop fails; or the next job fails while it is processed, and is
-- not counted. The last two answer that error, the pop's with its prefix. The tables it leaves are those
-- after that last step.
pub drain-Ended :
    {Q : Type 0} (s : DeliveryQueueService Q) (limit : ℕ) (w : World Q)
    → DrainedFrom s limit zero w (drain s limit w)
unfolding drain
drain-Ended s limit w = drain_loop-DrainedFrom s limit limit 0 w (omega arith)
