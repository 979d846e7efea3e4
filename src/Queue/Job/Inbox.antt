-- ===== src/Queue/Job/Inbox.antt =====
-- A job never takes a fragment that awaits routing out of the inbox.
use fragments_engine.Common.{
  String, ◌≡◌, refl, sym, ap, ◌∙◌, Bool, true, false, Option, none, some, List, [], ◌∷◌,
}
use fragments_engine.Common.Int.{ℤ, pos, leb_ℤ}
use fragments_engine.Common.Error.{Err, Result, ok, err}
use fragments_engine.Delivery.Types.{Fragment, DeliveryResult, PublishedAttachment}
use fragments_engine.Store.Action.{World, Action, wrapped}
use fragments_engine.Store.Action.Preserves.{
  Preserves, Preserves-pure, Preserves-raise, Preserves-bind, Preserves-attempt, Preserves-query,
}
use fragments_engine.Store.Action.Hoare.{
  Hoare, Hoare-bind, Hoare-Preserves, Hoare-attempt, Hoare-weaken, Hoare-wrapped, Hoare-if,
}
use fragments_engine.Store.Waiting.{
  NothingLost, NothingLost-framed, Holds, Holds-framed, MayLeave, remove-NothingLost,
  update_status-MayLeave, ends_same,
}
use fragments_engine.Store.Canonical.{NoChains, Safe, Safe-framed, get_by_id-Holds}
use fragments_engine.Routing.Tables.{SameTables}
use fragments_engine.Routing.RunMatch.Frame.{
  log_decision-framed, get_destination-framed, list_attachments-framed, update_storage_paths-framed,
  execute_destination-framed,
}
use fragments_engine.Queue.Types.{DeliveryJobPayload, QueuedJob, DeliveryQueueService}
use fragments_engine.Queue.Job.Laws.{IsDriver, driver-framed, log_event-framed}
use fragments_engine.Queue.Job.{
  process_job, process_decoded, log_settled, deliver_job, job_attachments, settle_job, paths_of_job,
  fail_job, now, max_tries_of,
}

module _ {Q : Type 0} (s : DeliveryQueueService Q) (law : IsDriver s.driver) (job : QueuedJob) where
  module _ (P : World Q → Type 0)
      (framed : (w w' : World Q)
        → w'.status ≡ w.status
        → w'.inbox ≡ w.inbox
        → w'.aliases ≡ w.aliases
        → P w
        → P w') where
    by_tables : (w w' : World Q) → SameTables w w' → P w → P w'
    by_tables w w' same = framed w w' same.status same.inbox same.aliases

    wrapped-framed :
        {A : Type 0} (prefix : String) (m : Action Q A)
        → Preserves P m
        → Preserves P (wrapped prefix m)
    wrapped-framed prefix m k =
        Preserves-attempt _ _ _ k (λ a. Preserves-pure _) (λ e. Preserves-raise _)

    fail_job-framed :
        (payload : DeliveryJobPayload) (e : Err) → Preserves P (fail_job s job payload e)
    unfolding fail_job now
    fail_job-framed payload e =
        Preserves-bind _ _ (wrapped-framed _ _ (driver-framed P by_tables _ (law.failed job e)))
          (λ done.
            Preserves-bind _ _
              (Preserves-attempt _ _ _ (Preserves-query (λ w faults. framed w _ refl refl refl) _)
                (λ a. Preserves-pure _) (λ e. Preserves-pure _))
              (λ id.
                Preserves-bind _ _ (record { at = λ w h. h })
                  (λ t.
                    Preserves-bind _ _ (wrapped-framed _ _ (log_decision-framed P framed _))
                      (λ done. wrapped-framed _ _ (log_event-framed P by_tables _ _ _ _)))))

    log_settled-framed :
        (payload : DeliveryJobPayload) (result : DeliveryResult)
        → Preserves P (log_settled s job payload result)
    unfolding log_settled now
    log_settled-framed payload result =
        Preserves-bind _ _ (record { at = λ w h. h })
          (λ t. Preserves-bind _ _ (wrapped-framed _ _ (log_decision-framed P framed _)) (λ done.
            Preserves-bind _ _
              (wrapped-framed _ _ (driver-framed P by_tables _ (law.delete job.id)))
              (λ done. wrapped-framed _ _ (log_event-framed P by_tables _ _ _ _))))

    release-framed :
        (delay : ℤ) → Preserves P (wrapped "release queued job" (s.driver.release job.id delay))
    release-framed delay =
        wrapped-framed _ _ (driver-framed P by_tables _ (law.release job.id delay))

    job_attachments-framed :
        (b : Bool) (fragment_id : String) → Preserves P (job_attachments b fragment_id)
    unfolding job_attachments
    job_attachments-framed false fragment_id = Preserves-pure _
    job_attachments-framed true fragment_id = list_attachments-framed P framed fragment_id

    paths_of_job-framed :
        (b : Bool) (fragment_id : String) (ps : List PublishedAttachment)
        → Preserves P (paths_of_job b fragment_id ps)
    unfolding paths_of_job
    paths_of_job-framed false fragment_id ps = Preserves-pure _
    paths_of_job-framed true fragment_id [] = Preserves-pure _
    paths_of_job-framed true fragment_id (p ∷ ps) =
        wrapped-framed _ _ (update_storage_paths-framed P framed fragment_id (p ∷ ps))

  -- From here on the fragment is the canonical one.
  module _ (payload : DeliveryJobPayload) where
    abbrev Before : World Q → Type 0
    Before = Holds payload.fragment_id

    framed :
        (w w' : World Q)
        → w'.status ≡ w.status
        → w'.inbox ≡ w.inbox
        → w'.aliases ≡ w.aliases
        → Before w
        → Before w'
    framed = Holds-framed payload.fragment_id

    MayLeave-framed :
        (w w' : World Q)
        → w'.status ≡ w.status
        → w'.inbox ≡ w.inbox
        → w'.aliases ≡ w.aliases
        → MayLeave payload.fragment_id w
        → MayLeave payload.fragment_id w'
    MayLeave-framed w w' same_status same_inbox same_aliases (kept, out) = (
      NothingLost-framed w w' same_status same_inbox same_aliases kept,
      λ waits. out (ap (λ t. t payload.fragment_id) (sym same_status) ∙ waits),
    )

    Preserves-Before :
        {A : Type 0} (m : Action Q A)
        → Preserves Before m
        → Hoare Before m (λ _. NothingLost) NothingLost
    Preserves-Before m k =
        Hoare-weaken m (Hoare-Preserves m k (λ w h. h.0)) (λ a w h. h.0) (λ w h. h)

    Preserves-NothingLost :
        {A : Type 0} (m : Action Q A)
        → Preserves NothingLost m
        → Hoare NothingLost m (λ _. NothingLost) NothingLost
    Preserves-NothingLost m k = Hoare-Preserves m k (λ w h. h)

    settle_job-NothingLost :
        (out : DeliveryResult × Option Err)
        → Hoare Before (settle_job s job payload out) (λ _. NothingLost) NothingLost
    unfolding settle_job
    settle_job-NothingLost (result, none) =
        Hoare-bind _ _ (Hoare-wrapped _ _ (update_status-MayLeave payload.fragment_id)) (λ done.
          Hoare-bind _ _
            (Hoare-Preserves _
              (paths_of_job-framed (MayLeave payload.fragment_id) MayLeave-framed s.has_attachments
                payload.fragment_id result.published_attachments)
              (λ w h. h.0))
            (λ done.
              Hoare-bind _ _ (Hoare-wrapped _ _ (remove-NothingLost payload.fragment_id)) (λ done.
                Preserves-NothingLost _
                  (log_settled-framed NothingLost NothingLost-framed payload result))))
    settle_job-NothingLost (result, some e) =
        Hoare-if (leb_ℤ (max_tries_of job.max_tries) (pos job.attempts)) _ _
          (Preserves-Before _ (fail_job-framed Before framed payload e))
          (Preserves-Before _ (release-framed Before framed payload.backoff_ms))

    fail_job-Before :
        (e : Err) → Hoare Before (fail_job s job payload e) (λ _. NothingLost) NothingLost
    fail_job-Before e = Preserves-Before _ (fail_job-framed Before framed payload e)

    deliver_job-NothingLost :
        (fragment : Fragment)
        → Hoare Before (deliver_job s job payload fragment) (λ _. NothingLost) NothingLost
    unfolding deliver_job
    deliver_job-NothingLost fragment =
        Hoare-attempt _ _ _ (Hoare-Preserves _ (get_destination-framed Before framed _) (λ w h. h))
          (λ destination.
            Hoare-attempt _ _ _
              (Hoare-Preserves _
                (job_attachments-framed Before framed s.has_attachments payload.fragment_id)
                (λ w h. h))
              (λ attachments.
                Hoare-bind _ _
                  (Hoare-Preserves _ (execute_destination-framed Before framed _ _ _ _)
                    (λ w h. h.0))
                  settle_job-NothingLost)
              (λ e. fail_job-Before _))
          (λ e. fail_job-Before _)

  process_decoded-NothingLost :
      (decoded : Result DeliveryJobPayload)
      → Hoare Safe (process_decoded s job decoded) (λ _. NothingLost) NothingLost
  unfolding process_decoded
  process_decoded-NothingLost (err e) =
      Hoare-weaken _
        (Hoare-Preserves _
          (Preserves-attempt _ _ _
            (driver-framed Safe (λ w w' same. Safe-framed w w' same.status same.inbox same.aliases)
              _ (law.failed job e))
            (λ done. Preserves-raise _) (λ f. Preserves-raise _))
          (λ w h. h.0))
        (λ a w h. h.0) (λ w h. h)
  process_decoded-NothingLost (ok payload) =
      Hoare-attempt _ _ _ (get_by_id-Holds payload.fragment_id)
        (λ fragment.
          deliver_job-NothingLost (record payload { fragment_id = fragment.id }) fragment)
        (λ e.
          Hoare-weaken _
            (Hoare-Preserves _
              (fail_job-framed Safe (λ w w' a b c. Safe-framed w w' a b c) payload _) (λ w h. h.0))
            (λ a w h. h.0) (λ w h. h))

-- If every fragment that awaits routing has its inbox row before a queued job is processed, then it
-- has after it too: whatever statement, queue call or delivery fails, whether the job is delivered,
-- released or dead-lettered. The queue's driver changes only its own tables, and aliases name
-- fragments that are no aliases.
pub process_job-NothingLost :
    {Q : Type 0} (s : DeliveryQueueService Q) (job : QueuedJob) (w : World Q)
    → IsDriver s.driver
    → NoChains w
    → NothingLost w
    → NothingLost (process_job s job w).1
unfolding process_job
process_job-NothingLost s job w law flat kept =
    ends_same NothingLost (process_decoded s job (s.driver.decode_payload job.payload) w) (
      (process_decoded-NothingLost s law job (s.driver.decode_payload job.payload)).at w
        (kept, flat))
