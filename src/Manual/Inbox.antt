-- ===== src/Manual/Inbox.antt =====
-- A route applied by hand never takes a fragment that awaits routing out of the inbox.
use fragments_engine.Common.{
  ℕ, String, ◌≡◌, sym, ap, ◌∙◌, Bool, true, false, ◌||◌, Option, none, some, List, [], ◌∷◌, str_eq,
}
use fragments_engine.Common.Error.{Err}
use fragments_engine.Delivery.Types.{
  Fragment, FragmentAttachment, DeliveryResult, PublishedAttachment, Destination,
  DeliveryRetryConfig,
}
use fragments_engine.Store.Action.{World, Action, Route, Reason, RouteLogEntry}
use fragments_engine.Store.Action.Preserves.{
  Preserves, Preserves-pure, Preserves-raise, Preserves-bind, Preserves-attempt,
}
use fragments_engine.Store.Action.Hoare.{Hoare, Hoare-bind, Hoare-Preserves, Hoare-weaken, Hoare-if}
use fragments_engine.Store.Waiting.{
  NothingLost, NothingLost-framed, Holds, Holds-framed, MayLeave, remove-NothingLost,
  update_status-MayLeave, ends_same,
}
use fragments_engine.Store.Canonical.{NoChains, Safe, Safe-framed, get_by_id-Holds}
use fragments_engine.Routing.RunMatch.Frame.{
  log_decision-framed, get_destination-framed, list_attachments-framed, get_route-framed,
  update_storage_paths-framed, execute_destination-framed,
}
use fragments_engine.Queue.Types.{DeliveryQueueService}
use fragments_engine.Queue.Job.{enqueue_destination_retry, now}
use fragments_engine.Queue.Job.Laws.{IsDriver, enqueue_destination_retry-IsRetrier}
use fragments_engine.Manual.{
  RoutingService, enqueue_callback_apply, callback_answer, queue_failed, failed_answer,
  paths_of_fragment, finish_apply, apply_attachments, apply_to, deliver_apply, apply_route,
  log_anyway,
}

-- The delivery queue, if there is one, has a lawful driver.
abbrev pub IsQueue? : {Q : Type 0} → Option (DeliveryQueueService Q) → Type 0
IsQueue? none = Unit
IsQueue? (some delivery) = IsDriver delivery.driver

module _ {Q : Type 0} (s : RoutingService Q) where
  module _ (P : World Q → Type 0)
      (framed : (w w' : World Q)
        → w'.status ≡ w.status
        → w'.inbox ≡ w.inbox
        → w'.aliases ≡ w.aliases
        → P w
        → P w') where
    enqueue-framed :
        (delivery : DeliveryQueueService Q) (fragment route destination : String)
        (retry : DeliveryRetryConfig)
        → IsDriver delivery.driver
        → Preserves P (enqueue_destination_retry delivery fragment route destination retry)
    enqueue-framed delivery fragment route destination retry law = record {
      at = λ w h.
          let same =
            (enqueue_destination_retry-IsRetrier delivery law).same fragment route destination retry
              w in
          framed w _ same.status same.inbox same.aliases h;
    }

    log_anyway-framed : (e : RouteLogEntry) → Preserves P (log_anyway e)
    unfolding log_anyway
    log_anyway-framed e =
        Preserves-attempt _ _ _ (log_decision-framed P framed e) (λ a. Preserves-pure _)
          (λ e. Preserves-pure _)

    now-framed : Preserves P now
    unfolding now
    now-framed = record { at = λ w h. h }

    queue_failed-framed :
        (fragment_id : String) (route : Route) (d : Destination) (attempts : ℕ) (e : Err)
        (delivery : Option (DeliveryQueueService Q))
        → IsQueue? delivery
        → Preserves P (queue_failed s fragment_id route d attempts e delivery)
    unfolding queue_failed
    queue_failed-framed fragment_id route d attempts e none law = Preserves-pure _
    queue_failed-framed fragment_id route d attempts e (some delivery) law =
        Preserves-attempt _ _ _ (enqueue-framed delivery _ _ _ _ law) (λ a. Preserves-pure _)
          (λ e. Preserves-pure _)

    callback-framed :
        (fragment_id : String) (route : Route) (d : Destination)
        (delivery : Option (DeliveryQueueService Q))
        → IsQueue? delivery
        → Preserves P
            (enqueue_callback_apply (record s { delivery = delivery }) fragment_id route d)
    unfolding enqueue_callback_apply
    callback-framed fragment_id route d none law = Preserves-pure _
    callback-framed fragment_id route d (some delivery) law =
        Preserves-attempt _ _ _ (enqueue-framed delivery _ _ _ _ law) (λ a. Preserves-pure _)
          (λ e. Preserves-pure _)

    callback_answer-framed :
        (fragment_id : String) (out : Reason × Option Err)
        → Preserves P (callback_answer fragment_id out)
    unfolding callback_answer
    callback_answer-framed fragment_id (reason, none) = Preserves-pure _
    callback_answer-framed fragment_id (reason, some e) = Preserves-raise _

    failed_answer-framed :
        (fragment_id : String) (e : Err) (b : Bool) → Preserves P (failed_answer fragment_id e b)
    unfolding failed_answer
    failed_answer-framed fragment_id e true = Preserves-pure _
    failed_answer-framed fragment_id e false = Preserves-raise _

    paths_of_fragment-framed :
        (b : Bool) (fragment_id : String) (ps : List PublishedAttachment)
        → Preserves P (paths_of_fragment b fragment_id ps)
    unfolding paths_of_fragment
    paths_of_fragment-framed false fragment_id ps = Preserves-pure _
    paths_of_fragment-framed true fragment_id [] = Preserves-pure _
    paths_of_fragment-framed true fragment_id (p ∷ ps) =
        update_storage_paths-framed P framed fragment_id (p ∷ ps)

    apply_attachments-framed :
        (b : Bool) (fragment_id : String) → Preserves P (apply_attachments b fragment_id)
    unfolding apply_attachments
    apply_attachments-framed false fragment_id = Preserves-pure _
    apply_attachments-framed true fragment_id = list_attachments-framed P framed fragment_id

  module _ (law : IsQueue? s.delivery) (route : Route) (d : Destination) (fragment : Fragment) where
    abbrev Before : World Q → Type 0
    Before = Holds fragment.id

    framed :
        (w w' : World Q)
        → w'.status ≡ w.status
        → w'.inbox ≡ w.inbox
        → w'.aliases ≡ w.aliases
        → Before w
        → Before w'
    framed = Holds-framed fragment.id

    MayLeave-framed :
        (w w' : World Q)
        → w'.status ≡ w.status
        → w'.inbox ≡ w.inbox
        → w'.aliases ≡ w.aliases
        → MayLeave fragment.id w
        → MayLeave fragment.id w'
    MayLeave-framed w w' same_status same_inbox same_aliases (kept, out) = (
      NothingLost-framed w w' same_status same_inbox same_aliases kept,
      λ waits. out (ap (λ t. t fragment.id) (sym same_status) ∙ waits),
    )

    Preserves-Before :
        {A : Type 0} (m : Action Q A)
        → Preserves Before m
        → Hoare Before m (λ _. NothingLost) NothingLost
    Preserves-Before m k =
        Hoare-weaken m (Hoare-Preserves m k (λ w h. h.0)) (λ a w h. h.0) (λ w h. h)

    Preserves-NothingLost :
        {A : Type 0} (m : Action Q A)
        → Preserves NothingLost m
        → Hoare NothingLost m (λ _. NothingLost) NothingLost
    Preserves-NothingLost m k = Hoare-Preserves m k (λ w h. h)

    finish_apply-NothingLost :
        (t : ℕ) (out : DeliveryResult × Option Err)
        → Hoare Before (finish_apply s t route d fragment.id out) (λ _. NothingLost) NothingLost
    unfolding finish_apply
    finish_apply-NothingLost t (result, none) =
        Hoare-bind _ _ (update_status-MayLeave fragment.id) (λ done.
          Hoare-bind _ _
            (Hoare-Preserves _
              (paths_of_fragment-framed (MayLeave fragment.id) MayLeave-framed s.has_attachments
                fragment.id result.published_attachments)
              (λ w h. h.0))
            (λ done. Hoare-bind _ _ (remove-NothingLost fragment.id) (λ done.
              Preserves-NothingLost _ (
                Preserves-bind _ _ (log_decision-framed NothingLost NothingLost-framed _)
                  (λ done. Preserves-pure _)))))
    finish_apply-NothingLost t (result, some e) = Preserves-Before _ (
        Preserves-bind _ _ (queue_failed-framed Before framed _ _ _ _ _ s.delivery law) (λ out.
          Preserves-bind _ _ (log_anyway-framed Before framed _)
            (λ done. failed_answer-framed Before framed _ e out.1)))

    deliver_apply-NothingLost :
        (t : ℕ) (attachments : List FragmentAttachment)
        → Hoare Before
            (deliver_apply s t route d fragment attachments)
            (λ _. NothingLost)
            NothingLost
    unfolding deliver_apply
    deliver_apply-NothingLost t attachments =
        Hoare-if (str_eq d.kind "callback") _ _
          (Preserves-Before _ (
            Preserves-bind _ _ (callback-framed Before framed fragment.id route d s.delivery law)
              (λ out.
                Preserves-bind _ _ (log_anyway-framed Before framed _)
                  (λ done. callback_answer-framed Before framed _ out))))
          (Hoare-bind _ _
            (Hoare-Preserves _ (execute_destination-framed Before framed _ _ _ _) (λ w h. h.0))
            (finish_apply-NothingLost t))

    apply_to-NothingLost : Hoare Before (apply_to s route d fragment) (λ _. NothingLost) NothingLost
    unfolding apply_to
    apply_to-NothingLost =
        Hoare-bind _ _
          (Hoare-Preserves _ (apply_attachments-framed Before framed s.has_attachments fragment.id)
            (λ w h. h.0))
          (λ attachments.
            Hoare-bind _ _ (Hoare-Preserves _ (now-framed Before framed) (λ w h. h.0))
              (λ t. deliver_apply-NothingLost t attachments))

  apply_route-Safe :
      (fragment_id route_id : String)
      → IsQueue? s.delivery
      → Hoare Safe (apply_route s fragment_id route_id) (λ _. NothingLost) NothingLost
  unfolding apply_route
  apply_route-Safe fragment_id route_id law =
      Hoare-if (str_eq (s.trim_space fragment_id) "" || str_eq (s.trim_space route_id) "") _ _
        (Hoare-weaken {R = λ a. Safe} _ (Hoare-Preserves _ (Preserves-raise _) (λ w h. h.0))
          (λ a w h. h.0) (λ w h. h))
        (Hoare-bind _ _ (Hoare-Preserves _ (get_route-framed Safe Safe-framed _) (λ w h. h.0))
          (λ route.
            Hoare-bind _ _
              (Hoare-Preserves _ (get_destination-framed Safe Safe-framed _) (λ w h. h.0))
              (λ d.
                Hoare-bind _ _ (Hoare-weaken _ (get_by_id-Holds _) (λ f w h. h) (λ w h. h.0))
                  (λ fragment. apply_to-NothingLost law route d fragment))))

-- If every fragment that awaits routing has its inbox row before a route is applied by hand, then it
-- has after it too, whatever fails and whether the fragment is routed, queued or neither. The queue's
-- driver changes only its own tables, and aliases name fragments that are no aliases.
pub apply_route-NothingLost :
    {Q : Type 0} (s : RoutingService Q) (fragment_id route_id : String) (w : World Q)
    → IsQueue? s.delivery
    → NoChains w
    → NothingLost w
    → NothingLost (apply_route s fragment_id route_id w).1
apply_route-NothingLost s fragment_id route_id w law flat kept =
    ends_same NothingLost (apply_route s fragment_id route_id w)
      ((apply_route-Safe s fragment_id route_id law).at w (kept, flat))
