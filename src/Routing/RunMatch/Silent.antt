-- ===== src/Routing/RunMatch/Silent.antt =====
-- The matches that never call an executor.
use fragments_engine.Common.{
  String, ◌≡◌, refl, sym, ap, ◌∙◌, ◌⊎◌, inl, inr, Bool, true, false, Option, none, some, List,
  eq_iff, if◌then◌else◌,
}
use fragments_engine.Delivery.Types.{Destination, Fragment, FragmentAttachment}
use fragments_engine.Store.Action.{World, Route, RouteLogEntry, words, pure, ◌>>=◌, ◌>>◌}
use fragments_engine.Store.Action.Preserves.{
  Preserves, Preserves-pure, Preserves-bind, Preserves-attempt, Preserves-write,
}
use fragments_engine.Store.Action.Hoare.{Hoare, Hoare-bind, Hoare-query, Hoare-Preserves, Ends}
use fragments_engine.Store.Statements.{log_decision, get_destination, or_no_rows}
use fragments_engine.Store.Waiting.{ends_same}
use fragments_engine.Routing.Stage.{StageContext, Retrier, RouteStage}
use fragments_engine.Routing.Tables.{IsRetrier?}
use fragments_engine.Routing.RunMatch.{
  Winners, entry, enqueue_callback, enqueue_callback_delivery, deliver_match, run_match,
}

-- The route is for review by hand, or leads to a callback.
abbrev pub IsSilent : {Q : Type 0} → World Q → Route → Type 0
IsSilent w matched =
    (matched.auto_route ≡ false)
    ⊎ ((d : Destination) → w.destinations matched.destination_id ≡ some d → d.kind ≡ "callback")

module _ {Q : Type 0} (u : World Q) where
  abbrev SameCalls : World Q → Type 0
  SameCalls w = w.calls ≡ u.calls

  log_decision-SameCalls : (e : RouteLogEntry) → Preserves SameCalls (log_decision e)
  unfolding log_decision
  log_decision-SameCalls e = Preserves-write (λ w faults h. h) _ (λ w h. h)

  enqueue_callback-SameCalls :
      (s : RouteStage Q) (ctx : StageContext) (retrier : Option (Retrier Q)) (matched : Route)
      (d : Destination)
      → IsRetrier? retrier
      → Preserves SameCalls (enqueue_callback retrier s.outside ctx matched d)
  unfolding enqueue_callback
  enqueue_callback-SameCalls s ctx none matched d lawful = Preserves-pure _
  enqueue_callback-SameCalls s ctx (some enqueue) matched d lawful =
      Preserves-attempt _ _ _
        (record {
          at = λ w h. (lawful.same ctx.fragment.id matched.id matched.destination_id _ w).calls ∙ h;
        })
        (λ done. Preserves-pure _) (λ e. Preserves-pure _)

  callback-SameCalls :
      (s : RouteStage Q) (ctx : StageContext) (matched : Route) (f : Fragment)
      (attachments : List FragmentAttachment) (winners : Winners) (d : Destination)
      → IsRetrier? s.retrier
      → d.kind ≡ "callback"
      → Preserves SameCalls (deliver_match s ctx matched f attachments winners d)
  unfolding deliver_match enqueue_callback_delivery
  callback-SameCalls s ctx matched f attachments winners d law kind =
      rw ((eq_iff d.kind "callback").1 kind) (
        Preserves-bind _ _
          (Preserves-bind _ _ (enqueue_callback-SameCalls s ctx s.retrier matched d law)
            (λ reason. log_decision-SameCalls _))
          (λ done. Preserves-pure _))

  -- The tables that the match finds.
  abbrev Found : World Q → Type 0
  Found w = SameCalls w × (w.destinations ≡ u.destinations)

  get_destination-Found :
      (id : String)
      → Hoare Found
          (get_destination id)
          (λ d w. SameCalls w × (u.destinations id ≡ some d))
          SameCalls
  unfolding get_destination
  get_destination-Found id =
      Hoare-query _ (λ w faults h. h)
        (λ w h. ends w h (w.destinations id) (ap (λ t. t id) (sym h.1))) (λ w h. h.0)
        (λ w faults h. h) (λ d w faults h. h)
    where
      ends :
          (w : World Q)
          → Found w
          → (o : Option Destination) → u.destinations id ≡ o
          → Ends (λ d w. SameCalls w × (u.destinations id ≡ some d)) SameCalls (or_no_rows o, w)
      ends w h none e = h.0
      ends w h (some d) e = (h.0, e)

  run_match-SameCalls :
      (s : RouteStage Q) (ctx : StageContext) (matched : Route) (f : Fragment)
      (attachments : List FragmentAttachment) (winners : Winners)
      → IsRetrier? s.retrier
      → IsSilent u matched
      → Hoare Found (run_match s ctx matched f attachments winners) (λ out. SameCalls) SameCalls
  unfolding run_match
  run_match-SameCalls s ctx matched f attachments winners law (inl review) = rw review (
      Hoare-bind _ _
        (record { at = λ w h. (Hoare-Preserves _ (log_decision-SameCalls _) (λ w h. h)).at w h.0 })
        (λ done. Hoare-Preserves _ (Preserves-pure _) (λ w h. h)))
  run_match-SameCalls s ctx matched f attachments winners law (inr callback) =
      split matched.auto_route
    where
      split :
          (auto : Bool)
          → Hoare Found
              (if auto
                then (get_destination matched.destination_id
                    >>= deliver_match s ctx matched f attachments winners)
                else (log_decision (entry ctx matched "inbox" (words "matched_manual_review"))
                    >> pure (false, winners)))
              (λ out. SameCalls)
              SameCalls
      split true = Hoare-bind _ _ (get_destination-Found matched.destination_id) (λ d. record {
        at = λ w h.
            (Hoare-Preserves _
                (callback-SameCalls s ctx matched f attachments winners d law (callback d h.1))
                (λ w h. h)).at
              w h.0;
      })
      split false =
          Hoare-bind _ _
            (record {
              at = λ w h. (Hoare-Preserves _ (log_decision-SameCalls _) (λ w h. h)).at w h.0;
            })
            (λ done. Hoare-Preserves _ (Preserves-pure _) (λ w h. h))

-- A match that is for review by hand, and one that leads to a callback destination, never calls an
-- executor, whatever fails: a callback is only ever put into the queue. The retrier calls none either.
pub run_match-silent :
    {Q : Type 0} (s : RouteStage Q) (ctx : StageContext) (matched : Route) (f : Fragment)
    (attachments : List FragmentAttachment) (winners : Winners) (w : World Q)
    → IsRetrier? s.retrier
    → IsSilent w matched
    → (run_match s ctx matched f attachments winners w).1.calls ≡ w.calls
run_match-silent s ctx matched f attachments winners w law silent =
    ends_same (SameCalls w) (run_match s ctx matched f attachments winners w)
      ((run_match-SameCalls w s ctx matched f attachments winners law silent).at w (refl, refl))
