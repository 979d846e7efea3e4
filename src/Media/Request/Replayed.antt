-- ===== src/Media/Request/Replayed.antt =====
-- A custody command that was answered once is answered the same again.
use fragments_engine.Common.{◌≡◌, refl, ap, true, false, not, Option, none, some, []}
use mathlib.Core.Path.{subst, subst⁻¹}
use fragments_engine.Common.Error.{Result, ok}
use fragments_engine.Store.Action.{pure}
use fragments_engine.Store.Action.Hoare.{Ends}
use fragments_engine.Store.Action.Returns.{Returns-bind, Returns-wrapped}
use fragments_engine.Store.Statements.{or_no_rows}
use fragments_engine.Media.Types.{AssetVariant, AssetAcquisitionRequest, MediaStore, Texts}
use fragments_engine.Media.Session.{MediaWorld}
use fragments_engine.Media.Session.Ensures.{
  Ensures, Ensures-bind, Ensures-weaken, Ensures-refuse, Ensures-deferred,
}
use fragments_engine.Media.Session.Returns.{
  Returns-refuse, Returns-select, Returns-deferred, Returns-begin, Returns-commit,
}
use fragments_engine.Media.Rows.{find_variant, load_asset_variant}
use fragments_engine.Media.Request.{
  AssetAcquisitionResult, trim_request, same_semantics, refuse_request, replay, answer, begun,
  request_asset_acquisition,
}
use fragments_engine.Media.Machine.Follows.Upsert.{with_fact}
use fragments_engine.Media.Request.Recorded.{
  Chosen, by_id, by_key, Recorded, Nothing, begun-Recorded,
}

module _ (request : AssetAcquisitionRequest) where
  replay_again :
      (existing : AssetAcquisitionRequest) (v : AssetVariant) (w : MediaWorld)
      → w.faults ≡ []
      → not (same_semantics existing request) ≡ false
      → find_variant existing.asset_variant_id w.queue.variants ≡ some v
      → replay request existing w
        ≡ (ok (record { request = existing; variant = v; idempotent_replay = true }), w)
  unfolding replay load_asset_variant pure
  replay_again existing v w calm same found =
      Returns-bind _ _ w w tt _ (Returns-refuse _ _ w same) (
        Returns-bind _ _ w w v _
          (Returns-wrapped _ _ w w v (Returns-select _ w v calm (ap (λ o. or_no_rows o) found)))
          (Returns-bind _ _ w w tt _ (Returns-wrapped _ _ w w tt (Returns-commit w calm)) refl))

  answer_again :
      (texts : Texts) (a b : Option AssetAcquisitionRequest) (existing : AssetAcquisitionRequest)
      (w : MediaWorld) (out : Result AssetAcquisitionResult × MediaWorld)
      → Chosen a b existing
      → replay request existing w ≡ out
      → answer texts request a b w ≡ out
  unfolding answer
  answer_again texts none none existing w out h e = absurd cc
  answer_again texts (some a) none existing w out h e = rw h e
  answer_again texts none (some b) existing w out h e = rw h e
  answer_again texts (some a) (some b) existing w out h e =
      Returns-bind _ _ w w tt _ (Returns-refuse _ _ w h.0) (rw h.1 e)

  begun_again :
      (texts : Texts) (r : AssetAcquisitionResult) (w : MediaWorld)
      → w.faults ≡ []
      → Recorded request r w.queue
      → begun texts request w ≡ (ok (record r { idempotent_replay = true }), w)
  unfolding begun
  begun_again texts r w calm (chosen, same, found) =
      Returns-bind _ _ w w tt _ (Returns-begin w calm) (
        Returns-bind _ _ w w (by_id request w.queue) _
          (Returns-wrapped _ _ w w _ (Returns-select _ w _ calm refl))
          (Returns-bind _ _ w w (by_key request w.queue) _
            (Returns-wrapped _ _ w w _ (Returns-select _ w _ calm refl))
            (answer_again texts _ _ r.request w _ chosen
              (replay_again r.request r.variant w calm same found))))

  -- The checks before the transaction do not look at the tables.
  refuse_request-Passes :
      Ensures Nothing
        (refuse_request request)
        (λ _ s. Nothing s × ((w : MediaWorld) → refuse_request request w ≡ (ok tt, w)))
        Nothing
  unfolding refuse_request
  refuse_request-Passes = Ensures-bind _ _ (Ensures-refuse (λ s h. h) _ _) λ _.
      Ensures-bind _ _ (Ensures-refuse (λ s h. tt) _ _) λ _.
        Ensures-weaken _ (Ensures-refuse (λ s h. tt) _ _)
          (λ _ s h. (
            tt,
            λ w.
                Returns-bind _ _ w w tt _ (Returns-refuse _ _ w h.0.0.1) (
                  Returns-bind _ _ w w tt _ (Returns-refuse _ _ w h.0.1)
                    (Returns-refuse _ _ w h.1)),
          ))
          (λ s h. tt)

-- What a command that was answered leaves.
Answered : Texts → AssetAcquisitionRequest → AssetAcquisitionResult → MediaStore → Type 0
Answered texts given out s =
    (w : MediaWorld)
    → w.queue ≡ s
    → w.faults ≡ []
    → request_asset_acquisition texts given w ≡ (ok (record out { idempotent_replay = true }), w)

request-Answered :
    (texts : Texts) (given : AssetAcquisitionRequest)
    → Ensures Nothing (request_asset_acquisition texts given) (Answered texts given) Nothing
unfolding request_asset_acquisition Answered
request-Answered texts given = Ensures-bind _ _ (refuse_request-Passes (trim_request given)) λ _.
    with_fact _ (λ passes.
      Ensures-weaken _
        (Ensures-deferred _ (begun-Recorded (trim_request given) texts) (λ before w h. tt))
        (λ out s recorded w here_now calm. Returns-bind _ _ w w tt _ (passes w) (
          Returns-deferred _ w w _ (
            begun_again (trim_request given) texts out w calm
              (subst⁻¹ (Recorded (trim_request given) out) here_now recorded))))
        (λ s h. h))

answered :
    {A : Type 0} (R : A → MediaWorld → Type 0) (out : Result A × MediaWorld) (a : A)
    (w : MediaWorld)
    → Ends R (λ w. Unit {0}) out
    → out ≡ (ok a, w)
    → R a w
answered R out a w h e = subst (λ o. Ends R (λ w. Unit {0}) o) e h

-- A custody command that was answered, whichever statements may fail, is answered with the same
-- request and the same variant when it is given again and no statement fails, as a replay, and the
-- tables stay as they were.
pub request_asset_acquisition-Replayed :
    (texts : Texts) (given : AssetAcquisitionRequest) (w v : MediaWorld)
    (r : AssetAcquisitionResult)
    → request_asset_acquisition texts given w ≡ (ok r, v)
    → v.faults ≡ []
    → request_asset_acquisition texts given v ≡ (ok (record r { idempotent_replay = true }), v)
unfolding Answered
request_asset_acquisition-Replayed texts given w v r e calm =
    answered (λ out s. Answered texts given out s.queue) _ r v
      ((request-Answered texts given).hoare.at w tt) e v refl calm
