-- ===== src/Routing/Stage/Staging.antt =====
-- What the inbox stage writes.
use fragments_engine.Common.{
  String, ◌≡◌, ◌≢◌, refl, Bool, true, false, Option, some, str_eq, eq_refl, if◌then◌else◌,
}
use fragments_engine.Delivery.Types.{FragmentStatus, inbox, routed, indexed}
use fragments_engine.Store.Action.{World, InboxItem}
use fragments_engine.Store.Action.Preserves.{Preserves, Preserves-pure, Preserves-write}
use fragments_engine.Store.Action.Hoare.{Hoare, Hoare-write}
use fragments_engine.Store.Action.Reads.{Anything}
use fragments_engine.Store.Statements.{stage}
use fragments_engine.Routing.Stage.{
  UpsertOutcome, inserted, updated, skipped, StageContext, stage_if_inbox, stage_unless_skipped,
  run_inbox_stage,
}

-- The fragment has a row in the inbox.
abbrev pub IsStaged : {Q : Type 0} → String → World Q → Type 0
IsStaged id w = (item : InboxItem) × (w.inbox id ≡ some item)

row :
    (b : Bool) (item : InboxItem) (old : Option InboxItem)
    → b ≡ true
    → (new : InboxItem) × ((if b then some item else old) ≡ some new)
row true item old e = (item, refl)
row false item old e = absurd cc

module _ {Q : Type 0} (ctx : StageContext) where
  stage-IsStaged :
      (id reason : String) (at : _)
      → Hoare {Q = Q} Anything (stage id reason at) (λ done. IsStaged id) Anything
  unfolding stage
  stage-IsStaged id reason at =
      Hoare-write _ (λ w h. row (str_eq id id) _ (w.inbox id) (eq_refl id)) (λ w h. tt)
        (λ w faults h. h) (λ w faults h. h)

  stage_if_inbox-IsStaged :
      (status : FragmentStatus)
      → status ≡ inbox
      → Hoare {Q = Q} Anything
          (stage_if_inbox status ctx)
          (λ done. IsStaged ctx.fragment.id)
          Anything
  unfolding stage_if_inbox
  stage_if_inbox-IsStaged inbox waits = stage-IsStaged ctx.fragment.id "awaiting routing" ctx.now
  stage_if_inbox-IsStaged routed waits = absurd cc
  stage_if_inbox-IsStaged indexed waits = absurd cc

  stage_unless_skipped-IsStaged :
      (outcome : UpsertOutcome)
      → outcome ≢ skipped
      → ctx.fragment.status ≡ inbox
      → Hoare {Q = Q} Anything
          (stage_unless_skipped outcome ctx)
          (λ done. IsStaged ctx.fragment.id)
          Anything
  unfolding stage_unless_skipped
  stage_unless_skipped-IsStaged inserted live waits = stage_if_inbox-IsStaged _ waits
  stage_unless_skipped-IsStaged updated live waits = stage_if_inbox-IsStaged _ waits
  stage_unless_skipped-IsStaged skipped live waits = absurd (live refl)

  pub run_inbox_stage-IsStaged :
      ctx.outcome ≢ skipped
      → ctx.fragment.status ≡ inbox
      → Hoare {Q = Q} Anything (run_inbox_stage ctx) (λ done. IsStaged ctx.fragment.id) Anything
  unfolding run_inbox_stage
  run_inbox_stage-IsStaged live waits = stage_unless_skipped-IsStaged ctx.outcome live waits

  module _ (P : World Q → Type 0)
      (by_log : (w w' : World Q) → w'.route_log ≡ w.route_log → P w → P w') where
    stage_if_inbox-quiet : (status : FragmentStatus) → Preserves P (stage_if_inbox status ctx)
    unfolding stage_if_inbox stage
    stage_if_inbox-quiet inbox =
        Preserves-write (λ w faults. by_log w _ refl) _ (λ w. by_log w _ refl)
    stage_if_inbox-quiet routed = Preserves-pure tt
    stage_if_inbox-quiet indexed = Preserves-pure tt

    stage_unless_skipped-quiet :
        (outcome : UpsertOutcome) → Preserves P (stage_unless_skipped outcome ctx)
    unfolding stage_unless_skipped
    stage_unless_skipped-quiet inserted = stage_if_inbox-quiet ctx.fragment.status
    stage_unless_skipped-quiet updated = stage_if_inbox-quiet ctx.fragment.status
    stage_unless_skipped-quiet skipped = Preserves-pure tt

    pub run_inbox_stage-quiet : Preserves P (run_inbox_stage ctx)
    unfolding run_inbox_stage
    run_inbox_stage-quiet = stage_unless_skipped-quiet ctx.outcome
