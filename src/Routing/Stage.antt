-- ===== src/Routing/Stage.antt =====
-- What the stages of pipeline.go are built from and run on, and `InboxStage`.
pub mod Staging
use fragments_engine.Common.{ℕ, String, Bool, Option, List}
use fragments_engine.Delivery.Types.{
  DeliveryRetryConfig, FragmentStatus, inbox, routed, indexed, Fragment,
}
use fragments_engine.Delivery.Attempt.{Outside}
use fragments_engine.Store.Action.{FragmentEntity, Action, pure}
use fragments_engine.Store.Statements.{stage}

pub data UpsertOutcome : Type 0 where
  inserted updated skipped : UpsertOutcome

pub record StageContext : Type 0 where
  pub fragment : Fragment
  pub outcome : UpsertOutcome
  pub now : ℕ

-- `DeliveryRetrier`: fragment, route and destination, and the retry policy.
abbrev pub Retrier : Type 0 → Type 0
Retrier Q = String → String → String → DeliveryRetryConfig → Action Q (Unit {0})

-- What the stage is built from. `extract` is `extract.FromFragment`; `has_entities` tells whether
-- the entity repository is there.
pub record RouteStage (Q : Type 0) : Type 0 where
  pub outside : Outside
  pub extract : Fragment → List FragmentEntity
  pub has_entities : Bool
  pub retrier : Option (Retrier Q)

module _ {Q : Type 0} where
  stage_if_inbox : FragmentStatus → StageContext → Action Q (Unit {0})
  stage_if_inbox inbox ctx = stage ctx.fragment.id "awaiting routing" ctx.now
  stage_if_inbox routed ctx = pure tt
  stage_if_inbox indexed ctx = pure tt

  stage_unless_skipped : UpsertOutcome → StageContext → Action Q (Unit {0})
  stage_unless_skipped skipped ctx = pure tt
  stage_unless_skipped inserted ctx = stage_if_inbox ctx.fragment.status ctx
  stage_unless_skipped updated ctx = stage_if_inbox ctx.fragment.status ctx

  -- InboxStage.Run.
  unfoldable pub run_inbox_stage : StageContext → Action Q (Unit {0})
  unfolding stage_unless_skipped stage_if_inbox
  run_inbox_stage ctx = stage_unless_skipped ctx.outcome ctx
