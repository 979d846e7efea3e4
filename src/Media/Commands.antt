-- ===== src/Media/Commands.antt =====
-- The operations that write variants, one after the other, each with its own statements that may fail.
pub mod Kept
use fragments_engine.Common.{ℕ, String, List, [], ◌∷◌}
use fragments_engine.Store.Action.{pure, ◌>>=◌}
use fragments_engine.Media.Types.{
  ContentDigest, AssetFailure, AssetVariant, MediaAsset, MediaManifestItem, MediaBlob,
  AssetAcquisitionRequest, Texts,
}
use fragments_engine.Media.Session.{MediaWorld, MediaAction}
use fragments_engine.Media.Manifest.{upsert_manifest, upsert_variants}
use fragments_engine.Media.Bytes.{attach_blob_on, mark_variant_failed, mark_variant_failed_on}
use fragments_engine.Media.Content.{MediaBlobStore, store_variant_content_atomic}
use fragments_engine.Media.Request.{request_asset_acquisition}

-- A call with its arguments. `store` is StoreVariantContent, whose callbacks are nil.
pub data MediaCommand : Type 0 where
  upsert : MediaAsset → List AssetVariant → ℕ → MediaCommand
  manifest : String → List MediaManifestItem → ℕ → MediaCommand
  attach : String → MediaBlob → ℕ → MediaCommand
  mark : String → AssetFailure → ℕ → MediaCommand
  mark_on : String → AssetFailure → ℕ → MediaCommand
  store : String → ContentDigest → String → MediaCommand
  request : AssetAcquisitionRequest → MediaCommand

module _ (texts : Texts) (blobs : MediaBlobStore) where
  ignored : {A : Type 0} → MediaAction A → MediaAction (Unit {0})
  ignored m = m >>= λ a. pure tt

  unfoldable pub run_command : MediaCommand → MediaAction (Unit {0})
  unfolding ignored
  run_command (upsert asset vs now) = ignored (upsert_variants texts asset vs now)
  run_command (manifest revision_id items now) =
      ignored (upsert_manifest texts revision_id items now)
  run_command (attach id blob now) = ignored (attach_blob_on texts id blob now)
  run_command (mark id failure now) = ignored (mark_variant_failed id failure now)
  run_command (mark_on id failure now) = ignored (mark_variant_failed_on id failure now)
  run_command (store id expected src) =
      ignored
        (store_variant_content_atomic texts blobs id expected src (λ v. pure tt) (λ v. pure tt))
  run_command (request r) = ignored (request_asset_acquisition texts r)

  -- Each call goes on from the tables that the one before left, whether it failed or not.
  unfoldable pub run_commands : List MediaCommand → MediaWorld → MediaWorld
  run_commands [] w = w
  run_commands (c ∷ cs) w = run_commands cs (run_command c w).1
