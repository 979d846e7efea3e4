-- ===== src/Media/Commands/Kept.antt =====
-- What any sequence of calls keeps of the rows, whichever statements fail.
use fragments_engine.Common.{ℕ, String, List, [], ◌∷◌}
use fragments_engine.Common.Error.{Result, ok, err}
use fragments_engine.Store.Action.Hoare.{Ends}
use fragments_engine.Media.Types.{AssetVariant, MediaAsset, MediaManifestItem, Texts}
use fragments_engine.Media.Session.{MediaWorld, MediaAction}
use fragments_engine.Media.Session.Ensures.{
  Ensures, Ensures-pure, Ensures-bind, Ensures-each, Ensures-from, Ensures-weaken,
}
use mathlib.Core.Path.{subst⁻¹}
use fragments_engine.Media.Asset.Apart.{upsert_media_asset-Keeps}
use fragments_engine.Media.Manifest.{upsert_manifest, upsert_variants, upsert_media_asset_variants}
use fragments_engine.Media.Manifest.Stored.{Grows-refl}
use fragments_engine.Media.Manifest.Kept.{Grown, upsert_manifest-Taken}
use fragments_engine.Media.Content.{MediaBlobStore}
use fragments_engine.Media.Machine.{here}
use fragments_engine.Media.Machine.Advances.{TableAdvances, Reaches-TableAdvances}
use fragments_engine.Media.Machine.Sound.{TableSound, Reaches-TableSound}
use fragments_engine.Media.Machine.Follows.{From, Came}
use fragments_engine.Media.Machine.Follows.Upsert.{upsert_asset_variants-From}
use fragments_engine.Media.Machine.Follows.Custody.{
  transaction-From, attach_blob_on-From, mark_variant_failed-From, mark_variant_failed_on-From,
}
use fragments_engine.Media.Machine.Follows.Acquire.{Any, request_asset_acquisition-From}
use fragments_engine.Media.Machine.Follows.Content.{store_variant_content_atomic-From}
use fragments_engine.Media.Commands.{
  MediaCommand, upsert, manifest, attach, mark, mark_on, store, request, ignored, run_command,
  run_commands,
}

module _ (texts : Texts) (blobs : MediaBlobStore) where
  module _ {start : List AssetVariant} where
    ignored-From :
        {A : Type 0} (m : MediaAction A)
        → Ensures (From start Any) m (λ _. From start Any) (From start Any)
        → Ensures (From start Any) (ignored texts blobs m) (λ _. From start Any) (From start Any)
    unfolding ignored
    ignored-From m h = Ensures-bind _ _ h (λ a. Ensures-pure tt (λ s k. k))

    upsert_variants-From :
        (asset : MediaAsset) (vs : List AssetVariant) (now : ℕ)
        → Ensures
            (From start Any)
            (upsert_variants texts asset vs now)
            (λ _. From start Any)
            (From start Any)
    unfolding upsert_variants upsert_media_asset_variants
    upsert_variants-From asset vs now = transaction-From _ _ (
        Ensures-bind _ _ (upsert_media_asset-Keeps (Came start Any) texts asset now) λ resolved.
          Ensures-bind _ _ (upsert_asset_variants-From texts resolved.id vs now)
            λ stored. Ensures-pure _ (λ s h. h))

    manifest-From :
        (revision_id : String) (items : List MediaManifestItem) (now : ℕ)
        → Ensures
            (From start Any)
            (upsert_manifest texts revision_id items now)
            (λ _. From start Any)
            (From start Any)
    manifest-From revision_id items now = Ensures-each _ λ s h.
        Ensures-weaken _
          (Ensures-from _ (upsert_manifest-Taken texts start s.refs revision_id items now) (λ t e.
            subst⁻¹ (λ x. From start (Grown s.refs) x) e
              (record { reached = h.reached; kept = Grows-refl s.refs })))
          (λ outs t k. record { reached = k.reached; kept = tt })
          (λ t k. record { reached = k.reached; kept = tt })

    run_command-From :
        (c : MediaCommand)
        → Ensures
            (From start Any)
            (run_command texts blobs c)
            (λ _. From start Any)
            (From start Any)
    unfolding run_command
    run_command-From (upsert asset vs now) = ignored-From _ (upsert_variants-From asset vs now)
    run_command-From (manifest revision_id items now) =
        ignored-From _ (manifest-From revision_id items now)
    run_command-From (attach id blob now) = ignored-From _ (attach_blob_on-From texts id blob now)
    run_command-From (mark id failure now) =
        ignored-From _ (mark_variant_failed-From id failure now)
    run_command-From (mark_on id failure now) =
        ignored-From _ (mark_variant_failed_on-From id failure now)
    run_command-From (store id expected src) = ignored-From _ (
        store_variant_content_atomic-From texts blobs _ (λ v. Ensures-pure tt (λ s h. h)) id
          expected src _ (λ v. Ensures-pure tt (λ s h. h)))
    run_command-From (request r) = ignored-From _ (request_asset_acquisition-From texts r)

  ended :
      {start : List AssetVariant} (out : Result (Unit {0}) × MediaWorld)
      → Ends (λ _ w. From start Any w.queue) (λ w. From start Any w.queue) out
      → From start Any out.1.queue
  ended (ok a, w) h = h
  ended (err e, w) h = h

  began : (w : MediaWorld) → From w.queue.variants Any w.queue
  began w = record { reached = here; kept = tt }

  -- The rows after any number of calls come from those before by the machine's steps.
  run_commands-From :
      (start : List AssetVariant) (cs : List MediaCommand) (w : MediaWorld)
      → From start Any w.queue
      → From start Any (run_commands texts blobs cs w).queue
  unfolding run_commands
  run_commands-From start [] w h = h
  run_commands-From start (c ∷ cs) w h =
      run_commands-From start cs (run_command texts blobs c w).1
        (ended (run_command texts blobs c w) ((run_command-From c).hoare.at w h))

  -- After any sequence of upserts, manifests, attached blobs, failures, stored contents and custody
  -- requests, each of which may fail at any statement, every variant that the table found is found under
  -- the same id with the same asset, identity, kind and age; its custody is the same, or was a
  -- reference, or went from the cache to a mirror; it is available if it was; and the digest of its
  -- bytes is unchanged if its value was not blank.
  pub run_commands-TableAdvances :
      (cs : List MediaCommand) (w : MediaWorld)
      → TableAdvances w.queue.variants (run_commands texts blobs cs w).queue.variants
  run_commands-TableAdvances cs w =
      Reaches-TableAdvances _ _ (run_commands-From w.queue.variants cs w (began w)).reached

  -- If every variant that the table finds keeps mirrored and adopted bytes for good, has the digest of
  -- the blob it names, and codes its failure when it failed, then so does every variant after any
  -- sequence of calls, each of which may fail at any statement.
  pub run_commands-TableSound :
      (cs : List MediaCommand) (w : MediaWorld)
      → TableSound w.queue.variants
      → TableSound (run_commands texts blobs cs w).queue.variants
  run_commands-TableSound cs w h =
      Reaches-TableSound _ _ (run_commands-From w.queue.variants cs w (began w)).reached h
