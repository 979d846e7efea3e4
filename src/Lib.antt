-- ===== src/Lib.antt =====
-- The routing, delivery and media core of fragments-engine: a fragment is matched against routes, delivered
-- to their destinations with retries, queued where that fails, and kept in the inbox until some
-- delivery has succeeded. Media assets, the manifests that place them, the life of their variants, and
-- the payload reader of one ingest source stand beside it.
--
-- The parts and how they meet:
--   * Delivery: internal/ingest/delivery.go, with the policies of internal/service/routing.go and
--     internal/service/destination_policy.go. Policy holds retryConfigForDestination,
--     destinationRetryConfig, effectiveRetryConfig and effectiveQueueConfig; Attempt holds
--     ExecuteDestinationWithRetry. Executors, encoding/json and the cancellation of a context are the
--     fields of the record Outside; the executor takes the number of calls before it, so that each
--     call may answer anew.
--   * Store: the tables as one record World, and the statements of internal/repository as actions on
--     it. A column is a function of its key, or a list where the code reads it in order. The field
--     faults says of each statement to come whether it fails; a failing statement writes nothing.
--     Action.Preserves, Action.Hoare and Action.Reads are the rules for invariants and for what an action
--     ensures.
--     Waiting and Canonical hold what the statements do to fragments that wait and to aliases.
--   * Routing: InboxStage and RouteStage of internal/ingest/pipeline.go and the reasons of
--     internal/ingest/delivery_reason.go. Match is routeMatches, RunMatch is runMatch, Run is
--     RouteStage.Run and the loop of RunOnce over the two stages. The delivery queue enters as a
--     parameter, the type Retrier, with what routing relies on in Tables.IsRetrier and
--     Tables.KeepsDestinations. RunMatch.Audit and Run.Audit say of each log entry what its executor did.
--   * Queue: internal/service/delivery_queue.go, in Job (enqueue, drain, process, dead-letter) and
--     Replay (replay, purge and the replay policy). The queue driver of hollis-labs/libs is the record
--     Types.Driver, with what the service relies on in Job.Laws.IsDriver: it changes its own tables
--     only. The service's enqueue fills routing's interface.
--   * Manual: RouteFragment, enqueueCallbackApply and routeMatchesPreview of
--     internal/service/routing.go, a client of the queue service.
--   * Wire: internal/ingest/antigravity/protobuf.go. Varint is binary.Uvarint of Go's standard
--     library, Fields the reader of one message, Text validText, Step stepText. Bytes are numbers.
--   * Media: internal/repository/media.go, internal/repository/asset_acquisition.go and
--     internal/service/media.go. Session holds the transactions, Rows and AssetRows the statements,
--     Prepare, Conflict and Variant upsertAssetVariant, Asset upsertMediaAsset, Manifest
--     UpsertMediaManifest, Bytes AttachBlobOn and MarkVariantFailed, Content
--     StoreVariantContentAtomic, Acquire resolveAcquisitionVariant, Request RequestAssetAcquisition.
--     Machine is the life of a row as a relation of steps that each operation follows; Commands runs the
--     operations in a row. The media tables are the field queue of World, and the files of the blob
--     store stand beside them. strings.ToLower, crypto/sha256, time.Format and %d are the record Texts, the
--     blob store is the record MediaBlobStore, with what the service relies on in Content.Files.
--   * Common: library names passed on, lists, Go's int as a signed integer, and Go's errors.
--
-- Reading the models:
--   * Go's int is ℤ. The replay cooldown in nanoseconds, a product that may leave 64 bits, is written
--     with its wrap-around; how long a retry waits takes no part in the model. Times are
--     numbers. Most tables hold RFC3339 text, in whole seconds; the media tables hold RFC3339Nano text,
--     which enters as format_time of the record Texts, and rows are ordered by that text.
--   * Errors are values with the chain that errors.As walks. Prefixes that the repositories put before
--     an SQL error are left out, those of the queue service are kept. A reason of the route log stands
--     as its prefix and payload, before encoding/json writes it.
--   * A transaction's BEGIN and COMMIT are statements that may fail. A failed body gives the tables back
--     as they were; files, the clock and executor calls stay. An INSERT is a look at the constraints of
--     the schema and a write. A row of variants stands as the next load reads it. float64 is its three
--     fields, and texts that Go declares as enumerations are data types with a case for any other text.
--   * The retry loop and the field reader recurse on what their limits leave (MaxAttempts, 100000
--     fields), so no fuel is needed; Drain recurses on its limit.
--   * update_storage_paths leaves out what that transaction writes to asset_variants: the custody, state,
--     retention and paths of the variants that a legacy attachment projects to. RouteFragment
--     leaves out the half-filled item that it returns beside an error. Logging calls whose error the
--     code drops are run and their error dropped here too.
--
-- Not modelled: the rest of RunOnce and the other stages, the listings, counts and summaries of the queue,
-- materialize, validation and status of destinations (a parameter of the queue service), the upsert of
-- fragments, the listings of media, and all of the engine outside the parts above. Concurrency of two calls on the database
-- is not modelled either: an action runs alone.
pub mod Common
pub mod Delivery
pub mod Wire
pub mod Store
pub mod Routing
pub mod Queue
pub mod Manual
pub mod Media
