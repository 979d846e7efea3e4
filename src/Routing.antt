-- ===== src/Routing.antt =====
-- The routing stages of the ingest pipeline: which routes match a fragment, the fan-out over them,
-- and the inbox (internal/ingest/pipeline.go, internal/ingest/delivery_reason.go).
pub mod Match
pub mod Reason
pub mod Stage
pub mod RunMatch
pub mod Run
pub mod Tables
pub mod Examples
