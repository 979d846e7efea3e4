-- ===== src/Wire.antt =====
-- The bounded protobuf reader of Antigravity step payloads
-- (internal/ingest/antigravity/protobuf.go). A byte is a number below 256.
pub mod Varint
pub mod Text
pub mod Fields
pub mod Step
mod Examples
