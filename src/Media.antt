-- ===== src/Media.antt =====
-- A media variant's life: its upsert, its bytes, its failures, and the custody asked for it
-- (internal/repository/media.go, internal/repository/asset_acquisition.go, internal/service/media.go).
pub mod Types
pub mod Session
pub mod Digest
pub mod Rows
pub mod Prepare
pub mod Conflict
pub mod Variant
pub mod Bytes
pub mod Content
pub mod Acquire
pub mod Request
pub mod AssetRows
pub mod Asset
pub mod Manifest
pub mod Machine
pub mod Commands
mod Examples
