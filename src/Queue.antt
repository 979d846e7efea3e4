-- ===== src/Queue.antt =====
-- The delivery queue service (internal/service/delivery_queue.go).
pub mod Types
pub mod Job
pub mod Replay
pub mod Examples
