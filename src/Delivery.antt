-- ===== src/Delivery.antt =====
-- Destinations, their retry and queue policies, and one delivery with its retries
-- (internal/domain/fragment.go, internal/ingest/delivery.go,
-- internal/service/destination_policy.go, internal/service/routing.go).
pub mod Types
pub mod Policy
pub mod Attempt
pub mod Examples
