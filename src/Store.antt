-- ===== src/Store.antt =====
-- The tables that routing and delivery share, and the statements that the repositories run on them
-- (internal/repository/inbox.go, routes.go, fragments.go, attachments.go, entities.go). Each
-- statement may fail, and leaves the tables as they were then. The delivery queue's own tables belong
-- to a library outside this repository; their state has the type `Q`.
pub mod Action
pub mod Statements
pub mod Waiting
pub mod Canonical
