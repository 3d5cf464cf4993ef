-- ===== src/Inbox.antt =====
-- The inbox: what a preparing document shows, where a document is filed, which suggestions are accepted,
-- and the state of the work view (features/inbox).
pub mod Paths
pub mod Filing
pub mod Phases
pub mod Jobs
pub mod Overview
pub mod AcceptAll
pub mod Rejections
pub mod WorkView
mod Examples
