-- ===== src/Search.antt =====
-- Searching: components/search of the frontend.
pub mod Snippet
mod Examples
