-- ===== src/Ask.antt =====
-- Asking questions about documents: components/ask of the frontend.
pub mod Panel
pub mod Scope
pub mod Citations
mod Examples
