-- ===== src/Viewer.antt =====
-- The viewer of a document: components/viewer of the frontend.
pub mod Loading
pub mod Sound
pub mod Open
mod Examples
