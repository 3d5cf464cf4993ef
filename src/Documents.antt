-- ===== src/Documents.antt =====
-- The document library: frontend/src/features/documents. `Params` is the browser's URLSearchParams,
-- `LibraryState` the state of the page as it stands in the URL, `Selection` and `SelectionModel` the
-- selection of rows, and `Readiness` how far a document is for search.
pub mod Params
pub mod Drag
pub mod LibraryState
pub mod Selection
pub mod SelectionModel
pub mod Readiness
mod Examples
