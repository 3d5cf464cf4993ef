-- ===== src/Types.antt =====
-- frontend/src/lib/api/types.ts: what the client exchanges with the server. An identifier, a date
-- and any other text is a `String`; a field that may be null, undefined or absent is an `Option`.
pub mod Json
pub mod Document
pub mod Job
pub mod Folder
pub mod Request
pub mod Ask
pub mod Params
pub mod Samples
