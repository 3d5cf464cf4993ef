-- ===== src/Client.antt =====
-- The client of the HTTP API: the CSRF token, requests and errors, uploads, the sharing of a document,
-- and the browser's storage (lib/csrf.ts, lib/api/client.ts, lib/api/upload.ts, lib/uploadTree.ts,
-- lib/shareDocument.ts, lib/usePersistedState.ts).
pub mod Csrf
pub mod Http
pub mod Hooks
pub mod Upload
pub mod Share
pub mod Persisted
mod Examples
