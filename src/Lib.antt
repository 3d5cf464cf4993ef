-- ===== src/Lib.antt =====
-- The web client of lesspaper-ngl, a document archive: the rules that its pages apply to documents,
-- folders, jobs, suggestions and questions, and the client of the server's HTTP API (frontend/src).
--
-- The parts and how they interact. The library page keeps its state in the URL, lists documents by
-- it, and selects rows by keys and pointer; folders are a tree that the page walks for breadcrumbs and
-- for the destinations of a move. The inbox shows what the server prepares, says where each document
-- is to be filed, accepts the server's suggestions and reports uploads. The panels for
-- questions send them to the server, one at a time for a document, and show answers with citations.
-- All of them call the API through the hooks, whose queries and mutations go through one client that
-- adds the CSRF token and turns responses into values or errors. The viewer shows the file of the
-- document that is open.
--
--   Types/       frontend/src/lib/api/types.ts: Document, Job, Suggestion, Folder and the requests
--   Documents/   frontend/src/features/documents: LibraryState is useDocumentsLibraryState.ts (Hook
--                its callbacks, Requests the requests made from the state), Params the browser's
--                URLSearchParams, Selection and SelectionModel documentSelection.ts and
--                useDocumentSelectionModel.ts, Readiness retrievalReadiness.ts and scopeReadiness.ts,
--                Drag documentDrag.ts
--   Folders/     frontend/src/components/documents: Descendants is collectFolderAndDescendantIds and
--                the destinations of MoveToFolderDialog.tsx, Breadcrumbs buildFolderBreadcrumbs,
--                Tree buildTree of frontend/src/components/folders/FolderTree.tsx
--   Inbox/       frontend/src/features/inbox: Paths and Filing are formatMeta.ts,
--                suggestionAcceptFilter.ts, inboxReviewActions.ts and inboxAiFiling.ts, Phases
--                inboxPreparingPhases.ts, Jobs suggestionJobStatus.ts, Overview
--                inboxPresentation.ts, AcceptAll acceptAllSuggestions.ts, Rejections
--                sessionRejections.ts, WorkView the state and the handlers of InboxWorkView.tsx
--   Ask/         frontend/src/components/ask: Panel is DocumentAskPanel.tsx (Finish what follows the
--                answer, Fifo the queue it implements), Scope AIChatPanel.tsx, Citations
--                MarkdownResponse.tsx
--   Search/      frontend/src/components/search: Snippet is sanitizeSnippet.ts
--   Settings/    frontend/src/features: Models is settings/ai/AssignmentDialog.tsx and
--                workloadCopy.ts, Tour onboarding/OnboardingTour.tsx
--   Viewer/      frontend/src/components/viewer: Loading is DocumentViewer.tsx (its state, its effects,
--                its page and zoom)
--   Client/      frontend/src/lib: Csrf is csrf.ts, Http api/client.ts, Hooks api/hooks.ts, Upload
--                uploadTree.ts and api/upload.ts, Share shareDocument.ts, Persisted
--                usePersistedState.ts
--   Prelude/     JavaScript's lists, texts, sets, maps and numbers, as far as the program uses them
--
-- How the code is read. A function of the program is a definition of the same name in snake case, with
-- the guards of the source in their order; a loop over an array is a recursion on it, and a callback
-- returns the next state. Texts are read by code points, and counts are natural numbers. The server,
-- `fetch`, the clock, the reading of dates, the change of case and the order of `localeCompare` are
-- arguments. Percentages are over an interface for IEEE numbers, Prelude/Floats, which fixed-point
-- numbers fill.
--
-- Fuel. The search for the descendants of a folder and the walk to its ancestors are loops over a
-- graph that may have cycles: the first gets one round more than there are folders, the second as many
-- rounds as there are folders; each round takes a folder that was not seen before.
--
-- Waiting. A function that awaits a request is cut there: what comes before and what comes after are
-- two definitions, and what the request comes to is an argument of the second. Events that happen in
-- between stand between the two in a list of events. An updater that is passed to a React setter runs
-- after the call that passed it.
--
-- Not modelled: rendering, the query library and its caches, navigation, the rewriting of raw chunk
-- markers in answers, the drawing of pages in the viewer, the other settings, the trash and the
-- authentication pages, and the server.
pub mod Prelude
pub mod Types
pub mod Inbox
pub mod Documents
pub mod Folders
pub mod Ask
pub mod Search
pub mod Settings
pub mod Viewer
pub mod Client
