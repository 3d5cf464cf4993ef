-- ===== src/Inbox/WorkView/Handlers.antt =====
-- `handleProcess`, `handleAcceptAll` and `handleAcceptAllForDoc` of InboxWorkView.tsx. The query caches
-- that are invalidated and fetched again are not part of the state.
use lesspaper_ngl.Prelude.Maps
use lesspaper_ngl.Inbox.AcceptAll.{
  accept_all_suggestions, accept_message, accept_targets, counted_part, kept_parts,
}
use lesspaper_ngl.Inbox.WorkView.{WorkState, accept_scope_ids, process_targets}
use lesspaper_ngl.Prelude.{
  Bool, Bool-cases, List, Option, String, [], ap, arith, false, filter, if◌then◌else◌, inl, inr,
  is_some, length, ltb, map, nat_eq, none, option_eq, or_default, or_text, refl, some, text_eq,
  true, ℕ, ◌==◌, ◌∷◌, ◌≡◌, ◌≢◌,
}
use lesspaper_ngl.Prelude.Texts.{join}
use lesspaper_ngl.Types.Document.{Document}
use lesspaper_ngl.Types.Job.{Suggestion}

-- what the server says of the documents that it processed: their identifiers, and how many others it
-- skipped or failed
pub record ProcessResult : Type 0 where
  pub processed : List String
  pub skipped : ℕ
  pub failed : ℕ

-- `mutateAsync` returns, or throws an error that may have a message.
pub data ProcessReply : Type 0 where
  replied : ProcessResult → ProcessReply
  thrown : Option String → ProcessReply

-- the view afterwards, whether the rejections were cleared, and the documents that the overview is
-- opened with
pub record ProcessEffect : Type 0 where
  pub view : WorkState
  pub cleared_rejections : Bool
  pub navigated : Option (List String)

abbrev pub stayed : WorkState → ProcessEffect
stayed s = record { view = s; cleared_rejections = false; navigated = none }

unfoldable pub process_message : ProcessResult → String
process_message r =
    or_text
      (join " · " (
        kept_parts
          (counted_part r.skipped "" " skipped" ∷ counted_part r.failed "" " failed" ∷ [])))
      "Nothing processed"

unfoldable pub after_process : ProcessReply → WorkState → ProcessEffect
after_process (ProcessReply.replied r) s =
    if ltb 0 (length r.processed)
    then record {
      view = record s { selected_ids = [] };
      cleared_rejections = true;
      navigated = some r.processed;
    }
    else stayed (record s { selected_ids = []; result_msg = some (process_message r) })
after_process (ProcessReply.thrown message) s =
    stayed (record s { result_msg = some (or_default message "Process failed") })

unfoldable pub handle_process :
    {Server : Type 0}
    → (Server → List String → ProcessReply × Server)
    → List Document
    → Server × WorkState
    → Server × ProcessEffect
handle_process process documents (server, s) =
    let targets = process_targets documents s.selected_ids in
    let (reply, server2) = process server (map (λ d. d.id) targets) in
    if length targets == 0 then (server, stayed s) else (server2, after_process reply s)

-- `new Map(documents.map((d) => [d.id, d]))`
unfoldable pub documents_by_id : List Document → List (String × Document) → List (String × Document)
documents_by_id [] m = m
documents_by_id (d ∷ documents) m = documents_by_id documents (Maps.put m d.id d)

unfoldable pub accept_in_view :
    {Server : Type 0}
    → (Server → String → Bool × Server)
    → List Suggestion
    → List String
    → List Document
    → Server × WorkState
    → Server × WorkState
accept_in_view post pending ids documents (server, s) =
    let (server2, tally) =
      accept_all_suggestions post pending ids (documents_by_id documents []) server in
    (server2, record s { result_msg = some (accept_message tally) })

unfoldable pub handle_accept_all :
    {Server : Type 0}
    → (Server → String → Bool × Server)
    → List Suggestion
    → List Document
    → Server × WorkState
    → Server × WorkState
handle_accept_all post pending_suggestions documents (server, s) =
    let ids = accept_scope_ids documents s.selected_ids in
    let pending_in_scope = accept_targets pending_suggestions ids in
    if length pending_in_scope == 0
    then (server, s)
    else accept_in_view post pending_suggestions ids documents (server, s)

unfoldable pub handle_accept_all_for_doc :
    {Server : Type 0}
    → (Server → String → Bool × Server)
    → List Suggestion
    → String
    → List Document
    → Server × WorkState
    → Server × WorkState
handle_accept_all_for_doc post pending_suggestions document_id documents (server, s) =
    let pending = filter (λ p. p.document_id == document_id) pending_suggestions in
    if length pending == 0
    then (server, s)
    else accept_in_view post pending (document_id ∷ []) documents (server, s)

length-ne_zero : (ds : List Document) → ds ≢ [] → (length ds == 0) ≡ false
length-ne_zero [] ne = absurd (ne refl)
length-ne_zero (d ∷ ds) ne = ground arith

-- Filing opens the overview with exactly the documents that the server processed, if there
-- are any, and only then clears the rejections. The selection is emptied when the server replies, and
-- kept when it throws or when there is nothing to file; in that last case the server is not asked.
pub handle_process-effect :
    {Server : Type 0} (process : Server → List String → ProcessReply × Server)
    (documents : List Document) (server : Server) (s : WorkState)
    → let targets = process_targets documents s.selected_ids in
      let asked = process server (map (λ d. d.id) targets) in
      let effect = handle_process process documents (server, s) in
      (targets ≡ [] → effect ≡ (server, stayed s))
      × ((r : ProcessResult)
          → targets ≢ []
          → asked.0 ≡ ProcessReply.replied r
          → (effect.0 ≡ asked.1)
            × (effect.1.view.selected_ids ≡ [])
            × (effect.1.navigated ≡ (if ltb 0 (length r.processed) then some r.processed else none))
            × (effect.1.cleared_rejections ≡ is_some effect.1.navigated))
      × ((message : Option String)
          → targets ≢ []
          → asked.0 ≡ ProcessReply.thrown message
          → (effect.0 ≡ asked.1)
            × (effect.1.view.selected_ids ≡ s.selected_ids)
            × (effect.1.navigated ≡ none)
            × (effect.1.cleared_rejections ≡ false)
            × (is_some effect.1.view.result_msg ≡ true))
unfolding handle_process after_process
handle_process-effect process documents server s =
    let targets = process_targets documents s.selected_ids in
    (
      λ none_left. rw (ap length none_left) refl,
      λ r some_left e. rw (length-ne_zero targets some_left) (
          rw e (elim (Bool-cases (ltb 0 (length r.processed))) [
            | inl done ↦ rw done (refl, refl, refl, refl)
            | inr nothing ↦ rw nothing (refl, refl, refl, refl)
          ])),
      λ message some_left e.
          rw (length-ne_zero targets some_left) (rw e (refl, refl, refl, refl, refl)),
    )
