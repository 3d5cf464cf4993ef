-- ===== src/Inbox/WorkView.antt =====
-- The state of the work view of the inbox, and what its handlers do to it: InboxWorkView.tsx. The
-- server's calls are parameters.
pub mod Laws
pub mod Handlers
mod Examples
use lesspaper_ngl.Prelude.Sets
use lesspaper_ngl.Inbox.AcceptAll.{counted_part, kept_parts, plural}
use lesspaper_ngl.Inbox.Filing.{
  can_retry_suggestions, is_doc_settled, is_processable, visible_selected_docs,
}
use lesspaper_ngl.Prelude.{
  Bool, List, Option, String, [], all, any, false, filter, find, if◌then◌else◌, length, ltb, map,
  nat_eq, none, nonempty, not, option_eq, or_default, or_text, some, text_eq, ℕ, ◌&&◌, ◌+◌, ◌-◌,
  ◌==◌, ◌||◌, ◌∷◌,
}
use lesspaper_ngl.Prelude.Decimal.{to_decimal}
use lesspaper_ngl.Prelude.Texts.{join, template}
use lesspaper_ngl.Types.Document.{
  Document, InboxStatus, ProcessingStatus, inbox_status_eq, processing_status_eq,
}

-- the state of the view that its handlers change
pub record WorkState : Type 0 where
  pub selected_ids : List String
  pub expanded_ids : Option (List String)
  pub preview_id : Option String
  pub remove_ids : Option (List String)
  pub result_msg : Option String

-- `counts`, but for the tab `all`
pub record StatusCounts : Type 0 where
  pub all : ℕ
  pub preparing : ℕ
  pub ready : ℕ
  pub needs_review : ℕ
  pub failed : ℕ

unfoldable pub count_inbox_status : Option InboxStatus → StatusCounts → StatusCounts
count_inbox_status none c = c
count_inbox_status (some InboxStatus.preparing) c = record c { preparing = c.preparing + 1 }
count_inbox_status (some InboxStatus.ready) c = record c { ready = c.ready + 1 }
count_inbox_status (some InboxStatus.needs_review) c = record c {
  needs_review = c.needs_review + 1;
}
count_inbox_status (some InboxStatus.failed) c = record c { failed = c.failed + 1 }

unfoldable pub count_items : List Document → StatusCounts → StatusCounts
count_items [] c = c
count_items (d ∷ items) c = count_items items (count_inbox_status d.inbox_status c)

-- `counts`, with the rejections of this session among the failed
unfoldable pub work_counts : List Document → ℕ → StatusCounts
work_counts items rejections =
    let c =
      count_items items
        (record { all = length items; preparing = 0; ready = 0; needs_review = 0; failed = 0 }) in
    record c { failed = c.failed + rejections; all = c.all + rejections }

-- `pollWhilePreparing`: the interval in milliseconds, `none` for `false`
unfoldable pub poll_while_preparing : List Document → Option ℕ
poll_while_preparing items =
    if not (
      any
        (λ d.
          d.inbox_status == some InboxStatus.preparing
          || (d.processing_status == ProcessingStatus.pending
              || d.processing_status == ProcessingStatus.processing))
        items)
    then none
    else if any
        (λ d.
          d.inbox_status == some InboxStatus.preparing && ltb 0 (or_default d.ocr_pages_total 0))
        items
    then some 2000
    else some 3000

unfoldable pub process_targets : List Document → List String → List Document
process_targets documents selected_ids =
    let selected = visible_selected_docs documents selected_ids in
    if ltb 0 (length selected)
    then filter is_processable selected
    else filter is_processable documents

unfoldable pub accept_scope_ids : List Document → List String → List String
accept_scope_ids documents selected_ids =
    let selected = visible_selected_docs documents selected_ids in
    if ltb 0 (length selected) then map (λ d. d.id) selected else map (λ d. d.id) documents

unfoldable pub all_visible_selected : List Document → List String → Bool
all_visible_selected documents selected_ids =
    ltb 0 (length documents) && all (λ d. Sets.has selected_ids d.id) documents

unfoldable pub toggle_expand : List Document → String → WorkState → WorkState
toggle_expand documents id s = elim (find (λ d. d.id == id) documents) [
  | none ↦ s
  | some doc ↦
      let base = or_default s.expanded_ids [] in
      if not (is_doc_settled doc)
      then s
      else if Sets.has base id
      then record s { expanded_ids = some (Sets.delete base id) }
      else record s { expanded_ids = some (Sets.add base id) }
]

unfoldable pub toggle_select_all_visible : List Document → WorkState → WorkState
toggle_select_all_visible documents s =
    if all_visible_selected documents s.selected_ids
    then record s { selected_ids = [] }
    else record s { selected_ids = Sets.add_all [] (map (λ d. d.id) documents) }

-- `for (const id of removeIds) next.delete(id)`
unfoldable pub delete_each : List String → List String → List String
delete_each ids [] = ids
delete_each ids (id ∷ rest) = delete_each (Sets.delete ids id) rest

abbrev pub previewed_removed : Option String → List String → Bool
previewed_removed none ids = false
previewed_removed (some id) ids = nonempty id && Sets.has ids id

unfoldable pub removed_message : ℕ → String
removed_message n =
    if n == 1
    then "Removed 1 document from the queue."
    else template ("Removed " ∷ to_decimal n ∷ " documents from the queue." ∷ [])

module _ {Server : Type 0} where
  -- `removeFromQueue.mutateAsync` succeeds or throws; where it throws nothing is set.
  unfoldable pub confirm_remove :
      (Server → List String → Bool × Server) → Server × WorkState → Server × WorkState
  confirm_remove remove (server, s) = elim s.remove_ids [
    | none ↦ (server, s)
    | some [] ↦ (server, s)
    | some (id ∷ ids) ↦
        let (ok, server2) = remove server (id ∷ ids) in
        if not ok then (server2, s) else (
          server2,
          record s {
            selected_ids = delete_each s.selected_ids (id ∷ ids);
            preview_id = if previewed_removed s.preview_id (id ∷ ids) then none else s.preview_id;
            remove_ids = none;
            result_msg = some (removed_message (length (id ∷ ids)));
          },
        )
  ]

  -- the loop of `handleRetrySuggestionsBatch`: the server, and how many were retried and failed
  unfoldable pub retry_loop :
      (Server → String → Bool × Server) → List Document → Server × ℕ × ℕ → Server × ℕ × ℕ
  retry_loop reprocess [] st = st
  retry_loop reprocess (doc ∷ docs) (server, retried, failed) =
      let (ok, server2) = reprocess server doc.id in
      retry_loop reprocess docs
        (if ok then (server2, retried + 1, failed) else (server2, retried, failed + 1))

unfoldable pub retry_suggestion_targets : List Document → List String → List Document
retry_suggestion_targets documents selected_ids =
    filter can_retry_suggestions (visible_selected_docs documents selected_ids)

unfoldable pub retry_message : ℕ → ℕ → ℕ → String
retry_message retried skipped failed =
    or_text
      (join " · " (
        kept_parts (
          counted_part retried "Retried suggestions for "
            (template (" document" ∷ plural retried ∷ []))
          ∷ counted_part skipped "" " skipped"
          ∷ counted_part failed "" " failed"
          ∷ [])))
      "No suggestions retried"

-- `handleRetrySuggestionsBatch`
unfoldable pub handle_retry_suggestions_batch :
    {Server : Type 0}
    → (Server → String → Bool × Server)
    → Bool
    → List Document
    → Server × WorkState
    → Server × WorkState
handle_retry_suggestions_batch reprocess ai_suggestions_available documents (server, s) =
    let targets = retry_suggestion_targets documents s.selected_ids in
    let skipped = length (visible_selected_docs documents s.selected_ids) - length targets in
    let (server2, retried, failed) = retry_loop reprocess targets (server, 0, 0) in
    if not ai_suggestions_available || length targets == 0
    then (server, s)
    else (server2, record s { result_msg = some (retry_message retried skipped failed) })
