-- ===== src/Inbox/Filing.antt =====
-- Where a document is to be filed, and which suggestions apply: suggestionAcceptFilter.ts,
-- inboxReviewActions.ts, inboxAiFiling.ts, `folderDisplayLabel` of formatMeta.ts, and the predicates
-- `isProcessable` of InboxWorkView.tsx and `hasFilingDestination` of InboxManualFilingPanel.tsx.
pub mod Laws
use lesspaper_ngl.Prelude.Sets
use lesspaper_ngl.Inbox.Paths.{is_system_inbox_path}
use lesspaper_ngl.Prelude.{
  Bool, List, Option, String, [], false, filter, if◌then◌else◌, nat_eq, none, not, option_eq,
  or_default, some, text_eq, true, truthy, ◌&&◌, ◌==◌, ◌||◌, ◌∷◌,
}
use lesspaper_ngl.Prelude.Texts.{template}
use lesspaper_ngl.Types.Document.{
  Document, InboxStatus, ProcessingStatus, inbox_status_eq, processing_status_eq,
}
use lesspaper_ngl.Types.Job.{CapabilityStatus, Suggestion, capability_status_eq}

-- The user has chosen an existing folder or a new path.
unfoldable pub has_manual_destination : Document → Bool
has_manual_destination doc =
    if truthy doc.pending_folder_path
    then true
    else truthy doc.folder_path && not (is_system_inbox_path doc.folder_path)

unfoldable pub should_accept_suggestion : Document → Suggestion → Bool
unfolding has_manual_destination
should_accept_suggestion doc s =
    if s.field == "folder" && has_manual_destination doc then false else true

unfoldable pub has_filing_destination : Document → Bool
has_filing_destination doc =
    if truthy doc.pending_folder_path
    then true
    else truthy doc.folder_path && not (is_system_inbox_path doc.folder_path)

unfoldable pub is_processable : Document → Bool
is_processable doc =
    if doc.inbox_status == some InboxStatus.preparing || doc.inbox_status == some InboxStatus.failed
    then false
    else if truthy doc.pending_folder_path
    then true
    else truthy doc.folder_path && not (is_system_inbox_path doc.folder_path)

unfoldable pub folder_display_label : Document → String
folder_display_label doc =
    if truthy doc.pending_folder_path
    then template ("+ New: " ∷ or_default doc.pending_folder_path "" ∷ [])
    else if not (truthy doc.folder_path) || is_system_inbox_path doc.folder_path
    then "—"
    else or_default doc.folder_path ""

-- Preflight and suggestion work have ended.
unfoldable pub is_doc_settled : Document → Bool
is_doc_settled doc =
    if doc.inbox_status == some InboxStatus.preparing
    then false
    else if doc.processing_status == ProcessingStatus.pending
        || doc.processing_status == ProcessingStatus.processing
    then false
    else true

unfoldable pub can_retry_suggestions : Document → Bool
can_retry_suggestions doc =
    doc.inbox_status == some InboxStatus.ready || doc.inbox_status == some InboxStatus.needs_review

unfoldable pub visible_selected_docs : List Document → List String → List Document
visible_selected_docs documents selected_ids = filter (λ d. Sets.has selected_ids d.id) documents

pub data FilingReason : Type 0 where
  ready controls_off not_assigned : FilingReason

pub record AiFilingState : Type 0 where
  pub indexing_ready : Bool
  pub ai_suggestions_available : Bool
  pub reason : FilingReason

-- what `inboxAiFilingState` reads of the health report; each part may be missing
pub record FilingHealth : Type 0 where
  pub auto_tagging : Option Bool
  pub indexing_status : Option CapabilityStatus

unfoldable pub inbox_ai_filing_state : Option FilingHealth → AiFilingState
inbox_ai_filing_state none = record {
  indexing_ready = false;
  ai_suggestions_available = false;
  reason = FilingReason.not_assigned;
}
inbox_ai_filing_state (some health) =
    let indexing_ready = health.indexing_status == some CapabilityStatus.available in
    let auto_tagging = or_default health.auto_tagging false in
    if indexing_ready && auto_tagging
    then record {
      indexing_ready = true;
      ai_suggestions_available = true;
      reason = FilingReason.ready;
    }
    else if indexing_ready
    then record {
      indexing_ready = true;
      ai_suggestions_available = false;
      reason = FilingReason.controls_off;
    }
    else record {
      indexing_ready = false;
      ai_suggestions_available = false;
      reason = FilingReason.not_assigned;
    }
