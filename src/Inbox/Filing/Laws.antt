-- ===== src/Inbox/Filing/Laws.antt =====
-- The places of the program that ask whether a document has a destination agree.
use lesspaper_ngl.Inbox.Filing.{
  FilingHealth, FilingReason, folder_display_label, has_filing_destination, has_manual_destination,
  inbox_ai_filing_state, is_processable, should_accept_suggestion,
}
use lesspaper_ngl.Prelude.{
  [], arith, false, if◌then◌else◌, nat_eq, option_eq, or_default, some, text_eq, true, truthy, ◌==◌,
  ◌↔◌, ◌∷◌, ◌≡◌, ◌≢◌,
}
use lesspaper_ngl.Prelude.Texts.{template}
use lesspaper_ngl.Types.Document.{Document, InboxStatus, inbox_status_eq}
use lesspaper_ngl.Types.Job.{CapabilityStatus, Suggestion, capability_status_eq}

-- A label, the filter of suggestions, the filing panel and the button that files the documents agree
-- on where a document goes: the label is a dash where it has no destination, else the new path in
-- front of the folder's path; the filter refuses exactly the folder suggestions of documents that have
-- a destination; and the documents that can be filed are exactly those with one whose status is
-- neither `preparing` nor `failed`.
destination_agrees :
    (doc : Document) (s : Suggestion)
    → (has_filing_destination doc ≡ false → folder_display_label doc ≡ "—")
      × (has_filing_destination doc ≡ true
          → folder_display_label doc ≡ (
              if truthy doc.pending_folder_path
              then template ("+ New: " ∷ or_default doc.pending_folder_path "" ∷ [])
              else or_default doc.folder_path ""))
      × ((should_accept_suggestion doc s ≡ false)
          ↔ (((s.field == "folder") ≡ true) × (has_filing_destination doc ≡ true)))
      × ((is_processable doc ≡ true) ↔ (
          (has_filing_destination doc ≡ true)
          × (doc.inbox_status ≢ some InboxStatus.preparing)
          × (doc.inbox_status ≢ some InboxStatus.failed)))
unfolding has_filing_destination should_accept_suggestion has_manual_destination
    folder_display_label is_processable
destination_agrees doc s = ground arith

-- Suggestions are available exactly where the reason given is that all is ready, which is where the
-- indexing service is available and automatic tagging is on; and then indexing is ready.
inbox_ai_filing_state_iff :
    (health : FilingHealth)
    → let state = inbox_ai_filing_state (some health) in
      ((state.ai_suggestions_available ≡ true) ↔ (state.reason ≡ FilingReason.ready))
      × ((state.ai_suggestions_available ≡ true) ↔ (
          (health.indexing_status ≡ some CapabilityStatus.available)
          × (health.auto_tagging ≡ some true)))
      × ((state.indexing_ready ≡ true) ↔ (state.reason ≢ FilingReason.not_assigned))
unfolding inbox_ai_filing_state
inbox_ai_filing_state_iff health = ground arith
