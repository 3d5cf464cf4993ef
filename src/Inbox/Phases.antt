-- ===== src/Inbox/Phases.antt =====
-- The progress of documents that the inbox prepares: inboxPreparingPhases.ts.
pub mod Laws
use lesspaper_ngl.Prelude.{
  Bool, List, Option, String, [], any, false, filter, if◌then◌else◌, is_some, length, ltb, max, min,
  nat_eq, none, not, option_eq, some, suc, text_eq, true, ℕ, ◌!=◌, ◌&&◌, ◌-◌, ◌==◌, ◌||◌, ◌∷◌,
}
use lesspaper_ngl.Prelude.Decimal.{to_decimal}
use lesspaper_ngl.Prelude.Floats.{Floats, percent}
use lesspaper_ngl.Prelude.Texts.{template}
use lesspaper_ngl.Types.Document.{
  Document, InboxStatus, ProcessingStatus, inbox_status_eq, processing_status_eq,
}
use lesspaper_ngl.Types.Job.{Job, JobStatus, job_status_eq}

pub data PhaseState : Type 0 where
  pending running done : PhaseState

-- `"queued" | "ocr" | "indexing" | InboxStatus`
pub data ProcessingLabel : Type 0 where
  queued ocr indexing : ProcessingLabel
  status : InboxStatus → ProcessingLabel

abbrev pub ocr_job_types : List String
ocr_job_types = "text_extraction" ∷ "ocr" ∷ []

abbrev pub indexing_job_types : List String
indexing_job_types = "metadata_suggestion" ∷ []

abbrev pub active_statuses : List JobStatus
active_statuses = JobStatus.queued ∷ JobStatus.running ∷ []

-- `jobs` missing is the empty list, which has the same answer.
unfoldable pub has_job : List Job → String → List String → List JobStatus → Bool
has_job jobs document_id types statuses =
    any
      (λ j.
        j.document_id == some document_id
        && (any (λ t. t == j.job_type) types && any (λ s. s == j.status) statuses))
      jobs

unfoldable pub has_active_job : List Job → String → List String → Bool
has_active_job jobs document_id types = has_job jobs document_id types active_statuses

unfoldable pub has_running_ocr_job : List Job → String → Bool
has_running_ocr_job jobs document_id =
    has_job jobs document_id ocr_job_types (JobStatus.running ∷ [])

unfoldable pub ocr_phase_state : Document → List Job → PhaseState
ocr_phase_state doc jobs =
    if has_active_job jobs doc.id ocr_job_types
    then PhaseState.running
    else if doc.text_extracted
    then PhaseState.done
    else PhaseState.pending

abbrev is_done : PhaseState → Bool
is_done PhaseState.done = true
is_done _ = false

abbrev is_empty : List Job → Bool
is_empty [] = true
is_empty (_ ∷ _) = false

unfoldable pub indexing_phase_state : Document → List Job → PhaseState
indexing_phase_state doc jobs =
    if not (is_done (ocr_phase_state doc jobs))
    then PhaseState.pending
    else if has_active_job jobs doc.id indexing_job_types
    then PhaseState.running
    else if doc.inbox_status == some InboxStatus.preparing
        || (doc.processing_status == ProcessingStatus.pending
            || doc.processing_status == ProcessingStatus.processing)
    then if is_empty jobs
      then PhaseState.running
      else if has_active_job jobs doc.id ("thumbnail" ∷ [])
      then PhaseState.pending
      else PhaseState.running
    else PhaseState.done

abbrev resolve_preparing : Document → List Job → ProcessingLabel
resolve_preparing doc jobs =
    if has_running_ocr_job jobs doc.id
    then ProcessingLabel.ocr
    else if not doc.text_extracted
    then ProcessingLabel.queued
    else if not (is_done (ocr_phase_state doc jobs))
    then ProcessingLabel.ocr
    else ProcessingLabel.indexing

unfoldable pub resolve_processing_label : Document → List Job → ProcessingLabel
resolve_processing_label doc jobs = elim doc.inbox_status [
  | some InboxStatus.failed ↦ ProcessingLabel.status InboxStatus.failed
  | some InboxStatus.ready ↦ ProcessingLabel.status InboxStatus.ready
  | some InboxStatus.needs_review ↦ ProcessingLabel.status InboxStatus.needs_review
  | some InboxStatus.preparing ↦ resolve_preparing doc jobs
  | none ↦ resolve_preparing doc jobs
]

unfoldable pub processing_label_text : ProcessingLabel → String
processing_label_text ProcessingLabel.queued = "Queued"
processing_label_text ProcessingLabel.ocr = "OCR"
processing_label_text ProcessingLabel.indexing = "Indexing"
processing_label_text (ProcessingLabel.status InboxStatus.preparing) = "Preparing"
processing_label_text (ProcessingLabel.status InboxStatus.ready) = "Ready"
processing_label_text (ProcessingLabel.status InboxStatus.needs_review) = "Needs review"
processing_label_text (ProcessingLabel.status InboxStatus.failed) = "Failed"

pub record InboxRowProgress : Type 0 where
  pub label : String
  pub percent : Option ℕ

pub record InboxBatchProgress : Type 0 where
  pub total : ℕ
  pub completed : ℕ
  pub active : ℕ
  pub queued : ℕ
  pub percent : ℕ
  pub visible : Bool

abbrev pub page_shown : ℕ → ℕ → ℕ
page_shown pages total = min (max pages 1) total

abbrev pub is_completed : Document → Bool
is_completed d = is_some d.inbox_status && d.inbox_status != some InboxStatus.preparing

abbrev pub is_preparing : Document → Bool
is_preparing d = d.inbox_status == some InboxStatus.preparing

module _ (fl : Floats) where
  unfoldable pub ocr_row_progress : Option ℕ → Option ℕ → InboxRowProgress
  ocr_row_progress (some pages) (some (suc n)) = record {
    label = template (
        "OCR · Processing page "
        ∷ to_decimal (page_shown pages (suc n))
        ∷ " of "
        ∷ to_decimal (suc n)
        ∷ []);
    percent = some (percent fl (min (max pages 0) (suc n)) (suc n));
  }
  ocr_row_progress _ _ = record { label = "OCR · Extracting…"; percent = none }

  abbrev label_progress : Document → ProcessingLabel → Option InboxRowProgress
  label_progress doc ProcessingLabel.queued = none
  label_progress doc ProcessingLabel.ocr =
      some (ocr_row_progress doc.ocr_pages_done doc.ocr_pages_total)
  label_progress doc _ = some (record { label = "Indexing…"; percent = none })

  unfoldable pub inbox_row_progress : Document → List Job → Option InboxRowProgress
  inbox_row_progress doc jobs =
      if doc.inbox_status != some InboxStatus.preparing
      then none
      else label_progress doc (resolve_processing_label doc jobs)

  unfoldable pub inbox_batch_progress : List Document → List Job → InboxBatchProgress
  inbox_batch_progress docs jobs =
      let total = length docs in
      let completed = length (filter is_completed docs) in
      let preparing = filter is_preparing docs in
      let active = length (filter (λ d. has_running_ocr_job jobs d.id) preparing) in
      record {
        total = total;
        completed = completed;
        active = active;
        queued = length preparing - active;
        percent = if total == 0 then 0 else percent fl completed total;
        visible = ltb 0 (length preparing);
      }
