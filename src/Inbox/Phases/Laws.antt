-- ===== src/Inbox/Phases/Laws.antt =====
-- What the progress of the inbox promises: its numbers add up, and no percentage passes 100.
use lesspaper_ngl.Folders.Descendants.Loop.{known}
use lesspaper_ngl.Inbox.Phases.{
  InboxBatchProgress, InboxRowProgress, PhaseState, ProcessingLabel, has_active_job, has_job,
  has_running_ocr_job, inbox_batch_progress, inbox_row_progress, indexing_phase_state, is_completed,
  is_preparing, ocr_job_types, ocr_phase_state, ocr_row_progress, page_shown,
  resolve_processing_label,
}
use lesspaper_ngl.Prelude.{
  All, Bool, List, Option, String, [], any, any_mono, arith, false, filter, length,
  length-filter-le, max, min, nat_eq, none, option_eq, refl, some, suc, text_eq, true, zero, ℕ,
  ◌&&◌, ◌+◌, ◌<◌, ◌==◌, ◌||◌, ◌↔◌, ◌∷◌, ◌≡◌, ◌≢◌, ◌≤◌,
}
use lesspaper_ngl.Prelude.Floats.{Floats, percent-le, percent_mono, percent_self}
use lesspaper_ngl.Types.Document.{Document, InboxStatus, inbox_status_eq}
use lesspaper_ngl.Types.Job.{Job, JobStatus, job_status_eq}

widen :
    (a b c d : Bool) → (a && (b && (c || false))) ≡ true → (a && (b && (d || (c || false)))) ≡ true
widen a b c d h = ground arith

active_of_running :
    (jobs : List Job) (id : String)
    → has_running_ocr_job jobs id ≡ true
    → has_active_job jobs id ocr_job_types ≡ true
unfolding has_running_ocr_job has_active_job has_job
active_of_running jobs id h =
    any_mono _ _ jobs
      (λ j.
        widen (j.document_id == some id) (any (λ t. t == j.job_type) ocr_job_types)
          (JobStatus.running == j.status) (JobStatus.queued == j.status))
      h

running_of_active :
    (doc : Document) (jobs : List Job)
    → has_active_job jobs doc.id ocr_job_types ≡ true
    → ocr_phase_state doc jobs ≡ PhaseState.running
unfolding ocr_phase_state
running_of_active doc jobs h = rw h refl

completed-preparing :
    (docs : List Document)
    → length (filter is_completed docs) + length (filter is_preparing docs) ≤ length docs
completed-preparing [] = omega arith
completed-preparing (d ∷ docs) = ground (arith, completed-preparing docs)

-- Indexing is only shown as running or done for a document with text that no text extraction works on.
indexing_after_ocr :
    (doc : Document) (jobs : List Job)
    → indexing_phase_state doc jobs ≢ PhaseState.pending
    → (doc.text_extracted ≡ true) × (has_active_job jobs doc.id ocr_job_types ≡ false)
unfolding indexing_phase_state ocr_phase_state
indexing_after_ocr doc jobs h = ground arith

-- The label of a settled status is the status itself; for another document the label is `Indexing`
-- exactly if its text is there and no text extraction works on it, and `Queued` exactly if its text
-- is missing and no text extraction is running.
resolve_processing_label_lem :
    (doc : Document) (jobs : List Job)
    → ((s : InboxStatus)
        → doc.inbox_status ≡ some s
        → s ≢ InboxStatus.preparing
        → resolve_processing_label doc jobs ≡ ProcessingLabel.status s)
      × ((resolve_processing_label doc jobs ≡ ProcessingLabel.indexing)
          ↔ ((is_completed doc ≡ false) × (ocr_phase_state doc jobs ≡ PhaseState.done)))
      × ((resolve_processing_label doc jobs ≡ ProcessingLabel.queued) ↔ (
          (is_completed doc ≡ false)
          × (doc.text_extracted ≡ false)
          × (has_running_ocr_job jobs doc.id ≡ false)))
unfolding resolve_processing_label ocr_phase_state
resolve_processing_label_lem doc jobs = ground (arith, active_of_running jobs doc.id)

-- A document counts as completed once it has a status that is not `preparing`.
abbrev pub is_finished : Document → Bool
is_finished d = elim d.inbox_status [
  | none ↦ false
  | some InboxStatus.preparing ↦ false
  | some InboxStatus.needs_review ↦ true
  | some InboxStatus.ready ↦ true
  | some InboxStatus.failed ↦ true
]

is_completed-eq-is_finished : (d : Document) → is_completed d ≡ is_finished d
is_completed-eq-is_finished d = ground arith

completed_finished :
    (docs : List Document) → length (filter is_completed docs) ≡ length (filter is_finished docs)
completed_finished [] = refl
completed_finished (d ∷ docs) =
    ground (arith, is_completed-eq-is_finished d, completed_finished docs)

finished_length :
    (docs : List Document)
    → All (λ d. is_finished d ≡ true) docs
    → length (filter is_finished docs) ≡ length docs
finished_length [] h = refl
finished_length (d ∷ docs) (h, hs) = ground (arith, h, finished_length docs hs)

module _ (fl : Floats) where
  ocr_row_progress-bounds :
      (done known : Option ℕ) (p : ℕ)
      → (ocr_row_progress fl done known).percent ≡ some p
      → (p ≤ 100)
        × (pages : ℕ) × (total : ℕ) × (done ≡ some pages)
        × (known ≡ some total)
        × (1 ≤ page_shown pages total)
        × (page_shown pages total ≤ total)
  unfolding ocr_row_progress
  ocr_row_progress-bounds none known p h = ground arith
  ocr_row_progress-bounds (some pages) none p h = ground arith
  ocr_row_progress-bounds (some pages) (some zero) p h = ground arith
  ocr_row_progress-bounds (some pages) (some (suc n)) p h = (
    ground (arith, percent-le fl (min (max pages 0) (suc n)) (suc n)),
    pages,
    suc n,
    refl,
    refl,
    omega arith,
    omega arith,
  )

  -- Where a preparing document shows a percentage, its pages are known: the percentage is at most 100,
  -- and the page that the label names is between 1 and the number of pages.
  inbox_row_progress-bounds :
      (doc : Document) (jobs : List Job) (row : InboxRowProgress) (p : ℕ)
      → inbox_row_progress fl doc jobs ≡ some row
      → row.percent ≡ some p
      → (p ≤ 100)
        × (pages : ℕ) × (total : ℕ) × (doc.ocr_pages_done ≡ some pages)
        × (doc.ocr_pages_total ≡ some total)
        × (1 ≤ page_shown pages total)
        × (page_shown pages total ≤ total)
  unfolding inbox_row_progress
  inbox_row_progress-bounds doc jobs row p h k =
      ground (arith, ocr_row_progress-bounds doc.ocr_pages_done doc.ocr_pages_total p)

  pub record IsBatch (docs : List Document) (b : InboxBatchProgress) : Type 0 where
    pub parts : b.completed + b.active + b.queued ≤ b.total
    pub preparing : b.active + b.queued ≡ length (filter is_preparing docs)
    pub bound : b.percent ≤ 100
    pub all : b.total ≡ length docs
    pub finished : b.completed ≡ length (filter is_finished docs)
    pub full : All (λ d. is_finished d ≡ true) docs → 0 < length docs → b.percent ≡ 100
    pub shown : (b.visible ≡ true) ↔ (0 < b.active + b.queued)

  -- In the progress of a batch the completed documents are those with a status other than `preparing`,
  -- the active and queued ones are those being prepared, together they are at most all documents, the
  -- percentage is at most 100 and is 100 when all of at least one document are completed, and the bar is visible exactly while some document is prepared.
  pub inbox_batch_progress-IsBatch :
      (docs : List Document) (jobs : List Job) → IsBatch docs (inbox_batch_progress fl docs jobs)
  unfolding inbox_batch_progress
  inbox_batch_progress-IsBatch docs jobs =
      let total = length docs in
      let completed = length (filter is_completed docs) in
      let preparing = filter is_preparing docs in
      let active = length (filter (λ d. has_running_ocr_job jobs d.id) preparing) in
      let le = length-filter-le (λ d. has_running_ocr_job jobs d.id) preparing in
      ground (
        arith,
        completed-preparing docs,
        completed_finished docs,
        finished_length docs,
        le,
        percent-le fl completed total,
        percent_self fl total,
      )

  -- A document that completes does not make the percentage of its batch smaller.
  percent-completed_mono :
      (docs later : List Document) (jobs jobs2 : List Job)
      → length docs ≡ length later
      → length (filter is_completed docs) ≤ length (filter is_completed later)
      → (inbox_batch_progress fl docs jobs).percent ≤ (inbox_batch_progress fl later jobs2).percent
  unfolding inbox_batch_progress
  percent-completed_mono docs later jobs jobs2 same h = ground (
    arith,
    percent_mono fl (length (filter is_completed docs)) (length (filter is_completed later))
        (length later),
  )
