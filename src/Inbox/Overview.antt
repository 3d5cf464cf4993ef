-- ===== src/Inbox/Overview.antt =====
-- The overview of the inbox: inboxPresentation.ts. The clock, the reading of dates and the change of
-- case are parameters.
pub mod Laws
use mathlib.Core.Option
use lesspaper_ngl.Prelude.{
  Bool, Eq, List, Option, String, [], false, filter, if◌then◌else◌, leb, length, nat_eq, none,
  nonempty, not, option_eq, or_default, or_text, some, text_eq, true, ℕ, ◌&&◌, ◌+◌, ◌-◌, ◌==◌, ◌||◌,
  ◌∷◌,
}
use lesspaper_ngl.Prelude.Floats.{Floats}
use lesspaper_ngl.Prelude.Texts.{begins_with, drop_text, includes, split_on, text_length, trim}
use lesspaper_ngl.Types.Document.{
  Document, InboxStatus, ProcessingStatus, inbox_status_eq, processing_status_eq,
}

pub data PresentationStatus : Type 0 where
  queued processing processed needs_review failed : PresentationStatus

abbrev presentation_status_beq : PresentationStatus → PresentationStatus → Bool
presentation_status_beq PresentationStatus.queued PresentationStatus.queued = true
presentation_status_beq PresentationStatus.processing PresentationStatus.processing = true
presentation_status_beq PresentationStatus.processed PresentationStatus.processed = true
presentation_status_beq PresentationStatus.needs_review PresentationStatus.needs_review = true
presentation_status_beq PresentationStatus.failed PresentationStatus.failed = true
presentation_status_beq _ _ = false

instance abbrev pub presentation_status_eq : Eq PresentationStatus
presentation_status_eq = record { beq = presentation_status_beq }

pub data ActivityTab : Type 0 where
  recent processed failed : ActivityTab

pub record OverviewMetrics : Type 0 where
  pub processed : ℕ
  pub failed : ℕ
  pub processing : ℕ
  pub total_ingested : ℕ

unfoldable pub to_presentation_status : Document → Option PresentationStatus
to_presentation_status doc = elim doc.inbox_status [
  | none ↦ none
  | some InboxStatus.failed ↦ some PresentationStatus.failed
  | some InboxStatus.ready ↦ some PresentationStatus.processed
  | some InboxStatus.needs_review ↦ some PresentationStatus.needs_review
  | some InboxStatus.preparing ↦
      if doc.processing_status == ProcessingStatus.processing
      then some PresentationStatus.processing
      else some PresentationStatus.queued
]

unfoldable pub presentation_label : PresentationStatus → String
presentation_label PresentationStatus.queued = "Queued"
presentation_label PresentationStatus.processing = "Processing"
presentation_label PresentationStatus.processed = "Processed"
presentation_label PresentationStatus.needs_review = "Needs review"
presentation_label PresentationStatus.failed = "Failed"

-- `s.split(c).pop()`
abbrev last_part : List String → String
last_part [] = ""
last_part (s ∷ []) = s
last_part (s ∷ t ∷ rest) = last_part (t ∷ rest)

unfoldable pub matches_presentation_filter : Document → Option PresentationStatus → Bool
matches_presentation_filter doc none = true
matches_presentation_filter doc (some filter) = to_presentation_status doc == some filter

unfoldable pub filter_by_activity_tab : List Document → ActivityTab → List Document
filter_by_activity_tab docs ActivityTab.recent = docs
filter_by_activity_tab docs ActivityTab.failed =
    filter (λ d. d.inbox_status == some InboxStatus.failed) docs
filter_by_activity_tab docs ActivityTab.processed =
    filter
      (λ d.
        d.inbox_status == some InboxStatus.ready || d.inbox_status == some InboxStatus.needs_review)
      docs

module _ (to_upper_case to_lower_case : String → String) where
  unfoldable pub file_type_label : Document → String
  file_type_label doc =
      let mime = doc.mime_type in
      let from_name = last_part (split_on 46 doc.original_filename) in
      if mime == "application/pdf"
      then "PDF"
      else if mime == "application/vnd.openxmlformats-officedocument.wordprocessingml.document"
      then "DOCX"
      else if mime == "application/msword"
      then "DOC"
      else if mime == "text/csv"
      then "CSV"
      else if mime == "text/plain"
      then "TXT"
      else if begins_with mime "image/"
      then or_text (to_upper_case (drop_text 6 mime)) "Image"
      else if includes mime "zip"
      then "ZIP"
      else if nonempty from_name && leb (text_length from_name) 5
      then to_upper_case from_name
      else or_text (to_upper_case (last_part (split_on 47 mime))) "File"

  unfoldable pub matches_search : Document → String → Bool
  matches_search doc query =
      let q = to_lower_case (trim query) in
      if not (nonempty q)
      then true
      else includes (to_lower_case doc.original_filename) q
        || includes (to_lower_case doc.title) q
        || or_default (Option.map (λ n. includes (to_lower_case n) q) doc.document_type_name) false

unfoldable pub count_status : Document → OverviewMetrics → OverviewMetrics
count_status doc m =
    if doc.inbox_status == some InboxStatus.ready
      || doc.inbox_status == some InboxStatus.needs_review
    then record m { processed = m.processed + 1 }
    else if doc.inbox_status == some InboxStatus.failed
    then record m { failed = m.failed + 1 }
    else if doc.inbox_status == some InboxStatus.preparing
    then record m { processing = m.processing + 1 }
    else m

unfoldable pub count_overview : List Document → OverviewMetrics → OverviewMetrics
count_overview [] m = m
count_overview (doc ∷ docs) m = count_overview docs (count_status doc m)

-- `(processed / terminal) * 100`
unfoldable pub success_rate : (fl : Floats) → OverviewMetrics → Option fl.Num
success_rate fl m =
    if m.processed + m.failed == 0
    then none
    else some
        (fl.times (fl.div (fl.num m.processed) (fl.num (m.processed + m.failed))) (fl.num 100))

-- The reading of a date in milliseconds, `none` where it is no date, and the midnight at which the
-- local day that many days before a time began.
module _ (parse_date : String → Option ℕ) (day_start : ℕ → ℕ → ℕ) where
  unfoldable pub in_date_range : Document → ℕ → ℕ → Bool
  in_date_range doc days now = elim (parse_date doc.added_date) [
    | none ↦ false
    | some added ↦ leb (day_start now (days - 1)) added && leb added now
  ]

  unfoldable pub compute_overview_metrics : List Document → ℕ → ℕ → OverviewMetrics
  compute_overview_metrics docs days now =
      let in_range = filter (λ d. in_date_range d days now) docs in
      count_overview in_range
        (record { processed = 0; failed = 0; processing = 0; total_ingested = length in_range })
