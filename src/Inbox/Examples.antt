-- ===== src/Inbox/Examples.antt =====
-- The theorems of the inbox at concrete documents, jobs and suggestions.
use lesspaper_ngl.Prelude.Maps
use lesspaper_ngl.Prelude.Sets
use lesspaper_ngl.Client.Upload.{UploadEntry, UploadOutcome, count_outcome, empty_summary}
use lesspaper_ngl.Inbox.AcceptAll.{accept_all_suggestions, accept_targets, accept_url}
use lesspaper_ngl.Inbox.AcceptAll.Laws.{
  accept_all_suggestions-counts, accept_all_suggestions-keeps, count, is_sent,
}
use lesspaper_ngl.Inbox.Filing.{has_manual_destination, should_accept_suggestion}
use lesspaper_ngl.Inbox.Jobs.Latest.{IsOrder}
use lesspaper_ngl.Inbox.Phases.{inbox_batch_progress}
use lesspaper_ngl.Inbox.Phases.Laws.{IsBatch, inbox_batch_progress-IsBatch}
use lesspaper_ngl.Inbox.Rejections.{parse_session_rejections}
use lesspaper_ngl.Inbox.Rejections.Laws.{parse_session_rejections-count_outcome, told}
use lesspaper_ngl.Prelude.{
  Bool, In, List, String, [], ap, arith, false, inl, inr, ltb, map, nat_eq, none, not, option_eq,
  refl, some, sym, text_eq, true, ◌!=◌, ◌+◌, ◌∙◌, ◌∷◌, ◌≡◌, ◌≢◌,
}
use lesspaper_ngl.Prelude.Floats.{fixed_point}
use lesspaper_ngl.Prelude.Texts.{includes_char, text_length}
use lesspaper_ngl.Types.Document.{Document}
use lesspaper_ngl.Types.Job.{Job, JobStatus, Suggestion, job_status_eq}
use lesspaper_ngl.Types.Samples.{sample_batch, sample_document, sample_job, sample_suggestion}

abbrev jobs_of_a : List Job
jobs_of_a = sample_job "a" "ocr" JobStatus.running ∷ []

inbox_batch_progress-IsBatch_example :
    IsBatch fixed_point sample_batch (inbox_batch_progress fixed_point sample_batch jobs_of_a)
inbox_batch_progress-IsBatch_example =
    inbox_batch_progress-IsBatch fixed_point sample_batch jobs_of_a

-- a server that notes the paths of the requests, and refuses the one for the suggestion `x`
abbrev noting_post : List String → String → Bool × List String
noting_post log path = (path != "/api/ai/suggestions/x/accept", path ∷ log)

abbrev three_suggestions : List Suggestion
three_suggestions =
    sample_suggestion "x" "a" "title"
    ∷ sample_suggestion "y" "b" "folder"
    ∷ sample_suggestion "z" "a" "folder"
    ∷ []

abbrev filed_documents : List (String × Document)
filed_documents = ("b", record (sample_document "b") { pending_folder_path = some "/Taxes" }) ∷ []

accept_all_suggestions-counts_example :
    let t =
      (accept_all_suggestions noting_post three_suggestions
        ("a" ∷ "b" ∷ [])
        filed_documents
        []).1 in
    let targets = accept_targets three_suggestions ("a" ∷ "b" ∷ []) in
    (t.accepted + t.failed ≡ count (is_sent filed_documents) targets)
    × (t.skipped ≡ count (λ s. not (is_sent filed_documents s)) targets)
accept_all_suggestions-counts_example =
    accept_all_suggestions-counts noting_post filed_documents three_suggestions ("a" ∷ "b" ∷ []) []

-- a server that notes whether there was a request
abbrev flag_post : Bool → String → Bool × Bool
flag_post asked path = (true, true)

clash : true ≢ false
clash e = cc

-- Of the document `b`, which has a folder, only the suggestion of a folder is pending.
none_to_send :
    (s : Suggestion)
    → In s three_suggestions
    → Sets.has ("b" ∷ []) s.document_id ≡ true
    → is_sent filed_documents s ≡ true
    → (asked : Bool) → asked ≡ false
    → (flag_post asked (accept_url s)).1 ≡ false
unfolding Sets.has Maps.get should_accept_suggestion has_manual_destination
none_to_send s (inl e) scope on asked h =
    absurd (clash (sym scope ∙ ap (λ t. Sets.has ("b" ∷ []) t.document_id) e))
none_to_send s (inr (inl e)) scope on asked h =
    absurd (clash (sym on ∙ ap (λ t. is_sent filed_documents t) e))
none_to_send s (inr (inr (inl e))) scope on asked h =
    absurd (clash (sym scope ∙ ap (λ t. Sets.has ("b" ∷ []) t.document_id) e))
none_to_send s (inr (inr (inr n))) scope on asked h = absurd n

accept_all_suggestions-keeps_example :
    (accept_all_suggestions flag_post three_suggestions ("b" ∷ []) filed_documents false).0 ≡ false
accept_all_suggestions-keeps_example =
    accept_all_suggestions-keeps flag_post filed_documents (λ asked. asked ≡ false)
      three_suggestions ("b" ∷ []) false none_to_send refl

parse_session_rejections-count_outcome_example :
    let entry : UploadEntry = record {
      file = record { name = "a.exe"; webkit_relative_path = none };
      relative_path = "docs/a.exe";
    } in
    let summary =
      count_outcome entry (UploadOutcome.failed "type: not allowed") (empty_summary 1) in
    map told (parse_session_rejections (λ n. n) 0 summary.errors).0
    ≡ ("docs/a.exe", "type: not allowed") ∷ []
unfolding includes_char
parse_session_rejections-count_outcome_example =
    parse_session_rejections-count_outcome (λ n. n) 0 1
      (record {
        file = record { name = "a.exe"; webkit_relative_path = none };
        relative_path = "docs/a.exe";
      })
      "type: not allowed" refl

-- texts in the order of their lengths
abbrev longer : String → String → Bool
longer a b = ltb (text_length b) (text_length a)

longer-IsOrder : IsOrder longer
longer-IsOrder = record { asym = λ a b h. ground arith; trans = λ a b c h k. ground arith }
