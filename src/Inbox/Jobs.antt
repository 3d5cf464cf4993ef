-- ===== src/Inbox/Jobs.antt =====
-- What became of the last request for suggestions of a document: suggestionJobStatus.ts. The order of
-- `localeCompare` is a parameter: `later a b` says that `a` comes after `b`.
pub mod Latest
use lesspaper_ngl.Prelude.{
  Bool, List, Option, String, [], false, filter, get_elem?, if◌then◌else◌, nat_eq, none, option_eq,
  or_default, some, text_eq, true, ℕ, ◌&&◌, ◌==◌, ◌||◌, ◌∷◌,
}
use lesspaper_ngl.Types.Job.{Job, JobStatus, job_status_eq}

pub data SuggestionJobStatus : Type 0 where
  no_status running failed empty : SuggestionJobStatus

-- `completed_at ?? started_at ?? created_at`
abbrev pub job_at : Job → String
job_at j = or_default j.completed_at (or_default j.started_at j.created_at)

abbrev pub is_candidate : String → Job → Bool
is_candidate document_id j =
    j.document_id == some document_id && j.job_type == "metadata_suggestion"

module _ (later : String → String → Bool) where
  -- `sort`, which is stable, by the latest first: a job is put before the first that is not later
  unfoldable pub insert_job : Job → List Job → List Job
  insert_job j [] = j ∷ []
  insert_job j (k ∷ jobs) =
      let rest = insert_job j jobs in if later (job_at k) (job_at j) then k ∷ rest else j ∷ k ∷ jobs

  unfoldable pub sort_jobs : List Job → List Job
  sort_jobs [] = []
  sort_jobs (j ∷ jobs) = insert_job j (sort_jobs jobs)

  unfoldable pub latest_metadata_suggestion_job : List Job → String → Option Job
  latest_metadata_suggestion_job jobs document_id =
      get_elem? (sort_jobs (filter (is_candidate document_id) jobs)) 0

  unfoldable pub suggestion_job_status_for_doc : List Job → String → ℕ → SuggestionJobStatus
  suggestion_job_status_for_doc jobs document_id suggestions_count =
      elim (latest_metadata_suggestion_job jobs document_id) [
        | none ↦ SuggestionJobStatus.no_status
        | some latest ↦
            if latest.status == JobStatus.queued || latest.status == JobStatus.running
            then SuggestionJobStatus.running
            else if latest.status == JobStatus.failed
            then SuggestionJobStatus.failed
            else if latest.status == JobStatus.completed && suggestions_count == 0
            then SuggestionJobStatus.empty
            else SuggestionJobStatus.no_status
      ]

unfoldable pub show_suggestion_failure : SuggestionJobStatus → Bool
show_suggestion_failure SuggestionJobStatus.failed = true
show_suggestion_failure _ = false
