-- ===== src/Types/Samples.antt =====
-- Values for the tests: a document, a job, a suggestion and a folder with plain fields.
use lesspaper_ngl.Prelude.{List, Option, String, [], false, none, some, true, ◌∷◌}
use lesspaper_ngl.Types.Document.{Document, InboxStatus, ProcessingStatus}
use lesspaper_ngl.Types.Folder.{Folder, FolderKind}
use lesspaper_ngl.Types.Job.{Job, JobStatus, Suggestion}
use lesspaper_ngl.Types.Json.{Fields}

-- filed, indexed and embedded
abbrev pub sample_document : String → Document
sample_document id = record {
  id = id;
  title = "Invoice";
  original_filename = "invoice.pdf";
  mime_type = "application/pdf";
  file_size = 2048;
  page_count = some 2;
  language = none;
  notes = none;
  archive_serial = none;
  folder_id = "f";
  folder_path = some "/Bills";
  document_type_id = none;
  document_type_name = none;
  correspondent_id = none;
  correspondent_name = none;
  tags = [];
  created_date = none;
  effective_date = none;
  added_date = "2026-01-01";
  modified_date = "2026-01-01";
  indexed_at = none;
  processing_status = ProcessingStatus.ready;
  ocr_completed = true;
  ocr_pages_done = none;
  ocr_pages_total = none;
  text_extracted = true;
  document_indexed = true;
  has_embeddings = true;
  chunks_total = some 4;
  chunks_embedded = some 4;
  chunks_failed = some 0;
  embedding_error = none;
  embedding_started_at = none;
  embedding_finished_at = none;
  processing_error = none;
  is_archived = false;
  is_trashed = false;
  trashed_at = none;
  trashed_from_folder_id = none;
  purge_after = none;
  inbox = false;
  needs_review = false;
  inbox_status = none;
  pending_folder_path = none;
  custom_fields = Fields.end;
  ai_summary = none;
  ai_summary_meta = none;
  has_thumbnail = true;
  created_at = "2026-01-01";
  updated_at = "2026-01-01";
}

abbrev pub sample_job : String → String → JobStatus → Job
sample_job document job_type status = record {
  id = "j";
  job_type = job_type;
  status = status;
  document_id = some document;
  priority = 0;
  retry_count = 0;
  error = none;
  created_at = "2026-01-01";
  started_at = none;
  completed_at = none;
}

abbrev pub sample_suggestion : String → String → String → Suggestion
sample_suggestion id document field = record {
  id = id;
  document_id = document;
  field = field;
  value = Fields.end;
  status = "pending";
  provider = none;
  model = none;
  confidence = none;
}

abbrev pub sample_folder : String → Option String → FolderKind → Folder
sample_folder id parent kind = record {
  id = id;
  name = id;
  parent_id = parent;
  kind = kind;
  sort_order = 0;
  path_cache = id;
  is_trashed = none;
  trashed_at = none;
  purge_after = none;
  created_at = "2026-01-01";
  updated_at = "2026-01-01";
  children_count = 0;
  document_count = 0;
}

-- a document of the inbox, of which no page is read yet
abbrev pub sample_inbox_document : String → Option InboxStatus → Document
sample_inbox_document id status = record (sample_document id) {
  folder_path = some "/Inbox";
  inbox = true;
  inbox_status = status;
  text_extracted = false;
  ocr_pages_done = some 0;
  ocr_pages_total = some 4;
  added_date = "2026-01-01";
}

abbrev pub sample_batch : List Document
sample_batch =
    sample_inbox_document "a" (some InboxStatus.preparing)
    ∷ sample_inbox_document "b" (some InboxStatus.ready)
    ∷ sample_inbox_document "c" (some InboxStatus.failed)
    ∷ []
