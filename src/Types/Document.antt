-- ===== src/Types/Document.antt =====
-- A document as the server sends it, and its two status fields.
use lesspaper_ngl.Prelude.{
  Bool, Eq, List, Option, String, false, nat_eq, option_eq, text_eq, true, ℕ,
}
use lesspaper_ngl.Types.Json.{Fields}

pub data InboxStatus : Type 0 where
  preparing ready needs_review failed : InboxStatus

-- `processing_status`
pub data ProcessingStatus : Type 0 where
  pending processing ready failed partial : ProcessingStatus

abbrev inbox_status_beq : InboxStatus → InboxStatus → Bool
inbox_status_beq InboxStatus.preparing InboxStatus.preparing = true
inbox_status_beq InboxStatus.ready InboxStatus.ready = true
inbox_status_beq InboxStatus.needs_review InboxStatus.needs_review = true
inbox_status_beq InboxStatus.failed InboxStatus.failed = true
inbox_status_beq _ _ = false

abbrev processing_status_beq : ProcessingStatus → ProcessingStatus → Bool
processing_status_beq ProcessingStatus.pending ProcessingStatus.pending = true
processing_status_beq ProcessingStatus.processing ProcessingStatus.processing = true
processing_status_beq ProcessingStatus.ready ProcessingStatus.ready = true
processing_status_beq ProcessingStatus.failed ProcessingStatus.failed = true
processing_status_beq ProcessingStatus.partial ProcessingStatus.partial = true
processing_status_beq _ _ = false

instance abbrev pub inbox_status_eq : Eq InboxStatus
inbox_status_eq = record { beq = inbox_status_beq }

instance abbrev pub processing_status_eq : Eq ProcessingStatus
processing_status_eq = record { beq = processing_status_beq }

pub record TagBrief : Type 0 where
  pub id : String
  pub name : String
  pub color : String

pub record Document : Type 0 where
  pub id : String
  pub title : String
  pub original_filename : String
  pub mime_type : String
  pub file_size : ℕ
  pub page_count : Option ℕ
  pub language : Option String
  pub notes : Option String
  pub archive_serial : Option String
  pub folder_id : String
  pub folder_path : Option String
  pub document_type_id : Option String
  pub document_type_name : Option String
  pub correspondent_id : Option String
  pub correspondent_name : Option String
  pub tags : List TagBrief
  pub created_date : Option String
  pub effective_date : Option String
  pub added_date : String
  pub modified_date : String
  pub indexed_at : Option String
  pub processing_status : ProcessingStatus
  pub ocr_completed : Bool
  pub ocr_pages_done : Option ℕ
  pub ocr_pages_total : Option ℕ
  pub text_extracted : Bool
  pub document_indexed : Bool
  pub has_embeddings : Bool
  pub chunks_total : Option ℕ
  pub chunks_embedded : Option ℕ
  pub chunks_failed : Option ℕ
  pub embedding_error : Option String
  pub embedding_started_at : Option String
  pub embedding_finished_at : Option String
  pub processing_error : Option String
  pub is_archived : Bool
  pub is_trashed : Bool
  pub trashed_at : Option String
  pub trashed_from_folder_id : Option String
  pub purge_after : Option String
  pub inbox : Bool
  pub needs_review : Bool
  pub inbox_status : Option InboxStatus
  pub pending_folder_path : Option String
  pub custom_fields : Fields
  pub ai_summary : Option String
  pub ai_summary_meta : Option Fields
  pub has_thumbnail : Bool
  pub created_at : String
  pub updated_at : String
