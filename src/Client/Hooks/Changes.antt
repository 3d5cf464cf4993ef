-- ===== src/Client/Hooks/Changes.antt =====
-- The changes of documents: lib/api/hooks.ts.
use lesspaper_ngl.Client.Hooks.Keys
use lesspaper_ngl.Client.Hooks.{ApiCall, Effect, Mutation, name_parts}
use lesspaper_ngl.Client.Http.{Body}
use lesspaper_ngl.Prelude.{
  List, Option, String, [], if◌then◌else◌, none, or_default, some, truthy, ◌∷◌,
}
use lesspaper_ngl.Prelude.Texts.{template}
use lesspaper_ngl.Types.Document.{Document}
use lesspaper_ngl.Types.Json.{Fields, Items, Json}

unfoldable pub text_items : List String → Items
text_items [] = Items.nil
text_items (s ∷ ss) = Items.cons (Json.text s) (text_items ss)

unfoldable pub use_update_document_metadata : Mutation (String × Json) Document
use_update_document_metadata = record {
  mutation_fn = λ (id, d).
      ApiCall.patch (template ("/api/documents/" ∷ id ∷ "/metadata" ∷ [])) (Body.value d);
  on_success = λ doc _.
      Effect.set_document (Keys.document doc.id) doc
      ∷ Effect.invalidate_queries (name_parts ("documents" ∷ []))
      ∷ [];
}

unfoldable pub use_move_document : Mutation (String × Json) Document
use_move_document = record {
  mutation_fn =
      λ (id, d). ApiCall.post (template ("/api/documents/" ∷ id ∷ "/move" ∷ [])) (Body.value d);
  on_success = λ _ _.
      Effect.invalidate_queries (name_parts ("documents" ∷ []))
      ∷ Effect.invalidate_queries Keys.folders
      ∷ [];
}

unfoldable pub use_trash_document : Mutation String Document
use_trash_document = record {
  mutation_fn =
      λ id. ApiCall.post (template ("/api/documents/" ∷ id ∷ "/trash" ∷ [])) Body.undefined;
  on_success = λ _ _.
      Effect.invalidate_queries (name_parts ("documents" ∷ []))
      ∷ Effect.invalidate_queries Keys.folders
      ∷ Effect.invalidate_queries (name_parts ("trash" ∷ []))
      ∷ [];
}

unfoldable pub use_restore_document : Mutation String Document
use_restore_document = record {
  mutation_fn =
      λ id. ApiCall.post (template ("/api/documents/" ∷ id ∷ "/restore" ∷ [])) Body.undefined;
  on_success = λ _ _.
      Effect.invalidate_queries (name_parts ("documents" ∷ []))
      ∷ Effect.invalidate_queries Keys.folders
      ∷ Effect.invalidate_queries (name_parts ("trash" ∷ []))
      ∷ [];
}

unfoldable pub use_delete_document : Mutation String Json
use_delete_document = record {
  mutation_fn = λ id. ApiCall.delete (template ("/api/documents/" ∷ id ∷ [])) Body.undefined;
  on_success = λ _ _.
      Effect.invalidate_queries (name_parts ("documents" ∷ []))
      ∷ Effect.invalidate_queries (name_parts ("trash" ∷ []))
      ∷ [];
}

unfoldable pub use_bulk_action : Mutation Json Json
use_bulk_action = record {
  mutation_fn = λ d. ApiCall.post "/api/documents/bulk" (Body.value d);
  on_success = λ _ _.
      Effect.invalidate_queries (name_parts ("documents" ∷ []))
      ∷ Effect.invalidate_queries Keys.folders
      ∷ Effect.invalidate_queries Keys.tags
      ∷ Effect.invalidate_queries (name_parts ("trash" ∷ []))
      ∷ Effect.invalidate_queries (name_parts ("inbox-count" ∷ []))
      ∷ [];
}

unfoldable pub use_process_inbox_documents : Mutation (List String) Json
use_process_inbox_documents = record {
  mutation_fn = λ ids. ApiCall.post "/api/documents/process" (
      Body.value
        (Json.object (Fields.field "document_ids" (Json.array (text_items ids)) Fields.end)));
  on_success = λ _ _.
      Effect.invalidate_queries (name_parts ("documents" ∷ []))
      ∷ Effect.invalidate_queries Keys.folders
      ∷ Effect.invalidate_queries (name_parts ("inbox-count" ∷ []))
      ∷ Effect.invalidate_queries (name_parts ("inbox-overview" ∷ []))
      ∷ Effect.invalidate_queries (name_parts ("inbox-activity" ∷ []))
      ∷ [];
}

unfoldable pub use_remove_from_queue : Mutation (List String) Json
use_remove_from_queue = record {
  mutation_fn = λ ids. ApiCall.post "/api/documents/remove-from-queue" (
      Body.value
        (Json.object (Fields.field "document_ids" (Json.array (text_items ids)) Fields.end)));
  on_success = λ _ _.
      Effect.invalidate_queries (name_parts ("documents" ∷ []))
      ∷ Effect.invalidate_queries (name_parts ("inbox-count" ∷ []))
      ∷ Effect.invalidate_queries (name_parts ("inbox-overview" ∷ []))
      ∷ Effect.invalidate_queries (name_parts ("inbox-activity" ∷ []))
      ∷ [];
}

unfoldable pub use_retry_preflight : Mutation String Document
use_retry_preflight = record {
  mutation_fn = λ id.
      ApiCall.post (template ("/api/documents/" ∷ id ∷ "/retry-preflight" ∷ [])) Body.undefined;
  on_success = λ _ _.
      Effect.invalidate_queries (name_parts ("documents" ∷ []))
      ∷ Effect.invalidate_queries (name_parts ("inbox-overview" ∷ []))
      ∷ Effect.invalidate_queries (name_parts ("inbox-activity" ∷ []))
      ∷ [];
}

unfoldable pub use_retry_ocr : Mutation String Document
use_retry_ocr = record {
  mutation_fn =
      λ id. ApiCall.post (template ("/api/documents/" ∷ id ∷ "/retry-ocr" ∷ [])) Body.undefined;
  on_success = λ doc _.
      Effect.set_document (Keys.document doc.id) doc
      ∷ Effect.invalidate_queries (name_parts ("documents" ∷ []))
      ∷ Effect.invalidate_queries (Keys.document_content doc.id)
      ∷ Effect.invalidate_queries (name_parts ("jobs" ∷ []))
      ∷ [];
}

unfoldable pub use_reprocess_embeddings : Mutation String Document
use_reprocess_embeddings = record {
  mutation_fn = λ id.
      ApiCall.post (template ("/api/documents/" ∷ id ∷ "/reprocess-embeddings" ∷ []))
        Body.undefined;
  on_success = λ doc _.
      Effect.set_document (Keys.document doc.id) doc
      ∷ Effect.invalidate_queries (name_parts ("documents" ∷ []))
      ∷ Effect.invalidate_queries (name_parts ("jobs" ∷ []))
      ∷ [];
}

unfoldable pub use_reprocess_suggestions : Mutation String Document
use_reprocess_suggestions = record {
  mutation_fn = λ id.
      ApiCall.post (template ("/api/documents/" ∷ id ∷ "/reprocess-suggestions" ∷ []))
        Body.undefined;
  on_success = λ doc _.
      Effect.set_document (Keys.document doc.id) doc
      ∷ Effect.invalidate_queries (name_parts ("documents" ∷ []))
      ∷ Effect.invalidate_queries (name_parts ("jobs" ∷ []))
      ∷ Effect.invalidate_queries (Keys.ai_suggestions (some doc.id))
      ∷ Effect.invalidate_queries (Keys.ai_suggestions none)
      ∷ [];
}

unfoldable pub use_upload_document : Mutation (String × Option String) Document
use_upload_document = record {
  mutation_fn = λ (file, folder_id). ApiCall.upload "/api/documents/upload" (
      ("file", file)
      ∷ (if truthy folder_id then ("folder_id", or_default folder_id "") ∷ [] else []));
  on_success = λ _ _.
      Effect.invalidate_queries (name_parts ("documents" ∷ []))
      ∷ Effect.invalidate_queries Keys.folders
      ∷ [];
}
