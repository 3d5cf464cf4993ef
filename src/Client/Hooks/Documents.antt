-- ===== src/Client/Hooks/Documents.antt =====
-- The lists of documents, the overviews, and one document: lib/api/hooks.ts.
use lesspaper_ngl.Client.Hooks.Keys
use mathlib.Core.Option
use lesspaper_ngl.Client.Hooks.{
  ApiCall, Effect, Mutation, Overrides, QueryOptions, basic_query, with_overrides,
}
use lesspaper_ngl.Client.Http.{Body}
use lesspaper_ngl.Documents.LibraryState.{order_text, sort_text}
use lesspaper_ngl.Documents.Readiness.{document_needs_processing_poll}
use lesspaper_ngl.Prelude.{
  Bool, List, Option, String, [], false, if◌then◌else◌, length, ltb, nat_eq, none, option_eq,
  or_default, some, text_eq, true, truthy, ℕ, ◌++◌, ◌==◌, ◌∷◌,
}
use lesspaper_ngl.Prelude.Decimal.{to_decimal}
use lesspaper_ngl.Prelude.Texts.{join, template}
use lesspaper_ngl.Types.Document.{Document, InboxStatus, inbox_status_eq}
use lesspaper_ngl.Types.Json.{Json}
use lesspaper_ngl.Types.Params.{InboxActivityParams}
use lesspaper_ngl.Types.Request.{DocumentListParams}

unfoldable pub inbox_status_text : InboxStatus → String
inbox_status_text InboxStatus.preparing = "preparing"
inbox_status_text InboxStatus.ready = "ready"
inbox_status_text InboxStatus.needs_review = "needs_review"
inbox_status_text InboxStatus.failed = "failed"

-- `if (value) q[key] = value`, and `if (value !== undefined) q[key] = value`
abbrev pub text_param : String → Option String → List (String × Json)
text_param key value = if truthy value then (key, Json.text (or_default value "")) ∷ [] else []

abbrev pub number_param : String → Option ℕ → List (String × Json)
number_param key none = []
number_param key (some n) = if n == 0 then [] else (key, Json.number (to_decimal n)) ∷ []

abbrev pub flag_param : String → Option Bool → List (String × Json)
flag_param key value = if or_default value false then (key, Json.bool true) ∷ [] else []

abbrev pub given_param : String → Option Bool → List (String × Json)
given_param key none = []
given_param key (some b) = (key, Json.bool b) ∷ []

unfoldable pub document_params_to_query : DocumentListParams → List (String × Json)
unfolding inbox_status_text
document_params_to_query params =
    text_param "folder_id" params.folder_id
    ++ (flag_param "include_descendants" params.include_descendants
        ++ (given_param "inbox" params.inbox
            ++ (text_param "inbox_status" (Option.map inbox_status_text params.inbox_status)
                ++ (flag_param "trashed" params.trashed
                    ++ (given_param "unprocessed" params.unprocessed
                        ++ (text_param "tag_ids" (
                              if ltb 0 (length (or_default params.tag_ids []))
                              then some (join "," (or_default params.tag_ids []))
                              else none)
                            ++ (text_param "q" params.q
                                ++ (number_param "page" params.page
                                    ++ (number_param "page_size" params.page_size
                                        ++ (text_param "sort" (Option.map sort_text params.sort)
                                            ++ text_param "order"
                                                (Option.map order_text params.order)))))))))))

unfoldable pub use_documents : DocumentListParams → Overrides → QueryOptions
use_documents params o = with_overrides o (
    basic_query (Keys.documents params)
      (ApiCall.get "/api/documents" (document_params_to_query params)))

unfoldable pub use_inbox_overview : Overrides → QueryOptions
use_inbox_overview o =
    with_overrides o (basic_query Keys.inbox_overview (ApiCall.get "/api/inbox/overview" []))

unfoldable pub activity_query : InboxActivityParams → List (String × Json)
activity_query params =
    number_param "range_days" params.range_days
    ++ (text_param "tab" params.tab
        ++ (text_param "q" params.q
            ++ (number_param "page" params.page ++ number_param "page_size" params.page_size)))

unfoldable pub use_inbox_activity : InboxActivityParams → Overrides → QueryOptions
use_inbox_activity params o = with_overrides o (
    basic_query (Keys.inbox_activity params)
      (ApiCall.get "/api/inbox/activity" (activity_query params)))

unfoldable pub use_library_overview : QueryOptions
use_library_overview = basic_query Keys.library_overview (ApiCall.get "/api/library/overview" [])

unfoldable pub use_reset_library_statistics : Mutation Unit Json
use_reset_library_statistics = record {
  mutation_fn = λ _. ApiCall.post "/api/library/reset-statistics" Body.undefined;
  on_success = λ _ _.
      Effect.invalidate_queries Keys.library_overview
      ∷ Effect.invalidate_queries Keys.inbox_overview
      ∷ [];
}

unfoldable pub use_folder_documents : Option String → DocumentListParams → QueryOptions
use_folder_documents folder_id params =
    record (basic_query
      (Keys.folder_documents (or_default folder_id "") (record params { folder_id = folder_id }))
      (ApiCall.get
        (template ("/api/folders/" ∷ or_default folder_id "undefined" ∷ "/documents" ∷ []))
        (document_params_to_query params))) { enabled = truthy folder_id }

-- `useDocument`, with the document that the cache holds
unfoldable pub use_document : Option String → Option Document → QueryOptions
use_document id cached =
    record (basic_query (Keys.document (or_default id ""))
      (ApiCall.get (template ("/api/documents/" ∷ or_default id "undefined" ∷ [])) [])) {
        enabled = truthy id;
        refetch_interval = elim cached [
          | none ↦ none
          | some doc ↦ if document_needs_processing_poll doc then some 3000 else none
        ];
      }

unfoldable pub use_document_content : Option String → QueryOptions
use_document_content id =
    record (basic_query (Keys.document_content (or_default id "")) (
      ApiCall.get (template ("/api/documents/" ∷ (or_default id "undefined") ∷ "/content" ∷ []))
        [])) { enabled = truthy id }
