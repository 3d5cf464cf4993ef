-- ===== src/Client/Hooks/Asking.antt =====
-- Searching, asking and background jobs: lib/api/hooks.ts. The body of a search is the request as
-- JSON, which the caller gives.
use lesspaper_ngl.Client.Hooks.Keys
use mathlib.Core.Option
use lesspaper_ngl.Client.Hooks.{ApiCall, Effect, Mutation, QueryOptions, basic_query, name_parts}
use lesspaper_ngl.Client.Hooks.Documents.{text_param}
use lesspaper_ngl.Client.Http.{Body}
use lesspaper_ngl.Prelude.{
  Bool, Option, String, [], or_default, some, true, truthy, ℕ, ◌&&◌, ◌++◌, ◌∷◌,
}
use lesspaper_ngl.Prelude.Texts.{template, trim}
use lesspaper_ngl.Types.Json.{Fields, Items, Json}
use lesspaper_ngl.Types.Request.{SearchRequest}

unfoldable pub use_search : Body → SearchRequest → Bool → QueryOptions
use_search body request enabled =
    record (basic_query (Keys.search request) (ApiCall.post "/api/search" body)) {
      enabled = enabled && truthy (Option.map trim request.query);
      keeps_previous = true;
    }

unfoldable pub use_search_mutation : Mutation Json Json
use_search_mutation = record {
  mutation_fn = λ d. ApiCall.post "/api/search" (Body.value d);
  on_success = λ _ _. [];
}

unfoldable pub use_ask_conversation : Option String → QueryOptions
use_ask_conversation document_id =
    record (basic_query (Keys.ask_conversation (or_default document_id "")) (
      ApiCall.get
        (template
          ("/api/documents/" ∷ (or_default document_id "undefined") ∷ "/ask/conversation" ∷ []))
        [])) { enabled = truthy document_id }

unfoldable pub use_ask_document : Mutation (String × Json) Json
use_ask_document = record {
  mutation_fn = λ (document_id, d).
      ApiCall.post (template ("/api/documents/" ∷ document_id ∷ "/ask" ∷ [])) (Body.value d);
  on_success = λ _ vars.
      let (document_id, d) = vars in
      Effect.invalidate_queries (Keys.ask_conversation document_id) ∷ [];
}

unfoldable pub use_new_ask_conversation : Mutation String Json
use_new_ask_conversation = record {
  mutation_fn = λ document_id.
      ApiCall.post (template ("/api/documents/" ∷ document_id ∷ "/ask/conversation/new" ∷ []))
        (Body.value (Json.object Fields.end));
  on_success =
      λ reply document_id. Effect.set_query_data (Keys.ask_conversation document_id) reply ∷ [];
}

unfoldable pub use_clear_ask_conversation : Mutation String Json
use_clear_ask_conversation = record {
  mutation_fn = λ document_id.
      ApiCall.delete (template ("/api/documents/" ∷ document_id ∷ "/ask/conversation" ∷ []))
        Body.undefined;
  on_success = λ _ document_id.
      Effect.set_query_data (Keys.ask_conversation document_id) (
        Json.object (
          Fields.field "id" Json.null (
            Fields.field "document_id" (Json.text document_id) (
              Fields.field "messages" (Json.array Items.nil)
                (Fields.field "updated_at" Json.null Fields.end)))))
      ∷ [];
}

unfoldable pub use_ask : Mutation Json Json
use_ask = record {
  mutation_fn = λ d. ApiCall.post "/api/ask" (Body.value d);
  on_success = λ _ _. [];
}

unfoldable pub use_jobs : Option String → Option String → Option (Option ℕ) → QueryOptions
use_jobs status document_id refetch_interval =
    record (basic_query (Keys.jobs status document_id) (
      ApiCall.get "/api/jobs"
        (text_param "status" status ++ text_param "document_id" document_id))) {
          refetch_interval = or_default refetch_interval (some 5000);
        }

unfoldable pub use_job : Option String → QueryOptions
use_job id =
    record (basic_query (Keys.job (or_default id ""))
      (ApiCall.get (template ("/api/jobs/" ∷ (or_default id "undefined") ∷ [])) [])) {
        enabled = truthy id;
        refetch_interval = some 3000;
      }

unfoldable pub use_cancel_job : Mutation String Json
use_cancel_job = record {
  mutation_fn = λ id. ApiCall.post (template ("/api/jobs/" ∷ id ∷ "/cancel" ∷ [])) Body.undefined;
  on_success = λ _ _. Effect.invalidate_queries (name_parts ("jobs" ∷ [])) ∷ [];
}
