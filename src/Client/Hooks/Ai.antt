-- ===== src/Client/Hooks/Ai.antt =====
-- Providers, policy, assignments and filing suggestions: lib/api/hooks.ts.
use lesspaper_ngl.Client.Hooks.Keys
use lesspaper_ngl.Client.Hooks.{
  ApiCall, Duration, Effect, KeyPart, Mutation, QueryOptions, Retry, basic_query, name_or_null,
  name_parts,
}
use lesspaper_ngl.Client.Http.{Body}
use lesspaper_ngl.Prelude.{
  Bool, List, Option, String, [], if◌then◌else◌, length, ltb, none, or_default, some, true, truthy,
  ◌++◌, ◌∷◌,
}
use lesspaper_ngl.Prelude.Texts.{template}
use lesspaper_ngl.Types.Job.{Suggestion}
use lesspaper_ngl.Types.Json.{Json}

-- a parameter that is left out where it is undefined
abbrev given_text : String → Option String → List (String × Json)
given_text key none = []
given_text key (some s) = (key, Json.text s) ∷ []

unfoldable pub use_ai_providers : QueryOptions
use_ai_providers = basic_query Keys.ai_providers (ApiCall.get "/api/ai/providers" [])

unfoldable pub use_create_ai_provider : Mutation Json Json
use_create_ai_provider = record {
  mutation_fn = λ d. ApiCall.post "/api/ai/providers" (Body.value d);
  on_success = λ _ _. Effect.invalidate_queries Keys.ai_providers ∷ [];
}

unfoldable pub use_update_ai_provider : Mutation (String × Json) Json
use_update_ai_provider = record {
  mutation_fn = λ (id, d). ApiCall.patch (template ("/api/ai/providers/" ∷ id ∷ [])) (Body.value d);
  on_success = λ _ _. Effect.invalidate_queries Keys.ai_providers ∷ [];
}

unfoldable pub use_delete_ai_provider : Mutation String Json
use_delete_ai_provider = record {
  mutation_fn = λ id. ApiCall.delete (template ("/api/ai/providers/" ∷ id ∷ [])) Body.undefined;
  on_success = λ _ _. Effect.invalidate_queries Keys.ai_providers ∷ [];
}

unfoldable pub use_test_ai_provider : Mutation String Json
use_test_ai_provider = record {
  mutation_fn =
      λ id. ApiCall.post (template ("/api/ai/providers/" ∷ id ∷ "/test" ∷ [])) Body.undefined;
  on_success = λ _ _. [];
}

unfoldable pub use_ai_policy : QueryOptions
use_ai_policy = basic_query Keys.ai_policy (ApiCall.get "/api/ai/policy" [])

unfoldable pub use_update_ai_policy : Mutation Json Json
use_update_ai_policy = record {
  mutation_fn = λ d. ApiCall.patch "/api/ai/policy" (Body.value d);
  on_success = λ _ _. Effect.invalidate_queries Keys.ai_policy ∷ [];
}

unfoldable pub use_ai_usage : String → QueryOptions
use_ai_usage range =
    basic_query (Keys.ai_usage ++ name_parts (range ∷ []))
      (ApiCall.get "/api/ai/usage" (("range", Json.text range) ∷ []))

unfoldable pub use_ai_assignments : Option Bool → QueryOptions
use_ai_assignments enabled =
    record (basic_query Keys.ai_assignments (ApiCall.get "/api/ai/assignments" [])) {
      enabled = or_default enabled true;
    }

unfoldable pub use_update_ai_assignment : Mutation Json Json
use_update_ai_assignment = record {
  mutation_fn = λ d. ApiCall.patch "/api/ai/assignments" (Body.value d);
  on_success = λ _ _. Effect.invalidate_queries Keys.ai_assignments ∷ [];
}

unfoldable pub use_provider_models : Option String → QueryOptions
use_provider_models provider_id =
    record (basic_query
      (KeyPart.name "ai"
        ∷ KeyPart.name "providers"
        ∷ name_or_null provider_id
        ∷ KeyPart.name "models"
        ∷ [])
      (ApiCall.get
        (template ("/api/ai/providers/" ∷ or_default provider_id "null" ∷ "/models" ∷ [])) [])) {
          enabled = truthy provider_id;
          retry = Retry.never;
        }

unfoldable pub use_ai_capabilities : QueryOptions
use_ai_capabilities = basic_query Keys.ai_capabilities (ApiCall.get "/api/ai/capabilities" [])

unfoldable pub use_ai_health : QueryOptions
use_ai_health = record (basic_query Keys.ai_health (ApiCall.get "/api/ai/health" [])) {
  refetch_interval = some 3000;
  stale_time = some (Duration.milliseconds 3000);
}

unfoldable pub use_pending_suggestions : Bool → QueryOptions
use_pending_suggestions enabled =
    record (basic_query (Keys.ai_suggestions none)
      (ApiCall.get "/api/ai/suggestions" (("status", Json.text "pending") ∷ []))) {
        enabled = enabled;
        refetch_interval = some 4000;
      }

-- `useDocumentSuggestions`, with the suggestions that the cache holds
unfoldable pub use_document_suggestions : Option String → Option (List Suggestion) → QueryOptions
use_document_suggestions document_id cached =
    record (basic_query (Keys.ai_suggestions document_id) (
      ApiCall.get "/api/ai/suggestions"
        (given_text "document_id" document_id ++ (("status", Json.text "pending") ∷ [])))) {
          enabled = truthy document_id;
          refetch_interval = if ltb 0 (length (or_default cached [])) then none else some 4000;
        }

unfoldable pub use_accept_suggestion : Mutation String Suggestion
use_accept_suggestion = record {
  mutation_fn =
      λ id. ApiCall.post (template ("/api/ai/suggestions/" ∷ id ∷ "/accept" ∷ [])) Body.undefined;
  on_success = λ suggestion _.
      Effect.invalidate_queries (name_parts ("ai" ∷ "suggestions" ∷ []))
      ∷ Effect.invalidate_queries (name_parts ("documents" ∷ []))
      ∷ Effect.invalidate_queries (Keys.document suggestion.document_id)
      ∷ Effect.invalidate_queries Keys.tags
      ∷ Effect.invalidate_queries Keys.folders
      ∷ [];
}

unfoldable pub use_reject_suggestion : Mutation String Suggestion
use_reject_suggestion = record {
  mutation_fn =
      λ id. ApiCall.post (template ("/api/ai/suggestions/" ∷ id ∷ "/reject" ∷ [])) Body.undefined;
  on_success = λ _ _. Effect.invalidate_queries (name_parts ("ai" ∷ "suggestions" ∷ [])) ∷ [];
}
