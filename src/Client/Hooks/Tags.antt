-- ===== src/Client/Hooks/Tags.antt =====
-- Tags, document types and correspondents: lib/api/hooks.ts.
use lesspaper_ngl.Client.Hooks.Keys
use lesspaper_ngl.Client.Hooks.{ApiCall, Effect, Mutation, QueryOptions, basic_query}
use lesspaper_ngl.Client.Http.{Body}
use lesspaper_ngl.Prelude.{String, [], ◌∷◌}
use lesspaper_ngl.Prelude.Texts.{template}
use lesspaper_ngl.Types.Json.{Json}

unfoldable pub use_tags : QueryOptions
use_tags = basic_query Keys.tags (ApiCall.get "/api/tags" [])

unfoldable pub use_create_tag : Mutation Json Json
use_create_tag = record {
  mutation_fn = λ d. ApiCall.post "/api/tags" (Body.value d);
  on_success = λ _ _.
      Effect.invalidate_queries Keys.tags ∷ Effect.invalidate_queries Keys.library_overview ∷ [];
}

unfoldable pub use_update_tag : Mutation (String × Json) Json
use_update_tag = record {
  mutation_fn = λ (id, d). ApiCall.patch (template ("/api/tags/" ∷ id ∷ [])) (Body.value d);
  on_success = λ _ _.
      Effect.invalidate_queries Keys.tags ∷ Effect.invalidate_queries Keys.library_overview ∷ [];
}

unfoldable pub use_delete_tag : Mutation String Json
use_delete_tag = record {
  mutation_fn = λ id. ApiCall.delete (template ("/api/tags/" ∷ id ∷ [])) Body.undefined;
  on_success = λ _ _.
      Effect.invalidate_queries Keys.tags ∷ Effect.invalidate_queries Keys.library_overview ∷ [];
}

unfoldable pub use_merge_tags : Mutation Json Json
use_merge_tags = record {
  mutation_fn = λ d. ApiCall.post "/api/tags/merge" (Body.value d);
  on_success = λ _ _.
      Effect.invalidate_queries Keys.tags ∷ Effect.invalidate_queries Keys.library_overview ∷ [];
}

unfoldable pub use_document_types : QueryOptions
use_document_types = basic_query Keys.document_types (ApiCall.get "/api/document-types" [])

unfoldable pub use_correspondents : QueryOptions
use_correspondents = basic_query Keys.correspondents (ApiCall.get "/api/correspondents" [])

unfoldable pub use_create_document_type : Mutation Json Json
use_create_document_type = record {
  mutation_fn = λ d. ApiCall.post "/api/document-types" (Body.value d);
  on_success = λ _ _. Effect.invalidate_queries Keys.document_types ∷ [];
}

unfoldable pub use_create_correspondent : Mutation Json Json
use_create_correspondent = record {
  mutation_fn = λ d. ApiCall.post "/api/correspondents" (Body.value d);
  on_success = λ _ _. Effect.invalidate_queries Keys.correspondents ∷ [];
}
