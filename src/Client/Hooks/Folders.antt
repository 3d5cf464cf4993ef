-- ===== src/Client/Hooks/Folders.antt =====
-- Folders and the trash: lib/api/hooks.ts.
use lesspaper_ngl.Client.Hooks.Keys
use lesspaper_ngl.Client.Hooks.{ApiCall, Effect, Mutation, QueryOptions, basic_query, name_parts}
use lesspaper_ngl.Client.Http.{Body}
use lesspaper_ngl.Prelude.{
  Bool, Option, String, [], if◌then◌else◌, or_default, some, true, truthy, ◌∷◌,
}
use lesspaper_ngl.Prelude.Texts.{template}
use lesspaper_ngl.Types.Json.{Json}

unfoldable pub use_folders : Bool → QueryOptions
use_folders trashed =
    if trashed
    then basic_query (name_parts ("folders" ∷ "trashed" ∷ []))
        (ApiCall.get "/api/folders" (("trashed", Json.bool true) ∷ []))
    else basic_query Keys.folders (ApiCall.get "/api/folders" [])

unfoldable pub use_folder : Option String → QueryOptions
use_folder id =
    record (basic_query (Keys.folder (or_default id ""))
      (ApiCall.get (template ("/api/folders/" ∷ (or_default id "undefined") ∷ [])) [])) {
        enabled = truthy id;
      }

unfoldable pub use_create_folder : Mutation Json Json
use_create_folder = record {
  mutation_fn = λ d. ApiCall.post "/api/folders" (Body.value d);
  on_success = λ _ _. Effect.invalidate_queries Keys.folders ∷ [];
}

unfoldable pub use_update_folder : Mutation (String × Json) Json
use_update_folder = record {
  mutation_fn = λ (id, d). ApiCall.patch (template ("/api/folders/" ∷ id ∷ [])) (Body.value d);
  on_success = λ _ _. Effect.invalidate_queries Keys.folders ∷ [];
}

unfoldable pub use_delete_folder : Mutation (String × Json) Json
use_delete_folder = record {
  mutation_fn = λ (id, d). ApiCall.delete (template ("/api/folders/" ∷ id ∷ [])) (Body.value d);
  on_success = λ _ _.
      Effect.invalidate_queries (name_parts ("folders" ∷ []))
      ∷ Effect.invalidate_queries (name_parts ("documents" ∷ []))
      ∷ Effect.invalidate_queries (name_parts ("trash" ∷ []))
      ∷ [];
}

unfoldable pub use_trash_folder : Mutation String Json
use_trash_folder = record {
  mutation_fn = λ id. ApiCall.post (template ("/api/folders/" ∷ id ∷ "/trash" ∷ [])) Body.undefined;
  on_success = λ _ _.
      Effect.invalidate_queries (name_parts ("folders" ∷ []))
      ∷ Effect.invalidate_queries (name_parts ("documents" ∷ []))
      ∷ Effect.invalidate_queries (name_parts ("trash" ∷ []))
      ∷ [];
}

unfoldable pub use_restore_folder : Mutation String Json
use_restore_folder = record {
  mutation_fn =
      λ id. ApiCall.post (template ("/api/folders/" ∷ id ∷ "/restore" ∷ [])) Body.undefined;
  on_success = λ _ _.
      Effect.invalidate_queries (name_parts ("folders" ∷ []))
      ∷ Effect.invalidate_queries (name_parts ("documents" ∷ []))
      ∷ Effect.invalidate_queries (name_parts ("trash" ∷ []))
      ∷ [];
}

unfoldable pub use_purge_folder : Mutation String Json
use_purge_folder = record {
  mutation_fn = λ id. ApiCall.post (template ("/api/folders/" ∷ id ∷ "/purge" ∷ [])) Body.undefined;
  on_success = λ _ _.
      Effect.invalidate_queries (name_parts ("folders" ∷ []))
      ∷ Effect.invalidate_queries (name_parts ("documents" ∷ []))
      ∷ Effect.invalidate_queries (name_parts ("trash" ∷ []))
      ∷ [];
}

unfoldable pub use_trash_count : QueryOptions
use_trash_count =
    record (basic_query (name_parts ("trash" ∷ "count" ∷ [])) (ApiCall.get "/api/trash/count" [])) {
      refetch_interval = some 15000;
    }

unfoldable pub use_empty_trash : Mutation Unit Json
use_empty_trash = record {
  mutation_fn = λ _. ApiCall.post "/api/trash/empty" Body.undefined;
  on_success = λ _ _.
      Effect.invalidate_queries (name_parts ("folders" ∷ []))
      ∷ Effect.invalidate_queries (name_parts ("documents" ∷ []))
      ∷ Effect.invalidate_queries (name_parts ("trash" ∷ []))
      ∷ [];
}
