-- ===== src/Client/Hooks/Backups.antt =====
-- Setting an instance up, backups and restoring them: lib/api/hooks.ts.
use lesspaper_ngl.Client.Hooks.Keys
use lesspaper_ngl.Client.Hooks.{ApiCall, Effect, Mutation, QueryOptions, basic_query}
use lesspaper_ngl.Client.Http.{Body}
use lesspaper_ngl.Prelude.{Bool, Option, String, [], if◌then◌else◌, none, some, true, ℕ, ◌∷◌}
use lesspaper_ngl.Prelude.Texts.{template}
use lesspaper_ngl.Types.Json.{Fields, Json}

unfoldable pub use_bootstrap_backups : Bool → QueryOptions
use_bootstrap_backups enabled =
    record (basic_query Keys.bootstrap_backups (ApiCall.get "/api/bootstrap/backups" [])) {
      enabled = enabled;
    }

unfoldable pub use_bootstrap_setup : Mutation Unit Json
use_bootstrap_setup = record {
  mutation_fn = λ _. ApiCall.post "/api/bootstrap/setup" Body.undefined;
  on_success = λ _ _. Effect.invalidate_queries Keys.bootstrap_status ∷ [];
}

unfoldable pub use_bootstrap_inspect : Mutation String Json
use_bootstrap_inspect = record {
  mutation_fn = λ filename.
      ApiCall.post "/api/bootstrap/backups/inspect"
        (Body.value (Json.object (Fields.field "filename" (Json.text filename) Fields.end)));
  on_success = λ _ _. [];
}

unfoldable pub use_bootstrap_restore : Mutation String Json
use_bootstrap_restore = record {
  mutation_fn = λ filename. ApiCall.post "/api/bootstrap/restore" (
      Body.value (
        Json.object (
          Fields.field "filename" (Json.text filename)
            (Fields.field "confirm" (Json.bool true) Fields.end))));
  on_success = λ _ _. Effect.invalidate_queries Keys.bootstrap_status ∷ [];
}

unfoldable pub use_backup_settings : QueryOptions
use_backup_settings = basic_query Keys.backup_settings (ApiCall.get "/api/backups/settings" [])

unfoldable pub use_update_backup_settings : Mutation Json Json
use_update_backup_settings = record {
  mutation_fn = λ d. ApiCall.patch "/api/backups/settings" (Body.value d);
  on_success = λ _ _. Effect.invalidate_queries Keys.backup_settings ∷ [];
}

unfoldable pub use_backups : Option ℕ → QueryOptions
use_backups refetch_interval = record (basic_query Keys.backups (ApiCall.get "/api/backups" [])) {
  refetch_interval = refetch_interval;
}

unfoldable pub use_create_backup : Mutation Unit Json
use_create_backup = record {
  mutation_fn = λ _. ApiCall.post "/api/backups" Body.undefined;
  on_success = λ _ _.
      Effect.invalidate_queries Keys.backups ∷ Effect.invalidate_queries Keys.backup_settings ∷ [];
}

unfoldable pub use_verify_backup : Mutation String Json
use_verify_backup = record {
  mutation_fn =
      λ id. ApiCall.post (template ("/api/backups/" ∷ id ∷ "/verify" ∷ [])) Body.undefined;
  on_success = λ _ _. Effect.invalidate_queries Keys.backups ∷ [];
}

unfoldable pub use_delete_backup : Mutation String Json
use_delete_backup = record {
  mutation_fn = λ id.
      ApiCall.delete (template ("/api/backups/" ∷ id ∷ []))
        (Body.value (Json.object (Fields.field "confirm" (Json.bool true) Fields.end)));
  on_success = λ _ _. Effect.invalidate_queries Keys.backups ∷ [];
}

unfoldable pub use_inspect_backup : Mutation String Json
use_inspect_backup = record {
  mutation_fn = λ id. ApiCall.get (template ("/api/backups/" ∷ id ∷ "/inspect" ∷ [])) [];
  on_success = λ _ _. [];
}

unfoldable pub use_restore_backup : Mutation String Json
use_restore_backup = record {
  mutation_fn = λ id.
      ApiCall.post (template ("/api/backups/" ∷ id ∷ "/restore" ∷ []))
        (Body.value (Json.object (Fields.field "confirm" (Json.bool true) Fields.end)));
  on_success = λ _ _.
      Effect.invalidate_queries Keys.backup_restore_status
      ∷ Effect.invalidate_queries Keys.backups
      ∷ [];
}

unfoldable pub use_backup_restore_status : Bool → QueryOptions
use_backup_restore_status enabled =
    record (basic_query Keys.backup_restore_status (ApiCall.get "/api/backups/restore/status" [])) {
      enabled = enabled;
      refetch_interval = if enabled then some 2000 else none;
    }
