-- ===== src/Client/Hooks/Users.antt =====
-- The administration of users: lib/api/hooks.ts.
use lesspaper_ngl.Client.Hooks.{ApiCall, Effect, Mutation, QueryOptions, basic_query, name_parts}
use lesspaper_ngl.Client.Http.{Body}
use lesspaper_ngl.Prelude.{Bool, Option, String, [], if◌then◌else◌, none, or_default, some, ◌∷◌}
use lesspaper_ngl.Prelude.Texts.{template}
use lesspaper_ngl.Types.Json.{Fields, Json}

unfoldable pub use_admin_users : QueryOptions
use_admin_users = basic_query (name_parts ("users" ∷ [])) (ApiCall.get "/api/users" [])

unfoldable pub use_password_reset_requests : Bool → QueryOptions
use_password_reset_requests enabled =
    record (basic_query (name_parts ("password-resets" ∷ []))
      (ApiCall.get "/api/users/password-resets" [])) {
        refetch_interval = if enabled then some 30000 else none;
        enabled = enabled;
      }

unfoldable pub use_approve_password_reset : Mutation String Json
use_approve_password_reset = record {
  mutation_fn = λ id.
      ApiCall.post (template ("/api/users/password-resets/" ∷ id ∷ "/approve" ∷ [])) Body.undefined;
  on_success = λ _ _. Effect.invalidate_queries (name_parts ("password-resets" ∷ [])) ∷ [];
}

unfoldable pub use_reject_password_reset : Mutation String Json
use_reject_password_reset = record {
  mutation_fn = λ id.
      ApiCall.post (template ("/api/users/password-resets/" ∷ id ∷ "/reject" ∷ [])) Body.undefined;
  on_success = λ _ _. Effect.invalidate_queries (name_parts ("password-resets" ∷ [])) ∷ [];
}

unfoldable pub use_update_admin_user : Mutation (String × Json) Json
use_update_admin_user = record {
  mutation_fn = λ (id, d). ApiCall.patch (template ("/api/users/" ∷ id ∷ [])) (Body.value d);
  on_success = λ _ _. Effect.invalidate_queries (name_parts ("users" ∷ [])) ∷ [];
}

unfoldable pub use_delete_admin_user : Mutation String Json
use_delete_admin_user = record {
  mutation_fn = λ id. ApiCall.delete (template ("/api/users/" ∷ id ∷ [])) Body.undefined;
  on_success = λ _ _. Effect.invalidate_queries (name_parts ("users" ∷ [])) ∷ [];
}

unfoldable pub use_admin_set_password : Mutation (String × String) Json
use_admin_set_password = record {
  mutation_fn = λ (id, password).
      ApiCall.post (template ("/api/users/" ∷ id ∷ "/password" ∷ []))
        (Body.value (Json.object (Fields.field "password" (Json.text password) Fields.end)));
  on_success = λ _ _. [];
}

unfoldable pub use_create_invite : Mutation (Option Json) Json
use_create_invite = record {
  mutation_fn =
      λ d. ApiCall.post "/api/users/invites" (Body.value (or_default d (Json.object Fields.end)));
  on_success = λ _ _. Effect.invalidate_queries (name_parts ("invites" ∷ [])) ∷ [];
}

unfoldable pub use_invites : QueryOptions
use_invites = basic_query (name_parts ("invites" ∷ [])) (ApiCall.get "/api/users/invites" [])

unfoldable pub use_revoke_invite : Mutation String Json
use_revoke_invite = record {
  mutation_fn = λ id. ApiCall.delete (template ("/api/users/invites/" ∷ id ∷ [])) Body.undefined;
  on_success = λ _ _. Effect.invalidate_queries (name_parts ("invites" ∷ [])) ∷ [];
}
