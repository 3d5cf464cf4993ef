-- ===== src/Client/Hooks/Auth.antt =====
-- The session, the profile, tokens and passwords: lib/api/hooks.ts.
use lesspaper_ngl.Client.Hooks.Keys
use lesspaper_ngl.Client.Hooks.{
  ApiCall, Duration, Effect, KeyPart, Mutation, Overrides, QueryOptions, Retry, basic_query,
  name_or_null, name_parts, text_or_null, with_overrides,
}
use lesspaper_ngl.Client.Http.{Body}
use lesspaper_ngl.Prelude.{List, Option, String, [], none, some, truthy, ◌*◌, ◌∷◌}
use lesspaper_ngl.Prelude.Texts.{template}
use lesspaper_ngl.Types.Json.{Fields, Json}

-- the session that the server answers with
pub record SessionReply : Type 0 where
  pub csrf_token : String
  pub value : Json

-- `useSession`: a failure of any kind ends the session and gives null
unfoldable pub use_session : Overrides → QueryOptions
use_session o =
    with_overrides o (record (basic_query Keys.session (ApiCall.get "/api/auth/me" [])) {
      retry = Retry.never;
      stale_time = some (Duration.milliseconds (5 * 60 * 1000));
    })

unfoldable pub read_session : Option SessionReply → Json × List Effect
read_session (some session) = (session.value, Effect.handle_session session.csrf_token ∷ [])
read_session none = (Json.null, Effect.clear_session ∷ [])

unfoldable pub use_login : Mutation Json SessionReply
use_login = record {
  mutation_fn = λ d. ApiCall.post "/api/auth/login" (Body.value d);
  on_success = λ session _.
      Effect.handle_session session.csrf_token
      ∷ Effect.set_query_data Keys.session session.value
      ∷ [];
}

unfoldable pub use_logout : Mutation Unit Json
use_logout = record {
  mutation_fn = λ _. ApiCall.post "/api/auth/logout" Body.undefined;
  on_success = λ _ _.
      Effect.clear_session ∷ Effect.set_query_data Keys.session Json.null ∷ Effect.clear ∷ [];
}

unfoldable pub use_registration_status : QueryOptions
use_registration_status =
    record (basic_query (name_parts ("auth" ∷ "registration-status" ∷ []))
      (ApiCall.get "/api/auth/registration-status" [])) {
        stale_time = some (Duration.milliseconds 60000);
      }

unfoldable pub use_register : Mutation Json SessionReply
use_register = record {
  mutation_fn = λ d. ApiCall.post "/api/auth/register" (Body.value d);
  on_success = λ session _.
      Effect.handle_session session.csrf_token
      ∷ Effect.set_query_data Keys.session session.value
      ∷ [];
}

unfoldable pub use_update_profile : Mutation Json Json
use_update_profile = record {
  mutation_fn = λ d. ApiCall.patch "/api/auth/me" (Body.value d);
  on_success = λ _ _. Effect.invalidate_queries Keys.session ∷ [];
}

unfoldable pub use_change_password : Mutation Json Json
use_change_password = record {
  mutation_fn = λ d. ApiCall.post "/api/auth/me/password" (Body.value d);
  on_success = λ _ _.
      Effect.clear_session ∷ Effect.set_query_data Keys.session Json.null ∷ Effect.clear ∷ [];
}

unfoldable pub use_my_usage : QueryOptions
use_my_usage =
    basic_query (name_parts ("auth" ∷ "usage" ∷ [])) (ApiCall.get "/api/auth/me/usage" [])

unfoldable pub use_my_sessions : QueryOptions
use_my_sessions =
    basic_query (name_parts ("auth" ∷ "sessions" ∷ [])) (ApiCall.get "/api/auth/me/sessions" [])

unfoldable pub use_api_tokens : QueryOptions
use_api_tokens = basic_query Keys.api_tokens (ApiCall.get "/api/auth/tokens" [])

unfoldable pub use_create_api_token : Mutation String Json
use_create_api_token = record {
  mutation_fn = λ name.
      ApiCall.post "/api/auth/tokens"
        (Body.value (Json.object (Fields.field "name" (Json.text name) Fields.end)));
  on_success = λ _ _. Effect.invalidate_queries Keys.api_tokens ∷ [];
}

unfoldable pub use_revoke_api_token : Mutation String Json
use_revoke_api_token = record {
  mutation_fn = λ id. ApiCall.delete (template ("/api/auth/tokens/" ∷ id ∷ [])) Body.undefined;
  on_success = λ _ _. Effect.invalidate_queries Keys.api_tokens ∷ [];
}

unfoldable pub use_revoke_session : Mutation String Json
use_revoke_session = record {
  mutation_fn = λ id. ApiCall.delete (template ("/api/auth/me/sessions/" ∷ id ∷ [])) Body.undefined;
  on_success = λ _ _. Effect.invalidate_queries (name_parts ("auth" ∷ "sessions" ∷ [])) ∷ [];
}

unfoldable pub use_sign_out_other_sessions : Mutation Unit Json
use_sign_out_other_sessions = record {
  mutation_fn = λ _. ApiCall.post "/api/auth/me/sessions/sign-out-others" Body.undefined;
  on_success = λ _ _. Effect.invalidate_queries (name_parts ("auth" ∷ "sessions" ∷ [])) ∷ [];
}

unfoldable pub use_upload_avatar : Mutation String Json
use_upload_avatar = record {
  mutation_fn = λ file. ApiCall.upload "/api/auth/me/avatar" (("file", file) ∷ []);
  on_success = λ _ _. Effect.invalidate_queries Keys.session ∷ [];
}

unfoldable pub use_delete_avatar : Mutation Unit Json
use_delete_avatar = record {
  mutation_fn = λ _. ApiCall.delete "/api/auth/me/avatar" Body.undefined;
  on_success = λ _ _. Effect.invalidate_queries Keys.session ∷ [];
}

unfoldable pub use_forgot_password : Mutation String Json
use_forgot_password = record {
  mutation_fn = λ username.
      ApiCall.post "/api/auth/forgot-password"
        (Body.value (Json.object (Fields.field "username" (Json.text username) Fields.end)));
  on_success = λ _ _. [];
}

unfoldable pub use_validate_reset_token : Option String → QueryOptions
use_validate_reset_token token =
    record (basic_query
      (KeyPart.name "auth" ∷ KeyPart.name "reset-validate" ∷ name_or_null token ∷ [])
      (ApiCall.get "/api/auth/reset-password/validate" (("token", text_or_null token) ∷ []))) {
        enabled = truthy token;
        retry = Retry.never;
      }

unfoldable pub use_reset_password : Mutation Json Json
use_reset_password = record {
  mutation_fn = λ d. ApiCall.post "/api/auth/reset-password" (Body.value d);
  on_success = λ _ _. [];
}
