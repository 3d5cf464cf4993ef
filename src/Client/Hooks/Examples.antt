-- ===== src/Client/Hooks/Examples.antt =====
-- The theorems on queries and mutations, at concrete ones.
use lesspaper_ngl.Client.Csrf.{CsrfState, get_csrf_token, read_cookie}
use lesspaper_ngl.Client.Hooks.{Effect, KeyPart}
use lesspaper_ngl.Client.Hooks.Asking.{use_jobs}
use lesspaper_ngl.Client.Hooks.Auth.{
  SessionReply, read_session, use_change_password, use_login, use_logout, use_register,
}
use lesspaper_ngl.Client.Hooks.Decode.{query_key-call}
use lesspaper_ngl.Client.Hooks.Laws.{is_clear, on_effects, on_effects-session}
use lesspaper_ngl.Client.Hooks.Requests.{Query, query_options}
use lesspaper_ngl.Client.Http.{Body}
use lesspaper_ngl.Prelude.{Bool, List, any, none, refl, some, true, ◌≡◌}
use lesspaper_ngl.Types.Document.{Document}
use lesspaper_ngl.Types.Json.{Json}
use lesspaper_ngl.Types.Samples.{sample_document}

-- a match of keys by the names that they begin with, and as such a match of every key that one begins
abbrev matches_all : List KeyPart → List KeyPart → Bool
matches_all k key = true

abbrev sample_reply : Document
sample_reply = sample_document "d"

abbrev some_session : SessionReply
some_session = record { csrf_token = "t1"; value = Json.null }

on_effects-session_example :
    let s : CsrfState = record { token = none; cookie = "folium_csrf=t0" } in
    let token_after =
      λ (effects : List Effect). (get_csrf_token (λ c. c) (on_effects effects s)).0 in
    let from_cookie = read_cookie (λ c. c) "folium_csrf" s.cookie in
    (token_after (use_login.on_success some_session Json.null) ≡ some "t1")
    × (token_after (use_register.on_success some_session Json.null) ≡ some "t1")
    × (token_after (read_session (some some_session)).1 ≡ some "t1")
    × (token_after (read_session none).1 ≡ from_cookie)
    × (token_after (use_logout.on_success Json.null tt) ≡ from_cookie)
    × (token_after (use_change_password.on_success Json.null Json.null) ≡ from_cookie)
    × (any is_clear (use_logout.on_success Json.null tt) ≡ true)
    × (any is_clear (use_change_password.on_success Json.null Json.null) ≡ true)
on_effects-session_example =
    on_effects-session (λ c. c) some_session Json.null Json.null
      (record { token = none; cookie = "folium_csrf=t0" }) refl

query_key-call_example :
    (query_options (λ r. Body.undefined) (Query.jobs none (some "d") none)).call
    ≡ (query_options (λ r. Body.undefined) (Query.jobs none (some "d") (some none))).call
unfolding query_options use_jobs
query_key-call_example =
    query_key-call (λ r. Body.undefined) (Query.jobs none (some "d") none)
      (Query.jobs none (some "d") (some none)) (λ e. cc, λ e. cc) (λ e. cc, λ e. cc) refl refl refl
