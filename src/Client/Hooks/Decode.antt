-- ===== src/Client/Hooks/Decode.antt =====
-- The keys of the queries do not clash: a key says which request fills it. The code is
-- lib/api/hooks.ts.
use lesspaper_ngl.Prelude.Maps
use lesspaper_ngl.Client.Hooks.{ApiCall, KeyPart}
use lesspaper_ngl.Client.Hooks.Documents.{activity_query, document_params_to_query, text_param}
use lesspaper_ngl.Client.Hooks.Requests.{Query, query_options}
use lesspaper_ngl.Client.Hooks.System.{logs_query}
use lesspaper_ngl.Client.Http.{Body}
use lesspaper_ngl.Prelude.{
  List, Option, String, [], ap, arith, eq_iff, false, if◌then◌else◌, nat_eq, none, option_eq, refl,
  some, sym, text_eq, true, ◌++◌, ◌==◌, ◌∙◌, ◌∷◌, ◌≡◌, ◌≢◌,
}
use lesspaper_ngl.Prelude.Texts.{template}
use lesspaper_ngl.Types.Json.{Json}
use lesspaper_ngl.Types.Request.{SearchRequest}

abbrev pure_get : String → ApiCall
pure_get path = ApiCall.get path []

-- the keys of one text
abbrev single_paths : List (String × ApiCall)
single_paths =
    ("session", pure_get "/api/auth/me")
    ∷ ("users", pure_get "/api/users")
    ∷ ("password-resets", pure_get "/api/users/password-resets")
    ∷ ("invites", pure_get "/api/users/invites")
    ∷ ("folders", pure_get "/api/folders")
    ∷ ("tags", pure_get "/api/tags")
    ∷ ("document-types", pure_get "/api/document-types")
    ∷ ("correspondents", pure_get "/api/correspondents")
    ∷ ("inbox-overview", pure_get "/api/inbox/overview")
    ∷ ("library-overview", pure_get "/api/library/overview")
    ∷ ("health", pure_get "/health")
    ∷ ("about", pure_get "/api/about")
    ∷ (
      "inbox-count",
      ApiCall.get "/api/documents"
          (("inbox", Json.bool true) ∷ ("page_size", Json.number "1") ∷ []),
    )
    ∷ ("backups", pure_get "/api/backups")
    ∷ []

unfoldable pub request_of_pair : String → String → Option ApiCall
unfolding Maps.get
request_of_pair a b =
    if a == "folders"
    then some (
        if b == "trashed"
        then ApiCall.get "/api/folders" (("trashed", Json.bool true) ∷ [])
        else pure_get (template ("/api/folders/" ∷ b ∷ [])))
    else if a == "documents"
    then some (pure_get (template ("/api/documents/" ∷ b ∷ [])))
    else if a == "jobs"
    then some (pure_get (template ("/api/jobs/" ∷ b ∷ [])))
    else if a == "auth"
    then Maps.get
        (("registration-status", pure_get "/api/auth/registration-status")
          ∷ ("usage", pure_get "/api/auth/me/usage")
          ∷ ("sessions", pure_get "/api/auth/me/sessions")
          ∷ ("api-tokens", pure_get "/api/auth/tokens")
          ∷ [])
        b
    else if a == "ai"
    then Maps.get
        (("providers", pure_get "/api/ai/providers")
          ∷ ("policy", pure_get "/api/ai/policy")
          ∷ ("assignments", pure_get "/api/ai/assignments")
          ∷ ("capabilities", pure_get "/api/ai/capabilities")
          ∷ ("health", pure_get "/api/ai/health")
          ∷ [])
        b
    else if a == "system"
    then Maps.get
        (("summary", pure_get "/api/system/summary")
          ∷ ("storage", pure_get "/api/system/storage")
          ∷ [])
        b
    else if a == "bootstrap"
    then Maps.get
        (("status", pure_get "/api/bootstrap/status")
          ∷ ("backups", pure_get "/api/bootstrap/backups")
          ∷ [])
        b
    else if a == "backups"
    then Maps.get
        (("settings", pure_get "/api/backups/settings")
          ∷ ("restore-status", pure_get "/api/backups/restore/status")
          ∷ [])
        b
    else if a == "trash"
    then some (pure_get "/api/trash/count")
    else if a == "storage"
    then some (pure_get "/health/storage")
    else if a == "onboarding"
    then some (pure_get "/api/onboarding/status")
    else none

abbrev not_all : String → Option String
not_all s = if s == "all" then none else some s

not_all-some : (s : String) → some s ≢ some "all" → not_all s ≡ some s
not_all-some s h = ground (arith, h, eq_iff s "all")

abbrev jobs_call : Option String → Option String → Option ApiCall
jobs_call status document_id =
    some
      (ApiCall.get "/api/jobs" (text_param "status" status ++ text_param "document_id" document_id))

unfoldable pub request_of_triple : String → String → String → Option ApiCall
request_of_triple a b c =
    if a == "documents"
    then (if c == "content"
        then some (pure_get (template ("/api/documents/" ∷ b ∷ "/content" ∷ [])))
        else some (pure_get (template ("/api/documents/" ∷ b ∷ "/ask/conversation" ∷ []))))
    else if a == "jobs"
    then some (
        ApiCall.get "/api/jobs"
          (text_param "status" (not_all b) ++ text_param "document_id" (not_all c)))
    else if a == "ai"
    then (if b == "usage"
        then some (ApiCall.get "/api/ai/usage" (("range", Json.text c) ∷ []))
        else some (
            ApiCall.get "/api/ai/suggestions" (
              (if c == "all" then [] else ("document_id", Json.text c) ∷ [])
              ++ (("status", Json.text "pending") ∷ []))))
    else some (ApiCall.get "/api/auth/reset-password/validate" (("token", Json.text c) ∷ []))

-- the request that fills a key
unfoldable pub request_of : (SearchRequest → Body) → List KeyPart → Option ApiCall
unfolding request_of_pair request_of_triple Maps.get
request_of to_body (KeyPart.name a ∷ []) = Maps.get single_paths a
request_of to_body (KeyPart.name a ∷ KeyPart.list_params p ∷ []) =
    some (ApiCall.get "/api/documents" (document_params_to_query p))
request_of to_body (KeyPart.name a ∷ KeyPart.search_params r ∷ []) =
    some (ApiCall.post "/api/search" (to_body r))
request_of to_body (KeyPart.name a ∷ KeyPart.activity_params p ∷ []) =
    some (ApiCall.get "/api/inbox/activity" (activity_query p))
request_of to_body (KeyPart.name a ∷ KeyPart.log_filters f ∷ []) =
    some (ApiCall.get "/api/logs" (logs_query f))
request_of to_body (KeyPart.name a ∷ KeyPart.name b ∷ []) = request_of_pair a b
request_of to_body (KeyPart.name a ∷ KeyPart.name b ∷ KeyPart.name c ∷ []) = request_of_triple a b c
request_of to_body (KeyPart.name a ∷ KeyPart.name b ∷ KeyPart.name c ∷ KeyPart.list_params p ∷ []) =
    some (
      ApiCall.get (template ("/api/folders/" ∷ b ∷ "/documents" ∷ []))
        (document_params_to_query (record p { folder_id = none })))
request_of to_body (KeyPart.name a ∷ KeyPart.name b ∷ KeyPart.name c ∷ KeyPart.name d ∷ []) =
    some (pure_get (template ("/api/ai/providers/" ∷ c ∷ "/models" ∷ [])))
request_of to_body key = none

-- The texts that a key uses for something else are no identifiers, and the parameters of a folder's
-- list do not name a folder.
abbrev pub IsProper : Query → Type 0
IsProper (Query.folder id) = id ≢ some "trashed"
IsProper (Query.folder_documents folder_id params) = params.folder_id ≡ none
IsProper (Query.jobs status document_id interval) =
    (status ≢ some "all") × (document_id ≢ some "all")
IsProper (Query.document_suggestions id cached) = id ≢ some "all"
IsProper _ = Unit

request_of-query_key :
    (to_body : SearchRequest → Body) (q : Query)
    → IsProper q
    → (query_options to_body q).enabled ≡ true
    → request_of to_body (query_options to_body q).query_key ≡ some (query_options to_body q).call
unfolding query_options request_of
request_of-query_key to_body (Query.reset_token none) proper on = cc
request_of-query_key to_body (Query.reset_token (some s)) proper on = refl
request_of-query_key to_body (Query.folders true) proper on = refl
request_of-query_key to_body (Query.folders false) proper on = refl
request_of-query_key to_body (Query.folder none) proper on = cc
request_of-query_key to_body (Query.folder (some s)) proper on =
    ground (arith, eq_iff s "trashed", proper)
request_of-query_key to_body (Query.folder_documents none params) proper on = cc
request_of-query_key to_body (Query.folder_documents (some s) params) proper on = λ i. some (
    ApiCall.get (template ("/api/folders/" ∷ s ∷ "/documents" ∷ []))
      (document_params_to_query (record params { folder_id = sym proper i })))
request_of-query_key to_body (Query.document none cached) proper on = cc
request_of-query_key to_body (Query.document (some s) cached) proper on = refl
request_of-query_key to_body (Query.document_content none) proper on = cc
request_of-query_key to_body (Query.document_content (some s)) proper on = refl
request_of-query_key to_body (Query.ask_conversation none) proper on = cc
request_of-query_key to_body (Query.ask_conversation (some s)) proper on = refl
request_of-query_key to_body (Query.jobs none none interval) proper on = refl
request_of-query_key to_body (Query.jobs none (some d) interval) proper on =
    ap (λ o. jobs_call none o) (not_all-some d proper.1)
request_of-query_key to_body (Query.jobs (some s) none interval) proper on =
    ap (λ o. jobs_call o none) (not_all-some s proper.0)
request_of-query_key to_body (Query.jobs (some s) (some d) interval) proper on =
    ap (λ o. jobs_call o (not_all d)) (not_all-some s proper.0)
    ∙ ap (λ o. jobs_call (some s) o) (not_all-some d proper.1)
request_of-query_key to_body (Query.job none) proper on = cc
request_of-query_key to_body (Query.job (some s)) proper on = refl
request_of-query_key to_body (Query.provider_models none) proper on = cc
request_of-query_key to_body (Query.provider_models (some s)) proper on = refl
request_of-query_key to_body (Query.document_suggestions none cached) proper on = cc
request_of-query_key to_body (Query.document_suggestions (some s) cached) proper on =
    ground (arith, eq_iff s "all", proper)
request_of-query_key to_body q proper on = refl

-- The cache never answers one query with what another has fetched: two enabled queries that have the
-- same key send the same request, if no identifier is one of the texts `trashed` and `all`, which the
-- keys use for something else, and the parameters of a folder's list do not name a folder.
pub query_key-call :
    (to_body : SearchRequest → Body) (p q : Query)
    → IsProper p
    → IsProper q
    → (query_options to_body p).enabled ≡ true
    → (query_options to_body q).enabled ≡ true
    → (query_options to_body p).query_key ≡ (query_options to_body q).query_key
    → (query_options to_body p).call ≡ (query_options to_body q).call
query_key-call to_body p q proper_p proper_q on_p on_q same =
    let e = request_of-query_key to_body p proper_p on_p in
    let f = request_of-query_key to_body q proper_q on_q in cc
