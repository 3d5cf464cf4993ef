-- ===== src/Client/Hooks/System.antt =====
-- The health of the system, the log and the first steps: lib/api/hooks.ts.
use lesspaper_ngl.Client.Hooks.Keys
use lesspaper_ngl.Client.Hooks.{
  ApiCall, Duration, Effect, KeyPart, Mutation, QueryOptions, Retry, basic_query, name_parts,
}
use lesspaper_ngl.Client.Hooks.Documents.{text_param}
use lesspaper_ngl.Client.Http.{Body}
use lesspaper_ngl.Prelude.{
  Bool, List, Option, String, [], if◌then◌else◌, ltb, nat_eq, none, not, option_eq, or_default,
  some, text_eq, true, truthy, ℕ, ◌&&◌, ◌++◌, ◌==◌, ◌∷◌,
}
use lesspaper_ngl.Prelude.Decimal.{to_decimal}
use lesspaper_ngl.Types.Json.{Json}
use lesspaper_ngl.Types.Params.{LogFilters}

-- a page that is undefined is left out
abbrev page_param : Option ℕ → List (String × Json)
page_param none = []
page_param (some n) = ("page", Json.number (to_decimal n)) ∷ []

unfoldable pub use_health : QueryOptions
use_health = record (basic_query Keys.health (ApiCall.get "/health" [])) {
  stale_time = some Duration.infinite;
  retry = Retry.times 1;
}

unfoldable pub use_storage_health : QueryOptions
use_storage_health = basic_query Keys.storage_health (ApiCall.get "/health/storage" [])

unfoldable pub use_system_summary : QueryOptions
use_system_summary =
    record (basic_query (name_parts ("system" ∷ "summary" ∷ []))
      (ApiCall.get "/api/system/summary" [])) { refetch_interval = some 30000 }

unfoldable pub use_storage_metrics : QueryOptions
use_storage_metrics =
    basic_query (name_parts ("system" ∷ "storage" ∷ [])) (ApiCall.get "/api/system/storage" [])

unfoldable pub use_diagnostics : Mutation Unit Json
use_diagnostics = record {
  mutation_fn = λ _. ApiCall.get "/api/system/diagnostics" [];
  on_success = λ _ _. [];
}

-- the parameters of a page of the log
unfoldable pub logs_query : LogFilters → List (String × Json)
logs_query filters =
    text_param "search" filters.search
    ++ (text_param "level" filters.level
        ++ (text_param "service" filters.service
            ++ (text_param "range" filters.range
                ++ (page_param filters.page ++ (("page_size", Json.number "50") ∷ [])))))

-- `useApplicationLogs`, with the number of fetches that have failed. `buildUrl` leaves out a filter
-- that is undefined or the empty text.
unfoldable pub use_application_logs : LogFilters → Bool → ℕ → QueryOptions
use_application_logs filters live failures =
    record (basic_query (KeyPart.name "logs" ∷ KeyPart.log_filters filters ∷ [])
      (ApiCall.get "/api/logs" (logs_query filters))) {
        keeps_previous = true;
        refetch_interval = if live && ltb failures 3 then some 5000 else none;
      }

unfoldable pub use_clear_application_logs : Mutation Unit Json
use_clear_application_logs = record {
  mutation_fn = λ _. ApiCall.delete "/api/logs" Body.undefined;
  on_success = λ _ _. Effect.invalidate_queries (name_parts ("logs" ∷ [])) ∷ [];
}

unfoldable pub use_about : QueryOptions
use_about = record (basic_query (name_parts ("about" ∷ [])) (ApiCall.get "/api/about" [])) {
  stale_time = some Duration.infinite;
}

unfoldable pub use_inbox_count : QueryOptions
use_inbox_count =
    record (basic_query (name_parts ("inbox-count" ∷ [])) (
      ApiCall.get "/api/documents"
        (("inbox", Json.bool true) ∷ ("page_size", Json.number "1") ∷ []))) {
          stale_time = some (Duration.milliseconds 30000);
        }

-- `useBootstrapStatus`, with the state of the instance that the cache holds
unfoldable pub use_bootstrap_status : Option String → QueryOptions
use_bootstrap_status state =
    record (basic_query Keys.bootstrap_status (ApiCall.get "/api/bootstrap/status" [])) {
      retry = Retry.times 1;
      stale_time = some (Duration.milliseconds 5000);
      refetch_interval =
          if truthy state && not (or_default state "" == "ready") then some 2000 else none;
    }

unfoldable pub use_onboarding_status : Bool → QueryOptions
use_onboarding_status enabled =
    record (basic_query Keys.onboarding_status (ApiCall.get "/api/onboarding/status" [])) {
      enabled = enabled;
      stale_time = some (Duration.milliseconds 5000);
    }

unfoldable pub use_complete_onboarding : Mutation Unit Json
use_complete_onboarding = record {
  mutation_fn = λ _. ApiCall.post "/api/onboarding/complete" Body.undefined;
  on_success = λ status _. Effect.set_query_data Keys.onboarding_status status ∷ [];
}
