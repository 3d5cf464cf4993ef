-- ===== src/Client/Hooks/Requests.antt =====
-- Which request a key of the cache stands for: the keys and the requests of all queries of
-- lib/api/hooks.ts.
use lesspaper_ngl.Client.Hooks.{Overrides, QueryOptions, with_overrides}
use lesspaper_ngl.Client.Hooks.Ai.{
  use_ai_assignments, use_ai_capabilities, use_ai_health, use_ai_policy, use_ai_providers,
  use_ai_usage, use_document_suggestions, use_pending_suggestions, use_provider_models,
}
use lesspaper_ngl.Client.Hooks.Asking.{use_ask_conversation, use_job, use_jobs, use_search}
use lesspaper_ngl.Client.Hooks.Auth.{
  use_api_tokens, use_my_sessions, use_my_usage, use_registration_status, use_session,
  use_validate_reset_token,
}
use lesspaper_ngl.Client.Hooks.Backups.{
  use_backup_restore_status, use_backup_settings, use_backups, use_bootstrap_backups,
}
use lesspaper_ngl.Client.Hooks.Documents.{
  use_document, use_document_content, use_documents, use_folder_documents, use_inbox_activity,
  use_inbox_overview, use_library_overview,
}
use lesspaper_ngl.Client.Hooks.Folders.{use_folder, use_folders, use_trash_count}
use lesspaper_ngl.Client.Hooks.System.{
  use_about, use_application_logs, use_bootstrap_status, use_health, use_inbox_count,
  use_onboarding_status, use_storage_health, use_storage_metrics, use_system_summary,
}
use lesspaper_ngl.Client.Hooks.Tags.{use_correspondents, use_document_types, use_tags}
use lesspaper_ngl.Client.Hooks.Users.{use_admin_users, use_invites, use_password_reset_requests}
use lesspaper_ngl.Client.Http.{Body}
use lesspaper_ngl.Prelude.{Bool, List, Option, String, none, ℕ}
use lesspaper_ngl.Types.Document.{Document}
use lesspaper_ngl.Types.Job.{Suggestion}
use lesspaper_ngl.Types.Params.{InboxActivityParams, LogFilters}
use lesspaper_ngl.Types.Request.{DocumentListParams, SearchRequest}

-- The queries, each with what its hook gets; `to_body` writes the request of a search as JSON.
pub data Query : Type 0 where
  session registration_status my_usage my_sessions api_tokens admin_users invites : Query
  reset_token : Option String → Query
  password_resets : Bool → Query
  folders : Bool → Query
  folder : Option String → Query
  trash_count tags document_types correspondents : Query
  documents : DocumentListParams → Overrides → Query
  inbox_overview : Overrides → Query
  inbox_activity : InboxActivityParams → Overrides → Query
  library_overview : Query
  folder_documents : Option String → DocumentListParams → Query
  document : Option String → Option Document → Query
  document_content : Option String → Query
  search : SearchRequest → Bool → Query
  ask_conversation : Option String → Query
  jobs : Option String → Option String → Option (Option ℕ) → Query
  job : Option String → Query
  ai_providers ai_policy ai_capabilities ai_health : Query
  ai_usage : String → Query
  ai_assignments : Option Bool → Query
  provider_models : Option String → Query
  pending_suggestions : Bool → Query
  document_suggestions : Option String → Option (List Suggestion) → Query
  health storage_health system_summary storage_metrics about inbox_count : Query
  bootstrap_status : Option String → Query
  onboarding_status : Bool → Query
  bootstrap_backups : Bool → Query
  backup_settings : Query
  backups : Option ℕ → Query
  backup_restore_status : Bool → Query
  application_logs : LogFilters → Bool → ℕ → Query

abbrev no_overrides : Overrides
no_overrides = record { enabled = none; refetch_interval = none; stale_time = none }

unfoldable pub query_options : (SearchRequest → Body) → Query → QueryOptions
unfolding with_overrides use_session use_registration_status use_my_usage use_my_sessions
    use_api_tokens use_admin_users use_invites use_validate_reset_token use_password_reset_requests
    use_folders use_folder use_trash_count use_tags use_document_types use_correspondents
    use_documents use_inbox_overview use_inbox_activity use_library_overview use_folder_documents
    use_document use_document_content use_search use_ask_conversation use_jobs use_job
    use_ai_providers use_ai_policy use_ai_capabilities use_ai_health use_ai_usage use_ai_assignments
    use_provider_models use_pending_suggestions use_document_suggestions use_health
    use_storage_health use_system_summary use_storage_metrics use_about use_inbox_count
    use_bootstrap_status use_onboarding_status use_bootstrap_backups use_backup_settings use_backups
    use_backup_restore_status use_application_logs
query_options to_body Query.session = use_session no_overrides
query_options to_body Query.registration_status = use_registration_status
query_options to_body Query.my_usage = use_my_usage
query_options to_body Query.my_sessions = use_my_sessions
query_options to_body Query.api_tokens = use_api_tokens
query_options to_body Query.admin_users = use_admin_users
query_options to_body Query.invites = use_invites
query_options to_body (Query.reset_token token) = use_validate_reset_token token
query_options to_body (Query.password_resets enabled) = use_password_reset_requests enabled
query_options to_body (Query.folders trashed) = use_folders trashed
query_options to_body (Query.folder id) = use_folder id
query_options to_body Query.trash_count = use_trash_count
query_options to_body Query.tags = use_tags
query_options to_body Query.document_types = use_document_types
query_options to_body Query.correspondents = use_correspondents
query_options to_body (Query.documents params o) = use_documents params o
query_options to_body (Query.inbox_overview o) = use_inbox_overview o
query_options to_body (Query.inbox_activity params o) = use_inbox_activity params o
query_options to_body Query.library_overview = use_library_overview
query_options to_body (Query.folder_documents folder_id params) =
    use_folder_documents folder_id params
query_options to_body (Query.document id cached) = use_document id cached
query_options to_body (Query.document_content id) = use_document_content id
query_options to_body (Query.search request enabled) = use_search (to_body request) request enabled
query_options to_body (Query.ask_conversation id) = use_ask_conversation id
query_options to_body (Query.jobs status document_id interval) =
    use_jobs status document_id interval
query_options to_body (Query.job id) = use_job id
query_options to_body Query.ai_providers = use_ai_providers
query_options to_body Query.ai_policy = use_ai_policy
query_options to_body Query.ai_capabilities = use_ai_capabilities
query_options to_body Query.ai_health = use_ai_health
query_options to_body (Query.ai_usage range) = use_ai_usage range
query_options to_body (Query.ai_assignments enabled) = use_ai_assignments enabled
query_options to_body (Query.provider_models id) = use_provider_models id
query_options to_body (Query.pending_suggestions enabled) = use_pending_suggestions enabled
query_options to_body (Query.document_suggestions id cached) = use_document_suggestions id cached
query_options to_body Query.health = use_health
query_options to_body Query.storage_health = use_storage_health
query_options to_body Query.system_summary = use_system_summary
query_options to_body Query.storage_metrics = use_storage_metrics
query_options to_body Query.about = use_about
query_options to_body Query.inbox_count = use_inbox_count
query_options to_body (Query.bootstrap_status state) = use_bootstrap_status state
query_options to_body (Query.onboarding_status enabled) = use_onboarding_status enabled
query_options to_body (Query.bootstrap_backups enabled) = use_bootstrap_backups enabled
query_options to_body Query.backup_settings = use_backup_settings
query_options to_body (Query.backups interval) = use_backups interval
query_options to_body (Query.backup_restore_status enabled) = use_backup_restore_status enabled
query_options to_body (Query.application_logs filters live failures) =
    use_application_logs filters live failures
