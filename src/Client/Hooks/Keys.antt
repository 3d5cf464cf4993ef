-- ===== src/Client/Hooks/Keys.antt =====
-- `queryKeys`: lib/api/hooks.ts.
use lesspaper_ngl.Client.Hooks.{KeyPart}
use lesspaper_ngl.Prelude.{List, Option, String, [], or_default, ◌∷◌}
use lesspaper_ngl.Types.Params.{InboxActivityParams}
use lesspaper_ngl.Types.Request.{DocumentListParams, SearchRequest}

abbrev pub session : List KeyPart
session = KeyPart.name "session" ∷ []

abbrev pub folders : List KeyPart
folders = KeyPart.name "folders" ∷ []

abbrev pub folder : String → List KeyPart
folder id = KeyPart.name "folders" ∷ KeyPart.name id ∷ []

abbrev pub tags : List KeyPart
tags = KeyPart.name "tags" ∷ []

abbrev pub document_types : List KeyPart
document_types = KeyPart.name "document-types" ∷ []

abbrev pub correspondents : List KeyPart
correspondents = KeyPart.name "correspondents" ∷ []

abbrev pub documents : DocumentListParams → List KeyPart
documents params = KeyPart.name "documents" ∷ KeyPart.list_params params ∷ []

abbrev pub document : String → List KeyPart
document id = KeyPart.name "documents" ∷ KeyPart.name id ∷ []

abbrev pub document_content : String → List KeyPart
document_content id = KeyPart.name "documents" ∷ KeyPart.name id ∷ KeyPart.name "content" ∷ []

abbrev pub ask_conversation : String → List KeyPart
ask_conversation document_id =
    KeyPart.name "documents" ∷ KeyPart.name document_id ∷ KeyPart.name "ask-conversation" ∷ []

abbrev pub folder_documents : String → DocumentListParams → List KeyPart
folder_documents folder_id params =
    KeyPart.name "folders"
    ∷ KeyPart.name folder_id
    ∷ KeyPart.name "documents"
    ∷ KeyPart.list_params params
    ∷ []

abbrev pub search : SearchRequest → List KeyPart
search request = KeyPart.name "search" ∷ KeyPart.search_params request ∷ []

abbrev pub jobs : Option String → Option String → List KeyPart
jobs status document_id =
    KeyPart.name "jobs"
    ∷ KeyPart.name (or_default status "all")
    ∷ KeyPart.name (or_default document_id "all")
    ∷ []

abbrev pub job : String → List KeyPart
job id = KeyPart.name "jobs" ∷ KeyPart.name id ∷ []

abbrev pub ai_providers : List KeyPart
ai_providers = KeyPart.name "ai" ∷ KeyPart.name "providers" ∷ []

abbrev pub ai_policy : List KeyPart
ai_policy = KeyPart.name "ai" ∷ KeyPart.name "policy" ∷ []

abbrev pub ai_usage : List KeyPart
ai_usage = KeyPart.name "ai" ∷ KeyPart.name "usage" ∷ []

abbrev pub ai_assignments : List KeyPart
ai_assignments = KeyPart.name "ai" ∷ KeyPart.name "assignments" ∷ []

abbrev pub ai_capabilities : List KeyPart
ai_capabilities = KeyPart.name "ai" ∷ KeyPart.name "capabilities" ∷ []

abbrev pub ai_health : List KeyPart
ai_health = KeyPart.name "ai" ∷ KeyPart.name "health" ∷ []

abbrev pub ai_suggestions : Option String → List KeyPart
ai_suggestions document_id =
    KeyPart.name "ai"
    ∷ KeyPart.name "suggestions"
    ∷ KeyPart.name (or_default document_id "all")
    ∷ []

abbrev pub storage_health : List KeyPart
storage_health = KeyPart.name "storage" ∷ KeyPart.name "health" ∷ []

abbrev pub health : List KeyPart
health = KeyPart.name "health" ∷ []

abbrev pub inbox_overview : List KeyPart
inbox_overview = KeyPart.name "inbox-overview" ∷ []

abbrev pub inbox_activity : InboxActivityParams → List KeyPart
inbox_activity params = KeyPart.name "inbox-activity" ∷ KeyPart.activity_params params ∷ []

abbrev pub library_overview : List KeyPart
library_overview = KeyPart.name "library-overview" ∷ []

abbrev pub backup_settings : List KeyPart
backup_settings = KeyPart.name "backups" ∷ KeyPart.name "settings" ∷ []

abbrev pub backups : List KeyPart
backups = KeyPart.name "backups" ∷ []

abbrev pub backup_restore_status : List KeyPart
backup_restore_status = KeyPart.name "backups" ∷ KeyPart.name "restore-status" ∷ []

abbrev pub bootstrap_status : List KeyPart
bootstrap_status = KeyPart.name "bootstrap" ∷ KeyPart.name "status" ∷ []

abbrev pub bootstrap_backups : List KeyPart
bootstrap_backups = KeyPart.name "bootstrap" ∷ KeyPart.name "backups" ∷ []

abbrev pub onboarding_status : List KeyPart
onboarding_status = KeyPart.name "onboarding" ∷ KeyPart.name "status" ∷ []

abbrev pub api_tokens : List KeyPart
api_tokens = KeyPart.name "auth" ∷ KeyPart.name "api-tokens" ∷ []
