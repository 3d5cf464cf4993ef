-- ===== src/Ask/Scope.antt =====
-- The panel that asks about a scope, once per question: AIChatPanel.tsx.
pub mod Laws
use mathlib.Core.Option
use mathlib.Core.Option
use lesspaper_ngl.Prelude.{
  Bool, List, Option, String, [], if◌then◌else◌, length, ltb, none, nonempty, not, or_default,
  or_else, or_text, some, truthy, ◌++◌, ◌||◌, ◌∷◌,
}
use lesspaper_ngl.Prelude.Decimal.{to_decimal}
use lesspaper_ngl.Prelude.Texts.{template, trim}
use lesspaper_ngl.Types.Ask.{AskRequest, AskResponse, AskScope}
use lesspaper_ngl.Types.Document.{Document}
use lesspaper_ngl.Types.Folder.{Folder}
use lesspaper_ngl.Types.Request.{SearchScopeSnapshot}

-- `AIDrawerScope`: its kind is that of the request
pub record AiDrawerScope : Type 0 where
  pub kind : AskScope
  pub document_id : Option String
  pub document_ids : Option (List String)
  pub folder_id : Option String
  pub search : Option SearchScopeSnapshot
  pub preview_documents : Option (List Document)
  pub label : Option String

abbrev pub plain_scope : AskScope → AiDrawerScope
plain_scope kind = record {
  kind = kind;
  document_id = none;
  document_ids = none;
  folder_id = none;
  search = none;
  preview_documents = none;
  label = none;
}

abbrev base_request : AiDrawerScope → String → Bool → AskRequest
base_request scope question confirm_remote = record {
  question = question;
  scope = some scope.kind;
  document_id = none;
  document_ids = none;
  folder_id = none;
  search_query = none;
  search = none;
  confirm_remote = some confirm_remote;
}

abbrev query_of : SearchScopeSnapshot → String
query_of s = s.query

unfoldable pub scope_to_request : AiDrawerScope → String → Bool → AskRequest
scope_to_request scope question confirm_remote =
    let base = base_request scope question confirm_remote in
    elim scope.kind [
      | AskScope.document ↦ record base { document_id = scope.document_id }
      | AskScope.documents ↦ record base { document_ids = scope.document_ids }
      | AskScope.folder ↦ record base { folder_id = scope.folder_id }
      | AskScope.folder_tree ↦ record base { folder_id = scope.folder_id }
      | AskScope.search ↦ record base {
        search = scope.search;
        search_query = Option.map query_of scope.search;
      }
      | AskScope.library ↦ base
    ]

unfoldable pub default_label : AiDrawerScope → String
default_label scope = if truthy scope.label then or_default scope.label "" else elim scope.kind [
  | AskScope.library ↦ "Entire library"
  | AskScope.folder ↦ "Current folder"
  | AskScope.folder_tree ↦ "Folder & subfolders"
  | AskScope.documents ↦
      template (to_decimal (length (or_default scope.document_ids [])) ∷ " selected" ∷ [])
  | AskScope.document ↦ "Current document"
  | AskScope.search ↦ template ("Search: " ∷ or_default (Option.map query_of scope.search) "" ∷ [])
]

-- the state of the panel; then the requests that it has sent
pub record ChatState : Type 0 where
  pub question : String
  pub scope : AiDrawerScope
  pub response : Option AskResponse
  pub pending_remote : Option AskRequest
  pub error : Option String
  pub requests : List AskRequest

unfoldable pub initial_chat : Option AiDrawerScope → ChatState
initial_chat initial_scope = record {
  question = "";
  scope = or_default initial_scope (plain_scope AskScope.library);
  response = none;
  pending_remote = none;
  error = none;
  requests = [];
}

-- the effect that runs when the panel becomes active or the scope it is given changes
unfoldable pub on_initial_scope : Bool → Option AiDrawerScope → ChatState → ChatState
on_initial_scope active none s = s
on_initial_scope active (some scope) s =
    if active
    then record s {
      scope = scope;
      response = none;
      error = none;
      pending_remote = none;
      question = "";
    }
    else s

-- the message that is shown instead of sending the request
unfoldable pub scope_error : AiDrawerScope → AskRequest → Option String
scope_error scope body = elim scope.kind [
  | AskScope.folder ↦ if truthy body.folder_id then none else some "Select a folder for this scope."
  | AskScope.folder_tree ↦
      if truthy body.folder_id then none else some "Select a folder for this scope."
  | AskScope.documents ↦
      if ltb 0 (length (or_default body.document_ids []))
      then none
      else some "Select at least one document."
  | AskScope.document ↦
      if truthy body.document_id then none else some "Open a document to ask about it."
  | AskScope.search ↦
      if truthy (Option.map query_of body.search) || truthy body.search_query
      then none
      else some "Run a search first to ask about results."
  | AskScope.library ↦ none
]

-- what `ask.mutateAsync` comes to: an answer, an `ApiError` whose `isForbidden` holds, or another value
-- that was thrown, with its message where it is an `Error`
pub data AskReply : Type 0 where
  answer : AskResponse → AskReply
  forbidden : String → AskReply
  thrown : Option String → AskReply

unfoldable pub on_reply : AskRequest → AskReply → ChatState → ChatState
on_reply body (AskReply.answer result) s = record s {
  pending_remote = none;
  response = some result;
}
on_reply body (AskReply.forbidden message) s = record s {
  pending_remote = some body;
  error =
      some (
        or_text message "This provider is remote. Confirm to send the question outside your host.");
}
on_reply body (AskReply.thrown message) s = record s {
  error = some (or_default message "Unable to get an answer. Check AI providers in Settings.");
  response = none;
}

-- `submit`: the server's answer is a function of the request
unfoldable pub submit_question : (AskRequest → AskReply) → Bool → ChatState → ChatState
unfolding scope_to_request scope_error on_reply
submit_question ask confirm_remote s =
    let body = scope_to_request s.scope (trim s.question) confirm_remote in
    if not (nonempty (trim s.question)) then s else elim (scope_error s.scope body) [
      | some message ↦ record s { error = some message }
      | none ↦
          on_reply body (ask body) (record s { error = none; requests = s.requests ++ (body ∷ []) })
    ]

-- the choice of another kind of scope
unfoldable pub choose_kind : Option AiDrawerScope → AskScope → ChatState → ChatState
choose_kind initial_scope kind s =
    let scope = s.scope in
    let previews =
      or_else scope.preview_documents
        (Option.bind initial_scope (λ (i : AiDrawerScope). i.preview_documents)) in
    let chosen : AiDrawerScope = elim kind [
      | AskScope.library ↦ plain_scope AskScope.library
      | AskScope.folder ↦ record (plain_scope AskScope.folder) {
        folder_id =
            or_else scope.folder_id
              (Option.bind initial_scope (λ (i : AiDrawerScope). i.folder_id));
      }
      | AskScope.folder_tree ↦ record (plain_scope AskScope.folder_tree) {
        folder_id =
            or_else scope.folder_id
              (Option.bind initial_scope (λ (i : AiDrawerScope). i.folder_id));
      }
      | AskScope.search ↦ record (plain_scope AskScope.search) {
        search = or_else scope.search (Option.bind initial_scope (λ (i : AiDrawerScope). i.search));
        preview_documents = previews;
      }
      | AskScope.documents ↦ record (plain_scope AskScope.documents) {
        document_ids = some (
            or_default
              (or_else scope.document_ids
                (Option.bind initial_scope (λ (i : AiDrawerScope). i.document_ids)))
              []);
        preview_documents = previews;
      }
      | AskScope.document ↦ record (plain_scope AskScope.document) {
        document_id =
            or_else scope.document_id
              (Option.bind initial_scope (λ (i : AiDrawerScope). i.document_id));
        preview_documents = previews;
      }
    ] in
    record s { scope = chosen; response = none }

-- the choice of a folder in the selector, and of a pill in the composer
unfoldable pub choose_folder : String → ChatState → ChatState
choose_folder folder_id s = record s { scope = record (s.scope) { folder_id = some folder_id } }

unfoldable pub choose_pill : Option Folder → ChatState → ChatState
choose_pill none s = record s { scope = plain_scope AskScope.library; response = none }
choose_pill (some folder) s = record s {
  scope = record (plain_scope AskScope.folder_tree) {
    folder_id = some folder.id;
    label = some folder.path_cache;
  };
  response = none;
}

-- the button that asks another question
unfoldable pub ask_another : ChatState → ChatState
ask_another s = record s { response = none; question = "" }
