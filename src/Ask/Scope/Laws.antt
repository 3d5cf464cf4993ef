-- ===== src/Ask/Scope/Laws.antt =====
-- What the panel that asks about a scope sends: AIChatPanel.tsx.
use lesspaper_ngl.Ask.Scope.{AiDrawerScope}
use lesspaper_ngl.Prelude.{
  Bool, String, [], false, length, ltb, none, nonempty, or_default, some, true, truthy,
}
use lesspaper_ngl.Types.Ask.{AskRequest, AskScope}

-- A scope is named in full: by its document, at least one document, its folder, or the words of its
-- search; the library needs no name.
abbrev pub is_named : AiDrawerScope → Bool
is_named scope = elim scope.kind [
  | AskScope.document ↦ truthy scope.document_id
  | AskScope.documents ↦ ltb 0 (length (or_default scope.document_ids []))
  | AskScope.folder ↦ truthy scope.folder_id
  | AskScope.folder_tree ↦ truthy scope.folder_id
  | AskScope.search ↦ elim scope.search [ none ↦ false | some search ↦ nonempty search.query ]
  | AskScope.library ↦ true
]

-- The request about a scope, field by field: each field of the scope is sent for its own kinds only.
abbrev pub request_about : AiDrawerScope → String → Bool → AskRequest
request_about scope question confirm_remote = record {
  question = question;
  scope = some scope.kind;
  document_id = elim scope.kind [ AskScope.document ↦ scope.document_id | _ ↦ none ];
  document_ids = elim scope.kind [ AskScope.documents ↦ scope.document_ids | _ ↦ none ];
  folder_id = elim scope.kind [
    | AskScope.folder ↦ scope.folder_id
    | AskScope.folder_tree ↦ scope.folder_id
    | _ ↦ none
  ];
  search_query = elim scope.kind [
    | AskScope.search ↦ elim scope.search [ none ↦ none | some search ↦ some search.query ]
    | _ ↦ none
  ];
  search = elim scope.kind [ AskScope.search ↦ scope.search | _ ↦ none ];
  confirm_remote = some confirm_remote;
}
