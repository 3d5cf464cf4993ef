-- ===== src/Documents/LibraryState/Requests.antt =====
-- The requests that the library page makes: the list of documents, the evidence search, and the
-- snapshot of the search that a question is asked about.
use lesspaper_ngl.Documents.LibraryState.{DocumentsLibraryState, LibraryView, library_view_eq}
use lesspaper_ngl.Prelude.{
  Bool, List, Option, String, [], arith, false, if◌then◌else◌, is_some, nat_eq, none, nonempty,
  option_eq, some, text_eq, true, truthy, ◌==◌, ◌∷◌, ◌≡◌, ◌⊎◌,
}
use lesspaper_ngl.Prelude.Texts.{trim}
use lesspaper_ngl.Types.Request.{
  DocumentListParams, SearchRequest, SearchScope, SearchScopeSnapshot, SortField, SortOrder,
  sort_field_eq, sort_order_eq,
}

-- `tagIds.length ? tagIds : undefined`
abbrev pub tags_or_none : List String → Option (List String)
tags_or_none [] = none
tags_or_none (t ∷ ts) = some (t ∷ ts)

abbrev pub unprocessed_filter : DocumentsLibraryState → Option Bool
unprocessed_filter state = if state.view == LibraryView.unprocessed then some true else none

abbrev pub inbox_filter : DocumentsLibraryState → Option Bool
inbox_filter state = if state.view == LibraryView.unprocessed then none else some false

unfoldable pub library_state_to_list_params : DocumentsLibraryState → DocumentListParams
library_state_to_list_params state =
    let is_recent = state.view == LibraryView.recent in
    record {
      folder_id = state.folder_id;
      include_descendants = some (truthy state.folder_id);
      inbox = inbox_filter state;
      inbox_status = none;
      trashed = none;
      unprocessed = unprocessed_filter state;
      tag_ids = tags_or_none state.tag_ids;
      q = none;
      page = some state.page;
      page_size = some state.page_size;
      sort = some (if is_recent then SortField.added_date else state.sort);
      order = some (if is_recent then SortOrder.desc else state.order);
    }

abbrev search_scope : DocumentsLibraryState → SearchScope
search_scope state = record {
  mode = some state.search_mode;
  folder_id = state.folder_id;
  include_descendants = some (truthy state.folder_id);
  folder_ids = none;
  tag_ids = tags_or_none state.tag_ids;
  document_type_id = none;
  correspondent_id = none;
  mime_type = none;
  is_archived = none;
  inbox = inbox_filter state;
  date_from = none;
  date_to = none;
  document_indexed = none;
  has_embeddings = none;
  unprocessed = unprocessed_filter state;
}

unfoldable pub library_state_to_evidence_search_request : DocumentsLibraryState → SearchRequest
library_state_to_evidence_search_request state = record {
  query = some (trim state.q);
  scope = search_scope state;
  page = some state.page;
  page_size = some state.page_size;
}

unfoldable pub library_state_to_search_snapshot : DocumentsLibraryState → Option SearchScopeSnapshot
library_state_to_search_snapshot state =
    if nonempty (trim state.q)
    then some (record { query = trim state.q; scope = search_scope state })
    else none

unfoldable pub is_evidence_search : DocumentsLibraryState → Bool
is_evidence_search state = nonempty (trim state.q)

-- There is a snapshot exactly while the page shows an evidence search, and it then has the query and
-- the scope of the search request, and the folder, the tags and the status filters of the list
-- request.
search_snapshot-search_request :
    (state : DocumentsLibraryState)
    → (is_some (library_state_to_search_snapshot state) ≡ is_evidence_search state)
      × ((s : SearchScopeSnapshot)
          → library_state_to_search_snapshot state ≡ some s
          → (some s.query ≡ (library_state_to_evidence_search_request state).query)
            × (s.scope ≡ (library_state_to_evidence_search_request state).scope)
            × (s.scope.folder_id ≡ (library_state_to_list_params state).folder_id)
            × (s.scope.tag_ids ≡ (library_state_to_list_params state).tag_ids)
            × (s.scope.inbox ≡ (library_state_to_list_params state).inbox)
            × (s.scope.unprocessed ≡ (library_state_to_list_params state).unprocessed))
unfolding library_state_to_search_snapshot is_evidence_search library_state_to_list_params
    library_state_to_evidence_search_request
search_snapshot-search_request state = (ground arith, λ s e. ground arith)

-- The list request never asks for inbox documents: it leaves them out, or asks for the unprocessed
-- ones of the whole lifecycle.
pub list_params-inbox :
    (state : DocumentsLibraryState)
    → ((library_state_to_list_params state).inbox ≡ some false)
        × ((library_state_to_list_params state).unprocessed ≡ none)
      ⊎ ((library_state_to_list_params state).inbox ≡ none)
        × ((library_state_to_list_params state).unprocessed ≡ some true)
unfolding library_state_to_list_params
list_params-inbox state = ground arith
