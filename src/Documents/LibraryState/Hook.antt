-- ===== src/Documents/LibraryState/Hook.antt =====
-- `useDocumentsLibraryState`: the callbacks write the URL, and the next state is read from it.
use lesspaper_ngl.Documents.Params
use lesspaper_ngl.Documents.LibraryState.{
  DocumentsLibraryState, LibraryView, beyond_first, defaults, library_state_to_search_params,
  parse_library_state,
}
use lesspaper_ngl.Documents.LibraryState.RoundTrip.{
  kept, parse-library_state_to_search_params, parse-url, parse-viewer_page-legacy,
}
use lesspaper_ngl.Documents.Params.{Params}
use lesspaper_ngl.Prelude.{
  Bool, List, Option, String, [], ap, arith, false, if◌then◌else◌, inl, inr, is_some, ltb, none,
  nonempty, nonempty_option, not, or_default, refl, some, true, ℕ, ◌&&◌, ◌<◌, ◌||◌, ◌∙◌, ◌≡◌,
}
use lesspaper_ngl.Types.Request.{SearchMode, SortField, SortOrder}

-- `Partial<DocumentsLibraryState>`: `none` is a key that is absent. A key of an optional field may
-- be present and undefined, which is `some none`.
pub record Partial : Type 0 where
  pub view : Option LibraryView
  pub folder_id : Option (Option String)
  pub q : Option String
  pub search_mode : Option SearchMode
  pub tag_ids : Option (List String)
  pub sort : Option SortField
  pub order : Option SortOrder
  pub page : Option ℕ
  pub page_size : Option ℕ
  pub doc_id : Option (Option String)
  pub viewer_page : Option (Option ℕ)

abbrev pub no_change : Partial
no_change = record {
  view = none;
  folder_id = none;
  q = none;
  search_mode = none;
  tag_ids = none;
  sort = none;
  order = none;
  page = none;
  page_size = none;
  doc_id = none;
  viewer_page = none;
}

-- `{ ...state, ...partial }`
unfoldable pub merge : DocumentsLibraryState → Partial → DocumentsLibraryState
merge state partial = record {
  view = or_default partial.view state.view;
  folder_id = or_default partial.folder_id state.folder_id;
  q = or_default partial.q state.q;
  search_mode = or_default partial.search_mode state.search_mode;
  tag_ids = or_default partial.tag_ids state.tag_ids;
  sort = or_default partial.sort state.sort;
  order = or_default partial.order state.order;
  page = or_default partial.page state.page;
  page_size = or_default partial.page_size state.page_size;
  doc_id = or_default partial.doc_id state.doc_id;
  viewer_page = or_default partial.viewer_page state.viewer_page;
}

-- `o !== undefined` for a key that may be present and undefined
abbrev pub is_defined {ℓ} : {A : Type ℓ} → Option (Option A) → Bool
is_defined (some (some a)) = true
is_defined _ = false

-- The list is asked for anew, and no page is given.
abbrev pub resets_page : Partial → Bool
resets_page p =
    not (is_some p.page)
    && (is_some p.view
        || is_defined p.folder_id
        || is_some p.q
        || is_some p.search_mode
        || is_some p.tag_ids
        || is_some p.sort
        || is_some p.order)

-- `patch`: the URL that it sets, with nothing of the old one
unfoldable pub patch : DocumentsLibraryState → Partial → Params.Params
unfolding merge
patch state partial =
    let merged = merge state partial in
    library_state_to_search_params
      (if resets_page partial then record merged { page = 1 } else merged) []

unfoldable pub open_document : DocumentsLibraryState → String → Option ℕ → Params.Params
unfolding patch
open_document state doc_id viewer_page = patch state (record no_change {
  doc_id = some (some doc_id);
  viewer_page = some (if beyond_first viewer_page then viewer_page else none);
})

unfoldable pub close_document : DocumentsLibraryState → Params.Params
unfolding patch
close_document state =
    patch state (record no_change { doc_id = some none; viewer_page = some none })

unfoldable pub set_viewer_page : DocumentsLibraryState → ℕ → Params.Params
unfolding patch
set_viewer_page state viewer_page =
    patch state (record no_change {
      viewer_page = some (if ltb 1 viewer_page then some viewer_page else none);
    })

-- the query of the URL that `replaceLegacy` goes to
unfoldable pub replace_legacy : Partial → Params.Params
unfolding merge
replace_legacy partial = library_state_to_search_params (merge defaults partial) []

-- Closing the document gives back the state without it, for a state that the URL can hold.
parse-close_document :
    (state : DocumentsLibraryState)
    → kept state ≡ state
    → parse_library_state (close_document state)
      ≡ record state { doc_id = none; viewer_page = none }
unfolding close_document
parse-close_document state h =
    parse-library_state_to_search_params (record state { doc_id = none; viewer_page = none }) []
      (inr (inl refl))
    ∙ ap (λ (s : DocumentsLibraryState). record s { doc_id = none; viewer_page = none }) h

-- A change of view, folder, query, mode, tags, sort or order that names no page leads to page 1.
page-patch :
    (state : DocumentsLibraryState) (partial : Partial)
    → resets_page partial ≡ true
    → (parse_library_state (patch state partial)).page ≡ 1
unfolding patch
page-patch state partial h = rw h (ap (λ (s : DocumentsLibraryState). s.page) (parse-url _ []))

-- Opening a document on its first page from a further page of the list shows the document at the
-- list's page.
pub viewer_page-open_document :
    (state : DocumentsLibraryState) (doc_id : String)
    → nonempty doc_id ≡ true
    → 1 < state.page
    → (parse_library_state (open_document state doc_id none)).viewer_page ≡ some state.page
unfolding open_document
viewer_page-open_document state doc_id named further =
    parse-viewer_page-legacy _ [] named further refl

-- Opening a document at a page beyond the first shows it there, and changes nothing else of a state
-- that the URL can hold.
parse-open_document :
    (state : DocumentsLibraryState) (doc_id : String) (n : ℕ)
    → kept state ≡ state
    → nonempty doc_id ≡ true
    → 1 < n
    → parse_library_state (open_document state doc_id (some n))
      ≡ record state { doc_id = some doc_id; viewer_page = some n }
unfolding open_document
parse-open_document state doc_id n h named further =
    parse-library_state_to_search_params _ [] (inl (ground arith)) ∙ λ i. record (h i) {
      doc_id = doc i;
      viewer_page = shown i;
    }
  where
    doc : nonempty_option (some doc_id) ≡ some doc_id
    doc = ground arith

    shown :
        (if beyond_first (if ltb 1 n then some n else none)
          then (if ltb 1 n then some n else none)
          else none)
        ≡ some n
    shown = ground arith
