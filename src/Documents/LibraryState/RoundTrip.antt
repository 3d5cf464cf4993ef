-- ===== src/Documents/LibraryState/RoundTrip.antt =====
-- What the URL keeps of the state of the library page.
use lesspaper_ngl.Documents.Params
use lesspaper_ngl.Prelude.Sets
use lesspaper_ngl.Documents.LibraryState.{
  DocumentsLibraryState, LibraryView, beyond_first, legacy_viewer_page,
  library_state_to_search_params, library_view_eq, order_text, parse_library_state, parse_order,
  parse_positive_int, parse_search_mode, parse_sort, parse_tags, parse_view, parse_viewer_page,
  search_mode_text, sort_text, view_text, viewer_page_raw,
}
use lesspaper_ngl.Documents.Params.{Params}
use lesspaper_ngl.Prelude.{
  Option, String, ap, arith, eq_iff, false, filter, if◌then◌else◌, ltb, nat_eq, none, nonempty,
  nonempty_option, option_eq, or_default, or_else, refl, some, text_eq, true, truthy, ℕ, ◌!=◌, ◌&&◌,
  ◌<◌, ◌∙◌, ◌≡◌, ◌≤◌, ◌⊎◌,
}
use lesspaper_ngl.Prelude.Decimal.{
  includes_char-to_decimal, parse_int-to_decimal, to_decimal, to_decimal-nonempty,
}
use lesspaper_ngl.Prelude.Texts.{trim}
use lesspaper_ngl.Types.Request.{
  SearchMode, SortField, SortOrder, search_mode_eq, sort_field_eq, sort_order_eq,
}

-- Each field is read back from what is written for it.
parse_view-text :
    (v : LibraryView) → parse_view (if v != LibraryView.all then some (view_text v) else none) ≡ v
unfolding parse_view
parse_view-text LibraryView.all = refl
parse_view-text LibraryView.recent = refl
parse_view-text LibraryView.unprocessed = refl

parse_sort-text :
    (s : SortField)
    → parse_sort (if s != SortField.added_date then some (sort_text s) else none) ≡ s
unfolding parse_sort
parse_sort-text SortField.added_date = refl
parse_sort-text SortField.title = refl
parse_sort-text SortField.modified_date = refl
parse_sort-text SortField.created_date = refl

parse_order-text :
    (o : SortOrder) → parse_order (if o != SortOrder.desc then some (order_text o) else none) ≡ o
unfolding parse_order
parse_order-text SortOrder.asc = refl
parse_order-text SortOrder.desc = refl

parse_search_mode-text :
    (m : SearchMode)
    → parse_search_mode
        (or_else (if m != SearchMode.hybrid then some (search_mode_text m) else none) none)
      ≡ m
unfolding parse_search_mode
parse_search_mode-text SearchMode.keyword = refl
parse_search_mode-text SearchMode.semantic = refl
parse_search_mode-text SearchMode.hybrid = refl

abbrev id_text : Option String → Option String
id_text o = if truthy o then some (or_default o "") else none

nonempty_option-id_text : (o : Option String) → nonempty_option (id_text o) ≡ nonempty_option o
nonempty_option-id_text none = refl
nonempty_option-id_text (some s) = ground arith

or_default-query : (s : String) → or_default (if nonempty s then some s else none) "" ≡ s
or_default-query s = ground (arith, eq_iff s "")

parse_positive_int-to_decimal :
    (n fallback : ℕ)
    → parse_positive_int (some (to_decimal n)) fallback ≡ (if ltb 0 n then n else fallback)
unfolding parse_positive_int
parse_positive_int-to_decimal n fallback = rw (to_decimal-nonempty n, parse_int-to_decimal n) refl

parse_page :
    (n : ℕ)
    → parse_positive_int (if ltb 1 n then some (to_decimal n) else none) 1
      ≡ (if ltb 1 n then n else 1)
unfolding parse_positive_int
parse_page n = ground (arith, parse_positive_int-to_decimal n 1)

parse_page_size :
    (n : ℕ)
    → parse_positive_int (if n != 50 then some (to_decimal n) else none) 50
      ≡ (if ltb 0 n then n else 50)
unfolding parse_positive_int
parse_page_size n = ground (arith, parse_positive_int-to_decimal n 50)

-- The viewer's page that the URL stands for: the state's, if that is beyond the first; else, with a
-- document open on a further page of the list, the page of the list.
abbrev pub shown_viewer_page : DocumentsLibraryState → Option ℕ
shown_viewer_page state =
    if beyond_first state.viewer_page
    then state.viewer_page
    else if truthy state.doc_id && ltb 1 state.page
    then some state.page
    else none

-- What the URL keeps: no empty identifier and no empty tag, the query trimmed, and page numbers
-- that are not positive replaced by the defaults.
abbrev pub kept : DocumentsLibraryState → DocumentsLibraryState
kept state = record state {
  folder_id = nonempty_option state.folder_id;
  q = trim state.q;
  tag_ids = filter nonempty state.tag_ids;
  page = if ltb 1 state.page then state.page else 1;
  page_size = if ltb 0 state.page_size then state.page_size else 50;
  doc_id = nonempty_option state.doc_id;
  viewer_page = if beyond_first state.viewer_page then state.viewer_page else none;
}

module _ (state : DocumentsLibraryState) (base : Params.Params) where
  abbrev pub url : Params.Params
  url = library_state_to_search_params state base

  get-view :
      Params.get url "view"
      ≡ (if state.view != LibraryView.all then some (view_text state.view) else none)
  unfolding library_state_to_search_params Sets.has
  get-view = simp Params.get_laws

  get-folder : Params.get url "folder" ≡ id_text state.folder_id
  unfolding library_state_to_search_params Sets.has
  get-folder = simp Params.get_laws

  get-q : Params.get url "q" ≡ (if nonempty (trim state.q) then some (trim state.q) else none)
  unfolding library_state_to_search_params Sets.has
  get-q = simp Params.get_laws

  get-smode :
      or_else (Params.get url "smode") (Params.get url "mode")
      ≡ or_else
          (if state.search_mode != SearchMode.hybrid
            then some (search_mode_text state.search_mode)
            else none)
          none
  unfolding library_state_to_search_params Sets.has
  get-smode = simp Params.get_laws

  get_all-tag : Params.get_all url "tag" ≡ state.tag_ids
  unfolding library_state_to_search_params Sets.has
  get_all-tag = simp Params.get_all_laws

  get-tags : Params.get url "tags" ≡ none
  unfolding library_state_to_search_params Sets.has
  get-tags = simp Params.get_laws

  get-sort :
      Params.get url "sort"
      ≡ (if state.sort != SortField.added_date then some (sort_text state.sort) else none)
  unfolding library_state_to_search_params Sets.has
  get-sort = simp Params.get_laws

  get-order :
      Params.get url "order"
      ≡ (if state.order != SortOrder.desc then some (order_text state.order) else none)
  unfolding library_state_to_search_params Sets.has
  get-order = simp Params.get_laws

  get-page :
      Params.get url "page" ≡ (if ltb 1 state.page then some (to_decimal state.page) else none)
  unfolding library_state_to_search_params Sets.has
  get-page = simp Params.get_laws

  get-page_size :
      Params.get url "pageSize"
      ≡ (if state.page_size != 50 then some (to_decimal state.page_size) else none)
  unfolding library_state_to_search_params Sets.has
  get-page_size = simp Params.get_laws

  get-doc : Params.get url "doc" ≡ id_text state.doc_id
  unfolding library_state_to_search_params Sets.has
  get-doc = simp Params.get_laws

  get-viewer_page :
      viewer_page_raw url
      ≡ or_else
          (if beyond_first state.viewer_page
            then some (to_decimal (or_default state.viewer_page 0))
            else none)
          none
  unfolding library_state_to_search_params viewer_page_raw Sets.has
  get-viewer_page = simp Params.get_laws

  parse_tags-url : parse_tags url ≡ filter nonempty state.tag_ids
  unfolding parse_tags
  parse_tags-url = rw (get-tags, get_all-tag) refl

  parse_viewer_page-url : parse_viewer_page url ≡ shown_viewer_page state
  unfolding parse_viewer_page legacy_viewer_page Params.has
  parse_viewer_page-url =
      simp (get-viewer_page, get-doc, get-page)
        (ground (
          arith,
          parse_positive_int-to_decimal (or_default state.viewer_page 0) 1,
          to_decimal-nonempty (or_default state.viewer_page 0),
          includes_char-to_decimal state.page b'-' (omega arith),
          to_decimal-nonempty state.page,
          parse_positive_int-to_decimal state.page 1,
        ))

  pub parse-url :
      parse_library_state url ≡ record (kept state) { viewer_page = shown_viewer_page state }
  unfolding parse_library_state
  parse-url = simp (
    get-view, get-folder, get-q, get-smode, get-sort, get-order, get-page, get-page_size, get-doc,
    parse_tags-url, parse_viewer_page-url, parse_view-text, parse_sort-text, parse_order-text,
    parse_search_mode-text, nonempty_option-id_text, or_default-query, parse_page, parse_page_size,
  )

-- Reading the URL that is written for a state gives the state back, up to what `kept` says and
-- whatever else the URL held, if the viewer's page is beyond the first, or no document is open, or
-- the list is on its first page.
pub parse-library_state_to_search_params :
    (state : DocumentsLibraryState) (base : Params.Params)
    → (beyond_first state.viewer_page ≡ true) ⊎ (truthy state.doc_id ≡ false) ⊎ (state.page ≤ 1)
    → parse_library_state (library_state_to_search_params state base) ≡ kept state
parse-library_state_to_search_params state base h =
    parse-url state base ∙ ap (λ v. record (kept state) { viewer_page = v }) (ground arith)

-- With a document open on its first page, and the list on a further page, the URL that is written is
-- read as if the viewer stood on the list's page: the page of the list is taken for a legacy link.
pub parse-viewer_page-legacy :
    (state : DocumentsLibraryState) (base : Params.Params)
    → truthy state.doc_id ≡ true
    → 1 < state.page
    → beyond_first state.viewer_page ≡ false
    → (parse_library_state (library_state_to_search_params state base)).viewer_page
      ≡ some state.page
parse-viewer_page-legacy state base open_doc further first_page =
    ap (λ (s : DocumentsLibraryState). s.viewer_page) (parse-url state base) ∙ ground arith
