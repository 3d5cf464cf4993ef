-- ===== src/Documents/LibraryState.antt =====
-- useDocumentsLibraryState.ts: the state of the library page, read from and written to the URL.
-- Page numbers are natural numbers, read and written exactly; JavaScript does so up to 2^53.
pub mod RoundTrip
pub mod Hook
pub mod Invariant
pub mod Requests
use lesspaper_ngl.Documents.Params
use lesspaper_ngl.Prelude.Sets
use lesspaper_ngl.Documents.Params.{Params}
use lesspaper_ngl.Prelude.{
  Bool, Eq, List, Option, String, [], false, filter, if◌then◌else◌, ltb, nat_eq, none, nonempty,
  nonempty_option, not, option_eq, or_default, or_else, some, text_eq, true, truthy, ℕ, ◌!=◌, ◌&&◌,
  ◌++◌, ◌==◌, ◌∷◌,
}
use lesspaper_ngl.Prelude.Decimal.{Parsed, parse_int, to_decimal}
use lesspaper_ngl.Prelude.Texts.{includes_char, split_on, trim}
use lesspaper_ngl.Types.Request.{
  SearchMode, SortField, SortOrder, search_mode_eq, sort_field_eq, sort_order_eq,
}

pub data LibraryView : Type 0 where
  all recent unprocessed : LibraryView

abbrev library_view_beq : LibraryView → LibraryView → Bool
library_view_beq LibraryView.all LibraryView.all = true
library_view_beq LibraryView.recent LibraryView.recent = true
library_view_beq LibraryView.unprocessed LibraryView.unprocessed = true
library_view_beq _ _ = false

instance abbrev pub library_view_eq : Eq LibraryView
library_view_eq = record { beq = library_view_beq }

pub record DocumentsLibraryState : Type 0 where
  pub view : LibraryView
  pub folder_id : Option String
  pub q : String
  pub search_mode : SearchMode
  pub tag_ids : List String
  pub sort : SortField
  pub order : SortOrder
  pub page : ℕ
  pub page_size : ℕ
  pub doc_id : Option String
  pub viewer_page : Option ℕ

abbrev pub defaults : DocumentsLibraryState
defaults = record {
  view = LibraryView.all;
  folder_id = none;
  q = "";
  search_mode = SearchMode.hybrid;
  tag_ids = [];
  sort = SortField.added_date;
  order = SortOrder.desc;
  page = 1;
  page_size = 50;
  doc_id = none;
  viewer_page = none;
}

unfoldable pub parse_view : Option String → LibraryView
parse_view raw =
    if raw == some "recent"
    then LibraryView.recent
    else if raw == some "unprocessed"
    then LibraryView.unprocessed
    else LibraryView.all

unfoldable pub parse_sort : Option String → SortField
parse_sort raw =
    if raw == some "title"
    then SortField.title
    else if raw == some "modified_date"
    then SortField.modified_date
    else if raw == some "created_date"
    then SortField.created_date
    else SortField.added_date

unfoldable pub parse_order : Option String → SortOrder
parse_order raw = if raw == some "asc" then SortOrder.asc else SortOrder.desc

unfoldable pub parse_search_mode : Option String → SearchMode
parse_search_mode raw =
    if raw == some "keyword"
    then SearchMode.keyword
    else if raw == some "semantic"
    then SearchMode.semantic
    else SearchMode.hybrid

-- A text that `parseInt` reads as a positive number gives that number.
abbrev positive_or : ℕ → Parsed → ℕ
positive_or fallback (Parsed.number false n) = if ltb 0 n then n else fallback
positive_or fallback _ = fallback

unfoldable pub parse_positive_int : Option String → ℕ → ℕ
unfolding parse_int
parse_positive_int none fallback = fallback
parse_positive_int (some raw) fallback =
    if nonempty raw then positive_or fallback (parse_int raw) else fallback

-- the loop over the parts of the `tags` parameter
unfoldable pub add_tags : List String → List String → List String
unfolding Sets.has trim
add_tags tags [] = tags
add_tags tags (part ∷ parts) =
    let t = trim part in
    add_tags (if nonempty t && not (Sets.has tags t) then tags ++ t ∷ [] else tags) parts

unfoldable pub parse_tags : Params.Params → List String
unfolding add_tags split_on Params.get Params.get_all
parse_tags params =
    let tags = filter nonempty (Params.get_all params "tag") in
    let tag_csv = Params.get params "tags" in
    if truthy tag_csv then add_tags tags (split_on b',' (or_default tag_csv "")) else tags

unfoldable pub viewer_page_raw : Params.Params → Option String
unfolding Params.get
viewer_page_raw params = or_else (Params.get params "viewerPage") (Params.get params "vp")

unfoldable pub legacy_viewer_page : Params.Params → Option String
unfolding viewer_page_raw Params.get Params.has includes_char
legacy_viewer_page params =
    if not (truthy (viewer_page_raw params))
      && Params.has params "doc"
      && Params.has params "page"
      && not (includes_char b'-' (or_default (Params.get params "page") ""))
    then Params.get params "page"
    else none

unfoldable pub parse_viewer_page : Params.Params → Option ℕ
unfolding viewer_page_raw legacy_viewer_page parse_positive_int
parse_viewer_page params =
    if truthy (viewer_page_raw params)
    then some (parse_positive_int (viewer_page_raw params) 1)
    else if truthy (legacy_viewer_page params)
    then some (parse_positive_int (legacy_viewer_page params) 1)
    else none

unfoldable pub parse_library_state : Params.Params → DocumentsLibraryState
parse_library_state params = record {
  view = parse_view (Params.get params "view");
  folder_id = nonempty_option (Params.get params "folder");
  q = or_default (Params.get params "q") "";
  search_mode = parse_search_mode (or_else (Params.get params "smode") (Params.get params "mode"));
  tag_ids = parse_tags params;
  sort = parse_sort (Params.get params "sort");
  order = parse_order (Params.get params "order");
  page = parse_positive_int (Params.get params "page") 1;
  page_size = parse_positive_int (Params.get params "pageSize") 50;
  doc_id = nonempty_option (Params.get params "doc");
  viewer_page = parse_viewer_page params;
}

abbrev pub view_text : LibraryView → String
view_text LibraryView.all = "all"
view_text LibraryView.recent = "recent"
view_text LibraryView.unprocessed = "unprocessed"

abbrev pub search_mode_text : SearchMode → String
search_mode_text SearchMode.keyword = "keyword"
search_mode_text SearchMode.semantic = "semantic"
search_mode_text SearchMode.hybrid = "hybrid"

abbrev pub sort_text : SortField → String
sort_text SortField.added_date = "added_date"
sort_text SortField.title = "title"
sort_text SortField.modified_date = "modified_date"
sort_text SortField.created_date = "created_date"

abbrev pub order_text : SortOrder → String
order_text SortOrder.asc = "asc"
order_text SortOrder.desc = "desc"

abbrev pub keys_to_clear : List String
keys_to_clear =
    "view" ∷ "folder" ∷ "q" ∷ "smode" ∷ "mode" ∷ "tag" ∷ "tags" ∷ "sort" ∷ "order" ∷ "page"
    ∷ "pageSize" ∷ "doc" ∷ "viewerPage" ∷ "vp" ∷ []

-- `viewerPage && viewerPage > 1`
abbrev pub beyond_first : Option ℕ → Bool
beyond_first none = false
beyond_first (some n) = ltb 1 n

-- what stands before the tags: view, folder, q, smode
unfoldable pub with_search_params : DocumentsLibraryState → Params.Params → Params.Params
with_search_params state base =
    let p0 = Params.delete_all keys_to_clear base in
    let p1 = Params.set_if (state.view != LibraryView.all) "view" (view_text state.view) p0 in
    let p2 = Params.set_if (truthy state.folder_id) "folder" (or_default state.folder_id "") p1 in
    let p3 = Params.set_if (nonempty (trim state.q)) "q" (trim state.q) p2 in
    Params.set_if (state.search_mode != SearchMode.hybrid) "smode"
      (search_mode_text state.search_mode) p3

unfoldable pub library_state_to_search_params :
    DocumentsLibraryState → Params.Params → Params.Params
unfolding with_search_params
library_state_to_search_params state base =
    let p4 = Params.append_all "tag" state.tag_ids (with_search_params state base) in
    let p5 = Params.set_if (state.sort != SortField.added_date) "sort" (sort_text state.sort) p4 in
    let p6 = Params.set_if (state.order != SortOrder.desc) "order" (order_text state.order) p5 in
    let p7 = Params.set_if (ltb 1 state.page) "page" (to_decimal state.page) p6 in
    let p8 = Params.set_if (state.page_size != 50) "pageSize" (to_decimal state.page_size) p7 in
    let p9 = Params.set_if (truthy state.doc_id) "doc" (or_default state.doc_id "") p8 in
    Params.set_if (beyond_first state.viewer_page) "viewerPage"
      (to_decimal (or_default state.viewer_page 0)) p9
