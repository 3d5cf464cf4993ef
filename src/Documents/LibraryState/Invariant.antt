-- ===== src/Documents/LibraryState/Invariant.antt =====
-- What holds of a state that is read from any URL.
use lesspaper_ngl.Documents.Params
use lesspaper_ngl.Prelude.Sets
use lesspaper_ngl.Documents.LibraryState.{
  DocumentsLibraryState, add_tags, legacy_viewer_page, parse_library_state, parse_positive_int,
  parse_tags, parse_viewer_page, viewer_page_raw,
}
use lesspaper_ngl.Documents.Params.{Params}
use lesspaper_ngl.Prelude.{
  All, List, Option, String, [], arith, filter, if◌then◌else◌, none, nonempty, nonempty_option, not,
  or_default, some, true, ℕ, ◌&&◌, ◌++◌, ◌<◌, ◌∷◌, ◌≡◌,
}
use lesspaper_ngl.Prelude.Texts.{split_on, trim}

pub record IsWellFormed (state : DocumentsLibraryState) : Type 0 where
  pub page : 0 < state.page
  pub page_size : 0 < state.page_size
  pub folder_id : (s : String) → state.folder_id ≡ some s → nonempty s ≡ true
  pub doc_id : (s : String) → state.doc_id ≡ some s → nonempty s ≡ true
  pub tag_ids : All (λ t. nonempty t ≡ true) state.tag_ids
  pub viewer_page : (n : ℕ) → state.viewer_page ≡ some n → 0 < n

parse_positive_int-pos : (raw : Option String) (d : ℕ) → 0 < d → 0 < parse_positive_int raw d
unfolding parse_positive_int
parse_positive_int-pos none d h = h
parse_positive_int-pos (some raw) d h = ground arith

nonempty_of_option :
    (o : Option String) (s : String) → nonempty_option o ≡ some s → nonempty s ≡ true
nonempty_of_option none s h = cc
nonempty_of_option (some t) s h = ground arith

All-filter : (ts : List String) → All (λ t. nonempty t ≡ true) (filter nonempty ts)
All-filter [] = tt
All-filter (t ∷ ts) = ground (arith, All-filter ts)

All-concat :
    (ts : List String) (t : String)
    → All (λ s. nonempty s ≡ true) ts
    → nonempty t ≡ true
    → All (λ s. nonempty s ≡ true) (ts ++ t ∷ [])
All-concat [] t h k = (k, tt)
All-concat (s ∷ ts) t (p, h) k = (p, All-concat ts t h k)

add_tags-All :
    (ts parts : List String)
    → All (λ t. nonempty t ≡ true) ts
    → All (λ t. nonempty t ≡ true) (add_tags ts parts)
unfolding add_tags
add_tags-All ts [] h = h
add_tags-All ts (part ∷ parts) h =
    add_tags-All
      (if nonempty (trim part) && not (Sets.has ts (trim part)) then ts ++ trim part ∷ [] else ts)
      parts (ground (arith, All-concat ts (trim part) h))

parse_tags-All : (params : Params.Params) → All (λ t. nonempty t ≡ true) (parse_tags params)
unfolding parse_tags
parse_tags-All params = ground (
  arith,
  All-filter (Params.get_all params "tag"),
  add_tags-All (filter nonempty (Params.get_all params "tag"))
      (split_on b',' (or_default (Params.get params "tags") "")),
)

parse_viewer_page-pos : (params : Params.Params) (n : ℕ) → parse_viewer_page params ≡ some n → 0 < n
unfolding parse_viewer_page
parse_viewer_page-pos params n h = ground (
  arith,
  parse_positive_int-pos (viewer_page_raw params) 1 (omega arith),
  parse_positive_int-pos (legacy_viewer_page params) 1 (omega arith),
)

-- Whatever the URL holds, the page numbers read from it are positive, and no identifier and no tag
-- is empty.
pub parse_library_state-IsWellFormed :
    (params : Params.Params) → IsWellFormed (parse_library_state params)
unfolding parse_library_state
parse_library_state-IsWellFormed params = record {
  page = parse_positive_int-pos _ 1 (omega arith);
  page_size = parse_positive_int-pos _ 50 (omega arith);
  folder_id = nonempty_of_option (Params.get params "folder");
  doc_id = nonempty_of_option (Params.get params "doc");
  tag_ids = parse_tags-All params;
  viewer_page = parse_viewer_page-pos params;
}
