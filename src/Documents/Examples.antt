-- ===== src/Documents/Examples.antt =====
-- The theorems of the library page at concrete values.
use lesspaper_ngl.Prelude.Sets
use lesspaper_ngl.Documents.Drag.{
  data_transfer_has_documents, from_elsewhere, handle_drop, handle_drop-set_document_drag_data,
  set_document_drag_data,
}
use lesspaper_ngl.Documents.LibraryState.{
  DocumentsLibraryState, LibraryView, defaults, library_state_to_search_params, parse_library_state,
}
use lesspaper_ngl.Documents.LibraryState.Hook.{open_document, viewer_page-open_document}
use lesspaper_ngl.Documents.LibraryState.Invariant.{IsWellFormed, parse_library_state-IsWellFormed}
use lesspaper_ngl.Documents.LibraryState.Requests.{library_state_to_list_params, list_params-inbox}
use lesspaper_ngl.Documents.LibraryState.RoundTrip.{parse-library_state_to_search_params}
use lesspaper_ngl.Documents.Selection.{has-select_range_ids, select_range_ids}
use lesspaper_ngl.Documents.SelectionModel.{KeyEvent, Model, handle_key_down, key_of}
use lesspaper_ngl.Documents.SelectionModel.Focus.{Action, IsWithin, act, act-IsWithin}
use lesspaper_ngl.Documents.SelectionModel.Keys.{
  IsMoved, handle_key_down-IsMoved, handle_key_down_idle, target,
}
use lesspaper_ngl.Prelude.{
  List, Option, String, [], arith, false, get_elem?, inl, inr, length, max, min, none, nonempty,
  refl, some, true, ℕ, ◌↔◌, ◌∷◌, ◌≡◌, ◌≢◌, ◌≤◌, ◌⊎◌,
}
use lesspaper_ngl.Prelude.Texts.{trim}
use lesspaper_ngl.Types.Json.{Items, Json, to_list}
use lesspaper_ngl.Types.Request.{SortField}

abbrev tagged : DocumentsLibraryState
tagged = record defaults {
  view = LibraryView.unprocessed;
  folder_id = some "f";
  q = "tax";
  tag_ids = "t" ∷ "u" ∷ [];
  sort = SortField.title;
  page = 3;
}

parse-library_state_to_search_params_example :
    parse_library_state (library_state_to_search_params tagged (("page", "9") ∷ [])) ≡ tagged
unfolding trim
parse-library_state_to_search_params_example =
    parse-library_state_to_search_params tagged (("page", "9") ∷ []) (inr (inl refl))

viewer_page-open_document_example :
    (parse_library_state (open_document tagged "d" none)).viewer_page ≡ some 3
viewer_page-open_document_example = viewer_page-open_document tagged "d" refl (omega arith)

parse_library_state-IsWellFormed_example :
    IsWellFormed (parse_library_state (("page", "-2") ∷ ("tag", "") ∷ []))
parse_library_state-IsWellFormed_example =
    parse_library_state-IsWellFormed (("page", "-2") ∷ ("tag", "") ∷ [])

list_params-inbox_example :
    ((library_state_to_list_params tagged).inbox ≡ some false)
      × ((library_state_to_list_params tagged).unprocessed ≡ none)
    ⊎ ((library_state_to_list_params tagged).inbox ≡ none)
      × ((library_state_to_list_params tagged).unprocessed ≡ some true)
list_params-inbox_example = list_params-inbox tagged

abbrev rows : List String
rows = "a" ∷ "b" ∷ "c" ∷ []

has-select_range_ids_example : (Sets.has (select_range_ids rows 2 1) "b" ≡ true) ↔ (
    (k : ℕ) × (min 2 1 ≤ k) × (k ≤ max 2 1) × (get_elem? rows k ≡ some "b") × (nonempty "b" ≡ true))
has-select_range_ids_example = has-select_range_ids rows 2 1 "b"

abbrev on_b : Model
on_b = record { focused = 1; anchor = 1; selected = []; opened = [] }

abbrev press_down : KeyEvent
press_down = record {
  key = "ArrowDown";
  shift = true;
  meta = false;
  ctrl = false;
  editable = false;
}

on_b-IsWithin : IsWithin rows on_b
on_b-IsWithin = record { focused = omega arith; anchor = omega arith }

act-IsWithin_example : IsWithin rows (act rows (Action.key_down 1 press_down) on_b)
act-IsWithin_example = act-IsWithin rows (Action.key_down 1 press_down) on_b tt on_b-IsWithin

has_rows : rows ≢ []
has_rows e = cc

handle_key_down-IsMoved_example :
    IsMoved rows
      (target (key_of "ArrowDown") (length rows) (max 1 1) 1)
      true
      on_b
      (handle_key_down rows 1 press_down on_b).0
unfolding key_of
handle_key_down-IsMoved_example = handle_key_down-IsMoved rows 1 press_down on_b refl has_rows refl

handle_key_down_idle_example : handle_key_down [] 1 press_down on_b ≡ (on_b, false)
handle_key_down_idle_example = handle_key_down_idle [] 1 press_down on_b (inr refl)

abbrev dragged_json : Items
dragged_json = Items.cons (Json.text "d1") (Items.cons (Json.text "d2") Items.nil)

handle_drop-set_document_drag_data_example :
    let stringify : List String → String = λ ids. "[d1,d2]" in
    let parse : String → Option Json = λ s. some (Json.array dragged_json) in
    let ids : List String = "d1" ∷ "d2" ∷ [] in
    let dragged =
      set_document_drag_data stringify parse ids (record { active_ids = none; transfer = [] }) in
    ((handle_drop stringify parse true dragged).1 ≡ some ids)
    × ((handle_drop stringify parse true (from_elsewhere stringify parse dragged)).1 ≡ some ids)
    × ((handle_drop stringify parse true dragged).0.active_ids ≡ none)
    × (data_transfer_has_documents dragged ≡ true)
    × (data_transfer_has_documents (from_elsewhere stringify parse dragged) ≡ true)
unfolding to_list
handle_drop-set_document_drag_data_example =
    handle_drop-set_document_drag_data (λ ids. "[d1,d2]") (λ s. some (Json.array dragged_json))
      dragged_json (record { active_ids = none; transfer = [] }) ("d1" ∷ "d2" ∷ []) refl refl refl
      (refl, (refl, tt)) refl
