-- ===== src/Documents/SelectionModel.antt =====
-- useDocumentSelectionModel.ts: the focused row, the anchor of a range, and the selected rows.
--
-- A callback returns the next state; `selected` and `opened` stand for what `onSelect` and `onOpen`
-- hand to the page. Whether an event's target takes text (`isEditableKeyboardTarget`) is a part of
-- the event, since it is a question to the browser's DOM.
pub mod Keys
pub mod Focus
use lesspaper_ngl.Prelude.Sets
use lesspaper_ngl.Documents.Selection.{select_all_ids, select_range_ids, toggle_id_in_set}
use lesspaper_ngl.Prelude.{
  Bool, List, String, [], false, get_elem?, if◌then◌else◌, leb, length, max, min, nat_eq, not,
  option_eq, or_default, text_eq, true, truthy, ℕ, ◌++◌, ◌+◌, ◌-◌, ◌==◌, ◌||◌, ◌∷◌,
}

pub record Model : Type 0 where
  pub focused : ℕ
  pub anchor : ℕ
  pub selected : List String
  pub opened : List String

pub record Pointer : Type 0 where
  pub shift : Bool
  pub meta : Bool
  pub ctrl : Bool

pub record KeyEvent : Type 0 where
  pub key : String
  pub shift : Bool
  pub meta : Bool
  pub ctrl : Bool
  pub editable : Bool

pub data PointerResult : Type 0 where
  select open_item : PointerResult

-- the cases of the `switch` over `event.key`
pub data Key : Type 0 where
  arrow_down arrow_up arrow_right arrow_left space enter letter_a home end_key other : Key

unfoldable pub key_of : String → Key
key_of k =
    if k == "ArrowDown"
    then Key.arrow_down
    else if k == "ArrowUp"
    then Key.arrow_up
    else if k == "ArrowRight"
    then Key.arrow_right
    else if k == "ArrowLeft"
    then Key.arrow_left
    else if k == " " || k == "Spacebar"
    then Key.space
    else if k == "Enter"
    then Key.enter
    else if k == "a" || k == "A"
    then Key.letter_a
    else if k == "Home"
    then Key.home
    else if k == "End"
    then Key.end_key
    else Key.other

module _ (document_ids : List String) where
  -- the effect that runs when the list of documents changes
  unfoldable pub clamp_indices : Model → Model
  clamp_indices m = record m {
    focused = if length document_ids == 0 then 0 else min m.focused (length document_ids - 1);
    anchor = if length document_ids == 0 then 0 else min m.anchor (length document_ids - 1);
  }

  unfoldable pub select_exclusive : ℕ → Model → Model
  select_exclusive index m =
      if truthy (get_elem? document_ids index)
      then record m {
        focused = index;
        anchor = index;
        selected = or_default (get_elem? document_ids index) "" ∷ [];
      }
      else m

  unfoldable pub toggle_at : ℕ → Model → Model
  unfolding toggle_id_in_set Sets.has
  toggle_at index m =
      let id = or_default (get_elem? document_ids index) "" in
      if truthy (get_elem? document_ids index)
      then record m {
        focused = index;
        anchor = index;
        selected = toggle_id_in_set m.selected id (not (Sets.has m.selected id));
      }
      else m

  -- `from` is the anchor that the callback has closed over
  unfoldable pub select_range_to : ℕ → ℕ → Model → Model
  select_range_to from index m =
      if length document_ids == 0
      then m
      else record m { focused = index; selected = select_range_ids document_ids from index }

  unfoldable pub handle_item_pointer : ℕ → Pointer → Model → Model × PointerResult
  handle_item_pointer index event m =
      if event.shift
      then (select_range_to m.anchor index m, PointerResult.select)
      else if event.meta || event.ctrl
      then (toggle_at index m, PointerResult.select)
      else (record m { focused = index; anchor = index }, PointerResult.open_item)

  unfoldable pub handle_checkbox : ℕ → Bool → Model → Model
  unfolding toggle_id_in_set
  handle_checkbox index checked m =
      if truthy (get_elem? document_ids index)
      then record m {
        focused = index;
        anchor = index;
        selected =
            toggle_id_in_set m.selected (or_default (get_elem? document_ids index) "") checked;
      }
      else m

  -- `setFocusedIndex(nextIndex); if (event.shiftKey) selectRangeTo(nextIndex);`
  unfoldable pub move_focus : ℕ → Bool → Model → Model
  unfolding select_range_to
  move_focus next shift m =
      let moved = record m { focused = next } in
      if shift then select_range_to m.anchor next moved else moved

  -- The `switch`: the next state, and whether the browser's own action is prevented.
  unfoldable pub press : Key → KeyEvent → ℕ → Model → Model × Bool
  press Key.arrow_down event cols m =
      (move_focus (min (length document_ids - 1) (m.focused + cols)) event.shift m, true)
  press Key.arrow_up event cols m = (move_focus (m.focused - cols) event.shift m, true)
  press Key.arrow_right event cols m =
      if leb cols 1
      then (m, false)
      else (move_focus (min (length document_ids - 1) (m.focused + 1)) event.shift m, true)
  press Key.arrow_left event cols m =
      if leb cols 1 then (m, false) else (move_focus (m.focused - 1) event.shift m, true)
  press Key.space event cols m = (toggle_at m.focused m, true)
  press Key.enter event cols m =
      if truthy (get_elem? document_ids m.focused)
      then (
        record m { opened = m.opened ++ or_default (get_elem? document_ids m.focused) "" ∷ [] },
        true,
      )
      else (m, false)
  press Key.letter_a event cols m =
      if event.meta || event.ctrl
      then (record m { selected = select_all_ids document_ids; anchor = 0; focused = 0 }, true)
      else (m, false)
  press Key.home event cols m = (move_focus 0 event.shift m, true)
  press Key.end_key event cols m = (move_focus (length document_ids - 1) event.shift m, true)
  press Key.other event cols m = (m, false)

  unfoldable pub handle_key_down : ℕ → KeyEvent → Model → Model × Bool
  handle_key_down grid_columns event m =
      if event.editable
      then (m, false)
      else if length document_ids == 0
      then (m, false)
      else press (key_of event.key) event (max 1 grid_columns) m
