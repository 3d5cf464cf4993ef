-- ===== src/Documents/SelectionModel/Focus.antt =====
-- The focused row and the anchor stay within the list.
use lesspaper_ngl.Documents.SelectionModel.{
  Key, KeyEvent, Model, Pointer, clamp_indices, handle_checkbox, handle_item_pointer,
  handle_key_down, key_of, move_focus, press, select_exclusive, select_range_to, toggle_at,
}
use lesspaper_ngl.Prelude.{
  Bool, List, String, [], arith, get_elem?, length, max, min, suc, true, truthy, zero, ℕ, ◌+◌, ◌-◌,
  ◌<◌, ◌∷◌, ◌≡◌, ◌≤◌,
}

-- Both indices point at a row, or are 0 where there is none.
pub record IsWithin (ids : List String) (m : Model) : Type 0 where
  pub focused : m.focused ≤ length ids - 1
  pub anchor : m.anchor ≤ length ids - 1

-- what the page can make the model do
pub data Action : Type 0 where
  key_down : ℕ → KeyEvent → Action
  pointer : ℕ → Pointer → Action
  checkbox : ℕ → Bool → Action
  exclusive : ℕ → Action

unfoldable pub act : List String → Action → Model → Model
act ids (key_down grid_columns event) m = (handle_key_down ids grid_columns event m).0
act ids (pointer index event) m = (handle_item_pointer ids index event m).0
act ids (checkbox index checked) m = handle_checkbox ids index checked m
act ids (exclusive index) m = select_exclusive ids index m

-- A pointer event comes from a row that is there.
abbrev pub IsOnRow : List String → Action → Type 0
IsOnRow ids (pointer index event) = index < length ids
IsOnRow ids _ = Unit

lt-length_of_get_elem? :
    (ids : List String) (i : ℕ) → truthy (get_elem? ids i) ≡ true → i < length ids
lt-length_of_get_elem? [] i h = cc
lt-length_of_get_elem? (x ∷ ids) zero h = omega arith
lt-length_of_get_elem? (x ∷ ids) (suc i) h = omega (arith, lt-length_of_get_elem? ids i h)

module _ (ids : List String) where
  toggle_at-IsWithin : (i : ℕ) (m : Model) → IsWithin ids m → IsWithin ids (toggle_at ids i m)
  unfolding toggle_at
  toggle_at-IsWithin i m w = ground (arith, lt-length_of_get_elem? ids i)

  move_focus-IsWithin :
      (next : ℕ) (shift : Bool) (m : Model)
      → IsWithin ids m
      → next ≤ length ids - 1
      → IsWithin ids (move_focus ids next shift m)
  unfolding move_focus
  move_focus-IsWithin next shift m w h = ground arith

  press-IsWithin :
      (k : Key) (event : KeyEvent) (cols : ℕ) (m : Model)
      → IsWithin ids m
      → IsWithin ids (press ids k event cols m).0
  unfolding press
  press-IsWithin Key.arrow_down event cols m w = move_focus-IsWithin _ event.shift m w (omega arith)
  press-IsWithin Key.arrow_up event cols m w =
      move_focus-IsWithin _ event.shift m w (omega (arith, w.focused))
  press-IsWithin Key.arrow_right event cols m w = ground (
    arith,
    move_focus-IsWithin (min (length ids - 1) (m.focused + 1)) event.shift m w (omega arith),
  )
  press-IsWithin Key.arrow_left event cols m w =
      ground (arith, move_focus-IsWithin (m.focused - 1) event.shift m w (omega (arith, w.focused)))
  press-IsWithin Key.space event cols m w = toggle_at-IsWithin m.focused m w
  press-IsWithin Key.enter event cols m w = ground arith
  press-IsWithin Key.letter_a event cols m w = ground arith
  press-IsWithin Key.home event cols m w = move_focus-IsWithin 0 event.shift m w (omega arith)
  press-IsWithin Key.end_key event cols m w = move_focus-IsWithin _ event.shift m w (omega arith)
  press-IsWithin Key.other event cols m w = w

-- Whatever is pressed, clicked or checked, the focused row and the anchor stay within the list.
pub act-IsWithin :
    (ids : List String) (a : Action) (m : Model)
    → IsOnRow ids a
    → IsWithin ids m
    → IsWithin ids (act ids a m)
unfolding act handle_key_down handle_item_pointer select_range_to handle_checkbox select_exclusive
act-IsWithin ids (key_down grid_columns event) m on w =
    ground (arith, press-IsWithin ids (key_of event.key) event (max 1 grid_columns) m w)
act-IsWithin ids (pointer index event) m on w = ground (arith, toggle_at-IsWithin ids index m w)
act-IsWithin ids (checkbox index checked) m on w = ground (arith, lt-length_of_get_elem? ids index)
act-IsWithin ids (exclusive index) m on w = ground (arith, lt-length_of_get_elem? ids index)

-- When the list of documents changes, both indices are within the new list.
clamp_indices-IsWithin : (ids : List String) (m : Model) → IsWithin ids (clamp_indices ids m)
unfolding clamp_indices
clamp_indices-IsWithin ids m = ground arith
