-- ===== src/Documents/SelectionModel/Keys.antt =====
-- What the keys select.
use lesspaper_ngl.Documents.Selection.{select_range_ids}
use lesspaper_ngl.Documents.SelectionModel.{
  Key, KeyEvent, Model, handle_key_down, key_of, move_focus, press,
}
use lesspaper_ngl.Prelude.{
  Bool, List, String, [], arith, false, if◌then◌else◌, length, ltb, max, min, refl, true, ℕ, ◌+◌,
  ◌-◌, ◌∷◌, ◌≡◌, ◌≢◌, ◌⊎◌,
}

-- the keys that move the focus, in a grid of `cols` columns
abbrev pub moves : Key → ℕ → Bool
moves Key.arrow_down cols = true
moves Key.arrow_up cols = true
moves Key.arrow_right cols = ltb 1 cols
moves Key.arrow_left cols = ltb 1 cols
moves Key.home cols = true
moves Key.end_key cols = true
moves _ cols = false

-- the focus that such a key asks for, over `n` rows
abbrev pub target : Key → ℕ → ℕ → ℕ → ℕ
target Key.arrow_down n cols i = min (n - 1) (i + cols)
target Key.arrow_up n cols i = i - cols
target Key.arrow_right n cols i = min (n - 1) (i + 1)
target Key.arrow_left n cols i = i - 1
target Key.end_key n cols i = n - 1
target _ n cols i = 0

press-moves :
    (ids : List String) (k : Key) (event : KeyEvent) (cols : ℕ) (m : Model)
    → moves k cols ≡ true
    → press ids k event cols m
      ≡ (move_focus ids (target k (length ids) cols m.focused) event.shift m, true)
unfolding press
press-moves ids Key.arrow_down event cols m h = refl
press-moves ids Key.arrow_up event cols m h = refl
press-moves ids Key.arrow_right event cols m h = ground arith
press-moves ids Key.arrow_left event cols m h = ground arith
press-moves ids Key.space event cols m h = cc
press-moves ids Key.enter event cols m h = cc
press-moves ids Key.letter_a event cols m h = cc
press-moves ids Key.home event cols m h = refl
press-moves ids Key.end_key event cols m h = refl
press-moves ids Key.other event cols m h = cc

handle_key_down-eq-move_focus :
    (ids : List String) (grid_columns : ℕ) (event : KeyEvent) (m : Model)
    → event.editable ≡ false
    → ids ≢ []
    → moves (key_of event.key) (max 1 grid_columns) ≡ true
    → handle_key_down ids grid_columns event m ≡ (
      move_focus ids
          (target (key_of event.key) (length ids) (max 1 grid_columns) m.focused)
          event.shift
          m,
      true,
    )
unfolding handle_key_down
handle_key_down-eq-move_focus [] grid_columns event m editable ne h = absurd (ne refl)
handle_key_down-eq-move_focus (id ∷ ids) grid_columns event m editable ne h =
    ground (arith, press-moves (id ∷ ids) (key_of event.key) event (max 1 grid_columns) m)

-- `m'` is `m` with the focus on `next`, and with the range selected if Shift is held.
abbrev pub IsMoved : List String → ℕ → Bool → Model → Model → Type 0
IsMoved ids next shift m m' =
    (m'.focused ≡ next)
    × (m'.anchor ≡ m.anchor)
    × (m'.opened ≡ m.opened)
    × (m'.selected ≡ (if shift then select_range_ids ids m.anchor next else m.selected))

move_focus-IsMoved :
    (ids : List String) (next : ℕ) (shift : Bool) (m : Model)
    → ids ≢ []
    → IsMoved ids next shift m (move_focus ids next shift m)
unfolding move_focus
move_focus-IsMoved [] next shift m ne = absurd (ne refl)
move_focus-IsMoved (id ∷ ids) next shift m ne = ground arith

-- A key that moves the focus moves it to its target and keeps the anchor. With Shift the selection
-- becomes the range from the anchor to the new focus; without, it stays as it was. Nothing is opened.
-- This holds outside text fields, for a list that is not empty.
pub handle_key_down-IsMoved :
    (ids : List String) (grid_columns : ℕ) (event : KeyEvent) (m : Model)
    → event.editable ≡ false
    → ids ≢ []
    → moves (key_of event.key) (max 1 grid_columns) ≡ true
    → IsMoved ids
        (target (key_of event.key) (length ids) (max 1 grid_columns) m.focused)
        event.shift
        m
        (handle_key_down ids grid_columns event m).0
handle_key_down-IsMoved ids grid_columns event m editable ne h =
    rw (handle_key_down-eq-move_focus ids grid_columns event m editable ne h)
      (move_focus-IsMoved ids _ event.shift m ne)

-- In a text field, or with no rows, a key does nothing.
pub handle_key_down_idle :
    (ids : List String) (grid_columns : ℕ) (event : KeyEvent) (m : Model)
    → (event.editable ≡ true) ⊎ (ids ≡ [])
    → handle_key_down ids grid_columns event m ≡ (m, false)
unfolding handle_key_down
handle_key_down_idle [] grid_columns event m h = ground arith
handle_key_down_idle (id ∷ ids) grid_columns event m h = ground arith
