-- ===== src/Client/Persisted.antt =====
-- A state that is kept in the browser's storage: usePersistedState.ts. The storage and JSON are
-- parameters: `get_item` and `set_item` give `none` where they throw, and so does `parse`.
use lesspaper_ngl.Prelude.{
  Option, Option-cases, String, ap, arith, if◌then◌else◌, inl, inr, is_some, none, or_default, some,
  truthy, ◌∙◌, ◌≡◌,
}

module _ {T Store : Type 0} (get_item : Store → String → Option (Option String))
    (set_item : Store → String → String → Option Store) (parse : String → Option T)
    (stringify : T → String) where
  -- what is found under the legacy key moves to the new one, which may throw
  unfoldable pub read_legacy : String → T → String → Store → T × Store
  read_legacy key default_value legacy_key s = elim (get_item s legacy_key) [
    | none ↦ (default_value, s)
    | some none ↦ (default_value, s)
    | some (some raw) ↦ elim (set_item s key raw) [
      | none ↦ (default_value, s)
      | some s2 ↦ (or_default (parse raw) default_value, s2)
    ]
  ]

  -- the initial value of the state
  unfoldable pub read_state : String → T → Option String → Store → T × Store
  unfolding read_legacy
  read_state key default_value legacy_key s = elim (get_item s key) [
    | none ↦ (default_value, s)
    | some (some raw) ↦ (or_default (parse raw) default_value, s)
    | some none ↦
        if truthy legacy_key
        then read_legacy key default_value (or_default legacy_key "") s
        else (default_value, s)
  ]

  -- the effect on the key and the value
  unfoldable pub persist : String → T → Store → Store
  persist key value s = or_default (set_item s key (stringify value)) s

  module _
      (get-set : (s s2 : Store) (k v : String)
        → set_item s k v ≡ some s2
        → get_item s2 k ≡ some (some v))
      (parse-stringify : (v : T) → parse (stringify v) ≡ some v) where
    read_legacy_again :
        (key : String) (d : T) (l : String) (s : Store)
        → get_item s key ≡ some none
        → (read_state key d none (read_legacy key d l s).1).0 ≡ (read_legacy key d l s).0
    unfolding read_legacy read_state
    read_legacy_again key d l s e = elim (Option-cases (get_item s l)) [
      | inl h ↦ ground (arith, e, h)
      | inr (found, h) ↦ elim (Option-cases found) [
        | inl none_found ↦ ground (arith, e, h, none_found)
        | inr (raw, is_found) ↦ elim (Option-cases (set_item s key raw)) [
          | inl refused ↦ ground (arith, e, h, is_found, refused)
          | inr (s2, taken) ↦ ground (arith, h, is_found, taken, get-set s s2 key raw taken)
        ]
      ]
    ]

    read_state_again :
        (key : String) (d : T) (legacy_key : Option String) (s : Store)
        → (read_state key d none (read_state key d legacy_key s).1).0
          ≡ (read_state key d legacy_key s).0
    unfolding read_state
    read_state_again key d legacy_key s = elim (Option-cases (get_item s key)) [
      | inl h ↦ ground (arith, h)
      | inr (found, h) ↦ elim (Option-cases found) [
        | inl none_found ↦ ground (
          arith,
          h,
          none_found,
          read_legacy_again key d (or_default legacy_key "") s (h ∙ ap some none_found),
        )
        | inr (raw, is_found) ↦ ground (arith, h, is_found)
      ]
    ]

    -- If an item that was set is there to get, and JSON reads what it has written: a value that the
    -- storage takes is the one that is read next time, and one that it refuses leaves what would be
    -- read as it was; and what a first reading gives, a second gives without the legacy key.
    pub read_state-persist :
        (key : String) (d v : T) (legacy_key : Option String) (s : Store)
        → ((read_state key d legacy_key (persist key v s)).0 ≡ (
            if is_some (set_item s key (stringify v))
            then v
            else (read_state key d legacy_key s).0))
          × ((read_state key d none (read_state key d legacy_key s).1).0
              ≡ (read_state key d legacy_key s).0)
    unfolding persist read_state
    read_state-persist key d v legacy_key s = (
      elim (Option-cases (set_item s key (stringify v))) [
        | inl refused ↦ ground (arith, refused)
        | inr (s2, taken) ↦
            ground (arith, taken, get-set s s2 key (stringify v) taken, parse-stringify v)
      ],
      read_state_again key d legacy_key s,
    )
