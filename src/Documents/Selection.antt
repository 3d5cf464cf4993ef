-- ===== src/Documents/Selection.antt =====
-- documentSelection.ts: sets of selected identifiers.
use lesspaper_ngl.Prelude.Sets
use lesspaper_ngl.Documents.Params.{first}
use lesspaper_ngl.Prelude.{
  Bool, List, Option, String, [], arith, eq_iff, false, get_elem?, if◌then◌else◌, inl, inr, max,
  min, nat_eq, none, nonempty, option_eq, some, suc, text_eq, true, zero, ℕ, ◌+◌, ◌-◌, ◌<◌, ◌==◌,
  ◌↔◌, ◌≡◌, ◌≤◌, ◌⊎◌,
}
use mathlib.Core.Path.{subst}
use native.Mathlib.Decide.{dec_lt}

unfoldable pub toggle_id_in_set : List String → String → Bool → List String
unfolding Sets.add Sets.delete
toggle_id_in_set selected id checked =
    if checked then Sets.add selected id else Sets.delete selected id

-- `if (id) next.add(id)`
unfoldable pub add_id : List String → Option String → List String
unfolding Sets.add
add_id next none = next
add_id next (some id) = if nonempty id then Sets.add next id else next

-- the loop of `selectRangeIds`, from index `i` for `n` rounds
unfoldable pub add_range : List String → ℕ → ℕ → List String → List String
unfolding add_id
add_range ordered_ids zero i next = next
add_range ordered_ids (suc n) i next =
    add_range ordered_ids n (suc i) (add_id next (get_elem? ordered_ids i))

unfoldable pub select_range_ids : List String → ℕ → ℕ → List String
unfolding add_range
select_range_ids ordered_ids from_index to_index =
    let first = min from_index to_index in
    let last = max from_index to_index in add_range ordered_ids (suc last - first) first []

unfoldable pub select_all_ids : List String → List String
unfolding Sets.add_all
select_all_ids ordered_ids = Sets.add_all [] ordered_ids

has-toggle_id_in_set :
    (selected : List String) (id j : String) (checked : Bool)
    → Sets.has (toggle_id_in_set selected id checked) j
      ≡ (if id == j then checked else Sets.has selected j)
unfolding toggle_id_in_set
has-toggle_id_in_set selected id j true = ground (arith, Sets.has-add selected id j)
has-toggle_id_in_set selected id j false = Sets.has-delete selected id j

-- `j` is the non-empty identifier at an index from `i` on, below `i + n`
abbrev pub AtIndex : List String → ℕ → ℕ → String → Type 0
AtIndex ids i n j =
    (k : ℕ) × (i ≤ k) × (k < i + n) × (get_elem? ids k ≡ some j) × (nonempty j ≡ true)

has-add_id :
    (next : List String) (o : Option String) (j : String)
    → (Sets.has (add_id next o) j ≡ true)
      ↔ ((Sets.has next j ≡ true) ⊎ ((o ≡ some j) × (nonempty j ≡ true)))
unfolding add_id
has-add_id next none j = (inl, elim [ inl h ↦ h | inr h ↦ cc h.0 ])
has-add_id next (some id) j = ground (arith, Sets.has-add next id j, eq_iff id j)

AtIndex-suc :
    (ids : List String) (i n : ℕ) (j : String)
    → AtIndex ids i (suc n) j
      ↔ (((get_elem? ids i ≡ some j) × (nonempty j ≡ true)) ⊎ AtIndex ids (suc i) n j)
AtIndex-suc ids i n j = (
  λ (k, low, high, e, named). elim (dec_lt i k) [
    | yes later ↦ inr (k, later, omega arith, e, named)
    | no first ↦
        let same : k ≡ i = omega arith in inl (subst (λ m. get_elem? ids m ≡ some j) same e, named)
  ],
  elim [
    | inl (e, named) ↦ (i, omega arith, omega arith, e, named)
    | inr (k, low, high, e, named) ↦ (k, omega arith, omega arith, e, named)
  ],
)

has-add_range :
    (ids : List String) (n i : ℕ) (next : List String) (j : String)
    → (Sets.has (add_range ids n i next) j ≡ true) ↔ ((Sets.has next j ≡ true) ⊎ AtIndex ids i n j)
unfolding add_range
has-add_range ids zero i next j =
    (inl, elim [ inl h ↦ h | inr (k, low, high, _, _) ↦ absurd (omega arith) ])
has-add_range ids (suc n) i next j = ground (
  arith,
  has-add_range ids n (suc i) (add_id next (get_elem? ids i)) j,
  has-add_id next (get_elem? ids i) j,
  AtIndex-suc ids i n j,
)

-- A range selects exactly the non-empty identifiers that stand between its two ends, the ends
-- included, whichever end comes first.
pub has-select_range_ids :
    (ids : List String) (a b : ℕ) (j : String)
    → (Sets.has (select_range_ids ids a b) j ≡ true)
      ↔ ((k : ℕ) × (min a b ≤ k) × (k ≤ max a b) × (get_elem? ids k ≡ some j) × (nonempty j ≡ true))
unfolding select_range_ids Sets.has
has-select_range_ids ids a b j = (
  λ h. elim (range.0 h) [
    | inl none_yet ↦ cc
    | inr (k, low, high, e, named) ↦ (k, low, omega arith, e, named)
  ],
  λ (k, low, high, e, named). range.1 (inr (k, low, omega arith, e, named)),
)
  where
    range :
        (Sets.has (add_range ids (suc (max a b) - min a b) (min a b) []) j ≡ true)
        ↔ ((Sets.has [] j ≡ true) ⊎ AtIndex ids (min a b) (suc (max a b) - min a b) j)
    range = has-add_range ids (suc (max a b) - min a b) (min a b) [] j
