-- ===== src/Prelude/Sets.antt =====
-- JavaScript's `Set<string>`: its elements in the order of insertion.
use Prim.Native.String.{String}
use lesspaper_ngl.Prelude.Tests.{Bool-cases, if◌then◌else◌, nat_eq, option_eq, text_eq, ◌==◌}
use mathlib.Core.Bool.{Bool, false, ◌||◌}
use mathlib.Core.List.{List, [], ◌++◌, ◌∷◌}
use mathlib.Core.Logic.{inl, inr}
use mathlib.Core.Path.{◌≡◌}
use native.Mathlib.Omega.{arith}
use text.Mathlib.TextEquality.{eq_iff}

-- `set.has(id)`
unfoldable pub has : List String → String → Bool
has [] k = false
has (x ∷ xs) k = x == k || has xs k

-- `set.add(id)`
unfoldable pub add : List String → String → List String
unfolding has
add xs k = if has xs k then xs else xs ++ k ∷ []

-- `set.delete(id)`
unfoldable pub delete : List String → String → List String
delete [] k = []
delete (x ∷ xs) k = let rest = delete xs k in if x == k then rest else x ∷ rest

-- `new Set(ids)`, with what is there already in front
unfoldable pub add_all : List String → List String → List String
unfolding add
add_all s [] = s
add_all s (k ∷ ks) = add_all (add s k) ks

pub has-concat : (xs : List String) (k j : String) → has (xs ++ k ∷ []) j ≡ (has xs j || k == j)
unfolding has
has-concat [] k j = ground arith
has-concat (x ∷ xs) k j = ground (arith, has-concat xs k j)

pub has-add : (xs : List String) (k j : String) → has (add xs k) j ≡ (has xs j || k == j)
unfolding add
has-add xs k j = elim (Bool-cases (has xs k)) [
  | inl old ↦ ground (arith, eq_iff k j)
  | inr new ↦ rw new (has-concat xs k j)
]

pub has-delete :
    (xs : List String) (k j : String) → has (delete xs k) j ≡ (if k == j then false else has xs j)
unfolding has delete
has-delete [] k j = ground arith
has-delete (x ∷ xs) k j = ground (arith, has-delete xs k j, eq_iff x k, eq_iff x j, eq_iff k j)

pub has-add_all :
    (xs ks : List String) (j : String) → has (add_all xs ks) j ≡ (has xs j || has ks j)
unfolding add_all has
has-add_all xs [] j = ground arith
has-add_all xs (k ∷ ks) j = ground (arith, has-add xs k j, has-add_all (add xs k) ks j)
