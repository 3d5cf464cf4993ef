-- ===== src/Prelude/Maps.antt =====
-- JavaScript's `Map<string, V>`: its entries in the order of insertion.
use Prim.Native.String.{String}
use lesspaper_ngl.Prelude.Tests.{if◌then◌else◌, nat_eq, option_eq, text_eq, ◌==◌}
use mathlib.Core.List.{List, [], ◌∷◌}
use mathlib.Core.Option.{Option, none, some}
use mathlib.Core.Path.{refl, ◌≡◌}
use native.Mathlib.Omega.{arith}
use text.Mathlib.TextEquality.{eq_iff}

module _ {ℓ} {V : Type ℓ} where
  -- `m.get(k)`
  unfoldable pub get : List (String × V) → String → Option V
  get [] k = none
  get ((j, v) ∷ m) k = if j == k then some v else get m k

  -- `m.set(k, v)`: a key that is there keeps its place
  unfoldable pub put : List (String × V) → String → V → List (String × V)
  put [] k v = (k, v) ∷ []
  put ((j, w) ∷ m) k v = if j == k then (j, v) ∷ m else (j, w) ∷ put m k v

  pub get-put :
      (m : List (String × V)) (k j : String) (v : V)
      → get (put m k v) j ≡ (if k == j then some v else get m j)
  unfolding get put
  get-put [] k j v = refl
  get-put ((i, w) ∷ m) k j v = ground (arith, eq_iff k j, eq_iff i k, eq_iff i j, get-put m k j v)
