-- ===== src/Prelude/Sorting.antt =====
-- JavaScript's `[...xs].sort((a, b) => …)`, a stable sort: `after a b` says that the comparison of `a`
-- and `b` is positive.
use Prim.Native.Nat.{◌+◌}
use lesspaper_ngl.Prelude.Lists.{All, In, filter, length}
use lesspaper_ngl.Prelude.Tests.{if◌then◌else◌}
use mathlib.Core.Bool.{Bool, false, true}
use mathlib.Core.List.{List, [], ◌∷◌}
use mathlib.Core.Logic.{◌↔◌, ◌⊎◌}
use mathlib.Core.Path.{refl, ◌≡◌}
use native.Mathlib.Omega.{arith}

module _ {A : Type 0} (after : A → A → Bool) where
  unfoldable pub insert_by : A → List A → List A
  insert_by m [] = m ∷ []
  insert_by m (x ∷ xs) = let rest = insert_by m xs in if after x m then m ∷ x ∷ xs else x ∷ rest

  unfoldable pub sort_onto : List A → List A → List A
  unfolding insert_by
  sort_onto sorted [] = sorted
  sort_onto sorted (m ∷ ms) = sort_onto (insert_by m sorted) ms

  unfoldable pub sort_by : List A → List A
  unfolding sort_onto
  sort_by ms = sort_onto [] ms

  -- No element stands directly before one that it comes after.
  abbrev pub IsOrdered : List A → Type 0
  IsOrdered [] = Unit
  IsOrdered (a ∷ []) = Unit
  IsOrdered (a ∷ b ∷ ms) = (after a b ≡ false) × IsOrdered (b ∷ ms)

  insert_by-IsOrdered :
      (asym : (a b : A) → after a b ≡ true → after b a ≡ false) (m : A) (ms : List A)
      → IsOrdered ms
      → IsOrdered (insert_by m ms)
  unfolding insert_by
  insert_by-IsOrdered asym m [] h = ground arith
  insert_by-IsOrdered asym m (x ∷ []) h = ground (arith, asym x m)
  insert_by-IsOrdered asym m (x ∷ y ∷ ms) h =
      ground (arith, asym x m, asym y m, insert_by-IsOrdered asym m (y ∷ ms))

  sort_onto-IsOrdered :
      (asym : (a b : A) → after a b ≡ true → after b a ≡ false) (sorted ms : List A)
      → IsOrdered sorted
      → IsOrdered (sort_onto sorted ms)
  unfolding sort_onto
  sort_onto-IsOrdered asym sorted [] h = h
  sort_onto-IsOrdered asym sorted (m ∷ ms) h =
      sort_onto-IsOrdered asym (insert_by m sorted) ms (insert_by-IsOrdered asym m sorted h)

  pub sort_by-IsOrdered :
      (asym : (a b : A) → after a b ≡ true → after b a ≡ false) (ms : List A)
      → IsOrdered (sort_by ms)
  unfolding sort_by
  sort_by-IsOrdered asym ms = sort_onto-IsOrdered asym [] ms tt

  In-insert_by : (a m : A) (ms : List A) → In a (insert_by m ms) ↔ (In a ms ⊎ (a ≡ m))
  unfolding insert_by
  In-insert_by a m [] = ground arith
  In-insert_by a m (x ∷ ms) = ground (arith, In-insert_by a m ms)

  In-sort_onto : (a : A) (sorted ms : List A) → In a (sort_onto sorted ms) ↔ (In a sorted ⊎ In a ms)
  unfolding sort_onto
  In-sort_onto a sorted [] = ground arith
  In-sort_onto a sorted (m ∷ ms) =
      ground (arith, In-sort_onto a (insert_by m sorted) ms, In-insert_by a m sorted)

  pub In-sort_by : (a : A) (ms : List A) → In a (sort_by ms) ↔ In a ms
  unfolding sort_by
  In-sort_by a ms = ground (arith, In-sort_onto a [] ms)

module _ {A : Type 0} (after : A → A → Bool) (p : A → Bool) where
  count-insert_by :
      (m : A) (ms : List A) → length (filter p (insert_by after m ms)) ≡ length (filter p (m ∷ ms))
  unfolding insert_by
  count-insert_by m [] = refl
  count-insert_by m (x ∷ xs) = ground (arith, count-insert_by m xs)

  count-sort_onto :
      (sorted ms : List A)
      → length (filter p (sort_onto after sorted ms))
        ≡ length (filter p sorted) + length (filter p ms)
  unfolding sort_onto
  count-sort_onto sorted [] = omega arith
  count-sort_onto sorted (m ∷ ms) =
      ground (arith, count-sort_onto (insert_by after m sorted) ms, count-insert_by m sorted)

  -- Sorting keeps how many elements pass a test.
  pub count-sort_by : (ms : List A) → length (filter p (sort_by after ms)) ≡ length (filter p ms)
  unfolding sort_by
  count-sort_by ms = omega (arith, count-sort_onto [] ms)

-- Every element stands in the relation `R` to all that follow it.
abbrev pub IsPairwise : {A : Type 0} → (A → A → Type 0) → List A → Type 0
IsPairwise R [] = Unit
IsPairwise R (x ∷ xs) = All (R x) xs × IsPairwise R xs

pub All-mono :
    {A : Type 0} (P Q : A → Type 0) (xs : List A) → ((a : A) → P a → Q a) → All P xs → All Q xs
All-mono P Q [] f h = tt
All-mono P Q (x ∷ xs) f (h, hs) = (f x h, All-mono P Q xs f hs)

module _ {A : Type 0} (after : A → A → Bool)
    (asym : (a b : A) → after a b ≡ true → after b a ≡ false)
    (trans : (a b c : A) → after a b ≡ false → after b c ≡ false → after a c ≡ false) where
  ordered_each : (x : A) (xs : List A) → IsOrdered after (x ∷ xs) → All (λ y. after x y ≡ false) xs
  ordered_each x [] h = tt
  ordered_each x (y ∷ ys) (h, hs) = (
    h,
    All-mono (λ z. after y z ≡ false) (λ z. after x z ≡ false) ys (λ z. trans x y z h)
        (ordered_each y ys hs),
  )

  ordered_pairs : (xs : List A) → IsOrdered after xs → IsPairwise (λ a b. after a b ≡ false) xs
  ordered_pairs [] h = tt
  ordered_pairs (x ∷ []) h = (tt, tt)
  ordered_pairs (x ∷ y ∷ ys) (h, hs) = (ordered_each x (y ∷ ys) (h, hs), ordered_pairs (y ∷ ys) hs)

  -- Sorted by a total order, no element comes after one that follows it.
  pub sort_by-IsPairwise : (xs : List A) → IsPairwise (λ a b. after a b ≡ false) (sort_by after xs)
  sort_by-IsPairwise xs = ordered_pairs (sort_by after xs) (sort_by-IsOrdered after asym xs)

pub IsPairwise-mono :
    {A : Type 0} (R S : A → A → Type 0) (xs : List A)
    → ((a b : A) → R a b → S a b)
    → IsPairwise R xs
    → IsPairwise S xs
IsPairwise-mono R S [] f h = tt
IsPairwise-mono R S (x ∷ xs) f (h, hs) =
    (All-mono (R x) (S x) xs (f x) h, IsPairwise-mono R S xs f hs)
