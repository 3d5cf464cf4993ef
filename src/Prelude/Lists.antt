-- ===== src/Prelude/Lists.antt =====
-- Arrays: length, reading at an index, `filter`, `some`, `every`, `find`.
use Prim.Native.Nat.{suc, zero, ℕ, ◌+◌, ◌≤◌}
use lesspaper_ngl.Prelude.Tests.{if◌then◌else◌}
use mathlib.Core.Bool.{Bool, false, true, ◌&&◌, ◌||◌}
use mathlib.Core.List.{List, [], map, ◌++◌, ◌∷◌}
use mathlib.Core.Logic.{inl, inr, ◌↔◌, ◌⊎◌}
use mathlib.Core.Option.{Option, none, some}
use mathlib.Core.Path.{ap, refl, ◌≡◌}
use native.Mathlib.Omega.{arith}

module _ {ℓ} {A : Type ℓ} where
  abbrev pub length : List A → ℕ
  length [] = 0
  length (x ∷ xs) = suc (length xs)

  abbrev pub get_elem? : List A → ℕ → Option A
  get_elem? [] i = none
  get_elem? (x ∷ xs) zero = some x
  get_elem? (x ∷ xs) (suc i) = get_elem? xs i

  abbrev pub filter : (A → Bool) → List A → List A
  filter p [] = []
  filter p (x ∷ xs) = let rest = filter p xs in if p x then x ∷ rest else rest

  abbrev pub any : (A → Bool) → List A → Bool
  any p [] = false
  any p (x ∷ xs) = p x || any p xs

  abbrev pub all : (A → Bool) → List A → Bool
  all p [] = true
  all p (x ∷ xs) = p x && all p xs

  abbrev pub find : (A → Bool) → List A → Option A
  find p [] = none
  find p (x ∷ xs) = let rest = find p xs in if p x then some x else rest

  abbrev pub All {κ} : (A → Type κ) → List A → Type κ
  All P [] = Unit
  All P (x ∷ xs) = P x × All P xs

  pub List-cases : (xs : List A) → (xs ≡ []) ⊎ ((x : A) × (rest : List A) × (xs ≡ x ∷ rest))
  List-cases [] = inl refl
  List-cases (x ∷ xs) = inr (x, xs, refl)

  pub length-append : (xs ys : List A) → length (xs ++ ys) ≡ length xs + length ys
  length-append [] ys = omega arith
  length-append (x ∷ xs) ys = omega (arith, length-append xs ys)

  pub any_mono :
      (p q : A → Bool) (xs : List A)
      → ((a : A) → p a ≡ true → q a ≡ true)
      → any p xs ≡ true
      → any q xs ≡ true
  any_mono p q [] le h = h
  any_mono p q (x ∷ xs) le h = ground (arith, any_mono p q xs le, le x)

  pub length-filter-le : (p : A → Bool) (xs : List A) → length (filter p xs) ≤ length xs
  length-filter-le p [] = omega arith
  length-filter-le p (x ∷ xs) = ground (arith, length-filter-le p xs)

pub length-map {ℓ κ} :
    {A : Type ℓ} {B : Type κ} (f : A → B) (xs : List A) → length (map f xs) ≡ length xs
length-map f [] = refl
length-map f (x ∷ xs) = ap suc (length-map f xs)

module _ {A : Type 0} where
  -- An element, by recursion on the list: in a proof it computes to a sum.
  abbrev pub In : A → List A → Type 0
  In a [] = ⊥
  In a (x ∷ xs) = (a ≡ x) ⊎ In a xs

  pub In-filter :
      (p : A → Bool) (a : A) (xs : List A) → In a (filter p xs) ↔ (In a xs × (p a ≡ true))
  In-filter p a [] = (λ h. absurd h, λ (h, _). h)
  In-filter p a (x ∷ xs) = ground (arith, In-filter p a xs)

  pub In-append : (a : A) (xs ys : List A) → In a (xs ++ ys) ↔ (In a xs ⊎ In a ys)
  In-append a [] ys = (inr, elim [ inl h ↦ absurd h | inr h ↦ h ])
  In-append a (x ∷ xs) ys = ground (arith, In-append a xs ys)
