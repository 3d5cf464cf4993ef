-- ===== src/Prelude/Floats.antt =====
-- JavaScript's numbers where the program divides: an abstract type, with what IEEE 754 says of the
-- operations that the program uses. Correct rounding makes each of them monotone, and exact where the
-- exact result is a number; `round` is `Math.round` on numbers that are not negative.
use native.Mathlib.Nat.{div-eq_of_eq-mul_left}
use Prim.Native.Nat.{ℕ, ◌*◌, ◌+◌, ◌/◌, ◌<◌, ◌≤◌}
use mathlib.Core.Path.{ap, ◌∙◌, ◌≡◌}
use native.Mathlib.Omega.{arith}

pub record Floats : Type 1 where
  pub Num : Type 0
  pub num : ℕ → Num
  pub div : Num → Num → Num
  pub times : Num → Num → Num
  pub round : Num → ℕ
  pub Le : Num → Num → Type 0
  pub div_mono : (a b t : ℕ) → 0 < t → a ≤ b → Le (div (num a) (num t)) (div (num b) (num t))
  pub times_mono : (x y : Num) (n : ℕ) → Le x y → Le (times x (num n)) (times y (num n))
  pub round_mono : (x y : Num) → Le x y → round x ≤ round y
  pub div_self : (t : ℕ) → 0 < t → div (num t) (num t) ≡ num 1
  pub zero_div : (t : ℕ) → 0 < t → div (num 0) (num t) ≡ num 0
  pub times_num : (a b : ℕ) → a ≤ 1000 → b ≤ 1000 → times (num a) (num b) ≡ num (a * b)
  pub round_num : (n : ℕ) → n ≤ 1000 → round (num n) ≡ n

module _ (fl : Floats) where
  open fl use {
    num, div, times, round, div_mono, times_mono, round_mono, div_self, zero_div, times_num,
    round_num,
  }

  -- `Math.round((a / t) * 100)`
  unfoldable pub percent : ℕ → ℕ → ℕ
  percent a t = round (times (div (num a) (num t)) (num 100))

  pub percent_mono : (a b t : ℕ) → 0 < t → a ≤ b → percent a t ≤ percent b t
  unfolding percent
  percent_mono a b t h le = round_mono _ _ (times_mono _ _ 100 (div_mono a b t h le))

  pub percent_self : (t : ℕ) → 0 < t → percent t t ≡ 100
  unfolding percent
  percent_self t h =
      ap (λ x. round (times x (num 100))) (div_self t h)
      ∙ ap round (times_num 1 100 (omega arith) (omega arith))
      ∙ round_num 100 (omega arith)

  pub percent_zero : (t : ℕ) → 0 < t → percent 0 t ≡ 0
  unfolding percent
  percent_zero t h =
      ap (λ x. round (times x (num 100))) (zero_div t h)
      ∙ ap round (times_num 0 100 (omega arith) (omega arith))
      ∙ round_num 0 (omega arith)

  pub percent-le : (a t : ℕ) → 0 < t → a ≤ t → percent a t ≤ 100
  percent-le a t h le = omega (arith, percent_mono a t t h le, percent_self t h)

pub div_mono_right : (a b t : ℕ) → 0 < t → a ≤ b → a / t ≤ b / t
div_mono_right a b t h le = grind arith

-- Numbers with three decimals, rounded down, are an instance.
abbrev pub fixed_point : Floats
fixed_point = record {
  Num = ℕ;
  num = λ n. n * 1000;
  div = λ x y. x * 1000 / y;
  times = λ x y. x * y / 1000;
  round = λ x. (x + 500) / 1000;
  Le = λ x y. x ≤ y;
  div_mono = λ a b t h le.
      div_mono_right (a * 1000 * 1000) (b * 1000 * 1000) (t * 1000) (omega arith) (omega arith);
  times_mono =
      λ x y n le. div_mono_right (x * (n * 1000)) (y * (n * 1000)) 1000 (omega arith) (grind arith);
  round_mono = λ x y h. omega arith;
  div_self = λ t h. div-eq_of_eq-mul_left (omega arith) (omega arith);
  zero_div = λ t h. div-eq_of_eq-mul_left (omega arith) (omega arith);
  times_num = λ a b _ _. omega arith;
  round_num = λ n h. omega arith;
}
