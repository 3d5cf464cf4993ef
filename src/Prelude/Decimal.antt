-- ===== src/Prelude/Decimal.antt =====
-- `String(n)` and `Number.parseInt(s, 10)`.
use Prim.Native.String.{String, [], ◌∷◌}
use Prim.Native.Char.{Char, code}
use Prim.Native.Nat.{suc, zero, ℕ, ◌%◌, ◌*◌, ◌+◌, ◌-◌, ◌/◌, ◌<◌, ◌≤◌}
use lesspaper_ngl.Prelude.Tests.{
  Bool-cases, if◌then◌else◌, leb, ltb, nat_eq, nonempty, option_eq, or_default, text_eq, ◌==◌,
}
use lesspaper_ngl.Prelude.Texts.{cons-nonempty, includes_char, is_space, trim_start}
use mathlib.Core.Bool.{Bool, false, true, ◌&&◌}
use mathlib.Core.Logic.{inl, inr}
use mathlib.Core.Option.{Option, none, some}
use mathlib.Core.Path.{ap, refl, ◌∙◌, ◌≡◌}
use native.Mathlib.Omega.{arith}

digit_char : ℕ → Char
digit_char zero = "0"
digit_char (suc zero) = "1"
digit_char (suc (suc zero)) = "2"
digit_char (suc (suc (suc zero))) = "3"
digit_char (suc (suc (suc (suc zero)))) = "4"
digit_char (suc (suc (suc (suc (suc zero))))) = "5"
digit_char (suc (suc (suc (suc (suc (suc zero)))))) = "6"
digit_char (suc (suc (suc (suc (suc (suc (suc zero))))))) = "7"
digit_char (suc (suc (suc (suc (suc (suc (suc (suc zero)))))))) = "8"
digit_char _ = "9"

code-digit_char : (d : ℕ) → d < 10 → code (digit_char d) ≡ 48 + d
unfolding digit_char
code-digit_char zero h = refl
code-digit_char (suc zero) h = refl
code-digit_char (suc (suc zero)) h = refl
code-digit_char (suc (suc (suc zero))) h = refl
code-digit_char (suc (suc (suc (suc zero)))) h = refl
code-digit_char (suc (suc (suc (suc (suc zero))))) h = refl
code-digit_char (suc (suc (suc (suc (suc (suc zero)))))) h = refl
code-digit_char (suc (suc (suc (suc (suc (suc (suc zero))))))) h = refl
code-digit_char (suc (suc (suc (suc (suc (suc (suc (suc zero)))))))) h = refl
code-digit_char (suc (suc (suc (suc (suc (suc (suc (suc (suc d))))))))) h = omega arith

-- The digits of `n` in front of `rest`, the lowest written first.
digits_before : ℕ → ℕ → String → String
digits_before zero n rest = rest
digits_before (suc fuel) n rest =
    let more = digits_before fuel (n / 10) (digit_char (n % 10) ∷ rest) in
    if ltb n 10 then digit_char n ∷ rest else more

-- `String(n)`
unfoldable pub to_decimal : ℕ → String
unfolding digits_before digit_char
to_decimal n = digits_before (suc n) n ""

abbrev pub is_digit : ℕ → Bool
is_digit c = leb 48 c && leb c 57

-- The longest run of digits in front; `none` before the first.
read_digits : Option ℕ → String → Option ℕ
read_digits acc [] = acc
read_digits acc (c ∷ s) =
    let more = read_digits (some (10 * or_default acc 0 + (code c - 48))) s in
    if is_digit (code c) then more else acc

-- What `parseInt` returns: NaN, or a number by its sign and absolute value.
pub data Parsed : Type 0 where
  nan : Parsed
  number : Bool → ℕ → Parsed

abbrev signed : Bool → Option ℕ → Parsed
signed negative none = nan
signed negative (some n) = number negative n

after_sign : String → Parsed
after_sign [] = nan
after_sign (c ∷ s) =
    if code c == b'-'
    then signed true (read_digits none s)
    else if code c == b'+'
    then signed false (read_digits none s)
    else signed false (read_digits none (c ∷ s))

unfoldable pub parse_int : String → Parsed
unfolding after_sign read_digits trim_start
parse_int s = after_sign (trim_start s)

-- A digit stands in front.
abbrev StartsWithDigit : String → Type 0
StartsWithDigit [] = ⊥
StartsWithDigit (c ∷ s) = (48 ≤ code c) × (code c ≤ 57)

digit-StartsWithDigit : (d : ℕ) → d < 10 → (48 ≤ code (digit_char d)) × (code (digit_char d) ≤ 57)
digit-StartsWithDigit d h = omega (arith, code-digit_char d h)

digits_before-StartsWithDigit :
    (fuel n : ℕ) (rest : String) → n < fuel → StartsWithDigit (digits_before fuel n rest)
unfolding digits_before
digits_before-StartsWithDigit zero n rest h = absurd (omega arith)
digits_before-StartsWithDigit (suc fuel) n rest h = elim (Bool-cases (ltb n 10)) [
  | inl small ↦ rw small (digit-StartsWithDigit n (ground arith))
  | inr large ↦
      rw large
        (digits_before-StartsWithDigit fuel (n / 10) (digit_char (n % 10) ∷ rest) (ground arith))
]

after_sign_of_digit :
    (s : String) → StartsWithDigit s → after_sign (trim_start s) ≡ signed false (read_digits none s)
unfolding after_sign trim_start is_space
after_sign_of_digit [] h = absurd h
after_sign_of_digit (c ∷ s) h = ground arith

read_digits-cons :
    (d m : ℕ) (acc : Option ℕ) (rest : String)
    → d < 10
    → 10 * or_default acc 0 + d ≡ m
    → read_digits acc (digit_char d ∷ rest) ≡ read_digits (some m) rest
unfolding read_digits
read_digits-cons d m acc rest h e = ground (arith, code-digit_char d)

read_digits-digits_before :
    (fuel n : ℕ) (rest : String)
    → n < fuel
    → read_digits none (digits_before fuel n rest) ≡ read_digits (some n) rest
unfolding digits_before
read_digits-digits_before zero n rest h = absurd (omega arith)
read_digits-digits_before (suc fuel) n rest h = elim (Bool-cases (ltb n 10)) [
  | inl small ↦ rw small (read_digits-cons n n none rest (ground arith) (omega arith))
  | inr large ↦ rw large (
      read_digits-digits_before fuel (n / 10) (digit_char (n % 10) ∷ rest) (ground arith)
      ∙ read_digits-cons (n % 10) n (some (n / 10)) rest (omega arith) (omega arith))
]

-- Reading back what `String` writes gives the number.
pub parse_int-to_decimal : (n : ℕ) → parse_int (to_decimal n) ≡ number false n
unfolding parse_int to_decimal
parse_int-to_decimal n =
    after_sign_of_digit _ (digits_before-StartsWithDigit (suc n) n "" (omega arith))
    ∙ ap (signed false) (read_digits-digits_before (suc n) n "" (omega arith))

nonempty_of_StartsWithDigit : (s : String) → StartsWithDigit s → nonempty s ≡ true
nonempty_of_StartsWithDigit [] h = absurd h
nonempty_of_StartsWithDigit (c ∷ s) h = cons-nonempty c s

-- What `String` writes is a text that is true as a condition.
pub to_decimal-nonempty : (n : ℕ) → nonempty (to_decimal n) ≡ true
unfolding to_decimal
to_decimal-nonempty n =
    nonempty_of_StartsWithDigit _ (digits_before-StartsWithDigit (suc n) n "" (omega arith))

includes_char-digit :
    (d k : ℕ) (rest : String)
    → d < 10
    → k < 48
    → includes_char k (digit_char d ∷ rest) ≡ includes_char k rest
unfolding includes_char
includes_char-digit d k rest h less = ground (arith, code-digit_char d h)

digits_before-includes_char :
    (fuel n k : ℕ) (rest : String)
    → k < 48
    → includes_char k (digits_before fuel n rest) ≡ includes_char k rest
unfolding digits_before
digits_before-includes_char zero n k rest h = refl
digits_before-includes_char (suc fuel) n k rest h = elim (Bool-cases (ltb n 10)) [
  | inl small ↦ rw small (includes_char-digit n k rest (ground arith) h)
  | inr large ↦ rw large (
      digits_before-includes_char fuel (n / 10) k (digit_char (n % 10) ∷ rest) h
      ∙ includes_char-digit (n % 10) k rest (omega arith) h)
]

-- No sign and no blank stands in the digits of a number.
pub includes_char-to_decimal : (n k : ℕ) → k < 48 → includes_char k (to_decimal n) ≡ false
unfolding to_decimal includes_char
includes_char-to_decimal n k h = digits_before-includes_char (suc n) n k "" h
