-- ===== src/Prelude/Texts.antt =====
-- JavaScript's operations on texts, by code points: `trim`, `split`, `indexOf`, `slice`, `replace`,
-- `join`. Every separator that the program looks for is ASCII.
use Prim.Native.String
use Prim.Native.String.{String, [], ◌∷◌}
use mathlib.Core.List.{List, [], ◌∷◌}
use Prim.Native.String.compare
use text.Mathlib.TextLemmas.{nil-append, cons-append}
use text.Mathlib.Text.{is_eq}
use mathlib.Core.Option
use Prim.Native.Char.{Char, code}
use Prim.Native.Nat.{suc, zero, ℕ, ◌+◌}
use lesspaper_ngl.Prelude.Tests.{if◌then◌else◌, leb, nat_eq, nonempty, option_eq, text_eq, ◌==◌}
use mathlib.Core.Bool.{Bool, false, not, true, ◌&&◌, ◌||◌}
use mathlib.Core.Option.{Option, none, some}
use mathlib.Core.Path.{ap, ◌∙◌, ◌≡◌}
use native.Mathlib.Omega.{arith}

-- the characters that `\s` matches and `trim` removes
unfoldable pub is_space : ℕ → Bool
is_space c =
    (leb 9 c && leb c 13)
    || c == 32
    || c == 160
    || c == 0x1680
    || (leb 0x2000 c && leb c 0x200a)
    || c == 0x2028
    || c == 0x2029
    || c == 0x202f
    || c == 0x205f
    || c == 0x3000
    || c == 0xfeff

-- an ASCII letter in lower case
abbrev pub lower_code : ℕ → ℕ
lower_code c = if leb b'A' c && leb c b'Z' then c + 32 else c

unfoldable pub trim_start : String → String
unfolding is_space
trim_start [] = []
trim_start (c ∷ s) = let rest = trim_start s in if is_space (code c) then rest else c ∷ s

unfoldable pub trim_end : String → String
unfolding is_space
trim_end [] = []
trim_end (c ∷ s) = let rest = trim_end s in if is_space (code c) && rest == "" then [] else c ∷ rest

unfoldable pub trim : String → String
unfolding trim_start trim_end
trim s = trim_end (trim_start s)

-- `s.includes(c)`, for one character
unfoldable pub includes_char : ℕ → String → Bool
includes_char k [] = false
includes_char k (c ∷ s) = code c == k || includes_char k s

-- `s.replace(/c/g, d)`, for two characters
unfoldable pub replace_char : ℕ → Char → String → String
replace_char k d [] = []
replace_char k d (c ∷ s) = (if code c == k then d else c) ∷ replace_char k d s

-- `s.startsWith(t)`
unfoldable pub begins_with : String → String → Bool
begins_with s [] = true
begins_with [] (d ∷ t) = false
begins_with (c ∷ s) (d ∷ t) = code c == code d && begins_with s t

-- `s.indexOf(t)`, where -1 is `none`
unfoldable pub index_of : String → String → Option ℕ
unfolding begins_with
index_of [] t = if begins_with [] t then some 0 else none
index_of (c ∷ s) t =
    let later = Option.map suc (index_of s t) in if begins_with (c ∷ s) t then some 0 else later

-- `s.includes(t)`
unfoldable pub includes : String → String → Bool
unfolding index_of
includes s t = elim (index_of s t) [ none ↦ false | some i ↦ true ]

-- `s.length`
unfoldable pub text_length : String → ℕ
text_length [] = 0
text_length (c ∷ s) = suc (text_length s)

-- `s.slice(0, n)`
unfoldable pub take_text : ℕ → String → String
take_text zero s = []
take_text (suc n) [] = []
take_text (suc n) (c ∷ s) = c ∷ take_text n s

-- `s.slice(n)`
unfoldable pub drop_text : ℕ → String → String
drop_text zero s = s
drop_text (suc n) [] = []
drop_text (suc n) (c ∷ s) = drop_text n s

-- puts a character in front of the first part
abbrev push_front : Char → List String → List String
push_front c [] = (c ∷ []) ∷ []
push_front c (part ∷ parts) = (c ∷ part) ∷ parts

-- `s.split(c)`, for one character
unfoldable pub split_on : ℕ → String → List String
split_on k [] = [] ∷ []
split_on k (c ∷ s) =
    let parts = split_on k s in if code c == k then [] ∷ parts else push_front c parts

-- the pieces of a template literal
unfoldable pub template : List String → String
template [] = ""
template (s ∷ rest) = String.◌++◌ s (template rest)

-- `parts.join(sep)`
unfoldable pub join : String → List String → String
join sep [] = ""
join sep (s ∷ []) = s
join sep (s ∷ t ∷ rest) = String.◌++◌ s (String.◌++◌ sep (join sep (t ∷ rest)))

-- A text with a first character is true as a condition.
pub cons-nonempty : (c : Char) (s : String) → nonempty (c ∷ s) ≡ true
cons-nonempty c s = ap (λ o. not (is_eq o)) (λ i. compare.cons-nil c s i)

pub includes_char-append :
    (k : ℕ) (s t : String)
    → includes_char k (String.◌++◌ s t) ≡ (includes_char k s || includes_char k t)
unfolding includes_char
includes_char-append k [] t = ap (includes_char k) (nil-append t)
includes_char-append k (c ∷ s) t =
    ap (includes_char k) (cons-append c s t) ∙ ground (arith, includes_char-append k s t)

-- the two texts differ at a place that both have
abbrev differ : String → String → Bool
differ (c ∷ s) (d ∷ t) = not (code c == code d) || differ s t
differ _ _ = false

-- A text that differs from `p` at its beginning does not begin with `p`, however it goes on.
pub not_begins_with :
    (s t p : String) → differ s p ≡ true → begins_with (String.◌++◌ s t) p ≡ true → ⊥
unfolding begins_with
not_begins_with [] t p h k = let no : false ≡ true = h in ground (arith, no)
not_begins_with (c ∷ s) t [] h k = let no : false ≡ true = h in ground (arith, no)
not_begins_with (c ∷ s) t (d ∷ p) h k =
    let k2 : (code c == code d && begins_with (String.◌++◌ s t) p) ≡ true =
      rw (cons-append c s t) at k in
    ground (arith, h, k2, not_begins_with s t p)
