-- ===== src/Ask/Citations.antt =====
-- The citations in an answer: MarkdownResponse.tsx. A citation's number is a natural number, and the
-- digits of a marker are read exactly, where the code reads them into a double.
pub mod Laws
use Prim.Native.String.{String, [], ◌∷◌}
use mathlib.Core.List.{List, [], ◌∷◌}
use Prim.Native.Char.{Char, code}
use mathlib.Core.Option
use lesspaper_ngl.Prelude.{
  Bool, Option, false, if◌then◌else◌, map, nat_eq, none, nonempty, option_eq, or_default, some, suc,
  text_eq, zero, ℕ, ◌&&◌, ◌*◌, ◌+◌, ◌-◌, ◌==◌, ◌||◌,
}
use lesspaper_ngl.Prelude.Decimal.{is_digit}
use lesspaper_ngl.Prelude.Texts.{begins_with, template, text_length}
use lesspaper_ngl.Types.Ask.{AskCitationSnapshot, Citation}

-- what a text is cut into: what stands between the markers, and the digits of a marker `[…]`
pub data Token : Type 0 where
  between : String → Token
  marker : String → Token

-- what is shown: a text, or the control of a citation under its number
pub data Part : Type 0 where
  text : String → Part
  inline_citation : ℕ → Citation → Part

unfoldable pub to_citation : AskCitationSnapshot → Citation
to_citation c = record {
  document_id = c.document_id;
  page_number = c.page_number;
  chunk_id = c.chunk_id;
  title = or_default c.title "Source";
  quote = c.quote;
  display_number = some c.display_number;
}

-- `byNumber`, the last citation that was set under a number first
unfoldable pub by_number : List (ℕ × Citation) → List AskCitationSnapshot → List (ℕ × Citation)
unfolding to_citation
by_number m [] = m
by_number m (c ∷ cs) = by_number ((c.display_number, to_citation c) ∷ m) cs

unfoldable pub find_number : ℕ → List (ℕ × Citation) → Option Citation
find_number n [] = none
find_number n ((k, c) ∷ m) = if k == n then some c else find_number n m

abbrev pub first_is : ℕ → String → Bool
first_is k [] = false
first_is k (c ∷ s) = code c == k

-- `(\d+)\]`, from the first digit: the digits, if a bracket closes them
unfoldable pub digits_until_close : String → Option String
digits_until_close [] = none
digits_until_close (c ∷ s) =
    let rest = digits_until_close s in
    if is_digit (code c)
    then (if first_is 93 s then some (c ∷ []) else Option.map (λ ds. c ∷ ds) rest)
    else none

-- the marker that a text begins with
unfoldable pub marker_at : String → Option String
unfolding digits_until_close
marker_at [] = none
marker_at (c ∷ s) = if code c == 91 then digits_until_close s else none

abbrev pub push_between : Char → List Token → List Token
push_between c (Token.between s ∷ ts) = Token.between (c ∷ s) ∷ ts
push_between c ts = Token.between (c ∷ []) ∷ ts

-- the loop over `re.exec`; the number counts the characters of the last match that are left
unfoldable pub tokens : ℕ → String → List Token
unfolding marker_at
tokens k [] = []
tokens (suc k) (c ∷ s) = tokens k s
tokens zero (c ∷ s) = elim (marker_at (c ∷ s)) [
  | none ↦ push_between c (tokens zero s)
  | some ds ↦ Token.marker ds ∷ tokens (suc (text_length ds)) s
]

-- `Number(digits)`
unfoldable pub to_number : ℕ → String → ℕ
to_number n [] = n
to_number n (c ∷ s) = to_number (10 * n + (code c - 48)) s

unfoldable pub render_token : List (ℕ × Citation) → Token → Part
unfolding to_number find_number
render_token m (Token.between s) = Part.text s
render_token m (Token.marker ds) =
    let n = to_number 0 ds in
    elim (find_number n m) [
      | none ↦ Part.text (template ("[" ∷ ds ∷ "]" ∷ []))
      | some c ↦ Part.inline_citation n (record c { display_number = some n })
    ]

-- `renderTextWithCitations`
unfoldable pub render_text_with_citations : List (ℕ × Citation) → String → List Part
unfolding tokens render_token
render_text_with_citations m s = map (render_token m) (tokens 0 s)

-- `external`: whether a link is opened in a tab of its own
unfoldable pub is_external : Option String → Bool
is_external none = false
is_external (some href) =
    nonempty href && (begins_with href "http://" || begins_with href "https://")

-- the number under which the list of sources shows the `i`-th citation, from 0
unfoldable pub source_number : ℕ → Citation → ℕ
source_number i c = or_default c.display_number (i + 1)
