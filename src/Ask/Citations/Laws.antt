-- ===== src/Ask/Citations/Laws.antt =====
-- A rendered answer loses nothing of its text, and shows only citations that are known:
-- MarkdownResponse.tsx.
use Prim.Native.String
use Prim.Native.String.{String, [], ◌∷◌}
use mathlib.Core.List.{List, [], ◌∷◌}
use Prim.Native.Char.{Char, code}
use text.Mathlib.TextLemmas.{nil-append, cons-append, append_assoc, append-nil}
use lesspaper_ngl.Ask.Citations.{
  Part, Token, digits_until_close, find_number, first_is, marker_at, push_between,
  render_text_with_citations, render_token, to_number, tokens,
}
use lesspaper_ngl.Prelude.{
  Bool-cases, Option-cases, ap, arith, inl, inr, map, nat_eq, option_eq, refl, some, suc, sym,
  text_eq, true, zero, ℕ, ◌==◌, ◌∙◌, ◌≡◌,
}
use lesspaper_ngl.Prelude.Texts.{drop_text, template, text_length}
use lesspaper_ngl.Types.Ask.{Citation}
use mathlib.Core.Path.{subst}
use text.Mathlib.TextEquality.{Char-path}

-- the text that a token was cut from
unfoldable pub written : Token → String
written (Token.between s) = s
written (Token.marker ds) = template ("[" ∷ ds ∷ "]" ∷ [])

-- A part shows its token: as it is written, or as the control of a citation that is known under the
-- number of the marker.
abbrev pub Shows : List (ℕ × Citation) → Token → Part → Type 0
Shows m t (Part.text s) = s ≡ written t
Shows m t (Part.inline_citation n c) =
    (ds : String) × (t ≡ Token.marker ds)
    × (n ≡ to_number 0 ds)
    × ((known : Citation) × (find_number n m ≡ some known)
        × (c ≡ record known { display_number = some n }))

render_token-Shows : (m : List (ℕ × Citation)) (t : Token) → Shows m t (render_token m t)
unfolding render_token written
render_token-Shows m (Token.between s) = refl
render_token-Shows m (Token.marker ds) = elim (Option-cases (find_number (to_number 0 ds) m)) [
  | inl e ↦ rw (e, render_token) refl
  | inr (found, e) ↦ rw (e, render_token) (ds, refl, refl, (found, e, refl))
]

abbrev pub AllShow : List (ℕ × Citation) → List Token → List Part → Type 0
AllShow m [] [] = Unit
AllShow m (t ∷ ts) (p ∷ ps) = Shows m t p × AllShow m ts ps
AllShow m _ _ = ⊥

Char-first : (c : Char) (k : Char) → (code c == code k) ≡ true → c ≡ k
Char-first c k h = Char-path c k (ground (arith, h))

push_between-written :
    (c : Char) (ts : List Token)
    → template (map written (push_between c ts)) ≡ c ∷ template (map written ts)
unfolding template written
push_between-written c [] = cons-append c [] "" ∙ ap (λ r. c ∷ r) (nil-append "")
push_between-written c (Token.between s ∷ ts) = cons-append c s (template (map written ts))
push_between-written c (Token.marker ds ∷ ts) =
    let rest = template (map written (Token.marker ds ∷ ts)) in
    cons-append c [] rest ∙ ap (λ r. c ∷ r) (nil-append rest)

first_is-cons : (s : String) → first_is 93 s ≡ true → s ≡ String.◌++◌ "]" (drop_text 1 s)
unfolding drop_text
first_is-cons [] h = cc
first_is-cons (c ∷ s) h =
    let e = Char-first c "]" h in
    ap (λ d. d ∷ s) e ∙ sym (cons-append "]" [] s ∙ ap (λ r. "]" ∷ r) (nil-append s))

digits_until_close-text :
    (s ds : String)
    → digits_until_close s ≡ some ds
    → s ≡ String.◌++◌ ds (String.◌++◌ "]" (drop_text (suc (text_length ds)) s))
unfolding digits_until_close text_length drop_text
digits_until_close-text [] ds h = cc
digits_until_close-text (c ∷ s) ds h =
    let Cut : String → Type 0 =
      λ ds. c ∷ s ≡ String.◌++◌ ds (String.◌++◌ "]" (drop_text (suc (text_length ds)) (c ∷ s))) in
    elim (Bool-cases (first_is 93 s)) [
      | inl closed ↦
          let whole : c ∷ [] ≡ ds = ground (arith, h, closed) in
          let end = String.◌++◌ "]" (drop_text 1 s) in
          subst Cut whole (
            sym (
              cons-append c [] end
              ∙ ap (λ r. c ∷ r) (nil-append end ∙ sym (first_is-cons s closed))))
      | inr open_still ↦ elim (Option-cases (digits_until_close s)) [
        | inl e ↦ ground (arith, h, open_still, e)
        | inr (more, e) ↦
            let whole : c ∷ more ≡ ds = ground (arith, h, open_still, e) in
            let end = String.◌++◌ "]" (drop_text (suc (text_length more)) s) in
            subst Cut whole
              (ap (λ r. c ∷ r) (digits_until_close-text s more e) ∙ sym (cons-append c more end))
      ]
    ]

marker-written :
    (ds t : String)
    → String.◌++◌ (template ("[" ∷ ds ∷ "]" ∷ [])) t
      ≡ String.◌++◌ "[" (String.◌++◌ ds (String.◌++◌ "]" t))
unfolding template
marker-written ds t =
    append_assoc "[" (String.◌++◌ ds (String.◌++◌ "]" "")) t
    ∙ ap (λ r. String.◌++◌ "[" r)
        (append_assoc ds (String.◌++◌ "]" "") t
          ∙ ap (λ r. String.◌++◌ ds (String.◌++◌ r t)) (append-nil "]"))

marker_at-text :
    (c : Char) (s ds : String)
    → marker_at (c ∷ s) ≡ some ds
    → String.◌++◌ (template ("[" ∷ ds ∷ "]" ∷ [])) (drop_text (suc (text_length ds)) s) ≡ c ∷ s
unfolding marker_at
marker_at-text c s ds h =
    let is_open : (code c == 91) ≡ true = ground (arith, h) in
    let found : digits_until_close s ≡ some ds = ground (arith, h) in
    marker-written ds (drop_text (suc (text_length ds)) s)
    ∙ ap (λ r. String.◌++◌ "[" r) (sym (digits_until_close-text s ds found))
    ∙ cons-append "[" [] s
    ∙ ap (λ r. "[" ∷ r) (nil-append s)
    ∙ ap (λ d. d ∷ s) (sym (Char-first c "[" is_open))

written-tokens : (k : ℕ) (s : String) → template (map written (tokens k s)) ≡ drop_text k s
unfolding tokens template drop_text written
written-tokens zero [] = refl
written-tokens (suc k) [] = refl
written-tokens (suc k) (c ∷ s) = written-tokens k s
written-tokens zero (c ∷ s) = elim (Option-cases (marker_at (c ∷ s))) [
  | inl e ↦
      rw (e, tokens) (push_between-written c (tokens 0 s) ∙ ap (λ r. c ∷ r) (written-tokens 0 s))
  | inr (ds, e) ↦
      let rest = written-tokens (suc (text_length ds)) s in
      rw (e, tokens)
        (ap (λ r. String.◌++◌ (written (Token.marker ds)) r) rest ∙ marker_at-text c s ds e)
]

render_tokens-AllShow :
    (m : List (ℕ × Citation)) (ts : List Token) → AllShow m ts (map (render_token m) ts)
render_tokens-AllShow m [] = tt
render_tokens-AllShow m (t ∷ ts) = (render_token-Shows m t, render_tokens-AllShow m ts)

-- A piece of text that the Markdown library hands over is shown without loss and without invented
-- citations: the tokens that it is cut into make up the piece again, and each token is shown in its place, either as it is written or, where it is
-- a marker, as the control of the citation that is known under its number.
pub render_text_with_citations-AllShow :
    (m : List (ℕ × Citation)) (s : String)
    → (template (map written (tokens 0 s)) ≡ s)
      × AllShow m (tokens 0 s) (render_text_with_citations m s)
unfolding render_text_with_citations drop_text
render_text_with_citations-AllShow m s = (written-tokens 0 s, render_tokens-AllShow m (tokens 0 s))
