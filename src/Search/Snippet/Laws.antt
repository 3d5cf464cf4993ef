-- ===== src/Search/Snippet/Laws.antt =====
-- What a sanitised snippet can hold: components/search/sanitizeSnippet.ts.
use Prim.Native.String
use Prim.Native.String.{String, [], ◌∷◌}
use mathlib.Core.List.{List, [], ◌∷◌}
use Prim.Native.Char.{code}
use lesspaper_ngl.Prelude.{
  Bool, Option-cases, ap, arith, false, if◌then◌else◌, inl, inr, nat_eq, option_eq, refl, some, suc,
  text_eq, true, zero, ℕ, ◌&&◌, ◌+◌, ◌==◌, ◌||◌, ◌∙◌, ◌≡◌,
}
use lesspaper_ngl.Prelude.Texts.{
  drop_text, includes_char, includes_char-append, take_text, text_length,
}
use lesspaper_ngl.Search.Snippet.{
  begins_with_word, escape_html, name_before_gt, restore_tags, sanitize_search_snippet, tag_at,
  tag_names,
}
use text.Mathlib.TextLemmas.{cons-append, nil-append}

abbrev first_code : ℕ → String → Bool
first_code k [] = false
first_code k (c ∷ s) = code c == k

-- after a `<`: the name of one of the tags, in any case, and `>`
unfoldable pub opens : List String → String → Bool
unfolding begins_with_word
opens [] s = false
opens (n ∷ ns) s =
    (begins_with_word s n && first_code 62 (drop_text (text_length n) s)) || opens ns s

-- Each `<` of the text opens or closes one of the tags of the highlighting.
unfoldable pub is_safe : String → Bool
unfolding opens
is_safe [] = true
is_safe (c ∷ s) = (if code c == 60 then opens tag_names s else true) && is_safe s

escape_html-no_lt : (s : String) → includes_char 60 (escape_html s) ≡ false
unfolding escape_html includes_char
escape_html-no_lt [] = refl
escape_html-no_lt (c ∷ s) = ground (
  arith,
  escape_html-no_lt s,
  includes_char-append 60 "&amp;" (escape_html s),
  includes_char-append 60 "&lt;" (escape_html s),
  includes_char-append 60 "&gt;" (escape_html s),
)

no_lt-take :
    (k : ℕ) (s : String) → includes_char 60 s ≡ false → includes_char 60 (take_text k s) ≡ false
unfolding includes_char take_text
no_lt-take zero s h = refl
no_lt-take (suc k) [] h = refl
no_lt-take (suc k) (c ∷ s) h = ground (arith, no_lt-take k s)

no_lt-drop :
    (k : ℕ) (s : String) → includes_char 60 s ≡ false → includes_char 60 (drop_text k s) ≡ false
unfolding includes_char drop_text
no_lt-drop zero s h = h
no_lt-drop (suc k) [] h = refl
no_lt-drop (suc k) (c ∷ s) h = ground (arith, no_lt-drop k s)

-- A word that a text begins with is what is taken from it.
taken_word :
    (s word t : String)
    → begins_with_word s word ≡ true
    → (begins_with_word (String.◌++◌ (take_text (text_length word) s) t) word ≡ true)
      × (drop_text (text_length word) (String.◌++◌ (take_text (text_length word) s) t) ≡ t)
unfolding begins_with_word take_text drop_text text_length
taken_word s [] t h = (refl, nil-append t)
taken_word [] (d ∷ word) t h = cc
taken_word (c ∷ s) (d ∷ word) t h =
    let taken = taken_word s word t in
    rw (cons-append c (take_text (text_length word) s) t) (ground (arith, taken, h))

safe-append : (s t : String) → includes_char 60 s ≡ false → is_safe (String.◌++◌ s t) ≡ is_safe t
unfolding is_safe includes_char
safe-append [] t h = ap is_safe (nil-append t)
safe-append (c ∷ s) t h = rw (cons-append c s t) (ground (arith, safe-append s t))

first_code-gt : (t : String) → first_code 62 (String.◌++◌ ">" t) ≡ true
first_code-gt t = rw (cons-append ">" [] t) refl

-- What is put into the snippet for a tag opens it, and brings no other `<`.
name-opens :
    (ns : List String) (s name t : String)
    → name_before_gt ns s ≡ some name
    → includes_char 60 s ≡ false
    → (opens ns (String.◌++◌ name (String.◌++◌ ">" t)) ≡ true) × (includes_char 60 name ≡ false)
unfolding name_before_gt opens
name-opens [] s name t h clean = cc
name-opens (n ∷ ns) s name t h clean =
    let taken = taken_word s n (String.◌++◌ ">" t) in
    ground (
      arith,
      h,
      clean,
      taken,
      first_code-gt t,
      no_lt-take (text_length n) s clean,
      name-opens ns s name t,
    )

gt_alone : includes_char 60 ">" ≡ false
unfolding includes_char
gt_alone = refl

lt-safe : (s : String) → opens tag_names s ≡ true → is_safe s ≡ true → is_safe ("<" ∷ s) ≡ true
unfolding is_safe
lt-safe s valid rest = ground (arith, valid, rest)

tag-safe :
    (s name t : String)
    → tag_at s ≡ some name
    → includes_char 60 s ≡ false
    → is_safe t ≡ true
    → is_safe (String.◌++◌ "<" (String.◌++◌ name (String.◌++◌ ">" t))) ≡ true
unfolding tag_at
tag-safe s name t h clean safe =
    let opened = String.◌++◌ name (String.◌++◌ ">" t) in
    let found : name_before_gt tag_names (drop_text 4 s) ≡ some name = ground (arith, h) in
    let (valid, alone) = name-opens tag_names (drop_text 4 s) name t found (no_lt-drop 4 s clean) in
    let rest = safe-append name (String.◌++◌ ">" t) alone ∙ safe-append ">" t gt_alone ∙ safe in
    rw (cons-append "<" [] opened) (rw (nil-append opened) (lt-safe opened valid rest))

restore_tags-is_safe :
    (k : ℕ) (s : String) → includes_char 60 s ≡ false → is_safe (restore_tags k s) ≡ true
unfolding restore_tags includes_char is_safe
restore_tags-is_safe k [] h = refl
restore_tags-is_safe (suc k) (c ∷ s) h = restore_tags-is_safe k s (ground (arith, h))
restore_tags-is_safe zero (c ∷ s) h = elim (Option-cases (tag_at (c ∷ s))) [
  | inl e ↦ ground (arith, e, h, restore_tags-is_safe 0 s)
  | inr (name, e) ↦
      rw (e, restore_tags)
        (tag-safe (c ∷ s) name (restore_tags (text_length name + 7) s) e h
          (restore_tags-is_safe (text_length name + 7) s (ground (arith, h))))
]

-- Whatever the server sends, each `<` of the sanitised snippet opens or closes one of the tags `b`,
-- `em` and `mark`, and has no attributes.
pub sanitize_search_snippet-is_safe :
    (html : String) → is_safe (sanitize_search_snippet html) ≡ true
unfolding sanitize_search_snippet
sanitize_search_snippet-is_safe html =
    restore_tags-is_safe 0 (escape_html html) (escape_html-no_lt html)
