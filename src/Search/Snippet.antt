-- ===== src/Search/Snippet.antt =====
-- The snippet of a search result, in which only the tags of the highlighting may stand:
-- components/search/sanitizeSnippet.ts.
pub mod Laws
use Prim.Native.String
use Prim.Native.String.{String, [], ◌∷◌}
use mathlib.Core.List.{List, [], ◌∷◌}
use Prim.Native.Char.{Char, code}
use lesspaper_ngl.Prelude.{
  Bool, Option, false, if◌then◌else◌, nat_eq, none, option_eq, some, suc, text_eq, true, zero, ℕ,
  ◌&&◌, ◌+◌, ◌==◌,
}
use lesspaper_ngl.Prelude.Texts.{begins_with, drop_text, lower_code, take_text, text_length}

-- the three replacements, one character at a time: no later one meets what an earlier one wrote, but
-- for the `&` that comes first
unfoldable pub escape_html : String → String
escape_html [] = []
escape_html (c ∷ s) =
    let rest = escape_html s in
    if code c == 38
    then String.◌++◌ "&amp;" rest
    else if code c == 60
    then String.◌++◌ "&lt;" rest
    else if code c == 62
    then String.◌++◌ "&gt;" rest
    else c ∷ rest

-- The text begins with the word in any case, and what follows it.
unfoldable pub begins_with_word : String → String → Bool
begins_with_word s [] = true
begins_with_word [] (d ∷ word) = false
begins_with_word (c ∷ s) (d ∷ word) = lower_code (code c) == code d && begins_with_word s word

abbrev pub tag_names : List String
tag_names = "b" ∷ "em" ∷ "mark" ∷ "/b" ∷ "/em" ∷ "/mark" ∷ []

-- a name of a tag with its slash, as it is written in front of `&gt;`
unfoldable pub name_before_gt : List String → String → Option String
unfolding begins_with_word
name_before_gt [] s = none
name_before_gt (n ∷ ns) s =
    let rest = name_before_gt ns s in
    if begins_with_word s n && begins_with (drop_text (text_length n) s) "&gt;"
    then some (take_text (text_length n) s)
    else rest

unfoldable pub tag_at : String → Option String
unfolding name_before_gt
tag_at s = if begins_with s "&lt;" then name_before_gt tag_names (drop_text 4 s) else none

-- the last replacement; the number counts the characters of the last match that are left
unfoldable pub restore_tags : ℕ → String → String
unfolding tag_at
restore_tags k [] = []
restore_tags (suc k) (c ∷ s) = restore_tags k s
restore_tags zero (c ∷ s) = elim (tag_at (c ∷ s)) [
  | none ↦ c ∷ restore_tags zero s
  | some name ↦
      String.◌++◌ "<" (String.◌++◌ name (String.◌++◌ ">" (restore_tags (text_length name + 7) s)))
]

unfoldable pub sanitize_search_snippet : String → String
unfolding escape_html restore_tags
sanitize_search_snippet html = restore_tags 0 (escape_html html)
