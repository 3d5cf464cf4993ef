-- ===== src/Search/Examples.antt =====
-- The theorem on snippets, at a concrete one.
use lesspaper_ngl.Prelude.{refl, true, ◌≡◌}
use lesspaper_ngl.Prelude.Texts.{begins_with, drop_text, take_text, text_length}
use lesspaper_ngl.Search.Snippet.{
  begins_with_word, escape_html, name_before_gt, restore_tags, sanitize_search_snippet, tag_at,
}
use lesspaper_ngl.Search.Snippet.Laws.{is_safe, sanitize_search_snippet-is_safe}

sanitize_search_snippet-is_safe_example :
    is_safe (sanitize_search_snippet "a <B>x</b> & <img src=x>") ≡ true
sanitize_search_snippet-is_safe_example = sanitize_search_snippet-is_safe "a <B>x</b> & <img src=x>"

-- a run of the code
snippet_run : sanitize_search_snippet "a <B>x</b> & <i>" ≡ "a <B>x</b> &amp; &lt;i&gt;"
unfolding sanitize_search_snippet escape_html restore_tags tag_at name_before_gt begins_with_word
    begins_with drop_text take_text text_length
snippet_run = refl
