-- ===== src/Client/Csrf.antt =====
-- The CSRF token, kept in memory and read from the cookie: csrf.ts. `decodeURIComponent` is a parameter.
use Prim.Native.String.{String, [], ◌∷◌}
use mathlib.Core.List.{[], ◌∷◌}
use Prim.Native.Char.{code}
use mathlib.Core.Option
use lesspaper_ngl.Prelude.{
  Option, if◌then◌else◌, nat_eq, none, option_eq, some, text_eq, truthy, ◌+◌, ◌==◌,
}
use lesspaper_ngl.Prelude.Texts.{begins_with, drop_text, template, text_length}

-- `csrfToken`, and `document.cookie`
pub record CsrfState : Type 0 where
  pub token : Option String
  pub cookie : String

-- `([^;]*)`
unfoldable pub until_semicolon : String → String
until_semicolon [] = []
until_semicolon (c ∷ s) = let rest = until_semicolon s in if code c == 59 then [] else c ∷ rest

-- a match of `; name=([^;]*)` at the first place that has one
unfoldable pub find_cookie : String → String → Option String
find_cookie start [] = none
find_cookie start (c ∷ s) =
    let rest = find_cookie start s in
    if begins_with (c ∷ s) start
    then some (until_semicolon (drop_text (text_length start) (c ∷ s)))
    else rest

unfoldable pub match_cookie : String → String → Option String
match_cookie name cookie =
    if begins_with cookie (template (name ∷ "=" ∷ []))
    then some (until_semicolon (drop_text (text_length name + 1) cookie))
    else find_cookie (template ("; " ∷ name ∷ "=" ∷ [])) cookie

unfoldable pub set_csrf_token : String → CsrfState → CsrfState
set_csrf_token token s = record s { token = some token }

unfoldable pub clear_csrf_token : CsrfState → CsrfState
clear_csrf_token s = record s { token = none }

module _ (decode : String → String) where
  unfoldable pub read_cookie : String → String → Option String
  read_cookie name cookie = Option.map decode (match_cookie name cookie)

  unfoldable pub get_csrf_token : CsrfState → Option String × CsrfState
  get_csrf_token s =
      if truthy s.token
      then (s.token, s)
      else let token = read_cookie "folium_csrf" s.cookie in (token, record s { token = token })
