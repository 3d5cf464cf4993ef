-- ===== src/Client/Http/Url.antt =====
-- The paths of GET requests: client.ts. The writing of a query by URLSearchParams is a parameter. A path
-- is taken to be written as `URL` leaves it, without a query of its own.
use lesspaper_ngl.Prelude.Maps
use mathlib.Core.Option
use lesspaper_ngl.Client.Csrf.{CsrfState}
use lesspaper_ngl.Client.Http.{Body, Reply, Request, Result, api_fetch, string_of}
use lesspaper_ngl.Prelude.{
  Bool, List, Option, String, [], arith, false, if◌then◌else◌, nat_eq, none, nonempty, not,
  option_eq, or_default, or_else, refl, some, text_eq, true, ◌==◌, ◌∷◌, ◌≡◌,
}
use lesspaper_ngl.Prelude.Texts.{template}
use lesspaper_ngl.Types.Json.{Json}

-- a value that is left out: null, undefined or the empty text
unfoldable pub is_left_out : Json → Bool
is_left_out Json.null = true
is_left_out (Json.text s) = not (nonempty s)
is_left_out _ = false

-- the loop over the parameters, which are texts, numbers and Booleans, from what `url.searchParams`
-- holds
unfoldable pub set_params : List (String × Json) → List (String × String) → List (String × String)
unfolding is_left_out string_of
set_params [] found = found
set_params ((key, value) ∷ params) found =
    set_params params
      (if is_left_out value then found else Maps.put found key (or_default (string_of value) ""))

module _ (write_query : List (String × String) → String) where
  -- `url.search` is empty if there are no parameters
  unfoldable pub build_url : String → List (String × Json) → String
  unfolding set_params
  build_url path params = elim (set_params params []) [
    | [] ↦ path
    | p ∷ found ↦ template (path ∷ "?" ∷ write_query (p ∷ found) ∷ [])
  ]

  -- `api.get`
  unfoldable pub api_get :
      {Net : Type 0}
      → (Net → Request → Reply × Net)
      → (String → String)
      → (String → String)
      → String
      → List (String × Json)
      → Net × CsrfState
      → Result × Net × CsrfState
  unfolding build_url
  api_get fetch decode to_upper_case path params =
      api_fetch fetch decode to_upper_case (build_url path params)
        (record { method = none; headers = []; body = Body.undefined; json = true })

unfoldable pub download_url : String → String
download_url document_id = template ("/api/documents/" ∷ document_id ∷ "/download" ∷ [])

unfoldable pub thumbnail_url : String → String
thumbnail_url document_id = template ("/api/documents/" ∷ document_id ∷ "/thumbnail" ∷ [])

unfoldable pub avatar_url : Option String → String
avatar_url none = "/api/auth/me/avatar"
avatar_url (some bust) = template ("/api/auth/me/avatar" ∷ "?t=" ∷ bust ∷ [])

-- the last value of a key that is not left out
unfoldable pub last_given : List (String × Json) → String → Option Json
last_given [] k = none
last_given ((key, value) ∷ params) k =
    or_else (last_given params k)
      (if key == k then (if is_left_out value then none else some value) else none)

get-set_params :
    (params : List (String × Json)) (found : List (String × String)) (k : String)
    → Maps.get (set_params params found) k
      ≡ or_else
          (Option.map (λ v. or_default (string_of v) "") (last_given params k))
          (Maps.get found k)
unfolding set_params last_given
get-set_params [] found k = refl
get-set_params ((key, value) ∷ params) found k = ground (
  arith,
  get-set_params params
      (if is_left_out value then found else Maps.put found key (or_default (string_of value) "")) k,
  Maps.get-put found key k (or_default (string_of value) ""),
)
