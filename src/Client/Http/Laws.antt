-- ===== src/Client/Http/Laws.antt =====
-- What a request carries, and what becomes of each response.
use mathlib.Core.Option
use lesspaper_ngl.Prelude.Maps
use mathlib.Core.Option
use lesspaper_ngl.Client.Csrf.{CsrfState, get_csrf_token}
use lesspaper_ngl.Client.Http.{
  ApiError, Body, RequestOptions, Response, Result, both_texts, build_request, detail_text,
  detail_texts, extract_message, is_mutating, is_ok, object_message, parse_error_body,
  read_response, string_of, strings_of, with_csrf, with_type,
}
use lesspaper_ngl.Prelude.{
  Bool, List, Option, Option-cases, String, [], all, arith, eq_iff, false, if◌then◌else◌, inl, inr,
  is_some, leb, none, nonempty_option, not, or_default, or_else, or_text, refl, some, true, ℕ, ◌&&◌,
  ◌∙◌, ◌∷◌, ◌≡◌, ◌≢◌, ◌⊎◌,
}
use lesspaper_ngl.Prelude.Texts.{join}
use lesspaper_ngl.Types.Json.{Items, Json, get_field, to_list}
use mathlib.Core.Path.{ap₂}

module _ (decode to_upper_case : String → String) where
  get-with_csrf :
      (token : Option String) (headers : List (String × String))
      → Maps.get (with_csrf token headers) "X-CSRF-Token"
        ≡ or_else (nonempty_option token) (Maps.get headers "X-CSRF-Token")
  get-with_csrf none headers = refl
  get-with_csrf (some token) headers =
      ground (arith, Maps.get-put headers "X-CSRF-Token" "X-CSRF-Token" token)

  get-with_type :
      (body : Body) (json : Bool) (headers : List (String × String))
      → Maps.get (with_type body json headers) "X-CSRF-Token" ≡ Maps.get headers "X-CSRF-Token"
  get-with_type (Body.form fields) json headers = refl
  get-with_type (Body.value v) json headers =
      Maps.get-put headers "Content-Type" "X-CSRF-Token" "application/json"
  get-with_type Body.undefined true headers =
      Maps.get-put headers "Content-Type" "X-CSRF-Token" "application/json"
  get-with_type Body.undefined false headers = refl

  is_mutating-true :
      (method : String)
      → method ≢ "GET"
      → method ≢ "HEAD"
      → method ≢ "OPTIONS"
      → is_mutating method ≡ true
  unfolding is_mutating
  is_mutating-true method no_get no_head no_options = ground (
    arith,
    no_get,
    no_head,
    no_options,
    eq_iff "GET" method,
    eq_iff "HEAD" method,
    eq_iff "OPTIONS" method,
  )

  is_mutating-false :
      (method : String)
      → method ≡ "GET" ⊎ (method ≡ "HEAD" ⊎ method ≡ "OPTIONS")
      → is_mutating method ≡ false
  unfolding is_mutating
  is_mutating-false method (inl e) = rw e refl
  is_mutating-false method (inr (inl e)) = rw e refl
  is_mutating-false method (inr (inr e)) = rw e refl

  -- A request of any method but GET, HEAD and OPTIONS carries the token, if there is one that is not empty, and
  -- else the header of its options; a GET, HEAD or OPTIONS request has the header of its options,
  -- and does not read the token.
  pub build_request-csrf :
      (path : String) (options : RequestOptions) (csrf : CsrfState)
      → let method = to_upper_case (or_default options.method "GET") in
        let built = build_request decode to_upper_case path options csrf in
        let (token, asked) = get_csrf_token decode csrf in
        (method ≢ "GET"
          → method ≢ "HEAD"
          → method ≢ "OPTIONS"
          → (Maps.get built.0.headers "X-CSRF-Token"
              ≡ or_else (nonempty_option token) (Maps.get options.headers "X-CSRF-Token"))
            × (built.1 ≡ asked))
        × (method ≡ "GET" ⊎ (method ≡ "HEAD" ⊎ method ≡ "OPTIONS")
            → (Maps.get built.0.headers "X-CSRF-Token" ≡ Maps.get options.headers "X-CSRF-Token")
              × (built.1 ≡ csrf))
  unfolding build_request
  build_request-csrf path options csrf =
      let method = to_upper_case (or_default options.method "GET") in
      (
        λ no_get no_head no_options.
            let on = is_mutating-true method no_get no_head no_options in
            (
              rw on (
                  get-with_type options.body _ _
                  ∙ get-with_csrf (get_csrf_token decode csrf).0 options.headers),
              rw on refl,
            ),
        λ reads.
            let off = is_mutating-false method reads in
            (rw off (get-with_type options.body _ options.headers), rw off refl),
      )

abbrev pub is_returned : Result → Bool
is_returned (Result.returned v) = true
is_returned _ = false

abbrev pub error_of : Result → Option ApiError
error_of (Result.failed e) = some e
error_of _ = none

abbrev pub error_source : ApiError → ℕ × Json
error_source e = (e.status, e.body)

abbrev pub is_type_error : Result → Bool
is_type_error Result.type_error = true
is_type_error _ = false

-- A value can be written as a text: no object in it, inside of arrays, has a field `toString`.
abbrev mutual
  pub is_writable : Json → Bool
  is_writable (Json.object fs) = not (is_some (get_field fs "toString"))
  is_writable (Json.array vs) = are_writable vs
  is_writable _ = true

  pub are_writable : Items → Bool
  are_writable Items.nil = true
  are_writable (Items.cons v vs) = is_writable v && are_writable vs

-- what is written of an element of `detail`
abbrev pub written_part : Json → Json
written_part (Json.object fs) = or_default (get_field fs "msg") (Json.object fs)
written_part v = v

-- The message of an error can be made from its body: `detail` or `message` is a text, or `detail` is no
-- list, or what is written of each of its elements is writable.
abbrev pub has_message : Json → Bool
has_message (Json.object fs) = elim (get_field fs "detail") [
  | some (Json.array vs) ↦ elim (get_field fs "message") [
    | some (Json.text s) ↦ true
    | _ ↦ all (λ v. is_writable (written_part v)) (to_list vs)
  ]
  | _ ↦ true
]
has_message _ = true

is_some-map : {A B : Type 0} (f : A → B) (o : Option A) → is_some (Option.map f o) ≡ is_some o
is_some-map f none = refl
is_some-map f (some a) = refl

is_some-both_texts :
    (o : Option String) (rest : Option (List String))
    → is_some (both_texts o rest) ≡ (is_some o && is_some rest)
is_some-both_texts none rest = refl
is_some-both_texts (some s) none = refl
is_some-both_texts (some s) (some rest) = refl

strings_of-cons :
    (v : Json) (vs : Items)
    → is_some (string_of v) ≡ is_writable v
    → is_some (strings_of vs) ≡ are_writable vs
    → is_some (strings_of (Items.cons v vs)) ≡ (is_writable v && are_writable vs)
unfolding strings_of string_of
strings_of-cons Json.null vs h hs = is_some-map (λ rest. "" ∷ rest) (strings_of vs) ∙ hs
strings_of-cons (Json.bool b) vs h hs =
    ground (arith, h, hs, is_some-both_texts (string_of (Json.bool b)) (strings_of vs))
strings_of-cons (Json.number n) vs h hs =
    ground (arith, hs, is_some-both_texts (some n) (strings_of vs))
strings_of-cons (Json.text s) vs h hs =
    ground (arith, hs, is_some-both_texts (some s) (strings_of vs))
strings_of-cons (Json.array us) vs h hs =
    ground (arith, h, hs, is_some-both_texts (string_of (Json.array us)) (strings_of vs))
strings_of-cons (Json.object fs) vs h hs =
    ground (arith, h, hs, is_some-both_texts (string_of (Json.object fs)) (strings_of vs))

mutual
  unfolding string_of strings_of

  string_of-is_writable : (v : Json) → is_some (string_of v) ≡ is_writable v
  string_of-is_writable Json.null = refl
  string_of-is_writable (Json.bool true) = refl
  string_of-is_writable (Json.bool false) = refl
  string_of-is_writable (Json.number n) = refl
  string_of-is_writable (Json.text s) = refl
  string_of-is_writable (Json.array vs) =
      is_some-map (join ",") (strings_of vs) ∙ strings_of-are_writable vs
  string_of-is_writable (Json.object fs) = ground arith

  strings_of-are_writable : (vs : Items) → is_some (strings_of vs) ≡ are_writable vs
  strings_of-are_writable Items.nil = refl
  strings_of-are_writable (Items.cons v vs) =
      strings_of-cons v vs (string_of-is_writable v) (strings_of-are_writable vs)

detail_text-is_writable : (v : Json) → is_some (detail_text v) ≡ is_writable (written_part v)
unfolding detail_text
detail_text-is_writable (Json.object fs) = elim (Option-cases (get_field fs "msg")) [
  | inl e ↦ ground (arith, e, string_of-is_writable (Json.object fs))
  | inr (msg, e) ↦ ground (arith, e, string_of-is_writable msg)
]
detail_text-is_writable Json.null = string_of-is_writable Json.null
detail_text-is_writable (Json.bool b) = string_of-is_writable (Json.bool b)
detail_text-is_writable (Json.number n) = string_of-is_writable (Json.number n)
detail_text-is_writable (Json.text s) = string_of-is_writable (Json.text s)
detail_text-is_writable (Json.array vs) = string_of-is_writable (Json.array vs)

detail_texts-are_writable :
    (vs : List Json) → is_some (detail_texts vs) ≡ all (λ v. is_writable (written_part v)) vs
unfolding detail_texts
detail_texts-are_writable [] = refl
detail_texts-are_writable (v ∷ vs) =
    is_some-both_texts (detail_text v) (detail_texts vs)
    ∙ ap₂ (λ a b. a && b) (detail_text-is_writable v) (detail_texts-are_writable vs)

abbrev has_message_of : Option Json → Option Json → Bool
has_message_of detail message = elim detail [
  | some (Json.array vs) ↦ elim message [
    | some (Json.text s) ↦ true
    | _ ↦ all (λ v. is_writable (written_part v)) (to_list vs)
  ]
  | _ ↦ true
]

object_message-has_message :
    (detail message : Option Json) (fallback : String)
    → is_some (object_message detail message fallback) ≡ has_message_of detail message
unfolding object_message
object_message-has_message (some (Json.array vs)) message fallback =
    let written =
      is_some-map (join ", ") (detail_texts (to_list vs))
      ∙ detail_texts-are_writable (to_list vs) in
    ground (arith, written)
object_message-has_message detail message fallback = ground arith

extract_message-has_message :
    (v : Json) (fallback : String) → is_some (extract_message v fallback) ≡ has_message v
unfolding extract_message
extract_message-has_message (Json.object fs) fallback =
    object_message-has_message (get_field fs "detail") (get_field fs "message") fallback
extract_message-has_message Json.null fallback = refl
extract_message-has_message (Json.bool b) fallback = refl
extract_message-has_message (Json.number n) fallback = refl
extract_message-has_message (Json.text s) fallback = refl
extract_message-has_message (Json.array vs) fallback = refl

-- A response gives a value or undefined exactly if its status is from 200 to 299. Else it gives an
-- error with that status and the response's body, if its message can be made from the body, and a
-- `TypeError` if not; and nothing that the server sends makes it give any other error.
pub read_response-ok :
    (r : Response)
    → let made = has_message (parse_error_body r) in
      (is_returned (read_response r) ≡ (leb 200 r.status && leb r.status 299))
      × (Option.map error_source (error_of (read_response r)) ≡ (
          if not ((leb 200 r.status && leb r.status 299)) && made
          then some (r.status, parse_error_body r)
          else none))
      × (is_type_error (read_response r)
          ≡ (not ((leb 200 r.status && leb r.status 299)) && not made))
unfolding read_response is_ok
read_response-ok r =
    let fallback = or_text r.status_text "Request failed" in
    let made = extract_message-has_message (parse_error_body r) fallback in
    elim (Option-cases (extract_message (parse_error_body r) fallback)) [
      | inl e ↦ ground (arith, made, e)
      | inr (message, e) ↦ ground (arith, made, e)
    ]
