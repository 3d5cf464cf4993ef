-- ===== src/Client/Http.antt =====
-- Requests to the API and their errors: client.ts. The network, and the change of case of a method's
-- name, are parameters. Headers are found by their names as they are written, without the browser's
-- folding of case.
pub mod Laws
pub mod Url
use lesspaper_ngl.Prelude.Maps
use mathlib.Core.Option
use lesspaper_ngl.Client.Csrf.{CsrfState, clear_csrf_token, get_csrf_token, set_csrf_token}
use lesspaper_ngl.Prelude.{
  Bool, List, Option, String, [], any, false, if◌then◌else◌, is_some, leb, nat_eq, none, nonempty,
  not, option_eq, or_default, or_text, some, text_eq, true, ℕ, ◌&&◌, ◌==◌, ◌∷◌,
}
use lesspaper_ngl.Prelude.Texts.{includes, join}
use lesspaper_ngl.Types.Json.{Items, Json, get_field, to_list}

pub record Response : Type 0 where
  pub status : ℕ
  pub status_text : String
  pub content_type : Option String
  -- what `json()` and `text()` give, `none` where they reject
  pub json : Option Json
  pub text : Option String

pub data Reply : Type 0 where
  response : Response → Reply
  -- `fetch` throws an error with a message.
  rejected : String → Reply

-- The body of a request: none, a form by its fields, or a value that is sent as JSON.
pub data Body : Type 0 where
  undefined : Body
  form : List (String × String) → Body
  value : Json → Body

pub record RequestOptions : Type 0 where
  pub method : Option String
  pub headers : List (String × String)
  pub body : Body
  pub json : Bool

pub record Request : Type 0 where
  pub path : String
  pub method : String
  pub headers : List (String × String)
  pub body : Body

pub record ApiError : Type 0 where
  pub message : String
  pub status : ℕ
  pub body : Json

-- `Promise<T>`: a value, undefined as `none`, an `ApiError`, or the error that `fetch` throws
pub data Result : Type 0 where
  returned : Option Json → Result
  failed : ApiError → Result
  thrown : String → Result
  -- the error of `String` where an object cannot be written as a text
  type_error : Result

unfoldable pub is_object : Json → Bool
is_object (Json.array vs) = true
is_object (Json.object fs) = true
is_object _ = false

-- `get duplicate()`: the body as it is, where it is an object
unfoldable pub duplicate : ApiError → Option Json
duplicate e = if e.status == 409 && is_object e.body then some e.body else none

unfoldable pub parse_error_body : Response → Json
parse_error_body r =
    if includes (or_default r.content_type "") "application/json"
    then or_default r.json Json.null
    else or_default (Option.map Json.text r.text) Json.null

-- two values of which the first may throw, and then the second
abbrev pub both_texts : Option String → Option (List String) → Option (List String)
both_texts (some s) (some rest) = some (s ∷ rest)
both_texts _ _ = none

-- `String(v)`, which throws where it is `none`: an object is written by the method `toString` that it
-- inherits, and has none to call where the JSON gives it a field of that name. In an array, null is
-- written as the empty text.
unfoldable mutual
  pub string_of : Json → Option String
  string_of Json.null = some "null"
  string_of (Json.bool true) = some "true"
  string_of (Json.bool false) = some "false"
  string_of (Json.number n) = some n
  string_of (Json.text s) = some s
  string_of (Json.array vs) = Option.map (join ",") (strings_of vs)
  string_of (Json.object fs) =
      if is_some (get_field fs "toString") then none else some "[object Object]"

  pub strings_of : Items → Option (List String)
  strings_of Items.nil = some []
  strings_of (Items.cons Json.null vs) = Option.map (λ rest. "" ∷ rest) (strings_of vs)
  strings_of (Items.cons v vs) = both_texts (string_of v) (strings_of vs)

unfoldable pub detail_text : Json → Option String
detail_text (Json.object fs) = elim (get_field fs "msg") [
  | some msg ↦ string_of msg
  | none ↦ string_of (Json.object fs)
]
detail_text v = string_of v

unfoldable pub detail_texts : List Json → Option (List String)
detail_texts [] = some []
detail_texts (v ∷ vs) = both_texts (detail_text v) (detail_texts vs)

unfoldable pub object_message : Option Json → Option Json → String → Option String
object_message (some (Json.text s)) message fallback = some s
object_message detail (some (Json.text s)) fallback = some s
object_message (some (Json.array vs)) message fallback =
    Option.map (join ", ") (detail_texts (to_list vs))
object_message detail message fallback = some fallback

-- the message, `none` where `String` throws
unfoldable pub extract_message : Json → String → Option String
extract_message (Json.text s) fallback = some (or_text s fallback)
extract_message (Json.object fs) fallback =
    object_message (get_field fs "detail") (get_field fs "message") fallback
extract_message _ fallback = some fallback

unfoldable pub is_ok : Response → Bool
is_ok r = leb 200 r.status && leb r.status 299

abbrev is_empty_body : Json → Bool
is_empty_body Json.null = true
is_empty_body (Json.text s) = not (nonempty s)
is_empty_body _ = false

unfoldable pub read_response : Response → Result
read_response r =
    if r.status == 204
    then Result.returned none
    else if not (is_ok r)
    then elim (extract_message (parse_error_body r) (or_text r.status_text "Request failed")) [
      | none ↦ Result.type_error
      | some message ↦
          Result.failed (record { message = message; status = r.status; body = parse_error_body r })
    ]
    else if is_empty_body (parse_error_body r)
    then Result.returned none
    else Result.returned (some (parse_error_body r))

unfoldable pub is_mutating : String → Bool
is_mutating method = not (any (λ m. m == method) ("GET" ∷ "HEAD" ∷ "OPTIONS" ∷ []))

abbrev pub with_csrf : Option String → List (String × String) → List (String × String)
with_csrf none headers = headers
with_csrf (some token) headers =
    if nonempty token then Maps.put headers "X-CSRF-Token" token else headers

abbrev pub with_type : Body → Bool → List (String × String) → List (String × String)
with_type (Body.form fields) json headers = headers
with_type (Body.value v) json headers = Maps.put headers "Content-Type" "application/json"
with_type Body.undefined json headers =
    if json then Maps.put headers "Content-Type" "application/json" else headers

module _ (decode to_upper_case : String → String) where
  unfoldable pub build_request : String → RequestOptions → CsrfState → Request × CsrfState
  build_request path options csrf =
      let method = to_upper_case (or_default options.method "GET") in
      let mutating = is_mutating method in
      let (token, csrf2) = get_csrf_token decode csrf in
      (
        record {
          path = path;
          method = method;
          headers =
              with_type options.body (options.json && mutating)
                (if mutating then with_csrf token options.headers else options.headers);
          body = options.body;
        },
        if mutating then csrf2 else csrf,
      )

-- The state of the client is the network's and the token's.
module _ {Net : Type 0} (fetch : Net → Request → Reply × Net)
    (decode to_upper_case : String → String) where
  abbrev read_reply : Reply → Result
  read_reply (Reply.response r) = read_response r
  read_reply (Reply.rejected message) = Result.thrown message

  unfoldable pub api_fetch : String → RequestOptions → Net × CsrfState → Result × Net × CsrfState
  api_fetch path options (net, csrf) =
      let (request, csrf2) = build_request decode to_upper_case path options csrf in
      let (reply, net2) = fetch net request in (read_reply reply, net2, csrf2)

  abbrev request_options : String → Body → Bool → RequestOptions
  request_options method body json = record {
    method = some method;
    headers = [];
    body = body;
    json = json;
  }

  unfoldable pub api_post : String → Body → Net × CsrfState → Result × Net × CsrfState
  api_post path body = api_fetch path (request_options "POST" body true)

  unfoldable pub api_patch : String → Body → Net × CsrfState → Result × Net × CsrfState
  api_patch path body = api_fetch path (request_options "PATCH" body true)

  unfoldable pub api_delete : String → Body → Net × CsrfState → Result × Net × CsrfState
  api_delete path body = api_fetch path (request_options "DELETE" body true)

  unfoldable pub api_upload :
      String → List (String × String) → Net × CsrfState → Result × Net × CsrfState
  api_upload path fields = api_fetch path (request_options "POST" (Body.form fields) false)

-- `handleSessionResponse` and `clearSession`
unfoldable pub handle_session_response : String → CsrfState → CsrfState
handle_session_response csrf_token s = set_csrf_token csrf_token s

unfoldable pub clear_session : CsrfState → CsrfState
clear_session s = clear_csrf_token s
