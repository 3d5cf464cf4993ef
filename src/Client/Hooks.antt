-- ===== src/Client/Hooks.antt =====
-- The queries and mutations that the views share: lib/api/hooks.ts. A hook is given by what it passes
-- to react-query: the key, the request and the options of a query; the request of a mutation and what
-- is done to the cache once it has succeeded.
pub mod Keys
pub mod Auth
pub mod Users
pub mod Folders
pub mod Tags
pub mod Documents
pub mod Changes
pub mod Asking
pub mod Ai
pub mod System
pub mod Backups
pub mod Requests
pub mod Decode
pub mod Laws
mod Examples
use lesspaper_ngl.Client.Http.{Body}
use lesspaper_ngl.Prelude.{
  Bool, List, Option, String, [], false, none, or_default, or_else, some, true, ℕ, ◌∷◌,
}
use lesspaper_ngl.Types.Document.{Document}
use lesspaper_ngl.Types.Json.{Json}
use lesspaper_ngl.Types.Params.{InboxActivityParams, LogFilters}
use lesspaper_ngl.Types.Request.{DocumentListParams, SearchRequest}

-- an element of a key: a text, null, or an object of parameters
pub data KeyPart : Type 0 where
  name : String → KeyPart
  null : KeyPart
  list_params : DocumentListParams → KeyPart
  search_params : SearchRequest → KeyPart
  activity_params : InboxActivityParams → KeyPart
  log_filters : LogFilters → KeyPart

abbrev pub name_parts : List String → List KeyPart
name_parts [] = []
name_parts (s ∷ ss) = KeyPart.name s ∷ name_parts ss

-- a value that may be null, in a key and among the parameters
abbrev pub name_or_null : Option String → KeyPart
name_or_null none = KeyPart.null
name_or_null (some s) = KeyPart.name s

abbrev pub text_or_null : Option String → Json
text_or_null none = Json.null
text_or_null (some s) = Json.text s

-- a call of `api`: the path with the parameters of its query, a body, or the fields of a form
pub data ApiCall : Type 0 where
  get : String → List (String × Json) → ApiCall
  post : String → Body → ApiCall
  patch : String → Body → ApiCall
  delete : String → Body → ApiCall
  upload : String → List (String × String) → ApiCall

pub data Duration : Type 0 where
  milliseconds : ℕ → Duration
  infinite : Duration

-- `retry`: what react-query does by itself, `false`, or a number of times
pub data Retry : Type 0 where
  by_default : Retry
  never : Retry
  times : ℕ → Retry

-- The refetch interval is in milliseconds, and `none` for `false` or no interval.
pub record QueryOptions : Type 0 where
  pub query_key : List KeyPart
  pub call : ApiCall
  pub enabled : Bool
  pub refetch_interval : Option ℕ
  pub stale_time : Option Duration
  pub retry : Retry
  -- `placeholderData: (prev) => prev`
  pub keeps_previous : Bool

abbrev pub basic_query : List KeyPart → ApiCall → QueryOptions
basic_query key call = record {
  query_key = key;
  call = call;
  enabled = true;
  refetch_interval = none;
  stale_time = none;
  retry = Retry.by_default;
  keeps_previous = false;
}

-- the options that a caller may add
pub record Overrides : Type 0 where
  pub enabled : Option Bool
  pub refetch_interval : Option (Option ℕ)
  pub stale_time : Option Duration

-- `...options`
unfoldable pub with_overrides : Overrides → QueryOptions → QueryOptions
with_overrides o q = record q {
  enabled = or_default o.enabled q.enabled;
  refetch_interval = or_default o.refetch_interval q.refetch_interval;
  stale_time = or_else o.stale_time q.stale_time;
}

-- what a mutation does after it has succeeded, in order
pub data Effect : Type 0 where
  invalidate_queries : List KeyPart → Effect
  set_document : List KeyPart → Document → Effect
  set_query_data : List KeyPart → Json → Effect
  clear : Effect
  handle_session : String → Effect
  clear_session : Effect

-- a mutation from `A` whose request gives an `R`
pub record Mutation (A R : Type 0) : Type 0 where
  pub mutation_fn : A → ApiCall
  pub on_success : R → A → List Effect
