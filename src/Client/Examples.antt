-- ===== src/Client/Examples.antt =====
-- The theorems of the client at concrete requests, responses and uploads.
use lesspaper_ngl.Prelude.Maps
use mathlib.Core.Option
use lesspaper_ngl.Client.Csrf.{CsrfState, get_csrf_token}
use lesspaper_ngl.Client.Http.{
  Body, RequestOptions, Response, Result, build_request, parse_error_body, read_response,
}
use lesspaper_ngl.Client.Http.Laws.{
  build_request-csrf, error_of, error_source, has_message, is_returned, is_type_error,
  read_response-ok,
}
use lesspaper_ngl.Client.Http.Url.{download_url}
use lesspaper_ngl.Client.Persisted.{persist, read_state, read_state-persist}
use lesspaper_ngl.Client.Share.{
  Browser, Fetched, ShareDocumentInput, ShareDocumentResult, Thrown, fetched_type, is_error,
  offered, offered_title, share_document, share_document-downloads, takes_file,
}
use lesspaper_ngl.Client.Upload.{
  Batches, Entries, Entry, File, TypeErrors, UploadEntry, is_tree_upload, join_path,
  read_directory_entry, upload_entries,
}
use lesspaper_ngl.Client.Upload.Laws.{upload_entries-accounted}
use lesspaper_ngl.Client.Upload.Tree.{has_slash, read_directory_entry-tree}
use lesspaper_ngl.Prelude.{
  List, Option, String, [], all, arith, eq_iff, false, if◌then◌else◌, is_some, leb, length, ltb,
  nat_eq, none, nonempty_option, not, option_eq, or_else, refl, some, text_eq, true, ℕ, ◌&&◌, ◌+◌,
  ◌==◌, ◌↔◌, ◌∷◌, ◌≡◌, ◌≢◌, ◌⊎◌,
}
use lesspaper_ngl.Prelude.Texts.{template, text_length}
use lesspaper_ngl.Types.Json.{Fields, Json}

abbrev signed_in : CsrfState
signed_in = record { token = none; cookie = "a=b; folium_csrf=t1" }

abbrev post_options : RequestOptions
post_options = record {
  method = some "POST";
  headers = [];
  body = Body.value Json.null;
  json = true;
}

build_request-csrf_example :
    let method : String = "POST" in
    let built = build_request (λ s. s) (λ s. s) "/api/tags" post_options signed_in in
    let (token, asked) = get_csrf_token (λ s. s) signed_in in
    (method ≢ "GET"
      → method ≢ "HEAD"
      → method ≢ "OPTIONS"
      → (Maps.get built.0.headers "X-CSRF-Token"
          ≡ or_else (nonempty_option token) (Maps.get post_options.headers "X-CSRF-Token"))
        × (built.1 ≡ asked))
    × (method ≡ "GET" ⊎ (method ≡ "HEAD" ⊎ method ≡ "OPTIONS")
        → (Maps.get built.0.headers "X-CSRF-Token" ≡ Maps.get post_options.headers "X-CSRF-Token")
          × (built.1 ≡ signed_in))
build_request-csrf_example = build_request-csrf (λ s. s) (λ s. s) "/api/tags" post_options signed_in

abbrev conflict : Response
conflict = record {
  status = 409;
  status_text = "Conflict";
  content_type = some "application/json";
  json = some (Json.object (Fields.field "detail" (Json.text "exists") Fields.end));
  text = none;
}

read_response-ok_example :
    let ok = leb 200 conflict.status && leb conflict.status 299 in
    let made = has_message (parse_error_body conflict) in
    (is_returned (read_response conflict) ≡ ok)
    × (Option.map error_source (error_of (read_response conflict))
        ≡ (if not ok && made then some (conflict.status, parse_error_body conflict) else none))
    × (is_type_error (read_response conflict) ≡ (not ok && not made))
read_response-ok_example = read_response-ok conflict

abbrev entry_of : String → UploadEntry
entry_of path = record {
  file = record { name = path; webkit_relative_path = none };
  relative_path = path;
}

-- The first upload conflicts, and the others fail.
abbrev sending : ℕ → List (String × String) → Result × ℕ
sending calls fields =
    (if calls == 0 then read_response conflict else Result.thrown "offline", calls + 1)

abbrev engine : TypeErrors
engine = record { no_object = "no object"; no_text = "no text" }

upload_entries-accounted_example :
    let entries = entry_of "a" ∷ entry_of "b/c" ∷ [] in
    let summary = (upload_entries engine sending entries none 0).1 in
    (summary.created + summary.duplicates + summary.failed ≡ 2)
    × (length summary.errors ≡ summary.failed)
    × (summary.total ≡ 2)
upload_entries-accounted_example =
    upload_entries-accounted engine sending (entry_of "a" ∷ entry_of "b/c" ∷ []) none 0

abbrev file_named : String → File
file_named name = record { name = name; webkit_relative_path = none }

-- a directory of a file and of a directory that holds one more, given in two batches
abbrev photos : Batches
photos = Batches.batch (Entry.file_entry "a.jpg" (some (file_named "a.jpg"))) Entries.nil (
    Batches.batch
      (Entry.directory "2026" (
        Batches.batch (Entry.file_entry "b.jpg" (some (file_named "b.jpg"))) Entries.nil
          Batches.empty))
      Entries.nil Batches.empty)

abbrev photo_entries : List UploadEntry
photo_entries =
    record { file = file_named "a.jpg"; relative_path = "photos/a.jpg" }
    ∷ record { file = file_named "b.jpg"; relative_path = "photos/2026/b.jpg" }
    ∷ []

has_photos : photo_entries ≢ []
has_photos e = cc

read_directory_entry-tree_example :
    (all has_slash photo_entries ≡ true) × (is_tree_upload photo_entries ≡ true)
unfolding read_directory_entry join_path template Option.bind
read_directory_entry-tree_example =
    read_directory_entry-tree photos "photos" photo_entries refl refl has_photos

-- a browser whose share sheet the user closes
abbrev closing : Browser
closing = record {
  fetch = λ url. Fetched.blob "application/pdf";
  has_share = true;
  has_can_share = true;
  can_share = λ file. some true;
  share = λ title file. some (record { message = none; is_abort = true });
  download = λ name. none;
}

abbrev shared_input : ShareDocumentInput
shared_input = record { id = "d"; title = none; original_filename = "a.pdf"; mime_type = none }

share_document-downloads_example :
    let (result, tried) = share_document closing shared_input in
    let fetched = closing.fetch (download_url shared_input.id) in
    (fetched_type fetched ≡ none → (tried ≡ false) × (is_error result ≡ true))
    × ((t : String)
        → fetched_type fetched ≡ some t
        → let file = offered shared_input t in
          let reply = closing.share (offered_title shared_input) file in
          (takes_file closing file ≡ true
            → reply ≡ none
            → (tried ≡ false) × (result ≡ ShareDocumentResult.shared))
          × ((e : Thrown)
              → takes_file closing file ≡ true
              → reply ≡ some e
              → e.is_abort ≡ true
              → (tried ≡ false) × (result ≡ ShareDocumentResult.cancelled))
          × ((e : Thrown)
              → takes_file closing file ≡ true
              → reply ≡ some e
              → e.is_abort ≡ false
              → (tried ≡ true)
                × ((result ≡ ShareDocumentResult.downloaded) ↔ (closing.download file.name ≡ none)))
          × (takes_file closing file ≡ false
              → (tried ≡ true)
                × ((result ≡ ShareDocumentResult.downloaded)
                    ↔ (closing.download file.name ≡ none))))
share_document-downloads_example = share_document-downloads closing shared_input

-- a storage that refuses texts of five characters and more
abbrev get_small : List (String × String) → String → Option (Option String)
get_small s k = some (Maps.get s k)

abbrev set_small : List (String × String) → String → String → Option (List (String × String))
set_small s k v = if ltb (text_length v) 5 then some (Maps.put s k v) else none

get_small-set_small :
    (s s2 : List (String × String)) (k v : String)
    → set_small s k v ≡ some s2
    → get_small s2 k ≡ some (some v)
get_small-set_small s s2 k v h = ground (arith, h, Maps.get-put s k k v, eq_iff k k)

abbrev old_storage : List (String × String)
old_storage = ("old", "grid") ∷ []

read_state-persist_example :
    let initial : List (String × String) → String × List (String × String) =
      read_state get_small set_small some (λ v. v) "view" "list" (some "old") in
    let s2 = persist get_small set_small some (λ v. v) "view" "rows" old_storage in
    ((initial s2).0
      ≡ (if is_some (set_small old_storage "view" "rows") then "rows" else (initial old_storage).0))
    × ((read_state get_small set_small some (λ v. v) "view" "list" none (initial old_storage).1).0
        ≡ (initial old_storage).0)
read_state-persist_example =
    read_state-persist get_small set_small some (λ v. v) get_small-set_small (λ v. refl) "view"
      "list" "rows" (some "old") old_storage
