-- ===== src/Client/Share.antt =====
-- Handing a document to the browser's share sheet, or downloading it: shareDocument.ts. What the
-- browser does at each call is a parameter.
use lesspaper_ngl.Client.Http.Url.{download_url}
use lesspaper_ngl.Prelude.{
  Bool, Option, String, [], arith, false, if◌then◌else◌, none, or_default, or_text, refl, some, sym,
  true, ℕ, ◌&&◌, ◌↔◌, ◌∷◌, ◌≡◌,
}
use lesspaper_ngl.Prelude.Decimal.{to_decimal}
use lesspaper_ngl.Prelude.Texts.{template}
use mathlib.Core.Path.{subst}

pub record ShareDocumentInput : Type 0 where
  pub id : String
  pub title : Option String
  pub original_filename : String
  pub mime_type : Option String

pub data ShareDocumentResult : Type 0 where
  shared downloaded cancelled : ShareDocumentResult
  error : String → ShareDocumentResult

-- an error that a call throws: its message if it is an `Error`, and whether it is an `AbortError`
pub record Thrown : Type 0 where
  pub message : Option String
  pub is_abort : Bool

-- `fetch` and then `blob()`: a response that is not ok by its status, a blob by its type
pub data Fetched : Type 0 where
  not_ok : ℕ → Fetched
  blob : String → Fetched
  threw : Thrown → Fetched

pub record SharedFile : Type 0 where
  pub name : String
  pub mime : String

-- `navigator.share` and `navigator.canShare` may be missing; `can_share` is `none` where it throws, and
-- `share` and `download` are `none` where they succeed.
pub record Browser : Type 0 where
  pub fetch : String → Fetched
  pub has_share : Bool
  pub has_can_share : Bool
  pub can_share : SharedFile → Option Bool
  pub share : String → SharedFile → Option Thrown
  pub download : String → Option Thrown

unfoldable pub can_share_files : Browser → SharedFile → Bool
can_share_files b file = b.has_share && b.has_can_share && or_default (b.can_share file) false

-- The result, and whether a download was tried.
unfoldable pub try_download : Browser → String → ShareDocumentResult × Bool
try_download b filename = elim (b.download filename) [
  | none ↦ (ShareDocumentResult.downloaded, true)
  | some e ↦ (ShareDocumentResult.error (or_default e.message "Failed to download document"), true)
]

unfoldable pub share_file : Browser → String → SharedFile → ShareDocumentResult × Bool
share_file b title file =
    if can_share_files b file
    then elim (b.share title file) [
      | none ↦ (ShareDocumentResult.shared, false)
      | some e ↦
          if e.is_abort then (ShareDocumentResult.cancelled, false) else try_download b file.name
    ]
    else try_download b file.name

unfoldable pub share_document : Browser → ShareDocumentInput → ShareDocumentResult × Bool
share_document b doc =
    let filename = or_text doc.original_filename "document" in
    elim (b.fetch (download_url doc.id)) [
      | not_ok status ↦ (
        ShareDocumentResult.error
            (template ("Failed to fetch document (" ∷ to_decimal status ∷ ")" ∷ [])),
        false,
      )
      | threw e ↦
          (ShareDocumentResult.error (or_default e.message "Failed to fetch document"), false)
      | blob blob_type ↦ share_file b (or_text (or_default doc.title "") filename) (record {
        name = filename;
        mime = or_text (or_default doc.mime_type "") (or_text blob_type "application/octet-stream");
      })
    ]

-- the type of what was fetched, if it was
abbrev pub fetched_type : Fetched → Option String
fetched_type (blob t) = some t
fetched_type _ = none

-- the file that is handed to the share sheet, by the first type that is not empty
abbrev pub offered : ShareDocumentInput → String → SharedFile
offered doc blob_type = record {
  name = or_text doc.original_filename "document";
  mime = or_text (or_default doc.mime_type "") (or_text blob_type "application/octet-stream");
}

abbrev pub offered_title : ShareDocumentInput → String
offered_title doc = or_text (or_default doc.title "") (or_text doc.original_filename "document")

-- the browser can share the file
abbrev pub takes_file : Browser → SharedFile → Bool
takes_file b file =
    b.has_share && b.has_can_share && elim (b.can_share file) [ none ↦ false | some can ↦ can ]

abbrev pub is_error : ShareDocumentResult → Bool
is_error (ShareDocumentResult.error message) = true
is_error _ = false

-- what may come of sharing a file
abbrev Outcomes : Browser → String → SharedFile → ShareDocumentResult × Bool → Type 0
Outcomes b title file (result, tried) =
    (takes_file b file ≡ true
      → b.share title file ≡ none
      → (tried ≡ false) × (result ≡ ShareDocumentResult.shared))
    × ((e : Thrown)
        → takes_file b file ≡ true
        → b.share title file ≡ some e
        → e.is_abort ≡ true
        → (tried ≡ false) × (result ≡ ShareDocumentResult.cancelled))
    × ((e : Thrown)
        → takes_file b file ≡ true
        → b.share title file ≡ some e
        → e.is_abort ≡ false
        → (tried ≡ true)
          × ((result ≡ ShareDocumentResult.downloaded) ↔ (b.download file.name ≡ none)))
    × (takes_file b file ≡ false
        → (tried ≡ true)
          × ((result ≡ ShareDocumentResult.downloaded) ↔ (b.download file.name ≡ none)))

share_file_lem :
    (b : Browser) (title : String) (file : SharedFile)
    → Outcomes b title file (share_file b title file)
unfolding share_file try_download can_share_files
share_file_lem b title file = (
  λ takes e. ground (arith, takes, e),
  λ x takes e abort. ground (arith, takes, e, abort),
  λ x takes e abort. ground (arith, takes, e, abort),
  λ takes. ground (arith, takes),
)

fetched_blob : (f : Fetched) (t : String) → fetched_type f ≡ some t → f ≡ blob t
fetched_blob (blob u) t e = ground (arith, e)
fetched_blob (not_ok status) t e = cc
fetched_blob (threw x) t e = cc

share_document-fetched :
    (b : Browser) (doc : ShareDocumentInput) (t : String)
    → b.fetch (download_url doc.id) ≡ blob t
    → share_document b doc ≡ share_file b (offered_title doc) (offered doc t)
unfolding share_document
share_document-fetched b doc t e = rw (share_document, e) refl

not_fetched :
    (b : Browser) (doc : ShareDocumentInput) (f : Fetched)
    → b.fetch (download_url doc.id) ≡ f
    → fetched_type f ≡ none
    → ((share_document b doc).1 ≡ false) × (is_error (share_document b doc).0 ≡ true)
unfolding share_document
not_fetched b doc (not_ok status) e h = (rw (share_document, e) refl, rw (share_document, e) refl)
not_fetched b doc (threw x) e h = (rw (share_document, e) refl, rw (share_document, e) refl)
not_fetched b doc (blob t) e h = cc

-- Without a fetched file, nothing is downloaded and the result is an error. With one: if the browser can
-- share it, it is shared, or cancelled where the share sheet throws an `AbortError`, and in both cases
-- not downloaded; if it throws another error, or the browser cannot share it, the download is tried,
-- with the result `downloaded` exactly if it does not throw.
pub share_document-downloads :
    (b : Browser) (doc : ShareDocumentInput)
    → let (result, tried) = share_document b doc in
      let fetched = b.fetch (download_url doc.id) in
      (fetched_type fetched ≡ none → (tried ≡ false) × (is_error result ≡ true))
      × ((t : String)
          → fetched_type fetched ≡ some t
          → let file = offered doc t in
            let reply = b.share (offered_title doc) file in
            (takes_file b file ≡ true
              → reply ≡ none
              → (tried ≡ false) × (result ≡ ShareDocumentResult.shared))
            × ((e : Thrown)
                → takes_file b file ≡ true
                → reply ≡ some e
                → e.is_abort ≡ true
                → (tried ≡ false) × (result ≡ ShareDocumentResult.cancelled))
            × ((e : Thrown)
                → takes_file b file ≡ true
                → reply ≡ some e
                → e.is_abort ≡ false
                → (tried ≡ true)
                  × ((result ≡ ShareDocumentResult.downloaded) ↔ (b.download file.name ≡ none)))
            × (takes_file b file ≡ false
                → (tried ≡ true)
                  × ((result ≡ ShareDocumentResult.downloaded) ↔ (b.download file.name ≡ none))))
share_document-downloads b doc = (
  not_fetched b doc (b.fetch (download_url doc.id)) refl,
  λ t e.
      let same =
        share_document-fetched b doc t (fetched_blob (b.fetch (download_url doc.id)) t e) in
      subst (Outcomes b (offered_title doc) (offered doc t)) (sym same)
        (share_file_lem b (offered_title doc) (offered doc t)),
)
