-- ===== src/Inbox/Rejections.antt =====
-- The files that an upload of the inbox rejected, and the toast that reports the upload:
-- sessionRejections.ts. `Date.now()` is a parameter: its reading at each call.
pub mod Laws
use lesspaper_ngl.Client.Upload.{UploadBatchSummary}
use lesspaper_ngl.Inbox.AcceptAll.{kept_parts}
use lesspaper_ngl.Prelude.{
  List, Option, String, [], if◌then◌else◌, length, ltb, nat_eq, none, option_eq, some, text_eq, ℕ,
  ◌+◌, ◌==◌, ◌∷◌,
}
use lesspaper_ngl.Prelude.Decimal.{to_decimal}
use lesspaper_ngl.Prelude.Texts.{drop_text, index_of, join, take_text, template}

pub record SessionRejection : Type 0 where
  pub id : String
  pub filename : String
  pub message : String

unfoldable pub rejected_filename : String → String
rejected_filename raw = elim (index_of raw ": ") [ none ↦ raw | some sep ↦ take_text sep raw ]

unfoldable pub rejected_message : String → String
rejected_message raw = elim (index_of raw ": ") [
  | none ↦ "Upload failed"
  | some sep ↦ drop_text (sep + 2) raw
]

-- `rejectionSeq` is passed on.
unfoldable pub parse_session_rejections : (ℕ → ℕ) → ℕ → List String → List SessionRejection × ℕ
parse_session_rejections now rejection_seq [] = ([], rejection_seq)
parse_session_rejections now rejection_seq (raw ∷ errors) =
    let seq = rejection_seq + 1 in
    let (rest, last) = parse_session_rejections now seq errors in
    (
      record {
        id = template ("reject-" ∷ to_decimal (now seq) ∷ "-" ∷ to_decimal seq ∷ []);
        filename = rejected_filename raw;
        message = rejected_message raw;
      }
          ∷ rest,
      last,
    )

unfoldable pub upload_parts : UploadBatchSummary → List (Option String)
upload_parts summary =
    (if ltb 0 summary.created
      then some (
          template (
            "Uploaded "
            ∷ to_decimal summary.created
            ∷ " file"
            ∷ (if summary.created == 1 then "" else "s")
            ∷ []))
      else none)
    ∷ (if ltb 0 summary.failed
        then some (template ("rejected " ∷ to_decimal summary.failed ∷ []))
        else none)
    ∷ (if ltb 0 summary.duplicates
        then some (
            template (
              "skipped "
              ∷ to_decimal summary.duplicates
              ∷ " duplicate"
              ∷ (if summary.duplicates == 1 then "" else "s")
              ∷ []))
        else none)
    ∷ []

unfoldable pub format_upload_toast : UploadBatchSummary → String
format_upload_toast summary =
    let parts = kept_parts (upload_parts summary) in
    if length parts == 0
    then (if summary.total == 0 then "No files uploaded" else "Upload finished")
    else join " · " parts
