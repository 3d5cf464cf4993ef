-- ===== src/Inbox/Rejections/Laws.antt =====
-- The rejections of an upload are read back from its error messages.
use Prim.Native.String.{String, [], ◌∷◌}
use mathlib.Core.List.{[], ◌∷◌}
use text.Mathlib.TextLemmas.{nil-append, cons-append, append-nil}
use lesspaper_ngl.Client.Upload.{
  UploadEntry, UploadOutcome, count_outcome, empty_summary, error_line,
}
use lesspaper_ngl.Inbox.Rejections.{
  SessionRejection, parse_session_rejections, rejected_filename, rejected_message,
}
use lesspaper_ngl.Prelude.{ap, arith, false, map, refl, some, suc, ℕ, ◌+◌, ◌∙◌, ◌≡◌}
use lesspaper_ngl.Prelude.Texts.{
  begins_with, drop_text, includes_char, index_of, take_text, template, text_length,
}

error_line-nil : (m : String) → error_line [] m ≡ ":" ∷ " " ∷ m
unfolding error_line template
error_line-nil m =
    nil-append _
    ∙ cons-append ":" " " _
    ∙ ap (λ t. ":" ∷ t) (cons-append " " [] _ ∙ ap (λ t. " " ∷ t) (nil-append _ ∙ append-nil m))

error_line-cons : (c : _) (s m : String) → error_line (c ∷ s) m ≡ c ∷ error_line s m
unfolding error_line template
error_line-cons c s m = cons-append c s _

two : (n : ℕ) → n + 2 ≡ suc (suc n)
two n = omega arith

index_of-error_line :
    (path message : String)
    → includes_char 58 path ≡ false
    → index_of (error_line path message) ": " ≡ some (text_length path)
unfolding index_of begins_with text_length includes_char
index_of-error_line [] m h = rw (error_line-nil m) refl
index_of-error_line (c ∷ s) m h =
    rw (error_line-cons c s m) (ground (arith, index_of-error_line s m))

take-error_line :
    (path message : String) → take_text (text_length path) (error_line path message) ≡ path
unfolding take_text text_length
take-error_line [] m = refl
take-error_line (c ∷ s) m = rw (error_line-cons c s m) (ap (λ t. c ∷ t) (take-error_line s m))

drop-error_line :
    (path message : String)
    → drop_text (suc (suc (text_length path))) (error_line path message) ≡ message
unfolding drop_text text_length
drop-error_line [] m = rw (error_line-nil m) refl
drop-error_line (c ∷ s) m = rw (error_line-cons c s m) (drop-error_line s m)

rejected_filename-error_line :
    (path message : String)
    → includes_char 58 path ≡ false
    → rejected_filename (error_line path message) ≡ path
unfolding rejected_filename
rejected_filename-error_line path m h =
    rw (index_of-error_line path m h, rejected_filename) (take-error_line path m)

rejected_message-error_line :
    (path message : String)
    → includes_char 58 path ≡ false
    → rejected_message (error_line path message) ≡ message
unfolding rejected_message
rejected_message-error_line path m h =
    rw (index_of-error_line path m h, rejected_message)
      (ap (λ n. drop_text n (error_line path m)) (two (text_length path)) ∙ drop-error_line path m)

abbrev pub told : SessionRejection → String × String
told r = (r.filename, r.message)

-- The error that an upload notes for a file, whose path has no colon, is read back as that path and
-- that message.
pub parse_session_rejections-count_outcome :
    (now : ℕ → ℕ) (seq total : ℕ) (entry : UploadEntry) (message : String)
    → includes_char 58 entry.relative_path ≡ false
    → let summary = count_outcome entry (UploadOutcome.failed message) (empty_summary total) in
      map told (parse_session_rejections now seq summary.errors).0
      ≡ (entry.relative_path, message) ∷ []
unfolding parse_session_rejections count_outcome empty_summary
parse_session_rejections-count_outcome now seq total entry message h =
    rw
      (
        rejected_filename-error_line entry.relative_path message h,
        rejected_message-error_line entry.relative_path message h,
      )
      refl
