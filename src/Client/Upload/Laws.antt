-- ===== src/Client/Upload/Laws.antt =====
-- An upload accounts for every entry.
use lesspaper_ngl.Client.Http.{Result}
use lesspaper_ngl.Client.Upload.{
  TypeErrors, UploadBatchSummary, UploadEntry, UploadOutcome, count_outcome, empty_summary,
  error_line, is_tree_upload, upload_entries, upload_loop, upload_one,
}
use lesspaper_ngl.Prelude.{
  Bool, List, Option, String, [], arith, length, length-append, ltb, ℕ, ◌+◌, ◌||◌, ◌∷◌, ◌≡◌,
}

module _ {S : Type 0} (engine : TypeErrors) (send : S → List (String × String) → Result × S) where
  record IsAccounted (n : ℕ) (s t : UploadBatchSummary) : Type 0 where
    parts : t.created + t.duplicates + t.failed ≡ s.created + s.duplicates + s.failed + n
    errors : length t.errors + s.failed ≡ length s.errors + t.failed
    total : t.total ≡ s.total

  count_outcome-IsAccounted :
      (entry : UploadEntry) (o : UploadOutcome) (s : UploadBatchSummary)
      → IsAccounted 1 s (count_outcome entry o s)
  unfolding count_outcome
  count_outcome-IsAccounted entry UploadOutcome.created s = ground arith
  count_outcome-IsAccounted entry UploadOutcome.duplicate_found s = ground arith
  count_outcome-IsAccounted entry (UploadOutcome.failed m) s =
      ground (arith, length-append s.errors (error_line entry.relative_path m ∷ []))

  upload_loop-IsAccounted :
      (entries : List UploadEntry) (folder_id : Option String) (skip : Bool)
      (st : S × UploadBatchSummary)
      → IsAccounted (length entries) st.1 (upload_loop engine send entries folder_id skip st).1
  unfolding upload_loop
  upload_loop-IsAccounted [] folder_id skip st = ground arith
  upload_loop-IsAccounted (entry ∷ entries) folder_id skip st =
      let one = upload_one engine send entry folder_id skip st.0 in
      ground (
        arith,
        count_outcome-IsAccounted entry one.0 st.1,
        upload_loop-IsAccounted entries folder_id skip (one.1, count_outcome entry one.0 st.1),
      )

  -- Whatever the server answers, each entry is counted once: as created, as a duplicate or as failed;
  -- the total is the number of entries, and there is one message for each failure.
  pub upload_entries-accounted :
      (entries : List UploadEntry) (folder_id : Option String) (s : S)
      → let summary = (upload_entries engine send entries folder_id s).1 in
        (summary.created + summary.duplicates + summary.failed ≡ length entries)
        × (length summary.errors ≡ summary.failed)
        × (summary.total ≡ length entries)
  unfolding upload_entries empty_summary
  upload_entries-accounted entries folder_id s =
      let skip = is_tree_upload entries || ltb 1 (length entries) in
      let done =
        upload_loop-IsAccounted entries folder_id skip (s, empty_summary (length entries)) in
      (omega (arith, done.parts), omega (arith, done.errors), done.total)
