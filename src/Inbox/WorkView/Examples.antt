-- ===== src/Inbox/WorkView/Examples.antt =====
-- The theorems of the work view at concrete documents.
use lesspaper_ngl.Prelude.Sets
use lesspaper_ngl.Inbox.Filing.{is_processable}
use lesspaper_ngl.Inbox.WorkView.{WorkState, confirm_remove, process_targets}
use lesspaper_ngl.Inbox.WorkView.Handlers.{
  ProcessReply, ProcessResult, handle_process, handle_process-effect, stayed,
}
use lesspaper_ngl.Inbox.WorkView.Laws.{confirm_remove-selection, process_targets_iff}
use lesspaper_ngl.Prelude.{
  Bool, In, List, Option, String, [], any, false, if◌then◌else◌, is_some, length, ltb, map, none,
  nonempty, not, refl, some, true, ℕ, ◌&&◌, ◌+◌, ◌↔◌, ◌∷◌, ◌≡◌, ◌≢◌,
}
use lesspaper_ngl.Types.Document.{Document, InboxStatus}
use lesspaper_ngl.Types.Samples.{sample_batch, sample_document}

process_targets_iff_example :
    let d = sample_document "b" in
    In d (process_targets (d ∷ sample_batch) ("b" ∷ [])) ↔ (
      In d (d ∷ sample_batch)
      × (is_processable d ≡ true)
      × ((any (λ e. Sets.has ("b" ∷ []) e.id) (d ∷ sample_batch) ≡ true)
          → (Sets.has ("b" ∷ []) d.id ≡ true)))
process_targets_iff_example =
    process_targets_iff (sample_document "b" ∷ sample_batch) ("b" ∷ []) (sample_document "b")

abbrev removing : WorkState
removing = record {
  selected_ids = "a" ∷ "b" ∷ "c" ∷ [];
  expanded_ids = none;
  preview_id = some "a";
  remove_ids = some ("a" ∷ "c" ∷ []);
  result_msg = none;
}

abbrev removes : ℕ → List String → Bool × ℕ
removes calls ids = (true, calls + 1)

confirm_remove-selection_example :
    ((removes 0 ("a" ∷ "c" ∷ [])).0 ≡ true
      → ((j : String)
          → Sets.has (confirm_remove removes (0, removing)).1.selected_ids j
            ≡ (Sets.has removing.selected_ids j && not (Sets.has ("a" ∷ "c" ∷ []) j)))
        × ((j : String)
            → nonempty j ≡ true
            → (confirm_remove removes (0, removing)).1.preview_id ≡ some j
            → Sets.has ("a" ∷ "c" ∷ []) j ≡ false)
        × ((confirm_remove removes (0, removing)).1.remove_ids ≡ none))
    × ((removes 0 ("a" ∷ "c" ∷ [])).0 ≡ false → (confirm_remove removes (0, removing)).1 ≡ removing)
confirm_remove-selection_example = confirm_remove-selection removes 0 removing "a" ("c" ∷ []) refl

abbrev ready_batch : List Document
ready_batch = record (sample_document "b") { inbox_status = some InboxStatus.ready } ∷ sample_batch

-- The server processes all that it is given.
abbrev processes : ℕ → List String → ProcessReply × ℕ
processes calls ids =
    (ProcessReply.replied (record { processed = ids; skipped = 0; failed = 0 }), calls + 1)

handle_process-effect_example :
    let targets = process_targets ready_batch removing.selected_ids in
    let asked = processes 0 (map (λ d. d.id) targets) in
    let effect = handle_process processes ready_batch (0, removing) in
    (targets ≡ [] → effect ≡ (0, stayed removing))
    × ((r : ProcessResult)
        → targets ≢ []
        → asked.0 ≡ ProcessReply.replied r
        → (effect.0 ≡ asked.1)
          × (effect.1.view.selected_ids ≡ [])
          × (effect.1.navigated ≡ (if ltb 0 (length r.processed) then some r.processed else none))
          × (effect.1.cleared_rejections ≡ is_some effect.1.navigated))
    × ((message : Option String)
        → targets ≢ []
        → asked.0 ≡ ProcessReply.thrown message
        → (effect.0 ≡ asked.1)
          × (effect.1.view.selected_ids ≡ removing.selected_ids)
          × (effect.1.navigated ≡ none)
          × (effect.1.cleared_rejections ≡ false)
          × (is_some effect.1.view.result_msg ≡ true))
handle_process-effect_example = handle_process-effect processes ready_batch 0 removing
