-- ===== src/Inbox/WorkView/Laws.antt =====
-- What the handlers of the work view keep: counts, targets, the selection and the expanded rows.
use lesspaper_ngl.Prelude.Sets
use lesspaper_ngl.Inbox.Filing.{
  can_retry_suggestions, is_doc_settled, is_processable, visible_selected_docs,
}
use lesspaper_ngl.Inbox.WorkView.{
  StatusCounts, WorkState, all_visible_selected, confirm_remove, count_inbox_status, count_items,
  delete_each, previewed_removed, process_targets, retry_loop, retry_suggestion_targets,
  toggle_expand, toggle_select_all_visible, work_counts,
}
use lesspaper_ngl.Prelude.{
  Bool, In, In-filter, List, Option, String, [], any, arith, eq_iff, eq_refl, false, filter, find,
  if◌then◌else◌, is_some, length, length-filter-le, ltb, map, nat_eq, none, nonempty, not,
  option_eq, or_default, refl, some, text_eq, true, ℕ, ◌&&◌, ◌+◌, ◌-◌, ◌==◌, ◌↔◌, ◌∷◌, ◌≡◌,
}
use lesspaper_ngl.Types.Document.{Document, InboxStatus, inbox_status_eq}

record IsCounted (items : List Document) (c e : StatusCounts) : Type 0 where
  parts :
      e.preparing
        + e.ready
        + e.needs_review
        + e.failed
        + length (filter (λ d. not (is_some d.inbox_status)) items)
      ≡ c.preparing + c.ready + c.needs_review + c.failed + length items
  all : e.all ≡ c.all
  failed :
      e.failed ≡ c.failed + length (filter (λ d. d.inbox_status == some InboxStatus.failed) items)

count_inbox_status-IsCounted :
    (d : Document) (c : StatusCounts) → IsCounted (d ∷ []) c (count_inbox_status d.inbox_status c)
unfolding count_inbox_status
count_inbox_status-IsCounted d c = ground arith

count_items-IsCounted :
    (items : List Document) (c : StatusCounts) → IsCounted items c (count_items items c)
unfolding count_items
count_items-IsCounted [] c = ground arith
count_items-IsCounted (d ∷ items) c = ground (
  arith,
  count_items-IsCounted items (count_inbox_status d.inbox_status c),
  count_inbox_status-IsCounted d c,
)

-- The tabs count every document once: those of the four statuses and the documents without a status
-- add up to `all`, in which, as among the failed, the rejections of the session are counted too.
work_counts-parts :
    (items : List Document) (rejections : ℕ)
    → let c = work_counts items rejections in
      (c.preparing
          + c.ready
          + c.needs_review
          + c.failed
          + length (filter (λ d. not (is_some d.inbox_status)) items)
        ≡ c.all)
      × (c.all ≡ length items + rejections)
      × (c.failed
          ≡ length (filter (λ d. d.inbox_status == some InboxStatus.failed) items) + rejections)
unfolding work_counts
work_counts-parts items rejections =
    let start : StatusCounts = record {
      all = length items;
      preparing = 0;
      ready = 0;
      needs_review = 0;
      failed = 0;
    } in
    let c = count_items-IsCounted items start in
    (omega (arith, c.parts, c.all), omega (arith, c.all), omega (arith, c.failed))

any-filter : (p : Document → Bool) (ds : List Document) → ltb 0 (length (filter p ds)) ≡ any p ds
any-filter p [] = refl
any-filter p (d ∷ ds) = ground (arith, any-filter p ds)

-- Filing sends exactly the processable documents among the visible selected ones, if there are
-- such, and else exactly those among all that are shown.
pub process_targets_iff :
    (documents : List Document) (selected_ids : List String) (d : Document)
    → In d (process_targets documents selected_ids) ↔ (
        In d documents
        × (is_processable d ≡ true)
        × ((any (λ e. Sets.has selected_ids e.id) documents ≡ true)
            → (Sets.has selected_ids d.id ≡ true)))
unfolding process_targets visible_selected_docs
process_targets_iff documents selected_ids d =
    let chosen : Document → Bool = λ e. Sets.has selected_ids e.id in
    ground (
      arith,
      any-filter chosen documents,
      In-filter chosen d documents,
      In-filter is_processable d (filter chosen documents),
      In-filter is_processable d documents,
    )

has-delete_each :
    (ids rest : List String) (j : String)
    → Sets.has (delete_each ids rest) j ≡ (Sets.has ids j && not (Sets.has rest j))
unfolding delete_each Sets.has
has-delete_each ids [] j = ground arith
has-delete_each ids (id ∷ rest) j =
    ground (arith, has-delete_each (Sets.delete ids id) rest j, Sets.has-delete ids id j)

kept_preview :
    (o : Option String) (ids : List String) (j : String)
    → nonempty j ≡ true
    → (if previewed_removed o ids then none else o) ≡ some j
    → Sets.has ids j ≡ false
kept_preview none ids j named h = ground arith
kept_preview (some i) ids j named h = ground arith

module _ {Server : Type 0} where
  -- Once the server has removed the documents, exactly they are gone from the selection, the preview
  -- shows none of them and the dialog is closed; if the server fails, the view is as it was.
  pub confirm_remove-selection :
      (remove : Server → List String → Bool × Server) (server : Server) (s : WorkState)
      (id : String) (ids : List String)
      → s.remove_ids ≡ some (id ∷ ids)
      → ((remove server (id ∷ ids)).0 ≡ true
          → ((j : String)
              → Sets.has (confirm_remove remove (server, s)).1.selected_ids j
                ≡ (Sets.has s.selected_ids j && not (Sets.has (id ∷ ids) j)))
            × ((j : String)
                → nonempty j ≡ true
                → (confirm_remove remove (server, s)).1.preview_id ≡ some j
                → Sets.has (id ∷ ids) j ≡ false)
            × ((confirm_remove remove (server, s)).1.remove_ids ≡ none))
        × ((remove server (id ∷ ids)).0 ≡ false → (confirm_remove remove (server, s)).1 ≡ s)
  unfolding confirm_remove
  confirm_remove-selection remove server s id ids h = (
    λ ok. rw h (
        rw ok
          (has-delete_each s.selected_ids (id ∷ ids), kept_preview s.preview_id (id ∷ ids), refl)),
    λ failed. rw h (rw failed refl),
  )

  retry_loop-counts :
      (reprocess : Server → String → Bool × Server) (docs : List Document) (st : Server × ℕ × ℕ)
      → (retry_loop reprocess docs st).1 + (retry_loop reprocess docs st).2
        ≡ st.1 + st.2 + length docs
  unfolding retry_loop
  retry_loop-counts reprocess [] st = omega arith
  retry_loop-counts reprocess (doc ∷ docs) (server, retried, failed) =
      let server2 = (reprocess server doc.id).1 in
      ground (
        arith,
        retry_loop-counts reprocess docs (server2, retried + 1, failed),
        retry_loop-counts reprocess docs (server2, retried, failed + 1),
      )

  -- In the report of a batch of retries, the documents that were retried, skipped and failed add up
  -- to the visible selected ones.
  retry_loop-selected :
      (reprocess : Server → String → Bool × Server) (documents : List Document)
      (selected_ids : List String) (server : Server)
      → let selected = visible_selected_docs documents selected_ids in
        let targets = retry_suggestion_targets documents selected_ids in
        let (_, retried, failed) = retry_loop reprocess targets (server, 0, 0) in
        retried + (length selected - length targets) + failed ≡ length selected
  unfolding retry_suggestion_targets
  retry_loop-selected reprocess documents selected_ids server =
      let selected = visible_selected_docs documents selected_ids in
      omega (
        arith,
        length-filter-le can_retry_suggestions selected,
        retry_loop-counts reprocess (filter can_retry_suggestions selected) (server, 0, 0),
      )

-- Toggling an expanded row flips whether it is expanded, for a settled document that is shown, leaves
-- the other rows alone, and does nothing for a document that is not settled.
toggle_expand-flips :
    (documents : List Document) (id : String) (doc : Document) (s : WorkState) (j : String)
    → find (λ d. d.id == id) documents ≡ some doc
    → let before = Sets.has (or_default s.expanded_ids []) j in
      let later = Sets.has (or_default (toggle_expand documents id s).expanded_ids []) j in
      later ≡ (if is_doc_settled doc && j == id then not before else before)
unfolding toggle_expand
toggle_expand-flips documents id doc s j h =
    rw (h, or_default)
      (ground (
        arith,
        Sets.has-add (or_default s.expanded_ids []) id j,
        Sets.has-delete (or_default s.expanded_ids []) id j,
        eq_iff id j,
        eq_iff j id,
      ))

has-ids :
    (documents : List Document) (d : Document)
    → In d documents
    → Sets.has (map (λ e. e.id) documents) d.id ≡ true
unfolding Sets.has
has-ids [] d h = absurd h
has-ids (e ∷ documents) d h = ground (arith, has-ids documents d, eq_refl d.id)

none_selected : (j : String) → Sets.has [] j ≡ false
unfolding Sets.has
none_selected j = refl

-- After `select all` is clicked, all the documents shown are selected if they were not all selected,
-- and none is if they were.
toggle_select_all_visible-flips :
    (documents : List Document) (s : WorkState) (d : Document)
    → In d documents
    → Sets.has (toggle_select_all_visible documents s).selected_ids d.id
      ≡ not (all_visible_selected documents s.selected_ids)
unfolding toggle_select_all_visible
toggle_select_all_visible-flips documents s d h = ground (
  arith,
  Sets.has-add_all [] (map (λ e. e.id) documents) d.id,
  has-ids documents d h,
  none_selected d.id,
)
