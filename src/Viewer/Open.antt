-- ===== src/Viewer/Open.antt =====
-- Opening a document in the viewer keeps it sound, and so does everything else: DocumentViewer.tsx.
use lesspaper_ngl.Documents.LibraryState.RoundTrip.{kept}
use lesspaper_ngl.Prelude.{
  All, Bool, List, Option, Option-cases, String, [], arith, false, if_holds, if◌then◌else◌, inl,
  inr, none, not, or_default, refl, some, sym, true, truthy, ℕ, ◌<◌, ◌||◌, ◌∷◌, ◌≡◌, ◌≤◌,
}
use lesspaper_ngl.Viewer.Loading.{
  Ending, Load, ViewerEvent, ViewerState, cleanup, destroy_pdf, go_to_page, is_supported,
  load_document, older_loads, on_viewer_event, on_viewer_events, resume_load, resume_older, revoke,
  run_cleanup, start_load, zoom_in, zoom_out,
}
use lesspaper_ngl.Viewer.Sound.{
  AllBelow, IsLive, IsRun, IsRun-IsSound, IsSound, resume_load-IsRun, resume_older-cancelled,
}
use mathlib.Core.Path.{subst}

destroy_pdf-keeps :
    (v : ViewerState)
    → let w = destroy_pdf v in
      (w.current ≡ v.current)
      × (w.older ≡ v.older)
      × (w.next_url ≡ v.next_url)
      × (w.revoked ≡ v.revoked)
      × (w.zoom ≡ v.zoom)
unfolding destroy_pdf
destroy_pdf-keeps v = elim (Option-cases v.pdf_ref) [
  | inl e ↦ rw (e, destroy_pdf) (refl, refl, refl, refl, refl)
  | inr (proxy, e) ↦ rw (e, destroy_pdf) (refl, refl, refl, refl, refl)
]

-- every run is cancelled, and every object URL that was given up was made
record IsOver (v : ViewerState) : Type 0 where
  gone : All (λ l. l.cancelled ≡ true) (older_loads v.current v.older)
  below : AllBelow v.next_url v.revoked
  zoom_least : 50 ≤ v.zoom
  zoom_most : v.zoom ≤ 200

revoke-below :
    (n : ℕ) (url : Option ℕ) (revoked : List ℕ)
    → ((u : ℕ) → url ≡ some u → u < n)
    → AllBelow n revoked
    → AllBelow n (revoke url revoked)
revoke-below n none revoked h below = below
revoke-below n (some u) revoked h below = (h u refl, below)

IsOver-with :
    (v w : ViewerState)
    → (w.current ≡ v.current)
      × (w.older ≡ v.older)
      × (w.next_url ≡ v.next_url)
      × (w.revoked ≡ v.revoked)
      × (w.zoom ≡ v.zoom)
    → IsOver v
    → IsOver w
IsOver-with v w (c, o, n, r, z) h = record {
  gone = rw (c, o) h.gone;
  below = rw (n, r) h.below;
  zoom_least = rw z h.zoom_least;
  zoom_most = rw z h.zoom_most;
}

run_cleanup-IsOver :
    (current : Option Load) (v : ViewerState)
    → v.current ≡ current
    → IsLive v.has_cleanup current v.fallback_url v.pdf v.next_url v.revoked
    → IsSound v
    → IsOver (run_cleanup v)
unfolding run_cleanup cleanup
run_cleanup-IsOver none v e live h =
    subst (λ o. IsOver (elim o [ none ↦ v | some l ↦ if v.has_cleanup then cleanup l v else v ]))
      (sym e)
      (record {
        gone = rw e h.stale;
        below = h.below;
        zoom_least = h.zoom_least;
        zoom_most = h.zoom_most;
      })
run_cleanup-IsOver (some l) v e (flag, shown, kept, early, drawn) h =
    let (c, o, n, r, z) = destroy_pdf-keeps v in
    subst (λ o. IsOver (elim o [ none ↦ v | some l ↦ if v.has_cleanup then cleanup l v else v ]))
      (sym e)
      (if_holds IsOver v.has_cleanup (cleanup l v) v
        (λ on. record {
          gone = (refl, rw o h.stale);
          below = rw n (
              revoke-below v.next_url l.object_url v.revoked (λ u is_url. (kept on u is_url).0)
                h.below);
          zoom_least = rw z h.zoom_least;
          zoom_most = rw z h.zoom_most;
        })
        (λ off. record {
          gone = rw e (ground (arith, flag, off), h.stale);
          below = h.below;
          zoom_least = h.zoom_least;
          zoom_most = h.zoom_most;
        }))

idle-IsLive :
    (current : Option Load) (older : List Load) (n : ℕ) (revoked : List ℕ)
    → All (λ l. l.cancelled ≡ true) (older_loads current older)
    → IsLive false current none none n revoked × All (λ l. l.cancelled ≡ true) older
idle-IsLive none older n revoked gone = ((refl, refl, refl), gone)
idle-IsLive (some l) older n revoked (h, hs) = ((h, inl refl, λ on. cc, λ on. cc, inl refl), hs)

abbrev cleared : ViewerState → Bool → ViewerState
cleared w loading = record w {
  pdf = none;
  fallback_url = none;
  error = none;
  total_pages = 1;
  page = 1;
  has_cleanup = false;
  loading = loading;
}

cleared-IsSound : (w : ViewerState) (loading : Bool) → IsOver w → IsSound (cleared w loading)
cleared-IsSound w loading h =
    let (live, stale) = idle-IsLive w.current w.older w.next_url w.revoked h.gone in
    record {
      live = live;
      stale = stale;
      below = h.below;
      zoom_least = h.zoom_least;
      zoom_most = h.zoom_most;
    }

started-IsSound :
    (doc_id mime : String) (w : ViewerState) (loading : Bool)
    → IsOver w
    → IsSound (start_load doc_id mime (cleared w loading))
unfolding start_load
started-IsSound doc_id mime w loading h = record {
  live = (refl, inl refl, λ on u e. cc, λ on fetching. refl, inl refl);
  stale = h.gone;
  below = h.below;
  zoom_least = h.zoom_least;
  zoom_most = h.zoom_most;
}

load_document-IsSound :
    (doc_id mime : Option String) (v : ViewerState)
    → IsSound v
    → IsSound (load_document doc_id mime v)
unfolding load_document
load_document-IsSound doc_id mime v h =
    let ended = run_cleanup-IsOver v.current v refl h.live h in
    let w = destroy_pdf (run_cleanup v) in
    let over = IsOver-with (run_cleanup v) w (destroy_pdf-keeps (run_cleanup v)) ended in
    if_holds IsSound (not (truthy doc_id) || not (truthy mime)) _ _
      (λ _. cleared-IsSound w w.loading over)
      (λ _.
        if_holds IsSound (not (is_supported (or_default mime ""))) _ _
          (λ _. cleared-IsSound w false over)
          (λ _. started-IsSound (or_default doc_id "") (or_default mime "") w w.loading over))

sound-IsRun : (l : Load) (v : ViewerState) → v.current ≡ some l → IsSound v → IsRun l v
sound-IsRun l v e h =
    let live : IsLive v.has_cleanup (some l) v.fallback_url v.pdf v.next_url v.revoked =
      subst (λ o. IsLive v.has_cleanup o v.fallback_url v.pdf v.next_url v.revoked) e h.live in
    let (flag, shown, kept, early, drawn) = live in
    record {
      flag = flag;
      shown = shown;
      kept = kept;
      early = early;
      drawn = drawn;
      stale = h.stale;
      below = h.below;
      zoom_least = h.zoom_least;
      zoom_most = h.zoom_most;
    }

current_ended-IsSound :
    (e : Ending) (current : Option Load) (v : ViewerState)
    → v.current ≡ current
    → IsSound v
    → IsSound (elim current [
      | none ↦ v
      | some l ↦ let (l2, v2) = resume_load e l v in record v2 { current = some l2 }
    ])
current_ended-IsSound e none v is h = h
current_ended-IsSound e (some l) v is h =
    let (l2, v2) = resume_load e l v in
    IsRun-IsSound l2 v2 (resume_load-IsRun e l v (sound-IsRun l v is h))

older_ended-IsSound :
    (i : ℕ) (e : Ending) (v : ViewerState)
    → IsSound v
    → let (ls, v2) = resume_older i e v.older v in IsSound (record v2 { older = ls })
older_ended-IsSound i e v h =
    let (stale, on, c, f, d, n, r, z) = resume_older-cancelled i e v.older v h.stale in
    record {
      live = rw (on, c, f, d, n, r) h.live;
      stale = stale;
      below = rw (n, r) h.below;
      zoom_least = rw z h.zoom_least;
      zoom_most = rw z h.zoom_most;
    }

on_viewer_event-IsSound :
    (e : ViewerEvent) (v : ViewerState) → IsSound v → IsSound (on_viewer_event e v)
unfolding on_viewer_event go_to_page zoom_out zoom_in
on_viewer_event-IsSound (ViewerEvent.opened doc_id mime) v h = load_document-IsSound doc_id mime v h
on_viewer_event-IsSound (ViewerEvent.current_ended e) v h =
    current_ended-IsSound e v.current v refl h
on_viewer_event-IsSound (ViewerEvent.older_ended i e) v h = older_ended-IsSound i e v h
on_viewer_event-IsSound (ViewerEvent.paged p) v h = record {
  live = h.live;
  stale = h.stale;
  below = h.below;
  zoom_least = h.zoom_least;
  zoom_most = h.zoom_most;
}
on_viewer_event-IsSound ViewerEvent.zoomed_out v h = record {
  live = h.live;
  stale = h.stale;
  below = h.below;
  zoom_least = omega arith;
  zoom_most = omega (arith, h.zoom_most);
}
on_viewer_event-IsSound ViewerEvent.zoomed_in v h = record {
  live = h.live;
  stale = h.stale;
  below = h.below;
  zoom_least = omega (arith, h.zoom_least);
  zoom_most = omega arith;
}

-- However the loads of earlier documents end, and in whatever order: the file that the viewer shows is
-- the one that the load of the open document has made, and it has not been given up; the PDF whose pages
-- it draws is the one that this load has read; every load but that one is cancelled, and the zoom stays
-- between 50 and 200 percent. This holds of a viewer for which it held before.
pub on_viewer_events-IsSound :
    (events : List ViewerEvent) (v : ViewerState) → IsSound v → IsSound (on_viewer_events events v)
unfolding on_viewer_events
on_viewer_events-IsSound [] v h = h
on_viewer_events-IsSound (e ∷ events) v h =
    on_viewer_events-IsSound events (on_viewer_event e v) (on_viewer_event-IsSound e v h)
