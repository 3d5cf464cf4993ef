-- ===== src/Viewer/Examples.antt =====
-- The theorem on the viewer, at a concrete run: a second document is opened before the first is there.
use lesspaper_ngl.Prelude.{List, [], arith, false, none, refl, some, ◌∷◌, ◌≡◌}
use lesspaper_ngl.Prelude.Texts.{begins_with}
use lesspaper_ngl.Viewer.Loading.{
  Download, Ending, ViewerEvent, ViewerState, after_download, after_parse, cleanup, destroy_pdf,
  is_pdf, is_supported, load_document, on_viewer_event, on_viewer_events, resume_load, resume_older,
  run_cleanup, start_load,
}
use lesspaper_ngl.Viewer.Open.{on_viewer_events-IsSound}
use lesspaper_ngl.Viewer.Sound.{IsSound}

abbrev empty_viewer : ViewerState
empty_viewer = record {
  page = 1;
  total_pages = 1;
  zoom = 100;
  loading = false;
  error = none;
  pdf = none;
  fallback_url = none;
  pdf_ref = none;
  has_cleanup = false;
  current = none;
  older = [];
  next_url = 0;
  revoked = [];
  destroyed = [];
}

abbrev two_documents : List ViewerEvent
two_documents =
    ViewerEvent.opened (some "d1") (some "application/pdf")
    ∷ ViewerEvent.current_ended (Ending.downloaded Download.file)
    ∷ ViewerEvent.opened (some "d2") (some "image/png")
    ∷ ViewerEvent.older_ended 0 (Ending.parsed (some (record { handle = 0; num_pages = 3 })))
    ∷ ViewerEvent.current_ended (Ending.downloaded Download.file)
    ∷ []

on_viewer_events-IsSound_example : IsSound (on_viewer_events two_documents empty_viewer)
on_viewer_events-IsSound_example = on_viewer_events-IsSound two_documents empty_viewer (record {
  live = (refl, refl, refl);
  stale = tt;
  below = tt;
  zoom_least = omega arith;
  zoom_most = omega arith;
})

-- a run of the code: the second file is shown, and the first is given up
two_documents_run :
    let v = on_viewer_events two_documents empty_viewer in
    (v.fallback_url ≡ some 1) × (v.revoked ≡ 0 ∷ []) × (v.destroyed ≡ 0 ∷ []) × (v.pdf ≡ none)
unfolding on_viewer_events on_viewer_event load_document resume_load resume_older run_cleanup
    cleanup destroy_pdf start_load is_supported is_pdf begins_with after_download after_parse
two_documents_run = (refl, refl, refl, refl)
