-- ===== src/Viewer/Loading.antt =====
-- Loading a document into the viewer: DocumentViewer.tsx. Each run of the effect that loads has a
-- `cancelled` of its own, and its `await`s may end after later runs have begun. An object URL and a
-- proxy of pdf.js are known by the numbers in which they are made. The task that draws a page, and the
-- page that the caller of the component gives and hears of, are left out.
use lesspaper_ngl.Documents.LibraryState.RoundTrip.{url}
use lesspaper_ngl.Prelude.{
  Bool, List, Option, String, [], false, if◌then◌else◌, max, min, nat_eq, none, not, option_eq,
  or_default, some, suc, text_eq, true, truthy, zero, ℕ, ◌+◌, ◌-◌, ◌==◌, ◌||◌, ◌∷◌,
}
use lesspaper_ngl.Prelude.Texts.{begins_with}

pub data Stage : Type 0 where
  fetching parsing over : Stage

pub record Proxy : Type 0 where
  pub handle : ℕ
  pub num_pages : ℕ

-- what a run of the effect holds
pub record Load : Type 0 where
  pub doc_id : String
  pub mime : String
  pub cancelled : Bool
  pub stage : Stage
  pub object_url : Option ℕ
  pub proxy : Option Proxy

-- The state and the refs of the component; `has_cleanup` says that the last run of the effect returned
-- its cleanup. Then the last run that fetched, the ones before it, and what the browser has made and
-- given up.
pub record ViewerState : Type 0 where
  pub page : ℕ
  pub total_pages : ℕ
  pub zoom : ℕ
  pub loading : Bool
  pub error : Option String
  pub pdf : Option Proxy
  pub fallback_url : Option ℕ
  pub pdf_ref : Option Proxy
  pub has_cleanup : Bool
  pub current : Option Load
  pub older : List Load
  pub next_url : ℕ
  pub revoked : List ℕ
  pub destroyed : List ℕ

-- `void pdfRef.current.destroy(); pdfRef.current = null`
unfoldable pub destroy_pdf : ViewerState → ViewerState
destroy_pdf v = elim v.pdf_ref [
  | none ↦ v
  | some proxy ↦ record v { pdf_ref = none; destroyed = proxy.handle ∷ v.destroyed }
]

abbrev pub revoke : Option ℕ → List ℕ → List ℕ
revoke none revoked = revoked
revoke (some url) revoked = url ∷ revoked

-- the cleanup of a run
unfoldable pub cleanup : Load → ViewerState → ViewerState
unfolding destroy_pdf
cleanup l v = record (destroy_pdf v) {
  current = some (record l { cancelled = true });
  revoked = revoke l.object_url v.revoked;
}

unfoldable pub run_cleanup : ViewerState → ViewerState
unfolding cleanup
run_cleanup v = elim v.current [ none ↦ v | some l ↦ if v.has_cleanup then cleanup l v else v ]

unfoldable pub is_pdf : String → Bool
is_pdf mime = mime == "application/pdf"

unfoldable pub is_supported : String → Bool
unfolding is_pdf
is_supported mime =
    is_pdf mime
    || (begins_with mime "image/"
        || (begins_with mime "text/" || (mime == "application/json" || mime == "text/markdown")))

abbrev pub older_loads : Option Load → List Load → List Load
older_loads none older = older
older_loads (some l) older = l ∷ older

unfoldable pub start_load : String → String → ViewerState → ViewerState
start_load doc_id mime v = record v {
  loading = true;
  has_cleanup = true;
  current = some (record {
    doc_id = doc_id;
    mime = mime;
    cancelled = false;
    stage = Stage.fetching;
    object_url = none;
    proxy = none;
  });
  older = older_loads v.current v.older;
}

-- the effect on the document's id and type, after the cleanup of the run before it
unfoldable pub load_document : Option String → Option String → ViewerState → ViewerState
unfolding run_cleanup destroy_pdf start_load is_supported
load_document doc_id mime v =
    let cleared = record (destroy_pdf (run_cleanup v)) {
      pdf = none;
      fallback_url = none;
      error = none;
      total_pages = 1;
      page = 1;
      has_cleanup = false;
    } in
    if not (truthy doc_id) || not (truthy mime)
    then cleared
    else if not (is_supported (or_default mime ""))
    then record cleared { loading = false }
    else start_load (or_default doc_id "") (or_default mime "") cleared

-- what the download comes to: the file, or the message of the error
pub data Download : Type 0 where
  file : Download
  failed : String → Download

-- what follows the download
unfoldable pub after_download : Download → Load → ViewerState → Load × ViewerState
unfolding is_pdf
after_download reply l v =
    let ended = record l { stage = Stage.over } in
    if l.cancelled then (ended, v) else elim reply [
      | Download.failed message ↦ (ended, record v { error = some message; loading = false })
      | Download.file ↦
          let made = record v { next_url = v.next_url + 1 } in
          if is_pdf l.mime
          then (record l { stage = Stage.parsing; object_url = some v.next_url }, made)
          else (
            record ended { object_url = some v.next_url },
            record made { fallback_url = some v.next_url; loading = false },
          )
    ]

-- what follows the reading by pdf.js, which gives a proxy or fails
unfoldable pub after_parse : Option Proxy → Load → ViewerState → Load × ViewerState
after_parse none l v = (
  record l { stage = Stage.over },
  (if l.cancelled then v else record v { fallback_url = l.object_url; loading = false }),
)
after_parse (some proxy) l v = (
  record l { stage = Stage.over; proxy = some proxy },
  (if l.cancelled then record v { destroyed = proxy.handle ∷ v.destroyed } else record v {
    pdf_ref = some proxy;
    pdf = some proxy;
    total_pages = proxy.num_pages;
    fallback_url = l.object_url;
    loading = false;
  }),
)

-- an `await` of a run that ends
pub data Ending : Type 0 where
  downloaded : Download → Ending
  parsed : Option Proxy → Ending

unfoldable pub resume_load : Ending → Load → ViewerState → Load × ViewerState
unfolding after_download after_parse
resume_load (Ending.downloaded reply) l v = elim l.stage [
  | Stage.fetching ↦ after_download reply l v
  | _ ↦ (l, v)
]
resume_load (Ending.parsed proxy) l v = elim l.stage [
  | Stage.parsing ↦ after_parse proxy l v
  | _ ↦ (l, v)
]

-- the ending of the `i`-th older run
unfoldable pub resume_older : ℕ → Ending → List Load → ViewerState → List Load × ViewerState
unfolding resume_load
resume_older i e [] v = ([], v)
resume_older zero e (l ∷ ls) v = let (l2, v2) = resume_load e l v in (l2 ∷ ls, v2)
resume_older (suc i) e (l ∷ ls) v = let (ls2, v2) = resume_older i e ls v in (l ∷ ls2, v2)

unfoldable pub go_to_page : ℕ → ViewerState → ViewerState
go_to_page p v = record v { page = max 1 (min v.total_pages p) }

unfoldable pub zoom_out : ViewerState → ViewerState
zoom_out v = record v { zoom = max 50 (v.zoom - 10) }

unfoldable pub zoom_in : ViewerState → ViewerState
zoom_in v = record v { zoom = min 200 (v.zoom + 10) }

pub data ViewerEvent : Type 0 where
  opened : Option String → Option String → ViewerEvent
  current_ended : Ending → ViewerEvent
  older_ended : ℕ → Ending → ViewerEvent
  paged : ℕ → ViewerEvent
  zoomed_out : ViewerEvent
  zoomed_in : ViewerEvent

unfoldable pub on_viewer_event : ViewerEvent → ViewerState → ViewerState
unfolding load_document resume_load resume_older go_to_page zoom_out zoom_in
on_viewer_event (ViewerEvent.opened doc_id mime) v = load_document doc_id mime v
on_viewer_event (ViewerEvent.current_ended e) v = elim v.current [
  | none ↦ v
  | some l ↦ let (l2, v2) = resume_load e l v in record v2 { current = some l2 }
]
on_viewer_event (ViewerEvent.older_ended i e) v =
    let (ls, v2) = resume_older i e v.older v in record v2 { older = ls }
on_viewer_event (ViewerEvent.paged p) v = go_to_page p v
on_viewer_event ViewerEvent.zoomed_out v = zoom_out v
on_viewer_event ViewerEvent.zoomed_in v = zoom_in v

unfoldable pub on_viewer_events : List ViewerEvent → ViewerState → ViewerState
on_viewer_events [] v = v
on_viewer_events (e ∷ events) v = on_viewer_events events (on_viewer_event e v)
