-- ===== src/Viewer/Sound.antt =====
-- The viewer shows the document that is open, however the loads of earlier ones end:
-- DocumentViewer.tsx.
use lesspaper_ngl.Folders.Breadcrumbs.Chain.{is_shown}
use lesspaper_ngl.Prelude.{
  All, Bool, In, List, Option, String, [], arith, false, if_holds, inl, inr, none, not, refl, some,
  suc, true, zero, ℕ, ◌+◌, ◌<◌, ◌∷◌, ◌≡◌, ◌≢◌, ◌≤◌, ◌⊎◌,
}
use lesspaper_ngl.Viewer.Loading.{
  Download, Ending, Load, Proxy, Stage, ViewerState, after_download, after_parse, is_pdf,
  resume_load, resume_older,
}
use mathlib.Core.Path.{subst}

abbrev pub AllBelow : ℕ → List ℕ → Type 0
AllBelow n [] = Unit
AllBelow n (u ∷ us) = (u < n) × AllBelow n us

-- The run that loads the open document is the one that is not cancelled; what it made is not given up.
abbrev pub IsLive : Bool → Option Load → Option ℕ → Option Proxy → ℕ → List ℕ → Type 0
IsLive has_cleanup none shown drawn n revoked =
    (has_cleanup ≡ false) × (shown ≡ none) × (drawn ≡ none)
IsLive has_cleanup (some l) shown drawn n revoked =
    (l.cancelled ≡ not has_cleanup)
    × (shown ≡ none ⊎ ((has_cleanup ≡ true) × (shown ≡ l.object_url)))
    × (has_cleanup ≡ true → (u : ℕ) → l.object_url ≡ some u → (u < n) × (In u revoked → ⊥))
    × (has_cleanup ≡ true → l.stage ≡ Stage.fetching → l.object_url ≡ none)
    × (drawn ≡ none ⊎ ((has_cleanup ≡ true) × (drawn ≡ l.proxy)))

pub record IsSound (v : ViewerState) : Type 0 where
  pub live : IsLive v.has_cleanup v.current v.fallback_url v.pdf v.next_url v.revoked
  pub stale : All (λ l. l.cancelled ≡ true) v.older
  pub below : AllBelow v.next_url v.revoked
  pub zoom_least : 50 ≤ v.zoom
  pub zoom_most : v.zoom ≤ 200

AllBelow-suc : (n : ℕ) (us : List ℕ) → AllBelow n us → AllBelow (n + 1) us
AllBelow-suc n [] h = h
AllBelow-suc n (u ∷ us) (h, hs) = (omega (arith, h), AllBelow-suc n us hs)

not-In_below : (n : ℕ) (us : List ℕ) → AllBelow n us → In n us → ⊥
not-In_below n [] h i = i
not-In_below n (u ∷ us) (h, hs) i = ground (arith, i, h, not-In_below n us hs)

-- The ending of a run that is cancelled changes nothing that is shown.
resume_load-cancelled :
    (e : Ending) (l : Load) (v : ViewerState)
    → l.cancelled ≡ true
    → let (l2, v2) = resume_load e l v in
      (l2.cancelled ≡ true)
      × (v2.has_cleanup ≡ v.has_cleanup)
      × (v2.current ≡ v.current)
      × (v2.fallback_url ≡ v.fallback_url)
      × (v2.pdf ≡ v.pdf)
      × (v2.next_url ≡ v.next_url)
      × (v2.revoked ≡ v.revoked)
      × (v2.zoom ≡ v.zoom)
unfolding resume_load after_download after_parse
resume_load-cancelled (Ending.downloaded reply) l v h = ground (arith, h)
resume_load-cancelled (Ending.parsed none) l v h = ground (arith, h)
resume_load-cancelled (Ending.parsed (some proxy)) l v h = ground (arith, h)

pub resume_older-cancelled :
    (i : ℕ) (e : Ending) (ls : List Load) (v : ViewerState)
    → All (λ l. l.cancelled ≡ true) ls
    → let (ls2, v2) = resume_older i e ls v in
      All (λ l. l.cancelled ≡ true) ls2
      × (v2.has_cleanup ≡ v.has_cleanup)
      × (v2.current ≡ v.current)
      × (v2.fallback_url ≡ v.fallback_url)
      × (v2.pdf ≡ v.pdf)
      × (v2.next_url ≡ v.next_url)
      × (v2.revoked ≡ v.revoked)
      × (v2.zoom ≡ v.zoom)
unfolding resume_older
resume_older-cancelled i e [] v h = (tt, refl, refl, refl, refl, refl, refl, refl)
resume_older-cancelled zero e (l ∷ ls) v (h, hs) = ground (arith, resume_load-cancelled e l v h, hs)
resume_older-cancelled (suc i) e (l ∷ ls) v (h, hs) =
    ground (arith, h, resume_older-cancelled i e ls v hs)

-- the parts of a sound viewer whose last run is `l`
pub record IsRun (l : Load) (v : ViewerState) : Type 0 where
  pub flag : l.cancelled ≡ not v.has_cleanup
  pub shown : v.fallback_url ≡ none ⊎ ((v.has_cleanup ≡ true) × (v.fallback_url ≡ l.object_url))
  pub kept :
      v.has_cleanup ≡ true
      → (u : ℕ) → l.object_url ≡ some u
      → (u < v.next_url) × (In u v.revoked → ⊥)
  pub early : v.has_cleanup ≡ true → l.stage ≡ Stage.fetching → l.object_url ≡ none
  pub drawn : v.pdf ≡ none ⊎ ((v.has_cleanup ≡ true) × (v.pdf ≡ l.proxy))
  pub stale : All (λ l. l.cancelled ≡ true) v.older
  pub below : AllBelow v.next_url v.revoked
  pub zoom_least : 50 ≤ v.zoom
  pub zoom_most : v.zoom ≤ 200

pub IsRun-IsSound :
    (l : Load) (v : ViewerState) → IsRun l v → IsSound (record v { current = some l })
IsRun-IsSound l v h = record {
  live = (h.flag, h.shown, h.kept, h.early, h.drawn);
  stale = h.stale;
  below = h.below;
  zoom_least = h.zoom_least;
  zoom_most = h.zoom_most;
}

-- a viewer that has just made an object URL for its last run
made_url :
    (l : Load) (v : ViewerState) (stage : Stage)
    → l.cancelled ≡ false
    → stage ≢ Stage.fetching
    → IsRun l v
    → (shown : Option ℕ) → (shown ≡ none ⊎ (shown ≡ some v.next_url))
    → (loading : Bool)
    → IsRun
        (record l { stage = stage; object_url = some v.next_url })
        (record v { next_url = v.next_url + 1; fallback_url = shown; loading = loading })
made_url l v stage live later h shown is_shown loading = record {
  flag = h.flag;
  shown = ground (arith, h.flag, live, is_shown);
  kept = λ on u e.
      let same : v.next_url ≡ u = ground (arith, e) in
      subst (λ u. (u < v.next_url + 1) × (In u v.revoked → ⊥)) same
        (omega arith, not-In_below v.next_url v.revoked h.below);
  early = λ on fetching. absurd (later fetching);
  drawn = h.drawn;
  stale = h.stale;
  below = AllBelow-suc v.next_url v.revoked h.below;
  zoom_least = h.zoom_least;
  zoom_most = h.zoom_most;
}

over-IsRun : (l : Load) (v : ViewerState) → IsRun l v → IsRun (record l { stage = Stage.over }) v
over-IsRun l v h = record {
  flag = h.flag;
  shown = h.shown;
  kept = h.kept;
  early = λ on fetching. cc;
  drawn = h.drawn;
  stale = h.stale;
  below = h.below;
  zoom_least = h.zoom_least;
  zoom_most = h.zoom_most;
}

-- a viewer with other things to show than the file
retold :
    (l : Load) (v : ViewerState) (error : Option String)
    → IsRun l v
    → IsRun l (record v { error = error; loading = false })
retold l v error h = record {
  flag = h.flag;
  shown = h.shown;
  kept = h.kept;
  early = h.early;
  drawn = h.drawn;
  stale = h.stale;
  below = h.below;
  zoom_least = h.zoom_least;
  zoom_most = h.zoom_most;
}

abbrev pub RunsOn : Load × ViewerState → Type 0
RunsOn (l, v) = IsRun l v

after_download-IsRun :
    (reply : Download) (l : Load) (v : ViewerState)
    → l.stage ≡ Stage.fetching
    → IsRun l v
    → RunsOn (after_download reply l v)
unfolding after_download
after_download-IsRun (Download.failed message) l v fetching h =
    if_holds RunsOn l.cancelled _ _ (λ gone. over-IsRun l v h)
      (λ live. retold (record l { stage = Stage.over }) v (some message) (over-IsRun l v h))
after_download-IsRun Download.file l v fetching h =
    let nothing_shown : l.cancelled ≡ false → v.fallback_url ≡ none =
      λ live. ground (arith, h.flag, h.shown, h.early, live, fetching) in
    if_holds RunsOn l.cancelled _ _ (λ gone. over-IsRun l v h)
      (λ live.
        if_holds RunsOn (is_pdf l.mime) _ _
          (λ p.
            made_url l v Stage.parsing live (λ e. cc) h v.fallback_url (inl (nothing_shown live))
              v.loading)
          (λ p. made_url l v Stage.over live (λ e. cc) h (some v.next_url) (inr refl) false))

-- a viewer that shows what its last run has made
shown-IsRun :
    (l : Load) (v : ViewerState)
    → v.has_cleanup ≡ true
    → IsRun l v
    → IsRun
        (record l { stage = Stage.over })
        (record v { fallback_url = l.object_url; loading = false })
shown-IsRun l v on h = record {
  flag = h.flag;
  shown = inr (on, refl);
  kept = h.kept;
  early = λ on fetching. cc;
  drawn = h.drawn;
  stale = h.stale;
  below = h.below;
  zoom_least = h.zoom_least;
  zoom_most = h.zoom_most;
}

-- a viewer whose last run has been given a proxy
with_proxy :
    (l : Load) (v : ViewerState) (pdf_ref pdf proxy : Option Proxy) (total : ℕ) (destroyed : List ℕ)
    → (pdf ≡ none ⊎ ((v.has_cleanup ≡ true) × (pdf ≡ proxy)))
    → IsRun l v
    → IsRun
        (record l { proxy = proxy })
        (record v { pdf_ref = pdf_ref; pdf = pdf; total_pages = total; destroyed = destroyed })
with_proxy l v pdf_ref pdf proxy total destroyed drawn h = record {
  flag = h.flag;
  shown = h.shown;
  kept = h.kept;
  early = h.early;
  drawn = drawn;
  stale = h.stale;
  below = h.below;
  zoom_least = h.zoom_least;
  zoom_most = h.zoom_most;
}

after_parse-IsRun :
    (proxy : Option Proxy) (l : Load) (v : ViewerState) → IsRun l v → RunsOn (after_parse proxy l v)
unfolding after_parse
after_parse-IsRun none l v h =
    let Ended : ViewerState → Type 0 = λ w. IsRun (record l { stage = Stage.over }) w in
    if_holds Ended l.cancelled _ _ (λ gone. over-IsRun l v h)
      (λ live. shown-IsRun l v (ground (arith, h.flag, live)) h)
after_parse-IsRun (some proxy) l v h =
    let Ended : ViewerState → Type 0 =
      λ w. IsRun (record l { stage = Stage.over; proxy = some proxy }) w in
    let ended = record l { stage = Stage.over } in
    let nothing_drawn : l.cancelled ≡ true → v.pdf ≡ none =
      λ gone. ground (arith, h.flag, h.drawn, gone) in
    if_holds Ended l.cancelled _ _
      (λ gone.
        with_proxy ended v v.pdf_ref v.pdf (some proxy) v.total_pages (proxy.handle ∷ v.destroyed)
          (inl (nothing_drawn gone)) (over-IsRun l v h))
      (λ live.
        let on : v.has_cleanup ≡ true = ground (arith, h.flag, live) in
        with_proxy ended (record v { fallback_url = l.object_url; loading = false }) (some proxy)
          (some proxy) (some proxy) proxy.num_pages v.destroyed (inr (on, refl))
          (shown-IsRun l v on h))

stage_holds :
    (P : Stage → Type 0) (s : Stage)
    → (s ≡ Stage.fetching → P Stage.fetching)
    → (s ≡ Stage.parsing → P Stage.parsing)
    → (s ≡ Stage.over → P Stage.over)
    → P s
stage_holds P Stage.fetching f p o = f refl
stage_holds P Stage.parsing f p o = p refl
stage_holds P Stage.over f p o = o refl

pub resume_load-IsRun :
    (e : Ending) (l : Load) (v : ViewerState) → IsRun l v → RunsOn (resume_load e l v)
unfolding resume_load
resume_load-IsRun (Ending.downloaded reply) l v h =
    stage_holds (λ s. RunsOn (elim s [ Stage.fetching ↦ after_download reply l v | _ ↦ (l, v) ]))
      l.stage (λ fetching. after_download-IsRun reply l v fetching h) (λ _. h) (λ _. h)
resume_load-IsRun (Ending.parsed proxy) l v h =
    stage_holds (λ s. RunsOn (elim s [ Stage.parsing ↦ after_parse proxy l v | _ ↦ (l, v) ]))
      l.stage (λ _. h) (λ _. after_parse-IsRun proxy l v h) (λ _. h)
