-- ===== src/Ask/Panel/Refine.antt =====
-- The panel implements the queue of questions, and the queue is drained.
use lesspaper_ngl.Ask.Panel.{
  PanelState, Platform, Run, Stamp, abort, begin_ask, stop_ask, submit, submitted,
}
use lesspaper_ngl.Ask.Panel.Fifo.{
  All-snoc, Done, IsAttentive, RunsMatch, Turn, done_event, done_outcome, done_stamp, fifo_turn,
  fifo_turns, on_turns, pop, push, question_of, turn_events, view,
}
use lesspaper_ngl.Ask.Panel.Finish.{
  add_answer, drain, finish_ask, on_event, on_events, release, remove_temp, restore_draft, resume,
  settle, should_drain, take_run,
}
use lesspaper_ngl.Prelude.{
  All, Bool, Bool-cases, List, List-cases, Option, String, [], ap, arith, false, if◌then◌else◌, inl,
  inr, length, map, none, nonempty, refl, some, suc, true, ◌++◌, ◌∙◌, ◌∷◌, ◌≡◌,
}
use mathlib.Core.List.{append-nil, append_assoc}
use mathlib.Core.Path.{subst}

pub map-append :
    (xs : List (String × Bool)) (q : String) (c : Bool)
    → map question_of (xs ++ ((q, c) ∷ [])) ≡ map question_of xs ++ (q ∷ [])
map-append [] q c = refl
map-append (x ∷ xs) q c = ap (λ r. question_of x ∷ r) (map-append xs q c)

none-suspended : (b : Bool) (rs : List Run) → RunsMatch b rs → b ≡ false → rs ≡ []
none-suspended false [] h e = refl
none-suspended false (r ∷ rs) h e = absurd h
none-suspended true rs h e = cc

module _ (env : Platform) (stamp : Stamp) where
  begin_ask-refines :
      (question : String) (confirm : Bool) (p : PanelState)
      → nonempty question ≡ true
      → p.processing ≡ false
      → p.suspended ≡ []
      → p.queue ≡ p.queue_ref
      → p.skip_drain ≡ false
      → All (λ q. nonempty q ≡ true) p.queue
      → let p' = begin_ask env stamp question confirm p in
        (map question_of p'.requests ≡ map question_of p.requests ++ (question ∷ []))
        × (p'.queue ≡ p.queue)
        × (p'.processing ≡ true)
        × IsAttentive p'
  unfolding begin_ask
  begin_ask-refines question confirm p named free none_waits same drains waiting =
      ground (arith, map-append p.requests question confirm)

  submit-refines :
      (confirm : Bool) (prompt : Option String) (p : PanelState)
      → IsAttentive p
      → (view (submit env stamp confirm prompt p) ≡ push (submitted prompt p) (view p))
        × IsAttentive (submit env stamp confirm prompt p)
  unfolding submit view push
  submit-refines confirm prompt p h =
      let q = submitted prompt p in
      elim (Bool-cases (nonempty q)) [
        | inr blank ↦ ground (arith, blank)
        | inl named ↦ elim (Bool-cases p.processing) [
          | inl busy ↦ ground (arith, named, busy, All-snoc p.queue q named h.named)
          | inr free ↦
              let started =
                begin_ask-refines q confirm (record p { draft = "" }) named free
                  (none-suspended p.processing p.suspended h.runs free) h.same_queue h.drains
                  h.named in
              ground (arith, named, free, started)
        ]
      ]

  drain-refines :
      (p : PanelState)
      → p.processing ≡ false
      → p.pending_status ≡ none
      → p.suspended ≡ []
      → p.queue ≡ p.queue_ref
      → p.skip_drain ≡ false
      → All (λ q. nonempty q ≡ true) p.queue
      → (view (drain env stamp true p) ≡ pop (record (view p) { busy = true }))
        × IsAttentive (drain env stamp true p)
  unfolding drain view pop
  drain-refines p free idle none_waits same drains named = elim (List-cases p.queue) [
    | inl e ↦ ground (arith, e)
    | inr (next, rest, e) ↦
        let parts : All (λ q. nonempty q ≡ true) (next ∷ rest) =
          subst (λ qs. All (λ q. nonempty q ≡ true) qs) e named in
        let (name, names) = parts in
        let started =
          begin_ask-refines next false (record p { queue_ref = rest; queue = rest }) name free
            none_waits refl drains names in
        ground (arith, e, name, started)
  ]

  finish_ask-refines :
      (run : Run) (d : Done) (p : PanelState)
      → p.suspended ≡ []
      → p.queue ≡ p.queue_ref
      → p.skip_drain ≡ false
      → All (λ q. nonempty q ≡ true) p.queue
      → (view (finish_ask env stamp run (done_outcome d) p) ≡ pop (record (view p) { busy = true }))
        × IsAttentive (finish_ask env stamp run (done_outcome d) p)
  unfolding finish_ask settle add_answer remove_temp release should_drain restore_draft view
  finish_ask-refines run (Done.answer s result) p none_waits same drains named =
      drain-refines (release run (add_answer env run result p)) refl refl none_waits same drains
        named
  finish_ask-refines run (Done.stop s) p none_waits same drains named =
      let ended =
        drain-refines (release run (remove_temp env run p)) refl refl none_waits same drains
          named in
      ground (arith, ended)

pub one-suspended :
    (b : Bool) (rs : List Run) → RunsMatch b rs → b ≡ true → (r : Run) × (rs ≡ r ∷ [])
one-suspended true (r ∷ []) h e = (r, refl)
one-suspended true (r ∷ s ∷ rs) h e = absurd h
one-suspended true [] h e = absurd h
one-suspended false rs h e = cc

resume-refines :
    (env : Platform) (d : Done) (p : PanelState)
    → IsAttentive p
    → (view (on_event env (done_event d) p) ≡ (if p.processing then pop (view p) else view p))
      × IsAttentive (on_event env (done_event d) p)
unfolding on_event resume take_run view
resume-refines env d p h = elim (Bool-cases p.processing) [
  | inr free ↦ ground (arith, free, none-suspended p.processing p.suspended h.runs free)
  | inl busy ↦
      let (run, e) = one-suspended p.processing p.suspended h.runs busy in
      let ended =
        finish_ask-refines env (done_stamp d) run d (record p { suspended = [] }) refl h.same_queue
          h.drains h.named in
      ground (arith, busy, e, ended)
]

draft-IsAttentive :
    (s : String) (p : PanelState) → IsAttentive p → IsAttentive (record p { draft = s })
draft-IsAttentive s p h = ground arith

turn-refines :
    (env : Platform) (t : Turn) (p : PanelState)
    → IsAttentive p
    → (view (on_events env (turn_events t) p) ≡ fifo_turn t (view p))
      × IsAttentive (on_events env (turn_events t) p)
unfolding on_events turn_events fifo_turn on_event stop_ask abort view
turn-refines env (Turn.draft s) p h = ground arith
turn-refines env (Turn.ask stamp confirm s) p h =
    unfold submitted in
    submit-refines env stamp confirm none (record p { draft = s }) (draft-IsAttentive s p h)
turn-refines env (Turn.pick stamp s) p h =
    unfold submitted in submit-refines env stamp false (some s) p h
turn-refines env Turn.press_stop p h = ground arith
turn-refines env (Turn.done d) p h = resume-refines env d p h

-- While it is drained, the panel is a first-in, first-out queue of questions: whatever is typed,
-- submitted, picked, stopped and answered, in any order, the questions that were asked, those that
-- wait and whether one is under way are those of the queue after the same turns, and the panel is
-- drained as before.
pub on_turns-refines :
    (env : Platform) (turns : List Turn) (p : PanelState)
    → IsAttentive p
    → (view (on_turns env turns p) ≡ fifo_turns turns (view p)) × IsAttentive (on_turns env turns p)
unfolding on_turns fifo_turns
on_turns-refines env [] p h = (refl, h)
on_turns-refines env (t ∷ turns) p h =
    let (e, h') = turn-refines env t p h in
    let (rest, h'') = on_turns-refines env turns (on_events env (turn_events t) p) h' in
    (rw e at rest, h'')

fifo_drained :
    (ds : List Done) (asked waiting : List String)
    → length ds ≡ suc (length waiting)
    → fifo_turns
        (map (λ d. Turn.done d) ds)
        (record { asked = asked; waiting = waiting; busy = true })
      ≡ record { asked = asked ++ waiting; waiting = []; busy = false }
unfolding fifo_turns fifo_turn pop
fifo_drained [] asked waiting h = ground (arith, h)
fifo_drained (d ∷ []) asked [] h = simp (append-nil) refl
fifo_drained (d ∷ e ∷ ds) asked [] h = ground (arith, h)
fifo_drained (d ∷ ds) asked (q ∷ waiting) h =
    let ih = fifo_drained ds (asked ++ (q ∷ [])) waiting (omega (arith, h)) in
    ih
    ∙ ap (λ qs. record { asked = qs; waiting = []; busy = false })
        (append_assoc asked (q ∷ []) waiting)

-- In a panel that is attentive, so that it holds no question back, and processes one, every question that waits is asked: when the
-- question under way and those that follow it are answered or stopped, one after the other, the questions that waited have been asked in the order in
-- which they were submitted, none waits, and the panel is free.
pub on_turns_drain :
    (env : Platform) (ds : List Done) (p : PanelState)
    → IsAttentive p
    → p.processing ≡ true
    → length ds ≡ suc (length p.queue)
    → let p' = on_turns env (map (λ d. Turn.done d) ds) p in
      (map question_of p'.requests ≡ map question_of p.requests ++ p.queue)
      × (p'.queue ≡ [])
      × (p'.processing ≡ false)
unfolding view
on_turns_drain env ds p h busy enough =
    let (refined, _) = on_turns-refines env (map (λ d. Turn.done d) ds) p h in
    let drained = fifo_drained ds (map question_of p.requests) p.queue enough in
    ground (arith, refined, drained, busy)
