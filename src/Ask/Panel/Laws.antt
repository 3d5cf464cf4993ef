-- ===== src/Ask/Panel/Laws.antt =====
-- What holds of the panel whatever happens to it, and how a question that is stopped or fails leaves
-- it: DocumentAskPanel.tsx.
use lesspaper_ngl.Ask.Panel.{
  PanelState, Platform, Run, Stamp, abort, activate_citation, begin_ask, chat_emptied, handle_clear,
  handle_new_chat, on_document, on_new, on_server_messages, stop_ask, submit, submitted,
}
use lesspaper_ngl.Ask.Panel.Fifo.{All-snoc}
use lesspaper_ngl.Ask.Panel.Finish.{
  AskOutcome, Event, add_answer, drain, finish_ask, on_event, on_events, release, remove_temp,
  restore_draft, resume, settle, should_drain, take_run,
}
use lesspaper_ngl.Prelude.{
  All, Bool, Bool-cases, List, List-cases, Option, Option-cases, String, [], arith, false, inl, inr,
  is_some, nonempty, refl, sym, true, ℕ, ◌∙◌, ◌∷◌, ◌≡◌,
}
use mathlib.Core.Path.{subst}

-- The queue that is shown is the one that is drained, no blank question waits, and a question is
-- pending exactly while the panel processes one.
pub record IsConsistent (p : PanelState) : Type 0 where
  pub same_queue : p.queue ≡ p.queue_ref
  pub pending : is_some p.pending_status ≡ p.processing
  pub named : All (λ q. nonempty q ≡ true) p.queue

begin_ask-IsConsistent :
    (env : Platform) (stamp : Stamp) (q : String) (confirm : Bool) (p : PanelState)
    → IsConsistent p
    → IsConsistent (begin_ask env stamp q confirm p)
unfolding begin_ask
begin_ask-IsConsistent env stamp q confirm p h = ground arith

submit-IsConsistent :
    (env : Platform) (stamp : Stamp) (confirm : Bool) (prompt : Option String) (p : PanelState)
    → IsConsistent p
    → IsConsistent (submit env stamp confirm prompt p)
unfolding submit
submit-IsConsistent env stamp confirm prompt p h =
    let q = submitted prompt p in
    let cleared : IsConsistent (record p { draft = "" }) = ground arith in
    elim (Bool-cases (nonempty q)) [
      | inr blank ↦ ground (arith, blank)
      | inl named ↦ ground (
        arith,
        named,
        All-snoc p.queue q named h.named,
        begin_ask-IsConsistent env stamp q confirm (record p { draft = "" }) cleared,
      )
    ]

drain-IsConsistent :
    (env : Platform) (stamp : Stamp) (wanted : Bool) (p : PanelState)
    → IsConsistent p
    → IsConsistent (drain env stamp wanted p)
unfolding drain
drain-IsConsistent env stamp wanted p h = elim (List-cases p.queue_ref) [
  | inl e ↦ ground (arith, e)
  | inr (q, rest, e) ↦
      let parts : All (λ q. nonempty q ≡ true) (q ∷ rest) =
        subst (λ qs. All (λ q. nonempty q ≡ true) qs) (h.same_queue ∙ e) h.named in
      let left : IsConsistent (record p { queue_ref = rest; queue = rest }) = record {
        same_queue = refl;
        pending = h.pending;
        named = parts.1;
      } in
      ground (
        arith,
        e,
        begin_ask-IsConsistent env stamp q false (record p { queue_ref = rest; queue = rest }) left,
      )
]

settle-keeps :
    (env : Platform) (run : Run) (outcome : AskOutcome) (p : PanelState)
    → let p' = settle env run outcome p in
      (p'.queue ≡ p.queue)
      × (p'.queue_ref ≡ p.queue_ref)
      × (p'.requests ≡ p.requests)
      × (p'.skip_drain ≡ p.skip_drain)
unfolding settle add_answer remove_temp
settle-keeps env run (AskOutcome.answered result) p = (refl, refl, refl, refl)
settle-keeps env run AskOutcome.aborted p = (refl, refl, refl, refl)
settle-keeps env run (AskOutcome.forbidden message) p = (refl, refl, refl, refl)
settle-keeps env run (AskOutcome.failed message) p = (refl, refl, refl, refl)

restore_draft-IsConsistent :
    (outcome : AskOutcome) (run : Run) (p : PanelState)
    → IsConsistent p
    → IsConsistent (restore_draft outcome run p)
unfolding restore_draft
restore_draft-IsConsistent (AskOutcome.answered result) run p h = h
restore_draft-IsConsistent AskOutcome.aborted run p h = ground arith
restore_draft-IsConsistent (AskOutcome.forbidden message) run p h = h
restore_draft-IsConsistent (AskOutcome.failed message) run p h = h

finish_ask-IsConsistent :
    (env : Platform) (stamp : Stamp) (run : Run) (outcome : AskOutcome) (p : PanelState)
    → IsConsistent p
    → IsConsistent (finish_ask env stamp run outcome p)
unfolding finish_ask
finish_ask-IsConsistent env stamp run outcome p h =
    let p' = settle env run outcome p in
    let (shown, drained, _, _) = settle-keeps env run outcome p in
    let freed : IsConsistent (release run p') =
      unfold release in
      record {
        same_queue = shown ∙ h.same_queue ∙ sym drained;
        pending = refl;
        named = subst (λ qs. All (λ q. nonempty q ≡ true) qs) (sym shown) h.named;
      } in
    restore_draft-IsConsistent outcome run (drain env stamp (should_drain outcome) (release run p'))
      (drain-IsConsistent env stamp (should_drain outcome) (release run p') freed)

resume-IsConsistent :
    (env : Platform) (stamp : Stamp) (i : ℕ) (outcome : AskOutcome) (p : PanelState)
    → IsConsistent p
    → IsConsistent (resume env stamp i outcome p)
unfolding resume
resume-IsConsistent env stamp i outcome p h = elim (Option-cases (take_run i p.suspended)) [
  | inl e ↦ rw (e, resume) h
  | inr ((run, rest), e) ↦
      rw (e, resume)
        (finish_ask-IsConsistent env stamp run outcome (record p { suspended = rest })
          (record { same_queue = h.same_queue; pending = h.pending; named = h.named }))
]

on_event-IsConsistent :
    (env : Platform) (e : Event) (p : PanelState) → IsConsistent p → IsConsistent (on_event env e p)
unfolding on_event on_document on_server_messages stop_ask on_new handle_new_chat handle_clear
    chat_emptied activate_citation abort
on_event-IsConsistent env Event.opened p h = ground arith
on_event-IsConsistent env (Event.server_read messages) p h = ground arith
on_event-IsConsistent env Event.rendered p h = ground arith
on_event-IsConsistent env (Event.typed s) p h = ground arith
on_event-IsConsistent env (Event.submitted_by stamp confirm prompt) p h =
    submit-IsConsistent env stamp confirm prompt p h
on_event-IsConsistent env (Event.resumed stamp i outcome) p h =
    resume-IsConsistent env stamp i outcome p h
on_event-IsConsistent env Event.stopped p h = ground arith
on_event-IsConsistent env (Event.cited c) p h = ground arith
on_event-IsConsistent env Event.new_pressed p h = ground arith
on_event-IsConsistent env Event.new_confirmed p h = ground arith
on_event-IsConsistent env Event.clear_confirmed p h = ground arith
on_event-IsConsistent env Event.emptied p h = ground arith

-- Whatever happens to the panel, the queue that is shown stays the one that is drained, no blank
-- question waits in it, and a question is pending exactly while one is processed.
pub on_events-IsConsistent :
    (env : Platform) (events : List Event) (p : PanelState)
    → IsConsistent p
    → IsConsistent (on_events env events p)
unfolding on_events
on_events-IsConsistent env [] p h = h
on_events-IsConsistent env (e ∷ events) p h =
    on_events-IsConsistent env events (on_event env e p) (on_event-IsConsistent env e p h)
