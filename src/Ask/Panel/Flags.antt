-- ===== src/Ask/Panel/Flags.antt =====
-- What stopping a question, and opening or clearing a conversation, do to the follow-up questions that
-- wait: DocumentAskPanel.tsx.
use lesspaper_ngl.Ask.Panel.{
  PanelState, Platform, Run, Stamp, abort, begin_ask, on_document, submit, submitted,
}
use lesspaper_ngl.Ask.Panel.Fifo.{RunsMatch, question_of}
use lesspaper_ngl.Ask.Panel.Finish.{
  AskOutcome, Event, add_answer, drain, finish_ask, on_event, on_events, release, remove_temp,
  restore_draft, resume, settle, should_drain, take_run,
}
use lesspaper_ngl.Ask.Panel.Refine.{map-append, one-suspended}
use lesspaper_ngl.Prelude.{
  All, Bool, List, List-cases, String, [], arith, false, if◌then◌else◌, inl, inr, is_some, length,
  ltb, map, none, nonempty, refl, some, true, ◌++◌, ◌||◌, ◌∷◌, ◌≡◌,
}
use lesspaper_ngl.Prelude.Texts.{trim}
use lesspaper_ngl.Types.Ask.{AskResponse}
use mathlib.Core.List.{append_assoc}
use mathlib.Core.Path.{subst}

-- a free panel whose next question is not followed by another
record IsHeld (p : PanelState) : Type 0 where
  free : p.processing ≡ false
  idle : p.pending_status ≡ none
  shown : p.queue ≡ []
  drained : p.queue_ref ≡ []
  held : p.skip_drain ≡ true
  alone : p.suspended ≡ []

on_document-IsHeld : (p : PanelState) → p.suspended ≡ [] → IsHeld (on_document p)
unfolding on_document abort
on_document-IsHeld p alone = ground arith

on_document-requests : (p : PanelState) → (on_document p).requests ≡ p.requests
unfolding on_document abort
on_document-requests p = ground arith

-- a panel that processes its first question and holds the next
record IsHolding (rs : List (String × Bool)) (waiting : List String) (p : PanelState) : Type 0 where
  busy : p.processing ≡ true
  shown : p.queue ≡ waiting
  drained : p.queue_ref ≡ waiting
  held : p.skip_drain ≡ true
  one : RunsMatch true p.suspended
  requests : p.requests ≡ rs

submit-IsHolding :
    (env : Platform) (stamp : Stamp) (q : String) (p : PanelState)
    → nonempty (trim q) ≡ true
    → IsHeld p
    → IsHolding (p.requests ++ ((trim q, false) ∷ [])) [] (submit env stamp false (some q) p)
unfolding submit submitted begin_ask
submit-IsHolding env stamp q p named h = ground arith

submit-waits :
    (env : Platform) (stamp : Stamp) (q : String) (rs : List (String × Bool)) (p : PanelState)
    → nonempty (trim q) ≡ true
    → IsHolding rs [] p
    → IsHolding rs (trim q ∷ []) (submit env stamp false (some q) p)
unfolding submit submitted
submit-waits env stamp q rs p named h = ground arith

answered-held :
    (env : Platform) (stamp : Stamp) (result : AskResponse) (rs : List (String × Bool)) (q : String)
    (p : PanelState)
    → IsHolding rs (q ∷ []) p
    → let p' = resume env stamp 0 (AskOutcome.answered result) p in
      (p'.processing ≡ false)
      × (p'.pending_status ≡ none)
      × (p'.queue ≡ q ∷ [])
      × (p'.requests ≡ rs)
unfolding resume take_run finish_ask settle add_answer release drain should_drain restore_draft
answered-held env stamp result rs q p h =
    let (run, e) = one-suspended true p.suspended h.one refl in ground (arith, e)

submit-free :
    (env : Platform) (stamp : Stamp) (q : String) (p : PanelState)
    → nonempty (trim q) ≡ true
    → p.processing ≡ false
    → p.pending_status ≡ none
    → let p' = submit env stamp false (some q) p in
      (p'.queue ≡ p.queue) × (p'.requests ≡ p.requests ++ ((trim q, false) ∷ []))
unfolding submit submitted begin_ask
submit-free env stamp q p named free idle = ground arith

-- If no request is under way when the panel is opened for a document, and a question and a follow-up
-- are submitted, none of them blank: once the question is answered, the follow-up is not asked but
-- waits, with the panel free, and the next question that is submitted goes ahead of it.
pub on_document-overtaken :
    (env : Platform) (stamp : Stamp) (q1 q2 q3 : String) (result : AskResponse) (p : PanelState)
    → nonempty (trim q1) ≡ true
    → nonempty (trim q2) ≡ true
    → nonempty (trim q3) ≡ true
    → p.suspended ≡ []
    → let p1 =
        on_events env
          (Event.opened
            ∷ Event.submitted_by stamp false (some q1)
            ∷ Event.submitted_by stamp false (some q2)
            ∷ Event.resumed stamp 0 (AskOutcome.answered result)
            ∷ [])
          p in
      let p2 = on_event env (Event.submitted_by stamp false (some q3)) p1 in
      (p1.processing ≡ false)
      × (p1.queue ≡ trim q2 ∷ [])
      × (map question_of p2.requests ≡ map question_of p.requests ++ (trim q1 ∷ trim q3 ∷ []))
      × (p2.queue ≡ trim q2 ∷ [])
unfolding on_events on_event
on_document-overtaken env stamp q1 q2 q3 result p n1 n2 n3 alone =
    let p1 = submit env stamp false (some q1) (on_document p) in
    let p2 = submit env stamp false (some q2) p1 in
    let p3 = resume env stamp 0 (AskOutcome.answered result) p2 in
    let rs = (on_document p).requests ++ ((trim q1, false) ∷ []) in
    let first = submit-IsHolding env stamp q1 (on_document p) n1 (on_document-IsHeld p alone) in
    let second = submit-waits env stamp q2 rs p1 n2 first in
    let (free, idle, held, asked) = answered-held env stamp result rs (trim q2) p2 second in
    let (still, now) = submit-free env stamp q3 p3 n3 free idle in
    ground (
      arith,
      free,
      idle,
      held,
      asked,
      still,
      now,
      on_document-requests p,
      map-append p.requests (trim q1) false,
      map-append (p.requests ++ ((trim q1, false) ∷ [])) (trim q3) false,
      append_assoc (map question_of p.requests) (trim q1 ∷ []) (trim q3 ∷ []),
    )

-- When a question is stopped and the panel is drained, the question comes back into the draft if the
-- draft is blank and at most one follow-up waits: the one that waits is asked at once, before the draft
-- is set. Else the draft stays as it is.
pub finish_ask-stopped :
    (env : Platform) (stamp : Stamp) (run : Run) (p : PanelState)
    → nonempty run.optimistic_user.content ≡ true
    → p.skip_drain ≡ false
    → All (λ q. nonempty q ≡ true) p.queue_ref
    → (finish_ask env stamp run AskOutcome.aborted p).draft ≡ (
        if nonempty (trim p.draft) || ltb 1 (length p.queue_ref)
        then p.draft
        else run.optimistic_user.content)
unfolding finish_ask settle remove_temp release drain should_drain restore_draft begin_ask
finish_ask-stopped env stamp run p named drains waiting = elim (List-cases p.queue_ref) [
  | inl e ↦ ground (arith, e)
  | inr (q, rest, e) ↦
      let parts : All (λ q. nonempty q ≡ true) (q ∷ rest) =
        subst (λ qs. All (λ q. nonempty q ≡ true) qs) e waiting in
      ground (arith, e, parts.0)
]

abbrev pub is_forbidden : AskOutcome → Bool
is_forbidden (AskOutcome.forbidden message) = true
is_forbidden _ = false

abbrev pub is_failure : AskOutcome → Bool
is_failure (AskOutcome.forbidden message) = true
is_failure (AskOutcome.failed message) = true
is_failure (AskOutcome.answered result) = false
is_failure AskOutcome.aborted = false

-- When the request of a question fails or is forbidden, the question comes back into the draft, a reason is shown, the
-- panel is free, nothing else is asked and the questions that wait still wait; the confirmation of a
-- remote provider is asked for if the request was forbidden, and else only if it was already.
pub finish_ask-failed :
    (env : Platform) (stamp : Stamp) (run : Run) (outcome : AskOutcome) (p : PanelState)
    → is_failure outcome ≡ true
    → let p' = finish_ask env stamp run outcome p in
      (p'.draft ≡ run.optimistic_user.content)
      × (is_some p'.error ≡ true)
      × (p'.pending_remote ≡ (is_forbidden outcome || p.pending_remote))
      × (p'.processing ≡ false)
      × (p'.requests ≡ p.requests)
      × (p'.queue ≡ p.queue)
      × (p'.queue_ref ≡ p.queue_ref)
unfolding finish_ask settle remove_temp release drain should_drain restore_draft
finish_ask-failed env stamp run (AskOutcome.answered result) p h = cc
finish_ask-failed env stamp run AskOutcome.aborted p h = cc
finish_ask-failed env stamp run (AskOutcome.forbidden message) p h = ground arith
finish_ask-failed env stamp run (AskOutcome.failed message) p h = ground arith
