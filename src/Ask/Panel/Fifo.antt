-- ===== src/Ask/Panel/Fifo.antt =====
-- The panel keeps a first-in, first-out queue of questions: the queue as one asks for it, and what the
-- submissions, the stops and the ends of the questions do to it.
use lesspaper_ngl.Ask.Panel.{PanelState, Platform, Run, Stamp}
use lesspaper_ngl.Ask.Panel.Finish.{AskOutcome, Event, on_events}
use lesspaper_ngl.Prelude.{
  All, Bool, List, String, [], false, if◌then◌else◌, is_some, map, none, nonempty, not, some, true,
  ◌++◌, ◌∷◌, ◌≡◌,
}
use lesspaper_ngl.Prelude.Texts.{trim}
use lesspaper_ngl.Types.Ask.{AskResponse}

-- the questions that were asked, those that wait, and whether one is under way
pub record Fifo : Type 0 where
  pub asked : List String
  pub waiting : List String
  pub busy : Bool

unfoldable pub push : String → Fifo → Fifo
push question f =
    if not (nonempty question)
    then f
    else if f.busy
    then record f { waiting = f.waiting ++ (question ∷ []) }
    else record f { asked = f.asked ++ (question ∷ []); busy = true }

unfoldable pub pop : Fifo → Fifo
pop f = elim f.waiting [
  | [] ↦ record f { busy = false }
  | next ∷ rest ↦ if f.busy then record f { asked = f.asked ++ (next ∷ []); waiting = rest } else f
]

abbrev pub question_of : String × Bool → String
question_of (question, confirm_remote) = question

unfoldable pub view : PanelState → Fifo
view p = record { asked = map question_of p.requests; waiting = p.queue; busy = p.processing }

-- How a question ends that does not fail: it is answered, or it is stopped.
pub data Done : Type 0 where
  answer : Stamp → AskResponse → Done
  stop : Stamp → Done

-- what the person at the panel does, and how the question under way ends
pub data Turn : Type 0 where
  draft : String → Turn
  ask : Stamp → Bool → String → Turn
  pick : Stamp → String → Turn
  press_stop : Turn
  done : Done → Turn

abbrev pub done_outcome : Done → AskOutcome
done_outcome (Done.answer stamp result) = AskOutcome.answered result
done_outcome (Done.stop stamp) = AskOutcome.aborted

abbrev pub done_stamp : Done → Stamp
done_stamp (Done.answer stamp result) = stamp
done_stamp (Done.stop stamp) = stamp

abbrev pub done_event : Done → Event
done_event d = Event.resumed (done_stamp d) 0 (done_outcome d)

-- A question is typed and submitted, or one of the prompts is picked.
unfoldable pub turn_events : Turn → List Event
turn_events (Turn.draft s) = Event.typed s ∷ []
turn_events (Turn.ask stamp confirm s) = Event.typed s ∷ Event.submitted_by stamp confirm none ∷ []
turn_events (Turn.pick stamp s) = Event.submitted_by stamp false (some s) ∷ []
turn_events Turn.press_stop = Event.stopped ∷ []
turn_events (Turn.done d) = done_event d ∷ []

unfoldable pub fifo_turn : Turn → Fifo → Fifo
unfolding push pop
fifo_turn (Turn.ask stamp confirm s) f = push (trim s) f
fifo_turn (Turn.pick stamp s) f = push (trim s) f
fifo_turn (Turn.done d) f = if f.busy then pop f else f
fifo_turn _ f = f

unfoldable pub on_turns : Platform → List Turn → PanelState → PanelState
unfolding turn_events
on_turns env [] p = p
on_turns env (t ∷ turns) p = on_turns env turns (on_events env (turn_events t) p)

unfoldable pub fifo_turns : List Turn → Fifo → Fifo
unfolding fifo_turn
fifo_turns [] f = f
fifo_turns (t ∷ turns) f = fifo_turns turns (fifo_turn t f)

-- the calls that await: one while a question is under way, else none
abbrev pub RunsMatch : Bool → List Run → Type 0
RunsMatch false [] = Unit
RunsMatch true (r ∷ []) = Unit
RunsMatch _ _ = ⊥

-- The panel is drained after each question, and at most the question under way is awaited.
pub record IsAttentive (p : PanelState) : Type 0 where
  pub same_queue : p.queue ≡ p.queue_ref
  pub drains : p.skip_drain ≡ false
  pub pending : is_some p.pending_status ≡ p.processing
  pub runs : RunsMatch p.processing p.suspended
  pub named : All (λ q. nonempty q ≡ true) p.queue
  pub idle : p.processing ≡ false → p.queue ≡ []

pub All-snoc :
    (xs : List String) (q : String)
    → nonempty q ≡ true
    → All (λ q. nonempty q ≡ true) xs
    → All (λ q. nonempty q ≡ true) (xs ++ (q ∷ []))
All-snoc [] q h a = (h, a)
All-snoc (x ∷ xs) q h (hx, a) = (hx, All-snoc xs q h a)
