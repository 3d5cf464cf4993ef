-- ===== src/Settings/Tour.antt =====
-- The tour of a new user: features/onboarding/OnboardingTour.tsx. The call that marks the onboarding
-- as completed succeeds or fails.
use lesspaper_ngl.Client.Persisted.{persist}
use lesspaper_ngl.Prelude.{
  Bool, Eq, List, Option, String, [], arith, false, get_elem?, if◌then◌else◌, length, nat_eq, not,
  option_eq, some, text_eq, true, ℕ, ◌&&◌, ◌+◌, ◌-◌, ◌<◌, ◌==◌, ◌∷◌,
}

pub data TourMode : Type 0 where
  closed welcome tour : TourMode

abbrev tour_mode_beq : TourMode → TourMode → Bool
tour_mode_beq TourMode.closed TourMode.closed = true
tour_mode_beq TourMode.welcome TourMode.welcome = true
tour_mode_beq TourMode.tour TourMode.tour = true
tour_mode_beq _ _ = false

instance abbrev pub tour_mode_eq : Eq TourMode
tour_mode_eq = record { beq = tour_mode_beq }

-- the paths of `TOUR_STEPS`
abbrev pub tour_steps : List String
tour_steps =
    "/inbox" ∷ "/inbox?view=work" ∷ "/documents" ∷ "/trash" ∷ "/search" ∷ "/settings/profile"
    ∷ "/settings/artificial-intelligence" ∷ []

-- the state of the provider, the path shown, and how often the onboarding was marked as completed
pub record TourState : Type 0 where
  pub mode : TourMode
  pub step_index : ℕ
  pub replaying : Bool
  pub path : Option String
  pub completions : ℕ

unfoldable pub on_required : Bool → TourState → TourState
on_required required s =
    if required && s.mode == TourMode.closed then record s { mode = TourMode.welcome } else s

-- the effect that shows the page of the step
unfoldable pub on_step : TourState → TourState
on_step s =
    if s.mode == TourMode.tour then record s { path = get_elem? tour_steps s.step_index } else s

-- `close`, and whether it came to its end
unfoldable pub close : Bool → Bool → TourState → TourState × Bool
close completes persist s =
    if persist && not s.replaying
    then (if completes
        then (
          record s { mode = TourMode.closed; replaying = false; completions = s.completions + 1 },
          true,
        )
        else (s, false))
    else (record s { mode = TourMode.closed; replaying = false }, true)

unfoldable pub finish : Bool → TourState → TourState
unfolding close
finish completes s =
    let (closed_state, ended) = close completes true s in
    if ended then record closed_state { path = some "/inbox" } else closed_state

unfoldable pub replay : TourState → TourState
replay s = record s { replaying = true; step_index = 0; mode = TourMode.welcome }

unfoldable pub on_begin : TourState → TourState
on_begin s = record s { step_index = 0; mode = TourMode.tour }

unfoldable pub on_back : TourState → TourState
on_back s = record s { step_index = s.step_index - 1 }

unfoldable pub on_next : TourState → TourState
on_next s = record s { step_index = s.step_index + 1 }

unfoldable pub on_skip : Bool → TourState → TourState
unfolding close
on_skip completes s = (close completes true s).0

-- the buttons of the overlay: the last step has `Finish` where the others have `Next`
unfoldable pub press_forward : Bool → TourState → TourState
unfolding finish on_next
press_forward completes s =
    if s.step_index == length tour_steps - 1 then finish completes s else on_next s

pub data TourEvent : Type 0 where
  status_read : Bool → TourEvent
  rendered : TourEvent
  began : TourEvent
  went_back : TourEvent
  went_forward : Bool → TourEvent
  skipped : Bool → TourEvent
  replayed : TourEvent

-- What happens in each mode: the overlay shows the buttons of its mode, and none when it is closed.
unfoldable pub on_tour_event : TourEvent → TourState → TourState
unfolding on_required on_step on_begin on_back press_forward on_skip replay
on_tour_event (TourEvent.status_read required) s = on_required required s
on_tour_event TourEvent.rendered s = on_step s
on_tour_event TourEvent.began s = if s.mode == TourMode.welcome then on_begin s else s
on_tour_event TourEvent.went_back s = if s.mode == TourMode.tour then on_back s else s
on_tour_event (TourEvent.went_forward ok) s =
    if s.mode == TourMode.tour then press_forward ok s else s
on_tour_event (TourEvent.skipped ok) s = if s.mode == TourMode.closed then s else on_skip ok s
on_tour_event TourEvent.replayed s = replay s

unfoldable pub on_tour_events : List TourEvent → TourState → TourState
on_tour_events [] s = s
on_tour_events (e ∷ events) s = on_tour_events events (on_tour_event e s)

on_tour_event-bounds :
    (e : TourEvent) (s : TourState)
    → s.step_index < length tour_steps
    → (on_tour_event e s).step_index < length tour_steps
unfolding on_tour_event on_required on_step on_begin on_back press_forward on_skip replay finish
    on_next close
on_tour_event-bounds (TourEvent.status_read required) s h = ground (arith, h)
on_tour_event-bounds TourEvent.rendered s h = ground (arith, h)
on_tour_event-bounds TourEvent.began s h = ground (arith, h)
on_tour_event-bounds TourEvent.went_back s h = ground (arith, h)
on_tour_event-bounds (TourEvent.went_forward ok) s h = ground (arith, h)
on_tour_event-bounds (TourEvent.skipped ok) s h = ground (arith, h)
on_tour_event-bounds TourEvent.replayed s h = ground (arith, h)

-- Whatever buttons are pressed, the step that is shown is one of the steps of the tour, though `onNext`
-- has no bound of its own.
on_tour_events-bounds :
    (events : List TourEvent) (s : TourState)
    → s.step_index < length tour_steps
    → (on_tour_events events s).step_index < length tour_steps
unfolding on_tour_events
on_tour_events-bounds [] s h = h
on_tour_events-bounds (e ∷ events) s h =
    on_tour_events-bounds events (on_tour_event e s) (on_tour_event-bounds e s h)
