-- ===== src/Ask/Examples.antt =====
-- The theorems on asking, at concrete panels.
use lesspaper_ngl.Ask.Citations.{render_text_with_citations, tokens}
use lesspaper_ngl.Ask.Citations.Laws.{AllShow, render_text_with_citations-AllShow, written}
use lesspaper_ngl.Ask.Panel.{PanelState, PendingStatus, Platform, Run, Stamp}
use lesspaper_ngl.Ask.Panel.Fifo.{Done, IsAttentive, Turn, fifo_turns, on_turns, question_of, view}
use lesspaper_ngl.Ask.Panel.Finish.{AskOutcome, Event, finish_ask, on_event, on_events}
use lesspaper_ngl.Ask.Panel.Flags.{finish_ask-failed, finish_ask-stopped, on_document-overtaken}
use lesspaper_ngl.Ask.Panel.Laws.{IsConsistent, on_events-IsConsistent}
use lesspaper_ngl.Ask.Panel.Refine.{on_turns-refines, on_turns_drain}
use lesspaper_ngl.Ask.Scope.{ChatState, initial_chat, plain_scope}
use lesspaper_ngl.Prelude.{
  List, [], false, if◌then◌else◌, is_some, map, nat_eq, none, nonempty, option_eq, refl, some,
  text_eq, true, ℕ, ◌||◌, ◌∷◌, ◌≡◌,
}
use lesspaper_ngl.Prelude.Texts.{is_space, template, text_length, trim, trim_end, trim_start}
use lesspaper_ngl.Types.Ask.{AskMessage, AskResponse, AskScope, Citation, Role, role_eq}

abbrev platform : Platform
platform = record {
  get_time = text_length;
  later = λ s. s;
  locale_after = λ a b. false;
  temp_assistant_id = "temp-assistant";
}

abbrev stamp : Stamp
stamp = record { id = "temp-user"; created_at = "2026" }

abbrev reply : AskResponse
reply = record {
  answer = "42 [1]";
  citations = [];
  passages = [];
  provider = none;
  model = none;
  privacy_mode = "local_only";
  is_local = true;
  insufficient_evidence = false;
  conversation_id = none;
  user_message_id = some "u1";
  assistant_message_id = some "a1";
  persist_failed = none;
}

-- a panel that is drained, with no question
abbrev drained_panel : PanelState
drained_panel = record {
  draft = "";
  local_messages = none;
  pending_status = none;
  queue = [];
  error = none;
  pending_remote = false;
  active_citation = none;
  confirm_clear = false;
  confirm_new = false;
  persist_warning = none;
  abort_ref = none;
  queue_ref = [];
  processing = false;
  server_messages = [];
  skip_drain = false;
  next_controller = 0;
  aborted = [];
  suspended = [];
  requests = [];
}

abbrev first_run : Run
first_run = record {
  optimistic_user = record {
    id = "temp-user";
    role = Role.user;
    content = "first";
    citations = [];
    created_at = "2026";
  };
  controller = 0;
}

-- a panel that processes a question while two wait
abbrev busy_panel : PanelState
busy_panel = record drained_panel {
  local_messages = some (first_run.optimistic_user ∷ []);
  pending_status = some PendingStatus.generating;
  queue = "second" ∷ "third" ∷ [];
  queue_ref = "second" ∷ "third" ∷ [];
  processing = true;
  suspended = first_run ∷ [];
  requests = ("first", false) ∷ [];
}

drained_panel-IsAttentive : IsAttentive drained_panel
drained_panel-IsAttentive = record {
  same_queue = refl;
  drains = refl;
  pending = refl;
  runs = tt;
  named = tt;
  idle = λ _. refl;
}

busy_panel-IsAttentive : IsAttentive busy_panel
busy_panel-IsAttentive = record {
  same_queue = refl;
  drains = refl;
  pending = refl;
  runs = tt;
  named = (refl, (refl, tt));
  idle = λ e. cc;
}

abbrev three_turns : List Turn
three_turns =
    Turn.ask stamp false "first"
    ∷ Turn.pick stamp "second"
    ∷ Turn.press_stop
    ∷ Turn.done (Done.stop stamp)
    ∷ []

on_turns-refines_example :
    (view (on_turns platform three_turns drained_panel)
      ≡ fifo_turns three_turns (view drained_panel))
    × IsAttentive (on_turns platform three_turns drained_panel)
on_turns-refines_example =
    on_turns-refines platform three_turns drained_panel drained_panel-IsAttentive

abbrev three_ends : List Done
three_ends = Done.answer stamp reply ∷ Done.stop stamp ∷ Done.answer stamp reply ∷ []

on_turns_drain_example :
    let p' = on_turns platform (map (λ d. Turn.done d) three_ends) busy_panel in
    (map question_of p'.requests ≡ "first" ∷ "second" ∷ "third" ∷ [])
    × (p'.queue ≡ [])
    × (p'.processing ≡ false)
on_turns_drain_example =
    on_turns_drain platform three_ends busy_panel busy_panel-IsAttentive refl refl

abbrev some_events : List Event
some_events =
    Event.opened
    ∷ Event.typed " why? "
    ∷ Event.submitted_by stamp false none
    ∷ Event.clear_confirmed
    ∷ Event.resumed stamp 0 AskOutcome.aborted
    ∷ Event.emptied
    ∷ []

on_events-IsConsistent_example : IsConsistent (on_events platform some_events busy_panel)
on_events-IsConsistent_example =
    on_events-IsConsistent platform some_events busy_panel
      (record { same_queue = refl; pending = refl; named = (refl, (refl, tt)) })

abbrev saved_user : AskMessage
saved_user = record (first_run.optimistic_user) { id = "u1" }

on_document-overtaken_example :
    let p1 =
      on_events platform
        (Event.opened
          ∷ Event.submitted_by stamp false (some "first")
          ∷ Event.submitted_by stamp false (some "second")
          ∷ Event.resumed stamp 0 (AskOutcome.answered reply)
          ∷ [])
        drained_panel in
    let p2 = on_event platform (Event.submitted_by stamp false (some "third")) p1 in
    (p1.processing ≡ false)
    × (p1.queue ≡ trim "second" ∷ [])
    × (map question_of p2.requests ≡ trim "first" ∷ trim "third" ∷ [])
    × (p2.queue ≡ trim "second" ∷ [])
unfolding trim trim_start trim_end is_space
on_document-overtaken_example =
    on_document-overtaken platform stamp "first" "second" "third" reply drained_panel refl refl refl
      refl

finish_ask-stopped_example :
    (finish_ask platform stamp first_run AskOutcome.aborted busy_panel).draft
    ≡ (if nonempty (trim "") || true then "" else "first")
finish_ask-stopped_example =
    finish_ask-stopped platform stamp first_run busy_panel refl refl (refl, (refl, tt))

finish_ask-failed_example :
    let p' = finish_ask platform stamp first_run (AskOutcome.forbidden "remote") busy_panel in
    (p'.draft ≡ "first")
    × (is_some p'.error ≡ true)
    × (p'.pending_remote ≡ true)
    × (p'.processing ≡ false)
    × (p'.requests ≡ ("first", false) ∷ [])
    × (p'.queue ≡ "second" ∷ "third" ∷ [])
    × (p'.queue_ref ≡ "second" ∷ "third" ∷ [])
finish_ask-failed_example =
    finish_ask-failed platform stamp first_run (AskOutcome.forbidden "remote") busy_panel refl

abbrev folder_chat : ChatState
folder_chat = record (initial_chat none) {
  question = "why?";
  scope = record (plain_scope AskScope.folder) { folder_id = some "f" };
}

abbrev one_citation : List (ℕ × Citation)
one_citation =
    (
      1,
      record {
        document_id = "d";
        page_number = none;
        chunk_id = "c";
        title = "Source";
        quote = none;
        display_number = some 1;
      },
    )
    ∷ []

render_text_with_citations-AllShow_example :
    (template (map written (tokens 0 "so [1], not [2]")) ≡ "so [1], not [2]")
    × AllShow one_citation
        (tokens 0 "so [1], not [2]")
        (render_text_with_citations one_citation "so [1], not [2]")
render_text_with_citations-AllShow_example =
    render_text_with_citations-AllShow one_citation "so [1], not [2]"
