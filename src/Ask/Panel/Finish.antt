-- ===== src/Ask/Panel/Finish.antt =====
-- What follows the `await` of `runAskAndDrain`, for each thing that the request can come to, and the
-- queue of follow-up questions that is drained then: DocumentAskPanel.tsx.
use lesspaper_ngl.Ask.Panel.{
  PanelState, Platform, Run, Stamp, activate_citation, begin_ask, chat_emptied, handle_clear,
  handle_new_chat, on_document, on_new, on_server_messages, sort_messages, stop_ask, submit, thread,
}
use lesspaper_ngl.Prelude.{
  Bool, List, Option, String, [], false, filter, if◌then◌else◌, length, ltb, nat_eq, none, nonempty,
  not, option_eq, or_default, or_text, some, suc, text_eq, true, zero, ℕ, ◌&&◌, ◌++◌, ◌+◌, ◌==◌,
  ◌||◌, ◌∷◌,
}
use lesspaper_ngl.Prelude.Texts.{trim}
use lesspaper_ngl.Types.Ask.{AskCitationSnapshot, AskMessage, AskResponse, Citation, Role, role_eq}

-- an answer, an error of the name `AbortError`, an `ApiError` whose `isForbidden` holds, and another
-- value that was thrown, with its message where it is an `Error`
pub data AskOutcome : Type 0 where
  answered : AskResponse → AskOutcome
  aborted : AskOutcome
  forbidden : String → AskOutcome
  failed : Option String → AskOutcome

-- `result.citations.map((c, i) => …)`, from the index `i`
unfoldable pub citation_snapshots : ℕ → List Citation → List AskCitationSnapshot
citation_snapshots i [] = []
citation_snapshots i (c ∷ cs) =
    record {
      display_number = or_default c.display_number (i + 1);
      chunk_id = c.chunk_id;
      document_id = c.document_id;
      page_number = c.page_number;
      title = some c.title;
      quote = c.quote;
    }
    ∷ citation_snapshots (i + 1) cs

unfoldable pub assistant_message : Platform → AskMessage → AskResponse → AskMessage
unfolding citation_snapshots
assistant_message env user result = record {
  id = or_default result.assistant_message_id env.temp_assistant_id;
  role = Role.assistant;
  content = result.answer;
  citations = citation_snapshots 0 result.citations;
  created_at = env.later user.created_at;
}

-- `base.filter((m) => m.id !== optimisticUser.id)`
unfoldable pub without_temp : Run → PanelState → List AskMessage
without_temp run p = filter (λ m. not (m.id == run.optimistic_user.id)) (thread p)

unfoldable pub user_message : Run → AskResponse → AskMessage
user_message run result = record (run.optimistic_user) {
  id = or_default result.user_message_id (run.optimistic_user).id;
}

unfoldable pub add_answer : Platform → Run → AskResponse → PanelState → PanelState
unfolding without_temp user_message assistant_message
add_answer env run result p = record p {
  local_messages = some (
      sort_messages env (
        without_temp run p
        ++ (user_message run result ∷ assistant_message env run.optimistic_user result ∷ [])));
  persist_warning =
      if or_default result.persist_failed false
      then some "Your answer was generated, but the conversation could not be saved."
      else p.persist_warning;
}

-- `base.length ? sortMessages(base) : null`
unfoldable pub remove_temp : Platform → Run → PanelState → PanelState
unfolding without_temp
remove_temp env run p = record p {
  local_messages =
      if ltb 0 (length (without_temp run p))
      then some (sort_messages env (without_temp run p))
      else none;
}

-- the `try` and the `catch`
unfoldable pub settle : Platform → Run → AskOutcome → PanelState → PanelState
unfolding add_answer remove_temp
settle env run (AskOutcome.answered result) p = add_answer env run result p
settle env run AskOutcome.aborted p = remove_temp env run p
settle env run (AskOutcome.forbidden message) p = record (remove_temp env run p) {
  draft = run.optimistic_user.content;
  pending_remote = true;
  error =
      some (
        or_text message "This provider is remote. Confirm to send the question outside your host.");
}
settle env run (AskOutcome.failed message) p = record (remove_temp env run p) {
  draft = run.optimistic_user.content;
  error = some (or_default message "I couldn't complete that request.");
}

unfoldable pub should_drain : AskOutcome → Bool
should_drain (AskOutcome.answered result) = true
should_drain AskOutcome.aborted = true
should_drain _ = false

-- the `finally`, but for the draft
unfoldable pub release : Run → PanelState → PanelState
release run p = record p {
  abort_ref = if p.abort_ref == some run.controller then none else p.abort_ref;
  pending_status = none;
  processing = false;
}

-- the end of the function: the next question of the queue is asked
unfoldable pub drain : Platform → Stamp → Bool → PanelState → PanelState
drain env stamp wanted p =
    if wanted && not p.skip_drain
    then elim p.queue_ref [
      | [] ↦ p
      | next ∷ rest ↦
          if nonempty next
          then begin_ask env stamp next false (record p { queue_ref = rest; queue = rest })
          else p
    ]
    else if p.skip_drain
    then record p { skip_drain = false }
    else p

-- `setDraft((d) => …)` of a question that was stopped: it runs at the next render
unfoldable pub restore_draft : AskOutcome → Run → PanelState → PanelState
restore_draft AskOutcome.aborted run p = record p {
  draft =
      if nonempty (run.optimistic_user).content
      then (if nonempty (trim p.draft) || ltb 0 (length p.queue_ref)
          then p.draft
          else (run.optimistic_user).content)
      else p.draft;
}
restore_draft _ run p = p

unfoldable pub finish_ask : Platform → Stamp → Run → AskOutcome → PanelState → PanelState
unfolding settle should_drain release drain restore_draft
finish_ask env stamp run outcome p =
    restore_draft outcome run
      (drain env stamp (should_drain outcome) (release run (settle env run outcome p)))

-- the call at a place among those that await their request, and the others
unfoldable pub take_run : ℕ → List Run → Option (Run × List Run)
take_run i [] = none
take_run zero (r ∷ rs) = some (r, rs)
take_run (suc i) (r ∷ rs) = elim (take_run i rs) [
  | none ↦ none
  | some (s, rest) ↦ some (s, r ∷ rest)
]

-- The request of the `i`-th call that waits comes to `outcome`.
unfoldable pub resume : Platform → Stamp → ℕ → AskOutcome → PanelState → PanelState
unfolding take_run finish_ask
resume env stamp i outcome p = elim (take_run i p.suspended) [
  | none ↦ p
  | some (run, rest) ↦ finish_ask env stamp run outcome (record p { suspended = rest })
]

-- everything that can happen to the panel
pub data Event : Type 0 where
  opened : Event
  server_read : List AskMessage → Event
  rendered : Event
  typed : String → Event
  submitted_by : Stamp → Bool → Option String → Event
  resumed : Stamp → ℕ → AskOutcome → Event
  stopped : Event
  cited : Citation → Event
  new_pressed : Event
  new_confirmed : Event
  clear_confirmed : Event
  emptied : Event

unfoldable pub on_event : Platform → Event → PanelState → PanelState
unfolding resume on_document on_server_messages submit stop_ask on_new handle_new_chat handle_clear
    chat_emptied activate_citation
on_event env Event.opened p = on_document p
on_event env (Event.server_read messages) p = record p { server_messages = messages }
on_event env Event.rendered p = on_server_messages p
on_event env (Event.typed s) p = record p { draft = s }
on_event env (Event.submitted_by stamp confirm prompt) p = submit env stamp confirm prompt p
on_event env (Event.resumed stamp i outcome) p = resume env stamp i outcome p
on_event env Event.stopped p = stop_ask p
on_event env (Event.cited c) p = activate_citation c p
on_event env Event.new_pressed p = on_new p
on_event env Event.new_confirmed p = handle_new_chat p
on_event env Event.clear_confirmed p = handle_clear p
on_event env Event.emptied p = chat_emptied p

unfoldable pub on_events : Platform → List Event → PanelState → PanelState
on_events env [] p = p
on_events env (e ∷ events) p = on_events env events (on_event env e p)
