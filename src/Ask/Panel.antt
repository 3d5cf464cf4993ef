-- ===== src/Ask/Panel.antt =====
-- The panel that asks about one document: DocumentAskPanel.tsx. A call of `runAskAndDrain` stops at
-- its `await`; the rest of it is `finish_ask`, which gets what the request came to. An updater that is
-- given to a React setter runs at the next render, after the call that passed it.
pub mod Finish
pub mod Fifo
pub mod Refine
pub mod Laws
pub mod Messages
pub mod Flags
use lesspaper_ngl.Prelude.{
  Bool, List, Option, String, [], false, if◌then◌else◌, is_some, leb, length, ltb, nat_eq, none,
  nonempty, not, option_eq, or_default, some, text_eq, true, ℕ, ◌++◌, ◌+◌, ◌==◌, ◌||◌, ◌∷◌,
}
use lesspaper_ngl.Prelude.Sorting.{sort_by}
use lesspaper_ngl.Prelude.Texts.{trim}
use lesspaper_ngl.Types.Ask.{AskMessage, Citation, Role, role_eq}

-- What the browser gives: the time that a date stands for, the date a millisecond later, the order of
-- `localeCompare`, and an identifier for an answer without one.
pub record Platform : Type 0 where
  pub get_time : String → ℕ
  pub later : String → String
  pub locale_after : String → String → Bool
  pub temp_assistant_id : String

pub data PendingStatus : Type 0 where
  retrieving generating : PendingStatus

-- the identifier and the date that an optimistic message gets
pub record Stamp : Type 0 where
  pub id : String
  pub created_at : String

-- what a call of `runAskAndDrain` holds while its request is under way
pub record Run : Type 0 where
  pub optimistic_user : AskMessage
  pub controller : ℕ

-- the state and the refs of the component; then the signals that are aborted, the calls that await
-- their request, and the questions sent so far, each with its `confirm_remote`
pub record PanelState : Type 0 where
  pub draft : String
  pub local_messages : Option (List AskMessage)
  pub pending_status : Option PendingStatus
  pub queue : List String
  pub error : Option String
  pub pending_remote : Bool
  pub active_citation : Option ℕ
  pub confirm_clear : Bool
  pub confirm_new : Bool
  pub persist_warning : Option String
  pub abort_ref : Option ℕ
  pub queue_ref : List String
  pub processing : Bool
  pub server_messages : List AskMessage
  pub skip_drain : Bool
  pub next_controller : ℕ
  pub aborted : List ℕ
  pub suspended : List Run
  pub requests : List (String × Bool)

-- The comparison of `sortMessages` is positive.
unfoldable pub message_after : Platform → AskMessage → AskMessage → Bool
message_after env a b =
    if not (env.get_time a.created_at == env.get_time b.created_at)
    then ltb (env.get_time b.created_at) (env.get_time a.created_at)
    else if not (a.role == b.role)
    then not (a.role == Role.user)
    else env.locale_after a.id b.id

unfoldable pub sort_messages : Platform → List AskMessage → List AskMessage
unfolding message_after sort_by
sort_messages env messages = sort_by (message_after env) messages

-- `localMessages ?? serverMessages`
unfoldable pub thread : PanelState → List AskMessage
thread p = or_default p.local_messages p.server_messages

unfoldable pub abort : PanelState → PanelState
abort p = elim p.abort_ref [ none ↦ p | some c ↦ record p { aborted = c ∷ p.aborted } ]

-- the effect that runs when the panel is mounted and when `documentId` changes
unfoldable pub on_document : PanelState → PanelState
unfolding abort
on_document p = record (abort p) {
  local_messages = none;
  error = none;
  pending_remote = false;
  persist_warning = none;
  active_citation = none;
  draft = "";
  queue = [];
  queue_ref = [];
  skip_drain = true;
  abort_ref = none;
  processing = false;
  pending_status = none;
}

-- the effect that drops the optimistic messages once the server has caught up
unfoldable pub on_server_messages : PanelState → PanelState
on_server_messages p = elim p.local_messages [
  | none ↦ p
  | some messages ↦
      if is_some p.pending_status || ltb 0 (length p.queue) || p.processing
      then p
      else if leb (length messages) (length p.server_messages)
      then record p { local_messages = none }
      else p
]

unfoldable pub activate_citation : Citation → PanelState → PanelState
activate_citation c p = record p { active_citation = c.display_number }

unfoldable pub stop_ask : PanelState → PanelState
unfolding abort
stop_ask p = abort (record p { skip_drain = false })

unfoldable pub optimistic_message : Stamp → String → AskMessage
optimistic_message stamp question = record {
  id = stamp.id;
  role = Role.user;
  content = question;
  citations = [];
  created_at = stamp.created_at;
}

-- `runAskAndDrain` up to its `await`
unfoldable pub begin_ask : Platform → Stamp → String → Bool → PanelState → PanelState
begin_ask env stamp question confirm_remote p =
    let user = optimistic_message stamp question in
    if p.processing then p else record p {
      processing = true;
      error = none;
      persist_warning = none;
      pending_remote = false;
      local_messages = some (sort_messages env (thread p ++ (user ∷ [])));
      pending_status = some PendingStatus.generating;
      abort_ref = some p.next_controller;
      next_controller = p.next_controller + 1;
      suspended =
          p.suspended ++ (record { optimistic_user = user; controller = p.next_controller } ∷ []);
      requests = p.requests ++ ((question, confirm_remote) ∷ []);
    }

-- the text that is submitted: the prompt that was picked, or the draft
unfoldable pub submitted : Option String → PanelState → String
submitted override_question p = trim (or_default override_question p.draft)

unfoldable pub submit : Platform → Stamp → Bool → Option String → PanelState → PanelState
unfolding submitted
submit env stamp confirm_remote override_question p =
    let question = submitted override_question p in
    if not (nonempty question)
    then p
    else if is_some p.pending_status || p.processing
    then record p {
      queue_ref = p.queue_ref ++ (question ∷ []);
      queue = p.queue_ref ++ (question ∷ []);
      draft = "";
    }
    else begin_ask env stamp question confirm_remote (record p { draft = "" })

-- `handleNewChat` and `handleClear`, up to their `await` and after it
unfoldable pub handle_new_chat : PanelState → PanelState
unfolding abort
handle_new_chat p = record (abort (record p { confirm_new = false; skip_drain = true })) {
  queue_ref = [];
  queue = [];
}

unfoldable pub handle_clear : PanelState → PanelState
unfolding abort
handle_clear p = record (abort (record p { confirm_clear = false; skip_drain = true })) {
  queue_ref = [];
  queue = [];
}

unfoldable pub chat_emptied : PanelState → PanelState
chat_emptied p = record p {
  local_messages = some [];
  error = none;
  persist_warning = none;
  active_citation = none;
}

-- the button of the header that starts a new chat
unfoldable pub on_new : PanelState → PanelState
unfolding handle_new_chat
on_new p =
    if ltb 0 (length (thread p)) || ltb 0 (length p.queue)
    then record p { confirm_new = true }
    else handle_new_chat p
