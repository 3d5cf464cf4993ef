-- ===== src/Ask/Panel/Messages.antt =====
-- The messages of the thread: their order, and what a question leaves among them once it has ended:
-- DocumentAskPanel.tsx.
use lesspaper_ngl.Ask.Panel.{Platform}
use lesspaper_ngl.Ask.Panel.Finish.{AskOutcome, citation_snapshots}
use lesspaper_ngl.Prelude.{Bool, false, nat_eq, none, option_eq, some, text_eq, true}
use lesspaper_ngl.Types.Ask.{AskMessage, AskResponse, Role, role_eq}

abbrev pub is_answered : AskOutcome → Bool
is_answered (AskOutcome.answered result) = true
is_answered _ = false

-- the question, under the identifier that the server gave it, if it gave one
abbrev pub asked_question : AskMessage → AskResponse → AskMessage
asked_question question result = record {
  id = elim result.user_message_id [ none ↦ question.id | some id ↦ id ];
  role = question.role;
  content = question.content;
  citations = question.citations;
  created_at = question.created_at;
}

-- the text of the answer, with its citations, under the identifier that the server gave it, if it gave
-- one
abbrev pub given_answer : Platform → AskMessage → AskResponse → AskMessage
given_answer env question result = record {
  id = elim result.assistant_message_id [ none ↦ env.temp_assistant_id | some id ↦ id ];
  role = Role.assistant;
  content = result.answer;
  citations = citation_snapshots 0 result.citations;
  created_at = env.later question.created_at;
}
