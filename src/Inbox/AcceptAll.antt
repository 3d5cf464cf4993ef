-- ===== src/Inbox/AcceptAll.antt =====
-- `acceptAllSuggestions` of acceptAllSuggestions.ts, and the lines of InboxWorkView.tsx that report its
-- result. The server is a parameter: a state, and what `POST` answers and does to it.
pub mod Laws
use lesspaper_ngl.Prelude.Maps
use lesspaper_ngl.Prelude.Sets
use lesspaper_ngl.Inbox.Filing.{should_accept_suggestion}
use lesspaper_ngl.Prelude.{
  Bool, List, Option, String, [], false, filter, if◌then◌else◌, nat_eq, none, not, option_eq,
  or_text, some, suc, text_eq, true, zero, ℕ, ◌++◌, ◌+◌, ◌==◌, ◌∷◌,
}
use lesspaper_ngl.Prelude.Decimal.{to_decimal}
use lesspaper_ngl.Prelude.Texts.{join, template}
use lesspaper_ngl.Types.Document.{Document}
use lesspaper_ngl.Types.Job.{Suggestion}

-- `byDoc`: the suggestions of each document, the documents in the order of their first suggestion
abbrev pub Groups : Type 0
Groups = List (String × List Suggestion)

unfoldable pub push_group : Suggestion → Groups → Groups
push_group s [] = (s.document_id, s ∷ []) ∷ []
push_group s ((k, rows) ∷ groups) =
    let rest = push_group s groups in
    if k == s.document_id then (k, rows ++ s ∷ []) ∷ groups else (k, rows) ∷ rest

unfoldable pub group_by_document : List Suggestion → Groups → Groups
group_by_document [] groups = groups
group_by_document (s ∷ rest) groups = group_by_document rest (push_group s groups)

pub record AcceptTally : Type 0 where
  pub accepted : ℕ
  pub failed : ℕ
  pub skipped : ℕ

abbrev pub no_tally : AcceptTally
no_tally = record { accepted = 0; failed = 0; skipped = 0 }

-- the suggestions of the documents in scope
unfoldable pub accept_targets : List Suggestion → List String → List Suggestion
accept_targets pending document_ids = filter (λ s. Sets.has document_ids s.document_id) pending

abbrev pub accept_url : Suggestion → String
accept_url s = template ("/api/ai/suggestions/" ∷ s.id ∷ "/accept" ∷ [])

module _ {Server : Type 0} (post : Server → String → Bool × Server) where
  abbrev counted : AcceptTally → Bool × Server → Server × AcceptTally
  counted t (true, server) = (server, record t { accepted = t.accepted + 1 })
  counted t (false, server) = (server, record t { failed = t.failed + 1 })

  unfoldable pub accept_one :
      List (String × Document) → Suggestion → Server × AcceptTally → Server × AcceptTally
  accept_one documents_by_id s (server, t) = elim (Maps.get documents_by_id s.document_id) [
    | none ↦ counted t (post server (accept_url s))
    | some doc ↦
        if not (should_accept_suggestion doc s)
        then (server, record t { skipped = t.skipped + 1 })
        else counted t (post server (accept_url s))
  ]

  unfoldable pub accept_rows :
      List (String × Document) → List Suggestion → Server × AcceptTally → Server × AcceptTally
  accept_rows documents_by_id [] st = st
  accept_rows documents_by_id (s ∷ rows) st =
      accept_rows documents_by_id rows (accept_one documents_by_id s st)

  unfoldable pub accept_groups :
      List (String × Document) → Groups → Server × AcceptTally → Server × AcceptTally
  accept_groups documents_by_id [] st = st
  accept_groups documents_by_id ((_, rows) ∷ groups) st =
      accept_groups documents_by_id groups (accept_rows documents_by_id rows st)

  unfoldable pub accept_all_suggestions :
      List Suggestion → List String → List (String × Document) → Server → Server × AcceptTally
  accept_all_suggestions pending document_ids documents_by_id server =
      accept_groups documents_by_id (group_by_document (accept_targets pending document_ids) [])
        (server, no_tally)

-- `parts.filter(Boolean)`
unfoldable pub kept_parts : List (Option String) → List String
kept_parts [] = []
kept_parts (none ∷ parts) = kept_parts parts
kept_parts (some part ∷ parts) = part ∷ kept_parts parts

abbrev pub counted_part : ℕ → String → String → Option String
counted_part zero before after = none
counted_part (suc n) before after = some (template (before ∷ to_decimal (suc n) ∷ after ∷ []))

-- `n === 1 ? "" : "s"`
abbrev pub plural : ℕ → String
plural n = if n == 1 then "" else "s"

unfoldable pub accept_message : AcceptTally → String
accept_message t =
    or_text
      (join " · " (
        kept_parts (
          counted_part t.accepted "Accepted " (template (" suggestion" ∷ plural t.accepted ∷ []))
          ∷ counted_part t.skipped "" " skipped (already edited)"
          ∷ counted_part t.failed "" " failed"
          ∷ [])))
      "No suggestions accepted"
