-- ===== src/Inbox/AcceptAll/Laws.antt =====
-- Accepting all suggestions treats each one in scope once, in order within its document, and sends only
-- those that the filter lets through.
use lesspaper_ngl.Prelude.Maps
use lesspaper_ngl.Prelude.Sets
use lesspaper_ngl.Inbox.AcceptAll.{
  AcceptTally, Groups, accept_all_suggestions, accept_groups, accept_one, accept_rows,
  accept_targets, accept_url, group_by_document, no_tally, push_group,
}
use lesspaper_ngl.Inbox.Filing.{should_accept_suggestion}
use lesspaper_ngl.Prelude.{
  Bool, Bool-cases, In, In-append, In-filter, List, String, [], arith, filter, if◌then◌else◌, inl,
  inr, length, none, not, refl, some, true, ℕ, ◌++◌, ◌+◌, ◌∷◌, ◌≡◌, ◌⊎◌,
}
use lesspaper_ngl.Types.Document.{Document}
use lesspaper_ngl.Types.Job.{Suggestion}

unfoldable pub flatten : Groups → List Suggestion
flatten [] = []
flatten ((_, rows) ∷ groups) = rows ++ flatten groups

-- what the filter says where the document is known; the suggestions of others are sent
abbrev pub is_sent : List (String × Document) → Suggestion → Bool
is_sent docs s = elim (Maps.get docs s.document_id) [
  | none ↦ true
  | some doc ↦ should_accept_suggestion doc s
]

abbrev pub count : (Suggestion → Bool) → List Suggestion → ℕ
count p ss = length (filter p ss)

count-append :
    (p : Suggestion → Bool) (xs ys : List Suggestion) → count p (xs ++ ys) ≡ count p xs + count p ys
count-append p [] ys = omega arith
count-append p (x ∷ xs) ys = ground (arith, count-append p xs ys)

count-push_group :
    (p : Suggestion → Bool) (s : Suggestion) (g : Groups)
    → count p (flatten (push_group s g)) ≡ count p (s ∷ []) + count p (flatten g)
unfolding push_group flatten
count-push_group p s [] = ground arith
count-push_group p s ((k, rows) ∷ g) = ground (
  arith,
  count-push_group p s g,
  count-append p rows (flatten g),
  count-append p (rows ++ s ∷ []) (flatten g),
  count-append p rows (s ∷ []),
  count-append p rows (flatten (push_group s g)),
)

count-group_by_document :
    (p : Suggestion → Bool) (ss : List Suggestion) (g : Groups)
    → count p (flatten (group_by_document ss g)) ≡ count p ss + count p (flatten g)
unfolding group_by_document
count-group_by_document p [] g = omega arith
count-group_by_document p (s ∷ ss) g =
    ground (arith, count-group_by_document p ss (push_group s g), count-push_group p s g)

In-push_group :
    (a s : Suggestion) (g : Groups) → In a (flatten (push_group s g)) → (a ≡ s) ⊎ In a (flatten g)
unfolding push_group flatten
In-push_group a s [] m = ground arith
In-push_group a s ((k, rows) ∷ g) m = ground (
  arith,
  In-push_group a s g,
  In-append a rows (flatten g),
  In-append a (rows ++ s ∷ []) (flatten g),
  In-append a rows (s ∷ []),
  In-append a rows (flatten (push_group s g)),
)

In-group_by_document :
    (a : Suggestion) (ss : List Suggestion) (g : Groups)
    → In a (flatten (group_by_document ss g))
    → In a ss ⊎ In a (flatten g)
unfolding group_by_document
In-group_by_document a [] g m = ground arith
In-group_by_document a (s ∷ ss) g m =
    ground (arith, In-group_by_document a ss (push_group s g), In-push_group a s g)

In-targets :
    (s : Suggestion) (pending : List Suggestion) (ids : List String)
    → In s (flatten (group_by_document (accept_targets pending ids) []))
    → In s (accept_targets pending ids)
unfolding flatten
In-targets s pending ids m =
    ground (arith, In-group_by_document s (accept_targets pending ids) [] m)

module _ {Server : Type 0} (post : Server → String → Bool × Server)
    (docs : List (String × Document)) where
  record IsTallied (ss : List Suggestion) (t u : AcceptTally) : Type 0 where
    sent : u.accepted + u.failed ≡ t.accepted + t.failed + count (is_sent docs) ss
    kept : u.skipped ≡ t.skipped + count (λ s. not (is_sent docs s)) ss

  IsTallied-append :
      (xs ys : List Suggestion) (t u v : AcceptTally)
      → IsTallied xs t u
      → IsTallied ys u v
      → IsTallied (xs ++ ys) t v
  IsTallied-append xs ys t u v h k =
      ground
        (arith, count-append (is_sent docs) xs ys, count-append (λ s. not (is_sent docs s)) xs ys)

  accept_one-IsTallied :
      (s : Suggestion) (st : Server × AcceptTally)
      → IsTallied (s ∷ []) st.1 (accept_one post docs s st).1
  unfolding accept_one
  accept_one-IsTallied s st = ground arith

  accept_rows-IsTallied :
      (rows : List Suggestion) (st : Server × AcceptTally)
      → IsTallied rows st.1 (accept_rows post docs rows st).1
  unfolding accept_rows
  accept_rows-IsTallied [] st = ground arith
  accept_rows-IsTallied (s ∷ rows) st =
      IsTallied-append (s ∷ []) rows _ _ _ (accept_one-IsTallied s st)
        (accept_rows-IsTallied rows (accept_one post docs s st))

  accept_groups-IsTallied :
      (g : Groups) (st : Server × AcceptTally)
      → IsTallied (flatten g) st.1 (accept_groups post docs g st).1
  unfolding accept_groups flatten
  accept_groups-IsTallied [] st = ground arith
  accept_groups-IsTallied ((k, rows) ∷ g) st =
      IsTallied-append rows (flatten g) _ _ _ (accept_rows-IsTallied rows st)
        (accept_groups-IsTallied g (accept_rows post docs rows st))

  -- Each suggestion in scope is counted once: as skipped exactly if its document is known and the
  -- filter refuses it, else as accepted or failed.
  pub accept_all_suggestions-counts :
      (pending : List Suggestion) (ids : List String) (server : Server)
      → ((accept_all_suggestions post pending ids docs server).1.accepted
            + (accept_all_suggestions post pending ids docs server).1.failed
          ≡ count (is_sent docs) (accept_targets pending ids))
        × ((accept_all_suggestions post pending ids docs server).1.skipped
            ≡ count (λ s. not (is_sent docs s)) (accept_targets pending ids))
  unfolding accept_all_suggestions flatten
  accept_all_suggestions-counts pending ids server =
      let targets = accept_targets pending ids in
      let tallied = accept_groups-IsTallied (group_by_document targets []) (server, no_tally) in
      let sent = count-group_by_document (is_sent docs) targets [] in
      let kept = count-group_by_document (λ s. not (is_sent docs s)) targets [] in
      (omega (arith, tallied.sent, sent), omega (arith, tallied.kept, kept))

  accept_one-server :
      (s : Suggestion) (v : Server) (t : AcceptTally)
      → (accept_one post docs s (v, t)).0
        ≡ (if is_sent docs s then (post v (accept_url s)).1 else v)
  unfolding accept_one
  accept_one-server s v t = ground arith

  module _ (P : Server → Type 0) where
    -- what a list of suggestions asks of the server: that each that is sent keeps `P`
    abbrev Keeps : List Suggestion → Type 0
    Keeps ss =
        (s : Suggestion)
        → In s ss
        → is_sent docs s ≡ true
        → (v : Server) → P v
        → P (post v (accept_url s)).1

    accept_one-keeps :
        (s : Suggestion) (v : Server) (t : AcceptTally)
        → Keeps (s ∷ [])
        → P v
        → P (accept_one post docs s (v, t)).0
    accept_one-keeps s v t keeps h =
        rw (accept_one-server s v t) (elim (Bool-cases (is_sent docs s)) [
          | inl on ↦ rw on (keeps s (inl refl) on v h)
          | inr off ↦ rw off h
        ])

    accept_rows-keeps :
        (rows : List Suggestion) (st : Server × AcceptTally)
        → Keeps rows
        → P st.0
        → P (accept_rows post docs rows st).0
    unfolding accept_rows
    accept_rows-keeps [] st keeps h = h
    accept_rows-keeps (s ∷ rows) st keeps h =
        accept_rows-keeps rows (accept_one post docs s st) (λ a m. keeps a (inr m))
          (accept_one-keeps s st.0 st.1 (λ a m. keeps a (ground arith)) h)

    accept_groups-keeps :
        (g : Groups) (st : Server × AcceptTally)
        → Keeps (flatten g)
        → P st.0
        → P (accept_groups post docs g st).0
    unfolding accept_groups flatten
    accept_groups-keeps [] st keeps h = h
    accept_groups-keeps ((k, rows) ∷ g) st keeps h =
        accept_groups-keeps g (accept_rows post docs rows st)
          (λ a m. keeps a ((In-append a rows (flatten g)).1 (inr m)))
          (accept_rows-keeps rows st (λ a m. keeps a ((In-append a rows (flatten g)).1 (inl m))) h)

    -- What every request for a suggestion in scope that the filter lets through keeps true of the
    -- server, the whole run keeps true: it sends no other request.
    pub accept_all_suggestions-keeps :
        (pending : List Suggestion) (ids : List String) (server : Server)
        → ((s : Suggestion)
            → In s pending
            → Sets.has ids s.document_id ≡ true
            → is_sent docs s ≡ true
            → (v : Server) → P v
            → P (post v (accept_url s)).1)
        → P server
        → P (accept_all_suggestions post pending ids docs server).0
    unfolding accept_all_suggestions accept_targets
    accept_all_suggestions-keeps pending ids server keeps h =
        accept_groups-keeps (group_by_document (accept_targets pending ids) []) (server, no_tally)
          (λ s m on.
            let (i, scope) =
              (In-filter (λ t. Sets.has ids t.document_id) s pending).0
                (In-targets s pending ids m) in
            keeps s i scope on)
          h
