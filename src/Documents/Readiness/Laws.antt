-- ===== src/Documents/Readiness/Laws.antt =====
-- What the readiness of a document says of it, and what the summary of a scope counts.
use lesspaper_ngl.Documents.Readiness.{
  RetrievalReadiness, ScopeReadinessSummary, can_ask_document, count_document, count_documents,
  document_needs_processing_poll, get_embedding_progress, get_retrieval_readiness,
  is_embedding_in_progress, is_unprocessed_document, summarize_scope_readiness,
}
use lesspaper_ngl.Prelude.{
  List, String, [], arith, false, length, or_default, some, suc, true, ℕ, ◌+◌, ◌↔◌, ◌∷◌, ◌≡◌, ◌≤◌,
  ◌⊎◌,
}
use lesspaper_ngl.Prelude.Floats.{Floats, percent_self}
use lesspaper_ngl.Types.Document.{Document, ProcessingStatus}

-- A document that is not unprocessed has text, is indexed and filed, and its processing has ended
-- well; it is ready for semantic search exactly if it has embeddings and no chunk failed.
processed_document :
    (doc : Document)
    → is_unprocessed_document doc ≡ false
    → (doc.text_extracted ≡ true)
      × (doc.document_indexed ≡ true)
      × (doc.inbox ≡ false)
      × (doc.processing_status ≡ ProcessingStatus.ready)
      × ((get_retrieval_readiness doc ≡ RetrievalReadiness.semantic_ready)
          ↔ ((doc.has_embeddings ≡ true) × (or_default doc.chunks_failed 0 ≡ 0)))
unfolding is_unprocessed_document
processed_document doc h = ground arith

-- The page polls for exactly the filed documents with text that are still to be indexed, or whose
-- embedding is running: no other document makes it poll.
poll_iff :
    (doc : Document)
    → (document_needs_processing_poll doc ≡ true) ↔ (
        (doc.processing_status ≡ ProcessingStatus.ready)
        × (doc.text_extracted ≡ true)
        × (doc.inbox ≡ false)
        × ((doc.document_indexed ≡ false) ⊎ (is_embedding_in_progress doc ≡ true)))
unfolding document_needs_processing_poll
poll_iff doc = ground arith

-- A document counted as searchable can be asked about.
can_ask_of_readiness :
    (doc : Document)
    → (get_retrieval_readiness doc ≡ RetrievalReadiness.semantic_ready)
      ⊎ (get_retrieval_readiness doc ≡ RetrievalReadiness.keyword_ready)
      ⊎ (get_retrieval_readiness doc ≡ RetrievalReadiness.embedding)
    → can_ask_document doc ≡ true
unfolding get_retrieval_readiness can_ask_document
can_ask_of_readiness doc h = ground arith

pub record IsCounted (s : ScopeReadinessSummary) (n : ℕ) : Type 0 where
  pub parts : s.keyword_ready + s.semantic_ready + s.unavailable ≡ n
  pub ask_bound : s.ask_ready ≤ n
  pub searchable : s.keyword_ready + s.semantic_ready ≤ s.ask_ready

count_document-IsCounted :
    (doc : Document) (s : ScopeReadinessSummary) (n : ℕ)
    → IsCounted s n
    → IsCounted (count_document doc s) (suc n)
unfolding count_document
count_document-IsCounted doc s n c = ground (arith, can_ask_of_readiness doc)

count_documents-IsCounted :
    (docs : List Document) (s : ScopeReadinessSummary) (n : ℕ)
    → IsCounted s n
    → IsCounted (count_documents docs s) (length docs + n)
unfolding count_documents
count_documents-IsCounted [] s n c = omega arith
count_documents-IsCounted (doc ∷ docs) s n c = omega (
  arith,
  count_documents-IsCounted docs (count_document doc s) (suc n)
      (count_document-IsCounted doc s n c),
)

abbrev blank : List Document → String → ScopeReadinessSummary
blank docs label = record {
  total = length docs;
  ask_ready = 0;
  keyword_ready = 0;
  semantic_ready = 0;
  unavailable = 0;
  label = label;
}

-- The three counters of a scope add up to the number of its documents; every document that counts as
-- searchable counts as one that can be asked about.
summarize_scope_readiness-IsCounted :
    (docs : List Document) (label : String)
    → IsCounted (summarize_scope_readiness docs label) (length docs)
unfolding summarize_scope_readiness
summarize_scope_readiness-IsCounted docs label =
    omega (arith, count_documents-IsCounted docs (blank docs label) 0 (omega arith))

-- The percentage of an embedding is at most 100, and is 100 once every chunk is embedded.
embedding_percent :
    (fl : Floats) (doc : Document) (p : ℕ)
    → (get_embedding_progress fl doc).percent ≡ some p
    → (p ≤ 100) × (doc.chunks_embedded ≡ doc.chunks_total → p ≡ 100)
unfolding get_embedding_progress
embedding_percent fl doc p h = ground (arith, percent_self fl (or_default doc.chunks_total 0))
