-- ===== src/Documents/Readiness.antt =====
-- retrievalReadiness.ts and scopeReadiness.ts: how far a document is on the way from the inbox to
-- search. The texts of the badges are not modelled, but for the label of a running embedding.
pub mod Laws
pub mod Info
use lesspaper_ngl.Prelude.{
  Bool, Eq, List, Option, String, [], any, false, if◌then◌else◌, is_some, length, ltb, min, nat_eq,
  none, not, option_eq, or_default, some, text_eq, true, truthy, ℕ, ◌&&◌, ◌+◌, ◌==◌, ◌||◌, ◌∷◌,
}
use lesspaper_ngl.Prelude.Floats.{Floats, percent}
use lesspaper_ngl.Types.Document.{
  Document, InboxStatus, ProcessingStatus, inbox_status_eq, processing_status_eq,
}

pub data RetrievalReadiness : Type 0 where
  preparing review_required ready_to_process indexing embedding keyword_ready semantic_ready failed
        partial :
      RetrievalReadiness

abbrev readiness_number : RetrievalReadiness → ℕ
readiness_number RetrievalReadiness.preparing = 0
readiness_number RetrievalReadiness.review_required = 1
readiness_number RetrievalReadiness.ready_to_process = 2
readiness_number RetrievalReadiness.indexing = 3
readiness_number RetrievalReadiness.embedding = 4
readiness_number RetrievalReadiness.keyword_ready = 5
readiness_number RetrievalReadiness.semantic_ready = 6
readiness_number RetrievalReadiness.failed = 7
readiness_number RetrievalReadiness.partial = 8

instance abbrev pub retrieval_readiness_eq : Eq RetrievalReadiness
retrieval_readiness_eq = record { beq = λ a b. readiness_number a == readiness_number b }

pub record EmbeddingProgress : Type 0 where
  pub total : ℕ
  pub embedded : ℕ
  pub failed : ℕ
  pub percent : Option ℕ

unfoldable pub get_embedding_progress : Floats → Document → EmbeddingProgress
get_embedding_progress fl doc =
    let total = or_default doc.chunks_total 0 in
    let embedded = or_default doc.chunks_embedded 0 in
    record {
      total = total;
      embedded = embedded;
      failed = or_default doc.chunks_failed 0;
      percent = if ltb 0 total then some (min 100 (percent fl embedded total)) else none;
    }

unfoldable pub is_embedding_in_progress : Document → Bool
is_embedding_in_progress doc =
    let total = or_default doc.chunks_total 0 in
    let embedded = or_default doc.chunks_embedded 0 in
    if not doc.document_indexed || doc.has_embeddings
    then false
    else if truthy doc.embedding_error
    then false
    else if ltb 0 total && ltb embedded total
    then true
    else ltb 0 total || is_some doc.embedding_started_at

unfoldable pub get_retrieval_readiness : Document → RetrievalReadiness
unfolding is_embedding_in_progress
get_retrieval_readiness doc =
    let chunks_failed = or_default doc.chunks_failed 0 in
    if doc.processing_status == ProcessingStatus.failed
    then RetrievalReadiness.failed
    else if doc.processing_status == ProcessingStatus.partial
    then RetrievalReadiness.partial
    else if doc.processing_status == ProcessingStatus.pending
        || doc.processing_status == ProcessingStatus.processing
        || not doc.text_extracted
    then RetrievalReadiness.preparing
    else if doc.inbox
    then (if doc.inbox_status == some InboxStatus.failed
        then RetrievalReadiness.failed
        else if doc.needs_review || doc.inbox_status == some InboxStatus.needs_review
        then RetrievalReadiness.review_required
        else if doc.inbox_status == some InboxStatus.ready
        then RetrievalReadiness.ready_to_process
        else RetrievalReadiness.preparing)
    else if not doc.document_indexed
    then RetrievalReadiness.indexing
    else if doc.has_embeddings && chunks_failed == 0
    then RetrievalReadiness.semantic_ready
    else if doc.has_embeddings && ltb 0 chunks_failed
    then RetrievalReadiness.partial
    else if is_embedding_in_progress doc
    then RetrievalReadiness.embedding
    else RetrievalReadiness.keyword_ready

unfoldable pub is_unprocessed_document : Document → Bool
unfolding get_retrieval_readiness
is_unprocessed_document doc =
    let readiness = get_retrieval_readiness doc in
    readiness == RetrievalReadiness.preparing
    || readiness == RetrievalReadiness.review_required
    || readiness == RetrievalReadiness.ready_to_process
    || readiness == RetrievalReadiness.indexing
    || readiness == RetrievalReadiness.embedding
    || readiness == RetrievalReadiness.failed
    || readiness == RetrievalReadiness.partial

unfoldable pub can_ask_document : Document → Bool
can_ask_document doc = doc.document_indexed || doc.has_embeddings

unfoldable pub document_needs_processing_poll : Document → Bool
unfolding get_retrieval_readiness
document_needs_processing_poll doc =
    let readiness = get_retrieval_readiness doc in
    readiness == RetrievalReadiness.indexing || readiness == RetrievalReadiness.embedding

unfoldable pub documents_need_processing_poll : List Document → Bool
unfolding document_needs_processing_poll
documents_need_processing_poll docs = any document_needs_processing_poll docs

pub record ScopeReadinessSummary : Type 0 where
  pub total : ℕ
  pub ask_ready : ℕ
  pub keyword_ready : ℕ
  pub semantic_ready : ℕ
  pub unavailable : ℕ
  pub label : String

-- one round of the loop of `summarizeScopeReadiness`
unfoldable pub count_document : Document → ScopeReadinessSummary → ScopeReadinessSummary
unfolding can_ask_document get_retrieval_readiness
count_document doc s =
    let readiness = get_retrieval_readiness doc in
    let asked = if can_ask_document doc then s.ask_ready + 1 else s.ask_ready in
    if readiness == RetrievalReadiness.semantic_ready
    then record s { ask_ready = asked; semantic_ready = s.semantic_ready + 1 }
    else if readiness == RetrievalReadiness.keyword_ready
        || readiness == RetrievalReadiness.embedding
    then record s { ask_ready = asked; keyword_ready = s.keyword_ready + 1 }
    else record s { ask_ready = asked; unavailable = s.unavailable + 1 }

unfoldable pub count_documents : List Document → ScopeReadinessSummary → ScopeReadinessSummary
unfolding count_document
count_documents [] s = s
count_documents (doc ∷ docs) s = count_documents docs (count_document doc s)

unfoldable pub summarize_scope_readiness : List Document → String → ScopeReadinessSummary
unfolding count_documents
summarize_scope_readiness documents label = count_documents documents (record {
  total = length documents;
  ask_ready = 0;
  keyword_ready = 0;
  semantic_ready = 0;
  unavailable = 0;
  label = label;
})
