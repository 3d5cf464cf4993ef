-- ===== src/Documents/Readiness/Info.antt =====
-- What the page says of a document's readiness: `INFO` and `getReadinessInfo` of retrievalReadiness.ts.
-- `toLocaleString` on numbers is a parameter.
use lesspaper_ngl.Documents.Readiness.{
  EmbeddingProgress, RetrievalReadiness, get_embedding_progress, get_retrieval_readiness,
  retrieval_readiness_eq,
}
use lesspaper_ngl.Prelude.{
  String, [], arith, if◌then◌else◌, ltb, nat_eq, none, option_eq, some, text_eq, ℕ, ◌==◌, ◌↔◌, ◌∷◌,
  ◌≡◌, ◌⊎◌,
}
use lesspaper_ngl.Prelude.Decimal.{to_decimal}
use lesspaper_ngl.Prelude.Floats.{Floats, percent}
use lesspaper_ngl.Prelude.Texts.{template}
use lesspaper_ngl.Types.Document.{Document}

pub data Tone : Type 0 where
  muted warning danger accent success : Tone

pub record ReadinessInfo : Type 0 where
  pub key : RetrievalReadiness
  pub label : String
  pub description : String
  pub tone : Tone

unfoldable pub info_of : RetrievalReadiness → ReadinessInfo
info_of RetrievalReadiness.preparing = record {
  key = RetrievalReadiness.preparing;
  label = "Preparing";
  description = "Text extraction or OCR is still running.";
  tone = Tone.muted;
}
info_of RetrievalReadiness.review_required = record {
  key = RetrievalReadiness.review_required;
  label = "Needs review";
  description = "Inbox metadata needs confirmation before processing.";
  tone = Tone.warning;
}
info_of RetrievalReadiness.ready_to_process = record {
  key = RetrievalReadiness.ready_to_process;
  label = "Ready to process";
  description = "Preflight is complete. Process from Inbox to index for RAG.";
  tone = Tone.accent;
}
info_of RetrievalReadiness.indexing = record {
  key = RetrievalReadiness.indexing;
  label = "Indexing";
  description = "Final chunk indexing has not finished yet.";
  tone = Tone.muted;
}
info_of RetrievalReadiness.embedding = record {
  key = RetrievalReadiness.embedding;
  label = "Embedding";
  description = "Chunks are indexed; semantic embeddings are still running.";
  tone = Tone.muted;
}
info_of RetrievalReadiness.keyword_ready = record {
  key = RetrievalReadiness.keyword_ready;
  label = "Keyword ready";
  description = "Indexed for keyword retrieval. Semantic embeddings are not available yet.";
  tone = Tone.accent;
}
info_of RetrievalReadiness.semantic_ready = record {
  key = RetrievalReadiness.semantic_ready;
  label = "Semantic ready";
  description = "Indexed and embedded for hybrid keyword + semantic retrieval.";
  tone = Tone.success;
}
info_of RetrievalReadiness.failed = record {
  key = RetrievalReadiness.failed;
  label = "Failed";
  description = "Processing failed. Retry from Inbox or Jobs.";
  tone = Tone.danger;
}
info_of RetrievalReadiness.partial = record {
  key = RetrievalReadiness.partial;
  label = "Partial";
  description = "Processing completed with gaps. Some chunks may lack embeddings.";
  tone = Tone.warning;
}

module _ (to_locale_string : ℕ → String) where
  unfoldable pub embedding_info : EmbeddingProgress → ReadinessInfo
  embedding_info progress = elim progress.percent [
    | none ↦ info_of RetrievalReadiness.embedding
    | some percent ↦
        if ltb 0 progress.total
        then record (info_of RetrievalReadiness.embedding) {
          label = template ("Embedding " ∷ to_decimal percent ∷ "%" ∷ []);
          description = template (
              "Embedded "
              ∷ to_locale_string progress.embedded
              ∷ " of "
              ∷ to_locale_string progress.total
              ∷ " chunks."
              ∷ []);
        }
        else info_of RetrievalReadiness.embedding
  ]

  unfoldable pub get_readiness_info : Floats → Document → ReadinessInfo
  get_readiness_info fl doc =
      let key = get_retrieval_readiness doc in
      if key == RetrievalReadiness.embedding
      then embedding_info (get_embedding_progress fl doc)
      else info_of key

  -- The key of what is shown is the readiness of the document, and its tone is a warning, or one of
  -- danger, exactly where the document needs a review, has failed or has gaps.
  get_readiness_info-key :
      (fl : Floats) (doc : Document)
      → ((get_readiness_info fl doc).key ≡ get_retrieval_readiness doc)
        × (((get_readiness_info fl doc).tone ≡ Tone.danger)
            ↔ (get_retrieval_readiness doc ≡ RetrievalReadiness.failed))
        × (((get_readiness_info fl doc).tone ≡ Tone.warning) ↔ (
            (get_retrieval_readiness doc ≡ RetrievalReadiness.review_required)
            ⊎ (get_retrieval_readiness doc ≡ RetrievalReadiness.partial)))
  unfolding get_readiness_info embedding_info info_of
  get_readiness_info-key fl doc = ground arith
