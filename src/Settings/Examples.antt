-- ===== src/Settings/Examples.antt =====
-- The theorem on the ranking of models, at two of them.
use lesspaper_ngl.Prelude.{In, List, [], false, refl, ◌↔◌, ◌∷◌}
use lesspaper_ngl.Prelude.Sorting.{IsPairwise}
use lesspaper_ngl.Settings.Models.{
  DiscoveredModel, MayPrecede, ModelKind, WorkloadRole, rank_discovered_models,
  rank_discovered_models-IsPairwise,
}

abbrev found_models : List DiscoveredModel
found_models =
    record { id = "chat"; kind = ModelKind.chat_model }
    ∷ record { id = "embed"; kind = ModelKind.embedding_model }
    ∷ []

rank_discovered_models-IsPairwise_example :
    let ranked = rank_discovered_models (λ a b. false) found_models WorkloadRole.embedding in
    IsPairwise (MayPrecede (λ a b. false) WorkloadRole.embedding) ranked
    × (In (record { id = "embed"; kind = ModelKind.embedding_model }) ranked
        ↔ In (record { id = "embed"; kind = ModelKind.embedding_model }) found_models)
rank_discovered_models-IsPairwise_example =
    rank_discovered_models-IsPairwise (λ a b. false) (λ a b e. refl) (λ a b c e f. refl)
      found_models WorkloadRole.embedding
      (record { id = "embed"; kind = ModelKind.embedding_model })
