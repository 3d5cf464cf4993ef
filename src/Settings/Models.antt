-- ===== src/Settings/Models.antt =====
-- Choosing a model for a task of the AI, and the tabs of its settings: AssignmentDialog.tsx and
-- workloadCopy.ts. `localeCompare`, the change of case of a text and the names that every JavaScript
-- object inherits are parameters.
use lesspaper_ngl.Prelude.Maps
use lesspaper_ngl.Prelude.{
  Bool, Eq, In, List, Option, String, [], any, arith, false, filter, find, if◌then◌else◌, ltb,
  nat_eq, none, nonempty, nonempty_option, not, option_eq, some, text_eq, true, ℕ, ◌==◌, ◌↔◌, ◌∷◌,
  ◌≡◌,
}
use lesspaper_ngl.Prelude.Sorting.{
  In-sort_by, IsPairwise, IsPairwise-mono, sort_by, sort_by-IsPairwise,
}
use lesspaper_ngl.Prelude.Texts.{includes, trim}

pub data WorkloadRole : Type 0 where
  indexing embedding chat vision : WorkloadRole

abbrev workload_role_beq : WorkloadRole → WorkloadRole → Bool
workload_role_beq WorkloadRole.indexing WorkloadRole.indexing = true
workload_role_beq WorkloadRole.embedding WorkloadRole.embedding = true
workload_role_beq WorkloadRole.chat WorkloadRole.chat = true
workload_role_beq WorkloadRole.vision WorkloadRole.vision = true
workload_role_beq _ _ = false

instance abbrev pub workload_role_eq : Eq WorkloadRole
workload_role_eq = record { beq = workload_role_beq }

pub data ModelKind : Type 0 where
  embedding_model chat_model other_model : ModelKind

pub record DiscoveredModel : Type 0 where
  pub id : String
  pub kind : ModelKind

unfoldable pub kind_rank : ModelKind → WorkloadRole → ℕ
kind_rank kind role =
    if role == WorkloadRole.embedding
    then elim kind [
      | ModelKind.embedding_model ↦ 0
      | ModelKind.other_model ↦ 1
      | ModelKind.chat_model ↦ 2
    ]
    else elim kind [
      | ModelKind.chat_model ↦ 0
      | ModelKind.other_model ↦ 1
      | ModelKind.embedding_model ↦ 2
    ]

unfoldable pub kind_label : ModelKind → String
kind_label ModelKind.embedding_model = "Embedding"
kind_label ModelKind.chat_model = "Chat"
kind_label ModelKind.other_model = "Other"

unfoldable pub role_recommendation : WorkloadRole → String
role_recommendation WorkloadRole.embedding =
    "Prefer models marked Embedding. Chat models usually cannot produce vectors."
role_recommendation WorkloadRole.chat =
    "Prefer models marked Chat. Embedding models are ranked lower for Ask AI."
role_recommendation _ =
    "Prefer models marked Chat for filing suggestions. Embedding models are ranked lower."

module _ (locale_after : String → String → Bool) where
  -- The comparison of `rankDiscoveredModels` is positive.
  unfoldable pub model_after : WorkloadRole → DiscoveredModel → DiscoveredModel → Bool
  model_after role a b =
      if kind_rank a.kind role == kind_rank b.kind role
      then locale_after a.id b.id
      else ltb (kind_rank b.kind role) (kind_rank a.kind role)

  unfoldable pub rank_discovered_models : List DiscoveredModel → WorkloadRole → List DiscoveredModel
  unfolding model_after sort_by
  rank_discovered_models models role = sort_by (model_after role) models

-- `matchingModels`: the ranked models that the search finds, and the chosen one first if it is not
-- among them
unfoldable pub matching_models :
    (String → String) → String → String → List DiscoveredModel → List DiscoveredModel
matching_models to_lower model model_search ranked =
    let query_text = to_lower (trim model_search) in
    let matches =
      if nonempty query_text
      then filter (λ m. includes (to_lower m.id) query_text) ranked
      else ranked in
    elim (find (λ m. m.id == model) ranked) [
      | none ↦ matches
      | some chosen ↦ if any (λ m. m.id == chosen.id) matches then matches else chosen ∷ matches
    ]

-- what `save` sends: the provider and the model, null as `none`
unfoldable pub saved_assignment : String → String → Option String × Option String
saved_assignment provider_id model = (
  nonempty_option (some provider_id),
  if nonempty provider_id then nonempty_option (some (trim model)) else none,
)

pub data AiSettingsTab : Type 0 where
  usage models controls : AiSettingsTab

-- what `resolveAiSettingsTab` returns: a tab, or what an object inherits under a name
pub data Resolved : Type 0 where
  tab : AiSettingsTab → Resolved
  inherited_value : String → Resolved

abbrev tab_names : List (String × AiSettingsTab)
tab_names =
    ("usage", AiSettingsTab.usage)
    ∷ ("models", AiSettingsTab.models)
    ∷ ("controls", AiSettingsTab.controls)
    ∷ []

abbrev legacy_tab_aliases : List (String × AiSettingsTab)
legacy_tab_aliases =
    ("providers", AiSettingsTab.models)
    ∷ ("policy", AiSettingsTab.controls)
    ∷ ("advanced", AiSettingsTab.controls)
    ∷ []

-- `raw in LEGACY_TAB_ALIASES` holds for the names that every object inherits too.
unfoldable pub resolve_ai_settings_tab : (String → Bool) → Option String → Resolved
unfolding Maps.get
resolve_ai_settings_tab is_inherited none = Resolved.tab AiSettingsTab.usage
resolve_ai_settings_tab is_inherited (some raw) =
    if not (nonempty raw) then Resolved.tab AiSettingsTab.usage else elim (Maps.get tab_names raw) [
      | some t ↦ Resolved.tab t
      | none ↦ elim (Maps.get legacy_tab_aliases raw) [
        | some t ↦ Resolved.tab t
        | none ↦
            if is_inherited raw
            then Resolved.inherited_value raw
            else Resolved.tab AiSettingsTab.usage
      ]
    ]

model_after_asym :
    (locale_after : String → String → Bool)
    → ((a b : String) → locale_after a b ≡ true → locale_after b a ≡ false)
    → (role : WorkloadRole) (a b : DiscoveredModel) → model_after locale_after role a b ≡ true
    → model_after locale_after role b a ≡ false
unfolding model_after
model_after_asym locale_after asym role a b h = ground (arith, asym a.id b.id, h)

model_after_trans :
    (locale_after : String → String → Bool)
    → ((a b c : String)
        → locale_after a b ≡ false
        → locale_after b c ≡ false
        → locale_after a c ≡ false)
    → (role : WorkloadRole) (a b c : DiscoveredModel) → model_after locale_after role a b ≡ false
    → model_after locale_after role b c ≡ false
    → model_after locale_after role a c ≡ false
unfolding model_after
model_after_trans locale_after trans role a b c h k = ground (arith, trans a.id b.id c.id, h, k)

-- A model of the first kind suits the task better than one of the second: for embedding an embedding
-- model suits best and a chat model least, and for the other tasks it is the other way round.
abbrev pub suits_better : WorkloadRole → ModelKind → ModelKind → Bool
suits_better WorkloadRole.embedding ModelKind.embedding_model ModelKind.other_model = true
suits_better WorkloadRole.embedding ModelKind.embedding_model ModelKind.chat_model = true
suits_better WorkloadRole.embedding ModelKind.other_model ModelKind.chat_model = true
suits_better WorkloadRole.embedding _ _ = false
suits_better _ ModelKind.chat_model ModelKind.other_model = true
suits_better _ ModelKind.chat_model ModelKind.embedding_model = true
suits_better _ ModelKind.other_model ModelKind.embedding_model = true
suits_better _ _ _ = false

-- `a` may stand before `b`
abbrev pub MayPrecede :
    (String → String → Bool) → WorkloadRole → DiscoveredModel → DiscoveredModel → Type 0
MayPrecede locale_after role a b =
    (suits_better role b.kind a.kind ≡ false) × (a.kind ≡ b.kind → locale_after a.id b.id ≡ false)

ranked_suits :
    (locale_after : String → String → Bool) (role : WorkloadRole) (a b : DiscoveredModel)
    → model_after locale_after role a b ≡ false
    → MayPrecede locale_after role a b
unfolding model_after kind_rank
ranked_suits locale_after role a b h = ground (arith, h)

-- If `localeCompare` orders the names: the ranked models are those that were found, and no model stands
-- anywhere before one that suits the task better, nor before one of its own kind whose name comes
-- first.
pub rank_discovered_models-IsPairwise :
    (locale_after : String → String → Bool)
    (asym : (a b : String) → locale_after a b ≡ true → locale_after b a ≡ false)
    (trans : (a b c : String)
      → locale_after a b ≡ false
      → locale_after b c ≡ false
      → locale_after a c ≡ false)
    (found : List DiscoveredModel) (role : WorkloadRole) (m : DiscoveredModel)
    → IsPairwise (MayPrecede locale_after role) (rank_discovered_models locale_after found role)
      × (In m (rank_discovered_models locale_after found role) ↔ In m found)
unfolding rank_discovered_models
rank_discovered_models-IsPairwise locale_after asym trans found role m =
    let after = model_after locale_after role in
    (
      IsPairwise-mono (λ a b. after a b ≡ false) (MayPrecede locale_after role)
          (sort_by after found) (ranked_suits locale_after role)
          (sort_by-IsPairwise after (model_after_asym locale_after asym role)
            (model_after_trans locale_after trans role) found),
      In-sort_by after m found,
    )
