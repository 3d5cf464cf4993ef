-- ===== src/Folders/Examples.antt =====
-- The theorems of the folder tree at concrete folders.
use lesspaper_ngl.Prelude.Maps
use lesspaper_ngl.Prelude.Sets
use lesspaper_ngl.Folders.Breadcrumbs.{
  Crumb, build_folder_breadcrumbs, folder_crumb, folders_by_id, parent_of, root_crumb,
}
use lesspaper_ngl.Folders.Breadcrumbs.Chain.{
  Lineage, build_folder_breadcrumbs-Lineage, build_folder_breadcrumbs_returns,
}
use lesspaper_ngl.Folders.Descendants.{Outcome, collect_folder_and_descendant_ids, destinations}
use lesspaper_ngl.Folders.Descendants.Correct.{Below, Offered, collect_correct, destinations_safe}
use lesspaper_ngl.Folders.Tree.{build_tree, children_at}
use lesspaper_ngl.Folders.Tree.Correct.{
  MayStandBefore, build_tree_correct, is_below, is_on_top, latest,
}
use lesspaper_ngl.Prelude.{
  Bool, In, List, String, [], arith, filter, length, ltb, map, nat_eq, none, option_eq, refl, some,
  text_eq, true, ◌==◌, ◌↔◌, ◌∷◌, ◌≡◌,
}
use lesspaper_ngl.Prelude.Sorting.{IsPairwise}
use lesspaper_ngl.Prelude.Texts.{text_length}
use lesspaper_ngl.Types.Folder.{Folder, FolderKind, folder_kind_eq}
use lesspaper_ngl.Types.Samples.{sample_folder}

abbrev tree : List Folder
tree =
    sample_folder "r" none FolderKind.root
    ∷ sample_folder "a" (some "r") FolderKind.normal
    ∷ sample_folder "b" (some "a") FolderKind.normal
    ∷ []

-- two folders, each the parent of the other
abbrev cycle : List Folder
cycle =
    sample_folder "a" (some "b") FolderKind.normal
    ∷ sample_folder "b" (some "a") FolderKind.normal
    ∷ []

collect_correct_example :
    (excluded : List String) × (collect_folder_and_descendant_ids cycle "a" ≡ Outcome.done excluded)
    × ((v : String) → (Sets.has excluded v ≡ true) ↔ Below cycle "a" v)
collect_correct_example = collect_correct cycle "a"

abbrev folder_a : Folder
folder_a = sample_folder "a" (some "r") FolderKind.normal

destinations_safe_example :
    In folder_a (destinations ("b" ∷ []) true tree)
    ↔ (In folder_a tree × (¬ Below tree "b" "a") × Offered true FolderKind.normal)
unfolding collect_folder_and_descendant_ids
destinations_safe_example = destinations_safe tree "b" ("b" ∷ []) true folder_a refl

build_folder_breadcrumbs_returns_example :
    (crumbs : List Crumb) × (build_folder_breadcrumbs (some "a") cycle ≡ some crumbs)
build_folder_breadcrumbs_returns_example = build_folder_breadcrumbs_returns (some "a") cycle

tree-Lineage : Lineage tree (some (sample_folder "b" (some "a") FolderKind.normal)) (
    sample_folder "b" (some "a") FolderKind.normal
    ∷ folder_a
    ∷ sample_folder "r" none FolderKind.root
    ∷ [])
unfolding parent_of folders_by_id
tree-Lineage = Lineage.up (Lineage.up (Lineage.up Lineage.top))

build_folder_breadcrumbs-Lineage_example :
    build_folder_breadcrumbs (some "b") tree
    ≡ some (
        root_crumb
        ∷ folder_crumb folder_a
        ∷ folder_crumb (sample_folder "b" (some "a") FolderKind.normal)
        ∷ [])
unfolding folders_by_id Maps.get
build_folder_breadcrumbs-Lineage_example =
    build_folder_breadcrumbs-Lineage "b" tree (sample_folder "b" (some "a") FolderKind.normal)
      (sample_folder "b" (some "a") FolderKind.normal
        ∷ folder_a
        ∷ sample_folder "r" none FolderKind.root
        ∷ [])
      refl refl tree-Lineage ((refl, (refl, tt)), ((refl, tt), (tt, tt)))

-- by the length of the names
abbrev name_after : String → String → Bool
name_after a b = ltb (text_length b) (text_length a)

-- a root with two folders, and a folder whose parent is not in the list
abbrev wide : List Folder
wide =
    sample_folder "r" none FolderKind.root
    ∷ record (sample_folder "a" (some "r") FolderKind.normal) { name = "Receipts" }
    ∷ record (sample_folder "b" (some "r") FolderKind.normal) { name = "Bills" }
    ∷ sample_folder "c" (some "gone") FolderKind.normal
    ∷ []

build_tree_correct_example :
    let built = build_tree name_after wide in
    let count = λ (fs : List Folder). length (filter (λ f. f.name == "Bills") fs) in
    (count (children_at built.children "r")
      ≡ count (map (latest wide) (filter (is_below wide "r") wide)))
    × (count built.roots ≡ count (map (latest wide) (filter (is_on_top wide) wide)))
    × IsPairwise (MayStandBefore name_after) (children_at built.children "r")
    × IsPairwise (MayStandBefore name_after) built.roots
build_tree_correct_example =
    build_tree_correct name_after (λ a b h. ground (arith, h)) (λ a b c h k. ground (arith, h, k))
      wide "r" (λ f. f.name == "Bills")
