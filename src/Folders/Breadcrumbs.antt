-- ===== src/Folders/Breadcrumbs.antt =====
-- `buildFolderBreadcrumbs`: the path to a folder, by walking up from parent to parent.
pub mod Chain
use lesspaper_ngl.Prelude.Maps
use lesspaper_ngl.Prelude.Sets
use lesspaper_ngl.Prelude.{
  List, Option, String, [], if◌then◌else◌, length, map, nat_eq, none, not, option_eq, or_default,
  some, suc, text_eq, truthy, zero, ℕ, ◌!=◌, ◌++◌, ◌∷◌,
}
use lesspaper_ngl.Types.Folder.{Folder, FolderKind, folder_kind_eq}
use mathlib.Core.List.{reverse}

pub record Crumb : Type 0 where
  pub id : Option String
  pub label : String

-- `new Map(folders.map((f) => [f.id, f]))`: of two folders with one identifier the last is kept
unfoldable pub folders_by_id : List Folder → List (String × Folder) → List (String × Folder)
unfolding Maps.put
folders_by_id [] by_id = by_id
folders_by_id (f ∷ fs) by_id = folders_by_id fs (Maps.put by_id f.id f)

-- `current.parent_id ? byId.get(current.parent_id) : undefined`
unfoldable pub parent_of : List (String × Folder) → Folder → Option Folder
unfolding Maps.get
parent_of by_id f = if truthy f.parent_id then Maps.get by_id (or_default f.parent_id "") else none

pub data Walk : Type 0 where
  ended : List Folder → Walk
  out_of_fuel : Walk

-- The `while` loop, with fuel for its rounds. A root is passed over.
unfoldable pub walk_up :
    List (String × Folder) → ℕ → Option Folder → List String → List Folder → Walk
walk_up by_id fuel none seen chain = Walk.ended chain
walk_up by_id zero (some current) seen chain =
    if Sets.has seen current.id then Walk.ended chain else Walk.out_of_fuel
walk_up by_id (suc fuel) (some current) seen chain =
    let rest =
      walk_up by_id fuel (parent_of by_id current) (Sets.add seen current.id)
        (if current.kind != FolderKind.root then chain ++ current ∷ [] else chain) in
    if Sets.has seen current.id then Walk.ended chain else rest

abbrev pub root_crumb : Crumb
root_crumb = record { id = none; label = "Documents" }

abbrev pub folder_crumb : Folder → Crumb
folder_crumb f = record { id = some f.id; label = f.name }

-- `[root, ...chain.reverse().map(...)]`; `none` where the fuel does not last
unfoldable pub crumbs_of : Walk → Option (List Crumb)
crumbs_of (Walk.ended chain) = some (root_crumb ∷ map folder_crumb (reverse chain))
crumbs_of Walk.out_of_fuel = none

unfoldable pub build_folder_breadcrumbs : Option String → List Folder → Option (List Crumb)
unfolding crumbs_of
build_folder_breadcrumbs folder_id folders =
    let by_id = folders_by_id folders [] in
    if not (truthy folder_id)
    then some (root_crumb ∷ [])
    else elim (Maps.get by_id (or_default folder_id "")) [
      | none ↦ some (root_crumb ∷ [])
      | some folder ↦ crumbs_of (walk_up by_id (length folders) (some folder) [] [])
    ]
