-- ===== src/Folders/Tree.antt =====
-- `buildTree` of FolderTree.tsx. A node is a folder, and its array of children stands in a map under the
-- folder's identifier, which the source keeps in the node; the map holds the arrays that are not empty.
-- `localeCompare` is a parameter: `locale_after a b` says that it is positive.
pub mod Correct
use lesspaper_ngl.Prelude.Maps
use lesspaper_ngl.Folders.Breadcrumbs.{folders_by_id}
use lesspaper_ngl.Prelude.{
  Bool, List, String, [], if◌then◌else◌, is_some, ltb, map, nat_eq, not, option_eq, or_default,
  text_eq, truthy, ◌&&◌, ◌++◌, ◌==◌, ◌||◌, ◌∷◌,
}
use lesspaper_ngl.Prelude.Sorting.{sort_by}
use lesspaper_ngl.Types.Folder.{Folder, FolderKind, folder_kind_eq}

pub record TreeNodes : Type 0 where
  pub roots : List Folder
  pub children : List (String × List Folder)

-- the `children` of the node with an identifier
unfoldable pub children_at : List (String × List Folder) → String → List Folder
children_at children id = or_default (Maps.get children id) []

-- `map.get(f.id)!`: of two folders with one identifier, the last
unfoldable pub node_of : List (String × Folder) → Folder → Folder
node_of by_id f = or_default (Maps.get by_id f.id) f

abbrev pub parent_id_of : Folder → String
parent_id_of f = or_default f.parent_id ""

unfoldable pub has_parent : List (String × Folder) → Folder → Bool
has_parent by_id f = truthy f.parent_id && is_some (Maps.get by_id (parent_id_of f))

unfoldable pub is_root : Folder → Bool
is_root f = f.kind == FolderKind.root || not (truthy f.parent_id)

-- a round of the second loop
unfoldable pub place : List (String × Folder) → Folder → TreeNodes → TreeNodes
unfolding children_at node_of has_parent is_root
place by_id f t =
    if has_parent by_id f
    then record t {
      children =
          Maps.put t.children (parent_id_of f)
            (children_at t.children (parent_id_of f) ++ node_of by_id f ∷ []);
    }
    else if is_root f
    then record t { roots = t.roots ++ node_of by_id f ∷ [] }
    else t

unfoldable pub place_all : List (String × Folder) → List Folder → TreeNodes → TreeNodes
unfolding place
place_all by_id [] t = t
place_all by_id (f ∷ fs) t = place_all by_id fs (place by_id f t)

module _ (locale_after : String → String → Bool) where
  -- `a.sort_order - b.sort_order || a.name.localeCompare(b.name)` is positive
  unfoldable pub folder_after : Folder → Folder → Bool
  folder_after a b =
      if a.sort_order == b.sort_order
      then locale_after a.name b.name
      else ltb b.sort_order a.sort_order

  -- `sortNodes`, here on every array; the source sorts those that it reaches from the roots.
  unfoldable pub sort_nodes : TreeNodes → TreeNodes
  unfolding folder_after sort_by
  sort_nodes t = record {
    roots = sort_by folder_after t.roots;
    children = map (λ (id, nodes). (id, sort_by folder_after nodes)) t.children;
  }

  unfoldable pub build_tree : List Folder → TreeNodes
  unfolding folders_by_id place_all sort_nodes
  build_tree folders =
      sort_nodes
        (place_all (folders_by_id folders []) folders (record { roots = []; children = [] }))
