-- ===== src/Folders/Descendants.antt =====
-- The folders that a folder cannot be moved into, and the destinations that are offered.
pub mod Loop
pub mod Correct
use lesspaper_ngl.Prelude.Maps
use lesspaper_ngl.Prelude.Sets
use lesspaper_ngl.Prelude.{
  Bool, List, String, [], false, filter, if◌then◌else◌, length, nat_eq, not, option_eq, or_default,
  suc, text_eq, truthy, zero, ℕ, ◌++◌, ◌==◌, ◌∷◌,
}
use lesspaper_ngl.Types.Folder.{Folder, FolderKind, folder_kind_eq}

-- `childrenByParent`
abbrev pub Children : Type 0
Children = List (String × List String)

-- one round of the loop that fills `childrenByParent`
unfoldable pub add_child : Children → Folder → Children
unfolding Maps.get Maps.put
add_child children f =
    let parent = or_default f.parent_id "" in
    if truthy f.parent_id
    then Maps.put children parent (or_default (Maps.get children parent) [] ++ f.id ∷ [])
    else children

unfoldable pub children_by_parent : List Folder → Children → Children
unfolding add_child
children_by_parent [] children = children
children_by_parent (f ∷ fs) children = children_by_parent fs (add_child children f)

-- `childrenByParent.get(id) ?? []`
unfoldable pub children_of : Children → String → List String
unfolding Maps.get
children_of children id = or_default (Maps.get children id) []

-- The stack is kept with its top at the head.
pub record Search : Type 0 where
  pub excluded : List String
  pub stack : List String

-- one round of the inner loop
unfoldable pub offer : Search → String → Search
unfolding Sets.has Sets.add
offer s child =
    if Sets.has s.excluded child
    then s
    else record { excluded = Sets.add s.excluded child; stack = child ∷ s.stack }

unfoldable pub offer_all : Search → List String → Search
unfolding offer
offer_all s [] = s
offer_all s (child ∷ rest) = offer_all (offer s child) rest

pub data Outcome : Type 0 where
  done : List String → Outcome
  out_of_fuel : Outcome

-- the `while` loop, with fuel for its rounds
unfoldable pub collect : Children → ℕ → Search → Outcome
unfolding offer_all children_of
collect children zero s = elim s.stack [
  | [] ↦ Outcome.done s.excluded
  | id ∷ rest ↦ Outcome.out_of_fuel
]
collect children (suc fuel) s = elim s.stack [
  | [] ↦ Outcome.done s.excluded
  | id ∷ rest ↦
      collect children fuel (offer_all (record s { stack = rest }) (children_of children id))
]

-- Each round takes one identifier off the stack, and each folder is put there once at most, besides
-- the folder that the search starts from.
unfoldable pub collect_folder_and_descendant_ids : List Folder → String → Outcome
unfolding collect children_by_parent
collect_folder_and_descendant_ids folders folder_id =
    collect (children_by_parent folders []) (suc (length folders))
      (record { excluded = folder_id ∷ []; stack = folder_id ∷ [] })

-- the filter of `destinations`, before they are sorted by path
unfoldable pub is_destination : List String → Bool → Folder → Bool
unfolding Sets.has
is_destination excluded allow_root f =
    if Sets.has excluded f.id
    then false
    else if f.kind == FolderKind.trash
    then false
    else if f.kind == FolderKind.root
    then allow_root
    else if f.kind == FolderKind.inbox
    then not allow_root
    else f.kind == FolderKind.normal

unfoldable pub destinations : List String → Bool → List Folder → List Folder
unfolding is_destination
destinations excluded allow_root folders = filter (is_destination excluded allow_root) folders
