-- ===== src/Folders/Breadcrumbs/Chain.antt =====
-- The walk from folder to parent ends, and gives the path.
use lesspaper_ngl.Prelude.Maps
use lesspaper_ngl.Prelude.Sets
use lesspaper_ngl.Folders.Breadcrumbs.{
  Crumb, Walk, build_folder_breadcrumbs, crumbs_of, folder_crumb, folders_by_id, parent_of,
  root_crumb, walk_up,
}
use lesspaper_ngl.Folders.Descendants.Loop.{known, unseen, unseen-add}
use lesspaper_ngl.Prelude.{
  All, Bool, Bool-cases, List, Option, Option-cases, String, [], ap, arith, eq_refl, false, filter,
  if◌then◌else◌, inl, inr, length, length-filter-le, map, nat_eq, none, nonempty, not, option_eq,
  or_default, refl, some, suc, sym, text_eq, true, truthy, zero, ℕ, ◌!=◌, ◌++◌, ◌==◌, ◌∙◌, ◌∷◌, ◌≡◌,
  ◌≤◌, ◌⊎◌,
}
use lesspaper_ngl.Types.Folder.{Folder, FolderKind, folder_kind_eq}
use mathlib.Core.List.{append-nil, append_assoc, reverse}

-- What `byId` holds under a key is one of the folders.
get-folders_by_id :
    (fs : List Folder) (by_id : List (String × Folder)) (k : String) (f : Folder)
    → Maps.get (folders_by_id fs by_id) k ≡ some f
    → (Maps.get by_id k ≡ some f) ⊎ (known fs f.id ≡ true)
unfolding folders_by_id
get-folders_by_id [] by_id k f h = inl h
get-folders_by_id (g ∷ fs) by_id k f h = ground (
  arith,
  get-folders_by_id fs (Maps.put by_id g.id g) k f,
  Maps.get-put by_id g.id k g,
  eq_refl f.id,
)

known_of_get :
    (fs : List Folder) (k : String) (f : Folder)
    → Maps.get (folders_by_id fs []) k ≡ some f
    → known fs f.id ≡ true
unfolding Maps.get
known_of_get fs k f h = ground (arith, get-folders_by_id fs [] k f h)

module _ (fs : List Folder) where
  abbrev by_id : List (String × Folder)
  by_id = folders_by_id fs []

  abbrev IsKnown : Option Folder → Type 0
  IsKnown none = Unit
  IsKnown (some f) = known fs f.id ≡ true

  IsKnown-get : (k : String) → IsKnown (Maps.get by_id k)
  IsKnown-get k = elim (Option-cases (Maps.get by_id k)) [
    | inl e ↦ rw e tt
    | inr (g, e) ↦ rw e (known_of_get fs k g e)
  ]

  IsKnown-parent_of : (f : Folder) → IsKnown (parent_of by_id f)
  unfolding parent_of
  IsKnown-parent_of f = elim (Bool-cases (truthy f.parent_id)) [
    | inl on ↦ rw on (IsKnown-get (or_default f.parent_id ""))
    | inr off ↦ rw off tt
  ]

  -- With fuel for the folders that are not seen yet, the walk ends, on a cycle too.
  walk_up_ends :
      (fuel : ℕ) (o : Option Folder) (seen : List String) (chain : List Folder)
      → IsKnown o
      → unseen fs seen ≤ fuel
      → (l : List Folder) × (walk_up by_id fuel o seen chain ≡ Walk.ended l)
  unfolding walk_up
  walk_up_ends fuel none seen chain k h = (chain, refl)
  walk_up_ends zero (some f) seen chain k h = elim (Bool-cases (Sets.has seen f.id)) [
    | inl old ↦ (chain, rw old refl)
    | inr new ↦ absurd (omega (arith, unseen-add fs seen f.id k new))
  ]
  walk_up_ends (suc fuel) (some f) seen chain k h = elim (Bool-cases (Sets.has seen f.id)) [
    | inl old ↦ (chain, rw old refl)
    | inr new ↦ rw new (
        walk_up_ends fuel (parent_of by_id f) (Sets.add seen f.id)
          (if f.kind != FolderKind.root then chain ++ f ∷ [] else chain) (IsKnown-parent_of f)
          (omega (arith, unseen-add fs seen f.id k new)))
  ]

-- The folders from one up to the top, each the parent of the one before.
pub data Lineage (folders : List Folder) : Option Folder → List Folder → Type 0 where
  top : Lineage folders none []
  up :
      {f : Folder} {l : List Folder}
      → Lineage folders (parent_of (folders_by_id folders []) f) l
      → Lineage folders (some f) (f ∷ l)

abbrev pub HasDistinctIds : List Folder → Type 0
HasDistinctIds [] = Unit
HasDistinctIds (f ∷ l) = All (λ g. (f.id == g.id) ≡ false) l × HasDistinctIds l

abbrev pub is_shown : Folder → Bool
is_shown f = f.kind != FolderKind.root

All-add :
    (seen : List String) (f : Folder) (l : List Folder)
    → All (λ g. Sets.has seen g.id ≡ false) l
    → All (λ g. (f.id == g.id) ≡ false) l
    → All (λ g. Sets.has (Sets.add seen f.id) g.id ≡ false) l
All-add seen f [] h k = tt
All-add seen f (g ∷ l) (h, hs) (k, ks) =
    (ground (arith, Sets.has-add seen f.id g.id), All-add seen f l hs ks)

shown-append :
    (chain : List Folder) (f : Folder) (l : List Folder)
    → (if is_shown f then chain ++ f ∷ [] else chain) ++ filter is_shown l
      ≡ chain ++ filter is_shown (f ∷ l)
shown-append chain f l = elim (Bool-cases (is_shown f)) [
  | inl on ↦ rw on (append_assoc chain (f ∷ []) (filter is_shown l))
  | inr off ↦ rw off refl
]

walk_up-Lineage :
    (fs : List Folder) (fuel : ℕ) (seen : List String) (chain : List Folder) {o : Option Folder}
    {l : List Folder}
    → Lineage fs o l
    → IsKnown fs o
    → unseen fs seen ≤ fuel
    → All (λ g. Sets.has seen g.id ≡ false) l
    → HasDistinctIds l
    → walk_up (folders_by_id fs []) fuel o seen chain ≡ Walk.ended (chain ++ filter is_shown l)
unfolding walk_up
walk_up-Lineage fs fuel seen chain top k h new d = ap Walk.ended (sym (append-nil chain))
walk_up-Lineage fs zero seen chain (up {f} {l} lin) k h new d =
    absurd (omega (arith, unseen-add fs seen f.id k new.0))
walk_up-Lineage fs (suc fuel) seen chain (up {f} {l} lin) k h new d = rw new.0 (
    walk_up-Lineage fs fuel (Sets.add seen f.id) (if is_shown f then chain ++ f ∷ [] else chain) lin
      (IsKnown-parent_of fs f) (omega (arith, unseen-add fs seen f.id k new.0))
      (All-add seen f l new.1 d.0) d.1
    ∙ ap Walk.ended (shown-append chain f l))

none_seen : (l : List Folder) → All (λ g. Sets.has [] g.id ≡ false) l
unfolding Sets.has
none_seen [] = tt
none_seen (g ∷ l) = (refl, none_seen l)

fits : (folders : List Folder) → unseen folders [] ≤ length folders
fits folders = length-filter-le (λ f. not (Sets.has [] f.id)) folders

-- The breadcrumbs are built for every argument, also where the parents of the folders form a cycle.
pub build_folder_breadcrumbs_returns :
    (folder_id : Option String) (folders : List Folder)
    → (crumbs : List Crumb) × (build_folder_breadcrumbs folder_id folders ≡ some crumbs)
unfolding build_folder_breadcrumbs crumbs_of
build_folder_breadcrumbs_returns folder_id folders = elim (Bool-cases (truthy folder_id)) [
  | inr off ↦ (root_crumb ∷ [], rw off refl)
  | inl on ↦ elim (Option-cases (Maps.get (folders_by_id folders []) (or_default folder_id ""))) [
    | inl missing ↦ (root_crumb ∷ [], rw on (rw missing refl))
    | inr (f, found) ↦
        let (l, ends) =
          walk_up_ends folders (length folders) (some f) [] []
            (known_of_get folders (or_default folder_id "") f found) (fits folders) in
        (root_crumb ∷ map folder_crumb (reverse l), rw on (rw found (rw ends refl)))
  ]
]

-- For a folder whose ancestors end at the top without repeating an identifier, the breadcrumbs are
-- the crumb of the library, and then the folders on the way down to it, without the root.
pub build_folder_breadcrumbs-Lineage :
    (id : String) (folders : List Folder) (f : Folder) (l : List Folder)
    → nonempty id ≡ true
    → Maps.get (folders_by_id folders []) id ≡ some f
    → Lineage folders (some f) l
    → HasDistinctIds l
    → build_folder_breadcrumbs (some id) folders
      ≡ some (root_crumb ∷ map folder_crumb (reverse (filter is_shown l)))
unfolding build_folder_breadcrumbs crumbs_of
build_folder_breadcrumbs-Lineage id folders f l named found lin d = rw named (
    rw found (
      rw
        (walk_up-Lineage folders (length folders) [] [] lin (known_of_get folders id f found)
          (fits folders) (none_seen l) d)
        refl))
