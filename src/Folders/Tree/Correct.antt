-- ===== src/Folders/Tree/Correct.antt =====
-- The tree of folders of FolderTree.tsx has each folder below its parent, in order.
use lesspaper_ngl.Prelude.Maps
use lesspaper_ngl.Folders.Breadcrumbs.{folders_by_id}
use lesspaper_ngl.Folders.Tree.{
  TreeNodes, build_tree, children_at, folder_after, has_parent, is_root, node_of, parent_id_of,
  place, place_all, sort_nodes,
}
use lesspaper_ngl.Prelude.{
  Bool, List, Option, Option-cases, String, [], ap, arith, eq_iff, false, filter, if◌then◌else◌,
  inl, inr, is_some, length, map, nat_eq, none, nonempty, not, option_eq, or_default, or_else, refl,
  some, sym, text_eq, true, ◌&&◌, ◌++◌, ◌==◌, ◌||◌, ◌∙◌, ◌∷◌, ◌≡◌, ◌≤◌,
}
use lesspaper_ngl.Prelude.Sorting.{
  IsPairwise, IsPairwise-mono, count-sort_by, sort_by, sort_by-IsPairwise, sort_onto,
}
use lesspaper_ngl.Types.Folder.{Folder, FolderKind, folder_kind_eq}
use mathlib.Core.List.{append-nil, append_assoc}
use mathlib.Core.Path.{subst}

-- the folder is listed below the folder with identifier `p`
abbrev is_listed_below : List (String × Folder) → String → Folder → Bool
is_listed_below by_id p f = has_parent by_id f && parent_id_of f == p

-- the folder is listed at the top
abbrev is_listed_on_top : List (String × Folder) → Folder → Bool
is_listed_on_top by_id f = not (has_parent by_id f) && is_root f

children-place :
    (by_id : List (String × Folder)) (f : Folder) (t : TreeNodes) (p : String)
    → children_at (place by_id f t).children p ≡ (
        if is_listed_below by_id p f
        then children_at t.children p ++ node_of by_id f ∷ []
        else children_at t.children p)
unfolding place children_at
children-place by_id f t p = ground (
  arith,
  eq_iff (parent_id_of f) p,
  Maps.get-put t.children (parent_id_of f) p
      (children_at t.children (parent_id_of f) ++ node_of by_id f ∷ []),
)

children-place_all :
    (by_id : List (String × Folder)) (fs : List Folder) (t : TreeNodes) (p : String)
    → children_at (place_all by_id fs t).children p
      ≡ children_at t.children p ++ map (node_of by_id) (filter (is_listed_below by_id p) fs)
unfolding place_all
children-place_all by_id [] t p = sym (append-nil (children_at t.children p))
children-place_all by_id (f ∷ fs) t p = ground (
  arith,
  children-place_all by_id fs (place by_id f t) p,
  children-place by_id f t p,
  append_assoc (children_at t.children p) (node_of by_id f ∷ [])
      (map (node_of by_id) (filter (is_listed_below by_id p) fs)),
)

roots-place :
    (by_id : List (String × Folder)) (f : Folder) (t : TreeNodes)
    → (place by_id f t).roots
      ≡ (if is_listed_on_top by_id f then t.roots ++ node_of by_id f ∷ [] else t.roots)
unfolding place
roots-place by_id f t = ground arith

roots-place_all :
    (by_id : List (String × Folder)) (fs : List Folder) (t : TreeNodes)
    → (place_all by_id fs t).roots
      ≡ t.roots ++ map (node_of by_id) (filter (is_listed_on_top by_id) fs)
unfolding place_all
roots-place_all by_id [] t = sym (append-nil t.roots)
roots-place_all by_id (f ∷ fs) t = ground (
  arith,
  roots-place_all by_id fs (place by_id f t),
  roots-place by_id f t,
  append_assoc t.roots (node_of by_id f ∷ [])
      (map (node_of by_id) (filter (is_listed_on_top by_id) fs)),
)

-- the last folder of the list with an identifier
abbrev pub last_with : List Folder → String → Option Folder
last_with [] id = none
last_with (f ∷ fs) id = or_else (last_with fs id) (if f.id == id then some f else none)

-- each folder as the list has its identifier last
abbrev pub latest : List Folder → Folder → Folder
latest folders f = or_default (last_with folders f.id) f

-- Below the folder with identifier `p`, which is in the list, are the folders that name it as their
-- parent.
abbrev pub is_below : List Folder → String → Folder → Bool
is_below folders p f = f.parent_id == some p && (nonempty p && is_some (last_with folders p))

-- On top are the folders without a parent, and the root if its parent is not in the list.
abbrev pub is_on_top : List Folder → Folder → Bool
is_on_top folders f = elim f.parent_id [
  | none ↦ true
  | some p ↦ not (nonempty p) || (f.kind == FolderKind.root && not (is_some (last_with folders p)))
]

get-last_with :
    (fs : List Folder) (by_id : List (String × Folder)) (k : String)
    → Maps.get (folders_by_id fs by_id) k ≡ or_else (last_with fs k) (Maps.get by_id k)
unfolding folders_by_id
get-last_with [] by_id k = refl
get-last_with (f ∷ fs) by_id k =
    ground (arith, get-last_with fs (Maps.put by_id f.id f) k, Maps.get-put by_id f.id k f)

known-last_with :
    (fs : List Folder) (k : String) → Maps.get (folders_by_id fs []) k ≡ last_with fs k
unfolding Maps.get
known-last_with fs k = ground (arith, get-last_with fs [] k)

node_of-latest : (fs : List Folder) (f : Folder) → node_of (folders_by_id fs []) f ≡ latest fs f
unfolding node_of
node_of-latest fs f = ap (λ o. or_default o f) (known-last_with fs f.id)

listed_below :
    (fs : List Folder) (p : String) (f : Folder)
    → is_listed_below (folders_by_id fs []) p f ≡ is_below fs p f
unfolding has_parent
listed_below fs p f = elim (Option-cases f.parent_id) [
  | inl e ↦ ground (arith, e)
  | inr (q, e) ↦ ground (arith, e, eq_iff q p, known-last_with fs q, known-last_with fs p)
]

listed_on_top :
    (fs : List Folder) (f : Folder) → is_listed_on_top (folders_by_id fs []) f ≡ is_on_top fs f
unfolding has_parent is_root
listed_on_top fs f = elim (Option-cases f.parent_id) [
  | inl e ↦ ground (arith, e)
  | inr (q, e) ↦ ground (arith, e, known-last_with fs q)
]

-- The code's list of nodes is the one described.
listed :
    (fs : List Folder) (p q : Folder → Bool)
    → ((f : Folder) → p f ≡ q f)
    → map (node_of (folders_by_id fs [])) (filter p fs) ≡ map (latest fs) (filter q fs)
listed fs p q e = λ i. map (λ f. node_of-latest fs f i) (filter (λ f. e f i) fs)

-- `a` may stand before `b`: by their numbers, and then by their names
abbrev pub MayStandBefore : (String → String → Bool) → Folder → Folder → Type 0
MayStandBefore locale_after a b =
    (a.sort_order ≤ b.sort_order)
    × (a.sort_order ≡ b.sort_order → locale_after a.name b.name ≡ false)

module _ (locale_after : String → String → Bool) where
  folder_after_asym :
      ((a b : String) → locale_after a b ≡ true → locale_after b a ≡ false)
      → (a b : Folder) → folder_after locale_after a b ≡ true
      → folder_after locale_after b a ≡ false
  unfolding folder_after
  folder_after_asym asym a b h = ground (arith, asym a.name b.name, h)

  children-sort :
      (m : List (String × List Folder)) (p : String)
      → children_at (map (λ (id, nodes). (id, sort_by (folder_after locale_after) nodes)) m) p
        ≡ sort_by (folder_after locale_after) (children_at m p)
  unfolding children_at sort_by sort_onto Maps.get
  children-sort [] p = refl
  children-sort ((k, ns) ∷ m) p = ground (arith, children-sort m p)

  folder_after_trans :
      ((a b c : String)
        → locale_after a b ≡ false
        → locale_after b c ≡ false
        → locale_after a c ≡ false)
      → (a b c : Folder) → folder_after locale_after a b ≡ false
      → folder_after locale_after b c ≡ false
      → folder_after locale_after a c ≡ false
  unfolding folder_after
  folder_after_trans trans a b c h k = ground (arith, trans a.name b.name c.name, h, k)

  sorted_by_order :
      (a b : Folder) → folder_after locale_after a b ≡ false → MayStandBefore locale_after a b
  unfolding folder_after
  sorted_by_order a b h = ground (arith, h)

  module _ (asym : (a b : String) → locale_after a b ≡ true → locale_after b a ≡ false)
      (trans : (a b c : String)
        → locale_after a b ≡ false
        → locale_after b c ≡ false
        → locale_after a c ≡ false) where
    sorted_siblings :
        (fs : List Folder)
        → IsPairwise (MayStandBefore locale_after) (sort_by (folder_after locale_after) fs)
    sorted_siblings fs =
        let after = folder_after locale_after in
        IsPairwise-mono (λ a b. after a b ≡ false) (MayStandBefore locale_after) (sort_by after fs)
          sorted_by_order
          (sort_by-IsPairwise after (folder_after_asym asym) (folder_after_trans trans) fs)

    -- If `localeCompare` orders the names: below each folder, the tree lists the folders that name it as
    -- their parent, and on top those without a parent, and the root if its parent is not in the list,
    -- each as often as the list has it and as the list has its identifier last; so another folder
    -- whose parent is not in the list is shown nowhere. Everywhere in these lists, folders stand in the
    -- order of their numbers, and where these are equal, of their names.
    pub build_tree_correct :
        (folders : List Folder) (p : String) (test : Folder → Bool)
        → let tree = build_tree locale_after folders in
          let count = λ (fs : List Folder). length (filter test fs) in
          (count (children_at tree.children p)
            ≡ count (map (latest folders) (filter (is_below folders p) folders)))
          × (count tree.roots ≡ count (map (latest folders) (filter (is_on_top folders) folders)))
          × IsPairwise (MayStandBefore locale_after) (children_at tree.children p)
          × IsPairwise (MayStandBefore locale_after) tree.roots
    unfolding build_tree sort_nodes children_at Maps.get
    build_tree_correct folders p test =
        let by_id = folders_by_id folders [] in
        let after = folder_after locale_after in
        let empty : TreeNodes = record { roots = []; children = [] } in
        let placed = place_all by_id folders empty in
        let count = λ (fs : List Folder). length (filter test fs) in
        let below =
          children-sort placed.children p
          ∙ ap (sort_by after) (
              children-place_all by_id folders empty p
              ∙ listed folders (is_listed_below by_id p) (is_below folders p)
                  (listed_below folders p)) in
        let top =
          roots-place_all by_id folders empty
          ∙ listed folders (is_listed_on_top by_id) (is_on_top folders) (listed_on_top folders) in
        let kept = map (latest folders) (filter (is_below folders p) folders) in
        (
          ap count below ∙ count-sort_by after test kept,
          count-sort_by after test placed.roots ∙ ap count top,
          subst (IsPairwise (MayStandBefore locale_after)) (sym below) (sorted_siblings kept),
          sorted_siblings placed.roots,
        )
