-- ===== src/Folders/Descendants/Correct.antt =====
-- The search finds exactly the folder and its descendants, and the dialog offers none of them.
use lesspaper_ngl.Prelude.Sets
use lesspaper_ngl.Folders.Descendants.{
  Children, Outcome, Search, children_by_parent, children_of, collect,
  collect_folder_and_descendant_ids, destinations, is_destination, offer_all,
}
use lesspaper_ngl.Folders.Descendants.Loop.{
  collect_ends, has-children_of, has-offer_all-excluded, has-offer_all-stack, is_child,
}
use lesspaper_ngl.Prelude.{
  Bool, Bool-cases, In, In-filter, List, List-cases, String, [], any, arith, eq_iff, eq_refl, false,
  inl, inr, length, length-filter-le, nat_eq, not, option_eq, refl, suc, text_eq, true, zero, ℕ,
  ◌==◌, ◌||◌, ◌↔◌, ◌∷◌, ◌≡◌, ◌⊎◌,
}
use lesspaper_ngl.Types.Folder.{Folder, FolderKind, folder_kind_eq}
use mathlib.Core.Path.{subst}

-- `id` is the folder `top`, or lies below it.
pub data Below (folders : List Folder) (top : String) : String → Type 0 where
  here : Below folders top top
  step :
      {p j : String} → Below folders top p → any (is_child p j) folders ≡ true → Below folders top j

module _ (fs : List Folder) (top : String) where
  abbrev children : Children
  children = children_by_parent fs []

  record Inv (s : Search) : Type 0 where
    source : Sets.has s.excluded top ≡ true
    stacked : (v : String) → Sets.has s.stack v ≡ true → Sets.has s.excluded v ≡ true
    sound : (v : String) → Sets.has s.excluded v ≡ true → Below fs top v
    closed :
        (u v : String)
        → Sets.has s.excluded u ≡ true
        → any (is_child u v) fs ≡ true
        → (Sets.has s.stack u ≡ true) ⊎ (Sets.has s.excluded v ≡ true)

  abbrev expand : Search → String → List String → Search
  expand s id rest = offer_all (record s { stack = rest }) (children_of children id)

  has-pop :
      (s : Search) (id : String) (rest : List String) (v : String)
      → s.stack ≡ id ∷ rest
      → Sets.has s.stack v ≡ (id == v || Sets.has rest v)
  unfolding Sets.has
  has-pop s id rest v e = rw e refl

  Inv-expand :
      (s : Search) (id : String) (rest : List String)
      → s.stack ≡ id ∷ rest
      → Inv s
      → Inv (expand s id rest)
  Inv-expand s id rest e h =
      let s' = record s { stack = rest } in
      let cs = children_of children id in
      let excluded' = λ (w : String). has-offer_all-excluded s' cs w in
      let stack' = λ (w : String). has-offer_all-stack s' cs w in
      let pop = λ (w : String). has-pop s id rest w e in
      let below_id = h.sound id (h.stacked id (ground (arith, pop id, eq_refl id))) in
      record {
        source = ground (arith, excluded' top, h.source);
        stacked = λ v m. ground (arith, excluded' v, stack' v, pop v, h.stacked v);
        sound = λ v m. elim (Bool-cases (Sets.has s.excluded v)) [
          | inl old ↦ h.sound v old
          | inr new ↦ step below_id (ground (arith, excluded' v, has-children_of fs id v))
        ];
        closed = λ u v m edge. ground (
          arith,
          excluded' u,
          excluded' v,
          stack' u,
          pop u,
          h.closed u v,
          has-children_of fs id v,
          eq_iff id u,
        );
      }

  -- An invariant of a round holds at the end, where the stack is empty.
  collect_rule :
      (fuel : ℕ) (s : Search) (ex : List String)
      → Inv s
      → collect children fuel s ≡ Outcome.done ex
      → (t : Search) × Inv t × (t.stack ≡ []) × (t.excluded ≡ ex)
  unfolding collect
  collect_rule zero s ex h e = elim (List-cases s.stack) [
    | inl empty ↦ (s, h, empty, ground arith)
    | inr (id, rest, stack) ↦ ground arith
  ]
  collect_rule (suc fuel) s ex h e = elim (List-cases s.stack) [
    | inl empty ↦ (s, h, empty, ground arith)
    | inr (id, rest, stack) ↦
        collect_rule fuel (expand s id rest) ex (Inv-expand s id rest stack h)
          (rw (stack, collect) at e)
  ]

  Inv-start : Inv (record { excluded = top ∷ []; stack = top ∷ [] })
  unfolding Sets.has
  Inv-start = record {
    source = ground (arith, eq_refl top);
    stacked = λ v m. m;
    sound = λ v m. subst (Below fs top) (ground (arith, eq_iff top v)) here;
    closed = λ u v m edge. inl m;
  }

  -- With an empty stack the excluded set is closed.
  complete :
      (t : Search)
      → Inv t
      → t.stack ≡ []
      → {v : String} → Below fs top v
      → Sets.has t.excluded v ≡ true
  unfolding Sets.has
  complete t h e here = h.source
  complete t h e (step {p} {j} below edge) = elim (h.closed p j (complete t h e below) edge) [
    | inl waiting ↦ ground arith
    | inr m ↦ m
  ]

-- The search ends, and collects exactly the folder itself and the folders below it.
pub collect_correct :
    (folders : List Folder) (folder_id : String)
    → (excluded : List String) × (collect_folder_and_descendant_ids folders folder_id
        ≡ Outcome.done excluded)
      × ((v : String) → (Sets.has excluded v ≡ true) ↔ Below folders folder_id v)
unfolding collect_folder_and_descendant_ids
collect_correct folders folder_id =
    let start : Search = record { excluded = folder_id ∷ []; stack = folder_id ∷ [] } in
    let (ex, ends) =
      collect_ends folders (suc (length folders)) start
        (omega (arith, length-filter-le (λ f. not (Sets.has (folder_id ∷ []) f.id)) folders)) in
    let (t, inv, empty, same) =
      collect_rule folders folder_id (suc (length folders)) start ex (Inv-start folders folder_id)
        ends in
    (
      ex,
      ends,
      λ v. (
        λ m. inv.sound v (rw same m),
        λ below.
            subst (λ x. Sets.has x v ≡ true) same (complete folders folder_id t inv empty below),
      ),
    )

-- the kinds of folders that the dialog offers
abbrev pub Offered : Bool → FolderKind → Type 0
Offered allow_root FolderKind.root = allow_root ≡ true
Offered allow_root FolderKind.inbox = allow_root ≡ false
Offered allow_root FolderKind.trash = ⊥
Offered allow_root FolderKind.normal = Unit {0}

is_destination_iff :
    (excluded : List String) (allow_root : Bool) (f : Folder)
    → (is_destination excluded allow_root f ≡ true)
      ↔ ((Sets.has excluded f.id ≡ false) × Offered allow_root f.kind)
unfolding is_destination
is_destination_iff excluded allow_root f = ground arith

has_iff_Below :
    (folders : List Folder) (folder_id : String) (excluded : List String)
    → collect_folder_and_descendant_ids folders folder_id ≡ Outcome.done excluded
    → (v : String) → (Sets.has excluded v ≡ true) ↔ Below folders folder_id v
has_iff_Below folders folder_id excluded h v =
    let (ex, ends, spec) = collect_correct folders folder_id in
    let same : ex ≡ excluded = cc in
    (λ m. (spec v).0 (rw same m), λ b. subst (λ x. Sets.has x v ≡ true) same ((spec v).1 b))

false_iff_not_Below :
    (folders : List Folder) (folder_id : String) (excluded : List String)
    → collect_folder_and_descendant_ids folders folder_id ≡ Outcome.done excluded
    → (v : String) → (Sets.has excluded v ≡ false) ↔ (¬ Below folders folder_id v)
false_iff_not_Below folders folder_id excluded h v =
    let spec = has_iff_Below folders folder_id excluded h v in
    (
      λ e b. let found = spec.1 b in cc,
      λ n. elim (Bool-cases (Sets.has excluded v)) [
        | inl found ↦ absurd (n (spec.0 found))
        | inr new ↦ new
      ],
    )

-- With the folder and its descendants excluded, the dialog offers exactly the folders of a kind that
-- is allowed which are not the folder itself and do not lie below it: a move makes no cycle.
pub destinations_safe :
    (folders : List Folder) (folder_id : String) (excluded : List String) (allow_root : Bool)
    (f : Folder)
    → collect_folder_and_descendant_ids folders folder_id ≡ Outcome.done excluded
    → In f (destinations excluded allow_root folders)
      ↔ (In f folders × (¬ Below folders folder_id f.id) × Offered allow_root f.kind)
unfolding destinations
destinations_safe folders folder_id excluded allow_root f h =
    let offered = In-filter (is_destination excluded allow_root) f folders in
    let test = is_destination_iff excluded allow_root f in
    let outside = false_iff_not_Below folders folder_id excluded h f.id in
    (
      λ m. let (i, t) = offered.0 m in let (e, kind) = test.0 t in (i, outside.0 e, kind),
      λ (i, n, kind). offered.1 (i, test.1 (outside.1 n, kind)),
    )
