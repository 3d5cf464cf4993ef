-- ===== src/Folders/Descendants/Loop.antt =====
-- The children that the map holds, what a round offers, and that the search ends.
use lesspaper_ngl.Prelude.Maps
use lesspaper_ngl.Prelude.Sets
use lesspaper_ngl.Folders.Descendants.{
  Children, Outcome, Search, add_child, children_by_parent, children_of, collect, offer, offer_all,
}
use lesspaper_ngl.Prelude.{
  Bool, List, List-cases, String, [], any, ap, arith, eq_iff, eq_refl, false, filter, inl, inr,
  length, nat_eq, not, option_eq, or_default, refl, suc, sym, text_eq, true, truthy, zero, ℕ, ◌&&◌,
  ◌++◌, ◌+◌, ◌<◌, ◌==◌, ◌||◌, ◌∙◌, ◌∷◌, ◌≡◌, ◌≤◌,
}
use lesspaper_ngl.Types.Folder.{Folder}

-- `f` is a child of the folder `p`, with identifier `j`
abbrev pub is_child : String → String → Folder → Bool
is_child p j f = truthy f.parent_id && or_default f.parent_id "" == p && f.id == j

has-add_child :
    (children : Children) (f : Folder) (p j : String)
    → Sets.has (children_of (add_child children f) p) j
      ≡ (Sets.has (children_of children p) j || is_child p j f)
unfolding add_child children_of
has-add_child children f p j = ground (
  arith,
  Maps.get-put children (or_default f.parent_id "") p
      (or_default (Maps.get children (or_default f.parent_id "")) [] ++ f.id ∷ []),
  Sets.has-concat (or_default (Maps.get children p) []) f.id j,
  eq_iff (or_default f.parent_id "") p,
)

has-children_by_parent :
    (fs : List Folder) (children : Children) (p j : String)
    → Sets.has (children_of (children_by_parent fs children) p) j
      ≡ (Sets.has (children_of children p) j || any (is_child p j) fs)
unfolding children_by_parent
has-children_by_parent [] children p j = ground arith
has-children_by_parent (f ∷ fs) children p j =
    ground
      (arith, has-children_by_parent fs (add_child children f) p j, has-add_child children f p j)

-- The map lists exactly the children of each folder.
pub has-children_of :
    (fs : List Folder) (p j : String)
    → Sets.has (children_of (children_by_parent fs []) p) j ≡ any (is_child p j) fs
unfolding children_of Maps.get Sets.has
has-children_of fs p j = has-children_by_parent fs [] p j

pub has-offer_all-excluded :
    (s : Search) (cs : List String) (w : String)
    → Sets.has (offer_all s cs).excluded w ≡ (Sets.has s.excluded w || Sets.has cs w)
unfolding offer_all Sets.has
has-offer_all-excluded s [] w = ground arith
has-offer_all-excluded s (c ∷ cs) w =
    ground (arith, has-offer_all-excluded (offer s c) cs w, Sets.has-add s.excluded c w, eq_iff c w)

-- What is put on the stack is what is new.
pub has-offer_all-stack :
    (s : Search) (cs : List String) (w : String)
    → Sets.has (offer_all s cs).stack w ≡ (
        Sets.has s.stack w || (Sets.has (offer_all s cs).excluded w && not (Sets.has s.excluded w)))
unfolding offer_all Sets.has
has-offer_all-stack s [] w = ground arith
has-offer_all-stack s (c ∷ cs) w = ground (
  arith,
  has-offer_all-stack (offer s c) cs w,
  has-offer_all-excluded (offer s c) cs w,
  Sets.has-add s.excluded c w,
  eq_iff c w,
)

-- the identifier of a folder that is there
abbrev pub known : List Folder → String → Bool
known fs c = any (λ f. f.id == c) fs

-- the folders that the search has not come to
abbrev pub unseen : List Folder → List String → ℕ
unseen fs excluded = length (filter (λ f. not (Sets.has excluded f.id)) fs)

unseen-add-le :
    (fs : List Folder) (ex : List String) (c : String) → unseen fs (Sets.add ex c) ≤ unseen fs ex
unseen-add-le [] ex c = omega arith
unseen-add-le (f ∷ fs) ex c = ground (arith, unseen-add-le fs ex c, Sets.has-add ex c f.id)

pub unseen-add :
    (fs : List Folder) (ex : List String) (c : String)
    → known fs c ≡ true
    → Sets.has ex c ≡ false
    → unseen fs (Sets.add ex c) < unseen fs ex
unseen-add [] ex c k h = cc
unseen-add (f ∷ fs) ex c k h = ground (
  arith,
  unseen-add fs ex c,
  unseen-add-le fs ex c,
  Sets.has-add ex c f.id,
  eq_iff f.id c,
  eq_iff c f.id,
)

abbrev work : List Folder → Search → ℕ
work fs s = unseen fs s.excluded + length s.stack

offer_all-work :
    (fs : List Folder) (s : Search) (cs : List String)
    → ((c : String) → Sets.has cs c ≡ true → known fs c ≡ true)
    → work fs (offer_all s cs) ≤ work fs s
unfolding offer_all Sets.has
offer_all-work fs s [] h = omega arith
offer_all-work fs s (c ∷ cs) h = ground (
  arith,
  offer_all-work fs (offer s c) cs (λ d e. h d (ground arith)),
  unseen-add fs s.excluded c (h c (ground (arith, eq_refl c))),
)

known_of_child :
    (fs : List Folder) (p j : String) → any (is_child p j) fs ≡ true → known fs j ≡ true
known_of_child [] p j h = cc
known_of_child (f ∷ fs) p j h = ground (arith, known_of_child fs p j)

-- With fuel for the folders not yet seen and for the stack, the search ends.
pub collect_ends :
    (fs : List Folder) (fuel : ℕ) (s : Search)
    → unseen fs s.excluded + length s.stack ≤ fuel
    → (ex : List String) × (collect (children_by_parent fs []) fuel s ≡ Outcome.done ex)
unfolding collect
collect_ends fs zero s h = (s.excluded, ground arith)
collect_ends fs (suc fuel) s h = elim (List-cases s.stack) [
  | inl empty ↦ (s.excluded, rw (empty, collect) refl)
  | inr (id, rest, e) ↦
      let (ex, ends) =
        collect_ends fs fuel
          (offer_all (record s { stack = rest }) (children_of (children_by_parent fs []) id))
          (omega (
            arith,
            ap length e,
            offer_all-work fs (record s { stack = rest })
                (children_of (children_by_parent fs []) id)
                (λ c m. known_of_child fs id c (sym (has-children_of fs id c) ∙ m)),
          )) in
      (ex, rw (e, collect) ends)
]
