-- ===== src/Documents/Params.antt =====
-- The browser's `URLSearchParams`: pairs of a key and a text, in order; a key may repeat.
use lesspaper_ngl.Prelude.Sets
use lesspaper_ngl.Prelude.{
  Bool, List, Option, String, [], ap, arith, eq_iff, eq_refl, false, if◌then◌else◌, is_some, nat_eq,
  none, option_eq, or_else, refl, some, sym, text_eq, true, ◌++◌, ◌==◌, ◌∙◌, ◌∷◌, ◌≡◌,
}
use mathlib.Core.List.{append-nil, append_assoc}

abbrev pub Params : Type 0
Params = List (String × String)

-- `params.get(k)`: the first value
unfoldable pub get : Params → String → Option String
get [] k = none
get ((j, v) ∷ ps) k = let later = get ps k in if j == k then some v else later

-- `params.getAll(k)`
unfoldable pub get_all : Params → String → List String
get_all [] k = []
get_all ((j, v) ∷ ps) k = let later = get_all ps k in if j == k then v ∷ later else later

-- `params.has(k)`
unfoldable pub has : Params → String → Bool
unfolding get
has ps k = is_some (get ps k)

-- `params.delete(k)`
unfoldable pub delete : Params → String → Params
delete [] k = []
delete ((j, v) ∷ ps) k = let later = delete ps k in if j == k then later else (j, v) ∷ later

-- `params.append(k, v)`
unfoldable pub append : Params → String → String → Params
append ps k v = ps ++ (k, v) ∷ []

-- `params.set(k, v)`: the first pair of that key is changed and the others go
unfoldable pub set : Params → String → String → Params
unfolding delete
set [] k v = (k, v) ∷ []
set ((j, w) ∷ ps) k v = if j == k then (k, v) ∷ delete ps k else (j, w) ∷ set ps k v

-- `if (b) params.set(k, v)`
unfoldable pub set_if : Bool → String → String → Params → Params
unfolding set
set_if b k v ps = if b then set ps k v else ps

-- `for (const k of keys) params.delete(k)`
unfoldable pub delete_all : List String → Params → Params
unfolding delete
delete_all [] ps = ps
delete_all (k ∷ ks) ps = delete_all ks (delete ps k)

-- `for (const v of vs) params.append(k, v)`
unfoldable pub append_all : String → List String → Params → Params
unfolding append
append_all k [] ps = ps
append_all k (v ∷ vs) ps = append_all k vs (append ps k v)

pub get-delete :
    (ps : Params) (k j : String) → get (delete ps k) j ≡ (if k == j then none else get ps j)
unfolding get delete
get-delete [] k j = ground arith
get-delete ((i, v) ∷ ps) k j = ground (arith, get-delete ps k j, eq_iff i k, eq_iff i j, eq_iff k j)

get-set :
    (ps : Params) (k j v : String) → get (set ps k v) j ≡ (if k == j then some v else get ps j)
unfolding get set
get-set [] k j v = refl
get-set ((i, w) ∷ ps) k j v =
    ground (arith, get-set ps k j v, get-delete ps k j, eq_iff i k, eq_iff i j, eq_iff k j)

pub get-set_if :
    (b : Bool) (k v : String) (ps : Params) (j : String)
    → get (set_if b k v ps) j ≡ (if k == j then (if b then some v else get ps j) else get ps j)
unfolding set_if
get-set_if true k v ps j = get-set ps k j v
get-set_if false k v ps j = ground arith

get_all-delete :
    (ps : Params) (k j : String) → get_all (delete ps k) j ≡ (if k == j then [] else get_all ps j)
unfolding get_all delete
get_all-delete [] k j = ground arith
get_all-delete ((i, v) ∷ ps) k j =
    ground (arith, get_all-delete ps k j, eq_iff i k, eq_iff i j, eq_iff k j)

get_all-set :
    (ps : Params) (k j v : String)
    → get_all (set ps k v) j ≡ (if k == j then v ∷ [] else get_all ps j)
unfolding get_all set
get_all-set [] k j v = ground arith
get_all-set ((i, w) ∷ ps) k j v =
    ground (arith, get_all-set ps k j v, get_all-delete ps k j, eq_iff i k, eq_iff i j, eq_iff k j)

pub get_all-set_if :
    (b : Bool) (k v : String) (ps : Params) (j : String)
    → get_all (set_if b k v ps) j
      ≡ (if k == j then (if b then v ∷ [] else get_all ps j) else get_all ps j)
unfolding set_if
get_all-set_if true k v ps j = get_all-set ps k j v
get_all-set_if false k v ps j = ground arith

abbrev pub first : List String → Option String
first [] = none
first (v ∷ vs) = some v

get-append :
    (ps : Params) (k v j : String)
    → get (append ps k v) j ≡ (if k == j then or_else (get ps j) (some v) else get ps j)
unfolding get append
get-append [] k v j = ground arith
get-append ((i, w) ∷ ps) k v j = ground (arith, get-append ps k v j)

pub get-append_all :
    (k : String) (vs : List String) (ps : Params) (j : String)
    → get (append_all k vs ps) j ≡ (if k == j then or_else (get ps j) (first vs) else get ps j)
unfolding append_all
get-append_all k [] ps j = ground arith
get-append_all k (v ∷ vs) ps j =
    ground (arith, get-append_all k vs (append ps k v) j, get-append ps k v j)

get_all-append :
    (ps : Params) (k v j : String)
    → get_all (append ps k v) j ≡ get_all ps j ++ (if k == j then v ∷ [] else [])
unfolding get_all append
get_all-append [] k v j = ground arith
get_all-append ((i, w) ∷ ps) k v j = ground (arith, get_all-append ps k v j)

pub get_all-append_all :
    (k : String) (vs : List String) (ps : Params)
    → get_all (append_all k vs ps) k ≡ get_all ps k ++ vs
unfolding append_all
get_all-append_all k [] ps = sym (append-nil _)
get_all-append_all k (v ∷ vs) ps =
    get_all-append_all k vs (append ps k v)
    ∙ ap (λ l. l ++ vs) (get_all-append ps k v k)
    ∙ rw eq_refl (append_assoc (get_all ps k) (v ∷ []) vs)

-- A key that is cleared is not found, and the others stay.
pub get-delete_all :
    (ks : List String) (ps : Params) (j : String)
    → get (delete_all ks ps) j ≡ (if Sets.has ks j then none else get ps j)
unfolding delete_all Sets.has
get-delete_all [] ps j = refl
get-delete_all (k ∷ ks) ps j = ground (arith, get-delete_all ks (delete ps k) j, get-delete ps k j)

pub get_all-delete_all :
    (ks : List String) (ps : Params) (j : String)
    → get_all (delete_all ks ps) j ≡ (if Sets.has ks j then [] else get_all ps j)
unfolding delete_all Sets.has
get_all-delete_all [] ps j = refl
get_all-delete_all (k ∷ ks) ps j =
    ground (arith, get_all-delete_all ks (delete ps k) j, get_all-delete ps k j)

pub ruleset get_laws = (get-set_if, get-append_all, get-delete_all)

pub ruleset get_all_laws = (get_all-set_if, get_all-append_all, get_all-delete_all)
