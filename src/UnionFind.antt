-- ===== src/UnionFind.antt =====
-- src/semantic/types/solver/UnionFind.{h,cpp}: the forest of type terms that the unifier keeps.
-- `edges` maps a term to its parent. The code orders this map by the addresses of the keys; here
-- it is a list in the order of insertion, and `lookup-perm` of Distinct shows that the order is
-- not observed where no two keys are equal, which the code asserts after each change.
-- A method that changes the forest is a function on states; the loop of `find` runs on fuel.
pub mod Distinct
pub mod Roots
pub mod Find
pub mod Union
pub mod Classes
pub mod Laws
use sipc.Prelude.{
  ℕ, zero, suc, Bool, true, false, not, ◌&&◌, Option, none, some, List, [], ◌∷◌, if◌then◌else◌,
  length,
}
use sipc.Types.{TipType, equal_type}

abbrev pub Edges : Type 0
Edges = List (TipType × TipType)

-- A run from a state: `none` says that the fuel ran out.
abbrev pub M : Type 0 → Type 0
M A = Edges → Option (A × Edges)

infixl 5 ◌>>=◌
abbrev pub ◌>>=◌ : {A B : Type 0} → M A → (A → M B) → M B
◌>>=◌ m f es = elim (m es) [ none ↦ none | some (a, es') ↦ f a es' ]

abbrev pub pure : {A : Type 0} → A → M A
pure a es = some (a, es)

unfoldable pub lookup : TipType → Edges → Option TipType
lookup t [] = none
lookup t ((key, parent) ∷ es) = if equal_type t key then some parent else lookup t es

-- The test of the inner loop of `invariant`: no later edge has an equal key.
unfoldable pub is_fresh : TipType → Edges → Bool
is_fresh t [] = true
is_fresh t ((key, _) ∷ es) = not (equal_type t key) && is_fresh t es

unfoldable pub invariant : Edges → Bool
unfolding is_fresh
invariant [] = true
invariant ((key, _) ∷ es) = is_fresh key es && invariant es

-- Returns the parent where the term is a key, and the term itself where it becomes one.
unfoldable pub smart_insert : TipType → M TipType
smart_insert t es = elim (lookup t es) [
  | some parent ↦ some (parent, es)
  | none ↦ some (t, (t, t) ∷ es)
]

unfoldable pub add : List TipType → M (Unit {0})
add [] = pure tt
add (t ∷ seed) = smart_insert t >>= λ _. add seed

unfoldable pub get_parent : TipType → M TipType
get_parent t es = elim (lookup t es) [ some parent ↦ some (parent, es) | none ↦ smart_insert t es ]

-- `while (!equalType(get_parent(parent), parent)) parent = get_parent(parent);`
unfoldable pub climb : ℕ → TipType → M TipType
climb zero t es = none
climb (suc fuel) t es = elim (get_parent t es) [
  | none ↦ none
  | some (parent, es') ↦ elim (equal_type parent t) [
    | true ↦ some (t, es')
    | false ↦ elim (get_parent t es') [ none ↦ none | some (up, es'') ↦ climb fuel up es'' ]
  ]
]

unfoldable pub find : TipType → M TipType
find t = smart_insert t >>= λ start es. climb (suc (length es)) start es

-- The loop of `quick_union`: the edge of the first root is replaced.
unfoldable pub redirect : TipType → TipType → Edges → Edges
redirect root target [] = []
redirect root target ((key, parent) ∷ es) =
    if equal_type root key then (root, target) ∷ es else (key, parent) ∷ redirect root target es

unfoldable pub quick_union : TipType → TipType → M (Unit {0})
quick_union t1 t2 = smart_insert t1 >>= λ s1. smart_insert t2 >>= λ s2.
    find s1 >>= λ root1. find s2 >>= λ root2 es. some (tt, redirect root1 root2 es)

unfoldable pub connected : TipType → TipType → M Bool
connected t1 t2 = find t1 >>= λ root1. find t2 >>= λ root2. pure (equal_type root1 root2)
