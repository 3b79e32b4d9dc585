-- ===== src/Unifier/Measure.antt =====
-- The measure of `unify`: the terms of a finite universe, closed under arguments, that are roots.
-- A union of two classes takes one of them away, and a run adds none.
use sipc.Prelude.{
  ◌≡◌, refl, ℕ, suc, ◌≤◌, ◌<◌, Bool, true, false, ◌||◌, List, [], ◌∷◌, if◌then◌else◌, arith,
}
use sipc.Types.{TipType, TipTypes, nil, cons, equal_type}
use sipc.Types.Equality.{equal_type_refl, equal_type_left}
use sipc.UnionFind.{Edges}
use sipc.UnionFind.Roots.{is_root, is_root-equal}
use sipc.UnionFind.Find.{
  IsForest, Grows, Represents, Represents-shrinks, Represents-unique, is_root-Grows,
}
use sipc.UnionFind.Union.{Unions, Represents-union, is_root-union}
use sipc.UnionFind.Classes.{root_of}
use sipc.Unifier.{arguments}
use sipc.Unifier.Runs.{united}

unfoldable pub contains : List TipType → TipType → Bool
contains [] t = false
contains (u ∷ us) t = equal_type t u || contains us t

pub contains-equal :
    (us : List TipType) (a b : TipType) → equal_type a b ≡ true → contains us a ≡ contains us b
unfolding contains
contains-equal [] a b h = refl
contains-equal (u ∷ us) a b h = ground (arith, equal_type_left a b u h, contains-equal us a b h)

abbrev pub AllIn : List TipType → TipTypes → Type 0
AllIn us nil = Unit
AllIn us (cons x xs) = (contains us x ≡ true) × AllIn us xs

-- The arguments of its terms lie in the universe.
abbrev pub IsClosed : List TipType → Type 0
IsClosed us = (t : TipType) → contains us t ≡ true → AllIn us (arguments t)

-- The root of a term of the universe lies in it.
abbrev pub IsBounded : List TipType → Edges → Type 0
IsBounded us es = (t r : TipType) → contains us t ≡ true → Represents es t r → contains us r ≡ true

unfoldable pub root_count : Edges → List TipType → ℕ
root_count es [] = 0
root_count es (u ∷ us) = if is_root es u then suc (root_count es us) else root_count es us

pub root_count-Grows :
    {es fs : Edges} (us : List TipType) → Grows es fs → root_count fs us ≡ root_count es us
unfolding root_count
root_count-Grows [] g = refl
root_count-Grows (u ∷ us) g = ground (arith, is_root-Grows u g, root_count-Grows us g)

pub IsBounded-Grows :
    {es fs : Edges} (us : List TipType)
    → IsForest es
    → Grows es fs
    → IsBounded us es
    → IsBounded us fs
IsBounded-Grows us v g b t r c p = b t r c (Represents-shrinks t r v g p)

module _ {es : Edges} {a b : TipType} (v : IsForest es) (u : Unions es a b) where
  pub IsBounded-union :
      (us : List TipType) → contains us b ≡ true → IsBounded us es → IsBounded us (united u)
  IsBounded-union us inside bounded t r c p =
      let (r0, q) = root_of es v t in
      let r' = if equal_type r0 u.root1 then u.root2 else r0 in
      let e =
        Represents-unique (united u) t t r r' (equal_type_refl t) p (Represents-union v u t r0 q) in
      ground
        (arith, contains-equal us r r' e, bounded t r0 c q, bounded b u.root2 inside u.represents2)

  root_count-union_le :
      equal_type u.root2 u.root1 ≡ false
      → (us : List TipType) → root_count (united u) us ≤ root_count es us
  unfolding root_count
  root_count-union_le n [] = omega arith
  root_count-union_le n (t ∷ us) = ground (arith, is_root-union v u t, root_count-union_le n us)

  pub root_count-union :
      equal_type u.root2 u.root1 ≡ false
      → is_root es u.root1 ≡ true
      → (us : List TipType) → contains us u.root1 ≡ true
      → root_count (united u) us < root_count es us
  unfolding root_count contains
  root_count-union n top [] c = cc
  root_count-union n top (t ∷ us) c = ground (
    arith,
    is_root-union v u t,
    root_count-union_le n us,
    root_count-union n top us,
    is_root-equal es u.root1 t,
    equal_type_left u.root1 t u.root1,
    equal_type_refl u.root1,
  )
