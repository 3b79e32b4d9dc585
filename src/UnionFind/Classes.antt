-- ===== src/UnionFind/Classes.antt =====
-- The classes of a forest: the terms with equal roots. This is what a client of the structure
-- reasons with.
use sipc.Prelude.{◌≡◌, true, if◌then◌else◌, inl, inr, ◌⊎◌, ◌↔◌, arith}
use sipc.Types.{TipType, equal_type}
use sipc.Types.Equality.{equal_type_refl, equal_type_sym, equal_type_trans}
use sipc.UnionFind.{Edges}
use sipc.UnionFind.Roots.{is_root, top}
use sipc.UnionFind.Find.{
  IsForest, Grows, Represents, Represents-Grows, Represents-shrinks, Represents-unique,
  Represents-equal,
}
use sipc.UnionFind.Union.{Unions, Represents-union, Represents-is_root, after}

pub SameClass : Edges → TipType → TipType → Type 0
SameClass es x y = (r : TipType) × Represents es x r × Represents es y r

pub class_of :
    (es : Edges) (x y r : TipType) → Represents es x r → Represents es y r → SameClass es x y
unfolding SameClass
class_of es x y r p q = (r, p, q)

pub root_of : (es : Edges) → IsForest es → (t : TipType) → (r : TipType) × Represents es t r
root_of es f t = let (n, r, le, p) = f.climbs t in (r, (n, r, p, equal_type_refl r))

pub SameClass-equal :
    (es : Edges) (x y : TipType) → IsForest es → equal_type x y ≡ true → SameClass es x y
unfolding SameClass
SameClass-equal es x y f h =
    let (r, p) = root_of es f x in (r, p, Represents-equal es x y r r h (equal_type_refl r) p)

pub SameClass-sym : (es : Edges) (x y : TipType) → SameClass es x y → SameClass es y x
unfolding SameClass
SameClass-sym es x y (r, p, q) = (r, q, p)

pub SameClass-trans :
    (es : Edges) (x y z : TipType) → SameClass es x y → SameClass es y z → SameClass es x z
unfolding SameClass
SameClass-trans es x y z (r, p, q) (s, u, v) = (
  s,
  Represents-equal es x x r s (equal_type_refl x)
      (Represents-unique es y y r s (equal_type_refl y) q u) p,
  v,
)

-- A root represents itself.
pub Represents-self : (es : Edges) (r : TipType) → is_root es r ≡ true → Represents es r r
Represents-self es r h = (0, r, top h, equal_type_refl r)

-- A representative lies in the class that it represents.
pub SameClass-root : (es : Edges) (t r : TipType) → Represents es t r → SameClass es t r
unfolding SameClass
SameClass-root es t r p = (r, p, Represents-self es r (Represents-is_root t r p))

pub Represents-self_of : (es : Edges) (t r : TipType) → Represents es t r → Represents es r r
Represents-self_of es t r p = Represents-self es r (Represents-is_root t r p)

-- The representatives of two terms of a class are equal.
pub roots-equal :
    (es : Edges) (x y r s : TipType)
    → Represents es x r
    → Represents es y s
    → SameClass es x y
    → equal_type r s ≡ true
unfolding SameClass
roots-equal es x y r s p q (t, u, v) =
    equal_type_trans r t s (Represents-unique es x x r t (equal_type_refl x) p u)
      (Represents-unique es y y t s (equal_type_refl y) v q)

pub SameClass-Grows :
    {es fs : Edges} (x y : TipType) → Grows es fs → SameClass es x y → SameClass fs x y
unfolding SameClass
SameClass-Grows x y g (r, p, q) = (r, Represents-Grows x r g p, Represents-Grows y r g q)

pub SameClass-shrinks :
    {es fs : Edges} (x y : TipType)
    → IsForest es
    → Grows es fs
    → SameClass fs x y
    → SameClass es x y
unfolding SameClass
SameClass-shrinks x y f g (r, p, q) =
    (r, Represents-shrinks x r f g p, Represents-shrinks y r f g q)

-- Redirecting the class of `a` to `b` joins exactly these pairs of roots.
pub merged_iff :
    (x y a b : TipType)
    → (equal_type (if equal_type x a then b else x) (if equal_type y a then b else y) ≡ true) ↔ (
        (equal_type x y ≡ true)
        ⊎ (equal_type x a ≡ true) × (equal_type b y ≡ true)
        ⊎ (equal_type x b ≡ true) × (equal_type a y ≡ true))
merged_iff x y a b = ground (
  arith,
  equal_type_refl b,
  equal_type_sym y a,
  equal_type_sym a y,
  equal_type_sym x y,
  equal_type_trans x a y,
  equal_type_trans x y a,
  equal_type_trans y x a,
)

module _ {es : Edges} {a b : TipType} (f : IsForest es) (u : Unions es a b) where
  pub SameClass-union : (x y : TipType) → SameClass es x y → SameClass (after f u) x y
  unfolding SameClass
  SameClass-union x y (r, p, q) = (
    (if equal_type r u.root1 then u.root2 else r),
    Represents-union f u x r p,
    Represents-union f u y r q,
  )

  pub SameClass-united : SameClass (after f u) a b
  unfolding SameClass
  SameClass-united =
      let p = Represents-union f u a u.root1 u.represents1 in
      let q = Represents-union f u b u.root2 u.represents2 in
      (
        u.root2,
        rw (equal_type_refl u.root1) at p,
        Represents-equal (after f u) b b (if equal_type u.root2 u.root1 then u.root2 else u.root2)
            u.root2 (equal_type_refl b) (ground (arith, equal_type_refl u.root2)) (ground arith),
      )

  -- `quick_union` joins no other terms.
  pub SameClass-of_union :
      (x y : TipType)
      → SameClass (after f u) x y
      → SameClass es x y ⊎ SameClass es x a × SameClass es b y ⊎ SameClass es x b × SameClass es a y
  SameClass-of_union x y h =
      let (rx, p) = root_of es f x in
      let (ry, q) = root_of es f y in
      let joined =
        roots-equal (after f u) x y (if equal_type rx u.root1 then u.root2 else rx)
          (if equal_type ry u.root1 then u.root2 else ry) (Represents-union f u x rx p)
          (Represents-union f u y ry q) h in
      elim ((merged_iff rx ry u.root1 u.root2).0 joined) [
        | inl e ↦ inl (of_roots x y rx ry p q e)
        | inr (inl (e, k)) ↦ inr (
            inl (
              of_roots x a rx u.root1 p u.represents1 e,
              of_roots b y u.root2 ry u.represents2 q k,
            ))
        | inr (inr (e, k)) ↦ inr (
            inr (
              of_roots x b rx u.root2 p u.represents2 e,
              of_roots a y u.root1 ry u.represents1 q k,
            ))
      ]
    where
      of_roots :
          (x y r s : TipType)
          → Represents es x r
          → Represents es y s
          → equal_type r s ≡ true
          → SameClass es x y
      of_roots x y r s p q e =
          class_of es x y s (Represents-equal es x x r s (equal_type_refl x) e p) q
