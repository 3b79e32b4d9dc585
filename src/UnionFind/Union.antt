-- ===== src/UnionFind/Union.antt =====
-- `quick_union` returns on every forest, and merges exactly the classes of its two arguments.
use sipc.Prelude.{
  ◌≡◌, ◌≢◌, none, refl, sym, ◌∙◌, ℕ, suc, ◌≤◌, ◌+◌, true, false, some, [], ◌∷◌, length, inl, inr,
  if◌then◌else◌, Bool-cases, arith,
}
use sipc.Types.{TipType, equal_type}
use sipc.Types.Equality.{
  equal_type_refl, equal_type_sym, equal_type_trans, equal_type_left, equal_type_right,
}
use sipc.UnionFind.{Edges, lookup, redirect, quick_union}
use sipc.UnionFind.Roots.{
  parent, is_root, is_root-equal, ensure, smart_insert_lem, Root, top, up, Root-is_root, roots,
}
use sipc.UnionFind.Find.{
  IsForest, IsForest-Grows, Grows, same, grow, Grows-trans, Represents, Represents-of_parent,
  Represents-shrinks, Represents-Grows, is_root-Grows, lookup-Grows, find_lem,
}

lookup-redirect :
    (a b t : TipType) (es : Edges)
    → lookup a es ≢ none
    → lookup t (redirect a b es) ≡ (if equal_type t a then some b else lookup t es)
unfolding lookup redirect
lookup-redirect a b t [] h = absurd (h refl)
lookup-redirect a b t ((key, p) ∷ es) h = ground (
  arith,
  lookup-redirect a b t es,
  equal_type_right a key t,
  equal_type_left t a key,
  equal_type_left t key a,
  equal_type_sym key a,
  equal_type_sym a key,
)

length-redirect : (a b : TipType) (es : Edges) → length (redirect a b es) ≡ length es
unfolding redirect
length-redirect a b [] = refl
length-redirect a b ((key, p) ∷ es) = ground (arith, length-redirect a b es)

-- Redirecting a root to another term makes it a root no more.
roots-redirect :
    (a b : TipType) (es : Edges)
    → lookup a es ≢ none
    → is_root es a ≡ true
    → roots (redirect a b es) + (if equal_type b a then 0 else 1) ≡ roots es
unfolding lookup redirect is_root parent roots
roots-redirect a b [] h k = absurd (h refl)
roots-redirect a b ((key, p) ∷ es) h k =
    ground (arith, roots-redirect a b es, equal_type_right a key p)

module _ (a b : TipType) (es : Edges) (keyed : lookup a es ≢ none) (root_a : is_root es a ≡ true)
    (root_b : is_root es b ≡ true) where
  parent-redirect :
      (t : TipType) → parent (redirect a b es) t ≡ (if equal_type t a then b else parent es t)
  unfolding parent
  parent-redirect t = ground (arith, lookup-redirect a b t es keyed)

  -- The new root of a term with root `r`.
  pub is_root-redirect :
      (t : TipType)
      → is_root (redirect a b es) t ≡ (if equal_type t a then equal_type b a else is_root es t)
  unfolding is_root
  is_root-redirect t = ground (arith, parent-redirect t, equal_type_right t a b)

  other_of_child : (t : TipType) → is_root es t ≡ false → equal_type t a ≡ false
  other_of_child t h = ground (arith, is_root-equal es t a)

  Root-redirect :
      (t r : TipType) {n : ℕ}
      → Root es t n r
      → (m : ℕ) × (s : TipType) × (m + (if equal_type b a then 1 else 0) ≤ suc n)
        × Root (redirect a b es) t m s
        × (equal_type s (if equal_type r a then b else r) ≡ true)
  Root-redirect t r (top h) = elim (Bool-cases (equal_type t a)) [
    | inr other ↦
        (0, t, ground arith, top (ground (arith, is_root-redirect t)), rw other (equal_type_refl t))
    | inl at_a ↦ elim (Bool-cases (equal_type b a)) [
      | inl joined ↦ (
        0,
        t,
        ground arith,
        top (ground (arith, is_root-redirect t)),
        rw at_a (equal_type_trans t a b at_a (equal_type_sym b a joined)),
      )
      | inr apart ↦ (
        1,
        b,
        ground arith,
        up (ground (arith, is_root-redirect t))
            (rw (parent-redirect t, at_a) (top (ground (arith, is_root-redirect b)))),
        rw at_a (equal_type_refl b),
      )
    ]
  ]
  Root-redirect t r (up {n} h p) =
      let (m, s, le, q, e) = Root-redirect (parent es t) r p in
      (
        suc m,
        s,
        omega arith,
        up (ground (arith, is_root-redirect t, other_of_child t h))
            (rw (parent-redirect t, other_of_child t h) q),
        e,
      )

  pub Represents-redirect :
      (t r : TipType)
      → Represents es t r
      → Represents (redirect a b es) t (if equal_type r a then b else r)
  Represents-redirect t r (n, u, p, e) =
      let (m, s, le, q, k) = Root-redirect t u p in
      (m, s, q, ground (arith, equal_type_left u r a e, equal_type_trans s u r))

  pub IsForest-redirect : IsForest es → IsForest (redirect a b es)
  IsForest-redirect f = record {
    depth = f.depth + (if equal_type b a then 0 else 1);
    bound = ground (arith, f.bound, length-redirect a b es, roots-redirect a b es keyed root_a);
    climbs = λ t.
        let (n, r, le, p) = f.climbs t in
        let (m, s, le', q, k) = Root-redirect t r p in (m, s, ground arith, q);
  }

pub Represents-is_root : {es : Edges} (t r : TipType) → Represents es t r → is_root es r ≡ true
Represents-is_root {es} t r (n, s, p, e) = sym (is_root-equal es s r e) ∙ Root-is_root p

-- What `quick_union` does: the root of the first class gets the root of the second for a parent.
pub record Unions (es : Edges) (t1 t2 : TipType) : Type 0 where
  pub root1 : TipType
  pub root2 : TipType
  pub before : Edges
  pub grows : Grows es before
  pub runs : quick_union t1 t2 es ≡ some (tt, redirect root1 root2 before)
  pub keyed : lookup root1 before ≢ none
  pub represents1 : Represents es t1 root1
  pub represents2 : Represents es t2 root2

pub quick_union_lem : {es : Edges} → IsForest es → (t1 t2 : TipType) → Unions es t1 t2
unfolding quick_union
quick_union_lem {es} f t1 t2 =
    let es1 = ensure t1 es in
    let es2 = ensure t2 es1 in
    let g1 : Grows es es1 = grow t1 same in
    let g2 : Grows es es2 = grow t2 g1 in
    let f1 = IsForest-Grows g1 f in
    let f2 = IsForest-Grows g2 f in
    let find1 = find_lem f2 (parent es t1) in
    let f3 = IsForest-Grows find1.grows f2 in
    let find2 = find_lem f3 (parent es1 t2) in
    let g3 = Grows-trans g2 find1.grows in
    record {
      root1 = find1.root;
      root2 = find2.root;
      before = find2.after;
      grows = Grows-trans g3 find2.grows;
      runs =
          ground (arith, smart_insert_lem t1 es, smart_insert_lem t2 es1, find1.runs, find2.runs);
      keyed = lookup-Grows find1.root find2.grows find1.keyed;
      represents1 =
          Represents-of_parent t1 find1.root f
            (Represents-shrinks (parent es t1) find1.root f g2 find1.represents);
      represents2 = Represents-shrinks t2 find2.root f g1 (
          Represents-of_parent t2 find2.root f1 (
            Represents-shrinks (parent es1 t2) find2.root f1
              (Grows-trans (grow t2 same) find1.grows) find2.represents));
    }

module _ {es : Edges} {t1 t2 : TipType} (f : IsForest es) (u : Unions es t1 t2) where
  abbrev pub after : Edges
  after = redirect u.root1 u.root2 u.before

  root_before : (t r : TipType) → Represents es t r → is_root u.before r ≡ true
  root_before t r p = is_root-Grows r u.grows ∙ Represents-is_root t r p

  pub IsForest-union : IsForest after
  IsForest-union =
      IsForest-redirect u.root1 u.root2 u.before u.keyed (root_before t1 u.root1 u.represents1)
        (root_before t2 u.root2 u.represents2) (IsForest-Grows u.grows f)

  pub Represents-union :
      (t r : TipType)
      → Represents es t r
      → Represents after t (if equal_type r u.root1 then u.root2 else r)
  Represents-union t r p =
      Represents-redirect u.root1 u.root2 u.before u.keyed (root_before t1 u.root1 u.represents1)
        (root_before t2 u.root2 u.represents2) t r (Represents-Grows t r u.grows p)

  pub is_root-union :
      (t : TipType)
      → is_root after t
        ≡ (if equal_type t u.root1 then equal_type u.root2 u.root1 else is_root es t)
  is_root-union t = ground (
    arith,
    is_root-redirect u.root1 u.root2 u.before u.keyed (root_before t1 u.root1 u.represents1)
        (root_before t2 u.root2 u.represents2) t,
    is_root-Grows t u.grows,
  )
