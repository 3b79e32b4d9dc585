-- ===== src/UnionFind/Laws.antt =====
-- What the union-find structure promises its clients.
use sipc.Prelude.{◌≡◌, refl, ◌∙◌, ◌↔◌, ◌⊎◌, true, Option, some, List, [], ◌∷◌, if◌then◌else◌, arith}
use sipc.Types.{TipType, equal_type}
use sipc.Types.Equality.{equal_type_refl, equal_type_left, equal_type_right}
use sipc.UnionFind.{Edges, invariant, add, find, redirect, quick_union, connected}
use sipc.UnionFind.Roots.{ensure, smart_insert_lem, top}
use sipc.UnionFind.Distinct.{invariant-Grows, invariant-redirect}
use sipc.UnionFind.Find.{
  IsForest, IsForest-nil, IsForest-Grows, Grows, same, grow, Grows-trans, Represents,
  Represents-Grows, Represents-shrinks, Represents-unique, find_lem,
}
use sipc.UnionFind.Classes.{merged_iff, root_of}
use sipc.UnionFind.Union.{
  Unions, quick_union_lem, IsForest-union, Represents-union, Represents-is_root, after,
}

-- What holds of the edges between two calls.
pub record IsValid (es : Edges) : Type 0 where
  pub forest : IsForest es
  pub distinct : invariant es ≡ true

pub IsValid-Grows : {es fs : Edges} → Grows es fs → IsValid es → IsValid fs
IsValid-Grows g v = record {
  forest = IsForest-Grows g v.forest;
  distinct = invariant-Grows g v.distinct;
}

pub IsValid-union :
    {es : Edges} {t1 t2 : TipType} (v : IsValid es) (u : Unions es t1 t2)
    → IsValid (redirect u.root1 u.root2 u.before)
IsValid-union v u = record {
  forest = IsForest-union v.forest u;
  distinct = invariant-redirect u.root1 u.root2 u.before (invariant-Grows u.grows v.distinct);
}

-- One call of a public method.
pub data Step (es : Edges) : Edges → Type 0 where
  added : (seed : List TipType) {fs : Edges} → add seed es ≡ some (tt, fs) → Step es fs
  found : (t r : TipType) {fs : Edges} → find t es ≡ some (r, fs) → Step es fs
  united : (t1 t2 : TipType) {fs : Edges} → quick_union t1 t2 es ≡ some (tt, fs) → Step es fs

pub data Reachable : Edges → Type 0 where
  empty : Reachable []
  next : {es fs : Edges} → Reachable es → Step es fs → Reachable fs

pub add_lem :
    (seed : List TipType) (es : Edges) → (fs : Edges) × (add seed es ≡ some (tt, fs)) × Grows es fs
unfolding add
add_lem [] es = (es, refl, same)
add_lem (t ∷ seed) es =
    let (fs, runs, g) = add_lem seed (ensure t es) in
    (fs, ground (arith, smart_insert_lem t es), Grows-trans (grow t same) g)

same_state :
    {A : Type 0} {a b : A} {es fs : Edges} {o : Option (A × Edges)}
    → o ≡ some (a, es)
    → o ≡ some (b, fs)
    → es ≡ fs
same_state p q = ground arith

IsValid-step : {es fs : Edges} → Step es fs → IsValid es → IsValid fs
IsValid-step {es} (added seed h) v =
    let (fs, runs, g) = add_lem seed es in rw (same_state h runs) (IsValid-Grows g v)
IsValid-step (found t r h) v =
    let f = find_lem v.forest t in rw (same_state h f.runs) (IsValid-Grows f.grows v)
IsValid-step (united t1 t2 h) v =
    let u = quick_union_lem v.forest t1 t2 in rw (same_state h u.runs) (IsValid-union v u)

-- After any sequence of calls on a new structure the edges are a forest of bounded depth and no
-- two keys are equal, so the assertion of `invariant` does not fail.
pub Reachable-IsValid : {es : Edges} → Reachable es → IsValid es
unfolding invariant
Reachable-IsValid empty = record { forest = IsForest-nil; distinct = refl }
Reachable-IsValid (next p s) = IsValid-step s (Reachable-IsValid p)

-- `connected` answers true.
abbrev pub Joined : Edges → TipType → TipType → Type 0
Joined es x y = (fs : Edges) × (connected x y es ≡ some (true, fs))

record Connects (es : Edges) (x y : TipType) : Type 0 where
  left : TipType
  right : TipType
  after_both : Edges
  represents_left : Represents es x left
  represents_right : Represents es y right
  runs : connected x y es ≡ some (equal_type left right, after_both)

connected_lem : {es : Edges} → IsForest es → (x y : TipType) → Connects es x y
unfolding connected
connected_lem f x y =
    let find1 = find_lem f x in
    let find2 = find_lem (IsForest-Grows find1.grows f) y in
    record {
      left = find1.root;
      right = find2.root;
      after_both = find2.after;
      represents_left = find1.represents;
      represents_right = Represents-shrinks y find2.root f find1.grows find2.represents;
      runs = ground (arith, find1.runs, find2.runs);
    }

Joined_iff :
    {es : Edges} (f : IsForest es) (x y r s : TipType)
    → Represents es x r
    → Represents es y s
    → Joined es x y ↔ (equal_type r s ≡ true)
Joined_iff {es} f x y r s p q =
    let c = connected_lem f x y in
    let left = Represents-unique es x x r c.left (equal_type_refl x) p c.represents_left in
    let right = Represents-unique es y y s c.right (equal_type_refl y) q c.represents_right in
    let agree = equal_type_left r c.left s left ∙ equal_type_right s c.right c.left right in
    (λ (fs, h). ground (arith, c.runs), λ h. (c.after_both, ground (arith, c.runs)))

-- On the edges that any sequence of calls leaves, `quick_union` returns, and afterwards
-- `connected` answers true for two terms exactly when it did so before, or when it did so for
-- one of them and the first argument, and for the other and the second.
pub connected-quick_union :
    {es : Edges}
    → Reachable es
    → (a b : TipType)
    → (fs : Edges) × (quick_union a b es ≡ some (tt, fs))
      × ((x y : TipType)
          → Joined fs x y
            ↔ (Joined es x y ⊎ Joined es x a × Joined es b y ⊎ Joined es x b × Joined es a y))
connected-quick_union {es} reached a b =
    let v = Reachable-IsValid reached in
    let u = quick_union_lem v.forest a b in
    let f = v.forest in
    (
      after f u,
      u.runs,
      λ x y.
          let (rx, px) = root_of es f x in
          let (ry, py) = root_of es f y in
          ground (
            arith,
            Joined_iff (IsForest-union f u) x y (if equal_type rx u.root1 then u.root2 else rx)
                (if equal_type ry u.root1 then u.root2 else ry) (Represents-union f u x rx px)
                (Represents-union f u y ry py),
            merged_iff rx ry u.root1 u.root2,
            Joined_iff f x y rx ry px py,
            Joined_iff f x a rx u.root1 px u.represents1,
            Joined_iff f b y u.root2 ry u.represents2 py,
            Joined_iff f x b rx u.root2 px u.represents2,
            Joined_iff f a y u.root1 ry u.represents1 py,
          ),
    )

-- On such edges `find` returns, its result is a root and answers `connected` with the argument,
-- and two calls in a row give equal results.
pub find_correct :
    {es : Edges}
    → Reachable es
    → (t : TipType)
    → (r : TipType) × (fs : Edges) × (find t es ≡ some (r, fs))
      × Joined fs t r
      × ((s : TipType) (gs : Edges) → find t fs ≡ some (s, gs) → equal_type r s ≡ true)
find_correct reached t =
    let v = Reachable-IsValid reached in
    let found = find_lem v.forest t in
    let f = IsForest-Grows found.grows v.forest in
    let p = Represents-Grows t found.root found.grows found.represents in
    let again = find_lem f t in
    (
      found.root,
      found.after,
      found.runs,
      (Joined_iff f t found.root found.root found.root p
            (0, found.root, top (Represents-is_root t found.root p), equal_type_refl found.root)).1
          (equal_type_refl found.root),
      λ s gs h. ground (
        arith,
        again.runs,
        Represents-unique found.after t t found.root again.root (equal_type_refl t) p
            again.represents,
      ),
    )
