-- ===== src/UnionFind/Find.antt =====
-- `find` returns on every forest, with the root of its argument.
use sipc.Prelude.{
  ◌≡◌, refl, ◌∙◌, ◌≢◌, none, ℕ, zero, suc, ◌≤◌, ◌<◌, ◌+◌, true, false, some, [], length, arith,
}
use sipc.Types.{TipType, equal_type}
use sipc.Types.Equality.{equal_type_refl, equal_type_sym, equal_type_trans}
use sipc.UnionFind.{Edges, lookup, climb, find}
use sipc.UnionFind.Roots.{
  parent, is_root, ensure, smart_insert_lem, get_parent_lem, is_root-ensure, Root, top, up,
  Root-ensure, Root-equal, Root-unique, roots, roots-ensure,
}

-- Every term climbs to a root within `depth` steps, and the depth is at most the number of edges
-- that do not lead from a root to itself.
pub record IsForest (es : Edges) : Type 0 where
  pub depth : ℕ
  pub bound : depth + roots es ≤ length es
  pub climbs : (t : TipType) → (n : ℕ) × (r : TipType) × (n ≤ depth) × Root es t n r

pub IsForest-nil : IsForest []
unfolding roots is_root parent lookup
IsForest-nil = record {
  depth = 0;
  bound = omega arith;
  climbs = λ t. (0, t, omega arith, top (equal_type_refl t));
}

IsForest-ensure : (t : TipType) {es : Edges} → IsForest es → IsForest (ensure t es)
IsForest-ensure t {es} f = record {
  depth = f.depth;
  bound = ground (arith, roots-ensure t es);
  climbs = λ s. let (n, r, le, p) = f.climbs s in (n, r, le, Root-ensure t p);
}

-- The forest after some insertions.
pub data Grows (es : Edges) : Edges → Type 0 where
  same : Grows es es
  grow : {fs : Edges} (t : TipType) → Grows es fs → Grows es (ensure t fs)

pub Grows-trans : {es fs gs : Edges} → Grows es fs → Grows fs gs → Grows es gs
Grows-trans g same = g
Grows-trans g (grow t h) = grow t (Grows-trans g h)

lookup-ensure_self : (t : TipType) (es : Edges) → lookup t (ensure t es) ≢ none
unfolding ensure lookup
lookup-ensure_self t es h = ground (arith, equal_type_refl t)

-- A key stays a key.
lookup-ensure : (u t : TipType) (es : Edges) → lookup t es ≢ none → lookup t (ensure u es) ≢ none
unfolding ensure lookup
lookup-ensure u t es h = ground arith

pub lookup-Grows :
    {es fs : Edges} (t : TipType) → Grows es fs → lookup t es ≢ none → lookup t fs ≢ none
lookup-Grows t same h = h
lookup-Grows t (grow {fs} u g) h = lookup-ensure u t fs (lookup-Grows t g h)

Root-Grows : {es fs : Edges} {t r : TipType} {n : ℕ} → Grows es fs → Root es t n r → Root fs t n r
Root-Grows same p = p
Root-Grows (grow t g) p = Root-ensure t (Root-Grows g p)

pub is_root-Grows : {es fs : Edges} (t : TipType) → Grows es fs → is_root fs t ≡ is_root es t
is_root-Grows t same = refl
is_root-Grows t (grow {fs} u g) = is_root-ensure u t fs ∙ is_root-Grows t g

pub IsForest-Grows : {es fs : Edges} → Grows es fs → IsForest es → IsForest fs
IsForest-Grows same f = f
IsForest-Grows (grow t g) f = IsForest-ensure t (IsForest-Grows g f)

-- `r` is the root of `t`, up to equality of types.
abbrev pub Represents : Edges → TipType → TipType → Type 0
Represents es t r = (n : ℕ) × (s : TipType) × Root es t n s × (equal_type s r ≡ true)

pub Represents-Grows :
    {es fs : Edges} (t r : TipType) → Grows es fs → Represents es t r → Represents fs t r
Represents-Grows t r g (n, s, p, e) = (n, s, Root-Grows g p, e)

-- Representatives of equal terms are equal.
pub Represents-unique :
    (es : Edges) (t u r s : TipType)
    → equal_type t u ≡ true
    → Represents es t r
    → Represents es u s
    → equal_type r s ≡ true
Represents-unique es t u r s h (n, a, p, e) (m, b, q, k) =
    let (a', p', e') = Root-equal u h p in
    ground
      (arith, Root-unique p' q, equal_type_sym a r, equal_type_trans r a b, equal_type_trans r b s)

pub Represents-equal :
    (es : Edges) (t u r s : TipType)
    → equal_type t u ≡ true
    → equal_type r s ≡ true
    → Represents es t r
    → Represents es u s
Represents-equal es t u r s h k (n, a, p, e) =
    let (a', p', e') = Root-equal u h p in
    (n, a', p', equal_type_trans a' r s (equal_type_trans a' a r (equal_type_sym a a' e') e) k)

ensure_of_child : (t : TipType) (es : Edges) → is_root es t ≡ false → ensure t es ≡ es
unfolding ensure is_root parent
ensure_of_child t es h = ground (arith, equal_type_refl t)

climb_lem :
    (fuel : ℕ) (es : Edges) (t r : TipType) {n : ℕ}
    → Root es t n r
    → n < fuel
    → climb fuel t es ≡ some (r, ensure r es)
unfolding climb is_root
climb_lem zero es t r p h = absurd (omega arith)
climb_lem (suc fuel) es t r (top k) h = ground (arith, get_parent_lem t es)
climb_lem (suc fuel) es t r (up k p) h = ground (
  arith,
  get_parent_lem t es,
  ensure_of_child t es k,
  climb_lem fuel es (parent es t) r p (omega arith),
)

-- The parent of a term has the root of the term.
Root-parent :
    {es : Edges} {t r : TipType} {n : ℕ}
    → Root es t n r
    → (m : ℕ) × (s : TipType) × Root es (parent es t) m s × (equal_type r s ≡ true)
unfolding is_root
Root-parent {es} {t} (top h) =
    let (s, p, e) = Root-equal (parent es t) (equal_type_sym (parent es t) t h) (top h) in
    (0, s, p, e)
Root-parent {r = r} (up {n} h p) = (n, r, p, equal_type_refl r)

pub Represents-of_parent :
    {es : Edges} (t r : TipType) → IsForest es → Represents es (parent es t) r → Represents es t r
Represents-of_parent t r f (n, s, p, e) =
    let (m, u, le, q) = f.climbs t in
    let (k, v, q', e') = Root-parent q in
    (m, u, q, equal_type_trans u v r e' (rw (Root-unique q' p) e))

-- Insertions give no term another representative.
pub Represents-shrinks :
    {es fs : Edges} (t r : TipType)
    → IsForest es
    → Grows es fs
    → Represents fs t r
    → Represents es t r
Represents-shrinks t r f g (n, s, p, e) =
    let (m, u, le, q) = f.climbs t in (m, u, q, rw (Root-unique (Root-Grows g q) p) e)

pub record Finds (es : Edges) (t : TipType) : Type 0 where
  pub root : TipType
  pub after : Edges
  pub runs : find t es ≡ some (root, after)
  pub grows : Grows es after
  pub keyed : lookup root after ≢ none
  pub represents : Represents es t root

pub find_lem : {es : Edges} → IsForest es → (t : TipType) → Finds es t
unfolding find
find_lem {es} f t =
    let start = parent es t in
    let g = IsForest-ensure t f in
    let (n, r, le, p) = g.climbs start in
    let (m, s, _, q) = f.climbs t in
    let (k, u, q', e) = Root-parent q in
    record {
      root = r;
      after = ensure r (ensure t es);
      runs = ground (
        arith,
        smart_insert_lem t es,
        climb_lem (suc (length (ensure t es))) (ensure t es) start r p (omega (arith, g.bound)),
      );
      grows = grow r (grow t same);
      keyed = lookup-ensure_self r (ensure t es);
      represents = (m, s, q, rw (Root-unique p (Root-ensure t q')) e);
    }
