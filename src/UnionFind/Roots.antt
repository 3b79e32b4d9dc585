-- ===== src/UnionFind/Roots.antt =====
-- Parents and roots in a forest, and what the insertion of a term and the redirection of a root
-- do to them.
use sipc.Prelude.{
  ◌≡◌, refl, sym, ◌∙◌, ℕ, zero, suc, Bool, true, false, none, some, [], ◌∷◌, if◌then◌else◌, length,
  ◌⊎◌, arith,
}
use sipc.Types.{TipType, equal_type}
use sipc.Types.Equality.{equal_type_refl, equal_type_sym, equal_type_left, equal_type_right}
use sipc.UnionFind.{Edges, lookup, smart_insert, get_parent}

lookup_equal : (a b : TipType) (es : Edges) → equal_type a b ≡ true → lookup a es ≡ lookup b es
unfolding lookup
lookup_equal a b [] h = refl
lookup_equal a b ((key, p) ∷ es) h =
    ground (arith, equal_type_left a b key h, lookup_equal a b es h)

-- A term that is no key counts as its own parent.
unfoldable pub parent : Edges → TipType → TipType
parent es t = elim (lookup t es) [ some p ↦ p | none ↦ t ]

unfoldable pub is_root : Edges → TipType → Bool
is_root es t = equal_type (parent es t) t

pub is_root-equal :
    (es : Edges) (a b : TipType) → equal_type a b ≡ true → is_root es a ≡ is_root es b
unfolding is_root parent
is_root-equal es a b h = ground (
  arith,
  lookup_equal a b es h,
  equal_type_refl a,
  equal_type_refl b,
  equal_type_right a b (parent es a) h,
)

parent-equal :
    (es : Edges) (a b : TipType)
    → equal_type a b ≡ true
    → is_root es a ≡ false
    → parent es a ≡ parent es b
unfolding is_root parent
parent-equal es a b h n = ground (arith, lookup_equal a b es h, equal_type_refl a)

-- The edges after a lookup that inserts.
unfoldable pub ensure : TipType → Edges → Edges
ensure t es = elim (lookup t es) [ some _ ↦ es | none ↦ (t, t) ∷ es ]

pub smart_insert_lem :
    (t : TipType) (es : Edges) → smart_insert t es ≡ some (parent es t, ensure t es)
unfolding smart_insert parent ensure
smart_insert_lem t es = ground arith

pub get_parent_lem : (t : TipType) (es : Edges) → get_parent t es ≡ some (parent es t, ensure t es)
unfolding get_parent smart_insert parent ensure
get_parent_lem t es = ground arith

pub is_root-ensure : (u t : TipType) (es : Edges) → is_root (ensure u es) t ≡ is_root es t
unfolding is_root parent ensure lookup
is_root-ensure u t es = ground (arith, lookup_equal t u es, equal_type_sym t u, equal_type_refl t)

parent-ensure :
    (u t : TipType) (es : Edges) → is_root es t ≡ false → parent (ensure u es) t ≡ parent es t
unfolding is_root parent ensure lookup
parent-ensure u t es n = ground (arith, lookup_equal t u es, equal_type_refl t)

-- `Root es t n r`: n steps to a parent lead from t to the root r.
pub data Root (es : Edges) : TipType → ℕ → TipType → Type 0 where
  top : {t : TipType} → is_root es t ≡ true → Root es t zero t
  up :
      {t r : TipType} {n : ℕ}
      → is_root es t ≡ false
      → Root es (parent es t) n r
      → Root es t (suc n) r

pub Root-is_root : {es : Edges} {t r : TipType} {n : ℕ} → Root es t n r → is_root es r ≡ true
Root-is_root (top h) = h
Root-is_root (up _ p) = Root-is_root p

pub Root-ensure :
    (u : TipType) {es : Edges} {t r : TipType} {n : ℕ} → Root es t n r → Root (ensure u es) t n r
Root-ensure u {es} {t} (top h) = top (is_root-ensure u t es ∙ h)
Root-ensure u {es} {t} (up h p) =
    up (is_root-ensure u t es ∙ h) (rw (parent-ensure u t es h) (Root-ensure u p))

-- Equal terms have equal roots, at the same distance.
pub Root-equal :
    {es : Edges} {t r : TipType} {n : ℕ} (s : TipType)
    → equal_type t s ≡ true
    → Root es t n r
    → (r' : TipType) × Root es s n r' × (equal_type r r' ≡ true)
Root-equal {es} {t} s h (top k) = (s, top (sym (is_root-equal es t s h) ∙ k), h)
Root-equal {es} {t} {r} s h (up k p) = (
  r,
  up (sym (is_root-equal es t s h) ∙ k) (rw (sym (parent-equal es t s h k)) p),
  equal_type_refl r,
)

pub Root-unique : {es : Edges} {t r s : TipType} {n m : ℕ} → Root es t n r → Root es t m s → r ≡ s
Root-unique (top h) (top k) = refl
Root-unique (top h) (up k q) = cc
Root-unique (up h p) (top k) = cc
Root-unique (up h p) (up k q) = Root-unique p q

-- The number of edges from a root to itself.
unfoldable pub roots : Edges → ℕ
roots [] = 0
roots ((key, p) ∷ es) = if equal_type p key then suc (roots es) else roots es

pub roots-ensure :
    (t : TipType) (es : Edges)
    → (length (ensure t es) ≡ length es) × (roots (ensure t es) ≡ roots es)
      ⊎ (length (ensure t es) ≡ suc (length es)) × (roots (ensure t es) ≡ suc (roots es))
unfolding ensure roots
roots-ensure t es = ground (arith, equal_type_refl t)
