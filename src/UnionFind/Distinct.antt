-- ===== src/UnionFind/Distinct.antt =====
-- The assertion of `invariant`: no two keys are equal, and what follows for lookups.
use mathlib.Core.List.{Permᴰ}
use sipc.Prelude.{◌≡◌, refl, ◌∙◌, ◌↔◌, true, none, [], ◌∷◌, arith}
use sipc.Types.{TipType, equal_type}
use sipc.Types.Equality.{equal_type_sym, equal_type_trans, equal_type_left, equal_type_right}
use sipc.UnionFind.{Edges, lookup, is_fresh, invariant, redirect}
use sipc.UnionFind.Roots.{ensure}
use sipc.UnionFind.Find.{Grows, same, grow}

is_fresh_iff : (t : TipType) (es : Edges) → (is_fresh t es ≡ true) ↔ (lookup t es ≡ none)
unfolding is_fresh lookup
is_fresh_iff t [] = (λ _. refl, λ _. refl)
is_fresh_iff t ((key, p) ∷ es) = ground (arith, is_fresh_iff t es)

invariant-ensure : (t : TipType) (es : Edges) → invariant es ≡ true → invariant (ensure t es) ≡ true
unfolding invariant ensure
invariant-ensure t es h = ground (arith, is_fresh_iff t es)

pub invariant-Grows : {es fs : Edges} → Grows es fs → invariant es ≡ true → invariant fs ≡ true
invariant-Grows same h = h
invariant-Grows (grow {fs} t g) h = invariant-ensure t fs (invariant-Grows g h)

is_fresh-equal :
    (a b : TipType) (es : Edges) → equal_type a b ≡ true → is_fresh a es ≡ is_fresh b es
unfolding is_fresh
is_fresh-equal a b [] h = refl
is_fresh-equal a b ((key, p) ∷ es) h =
    ground (arith, equal_type_left a b key h, is_fresh-equal a b es h)

is_fresh-redirect : (a b t : TipType) (es : Edges) → is_fresh t (redirect a b es) ≡ is_fresh t es
unfolding is_fresh redirect
is_fresh-redirect a b t [] = refl
is_fresh-redirect a b t ((key, p) ∷ es) =
    ground (arith, is_fresh-redirect a b t es, equal_type_right a key t)

pub invariant-redirect :
    (a b : TipType) (es : Edges) → invariant es ≡ true → invariant (redirect a b es) ≡ true
unfolding invariant redirect
invariant-redirect a b [] h = refl
invariant-redirect a b ((key, p) ∷ es) h =
    ground (arith, invariant-redirect a b es, is_fresh-redirect a b key es, is_fresh-equal a key es)

is_fresh-perm : (t : TipType) {es fs : Edges} → Permᴰ es fs → is_fresh t es ≡ is_fresh t fs
unfolding is_fresh
is_fresh-perm t Permᴰ.nil = refl
is_fresh-perm t (Permᴰ.cons {a} {b} e d) = ground (arith, is_fresh-perm t d)
is_fresh-perm t (Permᴰ.swap {a} {b} {a'} {b'} e k) = ground arith
is_fresh-perm t (Permᴰ.trans d d') = is_fresh-perm t d ∙ is_fresh-perm t d'

invariant-perm : {es fs : Edges} → Permᴰ es fs → invariant es ≡ true → invariant fs ≡ true
unfolding invariant is_fresh
invariant-perm Permᴰ.nil h = h
invariant-perm (Permᴰ.cons {a} {b} e d) h = ground (arith, is_fresh-perm (a.0) d, invariant-perm d)
invariant-perm (Permᴰ.swap {a} {b} {a'} {b'} e k) h = ground (arith, equal_type_sym (b.0) (a.0))
invariant-perm (Permᴰ.trans d d') h = invariant-perm d' (invariant-perm d h)

-- Where no two keys are equal, a lookup does not observe the order of the edges.
pub lookup-perm :
    (t : TipType) {es fs : Edges} → Permᴰ es fs → invariant es ≡ true → lookup t es ≡ lookup t fs
unfolding invariant is_fresh lookup
lookup-perm t Permᴰ.nil h = refl
lookup-perm t (Permᴰ.cons {a} {b} e d) h = ground (arith, lookup-perm t d)
lookup-perm t (Permᴰ.swap {a} {b} {a'} {b'} e k) h = ground (
  arith,
  equal_type_trans (a.0) t (b.0),
  equal_type_trans (b.0) t (a.0),
  equal_type_sym t (a.0),
  equal_type_sym t (b.0),
)
lookup-perm t (Permᴰ.trans d d') h = lookup-perm t d h ∙ lookup-perm t d' (invariant-perm d h)
