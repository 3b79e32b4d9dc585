-- ===== src/Unifier/Least.antt =====
-- Every solution of the constraints relates all that `unify` joins, and where there is a
-- solution `unify` throws no exception.
use sipc.Prelude.{◌≡◌, true, false, inl, inr}
use sipc.Types.{TipType, TipTypes, equal_type}
use sipc.UnionFind.{Edges}
use sipc.UnionFind.Union.{Unions}
use sipc.UnionFind.Classes.{SameClass, SameClass-root, SameClass-shrinks, SameClass-of_union}
use sipc.UnionFind.Laws.{IsValid, IsValid-Grows, IsValid-union}
use sipc.Unifier.{Outcome, is_var, arguments, do_match}
use sipc.Unifier.Terms.{AllPairs, IsEquivalence, Decomposes}
use sipc.Unifier.Keeps.{Ensures, Runs-Keeps}
use sipc.Unifier.Runs.{
  Runs, RunsAll, Finds, united, settled, bound_left, bound_right, decomposed, clash, finished, next,
  stopped,
}

-- A solution: an equivalence of type terms that relates two proper types only if they are equal,
-- or match and have related arguments. It may relate a variable with a type that contains it, so
-- recursive types are solutions.
pub record IsSolution (S : TipType → TipType → Type 0) : Type 0 where
  pub equivalence : IsEquivalence S
  pub decompose : (a b : TipType) → S a b → is_var a ≡ false → is_var b ≡ false → Decomposes S a b

-- All pairs of a class are related.
abbrev pub Within : (TipType → TipType → Type 0) → Edges → Type 0
Within S es = (x y : TipType) → SameClass es x y → S x y

module _ (S : TipType → TipType → Type 0) (sol : IsSolution S) where
  open sol use {equivalence.{symm, trans}, decompose}

  reps_related :
      {es fs : Edges} {t1 t2 rep1 rep2 : TipType}
      → Within S es
      → Finds es t1 t2 rep1 rep2 fs
      → S t1 t2
      → S rep1 rep2
  reps_related {es} {fs} {t1} {t2} {rep1} {rep2} w f h =
      trans rep1 t1 rep2 (symm t1 rep1 (w t1 rep1 (SameClass-root es t1 rep1 f.found1)))
        (trans t1 t2 rep2 h (w t2 rep2 (SameClass-root es t2 rep2 f.found2)))

  Within-finds :
      {es fs : Edges} {t1 t2 rep1 rep2 : TipType}
      → IsValid es
      → Finds es t1 t2 rep1 rep2 fs
      → Within S es
      → Within S fs
  Within-finds v f w x y h = w x y (SameClass-shrinks x y v.forest f.grows h)

  Within-union :
      {es : Edges} {a b : TipType} (v : IsValid es) (u : Unions es a b)
      → Within S es
      → S a b
      → Within S (united u)
  Within-union {es} {a} {b} v u w h x y c = elim (SameClass-of_union v.forest u x y c) [
    | inl e ↦ w x y e
    | inr (inl (e, k)) ↦ trans x a y (w x a e) (trans a b y h (w b y k))
    | inr (inr (e, k)) ↦ trans x b y (w x b e) (trans b a y (symm a b h) (w a y k))
  ]

  args_related :
      (a b : TipType)
      → S a b
      → equal_type a b ≡ false
      → is_var a ≡ false
      → is_var b ≡ false
      → (do_match a b ≡ true) × AllPairs S (arguments a) (arguments b)
  args_related a b h n p q = elim (decompose a b h p q) [ inl e ↦ cc | inr r ↦ r ]

  mutual
    pub Runs-Within :
        {t1 t2 : TipType} {es : Edges} {o : Outcome Edges}
        → Runs t1 t2 es o
        → IsValid es
        → Within S es
        → S t1 t2
        → Ensures (Within S) ⊥ o
    Runs-Within (settled f e) v w h = Within-finds v f w
    Runs-Within (bound_left f n l u) v w h =
        Within-union (IsValid-Grows f.grows v) u (Within-finds v f w) (reps_related w f h)
    Runs-Within (bound_right {rep1 = rep1} {rep2 = rep2} f n l r u) v w h =
        Within-union (IsValid-Grows f.grows v) u (Within-finds v f w)
          (symm rep1 rep2 (reps_related w f h))
    Runs-Within (decomposed {rep1 = rep1} {rep2 = rep2} f n l r d u rest) v w h =
        let v' = IsValid-Grows f.grows v in
        let s = reps_related w f h in
        RunsAll-Within rest (IsValid-union v' u) (Within-union v' u (Within-finds v f w) s)
          ((args_related rep1 rep2 s n l r).1)
    Runs-Within (clash {rep1 = rep1} {rep2 = rep2} f n l r d) v w h =
        let p = (args_related rep1 rep2 (reps_related w f h) n l r).0 in cc

    pub RunsAll-Within :
        {xs ys : TipTypes} {es : Edges} {o : Outcome Edges}
        → RunsAll xs ys es o
        → IsValid es
        → Within S es
        → AllPairs S xs ys
        → Ensures (Within S) ⊥ o
    RunsAll-Within finished v w h = w
    RunsAll-Within (next p rest) v w (h, hs) =
        RunsAll-Within rest ((Runs-Keeps p v).0.valid) (Runs-Within p v w h) hs
    RunsAll-Within (stopped p) v w (h, hs) = Runs-Within p v w h
