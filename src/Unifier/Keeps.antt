-- ===== src/Unifier/Keeps.antt =====
-- A run of `unify` that ends leaves a valid forest, keeps the classes together and joins its
-- arguments.
use sipc.Types.{TipType, TipTypes, cons}
use sipc.UnionFind.{Edges}
use sipc.UnionFind.Find.{Grows}
use sipc.UnionFind.Union.{Unions}
use sipc.UnionFind.Classes.{
  SameClass, SameClass-trans, SameClass-sym, SameClass-root, SameClass-Grows, SameClass-union,
  SameClass-united, SameClass-equal,
}
use sipc.UnionFind.Laws.{IsValid, IsValid-Grows, IsValid-union}
use sipc.Unifier.{Outcome, done, unification_error, out_of_range, out_of_fuel, arguments}
use sipc.Unifier.Terms.{AllPairs}
use sipc.Unifier.Runs.{
  Runs, RunsAll, Finds, united, settled, bound_left, bound_right, decomposed, clash, finished, next,
  stopped,
}

-- `P` holds of the edges of a run that ends, and `E` where it throws the exception.
abbrev pub Ensures : (Edges → Type 0) → Type 0 → Outcome Edges → Type 0
Ensures P E (done es) = P es
Ensures P E (unification_error s t) = E
Ensures P E out_of_range = ⊥
Ensures P E out_of_fuel = ⊥

abbrev pub Includes : Edges → Edges → Type 0
Includes es fs = (x y : TipType) → SameClass es x y → SameClass fs x y

pub record Keeps (es fs : Edges) : Type 0 where
  pub valid : IsValid fs
  pub includes : Includes es fs

Keeps-trans : {es fs gs : Edges} → Keeps es fs → Keeps fs gs → Keeps es gs
Keeps-trans k l = record { valid = l.valid; includes = λ x y h. l.includes x y (k.includes x y h) }

Keeps-Grows : {es fs : Edges} → IsValid es → Grows es fs → Keeps es fs
Keeps-Grows v g = record { valid = IsValid-Grows g v; includes = λ x y. SameClass-Grows x y g }

Keeps-union :
    {es : Edges} {a b : TipType} (v : IsValid es) (u : Unions es a b) → Keeps es (united u)
Keeps-union v u = record { valid = IsValid-union v u; includes = SameClass-union v.forest u }

-- Joining the representatives joins the arguments.
module _ {es fs : Edges} {t1 t2 rep1 rep2 : TipType} (f : Finds es t1 t2 rep1 rep2 fs) where
  pub reps_joined : (gs : Edges) → Includes fs gs → SameClass gs rep1 rep2 → SameClass gs t1 t2
  reps_joined gs i h =
      SameClass-trans gs t1 rep1 t2
        (i t1 rep1 (SameClass-Grows t1 rep1 f.grows (SameClass-root es t1 rep1 f.found1)))
        (SameClass-trans gs rep1 rep2 t2 h (
          SameClass-sym gs t2 rep2
            (i t2 rep2 (SameClass-Grows t2 rep2 f.grows (SameClass-root es t2 rep2 f.found2)))))

after_args :
    {es fs gs : Edges} {t1 t2 rep1 rep2 : TipType} (f : Finds es t1 t2 rep1 rep2 fs)
    → Keeps es fs
    → Keeps fs gs
    → SameClass gs rep1 rep2
    → (xs ys : TipTypes) (o : Outcome Edges)
    → Ensures (λ hs. Keeps gs hs × AllPairs (SameClass hs) xs ys) Unit o
    → Ensures (λ hs. Keeps es hs × SameClass hs t1 t2) Unit o
after_args {rep1 = rep1} {rep2 = rep2} f k m c xs ys (done hs) h =
    let l = Keeps-trans m (h.0) in
    (Keeps-trans k l, reps_joined f hs l.includes (h.0.includes rep1 rep2 c))
after_args f k m c xs ys (unification_error s t) h = tt
after_args f k m c xs ys out_of_range h = h
after_args f k m c xs ys out_of_fuel h = h

after_first :
    {es fs : Edges} (x y : TipType) (xs ys : TipTypes)
    → Keeps es fs × SameClass fs x y
    → (o : Outcome Edges) → Ensures (λ gs. Keeps fs gs × AllPairs (SameClass gs) xs ys) Unit o
    → Ensures (λ gs. Keeps es gs × AllPairs (SameClass gs) (cons x xs) (cons y ys)) Unit o
after_first x y xs ys (k, c) (done gs) (l, rest) = (Keeps-trans k l, (l.includes x y c, rest))
after_first x y xs ys p (unification_error s t) h = tt
after_first x y xs ys p out_of_range h = h
after_first x y xs ys p out_of_fuel h = h

mutual
  pub Runs-Keeps :
      {t1 t2 : TipType} {es : Edges} {o : Outcome Edges}
      → Runs t1 t2 es o
      → IsValid es
      → Ensures (λ fs. Keeps es fs × SameClass fs t1 t2) Unit o
  Runs-Keeps (settled {t1} {t2} {rep1} {rep2} {es} {fs} f h) v =
      let k = Keeps-Grows v f.grows in
      (k, reps_joined f fs (λ x y e. e) (SameClass-equal fs rep1 rep2 k.valid.forest h))
  Runs-Keeps (bound_left f h l u) v =
      let k = Keeps-Grows v f.grows in
      let m = Keeps-union k.valid u in
      (Keeps-trans k m, reps_joined f (united u) m.includes (SameClass-united k.valid.forest u))
  Runs-Keeps (bound_right {rep1 = rep1} {rep2 = rep2} f h l r u) v =
      let k = Keeps-Grows v f.grows in
      let m = Keeps-union k.valid u in
      (
        Keeps-trans k m,
        reps_joined f (united u) m.includes
            (SameClass-sym (united u) rep2 rep1 (SameClass-united k.valid.forest u)),
      )
  Runs-Keeps (decomposed {rep1 = rep1} {rep2 = rep2} {o = o} f h l r d u rest) v =
      let k = Keeps-Grows v f.grows in
      let m = Keeps-union k.valid u in
      after_args f k m (SameClass-united k.valid.forest u) (arguments rep1) (arguments rep2) o
        (RunsAll-Keeps rest m.valid)
  Runs-Keeps (clash f h l r d) v = tt

  pub RunsAll-Keeps :
      {xs ys : TipTypes} {es : Edges} {o : Outcome Edges}
      → RunsAll xs ys es o
      → IsValid es
      → Ensures (λ fs. Keeps es fs × AllPairs (SameClass fs) xs ys) Unit o
  RunsAll-Keeps finished v = (record { valid = v; includes = λ x y h. h }, tt)
  RunsAll-Keeps (next {x} {y} {xs} {ys} {o = o} p rest) v =
      let k = Runs-Keeps p v in after_first x y xs ys k o (RunsAll-Keeps rest (k.0.valid))
  RunsAll-Keeps (stopped p) v = tt
