-- ===== src/Unifier/Runs.antt =====
-- The runs of `unify` without fuel: a derivation of the outcome from the representatives found,
-- the edges redirected and the runs on the arguments.
use sipc.Prelude.{◌≡◌, true, false}
use sipc.Types.{TipType, TipTypes, nil, cons, equal_type}
use sipc.UnionFind.{Edges, redirect}
use sipc.UnionFind.Find.{Grows, Represents}
use sipc.UnionFind.Union.{Unions}
use sipc.Unifier.{Outcome, done, unification_error, is_var, arguments, do_match}

-- What `unify` knows after its two calls of `find`.
pub record Finds (es : Edges) (t1 t2 rep1 rep2 : TipType) (fs : Edges) : Type 0 where
  pub grows : Grows es fs
  pub found1 : Represents es t1 rep1
  pub found2 : Represents es t2 rep2

-- The edges that a union leaves.
abbrev pub united : {es : Edges} {a b : TipType} → Unions es a b → Edges
united u = redirect u.root1 u.root2 u.before

mutual
  pub data Runs : TipType → TipType → Edges → Outcome Edges → Type 0 where
    settled :
        {t1 t2 rep1 rep2 : TipType} {es fs : Edges}
        → Finds es t1 t2 rep1 rep2 fs
        → equal_type rep1 rep2 ≡ true
        → Runs t1 t2 es (done fs)
    bound_left :
        {t1 t2 rep1 rep2 : TipType} {es fs : Edges}
        → Finds es t1 t2 rep1 rep2 fs
        → equal_type rep1 rep2 ≡ false
        → is_var rep1 ≡ true
        → (u : Unions fs rep1 rep2) → Runs t1 t2 es (done (united u))
    bound_right :
        {t1 t2 rep1 rep2 : TipType} {es fs : Edges}
        → Finds es t1 t2 rep1 rep2 fs
        → equal_type rep1 rep2 ≡ false
        → is_var rep1 ≡ false
        → is_var rep2 ≡ true
        → (u : Unions fs rep2 rep1) → Runs t1 t2 es (done (united u))
    decomposed :
        {t1 t2 rep1 rep2 : TipType} {es fs : Edges} {o : Outcome Edges}
        → Finds es t1 t2 rep1 rep2 fs
        → equal_type rep1 rep2 ≡ false
        → is_var rep1 ≡ false
        → is_var rep2 ≡ false
        → do_match rep1 rep2 ≡ true
        → (u : Unions fs rep1 rep2) → RunsAll (arguments rep1) (arguments rep2) (united u) o
        → Runs t1 t2 es o
    clash :
        {t1 t2 rep1 rep2 : TipType} {es fs : Edges}
        → Finds es t1 t2 rep1 rep2 fs
        → equal_type rep1 rep2 ≡ false
        → is_var rep1 ≡ false
        → is_var rep2 ≡ false
        → do_match rep1 rep2 ≡ false
        → Runs t1 t2 es (unification_error t1 t2)

  pub data RunsAll : TipTypes → TipTypes → Edges → Outcome Edges → Type 0 where
    finished : {es : Edges} → RunsAll nil nil es (done es)
    next :
        {x y : TipType} {xs ys : TipTypes} {es fs : Edges} {o : Outcome Edges}
        → Runs x y es (done fs)
        → RunsAll xs ys fs o
        → RunsAll (cons x xs) (cons y ys) es o
    stopped :
        {x y s t : TipType} {xs ys : TipTypes} {es : Edges}
        → Runs x y es (unification_error s t)
        → RunsAll (cons x xs) (cons y ys) es (unification_error s t)
