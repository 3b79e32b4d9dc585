-- ===== src/Unifier/Solve.antt =====
-- `solve` after each constraint: the classes are the least solution of the constraints so far.
use sipc.Prelude.{◌≡◌, ℕ, ◌≤◌, ◌<◌, true, List, [], ◌∷◌, inl, inr, arith}
use sipc.Types.{TipType}
use sipc.UnionFind.{Edges}
use sipc.UnionFind.Find.{IsForest}
use sipc.UnionFind.Classes.{SameClass, SameClass-equal, SameClass-sym, SameClass-trans}
use sipc.UnionFind.Laws.{IsValid}
use sipc.Unifier.{
  TypeConstraint, Outcome, done, unification_error, out_of_range, out_of_fuel, ◌>>=◌, arguments,
  unify, solve_all,
}
use sipc.Unifier.Terms.{AllPairs-map, IsEquivalence, Decomposes}
use sipc.Unifier.Runs.{Runs}
use sipc.Unifier.Keeps.{Includes, Runs-Keeps}
use sipc.Unifier.Least.{IsSolution, Within, Runs-Within}
use sipc.Unifier.Solves.{IsProper, Runs-Solves}
use sipc.Unifier.Measure.{contains, IsClosed, IsBounded, root_count}
use sipc.Unifier.Terminates.{Runs-Spends, unify-Runs}
use sipc.Unifier.Universe.{Mentions}

-- `S` relates the sides of each constraint.
abbrev pub Satisfies : (TipType → TipType → Type 0) → List TypeConstraint → Type 0
Satisfies S [] = Unit
Satisfies S (c ∷ cs) = S c.lhs c.rhs × Satisfies S cs

Satisfies-map :
    (S T : TipType → TipType → Type 0)
    → ((x y : TipType) → S x y → T x y)
    → (cs : List TypeConstraint) → Satisfies S cs
    → Satisfies T cs
Satisfies-map S T f [] h = tt
Satisfies-map S T f (c ∷ cs) (h, hs) = (f c.lhs c.rhs h, Satisfies-map S T f cs hs)

pub SameClass-IsEquivalence : (es : Edges) → IsForest es → IsEquivalence (SameClass es)
SameClass-IsEquivalence es f = record {
  equal = λ a b. SameClass-equal es a b f;
  symm = SameClass-sym es;
  trans = SameClass-trans es;
}

pub Decomposes-map :
    (S T : TipType → TipType → Type 0)
    → ((x y : TipType) → S x y → T x y)
    → (a b : TipType) → Decomposes S a b
    → Decomposes T a b
Decomposes-map S T f a b (inl e) = inl e
Decomposes-map S T f a b (inr (m, h)) = inr (m, AllPairs-map S T f (arguments a) (arguments b) h)

-- What holds between two calls of `unify`.
pub record Ready (us : List TipType) (es : Edges) : Type 0 where
  pub valid : IsValid es
  pub bounded : IsBounded us es
  pub proper : IsProper es
  pub solution : IsSolution (SameClass es)

-- The classes of `fs` are the least solution of the constraints that relates the classes of `es`.
pub record Solved (us : List TipType) (es : Edges) (cs : List TypeConstraint) (fs : Edges)
    : Type 1 where
  pub ready : Ready us fs
  pub le : root_count fs us ≤ root_count es us
  pub includes : Includes es fs
  pub satisfied : Satisfies (SameClass fs) cs
  pub least :
      (S : TipType → TipType → Type 0) → IsSolution S → Within S es → Satisfies S cs → Within S fs

pub data Solving (us : List TipType) (es : Edges) (cs : List TypeConstraint)
    : Outcome Edges → Type 1 where
  solved : {fs : Edges} → Solved us es cs fs → Solving us es cs (done fs)
  unsolvable :
      {s t : TipType}
      → ((S : TipType → TipType → Type 0) → IsSolution S → Within S es → ¬ Satisfies S cs)
      → Solving us es cs (unification_error s t)

module _ (us : List TipType) (closed : IsClosed us) where
  of_run :
      (es : Edges) (c : TypeConstraint) (o : Outcome Edges)
      → Runs c.lhs c.rhs es o
      → Ready us es
      → contains us c.lhs ≡ true
      → contains us c.rhs ≡ true
      → Solving us es (c ∷ []) o
  of_run es c (done fs) p ready in1 in2 =
      let v = ready.valid in
      let (k, joined) = Runs-Keeps p v in
      let s = Runs-Spends us closed p v ready.bounded in1 in2 in
      let eqv = SameClass-IsEquivalence fs k.valid.forest in
      let d = Runs-Solves (SameClass fs) eqv p v ready.proper in
      solved (record {
        ready = record {
          valid = k.valid;
          bounded = s.bounded;
          proper = d.proper;
          solution = record {
            equivalence = eqv;
            decompose =
                d.decompose (λ x y h. h)
                  (λ x y h nx ny.
                    Decomposes-map (SameClass es) (SameClass fs) k.includes x y
                      (ready.solution.decompose x y h nx ny));
          };
        };
        le = s.le;
        includes = k.includes;
        satisfied = (joined, tt);
        least = λ S sol w h. Runs-Within S sol p v w (h.0);
      })
  of_run es c (unification_error s t) p ready in1 in2 =
      unsolvable (λ S sol w h. Runs-Within S sol p ready.valid w (h.0))
  of_run es c out_of_range p ready in1 in2 = absurd (Runs-Keeps p ready.valid)
  of_run es c out_of_fuel p ready in1 in2 = absurd (Runs-Keeps p ready.valid)

  after_one :
      (es : Edges) (c : TypeConstraint) (cs : List TypeConstraint) (o : Outcome Edges)
      → Solving us es (c ∷ []) o
      → (rest : Edges → Outcome Edges)
      → ((fs : Edges) → Solved us es (c ∷ []) fs → Solving us fs cs (rest fs))
      → Solving us es (c ∷ cs) (o >>= rest)
  after_one es c cs o (solved {fs} s) rest k = compose (rest fs) (k fs s)
    where
      compose : (o : Outcome Edges) → Solving us fs cs o → Solving us es (c ∷ cs) o
      compose o (solved t) = solved (record {
        ready = t.ready;
        le = omega (arith, s.le, t.le);
        includes = λ x y h. t.includes x y (s.includes x y h);
        satisfied = (t.includes c.lhs c.rhs (s.satisfied.0), t.satisfied);
        least = λ S sol w h. t.least S sol (s.least S sol w (h.0, tt)) (h.1);
      })
      compose o (unsolvable none_fits) =
          unsolvable (λ S sol w h. none_fits S sol (s.least S sol w (h.0, tt)) (h.1))
  after_one es c cs o (unsolvable none_fits) rest k =
      unsolvable (λ S sol w h. none_fits S sol w (h.0, tt))

  pub solve_all-Solving :
      (fuel : ℕ) (cs : List TypeConstraint) (es : Edges)
      → Ready us es
      → Mentions us cs
      → root_count es us < fuel
      → Solving us es cs (solve_all fuel cs es)
  unfolding solve_all
  solve_all-Solving fuel [] es ready m lt = solved (record {
    ready = ready;
    le = omega arith;
    includes = λ x y h. h;
    satisfied = tt;
    least = λ S sol w h. w;
  })
  solve_all-Solving fuel (c ∷ cs) es ready (in1, in2, m) lt =
      after_one es c cs (unify fuel c.lhs c.rhs es)
        (of_run es c (unify fuel c.lhs c.rhs es)
          (unify-Runs us closed fuel c.lhs c.rhs es ready.valid ready.bounded in1 in2 lt) ready in1
          in2)
        (solve_all fuel cs) (λ fs s. solve_all-Solving fuel cs fs s.ready m (omega (arith, s.le)))
