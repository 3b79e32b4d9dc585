-- ===== src/Unifier/Laws.antt =====
-- What the unifier promises: its verdict on a list of constraints, alone or in stages.
use sipc.Prelude.{
  ◌≡◌, subst, refl, sym, ◌∙◌, inl, ℕ, ◌<◌, true, false, some, List, [], length, arith,
}
use sipc.Types.{TipType, equal_type}
use sipc.Types.Equality.{equal_type_refl}
use sipc.UnionFind.{Edges, lookup, find}
use sipc.UnionFind.Roots.{is_root, parent}
use sipc.UnionFind.Find.{Grows, Represents, Represents-shrinks, Represents-unique, find_lem}
use sipc.UnionFind.Classes.{
  SameClass, SameClass-Grows, SameClass-shrinks, Represents-self, roots-equal,
}
use sipc.UnionFind.Laws.{IsValid, IsValid-Grows, Reachable-IsValid, empty, add_lem}
use sipc.Unifier.{
  TypeConstraint, Unifier, Outcome, done, unification_error, ◌>>=◌, is_var, create, terms, solve,
  solve_all,
}
use sipc.Unifier.Terms.{is_var-equal}
use sipc.Unifier.Least.{IsSolution, Within}
use sipc.Unifier.Solves.{IsProper}
use sipc.Unifier.Measure.{contains-equal}
use sipc.Unifier.Universe.{universe, universe-IsClosed, universe-Mentions, root_count_le}
use sipc.Unifier.Solve.{
  Satisfies, SameClass-IsEquivalence, Decomposes-map, Ready, Solving, solved, unsolvable,
  solve_all-Solving,
}

Represents-nil : (t r : TipType) → Represents [] t r → equal_type t r ≡ true
unfolding is_root parent lookup
Represents-nil t r p =
    Represents-unique [] t t t r (equal_type_refl t) (Represents-self [] t (equal_type_refl t)) p

SameClass-nil : (x y : TipType) → SameClass [] x y → equal_type x y ≡ true
unfolding is_root parent lookup
SameClass-nil x y h =
    roots-equal [] x y x y (Represents-self [] x (equal_type_refl x))
      (Represents-self [] y (equal_type_refl y)) h

Ready-nil : (us : List TipType) → Ready us []
Ready-nil us =
    let v = Reachable-IsValid empty in
    record {
      valid = v;
      bounded = λ t r c p. sym (contains-equal us t r (Represents-nil t r p)) ∙ c;
      proper = λ t r p n. sym (is_var-equal t r (Represents-nil t r p)) ∙ n;
      solution = record {
        equivalence = SameClass-IsEquivalence [] v.forest;
        decompose = λ x y h nx ny. inl (SameClass-nil x y h);
      };
    }

Ready-Grows : (us : List TipType) {es fs : Edges} → Grows es fs → Ready us es → Ready us fs
Ready-Grows us {es} {fs} g r =
    let v = IsValid-Grows g r.valid in
    record {
      valid = v;
      bounded = λ t s c p. r.bounded t s c (Represents-shrinks t s r.valid.forest g p);
      proper = λ t s p n. r.proper t s (Represents-shrinks t s r.valid.forest g p) n;
      solution = record {
        equivalence = SameClass-IsEquivalence fs v.forest;
        decompose = λ x y h nx ny.
            Decomposes-map (SameClass es) (SameClass fs) (λ a b. SameClass-Grows a b g) x y
              (r.solution.decompose x y (SameClass-shrinks x y r.valid.forest g h) nx ny);
      };
    }

-- What `create` leaves: the constraints, and edges that join no two terms.
record Created (cs : List TypeConstraint) : Type 0 where
  edges : Edges
  runs : create cs ≡ done (record { constraints = cs; edges = edges })
  grows : Grows [] edges

create_lem : (cs : List TypeConstraint) → Created cs
unfolding create
create_lem cs =
    let (es, runs, g) = add_lem (terms cs) [] in
    record { edges = es; runs = rw runs refl; grows = g }

-- Some solution satisfies the constraints.
abbrev pub Solvable : List TypeConstraint → Type 1
Solvable cs = (S : TipType → TipType → Type 0) × IsSolution S × Satisfies S cs

-- A unifier whose classes are a solution that satisfies the constraints.
pub record IsSolved (cs : List TypeConstraint) (u : Unifier) : Type 0 where
  pub ready : IsValid u.edges
  pub proper : IsProper u.edges
  pub solution : IsSolution (SameClass u.edges)
  pub satisfied : Satisfies (SameClass u.edges) cs

-- The verdict on constraints: what `solve` leaves, with the least solution, or the exception.
pub data Verdict (cs : List TypeConstraint) : Outcome Unifier → Type 1 where
  typable :
      {u : Unifier}
      → IsSolved cs u
      → ((S : TipType → TipType → Type 0) → IsSolution S → Satisfies S cs → Within S u.edges)
      → Verdict cs (done u)
  untypable : {s t : TipType} → ¬ Solvable cs → Verdict cs (unification_error s t)

-- The last step of `solve`, which stores the edges.
Verdict-store :
    (us : List TipType) (cs : List TypeConstraint) (es : Edges)
    → ((S : TipType → TipType → Type 0) → IsSolution S → Satisfies S cs → Within S es)
    → (store : Edges → Unifier) → ((fs : Edges) → (store fs).edges ≡ fs)
    → (o : Outcome Edges) → Solving us es cs o
    → Verdict cs (o >>= λ fs. done (store fs))
Verdict-store us cs es w store e o (solved {fs} s) =
    typable
      (record {
        ready = rw (e fs) s.ready.valid;
        proper = rw (e fs) s.ready.proper;
        solution = rw (e fs) s.ready.solution;
        satisfied = rw (e fs) s.satisfied;
      })
      (λ S sol h. rw (e fs) (s.least S sol (w S sol h) h))
Verdict-store us cs es w store e o (unsolvable none_fits) =
    untypable (λ (S, sol, h). none_fits S sol (w S sol h) h)

pub solve-Verdict :
    (cs : List TypeConstraint) (fuel : ℕ)
    → length (universe cs) < fuel
    → Verdict cs (create cs >>= solve fuel)
unfolding solve
solve-Verdict cs fuel lt =
    let c = create_lem cs in
    let us = universe cs in
    let ready = Ready-Grows us c.grows (Ready-nil us) in
    rw c.runs (
      Verdict-store us cs c.edges
        (λ S sol h x y j.
          sol.equivalence.equal x y
            (SameClass-nil x y (SameClass-shrinks x y (Ready-nil us).valid.forest c.grows j)))
        (λ es. record { constraints = cs; edges = es }) (λ fs. refl) (solve_all fuel cs c.edges)
        (solve_all-Solving us (universe-IsClosed cs) fuel cs c.edges ready (universe-Mentions cs)
          (omega (arith, root_count_le c.edges us))))

of_done :
    {cs : List TypeConstraint} {u : Unifier} (o : Outcome Unifier)
    → Verdict cs o
    → o ≡ done u
    → IsSolved cs u
      × ((S : TipType → TipType → Type 0) → IsSolution S → Satisfies S cs → Within S u.edges)
of_done {cs} {u} o (typable {u = w} s l) e =
    let k : w ≡ u = cc in
    (subst (IsSolved cs) k s, λ S sol h. subst (λ v. Within S v.edges) k (l S sol h))
of_done o (untypable n) e = cc

-- Where the constructor and `solve` end, the inferred classes are the least solution: every
-- solution that satisfies the constraints relates any two terms of one class.
pub solve_least :
    (cs : List TypeConstraint) (fuel : ℕ) (u : Unifier)
    → length (universe cs) < fuel
    → (create cs >>= solve fuel) ≡ done u
    → (S : TipType → TipType → Type 0) → IsSolution S
    → Satisfies S cs
    → (x y : TipType) → SameClass u.edges x y
    → S x y
solve_least cs fuel u lt e = (of_done (create cs >>= solve fuel) (solve-Verdict cs fuel lt) e).1

-- Where the constructor and `solve` end, `find` returns a proper type for every proper type:
-- a variable is never the representative of a proper type.
pub solve_proper :
    (cs : List TypeConstraint) (fuel : ℕ) (u : Unifier)
    → length (universe cs) < fuel
    → (create cs >>= solve fuel) ≡ done u
    → (t : TipType) → is_var t ≡ false
    → (r : TipType) × (es : Edges) × (find t u.edges ≡ some (r, es)) × (is_var r ≡ false)
solve_proper cs fuel u lt e t n =
    let s = (of_done (create cs >>= solve fuel) (solve-Verdict cs fuel lt) e).0 in
    let f = find_lem s.ready.forest t in (f.root, f.after, f.runs, s.proper t f.root f.represents n)
