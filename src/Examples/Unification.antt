-- ===== src/Examples/Unification.antt =====
-- The constraints ⟦1⟧ = (⟦2⟧) -> int and ⟦1⟧ = (bool) -> ⟦3⟧, and int = bool, which fails.
use sipc.Prelude.{◌≡◌, refl, ℕ, ◌<◌, false, some, List, [], ◌∷◌, length, if◌then◌else◌, ◌==◌, arith}
use sipc.Types.{TipVar, plain, alpha, TipType, var, int, bool, function, nil, cons, equal_type}
use sipc.UnionFind.{
  Edges, find, quick_union, lookup, climb, smart_insert, get_parent, redirect, add,
}
use sipc.Unifier.{
  TypeConstraint, Unifier, done, unification_error, ◌>>=◌, create, solve, is_var, unify_reps, unify,
}
use sipc.Unifier.Universe.{universe, subterms}
use sipc.Unifier.Solve.{Satisfies}
use sipc.Unifier.Substitution.{apply, Equates, Equates-IsSolution, solve_most_general}
use sipc.Unifier.Laws.{solve_least, solve_proper}
use sipc.UnionFind.Classes.{SameClass, class_of}
use sipc.UnionFind.Roots.{is_root, parent, top, up}

abbrev v : ℕ → TipType
v n = var (plain n)

abbrev constraints : List TypeConstraint
constraints =
    record { lhs = v 1; rhs = function (cons (v 2) (cons int nil)) }
    ∷ record { lhs = v 1; rhs = function (cons bool (cons (v 3) nil)) }
    ∷ []

enough : length (universe constraints) < 20
unfolding universe subterms
enough = omega arith

-- What `solve` leaves.
abbrev inferred : Unifier
inferred = record {
  constraints = constraints;
  edges =
      (v 3, int)
      ∷ (bool, bool)
      ∷ (function (cons bool (cons (v 3) nil)), function (cons bool (cons (v 3) nil)))
      ∷ (int, int)
      ∷ (v 2, bool)
      ∷ (function (cons (v 2) (cons int nil)), function (cons bool (cons (v 3) nil)))
      ∷ (v 1, function (cons (v 2) (cons int nil)))
      ∷ [];
}

solve_runs : (create constraints >>= solve 20) ≡ done inferred
unfolding create solve unify unify_reps find quick_union climb add smart_insert lookup equal_type
    get_parent redirect
solve_runs = refl

clashing : (create (record { lhs = int; rhs = bool } ∷ []) >>= solve 5) ≡ unification_error int bool
unfolding create solve unify unify_reps find quick_union climb add smart_insert lookup equal_type
    get_parent redirect
clashing = refl

-- A substitution that unifies the constraints.
abbrev assignment : TipVar → TipType
assignment (plain n) =
    if n == 1 then function (cons bool (cons int nil)) else if n == 2 then bool else int
assignment (alpha n c s) = int

assignment_unifies : Satisfies (Equates assignment) constraints
unfolding apply equal_type
assignment_unifies = (refl, (refl, tt))

same_three : SameClass inferred.edges (v 3) int
unfolding is_root parent lookup equal_type
same_three =
    class_of inferred.edges (v 3) int int (1, int, up refl (top refl), refl)
      (0, int, top refl, refl)

solve_least_example : Equates assignment (v 3) int
solve_least_example =
    solve_least constraints 20 inferred enough solve_runs (Equates assignment)
      (Equates-IsSolution assignment) assignment_unifies (v 3) int same_three

solve_proper_example :
    (r : TipType) × (es : Edges) × (find (function (cons (v 2) (cons int nil))) inferred.edges
      ≡ some (r, es))
    × (is_var r ≡ false)
unfolding is_var
solve_proper_example =
    solve_proper constraints 20 inferred enough solve_runs (function (cons (v 2) (cons int nil)))
      refl

solve_most_general_example :
    (u : Unifier) × ((create constraints >>= solve 20) ≡ done u)
    × ((x y : TipType) → SameClass u.edges x y → Equates assignment x y)
solve_most_general_example = solve_most_general constraints 20 assignment enough assignment_unifies
