-- ===== src/Unifier.antt =====
-- src/semantic/types/solver/Unifier.{h,cpp} without `close`: the constraints, the forest of their
-- terms, `unify` and `solve`; with the parts of TipCons that they call and with
-- src/semantic/types/constraints/TypeConstraint.cpp.
-- `unify` runs on fuel, which bounds the depth of its recursion. `unification_error` is the
-- exception of `throwUnifyException` with the two terms that it reports, and `out_of_range` that
-- of `std::vector::at`.
pub mod Terms
pub mod Runs
pub mod Keeps
pub mod Least
pub mod Solves
pub mod Measure
pub mod Terminates
pub mod Universe
pub mod Solve
pub mod Laws
pub mod Substitution
use sipc.Prelude.{
  ℕ, zero, suc, Bool, true, false, not, ◌&&◌, ◌==◌, Option, none, some, List, [], ◌∷◌, ◌++◌,
  if◌then◌else◌,
}
use sipc.Types.{
  TipVar, plain, alpha, TipType, TipTypes, var, int, bool, absent_field, ref, array, function, rec,
  mu, nil, cons, equal_type,
}
use sipc.UnionFind.{Edges, add, find, quick_union}

pub record TypeConstraint : Type 0 where
  pub lhs : TipType
  pub rhs : TipType

-- `TypeConstraint::operator==`, which reads the left sides only.
unfoldable pub equal_constraint : TypeConstraint → TypeConstraint → Bool
equal_constraint c d = equal_type c.lhs d.lhs

pub data Outcome {ℓ} (A : Type ℓ) : Type ℓ where
  done : A → Outcome A
  unification_error : TipType → TipType → Outcome A
  out_of_range out_of_fuel : Outcome A

infixl 5 ◌>>=◌
abbrev pub ◌>>=◌ {ℓ κ} : {A : Type ℓ} {B : Type κ} → Outcome A → (A → Outcome B) → Outcome B
done a >>= f = f a
unification_error s t >>= f = unification_error s t
out_of_range >>= f = out_of_range
out_of_fuel >>= f = out_of_fuel

-- A run of the union-find structure, which may lack fuel.
abbrev pub lift {ℓ} : {A : Type ℓ} → Option A → Outcome A
lift none = out_of_fuel
lift (some a) = done a

unfoldable pub is_var : TipType → Bool
is_var (var _) = true
is_var _ = false

unfoldable pub is_proper_type : TipType → Bool
unfolding is_var
is_proper_type t = not (is_var t)

unfoldable pub is_alpha : TipType → Bool
is_alpha (var (alpha _ _ _)) = true
is_alpha _ = false

unfoldable pub is_mu : TipType → Bool
is_mu (mu _ _) = true
is_mu _ = false

unfoldable pub is_cons : TipType → Bool
is_cons (var _) = false
is_cons (mu _ _) = false
is_cons _ = true

-- `getArguments`.
unfoldable pub arguments : TipType → TipTypes
arguments (ref a) = cons a nil
arguments (array a) = cons a nil
arguments (function ts) = ts
arguments (rec ts _) = ts
arguments _ = nil

unfoldable pub size : TipTypes → ℕ
size nil = 0
size (cons _ ts) = suc (size ts)

unfoldable pub arity : TipType → ℕ
unfolding arguments size
arity t = size (arguments t)

-- `sameType<T>(t, this)` for the subclasses T that `doMatch` lists: neither `TipBool` nor
-- `TipAbsentField` is among them.
unfoldable pub same_type : TipType → TipType → Bool
same_type (function _) (function _) = true
same_type int int = true
same_type (rec _ _) (rec _ _) = true
same_type (ref _) (ref _) = true
same_type (array _) (array _) = true
same_type _ _ = false

unfoldable pub do_match : TipType → TipType → Bool
unfolding same_type arity
do_match this t = if same_type t this then arity t == arity this else false

-- The loop over the arguments, with the recursive call of `unify` passed in.
unfoldable pub unify_args :
    (TipType → TipType → Edges → Outcome Edges) → TipTypes → TipTypes → Edges → Outcome Edges
unify_args call nil ys es = done es
unify_args call (cons x xs) nil es = out_of_range
unify_args call (cons x xs) (cons y ys) es = call x y es >>= λ es'. unify_args call xs ys es'

-- `unify` from the point where it has the representatives of its arguments.
unfoldable pub unify_reps :
    (TipType → TipType → Edges → Outcome Edges)
    → TipType
    → TipType
    → TipType
    → TipType
    → Edges
    → Outcome Edges
unfolding unify_args is_proper_type is_cons do_match arguments
unify_reps call t1 t2 rep1 rep2 es =
    if equal_type rep1 rep2
    then done es
    else if is_var rep1 && is_var rep2
    then lift (quick_union rep1 rep2 es) >>= (λ p. done (p.1))
    else if is_var rep1 && is_proper_type rep2
    then lift (quick_union rep1 rep2 es) >>= (λ p. done (p.1))
    else if is_proper_type rep1 && is_var rep2
    then lift (quick_union rep2 rep1 es) >>= (λ p. done (p.1))
    else if is_cons rep1 && is_cons rep2
    then (if not (do_match rep1 rep2)
        then unification_error t1 t2
        else lift (quick_union rep1 rep2 es)
          >>= (λ p. unify_args call (arguments rep1) (arguments rep2) (p.1)))
    else unification_error t1 t2

unfoldable pub unify : ℕ → TipType → TipType → Edges → Outcome Edges
unify zero t1 t2 es = out_of_fuel
unify (suc fuel) t1 t2 es = lift (find t1 es) >>= λ p.
    lift (find t2 (p.1)) >>= λ q. unify_reps (unify fuel) t1 t2 (p.0) (q.0) (q.1)

pub record Unifier : Type 0 where
  pub constraints : List TypeConstraint
  pub edges : Edges

unfoldable pub as_list : TipTypes → List TipType
as_list nil = []
as_list (cons t ts) = t ∷ as_list ts

-- The terms that the constructor and `add` collect: both sides of each constraint and, of a side
-- that is a `TipCons`, the arguments.
unfoldable pub terms : List TypeConstraint → List TipType
unfolding as_list arguments is_cons
terms [] = []
terms (c ∷ cs) =
    c.lhs
    ∷ c.rhs
    ∷ ((if is_cons c.lhs then as_list (arguments c.lhs) else [])
        ++ ((if is_cons c.rhs then as_list (arguments c.rhs) else []) ++ terms cs))

-- The constructor.
unfoldable pub create : List TypeConstraint → Outcome Unifier
unfolding terms
create constrs =
    lift (add (terms constrs) []) >>= λ p. done (record { constraints = constrs; edges = p.1 })

unfoldable pub add_constraints : List TypeConstraint → Unifier → Outcome Unifier
unfolding terms
add_constraints constrs u = lift (add (terms constrs) u.edges) >>= λ p.
    done (record { constraints = u.constraints ++ constrs; edges = p.1 })

unfoldable pub solve_all : ℕ → List TypeConstraint → Edges → Outcome Edges
solve_all fuel [] es = done es
solve_all fuel (c ∷ cs) es = unify fuel c.lhs c.rhs es >>= λ es'. solve_all fuel cs es'

unfoldable pub solve : ℕ → Unifier → Outcome Unifier
unfolding solve_all
solve fuel u = solve_all fuel u.constraints u.edges >>= λ es. done (record u { edges = es })
