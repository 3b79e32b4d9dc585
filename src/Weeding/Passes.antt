-- ===== src/Weeding/Passes.antt =====
-- Which events src/semantic/weeding/CheckAssignable.cpp passes over without an exception.
use sipc.Prelude.{ℕ, ◌≡◌, refl, Bool, true, false, ◌&&◌, Option, none, some, List, [], ◌∷◌, arith}
use sipc.Ast.{Expr, Event, indexing, access}
use sipc.Ast.Every.{every}
use sipc.Weeding.Lvalues.{is_lvalue, is_target}
use sipc.Weeding.{
  is_assignable, is_variable, is_deref, check_target, check_ref, weed, end_visit, Position,
  SemanticError,
}

-- Whether the traversal meets no exception.
abbrev pub is_none {ℓ} : {A : Type ℓ} → Option A → Bool
is_none none = true
is_none (some _) = false

abbrev pub passes : List Event → Bool
passes es = is_none (weed es)

abbrev pub silent : Event → Bool
silent e = is_none (end_visit e)

step_lem :
    (o : Option SemanticError) (es : List Event)
    → is_none (elim o [ some err ↦ some err | none ↦ weed es ]) ≡ is_none o && passes es
step_lem none es = refl
step_lem (some err) es = refl

pub passes-every : (es : List Event) → passes es ≡ every silent es
unfolding weed
passes-every [] = refl
passes-every (e ∷ es) = ground (arith, step_lem (end_visit e) es, passes-every es)

pub assignable_lem : (e : Expr) → is_assignable e ≡ is_lvalue e
unfolding is_assignable is_variable is_deref
assignable_lem (access n e f) = ground arith
assignable_lem (indexing n e f) = ground arith
assignable_lem _ = refl

pub target_lem : (p : Position) (l : ℕ) (e : Expr) → is_none (check_target p l e) ≡ is_target e
unfolding check_target is_deref is_assignable is_variable
target_lem p l (access n e f) = ground (arith, assignable_lem (access n e f))
target_lem p l (indexing n e f) = ground (arith, assignable_lem (indexing n e f))
target_lem p l _ = refl

pub ref_lem : (l : ℕ) (e : Expr) → is_none (check_ref l e) ≡ is_lvalue e
unfolding check_ref
ref_lem l e = ground (arith, assignable_lem e)
