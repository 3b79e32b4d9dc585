-- ===== src/Weeding.antt =====
-- src/semantic/weeding/CheckAssignable.{h,cpp}: the pass that throws a SemanticError where an
-- l-value is required and another expression stands. `none` is a pass without an exception.
pub mod Lvalues
pub mod Passes
pub mod Expressions
pub mod Laws
use sipc.Prelude.{ℕ, Bool, true, false, ◌||◌, Option, none, some, List, [], ◌∷◌, if◌then◌else◌}
use sipc.Ast.{
  Node, Expr, variable, deref, access, indexing, ref, Stmt, assign, update, for_each, for_range,
  Event, leave_expr, leave_stmt, Program, accept_program,
}

-- What a message begins with, and how it goes on.
pub data Position : Type 0 where
  assignment_error address_error update_error : Position

pub data SemanticError : Type 0 where
  not_a_record_variable not_an_lvalue : Position → ℕ → Expr → SemanticError

unfoldable pub is_variable : Expr → Bool
is_variable (variable _ _) = true
is_variable _ = false

unfoldable pub is_deref : Expr → Bool
is_deref (deref _ _) = true
is_deref _ = false

unfoldable pub is_assignable : Expr → Bool
unfolding is_variable is_deref
is_assignable (variable _ _) = true
is_assignable (access _ r _) = is_variable r || is_deref r
is_assignable (indexing _ a _) = is_variable a || is_deref a
is_assignable _ = false

-- The message for a target: that of an access names the record.
unfoldable pub complain : Position → ℕ → Expr → SemanticError
complain p line (access _ r _) = not_a_record_variable p line r
complain p line e = not_an_lvalue p line e

-- The three `endVisit` methods of statements; a `for` statement reports an update error.
unfoldable pub check_target : Position → ℕ → Expr → Option SemanticError
unfolding is_assignable is_deref complain
check_target p line target =
    if is_assignable target
    then none
    else if is_deref target
    then none
    else some (complain p line target)

unfoldable pub check_ref : ℕ → Expr → Option SemanticError
unfolding is_assignable
check_ref line e = if is_assignable e then none else some (not_an_lvalue address_error line e)

unfoldable pub end_visit_expr : Expr → Option SemanticError
unfolding check_ref
end_visit_expr (ref n e) = check_ref n.line e
end_visit_expr _ = none

unfoldable pub end_visit_stmt : Stmt → Option SemanticError
unfolding check_target
end_visit_stmt (assign n l r) = check_target assignment_error n.line l
end_visit_stmt (update n e b) = check_target update_error n.line e
end_visit_stmt (for_each n x e s) = check_target update_error n.line x
end_visit_stmt (for_range n x a b i s) = check_target update_error n.line x
end_visit_stmt _ = none

unfoldable pub end_visit : Event → Option SemanticError
unfolding end_visit_expr end_visit_stmt
end_visit (leave_expr e) = end_visit_expr e
end_visit (leave_stmt s) = end_visit_stmt s
end_visit _ = none

-- The first exception of the traversal ends it.
unfoldable pub weed : List Event → Option SemanticError
weed [] = none
weed (e ∷ es) = elim (end_visit e) [ some err ↦ some err | none ↦ weed es ]

unfoldable pub check : Program → Option SemanticError
unfolding weed
check p = weed (accept_program p)
