-- ===== src/Constraints/Traversal.antt =====
-- The `endVisit` methods of src/semantic/types/constraints/TypeConstraintVisitor.cpp for functions
-- and statements, and the traversal of a program.
use sipc.Prelude.{Option, none, some, List, [], ◌∷◌, str_eq, if◌then◌else◌}
use sipc.Ast.{
  DeclNode, Expr, Stmt, Stmts, Function, Program, deref, nil, cons, assign, update, block, loop,
  for_each, for_range, if_then, if_else, output, error, return, Event, leave_expr, leave_stmt,
  visit_function, leave_function, accept_program,
}
use sipc.Symbols.{SymbolTable}
use sipc.Types.{TipType, TipTypes}
use sipc.Unifier.{TypeConstraint}
use sipc.Constraints.{
  ◌>>=◌, Visitor, decl_var, ast_to_var, handle, handle_type, handle_equal, combine,
}
use sipc.Constraints.Expressions.{end_expr}

unfoldable pub formal_types : List DeclNode → TipTypes
formal_types [] = TipTypes.nil
formal_types (d ∷ ds) = TipTypes.cons (decl_var d) (formal_types ds)

unfoldable pub handle_formals : List DeclNode → Visitor → Visitor
unfolding handle
handle_formals [] v = v
handle_formals (d ∷ ds) v = handle_formals ds (handle (decl_var d) TipType.int v)

-- The argument of the `return` that ends the list of statements.
unfoldable pub last_return : Stmts → Option Expr
last_return nil = none
last_return (cons (return n e) nil) = some e
last_return (cons s nil) = none
last_return (cons s (cons t ss)) = last_return (cons t ss)

unfoldable pub end_function : Function → Visitor → Option Visitor
unfolding handle_formals last_return handle_type combine formal_types handle ast_to_var
end_function f v =
    if str_eq f.decl.name "main"
    then (last_return f.stmts >>= λ e.
        handle_type e TipType.int (handle_formals f.formals v) >>= λ v'. ast_to_var e v' >>= λ t.
        some (handle (decl_var f.decl) (TipType.function (combine (formal_types f.formals) t)) v'))
    else (last_return f.stmts >>= λ e. ast_to_var e v >>= λ t.
        some (handle (decl_var f.decl) (TipType.function (combine (formal_types f.formals) t)) v))

unfoldable pub end_assign : Expr → Expr → Visitor → Option Visitor
unfolding ast_to_var handle_type handle_equal
end_assign (deref n p) r v = ast_to_var r v >>= λ t. handle_type p (TipType.ref t) v
end_assign l r v = handle_equal l r v

unfoldable pub end_for_each : Expr → Expr → Visitor → Option Visitor
unfolding ast_to_var handle_type
end_for_each item iterator v = ast_to_var item v >>= λ t. handle_type iterator (TipType.array t) v

unfoldable pub end_for_range : Expr → Expr → Expr → Option Expr → Visitor → Option Visitor
unfolding handle_type
end_for_range item start stop increment v =
    handle_type item TipType.int v
    >>= handle_type start TipType.int
    >>= handle_type stop TipType.int
    >>= λ v'. elim increment [ none ↦ some v' | some e ↦ handle_type e TipType.int v' ]

unfoldable pub end_error : Expr → Visitor → Option Visitor
unfolding handle_type
end_error e v = handle_type e TipType.int v

unfoldable pub end_update : Expr → Visitor → Option Visitor
unfolding handle_type
end_update e v = handle_type e TipType.int v

unfoldable pub end_stmt : Stmt → Visitor → Option Visitor
unfolding handle_type end_assign end_for_each end_for_range end_error end_update
end_stmt (assign n l r) v = end_assign l r v
end_stmt (update n e b) v = end_update e v
end_stmt (block n ss) v = some v
end_stmt (loop n c s) v = handle_type c TipType.bool v
end_stmt (for_each n x e s) v = end_for_each x e v
end_stmt (for_range n x a b i s) v = end_for_range x a b i v
end_stmt (if_then n c s) v = handle_type c TipType.bool v
end_stmt (if_else n c s t) v = handle_type c TipType.bool v
end_stmt (output n e) v = handle_type e TipType.int v
end_stmt (error n e) v = end_error e v
end_stmt (return n e) v = some v

unfoldable pub step : Event → Visitor → Option Visitor
unfolding end_expr end_stmt end_function
step (visit_function f) v = some (record v { scope = f.decl.node.address ∷ v.scope })
step (leave_expr e) v = end_expr e v
step (leave_stmt s) v = end_stmt s v
step (leave_function f) v = end_function f v
step _ v = some v

unfoldable pub steps : List Event → Visitor → Option Visitor
unfolding step
steps [] v = some v
steps (e ∷ es) v = step e v >>= steps es

-- A visitor from its constructor to `getCollectedConstraints`, on the whole program.
unfoldable pub collect : SymbolTable → Program → Option (List TypeConstraint)
unfolding steps accept_program
collect st p =
    steps (accept_program p) (record { symbols = st; scope = []; collected = [] }) >>= λ v.
    some v.collected
