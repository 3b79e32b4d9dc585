-- ===== src/Weeding/Laws.antt =====
-- src/semantic/weeding/CheckAssignable.cpp against Lvalues.
use sipc.Prelude.{◌≡◌, refl, ◌↔◌, true, Option, none, some, List, [], ◌∷◌, ◌++◌, arith}
use sipc.Ast.{
  Stmt, Stmts, Function, DeclNode, DeclStmt, Program, nil, cons, assign, update, block, loop,
  for_each, for_range, if_then, if_else, output, error, return, accept_stmts, accept_decls,
  accept_decl_stmts, accept_function, accept_functions, accept_program, leave_decl_stmt,
  leave_function,
}
use sipc.Ast.Every.{every, every-++, stmt_every, stmts_every, stmts_every_lem}
use sipc.Weeding.Lvalues.{stmt_weeded, stmts_weeded, functions_weeded}
use sipc.Weeding.{end_visit_stmt, weed, end_visit, check, assignment_error, update_error}
use sipc.Weeding.Passes.{is_none, silent, passes-every, target_lem}
use sipc.Weeding.Expressions.{expr_lem, step_lem}

mutual
  unfolding end_visit end_visit_stmt

  stmt_lem : (s : Stmt) → stmt_every silent s ≡ stmt_weeded s
  stmt_lem (assign n l r) =
      ground (arith, expr_lem l, expr_lem r, target_lem assignment_error n.line l)
  stmt_lem (update n e b) = ground (arith, expr_lem e, target_lem update_error n.line e)
  stmt_lem (block n ss) = ground (arith, stmts_lem ss)
  stmt_lem (loop n c s) = ground (arith, expr_lem c, stmt_lem s)
  stmt_lem (for_each n x e s) =
      ground (arith, expr_lem x, expr_lem e, stmt_lem s, target_lem update_error n.line x)
  stmt_lem (for_range n x a b i s) = ground (
    arith,
    expr_lem x,
    expr_lem a,
    expr_lem b,
    step_lem i,
    stmt_lem s,
    target_lem update_error n.line x,
  )
  stmt_lem (if_then n c s) = ground (arith, expr_lem c, stmt_lem s)
  stmt_lem (if_else n c s t) = ground (arith, expr_lem c, stmt_lem s, stmt_lem t)
  stmt_lem (output n e) = ground (arith, expr_lem e)
  stmt_lem (error n e) = ground (arith, expr_lem e)
  stmt_lem (return n e) = ground (arith, expr_lem e)

  stmts_lem : (ss : Stmts) → stmts_every silent ss ≡ stmts_weeded ss
  stmts_lem nil = refl
  stmts_lem (cons s ss) = ground (arith, stmt_lem s, stmts_lem ss)

decls_lem : (ds : List DeclNode) → every silent (accept_decls ds) ≡ true
unfolding accept_decls end_visit
decls_lem [] = refl
decls_lem (d ∷ ds) = decls_lem ds

decl_stmts_lem : (ds : List DeclStmt) → every silent (accept_decl_stmts ds) ≡ true
unfolding accept_decl_stmts end_visit
decl_stmts_lem [] = refl
decl_stmts_lem (d ∷ ds) = ground (
  arith,
  every-++ silent (accept_decls d.vars) (leave_decl_stmt d ∷ accept_decl_stmts ds),
  decls_lem d.vars,
  decl_stmts_lem ds,
)

function_lem : (f : Function) → every silent (accept_function f) ≡ stmts_weeded f.stmts
unfolding accept_function end_visit
function_lem f = ground (
  arith,
  every-++ silent (accept_decls f.formals)
      (accept_decl_stmts f.declarations ++ (accept_stmts f.stmts ++ leave_function f ∷ [])),
  every-++ silent (accept_decl_stmts f.declarations)
      (accept_stmts f.stmts ++ leave_function f ∷ []),
  every-++ silent (accept_stmts f.stmts) (leave_function f ∷ []),
  decls_lem f.formals,
  decl_stmts_lem f.declarations,
  stmts_every_lem silent f.stmts,
  stmts_lem f.stmts,
)

functions_lem : (fs : List Function) → every silent (accept_functions fs) ≡ functions_weeded fs
unfolding accept_functions
functions_lem [] = refl
functions_lem (f ∷ fs) = ground (
  arith,
  every-++ silent (accept_function f) (accept_functions fs),
  function_lem f,
  functions_lem fs,
)

is_none_iff : {A : Type 0} (o : Option A) → (o ≡ none) ↔ (is_none o ≡ true)
is_none_iff none = ground arith
is_none_iff (some a) = ground arith

-- The pass ends without an exception if and only if every operand of `&` in the program is an
-- l-value and every target of an assignment, of an update and of a `for` is an l-value or a
-- dereference.
pub check_iff : (p : Program) → (check p ≡ none) ↔ (functions_weeded p.functions ≡ true)
unfolding check accept_program weed
check_iff p =
    ground
      (arith, is_none_iff (check p), passes-every (accept_program p), functions_lem p.functions)
