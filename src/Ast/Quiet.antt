-- ===== src/Ast/Quiet.antt =====
-- The events of a statement in src/frontend/ast/treetypes neither declare a name nor enter or leave a
-- function.
use sipc.Prelude.{◌≡◌, refl, ◌∙◌, Bool, true, false, Option, none, some, arith}
use sipc.Ast.{
  Expr, Exprs, Fields, Stmt, Stmts, number, boolean, variable, binary, ternary, input, null,
  fun_app, alloc, ref, deref, negation, minus, array, array_len, array_of, indexing, rec, access,
  nil, cons, end, field, assign, update, block, loop, for_each, for_range, if_then, if_else, output,
  error, return, Event, leave_decl, visit_function, leave_function, accept_stmts,
}
use sipc.Ast.Every.{
  every, expr_every, exprs_every, fields_every, step_every, stmt_every, stmts_every,
  stmts_every_lem,
}

-- No declaration, and neither the start nor the end of a function.
abbrev pub quiet : Event → Bool
quiet (leave_decl d) = false
quiet (visit_function f) = false
quiet (leave_function f) = false
quiet _ = true

mutual
  expr_quiet : (e : Expr) → expr_every quiet e ≡ true
  expr_quiet (number n k) = refl
  expr_quiet (boolean n k) = refl
  expr_quiet (variable n x) = refl
  expr_quiet (input n) = refl
  expr_quiet (null n) = refl
  expr_quiet (binary n op l r) = ground (arith, expr_quiet l, expr_quiet r)
  expr_quiet (ternary n c t e) = ground (arith, expr_quiet c, expr_quiet t, expr_quiet e)
  expr_quiet (fun_app n f xs) = ground (arith, expr_quiet f, exprs_quiet xs)
  expr_quiet (alloc n e) = ground (arith, expr_quiet e)
  expr_quiet (ref n e) = ground (arith, expr_quiet e)
  expr_quiet (deref n e) = ground (arith, expr_quiet e)
  expr_quiet (negation n e) = ground (arith, expr_quiet e)
  expr_quiet (minus n e) = ground (arith, expr_quiet e)
  expr_quiet (array n xs) = ground (arith, exprs_quiet xs)
  expr_quiet (array_len n e) = ground (arith, expr_quiet e)
  expr_quiet (array_of n a b) = ground (arith, expr_quiet a, expr_quiet b)
  expr_quiet (indexing n a i) = ground (arith, expr_quiet a, expr_quiet i)
  expr_quiet (rec n fs) = ground (arith, fields_quiet fs)
  expr_quiet (access n e f) = ground (arith, expr_quiet e)

  exprs_quiet : (es : Exprs) → exprs_every quiet es ≡ true
  exprs_quiet nil = refl
  exprs_quiet (cons e es) = ground (arith, expr_quiet e, exprs_quiet es)

  fields_quiet : (fs : Fields) → fields_every quiet fs ≡ true
  fields_quiet end = refl
  fields_quiet (field n s e fs) = ground (arith, expr_quiet e, fields_quiet fs)

step_quiet : (i : Option Expr) → step_every quiet i ≡ true
step_quiet none = refl
step_quiet (some e) = expr_quiet e

mutual
  stmt_quiet : (s : Stmt) → stmt_every quiet s ≡ true
  stmt_quiet (assign n l r) = ground (arith, expr_quiet l, expr_quiet r)
  stmt_quiet (update n e b) = ground (arith, expr_quiet e)
  stmt_quiet (block n ss) = ground (arith, stmts_quiet ss)
  stmt_quiet (loop n c s) = ground (arith, expr_quiet c, stmt_quiet s)
  stmt_quiet (for_each n x e s) = ground (arith, expr_quiet x, expr_quiet e, stmt_quiet s)
  stmt_quiet (for_range n x a b i s) =
      ground (arith, expr_quiet x, expr_quiet a, expr_quiet b, step_quiet i, stmt_quiet s)
  stmt_quiet (if_then n c s) = ground (arith, expr_quiet c, stmt_quiet s)
  stmt_quiet (if_else n c s t) = ground (arith, expr_quiet c, stmt_quiet s, stmt_quiet t)
  stmt_quiet (output n e) = ground (arith, expr_quiet e)
  stmt_quiet (error n e) = ground (arith, expr_quiet e)
  stmt_quiet (return n e) = ground (arith, expr_quiet e)

  stmts_quiet : (ss : Stmts) → stmts_every quiet ss ≡ true
  stmts_quiet nil = refl
  stmts_quiet (cons s ss) = ground (arith, stmt_quiet s, stmts_quiet ss)

pub every-quiet : (ss : Stmts) → every quiet (accept_stmts ss) ≡ true
every-quiet ss = stmts_every_lem quiet ss ∙ stmts_quiet ss
