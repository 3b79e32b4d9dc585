-- ===== src/Weeding/Expressions.antt =====
-- src/semantic/weeding/CheckAssignable.cpp on the events of an expression.
use sipc.Prelude.{◌≡◌, refl, Option, none, some, arith}
use sipc.Ast.{
  Expr, Exprs, Fields, number, boolean, variable, binary, ternary, input, null, fun_app, alloc, ref,
  deref, negation, minus, array, array_len, array_of, indexing, rec, access, nil, cons, end, field,
}
use sipc.Ast.Every.{expr_every, exprs_every, fields_every, step_every}
use sipc.Weeding.Lvalues.{weeded, all_weeded, fields_weeded, step_weeded}
use sipc.Weeding.{end_visit_expr, end_visit}
use sipc.Weeding.Passes.{silent, ref_lem}

mutual
  unfolding end_visit end_visit_expr

  pub expr_lem : (e : Expr) → expr_every silent e ≡ weeded e
  expr_lem (number n k) = refl
  expr_lem (boolean n k) = refl
  expr_lem (variable n x) = refl
  expr_lem (input n) = refl
  expr_lem (null n) = refl
  expr_lem (binary n op l r) = ground (arith, expr_lem l, expr_lem r)
  expr_lem (ternary n c t e) = ground (arith, expr_lem c, expr_lem t, expr_lem e)
  expr_lem (fun_app n f xs) = ground (arith, expr_lem f, exprs_lem xs)
  expr_lem (alloc n e) = ground (arith, expr_lem e)
  expr_lem (ref n e) = ground (arith, expr_lem e, ref_lem n.line e)
  expr_lem (deref n e) = ground (arith, expr_lem e)
  expr_lem (negation n e) = ground (arith, expr_lem e)
  expr_lem (minus n e) = ground (arith, expr_lem e)
  expr_lem (array n xs) = ground (arith, exprs_lem xs)
  expr_lem (array_len n e) = ground (arith, expr_lem e)
  expr_lem (array_of n a b) = ground (arith, expr_lem a, expr_lem b)
  expr_lem (indexing n a i) = ground (arith, expr_lem a, expr_lem i)
  expr_lem (rec n fs) = ground (arith, fields_lem fs)
  expr_lem (access n e f) = ground (arith, expr_lem e)

  exprs_lem : (es : Exprs) → exprs_every silent es ≡ all_weeded es
  exprs_lem nil = refl
  exprs_lem (cons e es) = ground (arith, expr_lem e, exprs_lem es)

  fields_lem : (fs : Fields) → fields_every silent fs ≡ fields_weeded fs
  fields_lem end = refl
  fields_lem (field n s e fs) = ground (arith, expr_lem e, fields_lem fs)

pub step_lem : (i : Option Expr) → step_every silent i ≡ step_weeded i
step_lem none = refl
step_lem (some e) = expr_lem e
