-- ===== src/Weeding/Lvalues.antt =====
-- The l-values of a program by recursion on the syntax, with no traversal and no events: a
-- description to hold src/semantic/weeding/CheckAssignable.cpp against.
use sipc.Prelude.{Bool, true, false, ◌&&◌, Option, none, some, List, [], ◌∷◌}
use sipc.Ast.{
  Expr, Exprs, Fields, Stmt, Stmts, Function, number, boolean, variable, binary, ternary, input,
  null, fun_app, alloc, ref, deref, negation, minus, array, array_len, array_of, indexing, rec,
  access, nil, cons, end, field, assign, update, block, loop, for_each, for_range, if_then, if_else,
  output, error, return,
}

-- A variable, and what a pointer points to.
abbrev pub is_base : Expr → Bool
is_base (variable n x) = true
is_base (deref n e) = true
is_base _ = false

-- The expressions whose address can be taken, and those that can stand left of `=`.
abbrev pub is_lvalue : Expr → Bool
is_lvalue (variable n x) = true
is_lvalue (access n e f) = is_base e
is_lvalue (indexing n e i) = is_base e
is_lvalue _ = false

abbrev pub is_target : Expr → Bool
is_target (deref n e) = true
is_target e = is_lvalue e

-- Every operand of `&` is an l-value.
abbrev mutual
  pub weeded : Expr → Bool
  weeded (number n k) = true
  weeded (boolean n b) = true
  weeded (variable n x) = true
  weeded (binary n op l r) = weeded l && weeded r
  weeded (ternary n c t e) = weeded c && (weeded t && weeded e)
  weeded (input n) = true
  weeded (null n) = true
  weeded (fun_app n f xs) = weeded f && all_weeded xs
  weeded (alloc n e) = weeded e
  weeded (ref n e) = weeded e && is_lvalue e
  weeded (deref n e) = weeded e
  weeded (negation n e) = weeded e
  weeded (minus n e) = weeded e
  weeded (array n xs) = all_weeded xs
  weeded (array_len n e) = weeded e
  weeded (array_of n a b) = weeded a && weeded b
  weeded (indexing n a i) = weeded a && weeded i
  weeded (rec n fs) = fields_weeded fs
  weeded (access n e f) = weeded e

  pub all_weeded : Exprs → Bool
  all_weeded nil = true
  all_weeded (cons e es) = weeded e && all_weeded es

  pub fields_weeded : Fields → Bool
  fields_weeded end = true
  fields_weeded (field n s e fs) = weeded e && fields_weeded fs

abbrev pub step_weeded : Option Expr → Bool
step_weeded none = true
step_weeded (some e) = weeded e

-- And every target of an assignment, an update or a `for` can stand left of `=`.
abbrev mutual
  pub stmt_weeded : Stmt → Bool
  stmt_weeded (assign n l r) = weeded l && (weeded r && is_target l)
  stmt_weeded (update n e b) = weeded e && is_target e
  stmt_weeded (block n ss) = stmts_weeded ss
  stmt_weeded (loop n c s) = weeded c && stmt_weeded s
  stmt_weeded (for_each n x e s) = weeded x && (weeded e && (stmt_weeded s && is_target x))
  stmt_weeded (for_range n x a b i s) =
      weeded x && (weeded a && (weeded b && (step_weeded i && (stmt_weeded s && is_target x))))
  stmt_weeded (if_then n c s) = weeded c && stmt_weeded s
  stmt_weeded (if_else n c s t) = weeded c && (stmt_weeded s && stmt_weeded t)
  stmt_weeded (output n e) = weeded e
  stmt_weeded (error n e) = weeded e
  stmt_weeded (return n e) = weeded e

  pub stmts_weeded : Stmts → Bool
  stmts_weeded nil = true
  stmts_weeded (cons s ss) = stmt_weeded s && stmts_weeded ss

abbrev pub functions_weeded : List Function → Bool
functions_weeded [] = true
functions_weeded (f ∷ fs) = stmts_weeded f.stmts && functions_weeded fs
