-- ===== src/Ast/Every.antt =====
-- A test of all the events that `accept` of src/frontend/ast/treetypes gives, by recursion on the
-- syntax.
use sipc.Prelude.{◌≡◌, refl, Bool, true, ◌&&◌, Option, none, some, List, [], ◌∷◌, ◌++◌, arith}
use sipc.Ast.{
  Expr, Exprs, Fields, Stmt, Stmts, number, boolean, variable, binary, ternary, input, null,
  fun_app, alloc, ref, deref, negation, minus, array, array_len, array_of, indexing, rec, access,
  nil, cons, end, field, assign, update, block, loop, for_each, for_range, if_then, if_else, output,
  error, return, Event, visit_expr, leave_expr, visit_field, leave_field, visit_stmt, leave_stmt,
  accept_expr, accept_exprs, accept_fields, accept_increment, accept_stmt, accept_stmts,
}

abbrev pub every : (Event → Bool) → List Event → Bool
every P [] = true
every P (e ∷ es) = P e && every P es

abbrev pub both : (Event → Bool) → (Event → Bool) → Event → Bool
both P Q e = P e && Q e

pub every-both :
    (P Q : Event → Bool) (es : List Event)
    → every P es ≡ true
    → every Q es ≡ true
    → every (both P Q) es ≡ true
every-both P Q [] g h = refl
every-both P Q (e ∷ es) g h = ground (arith, every-both P Q es)

abbrev mutual
  pub expr_every : (Event → Bool) → Expr → Bool
  expr_every P (number n k) = P (visit_expr (number n k)) && P (leave_expr (number n k))
  expr_every P (boolean n k) = P (visit_expr (boolean n k)) && P (leave_expr (boolean n k))
  expr_every P (variable n x) = P (visit_expr (variable n x)) && P (leave_expr (variable n x))
  expr_every P (input n) = P (visit_expr (input n)) && P (leave_expr (input n))
  expr_every P (null n) = P (visit_expr (null n)) && P (leave_expr (null n))
  expr_every P (binary n op l r) =
      P (visit_expr (binary n op l r))
      && (expr_every P l && (expr_every P r && P (leave_expr (binary n op l r))))
  expr_every P (ternary n c t e) =
      P (visit_expr (ternary n c t e))
      && (expr_every P c
          && (expr_every P t && (expr_every P e && P (leave_expr (ternary n c t e)))))
  expr_every P (fun_app n f xs) =
      P (visit_expr (fun_app n f xs))
      && (expr_every P f && (exprs_every P xs && P (leave_expr (fun_app n f xs))))
  expr_every P (alloc n e) =
      P (visit_expr (alloc n e)) && (expr_every P e && P (leave_expr (alloc n e)))
  expr_every P (ref n e) = P (visit_expr (ref n e)) && (expr_every P e && P (leave_expr (ref n e)))
  expr_every P (deref n e) =
      P (visit_expr (deref n e)) && (expr_every P e && P (leave_expr (deref n e)))
  expr_every P (negation n e) =
      P (visit_expr (negation n e)) && (expr_every P e && P (leave_expr (negation n e)))
  expr_every P (minus n e) =
      P (visit_expr (minus n e)) && (expr_every P e && P (leave_expr (minus n e)))
  expr_every P (array n xs) =
      P (visit_expr (array n xs)) && (exprs_every P xs && P (leave_expr (array n xs)))
  expr_every P (array_len n e) =
      P (visit_expr (array_len n e)) && (expr_every P e && P (leave_expr (array_len n e)))
  expr_every P (array_of n a b) =
      P (visit_expr (array_of n a b))
      && (expr_every P a && (expr_every P b && P (leave_expr (array_of n a b))))
  expr_every P (indexing n a i) =
      P (visit_expr (indexing n a i))
      && (expr_every P a && (expr_every P i && P (leave_expr (indexing n a i))))
  expr_every P (rec n fs) =
      P (visit_expr (rec n fs)) && (fields_every P fs && P (leave_expr (rec n fs)))
  expr_every P (access n e f) =
      P (visit_expr (access n e f)) && (expr_every P e && P (leave_expr (access n e f)))

  pub exprs_every : (Event → Bool) → Exprs → Bool
  exprs_every P nil = true
  exprs_every P (cons e es) = expr_every P e && exprs_every P es

  pub fields_every : (Event → Bool) → Fields → Bool
  fields_every P end = true
  fields_every P (field n s e fs) =
      P (visit_field n s e) && (expr_every P e && (P (leave_field n s e) && fields_every P fs))

abbrev pub step_every : (Event → Bool) → Option Expr → Bool
step_every P none = true
step_every P (some e) = expr_every P e

abbrev mutual
  pub stmt_every : (Event → Bool) → Stmt → Bool
  stmt_every P (assign n l r) =
      P (visit_stmt (assign n l r))
      && (expr_every P l && (expr_every P r && P (leave_stmt (assign n l r))))
  stmt_every P (update n e b) =
      P (visit_stmt (update n e b)) && (expr_every P e && P (leave_stmt (update n e b)))
  stmt_every P (block n ss) =
      P (visit_stmt (block n ss)) && (stmts_every P ss && P (leave_stmt (block n ss)))
  stmt_every P (loop n c s) =
      P (visit_stmt (loop n c s))
      && (expr_every P c && (stmt_every P s && P (leave_stmt (loop n c s))))
  stmt_every P (for_each n x e s) =
      P (visit_stmt (for_each n x e s))
      && (expr_every P x
          && (expr_every P e && (stmt_every P s && P (leave_stmt (for_each n x e s)))))
  stmt_every P (for_range n x a b i s) =
      P (visit_stmt (for_range n x a b i s))
      && (expr_every P x
          && (expr_every P a
              && (expr_every P b
                  && (step_every P i
                      && (stmt_every P s && P (leave_stmt (for_range n x a b i s)))))))
  stmt_every P (if_then n c s) =
      P (visit_stmt (if_then n c s))
      && (expr_every P c && (stmt_every P s && P (leave_stmt (if_then n c s))))
  stmt_every P (if_else n c s t) =
      P (visit_stmt (if_else n c s t))
      && (expr_every P c
          && (stmt_every P s && (stmt_every P t && P (leave_stmt (if_else n c s t)))))
  stmt_every P (output n e) =
      P (visit_stmt (output n e)) && (expr_every P e && P (leave_stmt (output n e)))
  stmt_every P (error n e) =
      P (visit_stmt (error n e)) && (expr_every P e && P (leave_stmt (error n e)))
  stmt_every P (return n e) =
      P (visit_stmt (return n e)) && (expr_every P e && P (leave_stmt (return n e)))

  pub stmts_every : (Event → Bool) → Stmts → Bool
  stmts_every P nil = true
  stmts_every P (cons s ss) = stmt_every P s && stmts_every P ss

module _ (P : Event → Bool) where
  pub every-++ : (xs ys : List Event) → every P (xs ++ ys) ≡ every P xs && every P ys
  every-++ [] ys = refl
  every-++ (x ∷ xs) ys = ground (arith, every-++ xs ys)

  -- A list of events with the value of the test.
  record Tests (es : List Event) (b : Bool) : Type 0 where
    run : every P es ≡ b

  infixr 5 ◌then◌
  ◌then◌ : {xs ys : List Event} {a b : Bool} → Tests xs a → Tests ys b → Tests (xs ++ ys) (a && b)
  ◌then◌ {xs = xs} {ys = ys} g h = record { run = ground (arith, every-++ xs ys, g.run, h.run) }

  before : (e : Event) {es : List Event} {b : Bool} → Tests es b → Tests (e ∷ es) (P e && b)
  before e h = record { run = ground (arith, h.run) }

  last : (e : Event) → Tests (e ∷ []) (P e)
  last e = record { run = ground arith }

  none_left : Tests [] true
  none_left = record { run = refl }

  mutual
    unfolding accept_expr accept_exprs accept_fields

    expr_tests : (e : Expr) → Tests (accept_expr e) (expr_every P e)
    expr_tests (number n k) = before _ (last _)
    expr_tests (boolean n k) = before _ (last _)
    expr_tests (variable n x) = before _ (last _)
    expr_tests (input n) = before _ (last _)
    expr_tests (null n) = before _ (last _)
    expr_tests (binary n op l r) = before _ (expr_tests l then expr_tests r then last _)
    expr_tests (ternary n c t e) =
        before _ (expr_tests c then expr_tests t then expr_tests e then last _)
    expr_tests (fun_app n f xs) = before _ (expr_tests f then exprs_tests xs then last _)
    expr_tests (alloc n e) = before _ (expr_tests e then last _)
    expr_tests (ref n e) = before _ (expr_tests e then last _)
    expr_tests (deref n e) = before _ (expr_tests e then last _)
    expr_tests (negation n e) = before _ (expr_tests e then last _)
    expr_tests (minus n e) = before _ (expr_tests e then last _)
    expr_tests (array n xs) = before _ (exprs_tests xs then last _)
    expr_tests (array_len n e) = before _ (expr_tests e then last _)
    expr_tests (array_of n a b) = before _ (expr_tests a then expr_tests b then last _)
    expr_tests (indexing n a i) = before _ (expr_tests a then expr_tests i then last _)
    expr_tests (rec n fs) = before _ (fields_tests fs then last _)
    expr_tests (access n e f) = before _ (expr_tests e then last _)

    exprs_tests : (es : Exprs) → Tests (accept_exprs es) (exprs_every P es)
    exprs_tests nil = none_left
    exprs_tests (cons e es) = expr_tests e then exprs_tests es

    fields_tests : (fs : Fields) → Tests (accept_fields fs) (fields_every P fs)
    fields_tests end = none_left
    fields_tests (field n s e fs) = before _ (expr_tests e then before _ (fields_tests fs))

  step_tests : (i : Option Expr) → Tests (accept_increment i) (step_every P i)
  unfolding accept_increment
  step_tests none = none_left
  step_tests (some e) = expr_tests e

  mutual
    unfolding accept_stmt accept_stmts

    stmt_tests : (s : Stmt) → Tests (accept_stmt s) (stmt_every P s)
    stmt_tests (assign n l r) = before _ (expr_tests l then expr_tests r then last _)
    stmt_tests (update n e b) = before _ (expr_tests e then last _)
    stmt_tests (block n ss) = before _ (stmts_tests ss then last _)
    stmt_tests (loop n c s) = before _ (expr_tests c then stmt_tests s then last _)
    stmt_tests (for_each n x e s) =
        before _ (expr_tests x then expr_tests e then stmt_tests s then last _)
    stmt_tests (for_range n x a b i s) = before _ (
        expr_tests x
        then expr_tests a
        then expr_tests b
        then step_tests i
        then stmt_tests s
        then last _)
    stmt_tests (if_then n c s) = before _ (expr_tests c then stmt_tests s then last _)
    stmt_tests (if_else n c s t) =
        before _ (expr_tests c then stmt_tests s then stmt_tests t then last _)
    stmt_tests (output n e) = before _ (expr_tests e then last _)
    stmt_tests (error n e) = before _ (expr_tests e then last _)
    stmt_tests (return n e) = before _ (expr_tests e then last _)

    stmts_tests : (ss : Stmts) → Tests (accept_stmts ss) (stmts_every P ss)
    stmts_tests nil = none_left
    stmts_tests (cons s ss) = stmt_tests s then stmts_tests ss

  pub stmts_every_lem : (ss : Stmts) → every P (accept_stmts ss) ≡ stmts_every P ss
  stmts_every_lem ss = (stmts_tests ss).run
