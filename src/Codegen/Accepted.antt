-- ===== src/Codegen/Accepted.antt =====
-- From the events of a program to the conditions of Codegen/Analysed: the names are those of a
-- symbol table, and the rest is what src/frontend builds and what no pass of the compiler tests.
use sipc.Prelude.{
  ◌≡◌, refl, sym, ◌∙◌, ℕ, Bool, true, false, ◌&&◌, String, Option, none, some, List, [], ◌∷◌, arith,
}
use sipc.Ast.{
  Function, Program, Expr, Exprs, Fields, Stmt, Stmts, number, boolean, variable, binary, ternary,
  input, null, fun_app, alloc, ref, deref, negation, minus, array, array_len, array_of, indexing,
  rec, access, nil, cons, end, field, assign, update, block, loop, for_each, for_range, if_then,
  if_else, output, error, return, Event, leave_expr, leave_stmt, accept_stmts,
}
use sipc.Ast.Every.{
  every, both, every-both, expr_every, exprs_every, fields_every, step_every, stmt_every,
  stmts_every, stmts_every_lem,
}
use sipc.Symbols
use sipc.Symbols.{SymbolTable, build}
use sipc.Weeding.{check}
use sipc.Codegen.{Generator, ok}
use sipc.Codegen.Shape.{shape}
use sipc.Codegen.Edges.{phis_agree}
use sipc.Codegen.Choices.{has_instruction}
use sipc.Codegen.Programs.{generate}
use sipc.Codegen.Scoped.{Scope, has_vars, scope_of, function_names, functions_plain}
use sipc.Codegen.Named.{variable_named, field_named, functions_every, locals_of, build_named}
use sipc.Codegen.Analysed.{
  is_no_function, declared, all_declared, fields_declared, step_declared, stmt_declared,
  stmts_declared, body_declared, functions_declared, build-check-generate,
}

-- The operators have an instruction, no statement is a `return`, and neither an operand of `&` nor
-- a target is a function.
abbrev pub operated : Event → Bool
operated (leave_expr (binary n op l r)) = has_instruction op
operated _ = true

abbrev pub returnless : Event → Bool
returnless (leave_stmt (return n e)) = false
returnless _ = true

abbrev pub spared : Scope → Event → Bool
spared sc (leave_expr (ref n e)) = is_no_function sc e
spared sc (leave_stmt (assign n l r)) = is_no_function sc l
spared sc (leave_stmt (update n e b)) = is_no_function sc e
spared sc (leave_stmt (for_each n x e s)) = is_no_function sc x
spared sc (leave_stmt (for_range n x a b i s)) = is_no_function sc x
spared sc _ = true

abbrev pub is_return : Stmt → Bool
is_return (return n e) = true
is_return _ = false

abbrev pub returns_last : Stmts → Bool
returns_last nil = false
returns_last (cons s nil) = is_return s
returns_last (cons s (cons t ss)) = stmt_every returnless s && returns_last (cons t ss)

-- What the analyses leave to the parser: declarations have a name, a function ends in its only
-- `return`, and the operators are those of the grammar.
abbrev pub well_formed : List Function → Bool
well_formed [] = true
well_formed (f ∷ fs) =
    (has_vars f.declarations && (returns_last f.stmts && every operated (accept_stmts f.stmts)))
    && well_formed fs

-- No function of the program is assigned to, nor is its address taken.
abbrev pub functions_spared : List String → List String → List Function → Bool
functions_spared functions fields fs =
    functions_every (λ f. spared (scope_of functions fields f)) fs

abbrev fine : Scope → Event → Bool
fine sc =
    both operated
      (both (both (variable_named sc.locals sc.functions) (field_named sc.fields)) (spared sc))

-- The test of a node comes after those of its parts.
after_two :
    (o : Bool) {a b c d : Bool}
    → (a ≡ true → c ≡ true)
    → (b ≡ true → d ≡ true)
    → a && (b && (o && true)) ≡ true
    → o && (c && d) ≡ true
after_two o f g h = ground (arith, f, g, h)

after_one : (o : Bool) {a c : Bool} → (a ≡ true → c ≡ true) → a && o ≡ true → c && o ≡ true
after_one o f h = ground (arith, f, h)

target_of :
    (o : Bool) {a b c d : Bool}
    → (a ≡ true → c ≡ true)
    → (b ≡ true → d ≡ true)
    → a && (b && o) ≡ true
    → (c && o) && d ≡ true
target_of o f g h = ground (arith, f, g, h)

item_of :
    (o : Bool) {a b e c d f : Bool}
    → (a ≡ true → c ≡ true)
    → (b ≡ true → d ≡ true)
    → (e ≡ true → f ≡ true)
    → a && (b && (e && o)) ≡ true
    → (c && o) && (d && f) ≡ true
item_of o f g i h = ground (arith, f, g, i, h)

range_of :
    (o : Bool) {a1 a2 a3 a4 a5 c1 c2 c3 c4 c5 : Bool}
    → (a1 ≡ true → c1 ≡ true)
    → (a2 ≡ true → c2 ≡ true)
    → (a3 ≡ true → c3 ≡ true)
    → (a4 ≡ true → c4 ≡ true)
    → (a5 ≡ true → c5 ≡ true)
    → a1 && (a2 && (a3 && (a4 && (a5 && o)))) ≡ true
    → (c1 && o) && (c2 && (c3 && (c4 && c5))) ≡ true
range_of o f1 f2 f3 f4 f5 h = ground (arith, f1, f2, f3, f4, f5, h)

module _ (sc : Scope) where
  mutual
    expr_fine : (e : Expr) → expr_every (fine sc) e ≡ true → declared sc e ≡ true
    expr_fine (number n k) h = refl
    expr_fine (boolean n k) h = refl
    expr_fine (variable n x) h = ground (arith, h)
    expr_fine (input n) h = refl
    expr_fine (null n) h = refl
    expr_fine (binary n op l r) h = after_two (has_instruction op) (expr_fine l) (expr_fine r) h
    expr_fine (ternary n c t e) h = ground (arith, h, expr_fine c, expr_fine t, expr_fine e)
    expr_fine (fun_app n f xs) h = ground (arith, h, expr_fine f, exprs_fine xs)
    expr_fine (alloc n e) h = ground (arith, h, expr_fine e)
    expr_fine (ref n e) h = after_one (is_no_function sc e) (expr_fine e) h
    expr_fine (deref n e) h = ground (arith, h, expr_fine e)
    expr_fine (negation n e) h = ground (arith, h, expr_fine e)
    expr_fine (minus n e) h = ground (arith, h, expr_fine e)
    expr_fine (array n xs) h = ground (arith, h, exprs_fine xs)
    expr_fine (array_len n e) h = ground (arith, h, expr_fine e)
    expr_fine (array_of n a b) h = ground (arith, h, expr_fine a, expr_fine b)
    expr_fine (indexing n a i) h = ground (arith, h, expr_fine a, expr_fine i)
    expr_fine (rec n fs) h = ground (arith, h, fields_fine fs)
    expr_fine (access n e f) h = ground (arith, h, expr_fine e)

    exprs_fine : (es : Exprs) → exprs_every (fine sc) es ≡ true → all_declared sc es ≡ true
    exprs_fine nil h = refl
    exprs_fine (cons e es) h = ground (arith, h, expr_fine e, exprs_fine es)

    fields_fine : (fs : Fields) → fields_every (fine sc) fs ≡ true → fields_declared sc fs ≡ true
    fields_fine end h = refl
    fields_fine (field n s e fs) h = ground (arith, h, expr_fine e, fields_fine fs)

  step_fine : (i : Option Expr) → step_every (fine sc) i ≡ true → step_declared sc i ≡ true
  step_fine none h = refl
  step_fine (some e) h = expr_fine e h

  mutual
    stmt_fine :
        (s : Stmt)
        → stmt_every (fine sc) s ≡ true
        → stmt_every returnless s ≡ true
        → stmt_declared sc s ≡ true
    stmt_fine (assign n l r) h g = target_of (is_no_function sc l) (expr_fine l) (expr_fine r) h
    stmt_fine (update n e b) h g = after_one (is_no_function sc e) (expr_fine e) h
    stmt_fine (block n ss) h g = ground (arith, h, g, stmts_fine ss)
    stmt_fine (loop n c s) h g = ground (arith, h, g, expr_fine c, stmt_fine s)
    stmt_fine (for_each n x e s) h g =
        item_of (is_no_function sc x) (expr_fine x) (expr_fine e)
          (λ k. stmt_fine s k (ground (arith, g))) h
    stmt_fine (for_range n x a b i s) h g =
        range_of (is_no_function sc x) (expr_fine x) (expr_fine a) (expr_fine b) (step_fine i)
          (λ k. stmt_fine s k (ground (arith, g))) h
    stmt_fine (if_then n c s) h g = ground (arith, h, g, expr_fine c, stmt_fine s)
    stmt_fine (if_else n c s t) h g = ground (arith, h, g, expr_fine c, stmt_fine s, stmt_fine t)
    stmt_fine (output n e) h g = ground (arith, h, g, expr_fine e)
    stmt_fine (error n e) h g = ground (arith, h, g, expr_fine e)
    stmt_fine (return n e) h g = ground (arith, h, g, expr_fine e)

    stmts_fine :
        (ss : Stmts)
        → stmts_every (fine sc) ss ≡ true
        → stmts_every returnless ss ≡ true
        → stmts_declared sc ss ≡ true
    stmts_fine nil h g = refl
    stmts_fine (cons s ss) h g = ground (arith, h, g, stmt_fine s, stmts_fine ss)

  body_fine :
      (ss : Stmts)
      → stmts_every (fine sc) ss ≡ true
      → returns_last ss ≡ true
      → body_declared sc ss ≡ true
  body_fine nil h g = g
  body_fine (cons (return n e) nil) h g = ground (arith, h, expr_fine e)
  body_fine (cons s nil) h g = ground (arith, g)
  body_fine (cons s (cons t ss)) h g = ground (arith, h, g, stmt_fine s, body_fine (cons t ss))

functions_fine :
    (functions fields : List String) (fs : List Function)
    → well_formed fs ≡ true
    → functions_every (λ f. variable_named (locals_of f) functions) fs ≡ true
    → functions_every (λ f. field_named fields) fs ≡ true
    → functions_spared functions fields fs ≡ true
    → functions_declared functions fields fs ≡ true
functions_fine functions fields [] w v d s = refl
functions_fine functions fields (f ∷ fs) w v d s =
    let sc = scope_of functions fields f in
    let es = accept_stmts f.stmts in
    let names =
      every-both (variable_named sc.locals sc.functions) (field_named fields) es (ground (arith, v))
        (ground (arith, d)) in
    let all =
      every-both operated
        (both (both (variable_named sc.locals sc.functions) (field_named fields)) (spared sc)) es
        (ground (arith, w))
        (every-both (both (variable_named sc.locals sc.functions) (field_named fields)) (spared sc)
          es names (ground (arith, s))) in
    ground (
      arith,
      w,
      body_fine sc f.stmts (sym (stmts_every_lem (fine sc) f.stmts) ∙ all),
      functions_fine functions fields fs,
      v,
      d,
      s,
    )

-- For a program with the shape that the parser gives, which the symbol table and the pass for
-- l-values accept, in which no function is assigned to or has its address taken, and where no
-- function is called _tip_main, _tip_main_undefined or calloc or names two formals alike, code
-- generation with the fields of the table throws no exception, and its calls of the builder are
-- those that Codegen/Shape and Codegen/Edges admit.
pub analyses-generate :
    (struct_size : ℕ → ℕ) (p : Program) (table : SymbolTable)
    → well_formed p.functions ≡ true
    → build p ≡ Symbols.ok table
    → check p ≡ none
    → functions_plain p.functions ≡ true
    → functions_spared (function_names p.functions) table.fields p.functions ≡ true
    → (n : ℕ) × (g : Generator) × (generate struct_size table.fields p ≡ ok n g)
      × (shape g.calls ≡ some (record { opened = false; pending = []; count = g.blocks }))
      × (phis_agree g.calls ≡ true)
analyses-generate struct_size p table w b h plain s =
    let names = build_named p table b in
    build-check-generate struct_size p table b h plain
      (functions_fine (function_names p.functions) table.fields p.functions w (names.0) (names.1) s)
