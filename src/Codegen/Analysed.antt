-- ===== src/Codegen/Analysed.antt =====
-- The passes before code generation give it what it needs: a program that src/semantic/symboltable
-- and src/semantic/weeding accept, with its names declared, is one of those of Codegen/Scoped.
use sipc.Prelude.{
  sym, ◌∙◌, Option-cases, inl, inr, ◌≡◌, refl, ℕ, Bool, true, false, ◌&&◌, ◌||◌, String, Option,
  none, some, List, [], ◌∷◌, arith,
}
use sipc.Ast.{
  Function, Program, Expr, Exprs, Fields, Stmt, Stmts, number, boolean, variable, binary, ternary,
  input, null, fun_app, alloc, ref, deref, negation, minus, array, array_len, array_of, indexing,
  rec, access, nil, cons, end, field, assign, update, block, loop, for_each, for_range, if_then,
  if_else, output, error, return,
}
use sipc.Symbols
use sipc.Symbols.{SymbolTable, FunctionMap, build, function_names as collected_names}
use sipc.Symbols.Functions.{first_named, distinct_names, is_ok, function_names_correct}
use sipc.Weeding.{check}
use sipc.Weeding.Lvalues.{
  is_lvalue, is_target, weeded, all_weeded, fields_weeded, step_weeded, stmt_weeded, stmts_weeded,
  functions_weeded,
}
use sipc.Weeding.Laws.{check_iff}
use sipc.Codegen.{Generator, ok}
use sipc.Codegen.Shape.{shape}
use sipc.Codegen.Edges.{phis_agree}
use sipc.Codegen.Choices.{has_instruction}
use sipc.Codegen.Programs.{generate}
use sipc.Codegen.Scoped.{
  Scope, listed, expr_ok, target_ok, exprs_ok, fields_ok, increment_ok, stmt_ok, stmts_ok, ends_ok,
  body_ok, has_vars, scope_of, function_names, unique, functions_ok, functions_plain,
}
use sipc.Codegen.Laws.{generate_correct}

-- A variable whose address is taken or that is assigned is no function.
abbrev pub is_no_function : Scope → Expr → Bool
is_no_function sc (variable n x) = listed x sc.locals
is_no_function sc _ = true

-- Names are declared and operators have an instruction.
abbrev mutual
  pub declared : Scope → Expr → Bool
  declared sc (number n k) = true
  declared sc (boolean n b) = true
  declared sc (variable n x) = listed x sc.locals || listed x sc.functions
  declared sc (binary n op l r) = has_instruction op && (declared sc l && declared sc r)
  declared sc (ternary n c t e) = declared sc c && (declared sc t && declared sc e)
  declared sc (input n) = true
  declared sc (null n) = true
  declared sc (fun_app n f xs) = declared sc f && all_declared sc xs
  declared sc (alloc n e) = declared sc e
  declared sc (ref n e) = declared sc e && is_no_function sc e
  declared sc (deref n e) = declared sc e
  declared sc (negation n e) = declared sc e
  declared sc (minus n e) = declared sc e
  declared sc (array n xs) = all_declared sc xs
  declared sc (array_len n e) = declared sc e
  declared sc (array_of n a b) = declared sc a && declared sc b
  declared sc (indexing n a i) = declared sc a && declared sc i
  declared sc (rec n fs) = fields_declared sc fs
  declared sc (access n e f) = listed f sc.fields && declared sc e

  pub all_declared : Scope → Exprs → Bool
  all_declared sc nil = true
  all_declared sc (cons e es) = declared sc e && all_declared sc es

  pub fields_declared : Scope → Fields → Bool
  fields_declared sc end = true
  fields_declared sc (field n s e fs) =
      listed s sc.fields && (declared sc e && fields_declared sc fs)

abbrev pub target_declared : Scope → Expr → Bool
target_declared sc e = declared sc e && is_no_function sc e

abbrev pub step_declared : Scope → Option Expr → Bool
step_declared sc none = true
step_declared sc (some e) = declared sc e

-- A `return` is no statement of these.
abbrev mutual
  pub stmt_declared : Scope → Stmt → Bool
  stmt_declared sc (assign n l r) = target_declared sc l && declared sc r
  stmt_declared sc (update n e b) = target_declared sc e
  stmt_declared sc (block n ss) = stmts_declared sc ss
  stmt_declared sc (loop n c s) = declared sc c && stmt_declared sc s
  stmt_declared sc (for_each n x e s) =
      target_declared sc x && (declared sc e && stmt_declared sc s)
  stmt_declared sc (for_range n x a b i s) =
      target_declared sc x
      && (declared sc a && (declared sc b && (step_declared sc i && stmt_declared sc s)))
  stmt_declared sc (if_then n c s) = declared sc c && stmt_declared sc s
  stmt_declared sc (if_else n c s t) = declared sc c && (stmt_declared sc s && stmt_declared sc t)
  stmt_declared sc (output n e) = declared sc e
  stmt_declared sc (error n e) = declared sc e
  stmt_declared sc (return n e) = false

  pub stmts_declared : Scope → Stmts → Bool
  stmts_declared sc nil = true
  stmts_declared sc (cons s ss) = stmt_declared sc s && stmts_declared sc ss

-- A `return` comes last.
abbrev pub return_declared : Scope → Stmt → Bool
return_declared sc (return n e) = declared sc e
return_declared sc _ = false

abbrev pub body_declared : Scope → Stmts → Bool
body_declared sc nil = false
body_declared sc (cons s nil) = return_declared sc s
body_declared sc (cons s (cons t ss)) = stmt_declared sc s && body_declared sc (cons t ss)

abbrev pub functions_declared : List String → List String → List Function → Bool
functions_declared functions fields [] = true
functions_declared functions fields (f ∷ fs) =
    (has_vars f.declarations && body_declared (scope_of functions fields f) f.stmts)
    && functions_declared functions fields fs

both :
    {a b c d e f : Bool}
    → (a ≡ true → c ≡ true → e ≡ true)
    → (b ≡ true → d ≡ true → f ≡ true)
    → a && b ≡ true
    → c && d ≡ true
    → e && f ≡ true
both g k h i = ground (arith, g, k, h, i)

keeps : (a : Bool) {b c : Bool} → (b ≡ true → c ≡ true) → a && b ≡ true → a && c ≡ true
keeps a g h = ground (arith, g, h)

and_in : {a b : Bool} → a ≡ true → b ≡ true → a && b ≡ true
and_in g h = ground (arith, g, h)

left : (a b : Bool) → a && b ≡ true → a ≡ true
left a b h = ground (arith, h)

right : (a b : Bool) → a && b ≡ true → b ≡ true
right a b h = ground (arith, h)

never : (b : Bool) → false ≡ true → b ≡ true
never b h = ground (arith, h)

module _ (sc : Scope) where
  mutual
    expr_of : (e : Expr) → weeded e ≡ true → declared sc e ≡ true → expr_ok sc e ≡ true
    expr_of (number n k) h d = refl
    expr_of (boolean n b) h d = refl
    expr_of (variable n x) h d = d
    expr_of (binary n op l r) h d = keeps _ (λ e. both (expr_of l) (expr_of r) h e) d
    expr_of (ternary n c t e) h d = both (expr_of c) (both (expr_of t) (expr_of e)) h d
    expr_of (input n) h d = refl
    expr_of (null n) h d = refl
    expr_of (fun_app n f xs) h d = both (expr_of f) (exprs_of xs) h d
    expr_of (alloc n e) h d = expr_of e h d
    expr_of (ref n e) h d = lvalue_of e h d
    expr_of (deref n e) h d = expr_of e h d
    expr_of (negation n e) h d = expr_of e h d
    expr_of (minus n e) h d = expr_of e h d
    expr_of (array n xs) h d = exprs_of xs h d
    expr_of (array_len n e) h d = expr_of e h d
    expr_of (array_of n a b) h d = both (expr_of a) (expr_of b) h d
    expr_of (indexing n a i) h d = both (expr_of a) (expr_of i) h d
    expr_of (rec n fs) h d = fields_of fs h d
    expr_of (access n e f) h d = keeps _ (expr_of e h) d

    lvalue_of :
        (e : Expr)
        → weeded e && is_lvalue e ≡ true
        → declared sc e && is_no_function sc e ≡ true
        → target_ok sc e ≡ true
    lvalue_of (variable n x) h d = right _ _ d
    lvalue_of (indexing n a i) h d = both (expr_of a) (expr_of i) (left _ _ h) (left _ _ d)
    lvalue_of (access n e f) h d = keeps _ (expr_of e (left _ _ h)) (left _ _ d)
    lvalue_of e h d = never _ (right (weeded e) (is_lvalue e) h)

    exprs_of :
        (es : Exprs) → all_weeded es ≡ true → all_declared sc es ≡ true → exprs_ok sc es ≡ true
    exprs_of nil h d = refl
    exprs_of (cons e es) h d = both (expr_of e) (exprs_of es) h d

    fields_of :
        (fs : Fields)
        → fields_weeded fs ≡ true
        → fields_declared sc fs ≡ true
        → fields_ok sc fs ≡ true
    fields_of end h d = refl
    fields_of (field n s e fs) h d = keeps _ (both (expr_of e) (fields_of fs) h) d

  target_of :
      (e : Expr)
      → weeded e ≡ true
      → is_target e ≡ true
      → target_declared sc e ≡ true
      → target_ok sc e ≡ true
  target_of (deref n e) h t d = expr_of e h (left _ _ d)
  target_of (variable n x) h t d = right _ _ d
  target_of (indexing n a i) h t d = both (expr_of a) (expr_of i) h (left _ _ d)
  target_of (access n e f) h t d = keeps _ (expr_of e h) (left _ _ d)
  target_of _ h t d = never _ t

  step_of :
      (i : Option Expr)
      → step_weeded i ≡ true
      → step_declared sc i ≡ true
      → increment_ok sc i ≡ true
  step_of none h d = refl
  step_of (some e) h d = expr_of e h d

  mutual
    stmt_of : (s : Stmt) → stmt_weeded s ≡ true → stmt_declared sc s ≡ true → stmt_ok sc s ≡ true
    stmt_of (assign n l r) h d =
        and_in (target_of l (left _ _ h) (right _ _ (right _ _ h)) (left _ _ d))
          (expr_of r (left _ _ (right _ _ h)) (right _ _ d))
    stmt_of (update n e b) h d = target_of e (left _ _ h) (right _ _ h) d
    stmt_of (block n ss) h d = stmts_of ss h d
    stmt_of (loop n c s) h d = both (expr_of c) (stmt_of s) h d
    stmt_of (for_each n x e s) h d =
        let w = right _ _ h in
        let v = right _ _ w in
        and_in (target_of x (left _ _ h) (right _ _ v) (left _ _ d)) (
          and_in (expr_of e (left _ _ w) (left _ _ (right _ _ d)))
            (stmt_of s (left _ _ v) (right _ _ (right _ _ d))))
    stmt_of (for_range n x a b i s) h d =
        let w =
          right (weeded x)
            (weeded a && (weeded b && (step_weeded i && (stmt_weeded s && is_target x)))) h in
        let v =
          right (weeded a) (weeded b && (step_weeded i && (stmt_weeded s && is_target x))) w in
        let u = right (weeded b) (step_weeded i && (stmt_weeded s && is_target x)) v in
        let t = right (step_weeded i) (stmt_weeded s && is_target x) u in
        let rest =
          right (target_declared sc x)
            (declared sc a && (declared sc b && (step_declared sc i && stmt_declared sc s))) d in
        and_in
          (target_of x (left (weeded x) _ h) (right (stmt_weeded s) (is_target x) t)
            (left (target_declared sc x) _ d))
          (both (expr_of a) (both (expr_of b) (both (step_of i) (stmt_of s)))
            (and_in (left (weeded a) _ w) (
              and_in (left (weeded b) _ v)
                (and_in (left (step_weeded i) _ u) (left (stmt_weeded s) _ t))))
            rest)
    stmt_of (if_then n c s) h d = both (expr_of c) (stmt_of s) h d
    stmt_of (if_else n c s t) h d = both (expr_of c) (both (stmt_of s) (stmt_of t)) h d
    stmt_of (output n e) h d = expr_of e h d
    stmt_of (error n e) h d = expr_of e h d
    stmt_of (return n e) h d = d

    stmts_of :
        (ss : Stmts) → stmts_weeded ss ≡ true → stmts_declared sc ss ≡ true → stmts_ok sc ss ≡ true
    stmts_of nil h d = refl
    stmts_of (cons s ss) h d = both (stmt_of s) (stmts_of ss) h d

  end_of : (s : Stmt) → stmt_weeded s ≡ true → return_declared sc s ≡ true → ends_ok sc s ≡ true
  end_of (return n e) h d = expr_of e h d
  end_of _ h d = never _ d

  body_of :
      (ss : Stmts) → stmts_weeded ss ≡ true → body_declared sc ss ≡ true → body_ok sc ss ≡ true
  body_of nil h d = d
  body_of (cons s nil) h d = end_of s (left _ _ h) d
  body_of (cons s (cons t ss)) h d = both (stmt_of s) (body_of (cons t ss)) h d

functions_of :
    (functions fields : List String) (fs : List Function)
    → functions_weeded fs ≡ true
    → functions_declared functions fields fs ≡ true
    → functions_ok functions fields fs ≡ true
functions_of functions fields [] h d = refl
functions_of functions fields (f ∷ fs) h d =
    and_in (keeps _ (body_of (scope_of functions fields f) f.stmts (left _ _ h)) (left _ _ d))
      (functions_of functions fields fs (right _ _ h) (right _ _ d))

named-listed :
    (x : String) (fs : List Function)
    → first_named x fs ≡ none
    → listed x (function_names fs) ≡ false
named-listed x [] h = refl
named-listed x (f ∷ fs) h = ground (arith, h, named-listed x fs)

distinct_names-unique :
    (fs : List Function) → distinct_names fs ≡ true → unique (function_names fs) ≡ true
distinct_names-unique [] h = refl
distinct_names-unique (f ∷ fs) h = elim (Option-cases (first_named f.decl.name fs)) [
  | inl e ↦ ground (arith, e, h, named-listed f.decl.name fs, distinct_names-unique fs)
  | inr (d, e) ↦ ground (arith, e, h)
]

-- A symbol table is built only where the names of functions are collected without an exception.
build_lem :
    (p : Program) (table : SymbolTable)
    → build p ≡ Symbols.ok table
    → is_ok (collected_names p) ≡ true
unfolding build
build_lem p table h = by_names (collected_names p) refl
  where
    by_names :
        (r : Symbols.Result FunctionMap) → collected_names p ≡ r → is_ok (collected_names p) ≡ true
    by_names (Symbols.ok m) e = ground (arith, e)
    by_names (Symbols.semantic_error err) e = ground (arith, e, h)

-- Take a program that the symbol table and the pass for l-values accept, whose functions use
-- declared names and operators that have an instruction, do not assign to a function or take its
-- address, have a name in each declaration and return at their end and nowhere else, and where no
-- function is called _tip_main, _tip_main_undefined or calloc or names two formals alike. Then code
-- generation with the fields of the table throws no exception, and in the calls that it makes of
-- the builder operands have the types that the instructions take, functions of the runtime get as
-- many arguments as they take, targets of branches exist, nothing is written outside a block or
-- after its end, every block is put into the function, written and ended, and each phi has one
-- value for each branch made to its block before it, from that block.
pub build-check-generate :
    (struct_size : ℕ → ℕ) (p : Program) (table : SymbolTable)
    → build p ≡ Symbols.ok table
    → check p ≡ none
    → functions_plain p.functions ≡ true
    → functions_declared (function_names p.functions) table.fields p.functions ≡ true
    → (n : ℕ) × (g : Generator) × (generate struct_size table.fields p ≡ ok n g)
      × (shape g.calls ≡ some (record { opened = false; pending = []; count = g.blocks }))
      × (phis_agree g.calls ≡ true)
build-check-generate struct_size p table b h plain d = generate_correct struct_size table.fields p (
    and_in
      (and_in
        (distinct_names-unique p.functions
          (sym ((function_names_correct p).0) ∙ build_lem p table b))
        plain)
      (functions_of (function_names p.functions) table.fields p.functions ((check_iff p).0 h) d))
