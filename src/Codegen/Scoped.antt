-- ===== src/Codegen/Scoped.antt =====
-- The programs that src/codegen/CodeGenFunctions.cpp is made for, by recursion on the syntax: names
-- are declared, an l-value stands where one is needed, operators have an instruction, and a function
-- returns at its end and nowhere else.
use sipc.Prelude.{
  Bool, true, false, not, ◌&&◌, ◌||◌, if◌then◌else◌, String, Option, none, some, List, [], ◌∷◌,
  ◌++◌, str_eq,
}
use sipc.Ast.{
  DeclStmt, Function, Program, Expr, Exprs, Fields, Stmt, Stmts, number, boolean, variable, binary,
  ternary, input, null, fun_app, alloc, ref, deref, negation, minus, array, array_len, array_of,
  indexing, rec, access, nil, cons, end, field, assign, update, block, loop, for_each, for_range,
  if_then, if_else, output, error, return,
}
use sipc.Codegen.Choices.{has_instruction}
use sipc.Codegen.Programs.{decl_names}

pub record Scope : Type 0 where
  pub locals : List String
  pub functions : List String
  pub fields : List String

abbrev pub listed : String → List String → Bool
listed x [] = false
listed x (y ∷ ys) = if str_eq x y then true else listed x ys

abbrev mutual
  pub expr_ok : Scope → Expr → Bool
  expr_ok sc (number n k) = true
  expr_ok sc (boolean n b) = true
  expr_ok sc (variable n x) = listed x sc.locals || listed x sc.functions
  expr_ok sc (binary n op l r) = has_instruction op && (expr_ok sc l && expr_ok sc r)
  expr_ok sc (ternary n c t e) = expr_ok sc c && (expr_ok sc t && expr_ok sc e)
  expr_ok sc (input n) = true
  expr_ok sc (null n) = true
  expr_ok sc (fun_app n f xs) = expr_ok sc f && exprs_ok sc xs
  expr_ok sc (alloc n e) = expr_ok sc e
  expr_ok sc (ref n e) = target_ok sc e
  expr_ok sc (deref n e) = expr_ok sc e
  expr_ok sc (negation n e) = expr_ok sc e
  expr_ok sc (minus n e) = expr_ok sc e
  expr_ok sc (array n xs) = exprs_ok sc xs
  expr_ok sc (array_len n e) = expr_ok sc e
  expr_ok sc (array_of n a b) = expr_ok sc a && expr_ok sc b
  expr_ok sc (indexing n a i) = expr_ok sc a && expr_ok sc i
  expr_ok sc (rec n fs) = fields_ok sc fs
  expr_ok sc (access n e f) = listed f sc.fields && expr_ok sc e

  -- What has an address: not a function.
  pub target_ok : Scope → Expr → Bool
  target_ok sc (variable n x) = listed x sc.locals
  target_ok sc (deref n e) = expr_ok sc e
  target_ok sc (indexing n a i) = expr_ok sc a && expr_ok sc i
  target_ok sc (access n e f) = listed f sc.fields && expr_ok sc e
  target_ok sc _ = false

  pub exprs_ok : Scope → Exprs → Bool
  exprs_ok sc nil = true
  exprs_ok sc (cons e es) = expr_ok sc e && exprs_ok sc es

  pub fields_ok : Scope → Fields → Bool
  fields_ok sc end = true
  fields_ok sc (field n s e fs) = listed s sc.fields && (expr_ok sc e && fields_ok sc fs)

abbrev pub increment_ok : Scope → Option Expr → Bool
increment_ok sc none = true
increment_ok sc (some e) = expr_ok sc e

abbrev mutual
  pub stmt_ok : Scope → Stmt → Bool
  stmt_ok sc (assign n l r) = target_ok sc l && expr_ok sc r
  stmt_ok sc (update n e b) = target_ok sc e
  stmt_ok sc (block n ss) = stmts_ok sc ss
  stmt_ok sc (loop n c s) = expr_ok sc c && stmt_ok sc s
  stmt_ok sc (for_each n x e s) = target_ok sc x && (expr_ok sc e && stmt_ok sc s)
  stmt_ok sc (for_range n x a b i s) =
      target_ok sc x && (expr_ok sc a && (expr_ok sc b && (increment_ok sc i && stmt_ok sc s)))
  stmt_ok sc (if_then n c s) = expr_ok sc c && stmt_ok sc s
  stmt_ok sc (if_else n c s t) = expr_ok sc c && (stmt_ok sc s && stmt_ok sc t)
  stmt_ok sc (output n e) = expr_ok sc e
  stmt_ok sc (error n e) = expr_ok sc e
  stmt_ok sc (return n e) = false

  pub stmts_ok : Scope → Stmts → Bool
  stmts_ok sc nil = true
  stmts_ok sc (cons s ss) = stmt_ok sc s && stmts_ok sc ss

-- A `return` is the last statement.
abbrev pub ends_ok : Scope → Stmt → Bool
ends_ok sc (return n e) = expr_ok sc e
ends_ok sc _ = false

abbrev pub body_ok : Scope → Stmts → Bool
body_ok sc nil = false
body_ok sc (cons s nil) = ends_ok sc s
body_ok sc (cons s (cons t ss)) = stmt_ok sc s && body_ok sc (cons t ss)

abbrev pub has_vars : List DeclStmt → Bool
has_vars [] = true
has_vars (d ∷ ds) = elim d.vars [ [] ↦ false | v ∷ vs ↦ has_vars ds ]

-- The locals, each declaration followed by the next ones.
abbrev pub all_names : List DeclStmt → List String
all_names [] = []
all_names (d ∷ ds) = (decl_names d.vars ++ []) ++ all_names ds

abbrev pub scope_of : List String → List String → Function → Scope
scope_of functions fields f = record {
  locals = decl_names f.formals ++ all_names f.declarations;
  functions = functions;
  fields = fields;
}

abbrev pub function_ok : List String → List String → Function → Bool
function_ok functions fields f =
    has_vars f.declarations && body_ok (scope_of functions fields f) f.stmts

abbrev pub function_names : List Function → List String
function_names [] = []
function_names (f ∷ fs) = f.decl.name ∷ function_names fs

abbrev pub unique : List String → Bool
unique [] = true
unique (x ∷ xs) = not (listed x xs) && unique xs

abbrev pub functions_ok : List String → List String → List Function → Bool
functions_ok functions fields [] = true
functions_ok functions fields (f ∷ fs) =
    function_ok functions fields f && functions_ok functions fields fs

-- The names of functions of the module that are not of the program: for a function of the program
-- that has one of them, `getFunction` gives another function or the calls go to a renamed one.
abbrev pub is_reserved : String → Bool
is_reserved x = listed x ("_tip_main" ∷ "_tip_main_undefined" ∷ "calloc" ∷ [])

-- No function has a reserved name, or two formals of one name.
abbrev pub functions_plain : List Function → Bool
functions_plain [] = true
functions_plain (f ∷ fs) =
    not (is_reserved f.decl.name) && (unique (decl_names f.formals) && functions_plain fs)

abbrev pub program_ok : List String → Program → Bool
program_ok fields p =
    (unique (function_names p.functions) && functions_plain p.functions)
    && functions_ok (function_names p.functions) fields p.functions
