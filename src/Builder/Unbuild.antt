-- ===== src/Builder/Unbuild.antt =====
-- From a syntax tree back to a parse tree, and what ASTBuilder drops of a parse tree: parentheses, the
-- left operand of `|` and `&`, and the spelling of numbers. The printing of a number is a parameter.
use sipc.Prelude.{
  ℤ, pos, negsuc, ℕ, suc, Bool, String, Option, none, some, List, [], ◌∷◌, map, str_eq,
  if◌then◌else◌,
}
use sipc.Ast.{
  Node, DeclNode, DeclStmt, Function, Expr, Exprs, Fields, Stmt, Stmts, number, boolean, variable,
  binary, ternary, input, null, fun_app, alloc, ref, deref, negation, minus, array, array_len,
  array_of, indexing, rec, access, nil, cons, end, field, assign, update, block, loop, for_each,
  for_range, if_then, if_else, output, error, return,
}
use sipc.Builder.{
  Token, mul_op, div_op, add_op, sub_op, mod_op, gt_op, lte_op, gte_op, lt_op, eq_op, ne_op, and_op,
  or_op, mm_op, pp_op, DeclarationTree, NameTree, Start, ExprTree, fun_app_expr, access_expr,
  deref_expr, neg_expr, ref_expr, array_len_expr, not_expr, alloc_expr, paren_expr,
  array_indexing_expr, array_of_expr, neg_number, num_expr, var_expr, bool_expr,
  multiplicative_expr, additive_expr, relational_expr, equality_expr, bool_ops,
  non_short_circuiting, ternary_expr, input_expr, null_expr, record_rule, array_literal, ExprTrees,
  no_expr, add_expr, FieldTrees, no_field, add_field, StmtTree, block_stmt, assign_stmt,
  update_stmt, while_stmt, for_each_stmt, for_range_stmt, for_by_stmt, if_stmt, if_else_stmt,
  output_stmt, error_stmt, StmtTrees, no_stmt, add_stmt, FunctionTree,
}
use sipc.Builder.Visitor.{op_string, negate}
use sipc.Builder.Translation.{op_text, value_of}
use sipc.Builder.Grammar.{is_multiplicative, is_additive, is_relational, is_equality}

abbrev start_of : Node → Start
start_of n = record { line = n.line; column = n.column }

-- The token of a text, and the alternative of a token.
abbrev token_of : List Token → String → Token
token_of [] text = add_op
token_of (t ∷ ts) text = if str_eq (op_text t) text then t else token_of ts text

abbrev operators : List Token
operators =
    mul_op ∷ div_op ∷ mod_op ∷ add_op ∷ sub_op ∷ gt_op ∷ lte_op ∷ gte_op ∷ lt_op ∷ eq_op ∷ ne_op
    ∷ and_op ∷ or_op ∷ []

abbrev operation : Token → Start → ExprTree → ExprTree → ExprTree
operation op s l r =
    if is_multiplicative op
    then multiplicative_expr s op l r
    else if is_additive op
    then additive_expr s op l r
    else if is_relational op
    then relational_expr s op l r
    else if is_equality op
    then equality_expr s op l r
    else bool_ops s op l r

abbrev pub operation_of : String → Start → ExprTree → ExprTree → ExprTree
operation_of text = operation (token_of operators text)

abbrev pub truth : Bool → String
truth b = if b then "true" else "false"

module _ (to_string : ℕ → String) where
  abbrev pub number_of : Start → ℤ → ExprTree
  number_of s (pos k) = num_expr s (to_string k)
  number_of s (negsuc k) = neg_number s (to_string (suc k))

unfoldable mutual
  unfolding op_string

  pub expr_tree : (ℕ → String) → Expr → ExprTree
  expr_tree str (number n k) = number_of str (start_of n) k
  expr_tree str (boolean n b) = bool_expr (start_of n) (truth b)
  expr_tree str (variable n x) = var_expr (start_of n) x
  expr_tree str (binary n op l r) = operation_of op (start_of n) (expr_tree str l) (expr_tree str r)
  expr_tree str (ternary n c t e) =
      ternary_expr (start_of n) (expr_tree str c) (expr_tree str t) (expr_tree str e)
  expr_tree str (input n) = input_expr (start_of n)
  expr_tree str (null n) = null_expr (start_of n)
  expr_tree str (fun_app n f xs) = fun_app_expr (start_of n) (expr_tree str f) (exprs_tree str xs)
  expr_tree str (alloc n e) = alloc_expr (start_of n) (expr_tree str e)
  expr_tree str (ref n e) = ref_expr (start_of n) (expr_tree str e)
  expr_tree str (deref n e) = deref_expr (start_of n) (expr_tree str e)
  expr_tree str (negation n e) = not_expr (start_of n) (expr_tree str e)
  expr_tree str (minus n e) = neg_expr (start_of n) (expr_tree str e)
  expr_tree str (array n xs) = array_literal (start_of n) (exprs_tree str xs)
  expr_tree str (array_len n e) = array_len_expr (start_of n) (expr_tree str e)
  expr_tree str (array_of n a b) = array_of_expr (start_of n) (expr_tree str a) (expr_tree str b)
  expr_tree str (indexing n a i) =
      array_indexing_expr (start_of n) (expr_tree str a) (expr_tree str i)
  expr_tree str (rec n fs) = record_rule (start_of n) (fields_tree str fs)
  expr_tree str (access n e f) = access_expr (start_of n) (expr_tree str e) f

  pub exprs_tree : (ℕ → String) → Exprs → ExprTrees
  exprs_tree str nil = no_expr
  exprs_tree str (cons e es) = add_expr (expr_tree str e) (exprs_tree str es)

  pub fields_tree : (ℕ → String) → Fields → FieldTrees
  fields_tree str end = no_field
  fields_tree str (field n s e fs) = add_field (start_of n) s (expr_tree str e) (fields_tree str fs)

-- A `return` has no tree among the statements.
unfoldable mutual
  unfolding expr_tree

  pub stmt_tree : (ℕ → String) → Stmt → StmtTree
  stmt_tree str (assign n l r) = assign_stmt (start_of n) (expr_tree str l) (expr_tree str r)
  stmt_tree str (update n e b) =
      update_stmt (start_of n) (expr_tree str e) (if b then pp_op else mm_op)
  stmt_tree str (block n ss) = block_stmt (start_of n) (stmts_tree str ss)
  stmt_tree str (loop n c s) = while_stmt (start_of n) (expr_tree str c) (stmt_tree str s)
  stmt_tree str (for_each n x e s) =
      for_each_stmt (start_of n) (expr_tree str x) (expr_tree str e) (stmt_tree str s)
  stmt_tree str (for_range n x a b none s) =
      for_range_stmt (start_of n) (expr_tree str x) (expr_tree str a) (expr_tree str b)
        (stmt_tree str s)
  stmt_tree str (for_range n x a b (some i) s) =
      for_by_stmt (start_of n) (expr_tree str x) (expr_tree str a) (expr_tree str b)
        (expr_tree str i) (stmt_tree str s)
  stmt_tree str (if_then n c s) = if_stmt (start_of n) (expr_tree str c) (stmt_tree str s)
  stmt_tree str (if_else n c s t) =
      if_else_stmt (start_of n) (expr_tree str c) (stmt_tree str s) (stmt_tree str t)
  stmt_tree str (output n e) = output_stmt (start_of n) (expr_tree str e)
  stmt_tree str (error n e) = error_stmt (start_of n) (expr_tree str e)
  stmt_tree str (return n e) = block_stmt (start_of n) no_stmt

  pub stmts_tree : (ℕ → String) → Stmts → StmtTrees
  stmts_tree str nil = no_stmt
  stmts_tree str (cons s ss) = add_stmt (stmt_tree str s) (stmts_tree str ss)

unfoldable mutual
  unfolding negate

  pub strip : (String → Option ℤ) → (ℕ → String) → ExprTree → ExprTree
  strip stoi str (deref_expr s e) = deref_expr s (strip stoi str e)
  strip stoi str (neg_expr s e) = neg_expr s (strip stoi str e)
  strip stoi str (ref_expr s e) = ref_expr s (strip stoi str e)
  strip stoi str (array_len_expr s e) = array_len_expr s (strip stoi str e)
  strip stoi str (not_expr s e) = not_expr s (strip stoi str e)
  strip stoi str (alloc_expr s e) = alloc_expr s (strip stoi str e)
  strip stoi str (array_indexing_expr s a b) =
      array_indexing_expr s (strip stoi str a) (strip stoi str b)
  strip stoi str (array_of_expr s a b) = array_of_expr s (strip stoi str a) (strip stoi str b)
  strip stoi str (multiplicative_expr s op l r) =
      multiplicative_expr s op (strip stoi str l) (strip stoi str r)
  strip stoi str (additive_expr s op l r) = additive_expr s op (strip stoi str l) (strip stoi str r)
  strip stoi str (relational_expr s op l r) =
      relational_expr s op (strip stoi str l) (strip stoi str r)
  strip stoi str (equality_expr s op l r) = equality_expr s op (strip stoi str l) (strip stoi str r)
  strip stoi str (bool_ops s op l r) = bool_ops s op (strip stoi str l) (strip stoi str r)
  strip stoi str (fun_app_expr s f xs) = fun_app_expr s (strip stoi str f) (strip_all stoi str xs)
  strip stoi str (access_expr s e name) = access_expr s (strip stoi str e) name
  strip stoi str (neg_number s text) = number_of str s (negate (value_of stoi text))
  strip stoi str (num_expr s text) = number_of str s (value_of stoi text)
  strip stoi str (non_short_circuiting s op l r) = strip stoi str r
  strip stoi str (ternary_expr s c t e) =
      ternary_expr s (strip stoi str c) (strip stoi str t) (strip stoi str e)
  strip stoi str (record_rule s fs) = record_rule s (strip_fields stoi str fs)
  strip stoi str (array_literal s xs) = array_literal s (strip_all stoi str xs)
  strip stoi str (paren_expr s e) = strip stoi str e
  strip stoi str (bool_expr s text) = bool_expr s (truth (str_eq text "true"))
  strip stoi str (var_expr s x) = var_expr s x
  strip stoi str (input_expr s) = input_expr s
  strip stoi str (null_expr s) = null_expr s

  pub strip_all : (String → Option ℤ) → (ℕ → String) → ExprTrees → ExprTrees
  strip_all stoi str no_expr = no_expr
  strip_all stoi str (add_expr e es) = add_expr (strip stoi str e) (strip_all stoi str es)

  pub strip_fields : (String → Option ℤ) → (ℕ → String) → FieldTrees → FieldTrees
  strip_fields stoi str no_field = no_field
  strip_fields stoi str (add_field s x e fs) =
      add_field s x (strip stoi str e) (strip_fields stoi str fs)

unfoldable mutual
  unfolding strip

  pub strip_stmt : (String → Option ℤ) → (ℕ → String) → StmtTree → StmtTree
  strip_stmt stoi str (block_stmt s ss) = block_stmt s (strip_stmts stoi str ss)
  strip_stmt stoi str (assign_stmt s l r) = assign_stmt s (strip stoi str l) (strip stoi str r)
  strip_stmt stoi str (update_stmt s e op) = update_stmt s (strip stoi str e) op
  strip_stmt stoi str (while_stmt s c b) = while_stmt s (strip stoi str c) (strip_stmt stoi str b)
  strip_stmt stoi str (for_each_stmt s x e b) =
      for_each_stmt s (strip stoi str x) (strip stoi str e) (strip_stmt stoi str b)
  strip_stmt stoi str (for_range_stmt s x from to b) =
      for_range_stmt s (strip stoi str x) (strip stoi str from) (strip stoi str to)
        (strip_stmt stoi str b)
  strip_stmt stoi str (for_by_stmt s x from to by b) =
      for_by_stmt s (strip stoi str x) (strip stoi str from) (strip stoi str to) (strip stoi str by)
        (strip_stmt stoi str b)
  strip_stmt stoi str (if_stmt s c t) = if_stmt s (strip stoi str c) (strip_stmt stoi str t)
  strip_stmt stoi str (if_else_stmt s c t e) =
      if_else_stmt s (strip stoi str c) (strip_stmt stoi str t) (strip_stmt stoi str e)
  strip_stmt stoi str (output_stmt s e) = output_stmt s (strip stoi str e)
  strip_stmt stoi str (error_stmt s e) = error_stmt s (strip stoi str e)

  pub strip_stmts : (String → Option ℤ) → (ℕ → String) → StmtTrees → StmtTrees
  strip_stmts stoi str no_stmt = no_stmt
  strip_stmts stoi str (add_stmt s ss) = add_stmt (strip_stmt stoi str s) (strip_stmts stoi str ss)

-- The statements before the last one, where that is a `return`.
unfoldable pub split_return : Stmts → Option (Stmts × (Node × Expr))
split_return nil = none
split_return (cons (return n e) nil) = some (nil, (n, e))
split_return (cons s ss) = elim (split_return ss) [
  | none ↦ none
  | some (ts, r) ↦ some (cons s ts, r)
]

abbrev pub names_tree : List DeclNode → List NameTree
names_tree = map (λ d. record { start = start_of d.node; identifier = d.name })

abbrev pub decls_tree : List DeclStmt → List DeclarationTree
decls_tree = map (λ d. record { start = start_of d.node; names = names_tree d.vars })

unfoldable pub function_tree : (ℕ → String) → Function → Option FunctionTree
unfolding split_return stmt_tree
function_tree str f = elim (split_return f.stmts) [
  | none ↦ none
  | some (ss, (n, e)) ↦ some (record {
    start = start_of f.node;
    name = record { start = start_of f.decl.node; identifier = f.decl.name };
    params = names_tree f.formals;
    kpoly = f.is_poly;
    declarations = decls_tree f.declarations;
    statements = stmts_tree str ss;
    return_start = start_of n;
    return_expr = expr_tree str e;
  })
]

unfoldable pub functions_tree : (ℕ → String) → List Function → Option (List FunctionTree)
unfolding function_tree
functions_tree str [] = some []
functions_tree str (f ∷ fs) = elim (function_tree str f) [
  | none ↦ none
  | some t ↦ elim (functions_tree str fs) [ none ↦ none | some ts ↦ some (t ∷ ts) ]
]

abbrev pub strip_function : (String → Option ℤ) → (ℕ → String) → FunctionTree → FunctionTree
strip_function stoi str f = record f {
  statements = strip_stmts stoi str f.statements;
  return_expr = strip stoi str f.return_expr;
}
