-- ===== src/Builder/Trees.antt =====
-- The tree of a parse tree, whose nodes are numbered from `n`, the parts of a node before the node.
use sipc.Prelude.{ℤ, ℕ, suc, String, Option, none, some, List, [], ◌∷◌, str_eq}
use sipc.Ast.{
  DeclNode, Expr, Exprs, Fields, Stmt, Stmts, DeclStmt, Function, Program, number, boolean,
  variable, binary, ternary, input, null, fun_app, alloc, ref, deref, negation, minus, array,
  array_len, array_of, indexing, rec, access, nil, cons, end, field, assign, update, block, loop,
  for_each, for_range, if_then, if_else, output, error, return,
}
use sipc.Builder.{
  ExprTree, fun_app_expr, access_expr, deref_expr, neg_expr, ref_expr, array_len_expr, not_expr,
  alloc_expr, paren_expr, array_indexing_expr, array_of_expr, neg_number, num_expr, var_expr,
  bool_expr, multiplicative_expr, additive_expr, relational_expr, equality_expr, bool_ops,
  non_short_circuiting, ternary_expr, input_expr, null_expr, record_rule, array_literal, ExprTrees,
  no_expr, add_expr, FieldTrees, no_field, add_field, StmtTree, block_stmt, assign_stmt,
  update_stmt, while_stmt, for_each_stmt, for_range_stmt, for_by_stmt, if_stmt, if_else_stmt,
  output_stmt, error_stmt, StmtTrees, no_stmt, add_stmt, NameTree, DeclarationTree, FunctionTree,
  ProgramTree,
}
use sipc.Builder.Visitor.{op_string, negate, node_at}
use sipc.Builder.Visits.{push_back}
use sipc.Builder.Translation.{op_text, value_of, after, after_all, after_fields}

unfoldable mutual
  unfolding after op_string

  pub expr_at : (String → Option ℤ) → ℕ → ExprTree → Expr
  expr_at stoi n (fun_app_expr s f xs) =
      fun_app (node_at (after_all xs (after f n)) s) (expr_at stoi n f)
        (exprs_at stoi (after f n) xs)
  expr_at stoi n (access_expr s e name) = access (node_at (after e n) s) (expr_at stoi n e) name
  expr_at stoi n (deref_expr s e) = deref (node_at (after e n) s) (expr_at stoi n e)
  expr_at stoi n (array_indexing_expr s e i) =
      indexing (node_at (after i (after e n)) s) (expr_at stoi n e) (expr_at stoi (after e n) i)
  expr_at stoi n (neg_number s text) = number (node_at n s) (negate (value_of stoi text))
  expr_at stoi n (neg_expr s e) = minus (node_at (after e n) s) (expr_at stoi n e)
  expr_at stoi n (ref_expr s e) = ref (node_at (after e n) s) (expr_at stoi n e)
  expr_at stoi n (array_len_expr s e) = array_len (node_at (after e n) s) (expr_at stoi n e)
  expr_at stoi n (not_expr s e) = negation (node_at (after e n) s) (expr_at stoi n e)
  expr_at stoi n (multiplicative_expr s op l r) =
      binary (node_at (after r (after l n)) s) (op_text op) (expr_at stoi n l)
        (expr_at stoi (after l n) r)
  expr_at stoi n (additive_expr s op l r) =
      binary (node_at (after r (after l n)) s) (op_text op) (expr_at stoi n l)
        (expr_at stoi (after l n) r)
  expr_at stoi n (relational_expr s op l r) =
      binary (node_at (after r (after l n)) s) (op_text op) (expr_at stoi n l)
        (expr_at stoi (after l n) r)
  expr_at stoi n (equality_expr s op l r) =
      binary (node_at (after r (after l n)) s) (op_text op) (expr_at stoi n l)
        (expr_at stoi (after l n) r)
  expr_at stoi n (bool_ops s op l r) =
      binary (node_at (after r (after l n)) s) (op_text op) (expr_at stoi n l)
        (expr_at stoi (after l n) r)
  expr_at stoi n (non_short_circuiting s op l r) = expr_at stoi (after l n) r
  expr_at stoi n (ternary_expr s c t e) =
      ternary (node_at (after e (after t (after c n))) s) (expr_at stoi n c)
        (expr_at stoi (after c n) t) (expr_at stoi (after t (after c n)) e)
  expr_at stoi n (var_expr s name) = variable (node_at n s) name
  expr_at stoi n (num_expr s text) = number (node_at n s) (value_of stoi text)
  expr_at stoi n (bool_expr s text) = boolean (node_at n s) (str_eq text "true")
  expr_at stoi n (input_expr s) = input (node_at n s)
  expr_at stoi n (null_expr s) = null (node_at n s)
  expr_at stoi n (alloc_expr s e) = alloc (node_at (after e n) s) (expr_at stoi n e)
  expr_at stoi n (record_rule s fs) = rec (node_at (after_fields fs n) s) (fields_at stoi n fs)
  expr_at stoi n (array_literal s xs) = array (node_at (after_all xs n) s) (exprs_at stoi n xs)
  expr_at stoi n (array_of_expr s a b) =
      array_of (node_at (after b (after a n)) s) (expr_at stoi n a) (expr_at stoi (after a n) b)
  expr_at stoi n (paren_expr s e) = expr_at stoi n e

  pub exprs_at : (String → Option ℤ) → ℕ → ExprTrees → Exprs
  exprs_at stoi n no_expr = nil
  exprs_at stoi n (add_expr e es) = cons (expr_at stoi n e) (exprs_at stoi (after e n) es)

  pub fields_at : (String → Option ℤ) → ℕ → FieldTrees → Fields
  fields_at stoi n no_field = end
  fields_at stoi n (add_field s name e fs) =
      field (node_at (after e n) s) name (expr_at stoi n e) (fields_at stoi (suc (after e n)) fs)

unfoldable mutual
  unfolding after

  pub after_stmt : StmtTree → ℕ → ℕ
  after_stmt (block_stmt s ss) n = suc (after_stmts ss n)
  after_stmt (assign_stmt s l r) n = suc (after r (after l n))
  after_stmt (update_stmt s e op) n = suc (after e n)
  after_stmt (while_stmt s c b) n = suc (after_stmt b (after c n))
  after_stmt (for_each_stmt s x e b) n = suc (after_stmt b (after e (after x n)))
  after_stmt (for_range_stmt s x from to b) n =
      suc (after_stmt b (after to (after from (after x n))))
  after_stmt (for_by_stmt s x from to by b) n =
      suc (after_stmt b (after by (after to (after from (after x n)))))
  after_stmt (if_stmt s c t) n = suc (after_stmt t (after c n))
  after_stmt (if_else_stmt s c t e) n = suc (after_stmt e (after_stmt t (after c n)))
  after_stmt (output_stmt s e) n = suc (after e n)
  after_stmt (error_stmt s e) n = suc (after e n)

  pub after_stmts : StmtTrees → ℕ → ℕ
  after_stmts no_stmt n = n
  after_stmts (add_stmt t ts) n = after_stmts ts (after_stmt t n)

unfoldable mutual
  unfolding expr_at after_stmt

  pub stmt_at : (String → Option ℤ) → ℕ → StmtTree → Stmt
  stmt_at stoi n (block_stmt s ss) = block (node_at (after_stmts ss n) s) (stmts_at stoi n ss)
  stmt_at stoi n (assign_stmt s l r) =
      assign (node_at (after r (after l n)) s) (expr_at stoi n l) (expr_at stoi (after l n) r)
  stmt_at stoi n (update_stmt s e op) =
      update (node_at (after e n) s) (expr_at stoi n e) (str_eq (op_text op) "++")
  stmt_at stoi n (while_stmt s c b) =
      loop (node_at (after_stmt b (after c n)) s) (expr_at stoi n c) (stmt_at stoi (after c n) b)
  stmt_at stoi n (for_each_stmt s x e b) =
      for_each (node_at (after_stmt b (after e (after x n))) s) (expr_at stoi n x)
        (expr_at stoi (after x n) e) (stmt_at stoi (after e (after x n)) b)
  stmt_at stoi n (for_range_stmt s x from to b) =
      for_range (node_at (after_stmt b (after to (after from (after x n)))) s) (expr_at stoi n x)
        (expr_at stoi (after x n) from) (expr_at stoi (after from (after x n)) to) none
        (stmt_at stoi (after to (after from (after x n))) b)
  stmt_at stoi n (for_by_stmt s x from to by b) =
      for_range (node_at (after_stmt b (after by (after to (after from (after x n))))) s)
        (expr_at stoi n x) (expr_at stoi (after x n) from)
        (expr_at stoi (after from (after x n)) to)
        (some (expr_at stoi (after to (after from (after x n))) by))
        (stmt_at stoi (after by (after to (after from (after x n)))) b)
  stmt_at stoi n (if_stmt s c t) =
      if_then (node_at (after_stmt t (after c n)) s) (expr_at stoi n c) (stmt_at stoi (after c n) t)
  stmt_at stoi n (if_else_stmt s c t e) =
      if_else (node_at (after_stmt e (after_stmt t (after c n))) s) (expr_at stoi n c)
        (stmt_at stoi (after c n) t) (stmt_at stoi (after_stmt t (after c n)) e)
  stmt_at stoi n (output_stmt s e) = output (node_at (after e n) s) (expr_at stoi n e)
  stmt_at stoi n (error_stmt s e) = error (node_at (after e n) s) (expr_at stoi n e)

  pub stmts_at : (String → Option ℤ) → ℕ → StmtTrees → Stmts
  stmts_at stoi n no_stmt = nil
  stmts_at stoi n (add_stmt t ts) = cons (stmt_at stoi n t) (stmts_at stoi (after_stmt t n) ts)

abbrev pub after_names : List NameTree → ℕ → ℕ
after_names [] n = n
after_names (d ∷ ds) n = after_names ds (suc n)

abbrev pub names_at : ℕ → List NameTree → List DeclNode
names_at n [] = []
names_at n (d ∷ ds) = record { node = node_at n d.start; name = d.identifier } ∷ names_at (suc n) ds

abbrev pub after_decls : List DeclarationTree → ℕ → ℕ
after_decls [] n = n
after_decls (d ∷ ds) n = after_decls ds (suc (after_names d.names n))

abbrev pub decls_at : ℕ → List DeclarationTree → List DeclStmt
decls_at n [] = []
decls_at n (d ∷ ds) =
    record { node = node_at (after_names d.names n) d.start; vars = names_at n d.names }
    ∷ decls_at (suc (after_names d.names n)) ds

-- The number of the first node of the body of a function.
abbrev pub body_start : FunctionTree → ℕ → ℕ
body_start f n = after_decls f.declarations (after_names f.params (suc n))

abbrev pub return_at : FunctionTree → ℕ → ℕ
return_at f n = after_stmts f.statements (body_start f n)

abbrev pub after_function : FunctionTree → ℕ → ℕ
after_function f n = suc (suc (after f.return_expr (return_at f n)))

abbrev pub function_at : (String → Option ℤ) → ℕ → FunctionTree → Function
function_at stoi n f = record {
  node = node_at (suc (after f.return_expr (return_at f n))) f.start;
  decl = record { node = node_at n f.name.start; name = f.name.identifier };
  formals = names_at (suc n) f.params;
  declarations = decls_at (after_names f.params (suc n)) f.declarations;
  stmts = push_back (stmts_at stoi (body_start f n) f.statements) (
      return (node_at (after f.return_expr (return_at f n)) f.return_start)
        (expr_at stoi (return_at f n) f.return_expr));
  is_poly = f.kpoly;
}

abbrev pub functions_at : (String → Option ℤ) → ℕ → List FunctionTree → List Function
functions_at stoi n [] = []
functions_at stoi n (f ∷ fs) = function_at stoi n f ∷ functions_at stoi (after_function f n) fs

abbrev pub after_functions : List FunctionTree → ℕ → ℕ
after_functions [] n = n
after_functions (f ∷ fs) n = after_functions fs (after_function f n)

abbrev pub program_at : (String → Option ℤ) → (String → String) → ℕ → ProgramTree → Program
program_at stoi sha256 n t = record {
  name = sha256 t.text;
  functions = functions_at stoi n t.functions;
}
