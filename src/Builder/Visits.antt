-- ===== src/Builder/Visits.antt =====
-- The methods of `ASTBuilder` that visit expressions, statements, functions and programs.
-- `std::stoi` throws where the number of a text does not fit into an `int`, and PicoSHA2 gives the
-- name of a program: `stoi` and `sha256` are parameters.
use sipc.Prelude.{ℤ, String, Option, none, some, List, [], ◌∷◌, str_eq}
use sipc.Ast.{
  Exprs, Fields, Stmt, Stmts, Function, Program, number, boolean, variable, ternary, input, null,
  fun_app, alloc, ref, deref, negation, minus, array, array_len, array_of, indexing, rec, access,
  nil, cons, end, field, assign, update, block, loop, for_each, for_range, if_then, if_else, output,
  error, return,
}
use sipc.Builder.{
  ExprTree, fun_app_expr, access_expr, deref_expr, neg_expr, ref_expr, array_len_expr, not_expr,
  alloc_expr, paren_expr, array_indexing_expr, array_of_expr, neg_number, num_expr, var_expr,
  bool_expr, multiplicative_expr, additive_expr, relational_expr, equality_expr, bool_ops,
  non_short_circuiting, ternary_expr, input_expr, null_expr, record_rule, array_literal, ExprTrees,
  no_expr, add_expr, FieldTrees, no_field, add_field, StmtTree, block_stmt, assign_stmt,
  update_stmt, while_stmt, for_each_stmt, for_range_stmt, for_by_stmt, if_stmt, if_else_stmt,
  output_stmt, error_stmt, StmtTrees, no_stmt, add_stmt, FunctionTree, ProgramTree,
}
use sipc.Builder.Visitor.{
  out_of_range, M, pure, ◌>>=◌, ◌>>◌, or_throw, negate, make_expr, make_stmt, make_function,
  expr_of, stmt_of, field_of, decl_node_of, function_of, operator, visit_binary_expr,
  visit_field_expr, visit_name_declaration, visit_names, visit_declarations,
}

unfoldable mutual
  pub visit_expr : (String → Option ℤ) → ExprTree → M Unit
  visit_expr stoi (fun_app_expr s f xs) = do
    callee ← expr_of (visit_expr stoi f)
    actuals ← visit_exprs stoi xs
    make_expr s (λ n. fun_app n callee actuals)
  visit_expr stoi (access_expr s e name) = do
    r ← expr_of (visit_expr stoi e)
    make_expr s (λ n. access n r name)
  visit_expr stoi (deref_expr s e) = do
    r ← expr_of (visit_expr stoi e)
    make_expr s (λ n. deref n r)
  visit_expr stoi (array_indexing_expr s e i) = do
    arr ← expr_of (visit_expr stoi e)
    idx ← expr_of (visit_expr stoi i)
    make_expr s (λ n. indexing n arr idx)
  visit_expr stoi (neg_number s text) = do
    val ← or_throw (out_of_range text) (stoi text)
    make_expr s (λ n. number n (negate val))
  visit_expr stoi (neg_expr s e) = do r ← expr_of (visit_expr stoi e); make_expr s (λ n. minus n r)
  visit_expr stoi (ref_expr s e) = do r ← expr_of (visit_expr stoi e); make_expr s (λ n. ref n r)
  visit_expr stoi (array_len_expr s e) = do
    r ← expr_of (visit_expr stoi e)
    make_expr s (λ n. array_len n r)
  visit_expr stoi (not_expr s e) = do
    r ← expr_of (visit_expr stoi e)
    make_expr s (λ n. negation n r)
  visit_expr stoi (multiplicative_expr s op l r) = do
    text ← operator op
    visit_binary_expr s text (visit_expr stoi l) (visit_expr stoi r)
  visit_expr stoi (additive_expr s op l r) = do
    text ← operator op
    visit_binary_expr s text (visit_expr stoi l) (visit_expr stoi r)
  visit_expr stoi (relational_expr s op l r) = do
    text ← operator op
    visit_binary_expr s text (visit_expr stoi l) (visit_expr stoi r)
  visit_expr stoi (equality_expr s op l r) = do
    text ← operator op
    visit_binary_expr s text (visit_expr stoi l) (visit_expr stoi r)
  visit_expr stoi (bool_ops s op l r) = do
    text ← operator op
    visit_binary_expr s text (visit_expr stoi l) (visit_expr stoi r)
  -- `visitNonShortCircuiting` is not overridden: the children are visited.
  visit_expr stoi (non_short_circuiting s op l r) = do visit_expr stoi l; visit_expr stoi r
  visit_expr stoi (ternary_expr s c t e) = do
    cond ← expr_of (visit_expr stoi c)
    then_expr ← expr_of (visit_expr stoi t)
    else_expr ← expr_of (visit_expr stoi e)
    make_expr s (λ n. ternary n cond then_expr else_expr)
  visit_expr stoi (var_expr s name) = make_expr s (λ n. variable n name)
  visit_expr stoi (num_expr s text) = do
    val ← or_throw (out_of_range text) (stoi text)
    make_expr s (λ n. number n val)
  visit_expr stoi (bool_expr s text) = make_expr s (λ n. boolean n (str_eq text "true"))
  visit_expr stoi (input_expr s) = make_expr s (λ n. input n)
  visit_expr stoi (null_expr s) = make_expr s (λ n. null n)
  visit_expr stoi (alloc_expr s e) = do
    r ← expr_of (visit_expr stoi e)
    make_expr s (λ n. alloc n r)
  visit_expr stoi (record_rule s fs) = do
    fields ← visit_fields stoi fs
    make_expr s (λ n. rec n fields)
  visit_expr stoi (array_literal s xs) = do
    elements ← visit_exprs stoi xs
    make_expr s (λ n. array n elements)
  visit_expr stoi (array_of_expr s a b) = do
    first ← expr_of (visit_expr stoi a)
    second ← expr_of (visit_expr stoi b)
    make_expr s (λ n. array_of n first second)
  visit_expr stoi (paren_expr s e) = visit_expr stoi e

  pub visit_exprs : (String → Option ℤ) → ExprTrees → M Exprs
  visit_exprs stoi no_expr = pure nil
  visit_exprs stoi (add_expr e es) = do
    x ← expr_of (visit_expr stoi e)
    xs ← visit_exprs stoi es
    pure (cons x xs)

  pub visit_fields : (String → Option ℤ) → FieldTrees → M Fields
  visit_fields stoi no_field = pure end
  visit_fields stoi (add_field s name e fs) = do
    x ← field_of (visit_field_expr s name (visit_expr stoi e))
    xs ← visit_fields stoi fs
    pure (field x.node x.name x.init xs)

unfoldable mutual
  unfolding visit_expr

  pub visit_stmt : (String → Option ℤ) → StmtTree → M Unit
  visit_stmt stoi (block_stmt s ss) = do
    stmts ← visit_stmts stoi ss
    make_stmt s (λ n. block n stmts)
  visit_stmt stoi (assign_stmt s l r) = do
    lhs ← expr_of (visit_expr stoi l)
    rhs ← expr_of (visit_expr stoi r)
    make_stmt s (λ n. assign n lhs rhs)
  -- The constructor of `ASTUpdateStmt` tests for "++".
  visit_stmt stoi (update_stmt s e op) = do
    arg ← expr_of (visit_expr stoi e)
    text ← operator op
    make_stmt s (λ n. update n arg (str_eq text "++"))
  visit_stmt stoi (while_stmt s c b) = do
    cond ← expr_of (visit_expr stoi c)
    body ← stmt_of (visit_stmt stoi b)
    make_stmt s (λ n. loop n cond body)
  visit_stmt stoi (for_each_stmt s x e b) = do
    item ← expr_of (visit_expr stoi x)
    iterator ← expr_of (visit_expr stoi e)
    body ← stmt_of (visit_stmt stoi b)
    make_stmt s (λ n. for_each n item iterator body)
  visit_stmt stoi (for_range_stmt s x from to b) = do
    item ← expr_of (visit_expr stoi x)
    range_start ← expr_of (visit_expr stoi from)
    range_end ← expr_of (visit_expr stoi to)
    body ← stmt_of (visit_stmt stoi b)
    make_stmt s (λ n. for_range n item range_start range_end none body)
  visit_stmt stoi (for_by_stmt s x from to by b) = do
    item ← expr_of (visit_expr stoi x)
    range_start ← expr_of (visit_expr stoi from)
    range_end ← expr_of (visit_expr stoi to)
    increment ← expr_of (visit_expr stoi by)
    body ← stmt_of (visit_stmt stoi b)
    make_stmt s (λ n. for_range n item range_start range_end (some increment) body)
  visit_stmt stoi (if_stmt s c t) = do
    cond ← expr_of (visit_expr stoi c)
    then_body ← stmt_of (visit_stmt stoi t)
    make_stmt s (λ n. if_then n cond then_body)
  visit_stmt stoi (if_else_stmt s c t e) = do
    cond ← expr_of (visit_expr stoi c)
    then_body ← stmt_of (visit_stmt stoi t)
    else_body ← stmt_of (visit_stmt stoi e)
    make_stmt s (λ n. if_else n cond then_body else_body)
  visit_stmt stoi (output_stmt s e) = do
    arg ← expr_of (visit_expr stoi e)
    make_stmt s (λ n. output n arg)
  visit_stmt stoi (error_stmt s e) = do
    arg ← expr_of (visit_expr stoi e)
    make_stmt s (λ n. error n arg)

  pub visit_stmts : (String → Option ℤ) → StmtTrees → M Stmts
  visit_stmts stoi no_stmt = pure nil
  visit_stmts stoi (add_stmt t ts) = do
    x ← stmt_of (visit_stmt stoi t)
    xs ← visit_stmts stoi ts
    pure (cons x xs)

unfoldable pub push_back : Stmts → Stmt → Stmts
push_back nil s = cons s nil
push_back (cons x xs) s = cons x (push_back xs s)

unfoldable pub visit_return_stmt : (String → Option ℤ) → FunctionTree → M Unit
unfolding visit_expr
visit_return_stmt stoi f = do
  arg ← expr_of (visit_expr stoi f.return_expr)
  make_stmt f.return_start (λ n. return n arg)

-- The first name is the one of the function: the first round of the loop stands apart.
unfoldable pub visit_function : (String → Option ℤ) → FunctionTree → M Unit
unfolding visit_return_stmt visit_stmts push_back
visit_function stoi f = do
  name ← decl_node_of (visit_name_declaration f.name)
  params ← visit_names f.params
  decls ← visit_declarations f.declarations
  body ← visit_stmts stoi f.statements
  last ← stmt_of (visit_return_stmt stoi f)
  make_function f.start (λ n. record {
    node = n;
    decl = name;
    formals = params;
    declarations = decls;
    stmts = push_back body last;
    is_poly = f.kpoly;
  })

unfoldable pub visit_functions : (String → Option ℤ) → List FunctionTree → M (List Function)
unfolding visit_function
visit_functions stoi [] = pure []
visit_functions stoi (f ∷ fs) = do
  x ← function_of (visit_function stoi f)
  xs ← visit_functions stoi fs
  pure (x ∷ xs)

unfoldable pub build : (String → Option ℤ) → (String → String) → ProgramTree → M Program
unfolding visit_functions
build stoi sha256 t = do
  functions ← visit_functions stoi t.functions
  pure (record { name = sha256 t.text; functions = functions })
