-- ===== src/Builder/RoundTrip.antt =====
-- What ASTBuilder keeps of a parse tree: the tree that it builds gives the parse tree back, without
-- what Unbuild says it drops.
use sipc.Prelude.{
  ◌≡◌, refl, ap, ap₂, ◌∙◌, ℤ, ℕ, suc, true, ◌&&◌, map, String, Option, some, List, [], ◌∷◌, arith,
}
use sipc.Ast.{Node, Function, Program, Expr, Stmts, nil, cons, return}
use sipc.Builder.{
  Token, mul_op, div_op, add_op, sub_op, mod_op, gt_op, lte_op, gte_op, lt_op, eq_op, ne_op, and_op,
  or_op, mm_op, pp_op, DeclarationTree, NameTree, Start, ExprTree, fun_app_expr, access_expr,
  deref_expr, neg_expr, ref_expr, array_len_expr, not_expr, alloc_expr, paren_expr,
  array_indexing_expr, array_of_expr, neg_number, num_expr, var_expr, bool_expr,
  multiplicative_expr, additive_expr, relational_expr, equality_expr, bool_ops,
  non_short_circuiting, ternary_expr, input_expr, null_expr, record_rule, array_literal, ExprTrees,
  no_expr, add_expr, FieldTrees, no_field, add_field, StmtTree, block_stmt, assign_stmt,
  update_stmt, while_stmt, for_each_stmt, for_range_stmt, for_by_stmt, if_stmt, if_else_stmt,
  output_stmt, error_stmt, StmtTrees, no_stmt, add_stmt, FunctionTree, ProgramTree,
}
use sipc.Builder.Visitor.{op_string, Visited, ok, node_at}
use sipc.Builder.Visits.{push_back, build}
use sipc.Builder.Laws.{build_gives}
use sipc.Builder.Translation.{op_text, after}
use sipc.Builder.Trees.{
  expr_at, exprs_at, fields_at, stmt_at, stmts_at, after_stmt, names_at, after_names, decls_at,
  body_start, return_at, function_at, functions_at, after_function,
}
use sipc.Builder.Grammar.{
  left, right, is_multiplicative, is_additive, is_relational, is_equality, is_bool, is_update,
  parsed, all_parsed, fields_parsed, stmt_parsed, stmts_parsed, decls_parsed, functions_parsed,
}
use sipc.Builder.Unbuild.{
  operation_of, expr_tree, exprs_tree, fields_tree, stmt_tree, stmts_tree, strip, strip_all,
  strip_fields, strip_stmt, strip_stmts, split_return, names_tree, decls_tree, function_tree,
  functions_tree, strip_function,
}

multiplicative_back :
    (op : Token) (s : Start) (l r : ExprTree)
    → is_multiplicative op ≡ true
    → operation_of (op_text op) s l r ≡ multiplicative_expr s op l r
unfolding op_string
multiplicative_back mul_op s l r h = refl
multiplicative_back div_op s l r h = refl
multiplicative_back mod_op s l r h = refl
multiplicative_back _ s l r h = ground (arith, h)

additive_back :
    (op : Token) (s : Start) (l r : ExprTree)
    → is_additive op ≡ true
    → operation_of (op_text op) s l r ≡ additive_expr s op l r
unfolding op_string
additive_back add_op s l r h = refl
additive_back sub_op s l r h = refl
additive_back _ s l r h = ground (arith, h)

relational_back :
    (op : Token) (s : Start) (l r : ExprTree)
    → is_relational op ≡ true
    → operation_of (op_text op) s l r ≡ relational_expr s op l r
unfolding op_string
relational_back gt_op s l r h = refl
relational_back lte_op s l r h = refl
relational_back gte_op s l r h = refl
relational_back lt_op s l r h = refl
relational_back _ s l r h = ground (arith, h)

equality_back :
    (op : Token) (s : Start) (l r : ExprTree)
    → is_equality op ≡ true
    → operation_of (op_text op) s l r ≡ equality_expr s op l r
unfolding op_string
equality_back eq_op s l r h = refl
equality_back ne_op s l r h = refl
equality_back _ s l r h = ground (arith, h)

bool_back :
    (op : Token) (s : Start) (l r : ExprTree)
    → is_bool op ≡ true
    → operation_of (op_text op) s l r ≡ bool_ops s op l r
unfolding op_string
bool_back and_op s l r h = refl
bool_back or_op s l r h = refl
bool_back _ s l r h = ground (arith, h)

-- Equal parts make equal trees.
module _ {A B C D : Type 0} where
  ap₃ :
      (f : A → B → C → D) {a a1 : A} {b b1 : B} {c c1 : C}
      → a ≡ a1
      → b ≡ b1
      → c ≡ c1
      → f a b c ≡ f a1 b1 c1
  ap₃ f p q r = cc

module _ {A B C D E : Type 0} where
  ap₄ :
      (f : A → B → C → D → E) {a a1 : A} {b b1 : B} {c c1 : C} {d d1 : D}
      → a ≡ a1
      → b ≡ b1
      → c ≡ c1
      → d ≡ d1
      → f a b c d ≡ f a1 b1 c1 d1
  ap₄ f p q r s = cc

module _ {A B C D E F : Type 0} where
  ap₅ :
      (f : A → B → C → D → E → F) {a a1 : A} {b b1 : B} {c c1 : C} {d d1 : D} {e e1 : E}
      → a ≡ a1
      → b ≡ b1
      → c ≡ c1
      → d ≡ d1
      → e ≡ e1
      → f a b c d e ≡ f a1 b1 c1 d1 e1
  ap₅ f p q r s t = cc

module _ (stoi : String → Option ℤ) (str : ℕ → String) where
  mutual
    unfolding expr_tree strip expr_at

    expr_back :
        (t : ExprTree) (n : ℕ)
        → parsed t ≡ true
        → expr_tree str (expr_at stoi n t) ≡ strip stoi str t
    expr_back (fun_app_expr s f xs) n h =
        ap₂ (fun_app_expr s) (expr_back f n (left _ _ h)) (exprs_back xs (after f n) (right _ _ h))
    expr_back (access_expr s e name) n h = ap (λ x. access_expr s x name) (expr_back e n h)
    expr_back (neg_number s text) n h = refl
    expr_back (num_expr s text) n h = refl
    expr_back (var_expr s name) n h = refl
    expr_back (bool_expr s text) n h = refl
    expr_back (input_expr s) n h = refl
    expr_back (null_expr s) n h = refl
    expr_back (paren_expr s e) n h = expr_back e n h
    expr_back (record_rule s fs) n h = ap (record_rule s) (fields_back fs n h)
    expr_back (array_literal s xs) n h = ap (array_literal s) (exprs_back xs n h)
    expr_back (non_short_circuiting s op l r) n h =
        expr_back r (after l n) (right _ _ (right _ _ h))
    expr_back (ternary_expr s c t e) n h =
        let h1 = right _ _ h in
        ap₃ (ternary_expr s) (expr_back c n (left _ _ h)) (expr_back t (after c n) (left _ _ h1))
          (expr_back e (after t (after c n)) (right _ _ h1))
    expr_back (deref_expr s e) n h = ap (deref_expr s) (expr_back e n h)
    expr_back (neg_expr s e) n h = ap (neg_expr s) (expr_back e n h)
    expr_back (ref_expr s e) n h = ap (ref_expr s) (expr_back e n h)
    expr_back (array_len_expr s e) n h = ap (array_len_expr s) (expr_back e n h)
    expr_back (not_expr s e) n h = ap (not_expr s) (expr_back e n h)
    expr_back (alloc_expr s e) n h = ap (alloc_expr s) (expr_back e n h)
    expr_back (array_indexing_expr s a b) n h =
        ap₂ (array_indexing_expr s) (expr_back a n (left _ _ h))
          (expr_back b (after a n) (right _ _ h))
    expr_back (array_of_expr s a b) n h =
        ap₂ (array_of_expr s) (expr_back a n (left _ _ h)) (expr_back b (after a n) (right _ _ h))
    expr_back (multiplicative_expr s op l r) n h =
        let h1 = right _ _ h in
        multiplicative_back op s _ _ (left _ _ h)
        ∙ ap₂ (multiplicative_expr s op) (expr_back l n (left _ _ h1))
            (expr_back r (after l n) (right _ _ h1))
    expr_back (additive_expr s op l r) n h =
        let h1 = right _ _ h in
        additive_back op s _ _ (left _ _ h)
        ∙ ap₂ (additive_expr s op) (expr_back l n (left _ _ h1))
            (expr_back r (after l n) (right _ _ h1))
    expr_back (relational_expr s op l r) n h =
        let h1 = right _ _ h in
        relational_back op s _ _ (left _ _ h)
        ∙ ap₂ (relational_expr s op) (expr_back l n (left _ _ h1))
            (expr_back r (after l n) (right _ _ h1))
    expr_back (equality_expr s op l r) n h =
        let h1 = right _ _ h in
        equality_back op s _ _ (left _ _ h)
        ∙ ap₂ (equality_expr s op) (expr_back l n (left _ _ h1))
            (expr_back r (after l n) (right _ _ h1))
    expr_back (bool_ops s op l r) n h =
        let h1 = right _ _ h in
        bool_back op s _ _ (left _ _ h)
        ∙ ap₂ (bool_ops s op) (expr_back l n (left _ _ h1)) (expr_back r (after l n) (right _ _ h1))

    exprs_back :
        (ts : ExprTrees) (n : ℕ)
        → all_parsed ts ≡ true
        → exprs_tree str (exprs_at stoi n ts) ≡ strip_all stoi str ts
    exprs_back no_expr n h = refl
    exprs_back (add_expr e es) n h =
        ap₂ add_expr (expr_back e n (left _ _ h)) (exprs_back es (after e n) (right _ _ h))

    fields_back :
        (ts : FieldTrees) (n : ℕ)
        → fields_parsed ts ≡ true
        → fields_tree str (fields_at stoi n ts) ≡ strip_fields stoi str ts
    fields_back no_field n h = refl
    fields_back (add_field s x e fs) n h =
        ap₂ (add_field s x) (expr_back e n (left _ _ h))
          (fields_back fs (suc (after e n)) (right _ _ h))

  mutual
    unfolding stmt_tree strip_stmt stmt_at op_string

    stmt_back :
        (t : StmtTree) (n : ℕ)
        → stmt_parsed t ≡ true
        → stmt_tree str (stmt_at stoi n t) ≡ strip_stmt stoi str t
    stmt_back (block_stmt s ss) n h = ap (block_stmt s) (stmts_back ss n h)
    stmt_back (assign_stmt s l r) n h =
        ap₂ (assign_stmt s) (expr_back l n (left _ _ h)) (expr_back r (after l n) (right _ _ h))
    stmt_back (update_stmt s e pp_op) n h =
        ap (λ x. update_stmt s x pp_op) (expr_back e n (left _ _ h))
    stmt_back (update_stmt s e mm_op) n h =
        ap (λ x. update_stmt s x mm_op) (expr_back e n (left _ _ h))
    stmt_back (update_stmt s e op) n h = absurd (ground (arith, right (parsed e) (is_update op) h))
    stmt_back (while_stmt s c b) n h =
        ap₂ (while_stmt s) (expr_back c n (left _ _ h)) (stmt_back b (after c n) (right _ _ h))
    stmt_back (for_each_stmt s x e b) n h =
        let h1 = right _ _ h in
        ap₃ (for_each_stmt s) (expr_back x n (left _ _ h)) (expr_back e (after x n) (left _ _ h1))
          (stmt_back b (after e (after x n)) (right _ _ h1))
    stmt_back (for_range_stmt s x from to b) n h =
        let h1 = right _ _ h in
        let h2 = right _ _ h1 in
        ap₄ (for_range_stmt s) (expr_back x n (left _ _ h))
          (expr_back from (after x n) (left _ _ h1))
          (expr_back to (after from (after x n)) (left _ _ h2))
          (stmt_back b (after to (after from (after x n))) (right _ _ h2))
    stmt_back (for_by_stmt s x from to by b) n h =
        let h1 = right _ _ h in
        let h2 = right _ _ h1 in
        let h3 = right _ _ h2 in
        ap₅ (for_by_stmt s) (expr_back x n (left _ _ h)) (expr_back from (after x n) (left _ _ h1))
          (expr_back to (after from (after x n)) (left _ _ h2))
          (expr_back by (after to (after from (after x n))) (left _ _ h3))
          (stmt_back b (after by (after to (after from (after x n)))) (right _ _ h3))
    stmt_back (if_stmt s c t) n h =
        ap₂ (if_stmt s) (expr_back c n (left _ _ h)) (stmt_back t (after c n) (right _ _ h))
    stmt_back (if_else_stmt s c t e) n h =
        let h1 = right _ _ h in
        ap₃ (if_else_stmt s) (expr_back c n (left _ _ h)) (stmt_back t (after c n) (left _ _ h1))
          (stmt_back e (after_stmt t (after c n)) (right _ _ h1))
    stmt_back (output_stmt s e) n h = ap (output_stmt s) (expr_back e n h)
    stmt_back (error_stmt s e) n h = ap (error_stmt s) (expr_back e n h)

    stmts_back :
        (ts : StmtTrees) (n : ℕ)
        → stmts_parsed ts ≡ true
        → stmts_tree str (stmts_at stoi n ts) ≡ strip_stmts stoi str ts
    stmts_back no_stmt n h = refl
    stmts_back (add_stmt t ts) n h =
        ap₂ add_stmt (stmt_back t n (left _ _ h)) (stmts_back ts (after_stmt t n) (right _ _ h))

names_back : (ds : List NameTree) (n : ℕ) → names_tree (names_at n ds) ≡ ds
names_back [] n = refl
names_back (d ∷ ds) n = ap (λ l. d ∷ l) (names_back ds (suc n))

decls_back : (ds : List DeclarationTree) (n : ℕ) → decls_tree (decls_at n ds) ≡ ds
decls_back [] n = refl
decls_back (d ∷ ds) n =
    ap₂ (λ names l. record { start = d.start; names = names } ∷ l) (names_back d.names n)
      (decls_back ds (suc (after_names d.names n)))

split_return-push_back :
    (ss : Stmts) (n : Node) (e : Expr)
    → split_return (push_back ss (return n e)) ≡ some (ss, (n, e))
unfolding split_return push_back
split_return-push_back nil n e = refl
split_return-push_back (cons s nil) n e = ground arith
split_return-push_back (cons s (cons t ss)) n e =
    ground (arith, split_return-push_back (cons t ss) n e)

read_function :
    (str : ℕ → String) (f : Function) (ss : Stmts) (n : Node) (e : Expr)
    → split_return f.stmts ≡ some (ss, (n, e))
    → function_tree str f
      ≡ some (record {
        start = record { line = f.node.line; column = f.node.column };
        name = record {
          start = record { line = f.decl.node.line; column = f.decl.node.column };
          identifier = f.decl.name;
        };
        params = names_tree f.formals;
        kpoly = f.is_poly;
        declarations = decls_tree f.declarations;
        statements = stmts_tree str ss;
        return_start = record { line = n.line; column = n.column };
        return_expr = expr_tree str e;
      })
unfolding function_tree
read_function str f ss n e h = ground (arith, h)

function_back :
    (stoi : String → Option ℤ) (str : ℕ → String) (f : FunctionTree) (n : ℕ)
    → stmts_parsed f.statements && parsed f.return_expr ≡ true
    → function_tree str (function_at stoi n f) ≡ some (strip_function stoi str f)
function_back stoi str f n h =
    let ss = stmts_at stoi (body_start f n) f.statements in
    let e = expr_at stoi (return_at f n) f.return_expr in
    let m = node_at (after f.return_expr (return_at f n)) f.return_start in
    read_function str (function_at stoi n f) ss m e (split_return-push_back ss m e)
    ∙ ap₄
        (λ params declarations statements return_expr. some (record f {
          params = params;
          declarations = declarations;
          statements = statements;
          return_expr = return_expr;
        }))
        (names_back f.params (suc n)) (decls_back f.declarations (after_names f.params (suc n)))
        (stmts_back stoi str f.statements (body_start f n) (left _ _ h))
        (expr_back stoi str f.return_expr (return_at f n) (right _ _ h))

functions_back :
    (stoi : String → Option ℤ) (str : ℕ → String) (fs : List FunctionTree) (n : ℕ)
    → functions_parsed fs ≡ true
    → functions_tree str (functions_at stoi n fs) ≡ some (map (strip_function stoi str) fs)
unfolding functions_tree
functions_back stoi str [] n h = refl
functions_back stoi str (f ∷ fs) n h =
    let body = right (decls_parsed f.declarations) _ (left _ (functions_parsed fs) h) in
    ground (
      arith,
      function_back stoi str f n body,
      functions_back stoi str fs (after_function f n) (right _ (functions_parsed fs) h),
    )

-- From what `build` returns on a tree that the grammar allows, the functions of the parse tree can be
-- read back, without the parentheses and the left operands of `|` and `&`, and with numbers and
-- truth values written anew.
pub build-functions_tree :
    (stoi : String → Option ℤ) (sha256 : String → String) (str : ℕ → String) (t : ProgramTree)
    (v : Visited) (p : Program) (w : Visited)
    → functions_parsed t.functions ≡ true
    → build stoi sha256 t v ≡ ok p w
    → functions_tree str p.functions ≡ some (map (strip_function stoi str) t.functions)
build-functions_tree stoi sha256 str t v p w h e =
    ap (λ q. functions_tree str q.functions) (build_gives stoi sha256 t v p w e)
    ∙ functions_back stoi str t.functions v.made h
