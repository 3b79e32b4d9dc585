-- ===== src/Builder/Shape.antt =====
-- The programs that ASTBuilder makes of what the grammar allows have the shape that the later
-- passes need.
use sipc.Prelude.{
  ◌≡◌, refl, ◌∙◌, ℤ, ℕ, suc, Bool, true, false, ◌&&◌, String, Option, List, [], ◌∷◌, arith,
}
use sipc.Ast.{Node, Expr, Stmts, nil, cons, return}
use sipc.Builder.{
  Token, mul_op, div_op, add_op, sub_op, mod_op, gt_op, lte_op, gte_op, lt_op, eq_op, ne_op, and_op,
  or_op, DeclarationTree, NameTree, ExprTree, fun_app_expr, access_expr, deref_expr, neg_expr,
  ref_expr, array_len_expr, not_expr, alloc_expr, paren_expr, array_indexing_expr, array_of_expr,
  neg_number, num_expr, var_expr, bool_expr, multiplicative_expr, additive_expr, relational_expr,
  equality_expr, bool_ops, non_short_circuiting, ternary_expr, input_expr, null_expr, record_rule,
  array_literal, ExprTrees, no_expr, add_expr, FieldTrees, no_field, add_field, StmtTree,
  block_stmt, assign_stmt, update_stmt, while_stmt, for_each_stmt, for_range_stmt, for_by_stmt,
  if_stmt, if_else_stmt, output_stmt, error_stmt, StmtTrees, no_stmt, add_stmt, FunctionTree,
}
use sipc.Ast.Every.{expr_every, exprs_every, fields_every, stmt_every, stmts_every, stmts_every_lem}
use sipc.Codegen.Choices.{has_instruction}
use sipc.Codegen.Scoped.{has_vars}
use sipc.Codegen.Accepted.{operated, returnless, returns_last, well_formed}
use sipc.Builder.Visitor.{op_string}
use sipc.Builder.Visits.{push_back}
use sipc.Builder.Translation.{op_text, after}
use sipc.Builder.Trees.{
  expr_at, exprs_at, fields_at, stmt_at, stmts_at, after_stmt, names_at, after_names, decls_at,
  body_start, return_at, after_function, functions_at,
}
use sipc.Builder.Grammar.{
  left, right, is_multiplicative, is_additive, is_relational, is_equality, is_bool, parsed,
  all_parsed, fields_parsed, stmt_parsed, stmts_parsed, decls_parsed, functions_parsed,
}

multiplicative_lem :
    (op : Token) → is_multiplicative op ≡ true → has_instruction (op_text op) ≡ true
unfolding op_string
multiplicative_lem mul_op h = refl
multiplicative_lem div_op h = refl
multiplicative_lem mod_op h = refl
multiplicative_lem _ h = ground (arith, h)

additive_lem : (op : Token) → is_additive op ≡ true → has_instruction (op_text op) ≡ true
unfolding op_string
additive_lem add_op h = refl
additive_lem sub_op h = refl
additive_lem _ h = ground (arith, h)

relational_lem : (op : Token) → is_relational op ≡ true → has_instruction (op_text op) ≡ true
unfolding op_string
relational_lem gt_op h = refl
relational_lem lte_op h = refl
relational_lem gte_op h = refl
relational_lem lt_op h = refl
relational_lem _ h = ground (arith, h)

equality_lem : (op : Token) → is_equality op ≡ true → has_instruction (op_text op) ≡ true
unfolding op_string
equality_lem eq_op h = refl
equality_lem ne_op h = refl
equality_lem _ h = ground (arith, h)

bool_lem : (op : Token) → is_bool op ≡ true → has_instruction (op_text op) ≡ true
unfolding op_string
bool_lem and_op h = refl
bool_lem or_op h = refl
bool_lem _ h = ground (arith, h)

three : {a b c : Bool} → a ≡ true → b ≡ true → c ≡ true → a && (b && c) ≡ true
three f g h = ground (arith, f, g, h)

two : {a b : Bool} → a ≡ true → b ≡ true → a && b ≡ true
two f g = ground (arith, f, g)

-- A node after its parts, where it passes.
one_part : {a : Bool} → a ≡ true → a && true ≡ true
one_part f = ground (arith, f)

two_parts : {a b : Bool} → a ≡ true → b ≡ true → a && (b && true) ≡ true
two_parts f g = ground (arith, f, g)

three_parts : {a b c : Bool} → a ≡ true → b ≡ true → c ≡ true → a && (b && (c && true)) ≡ true
three_parts f g h = ground (arith, f, g, h)

four_parts :
    {a b c d : Bool}
    → a ≡ true
    → b ≡ true
    → c ≡ true
    → d ≡ true
    → a && (b && (c && (d && true))) ≡ true
four_parts f g h i = ground (arith, f, g, h, i)

five_parts :
    {a b c d e : Bool}
    → a ≡ true
    → b ≡ true
    → c ≡ true
    → d ≡ true
    → e ≡ true
    → a && (b && (c && (d && (e && true)))) ≡ true
five_parts f g h i j = ground (arith, f, g, h, i, j)

module _ (stoi : String → Option ℤ) where
  mutual
    unfolding expr_at

    expr_built :
        (e : ExprTree) (n : ℕ) → parsed e ≡ true → expr_every operated (expr_at stoi n e) ≡ true
    expr_built (fun_app_expr s f xs) n h =
        two_parts (expr_built f n (left _ _ h)) (exprs_built xs (after f n) (right _ _ h))
    expr_built (access_expr s e name) n h = one_part (expr_built e n h)
    expr_built (neg_number s text) n h = refl
    expr_built (num_expr s text) n h = refl
    expr_built (var_expr s name) n h = refl
    expr_built (bool_expr s text) n h = refl
    expr_built (input_expr s) n h = refl
    expr_built (null_expr s) n h = refl
    expr_built (paren_expr s e) n h = expr_built e n h
    expr_built (record_rule s fs) n h = one_part (fields_built fs n h)
    expr_built (array_literal s xs) n h = one_part (exprs_built xs n h)
    expr_built (non_short_circuiting s op l r) n h =
        expr_built r (after l n) (right _ _ (right _ _ h))
    expr_built (ternary_expr s c t e) n h =
        let h1 = right _ _ h in
        three_parts (expr_built c n (left _ _ h)) (expr_built t (after c n) (left _ _ h1))
          (expr_built e (after t (after c n)) (right _ _ h1))
    expr_built (deref_expr s e) n h = one_part (expr_built e n h)
    expr_built (neg_expr s e) n h = one_part (expr_built e n h)
    expr_built (ref_expr s e) n h = one_part (expr_built e n h)
    expr_built (array_len_expr s e) n h = one_part (expr_built e n h)
    expr_built (not_expr s e) n h = one_part (expr_built e n h)
    expr_built (alloc_expr s e) n h = one_part (expr_built e n h)
    expr_built (array_indexing_expr s a b) n h =
        two_parts (expr_built a n (left _ _ h)) (expr_built b (after a n) (right _ _ h))
    expr_built (array_of_expr s a b) n h =
        two_parts (expr_built a n (left _ _ h)) (expr_built b (after a n) (right _ _ h))
    expr_built (multiplicative_expr s op l r) n h =
        let h1 = right _ _ h in
        three (expr_built l n (left _ _ h1)) (expr_built r (after l n) (right _ _ h1))
          (multiplicative_lem op (left _ _ h))
    expr_built (additive_expr s op l r) n h =
        let h1 = right _ _ h in
        three (expr_built l n (left _ _ h1)) (expr_built r (after l n) (right _ _ h1))
          (additive_lem op (left _ _ h))
    expr_built (relational_expr s op l r) n h =
        let h1 = right _ _ h in
        three (expr_built l n (left _ _ h1)) (expr_built r (after l n) (right _ _ h1))
          (relational_lem op (left _ _ h))
    expr_built (equality_expr s op l r) n h =
        let h1 = right _ _ h in
        three (expr_built l n (left _ _ h1)) (expr_built r (after l n) (right _ _ h1))
          (equality_lem op (left _ _ h))
    expr_built (bool_ops s op l r) n h =
        let h1 = right _ _ h in
        three (expr_built l n (left _ _ h1)) (expr_built r (after l n) (right _ _ h1))
          (bool_lem op (left _ _ h))

    exprs_built :
        (es : ExprTrees) (n : ℕ)
        → all_parsed es ≡ true
        → exprs_every operated (exprs_at stoi n es) ≡ true
    exprs_built no_expr n h = refl
    exprs_built (add_expr e es) n h =
        two (expr_built e n (left _ _ h)) (exprs_built es (after e n) (right _ _ h))

    fields_built :
        (fs : FieldTrees) (n : ℕ)
        → fields_parsed fs ≡ true
        → fields_every operated (fields_at stoi n fs) ≡ true
    fields_built no_field n h = refl
    fields_built (add_field s name e fs) n h =
        two (expr_built e n (left _ _ h)) (fields_built fs (suc (after e n)) (right _ _ h))

  mutual
    unfolding expr_at

    expr_returnless : (e : ExprTree) (n : ℕ) → expr_every returnless (expr_at stoi n e) ≡ true
    expr_returnless (fun_app_expr s f xs) n =
        two_parts (expr_returnless f n) (exprs_returnless xs (after f n))
    expr_returnless (access_expr s e name) n = one_part (expr_returnless e n)
    expr_returnless (neg_number s text) n = refl
    expr_returnless (num_expr s text) n = refl
    expr_returnless (var_expr s name) n = refl
    expr_returnless (bool_expr s text) n = refl
    expr_returnless (input_expr s) n = refl
    expr_returnless (null_expr s) n = refl
    expr_returnless (paren_expr s e) n = expr_returnless e n
    expr_returnless (record_rule s fs) n = one_part (fields_returnless fs n)
    expr_returnless (array_literal s xs) n = one_part (exprs_returnless xs n)
    expr_returnless (non_short_circuiting s op l r) n = expr_returnless r (after l n)
    expr_returnless (ternary_expr s c t e) n =
        three_parts (expr_returnless c n) (expr_returnless t (after c n))
          (expr_returnless e (after t (after c n)))
    expr_returnless (deref_expr s e) n = one_part (expr_returnless e n)
    expr_returnless (neg_expr s e) n = one_part (expr_returnless e n)
    expr_returnless (ref_expr s e) n = one_part (expr_returnless e n)
    expr_returnless (array_len_expr s e) n = one_part (expr_returnless e n)
    expr_returnless (not_expr s e) n = one_part (expr_returnless e n)
    expr_returnless (alloc_expr s e) n = one_part (expr_returnless e n)
    expr_returnless (array_indexing_expr s a b) n =
        two_parts (expr_returnless a n) (expr_returnless b (after a n))
    expr_returnless (array_of_expr s a b) n =
        two_parts (expr_returnless a n) (expr_returnless b (after a n))
    expr_returnless (multiplicative_expr s op l r) n =
        two_parts (expr_returnless l n) (expr_returnless r (after l n))
    expr_returnless (additive_expr s op l r) n =
        two_parts (expr_returnless l n) (expr_returnless r (after l n))
    expr_returnless (relational_expr s op l r) n =
        two_parts (expr_returnless l n) (expr_returnless r (after l n))
    expr_returnless (equality_expr s op l r) n =
        two_parts (expr_returnless l n) (expr_returnless r (after l n))
    expr_returnless (bool_ops s op l r) n =
        two_parts (expr_returnless l n) (expr_returnless r (after l n))

    exprs_returnless : (es : ExprTrees) (n : ℕ) → exprs_every returnless (exprs_at stoi n es) ≡ true
    exprs_returnless no_expr n = refl
    exprs_returnless (add_expr e es) n = two (expr_returnless e n) (exprs_returnless es (after e n))

    fields_returnless :
        (fs : FieldTrees) (n : ℕ) → fields_every returnless (fields_at stoi n fs) ≡ true
    fields_returnless no_field n = refl
    fields_returnless (add_field s name e fs) n =
        two (expr_returnless e n) (fields_returnless fs (suc (after e n)))

  mutual
    unfolding stmt_at

    stmt_built :
        (s : StmtTree) (n : ℕ)
        → stmt_parsed s ≡ true
        → stmt_every operated (stmt_at stoi n s) ≡ true
    stmt_built (block_stmt s ss) n h = one_part (stmts_built ss n h)
    stmt_built (assign_stmt s l r) n h =
        let h1 = right _ _ h in
        two_parts (expr_built l n (left _ _ h)) (expr_built r (after l n) h1)
    stmt_built (update_stmt s e op) n h = one_part (expr_built e n (left _ _ h))
    stmt_built (while_stmt s c b) n h =
        let h1 = right _ _ h in
        two_parts (expr_built c n (left _ _ h)) (stmt_built b (after c n) h1)
    stmt_built (for_each_stmt s x e b) n h =
        let h1 = right _ _ h in
        let h2 = right _ _ h1 in
        three_parts (expr_built x n (left _ _ h)) (expr_built e (after x n) (left _ _ h1))
          (stmt_built b (after e (after x n)) h2)
    stmt_built (for_range_stmt s x from to b) n h =
        let h1 = right _ _ h in
        let h2 = right _ _ h1 in
        let h3 = right _ _ h2 in
        four_parts (expr_built x n (left _ _ h)) (expr_built from (after x n) (left _ _ h1))
          (expr_built to (after from (after x n)) (left _ _ h2))
          (stmt_built b (after to (after from (after x n))) h3)
    stmt_built (for_by_stmt s x from to by b) n h =
        let h1 = right _ _ h in
        let h2 = right _ _ h1 in
        let h3 = right _ _ h2 in
        let h4 = right _ _ h3 in
        five_parts (expr_built x n (left _ _ h)) (expr_built from (after x n) (left _ _ h1))
          (expr_built to (after from (after x n)) (left _ _ h2))
          (expr_built by (after to (after from (after x n))) (left _ _ h3))
          (stmt_built b (after by (after to (after from (after x n)))) h4)
    stmt_built (if_stmt s c t) n h =
        let h1 = right _ _ h in
        two_parts (expr_built c n (left _ _ h)) (stmt_built t (after c n) h1)
    stmt_built (if_else_stmt s c t e) n h =
        let h1 = right _ _ h in
        let h2 = right _ _ h1 in
        three_parts (expr_built c n (left _ _ h)) (stmt_built t (after c n) (left _ _ h1))
          (stmt_built e (after_stmt t (after c n)) h2)
    stmt_built (output_stmt s e) n h = one_part (expr_built e n h)
    stmt_built (error_stmt s e) n h = one_part (expr_built e n h)

    stmts_built :
        (ss : StmtTrees) (n : ℕ)
        → stmts_parsed ss ≡ true
        → stmts_every operated (stmts_at stoi n ss) ≡ true
    stmts_built no_stmt n h = refl
    stmts_built (add_stmt s ss) n h =
        two (stmt_built s n (left _ _ h)) (stmts_built ss (after_stmt s n) (right _ _ h))

  mutual
    unfolding stmt_at

    stmt_returnless : (s : StmtTree) (n : ℕ) → stmt_every returnless (stmt_at stoi n s) ≡ true
    stmt_returnless (block_stmt s ss) n = one_part (stmts_returnless ss n)
    stmt_returnless (assign_stmt s l r) n =
        two_parts (expr_returnless l n) (expr_returnless r (after l n))
    stmt_returnless (update_stmt s e op) n = one_part (expr_returnless e n)
    stmt_returnless (while_stmt s c b) n =
        two_parts (expr_returnless c n) (stmt_returnless b (after c n))
    stmt_returnless (for_each_stmt s x e b) n =
        three_parts (expr_returnless x n) (expr_returnless e (after x n))
          (stmt_returnless b (after e (after x n)))
    stmt_returnless (for_range_stmt s x from to b) n =
        four_parts (expr_returnless x n) (expr_returnless from (after x n))
          (expr_returnless to (after from (after x n)))
          (stmt_returnless b (after to (after from (after x n))))
    stmt_returnless (for_by_stmt s x from to by b) n =
        five_parts (expr_returnless x n) (expr_returnless from (after x n))
          (expr_returnless to (after from (after x n)))
          (expr_returnless by (after to (after from (after x n))))
          (stmt_returnless b (after by (after to (after from (after x n)))))
    stmt_returnless (if_stmt s c t) n =
        two_parts (expr_returnless c n) (stmt_returnless t (after c n))
    stmt_returnless (if_else_stmt s c t e) n =
        three_parts (expr_returnless c n) (stmt_returnless t (after c n))
          (stmt_returnless e (after_stmt t (after c n)))
    stmt_returnless (output_stmt s e) n = one_part (expr_returnless e n)
    stmt_returnless (error_stmt s e) n = one_part (expr_returnless e n)

    stmts_returnless : (ss : StmtTrees) (n : ℕ) → stmts_every returnless (stmts_at stoi n ss) ≡ true
    stmts_returnless no_stmt n = refl
    stmts_returnless (add_stmt s ss) n =
        two (stmt_returnless s n) (stmts_returnless ss (after_stmt s n))

names_built :
    (xs : List NameTree) (n : ℕ) {a b : Bool}
    → (a ≡ true → b ≡ true)
    → elim xs [ [] ↦ false | y ∷ ys ↦ a ] ≡ true
    → elim (names_at n xs) [ [] ↦ false | v ∷ vs ↦ b ] ≡ true
names_built [] n g h = ground (arith, h)
names_built (x ∷ xs) n g h = g h

declarations_built :
    (ds : List DeclarationTree) (n : ℕ) → decls_parsed ds ≡ true → has_vars (decls_at n ds) ≡ true
declarations_built [] n h = refl
declarations_built (d ∷ ds) n h =
    names_built d.names n (declarations_built ds (suc (after_names d.names n))) h

returns_last-push_back :
    (ss : Stmts) (n : Node) (e : Expr)
    → stmts_every returnless ss ≡ true
    → returns_last (push_back ss (return n e)) ≡ true
unfolding push_back
returns_last-push_back nil n e h = refl
returns_last-push_back (cons s nil) n e h = ground (arith, h)
returns_last-push_back (cons s (cons t ss)) n e h =
    ground (arith, h, returns_last-push_back (cons t ss) n e)

operated-push_back :
    (ss : Stmts) (n : Node) (e : Expr)
    → stmts_every operated ss ≡ true
    → expr_every operated e ≡ true
    → stmts_every operated (push_back ss (return n e)) ≡ true
unfolding push_back
operated-push_back nil n e h g = ground (arith, g)
operated-push_back (cons s ss) n e h g = ground (arith, h, operated-push_back ss n e, g)

-- From a tree that the grammar allows ASTBuilder makes functions that end in their only `return`,
-- whose declarations have names and whose operators have an instruction.
pub functions_at-well_formed :
    (stoi : String → Option ℤ) (fs : List FunctionTree) (n : ℕ)
    → functions_parsed fs ≡ true
    → well_formed (functions_at stoi n fs) ≡ true
functions_at-well_formed stoi [] n h = refl
functions_at-well_formed stoi (f ∷ fs) n h =
    let here = left _ (functions_parsed fs) h in
    let body = right (decls_parsed f.declarations) _ here in
    let ss = stmts_at stoi (body_start f n) f.statements in
    let e = expr_at stoi (return_at f n) f.return_expr in
    two
      (three (declarations_built f.declarations _ (left _ _ here))
        (returns_last-push_back ss _ e (stmts_returnless stoi f.statements (body_start f n)))
        (stmts_every_lem operated _
          ∙ operated-push_back ss _ e
              (stmts_built stoi f.statements (body_start f n) (left _ _ body))
              (expr_built stoi f.return_expr (return_at f n) (right _ _ body))))
      (functions_at-well_formed stoi fs (after_function f n) (right _ (functions_parsed fs) h))
