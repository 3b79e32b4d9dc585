-- ===== src/Builder/Translation.antt =====
-- The tree that ASTBuilder should make of a parse tree, by recursion on the parse tree and without
-- variables: the fault that is met first, the number of the next node, and the tree itself.
use sipc.Prelude.{ℤ, pos, ℕ, suc, String, Option, none, some, List, [], ◌∷◌}
use sipc.Builder.{
  Token, ExprTree, fun_app_expr, access_expr, deref_expr, neg_expr, ref_expr, array_len_expr,
  not_expr, alloc_expr, paren_expr, array_indexing_expr, array_of_expr, neg_number, num_expr,
  multiplicative_expr, additive_expr, relational_expr, equality_expr, bool_ops,
  non_short_circuiting, ternary_expr, record_rule, array_literal, ExprTrees, no_expr, add_expr,
  FieldTrees, no_field, add_field, StmtTree, block_stmt, assign_stmt, update_stmt, while_stmt,
  for_each_stmt, for_range_stmt, for_by_stmt, if_stmt, if_else_stmt, output_stmt, error_stmt,
  StmtTrees, no_stmt, add_stmt, FunctionTree,
}
use sipc.Builder.Visitor.{Exception, out_of_range, unknown_operator, op_string}

abbrev pub first : Option Exception → Option Exception → Option Exception
first (some e) f = some e
first none f = f

abbrev pub absent : {A : Type 0} → Exception → Option A → Option Exception
absent e none = some e
absent e (some a) = none

abbrev pub no_operator : Token → Option Exception
no_operator op = absent (unknown_operator op) (op_string op)

abbrev pub given : {A : Type 0} → A → Option A → A
given d none = d
given d (some a) = a

abbrev pub op_text : Token → String
op_text op = given "" (op_string op)

module _ (stoi : String → Option ℤ) where
  abbrev pub value_of : String → ℤ
  value_of text = given (pos 0) (stoi text)

  abbrev pub too_large : String → Option Exception
  too_large text = absent (out_of_range text) (stoi text)

-- The first fault of a visit.
unfoldable mutual
  pub fault : (String → Option ℤ) → ExprTree → Option Exception
  fault stoi (fun_app_expr s f xs) = first (fault stoi f) (faults stoi xs)
  fault stoi (access_expr s e name) = fault stoi e
  fault stoi (deref_expr s e) = fault stoi e
  fault stoi (array_indexing_expr s e i) = first (fault stoi e) (fault stoi i)
  fault stoi (neg_number s text) = too_large stoi text
  fault stoi (neg_expr s e) = fault stoi e
  fault stoi (ref_expr s e) = fault stoi e
  fault stoi (array_len_expr s e) = fault stoi e
  fault stoi (not_expr s e) = fault stoi e
  fault stoi (multiplicative_expr s op l r) =
      first (no_operator op) (first (fault stoi l) (fault stoi r))
  fault stoi (additive_expr s op l r) = first (no_operator op) (first (fault stoi l) (fault stoi r))
  fault stoi (relational_expr s op l r) =
      first (no_operator op) (first (fault stoi l) (fault stoi r))
  fault stoi (equality_expr s op l r) = first (no_operator op) (first (fault stoi l) (fault stoi r))
  fault stoi (bool_ops s op l r) = first (no_operator op) (first (fault stoi l) (fault stoi r))
  fault stoi (non_short_circuiting s op l r) = first (fault stoi l) (fault stoi r)
  fault stoi (ternary_expr s c t e) = first (fault stoi c) (first (fault stoi t) (fault stoi e))
  fault stoi (num_expr s text) = too_large stoi text
  fault stoi (alloc_expr s e) = fault stoi e
  fault stoi (record_rule s fs) = field_faults stoi fs
  fault stoi (array_literal s xs) = faults stoi xs
  fault stoi (array_of_expr s a b) = first (fault stoi a) (fault stoi b)
  fault stoi (paren_expr s e) = fault stoi e
  fault stoi _ = none

  pub faults : (String → Option ℤ) → ExprTrees → Option Exception
  faults stoi no_expr = none
  faults stoi (add_expr e es) = first (fault stoi e) (faults stoi es)

  pub field_faults : (String → Option ℤ) → FieldTrees → Option Exception
  field_faults stoi no_field = none
  field_faults stoi (add_field s name e fs) = first (fault stoi e) (field_faults stoi fs)

unfoldable mutual
  unfolding fault

  pub stmt_fault : (String → Option ℤ) → StmtTree → Option Exception
  stmt_fault stoi (block_stmt s ss) = stmts_fault stoi ss
  stmt_fault stoi (assign_stmt s l r) = first (fault stoi l) (fault stoi r)
  stmt_fault stoi (update_stmt s e op) = first (fault stoi e) (no_operator op)
  stmt_fault stoi (while_stmt s c b) = first (fault stoi c) (stmt_fault stoi b)
  stmt_fault stoi (for_each_stmt s x e b) =
      first (fault stoi x) (first (fault stoi e) (stmt_fault stoi b))
  stmt_fault stoi (for_range_stmt s x from to b) =
      first (fault stoi x) (first (fault stoi from) (first (fault stoi to) (stmt_fault stoi b)))
  stmt_fault stoi (for_by_stmt s x from to by b) =
      first (fault stoi x) (
        first (fault stoi from) (first (fault stoi to) (first (fault stoi by) (stmt_fault stoi b))))
  stmt_fault stoi (if_stmt s c t) = first (fault stoi c) (stmt_fault stoi t)
  stmt_fault stoi (if_else_stmt s c t e) =
      first (fault stoi c) (first (stmt_fault stoi t) (stmt_fault stoi e))
  stmt_fault stoi (output_stmt s e) = fault stoi e
  stmt_fault stoi (error_stmt s e) = fault stoi e

  pub stmts_fault : (String → Option ℤ) → StmtTrees → Option Exception
  stmts_fault stoi no_stmt = none
  stmts_fault stoi (add_stmt t ts) = first (stmt_fault stoi t) (stmts_fault stoi ts)

unfoldable pub functions_fault : (String → Option ℤ) → List FunctionTree → Option Exception
unfolding stmts_fault fault
functions_fault stoi [] = none
functions_fault stoi (f ∷ fs) =
    first (first (stmts_fault stoi f.statements) (fault stoi f.return_expr))
      (functions_fault stoi fs)

-- The number after the nodes of a tree.
unfoldable mutual
  pub after : ExprTree → ℕ → ℕ
  after (fun_app_expr s f xs) n = suc (after_all xs (after f n))
  after (access_expr s e name) n = suc (after e n)
  after (deref_expr s e) n = suc (after e n)
  after (array_indexing_expr s e i) n = suc (after i (after e n))
  after (neg_expr s e) n = suc (after e n)
  after (ref_expr s e) n = suc (after e n)
  after (array_len_expr s e) n = suc (after e n)
  after (not_expr s e) n = suc (after e n)
  after (multiplicative_expr s op l r) n = suc (after r (after l n))
  after (additive_expr s op l r) n = suc (after r (after l n))
  after (relational_expr s op l r) n = suc (after r (after l n))
  after (equality_expr s op l r) n = suc (after r (after l n))
  after (bool_ops s op l r) n = suc (after r (after l n))
  after (non_short_circuiting s op l r) n = after r (after l n)
  after (ternary_expr s c t e) n = suc (after e (after t (after c n)))
  after (alloc_expr s e) n = suc (after e n)
  after (record_rule s fs) n = suc (after_fields fs n)
  after (array_literal s xs) n = suc (after_all xs n)
  after (array_of_expr s a b) n = suc (after b (after a n))
  after (paren_expr s e) n = after e n
  after _ n = suc n

  pub after_all : ExprTrees → ℕ → ℕ
  after_all no_expr n = n
  after_all (add_expr e es) n = after_all es (after e n)

  pub after_fields : FieldTrees → ℕ → ℕ
  after_fields no_field n = n
  after_fields (add_field s name e fs) n = after_fields fs (suc (after e n))
