-- ===== src/Builder/Grammar.antt =====
-- The parse trees that src/tipg4/TIP.g4 allows: each alternative has its own operators, and a
-- declaration has a name.
use sipc.Prelude.{◌≡◌, arith, Bool, true, false, ◌&&◌, String, List, [], ◌∷◌, ◌++◌}
use sipc.Builder.{
  Token, mul_op, div_op, add_op, sub_op, mod_op, gt_op, lte_op, gte_op, lt_op, eq_op, ne_op, and_op,
  or_op, mm_op, pp_op, bar_op, amp_op, DeclarationTree, ExprTree, fun_app_expr, access_expr,
  deref_expr, neg_expr, ref_expr, array_len_expr, not_expr, alloc_expr, paren_expr,
  array_indexing_expr, array_of_expr, neg_number, num_expr, multiplicative_expr, additive_expr,
  relational_expr, equality_expr, bool_ops, non_short_circuiting, ternary_expr, record_rule,
  array_literal, ExprTrees, no_expr, add_expr, FieldTrees, no_field, add_field, StmtTree,
  block_stmt, assign_stmt, update_stmt, while_stmt, for_each_stmt, for_range_stmt, for_by_stmt,
  if_stmt, if_else_stmt, output_stmt, error_stmt, StmtTrees, no_stmt, add_stmt, FunctionTree,
}

abbrev pub is_multiplicative : Token → Bool
is_multiplicative mul_op = true
is_multiplicative div_op = true
is_multiplicative mod_op = true
is_multiplicative _ = false

abbrev pub is_additive : Token → Bool
is_additive add_op = true
is_additive sub_op = true
is_additive _ = false

abbrev pub is_relational : Token → Bool
is_relational gt_op = true
is_relational lte_op = true
is_relational gte_op = true
is_relational lt_op = true
is_relational _ = false

abbrev pub is_equality : Token → Bool
is_equality eq_op = true
is_equality ne_op = true
is_equality _ = false

abbrev pub is_bool : Token → Bool
is_bool and_op = true
is_bool or_op = true
is_bool _ = false

abbrev pub is_update : Token → Bool
is_update mm_op = true
is_update pp_op = true
is_update _ = false

abbrev pub is_non_short : Token → Bool
is_non_short bar_op = true
is_non_short amp_op = true
is_non_short _ = false

abbrev mutual
  pub parsed : ExprTree → Bool
  parsed (fun_app_expr s f xs) = parsed f && all_parsed xs
  parsed (access_expr s e name) = parsed e
  parsed (deref_expr s e) = parsed e
  parsed (neg_expr s e) = parsed e
  parsed (ref_expr s e) = parsed e
  parsed (array_len_expr s e) = parsed e
  parsed (not_expr s e) = parsed e
  parsed (alloc_expr s e) = parsed e
  parsed (paren_expr s e) = parsed e
  parsed (array_indexing_expr s a b) = parsed a && parsed b
  parsed (array_of_expr s a b) = parsed a && parsed b
  parsed (multiplicative_expr s op l r) = is_multiplicative op && (parsed l && parsed r)
  parsed (additive_expr s op l r) = is_additive op && (parsed l && parsed r)
  parsed (relational_expr s op l r) = is_relational op && (parsed l && parsed r)
  parsed (equality_expr s op l r) = is_equality op && (parsed l && parsed r)
  parsed (bool_ops s op l r) = is_bool op && (parsed l && parsed r)
  parsed (non_short_circuiting s op l r) = is_non_short op && (parsed l && parsed r)
  parsed (ternary_expr s c t e) = parsed c && (parsed t && parsed e)
  parsed (record_rule s fs) = fields_parsed fs
  parsed (array_literal s xs) = all_parsed xs
  parsed _ = true

  pub all_parsed : ExprTrees → Bool
  all_parsed no_expr = true
  all_parsed (add_expr e es) = parsed e && all_parsed es

  pub fields_parsed : FieldTrees → Bool
  fields_parsed no_field = true
  fields_parsed (add_field s name e fs) = parsed e && fields_parsed fs

abbrev mutual
  pub stmt_parsed : StmtTree → Bool
  stmt_parsed (block_stmt s ss) = stmts_parsed ss
  stmt_parsed (assign_stmt s l r) = parsed l && parsed r
  stmt_parsed (update_stmt s e op) = parsed e && is_update op
  stmt_parsed (while_stmt s c b) = parsed c && stmt_parsed b
  stmt_parsed (for_each_stmt s x e b) = parsed x && (parsed e && stmt_parsed b)
  stmt_parsed (for_range_stmt s x from to b) =
      parsed x && (parsed from && (parsed to && stmt_parsed b))
  stmt_parsed (for_by_stmt s x from to by b) =
      parsed x && (parsed from && (parsed to && (parsed by && stmt_parsed b)))
  stmt_parsed (if_stmt s c t) = parsed c && stmt_parsed t
  stmt_parsed (if_else_stmt s c t e) = parsed c && (stmt_parsed t && stmt_parsed e)
  stmt_parsed (output_stmt s e) = parsed e
  stmt_parsed (error_stmt s e) = parsed e

  pub stmts_parsed : StmtTrees → Bool
  stmts_parsed no_stmt = true
  stmts_parsed (add_stmt t ts) = stmt_parsed t && stmts_parsed ts

abbrev pub decls_parsed : List DeclarationTree → Bool
decls_parsed [] = true
decls_parsed (d ∷ ds) = elim d.names [ [] ↦ false | x ∷ xs ↦ decls_parsed ds ]

abbrev pub functions_parsed : List FunctionTree → Bool
functions_parsed [] = true
functions_parsed (f ∷ fs) =
    (decls_parsed f.declarations && (stmts_parsed f.statements && parsed f.return_expr))
    && functions_parsed fs

-- The parts of a test.
pub left : (a b : Bool) → a && b ≡ true → a ≡ true
left a b h = ground (arith, h)

pub right : (a b : Bool) → a && b ≡ true → b ≡ true
right a b h = ground (arith, h)

-- The texts of the numbers, from left to right.
unfoldable mutual
  pub numerals : ExprTree → List String
  numerals (fun_app_expr s f xs) = numerals f ++ all_numerals xs
  numerals (access_expr s e name) = numerals e
  numerals (neg_number s text) = text ∷ []
  numerals (num_expr s text) = text ∷ []
  numerals (deref_expr s e) = numerals e
  numerals (neg_expr s e) = numerals e
  numerals (ref_expr s e) = numerals e
  numerals (array_len_expr s e) = numerals e
  numerals (not_expr s e) = numerals e
  numerals (alloc_expr s e) = numerals e
  numerals (paren_expr s e) = numerals e
  numerals (array_indexing_expr s a b) = numerals a ++ numerals b
  numerals (array_of_expr s a b) = numerals a ++ numerals b
  numerals (multiplicative_expr s op l r) = numerals l ++ numerals r
  numerals (additive_expr s op l r) = numerals l ++ numerals r
  numerals (relational_expr s op l r) = numerals l ++ numerals r
  numerals (equality_expr s op l r) = numerals l ++ numerals r
  numerals (bool_ops s op l r) = numerals l ++ numerals r
  numerals (non_short_circuiting s op l r) = numerals l ++ numerals r
  numerals (ternary_expr s c t e) = numerals c ++ (numerals t ++ numerals e)
  numerals (record_rule s fs) = field_numerals fs
  numerals (array_literal s xs) = all_numerals xs
  numerals _ = []

  pub all_numerals : ExprTrees → List String
  all_numerals no_expr = []
  all_numerals (add_expr e es) = numerals e ++ all_numerals es

  pub field_numerals : FieldTrees → List String
  field_numerals no_field = []
  field_numerals (add_field s name e fs) = numerals e ++ field_numerals fs

unfoldable mutual
  unfolding numerals

  pub stmt_numerals : StmtTree → List String
  stmt_numerals (block_stmt s ss) = stmts_numerals ss
  stmt_numerals (assign_stmt s l r) = numerals l ++ numerals r
  stmt_numerals (update_stmt s e op) = numerals e
  stmt_numerals (while_stmt s c b) = numerals c ++ stmt_numerals b
  stmt_numerals (for_each_stmt s x e b) = numerals x ++ (numerals e ++ stmt_numerals b)
  stmt_numerals (for_range_stmt s x from to b) =
      numerals x ++ (numerals from ++ (numerals to ++ stmt_numerals b))
  stmt_numerals (for_by_stmt s x from to by b) =
      numerals x ++ (numerals from ++ (numerals to ++ (numerals by ++ stmt_numerals b)))
  stmt_numerals (if_stmt s c t) = numerals c ++ stmt_numerals t
  stmt_numerals (if_else_stmt s c t e) = numerals c ++ (stmt_numerals t ++ stmt_numerals e)
  stmt_numerals (output_stmt s e) = numerals e
  stmt_numerals (error_stmt s e) = numerals e

  pub stmts_numerals : StmtTrees → List String
  stmts_numerals no_stmt = []
  stmts_numerals (add_stmt t ts) = stmt_numerals t ++ stmts_numerals ts

unfoldable pub functions_numerals : List FunctionTree → List String
unfolding stmts_numerals numerals
functions_numerals [] = []
functions_numerals (f ∷ fs) =
    (stmts_numerals f.statements ++ numerals f.return_expr) ++ functions_numerals fs
