-- ===== src/Builder/Faults.antt =====
-- The exceptions of ASTBuilder on what the grammar allows: a number that does not fit into an `int`.
use sipc.Prelude.{
  ◌≡◌, refl, ap, ap₂, sym, ◌∙◌, ℤ, true, String, Option, none, some, List, [], ◌∷◌, ◌++◌, ◌↔◌, inl,
  inr, Option-cases, arith,
}
use sipc.Builder.{
  Token, mul_op, div_op, add_op, sub_op, mod_op, gt_op, lte_op, gte_op, lt_op, eq_op, ne_op, and_op,
  or_op, mm_op, pp_op, ExprTree, fun_app_expr, access_expr, deref_expr, neg_expr, ref_expr,
  array_len_expr, not_expr, alloc_expr, paren_expr, array_indexing_expr, array_of_expr, neg_number,
  num_expr, var_expr, bool_expr, multiplicative_expr, additive_expr, relational_expr, equality_expr,
  bool_ops, non_short_circuiting, ternary_expr, input_expr, null_expr, record_rule, array_literal,
  ExprTrees, no_expr, add_expr, FieldTrees, no_field, add_field, StmtTree, block_stmt, assign_stmt,
  update_stmt, while_stmt, for_each_stmt, for_range_stmt, for_by_stmt, if_stmt, if_else_stmt,
  output_stmt, error_stmt, StmtTrees, no_stmt, add_stmt, FunctionTree, ProgramTree,
}
use sipc.Builder.Visitor.{Exception, Visited, throws, op_string}
use sipc.Builder.Visits.{build}
use sipc.Builder.Translation.{
  first, too_large, no_operator, fault, faults, field_faults, stmt_fault, stmts_fault,
  functions_fault,
}
use sipc.Builder.Grammar.{
  left, right, is_multiplicative, is_additive, is_relational, is_equality, is_bool, is_update,
  parsed, all_parsed, fields_parsed, stmt_parsed, stmts_parsed, decls_parsed, functions_parsed,
  numerals, all_numerals, field_numerals, stmt_numerals, stmts_numerals, functions_numerals,
}
use sipc.Builder.Laws.{build_fails, build_returns}

-- The first text whose number does not fit.
abbrev pub first_large : (String → Option ℤ) → List String → Option Exception
first_large stoi [] = none
first_large stoi (x ∷ xs) = first (too_large stoi x) (first_large stoi xs)

first_assoc : (a b c : Option Exception) → first (first a b) c ≡ first a (first b c)
first_assoc none b c = refl
first_assoc (some e) b c = refl

first_none : (a : Option Exception) → first a none ≡ a
first_none none = refl
first_none (some e) = refl

multiplicative_lem : (op : Token) → is_multiplicative op ≡ true → no_operator op ≡ none
unfolding op_string
multiplicative_lem mul_op h = refl
multiplicative_lem div_op h = refl
multiplicative_lem mod_op h = refl
multiplicative_lem _ h = ground (arith, h)

additive_lem : (op : Token) → is_additive op ≡ true → no_operator op ≡ none
unfolding op_string
additive_lem add_op h = refl
additive_lem sub_op h = refl
additive_lem _ h = ground (arith, h)

relational_lem : (op : Token) → is_relational op ≡ true → no_operator op ≡ none
unfolding op_string
relational_lem gt_op h = refl
relational_lem lte_op h = refl
relational_lem gte_op h = refl
relational_lem lt_op h = refl
relational_lem _ h = ground (arith, h)

equality_lem : (op : Token) → is_equality op ≡ true → no_operator op ≡ none
unfolding op_string
equality_lem eq_op h = refl
equality_lem ne_op h = refl
equality_lem _ h = ground (arith, h)

bool_lem : (op : Token) → is_bool op ≡ true → no_operator op ≡ none
unfolding op_string
bool_lem and_op h = refl
bool_lem or_op h = refl
bool_lem _ h = ground (arith, h)

update_lem : (op : Token) → is_update op ≡ true → no_operator op ≡ none
unfolding op_string
update_lem mm_op h = refl
update_lem pp_op h = refl
update_lem _ h = ground (arith, h)

module _ (stoi : String → Option ℤ) where
  first_large-++ :
      (xs ys : List String)
      → first (first_large stoi xs) (first_large stoi ys) ≡ first_large stoi (xs ++ ys)
  first_large-++ [] ys = refl
  first_large-++ (x ∷ xs) ys =
      first_assoc (too_large stoi x) (first_large stoi xs) (first_large stoi ys)
      ∙ ap (first (too_large stoi x)) (first_large-++ xs ys)

  -- One part after another.
  pair :
      {a b : Option Exception} (xs ys : List String)
      → a ≡ first_large stoi xs
      → b ≡ first_large stoi ys
      → first a b ≡ first_large stoi (xs ++ ys)
  pair xs ys g h = ap₂ first g h ∙ first_large-++ xs ys

  operation :
      {o a b : Option Exception} (xs ys : List String)
      → o ≡ none
      → a ≡ first_large stoi xs
      → b ≡ first_large stoi ys
      → first o (first a b) ≡ first_large stoi (xs ++ ys)
  operation {a = a} {b = b} xs ys o g h = ap (λ p. first p (first a b)) o ∙ pair xs ys g h

  mutual
    unfolding fault numerals

    fault_lem : (e : ExprTree) → parsed e ≡ true → fault stoi e ≡ first_large stoi (numerals e)
    fault_lem (fun_app_expr s f xs) h =
        pair _ _ (fault_lem f (left _ _ h)) (faults_lem xs (right _ _ h))
    fault_lem (access_expr s e name) h = fault_lem e h
    fault_lem (neg_number s text) h = sym (first_none _)
    fault_lem (num_expr s text) h = sym (first_none _)
    fault_lem (deref_expr s e) h = fault_lem e h
    fault_lem (neg_expr s e) h = fault_lem e h
    fault_lem (ref_expr s e) h = fault_lem e h
    fault_lem (array_len_expr s e) h = fault_lem e h
    fault_lem (not_expr s e) h = fault_lem e h
    fault_lem (alloc_expr s e) h = fault_lem e h
    fault_lem (paren_expr s e) h = fault_lem e h
    fault_lem (array_indexing_expr s a b) h =
        pair _ _ (fault_lem a (left _ _ h)) (fault_lem b (right _ _ h))
    fault_lem (array_of_expr s a b) h =
        pair _ _ (fault_lem a (left _ _ h)) (fault_lem b (right _ _ h))
    fault_lem (multiplicative_expr s op l r) h =
        operation _ _ (multiplicative_lem op (left _ _ h)) (fault_lem l (left _ _ (right _ _ h)))
          (fault_lem r (right _ _ (right _ _ h)))
    fault_lem (additive_expr s op l r) h =
        operation _ _ (additive_lem op (left _ _ h)) (fault_lem l (left _ _ (right _ _ h)))
          (fault_lem r (right _ _ (right _ _ h)))
    fault_lem (relational_expr s op l r) h =
        operation _ _ (relational_lem op (left _ _ h)) (fault_lem l (left _ _ (right _ _ h)))
          (fault_lem r (right _ _ (right _ _ h)))
    fault_lem (equality_expr s op l r) h =
        operation _ _ (equality_lem op (left _ _ h)) (fault_lem l (left _ _ (right _ _ h)))
          (fault_lem r (right _ _ (right _ _ h)))
    fault_lem (bool_ops s op l r) h =
        operation _ _ (bool_lem op (left _ _ h)) (fault_lem l (left _ _ (right _ _ h)))
          (fault_lem r (right _ _ (right _ _ h)))
    fault_lem (non_short_circuiting s op l r) h =
        pair _ _ (fault_lem l (left _ _ (right _ _ h))) (fault_lem r (right _ _ (right _ _ h)))
    fault_lem (ternary_expr s c t e) h =
        pair _ _ (fault_lem c (left _ _ h))
          (pair _ _ (fault_lem t (left _ _ (right _ _ h))) (fault_lem e (right _ _ (right _ _ h))))
    fault_lem (record_rule s fs) h = field_faults_lem fs h
    fault_lem (array_literal s xs) h = faults_lem xs h
    fault_lem (var_expr s name) h = refl
    fault_lem (bool_expr s text) h = refl
    fault_lem (input_expr s) h = refl
    fault_lem (null_expr s) h = refl

    faults_lem :
        (es : ExprTrees)
        → all_parsed es ≡ true
        → faults stoi es ≡ first_large stoi (all_numerals es)
    faults_lem no_expr h = refl
    faults_lem (add_expr e es) h = pair _ _ (fault_lem e (left _ _ h)) (faults_lem es (right _ _ h))

    field_faults_lem :
        (fs : FieldTrees)
        → fields_parsed fs ≡ true
        → field_faults stoi fs ≡ first_large stoi (field_numerals fs)
    field_faults_lem no_field h = refl
    field_faults_lem (add_field s name e fs) h =
        pair _ _ (fault_lem e (left _ _ h)) (field_faults_lem fs (right _ _ h))

  mutual
    unfolding stmt_fault stmt_numerals

    stmt_fault_lem :
        (t : StmtTree)
        → stmt_parsed t ≡ true
        → stmt_fault stoi t ≡ first_large stoi (stmt_numerals t)
    stmt_fault_lem (block_stmt s ss) h = stmts_fault_lem ss h
    stmt_fault_lem (assign_stmt s l r) h =
        pair _ _ (fault_lem l (left _ _ h)) (fault_lem r (right _ _ h))
    stmt_fault_lem (update_stmt s e op) h =
        ap (first (fault stoi e)) (update_lem op (right _ _ h))
        ∙ (first_none _ ∙ fault_lem e (left _ _ h))
    stmt_fault_lem (while_stmt s c b) h =
        pair _ _ (fault_lem c (left _ _ h)) (stmt_fault_lem b (right _ _ h))
    stmt_fault_lem (for_each_stmt s x e b) h =
        let h1 = right _ _ h in
        pair _ _ (fault_lem x (left _ _ h))
          (pair _ _ (fault_lem e (left _ _ h1)) (stmt_fault_lem b (right _ _ h1)))
    stmt_fault_lem (for_range_stmt s x from to b) h =
        let h1 = right _ _ h in
        let h2 = right _ _ h1 in
        pair _ _ (fault_lem x (left _ _ h)) (
          pair _ _ (fault_lem from (left _ _ h1))
            (pair _ _ (fault_lem to (left _ _ h2)) (stmt_fault_lem b (right _ _ h2))))
    stmt_fault_lem (for_by_stmt s x from to by b) h =
        let h1 = right _ _ h in
        let h2 = right _ _ h1 in
        let h3 = right _ _ h2 in
        pair _ _ (fault_lem x (left _ _ h)) (
          pair _ _ (fault_lem from (left _ _ h1)) (
            pair _ _ (fault_lem to (left _ _ h2))
              (pair _ _ (fault_lem by (left _ _ h3)) (stmt_fault_lem b (right _ _ h3)))))
    stmt_fault_lem (if_stmt s c t) h =
        pair _ _ (fault_lem c (left _ _ h)) (stmt_fault_lem t (right _ _ h))
    stmt_fault_lem (if_else_stmt s c t e) h =
        let h1 = right _ _ h in
        pair _ _ (fault_lem c (left _ _ h))
          (pair _ _ (stmt_fault_lem t (left _ _ h1)) (stmt_fault_lem e (right _ _ h1)))
    stmt_fault_lem (output_stmt s e) h = fault_lem e h
    stmt_fault_lem (error_stmt s e) h = fault_lem e h

    stmts_fault_lem :
        (ts : StmtTrees)
        → stmts_parsed ts ≡ true
        → stmts_fault stoi ts ≡ first_large stoi (stmts_numerals ts)
    stmts_fault_lem no_stmt h = refl
    stmts_fault_lem (add_stmt t ts) h =
        pair _ _ (stmt_fault_lem t (left _ _ h)) (stmts_fault_lem ts (right _ _ h))

  pub functions_fault_lem :
      (fs : List FunctionTree)
      → functions_parsed fs ≡ true
      → functions_fault stoi fs ≡ first_large stoi (functions_numerals fs)
  unfolding functions_fault functions_numerals
  functions_fault_lem [] h = refl
  functions_fault_lem (f ∷ fs) h =
      let b = right (decls_parsed f.declarations) _ (left _ (functions_parsed fs) h) in
      pair _ _
        (pair _ _ (stmts_fault_lem f.statements (left _ _ b))
          (fault_lem f.return_expr (right _ _ b)))
        (functions_fault_lem fs (right _ (functions_parsed fs) h))

-- On a tree that the grammar allows, `build` throws an exception exactly where the text of a number
-- is out of the range of an `int`, namely for the first such text.
pub build_throws_iff :
    (stoi : String → Option ℤ) (sha256 : String → String) (t : ProgramTree) (v : Visited)
    → functions_parsed t.functions ≡ true
    → (e : Exception)
    → (build stoi sha256 t v ≡ throws e)
      ↔ (first_large stoi (functions_numerals t.functions) ≡ some e)
build_throws_iff stoi sha256 t v h e =
    let f = functions_fault_lem stoi t.functions h in
    (
      λ r. elim (Option-cases (functions_fault stoi t.functions)) [
        | inl n ↦ let w = build_returns stoi sha256 t v n in ground (arith, r, w.1)
        | inr (x, s) ↦ ground (arith, r, build_fails stoi sha256 t v x s, s, f)
      ],
      λ r. build_fails stoi sha256 t v e (f ∙ r),
    )
