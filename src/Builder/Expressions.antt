-- ===== src/Builder/Expressions.antt =====
-- The methods of `ASTBuilder` for expressions give what Translation and Trees say.
use sipc.Prelude.{ℤ, pos, ℕ, suc, String, Option}
use sipc.Ast.{Node, Expr, binary, nil, end}
use sipc.Builder.{
  Start, Token, ExprTree, fun_app_expr, access_expr, deref_expr, neg_expr, ref_expr, array_len_expr,
  not_expr, alloc_expr, paren_expr, array_indexing_expr, array_of_expr, neg_number, num_expr,
  var_expr, bool_expr, multiplicative_expr, additive_expr, relational_expr, equality_expr, bool_ops,
  non_short_circuiting, ternary_expr, input_expr, null_expr, record_rule, array_literal, ExprTrees,
  no_expr, add_expr, FieldTrees, no_field, add_field,
}
use sipc.Builder.Visitor.{
  Exception, out_of_range, unknown_operator, op_string, node_at, Visited, M, ◌>>=◌, make_expr,
  expr_of, visit_binary_expr, visit_field_expr, operator,
}
use sipc.Builder.Visits.{visit_expr, visit_exprs, visit_fields}
use sipc.Builder.Translation.{
  first, fault, faults, field_faults, after, after_all, after_fields, no_operator, op_text,
}
use sipc.Builder.Trees.{expr_at, exprs_at, fields_at}
use sipc.Builder.Rules.{
  Yields, Leaves, step, step_in, finish, end_with, read, drop, attempt, done, make_expr_lem,
  make_field_expr_lem,
}

abbrev pub kept : Visited → Option Expr
kept v = v.visited_expr

visit_binary_expr_lem :
    (s : Start) (text : String) {n k l : ℕ} {m m' : M Unit} {x y : Option Exception} {a b : Expr}
    → Leaves kept n m x a k
    → Leaves kept k m' y b l
    → Leaves kept n
        (visit_binary_expr s text m m')
        (first x y)
        (binary (node_at l s) text a b)
        (suc l)
unfolding visit_binary_expr
visit_binary_expr_lem s text p q =
    step_in kept _ (read kept p) (finish kept _ (read kept q) (make_expr_lem s _ _))

-- A node of one part, and of two.
one_part :
    (s : Start) (f : Node → Expr → Expr) {n k : ℕ} {m : M Unit} {x : Option Exception} {a : Expr}
    → Leaves kept n m x a k
    → Leaves kept n
        (expr_of m >>= λ r. make_expr s (λ node. f node r))
        x
        (f (node_at k s) a)
        (suc k)
one_part s f p = finish kept _ (read kept p) (make_expr_lem s _ _)

two_parts :
    (s : Start) (f : Node → Expr → Expr → Expr) {n k l : ℕ} {m m' : M Unit} {x y : Option Exception}
    {a b : Expr}
    → Leaves kept n m x a k
    → Leaves kept k m' y b l
    → Leaves kept n
        (expr_of m >>= λ r. expr_of m' >>= λ t. make_expr s (λ node. f node r t))
        (first x y)
        (f (node_at l s) a b)
        (suc l)
two_parts s f p q = step_in kept _ (read kept p) (one_part s (λ node b. f node _ b) q)

visit_field_expr_lem :
    (s : Start) (name : String) {n k : ℕ} {m : M Unit} {x : Option Exception} {a : Expr}
    → Leaves kept n m x a k
    → Leaves
        (λ v. v.visited_field_expr)
        n
        (visit_field_expr s name m)
        x
        (record { node = node_at k s; name = name; init = a })
        (suc k)
unfolding visit_field_expr
visit_field_expr_lem s name p =
    finish (λ v. v.visited_field_expr) _ (read kept p) (make_field_expr_lem s _ _)

module _ (stoi : String → Option ℤ) where
  -- An operator comes before its operands.
  operation :
      (s : Start) (op : Token) {n k l : ℕ} {m m' : M Unit} {x y : Option Exception} {a b : Expr}
      → Leaves kept n m x a k
      → Leaves kept k m' y b l
      → Leaves kept n
          (operator op >>= λ text. visit_binary_expr s text m m')
          (first (no_operator op) (first x y))
          (binary (node_at l s) (op_text op) a b)
          (suc l)
  operation s op {n = n} p q =
      step_in kept _ (attempt (unknown_operator op) "" (op_string op) n)
        (visit_binary_expr_lem s _ p q)

  mutual
    unfolding visit_expr fault after expr_at

    pub visit_expr_lem :
        (e : ExprTree) (n : ℕ)
        → Leaves kept n (visit_expr stoi e) (fault stoi e) (expr_at stoi n e) (after e n)
    visit_expr_lem (fun_app_expr s f xs) n =
        step_in kept _ (read kept (visit_expr_lem f n))
          (finish kept _ (visit_exprs_lem xs _) (make_expr_lem s _ _))
    visit_expr_lem (access_expr s e name) n = one_part s _ (visit_expr_lem e n)
    visit_expr_lem (neg_number s text) n =
        finish kept _ (attempt (out_of_range text) (pos 0) (stoi text) n) (make_expr_lem s _ _)
    visit_expr_lem (num_expr s text) n =
        finish kept _ (attempt (out_of_range text) (pos 0) (stoi text) n) (make_expr_lem s _ _)
    visit_expr_lem (non_short_circuiting s op l r) n =
        drop kept (visit_expr_lem l n) (visit_expr_lem r _)
    visit_expr_lem (ternary_expr s c t e) n =
        step_in kept _ (read kept (visit_expr_lem c n))
          (two_parts s _ (visit_expr_lem t _) (visit_expr_lem e _))
    visit_expr_lem (record_rule s fs) n =
        finish kept _ (visit_fields_lem fs n) (make_expr_lem s _ _)
    visit_expr_lem (array_literal s xs) n =
        finish kept _ (visit_exprs_lem xs n) (make_expr_lem s _ _)
    visit_expr_lem (paren_expr s e) n = visit_expr_lem e n
    visit_expr_lem (deref_expr s e) n = one_part s _ (visit_expr_lem e n)
    visit_expr_lem (neg_expr s e) n = one_part s _ (visit_expr_lem e n)
    visit_expr_lem (ref_expr s e) n = one_part s _ (visit_expr_lem e n)
    visit_expr_lem (array_len_expr s e) n = one_part s _ (visit_expr_lem e n)
    visit_expr_lem (not_expr s e) n = one_part s _ (visit_expr_lem e n)
    visit_expr_lem (alloc_expr s e) n = one_part s _ (visit_expr_lem e n)
    visit_expr_lem (array_indexing_expr s a b) n =
        two_parts s _ (visit_expr_lem a n) (visit_expr_lem b _)
    visit_expr_lem (array_of_expr s a b) n = two_parts s _ (visit_expr_lem a n) (visit_expr_lem b _)
    visit_expr_lem (multiplicative_expr s op l r) n =
        operation s op (visit_expr_lem l n) (visit_expr_lem r _)
    visit_expr_lem (additive_expr s op l r) n =
        operation s op (visit_expr_lem l n) (visit_expr_lem r _)
    visit_expr_lem (relational_expr s op l r) n =
        operation s op (visit_expr_lem l n) (visit_expr_lem r _)
    visit_expr_lem (equality_expr s op l r) n =
        operation s op (visit_expr_lem l n) (visit_expr_lem r _)
    visit_expr_lem (bool_ops s op l r) n = operation s op (visit_expr_lem l n) (visit_expr_lem r _)
    visit_expr_lem (var_expr s name) n = make_expr_lem s _ n
    visit_expr_lem (bool_expr s text) n = make_expr_lem s _ n
    visit_expr_lem (input_expr s) n = make_expr_lem s _ n
    visit_expr_lem (null_expr s) n = make_expr_lem s _ n

    pub visit_exprs_lem :
        (es : ExprTrees) (n : ℕ)
        → Yields n (visit_exprs stoi es) (faults stoi es) (exprs_at stoi n es) (after_all es n)
    visit_exprs_lem no_expr n = done nil n
    visit_exprs_lem (add_expr e es) n =
        step _ (read kept (visit_expr_lem e n)) (end_with _ (visit_exprs_lem es _))

    pub visit_fields_lem :
        (fs : FieldTrees) (n : ℕ)
        → Yields n
            (visit_fields stoi fs)
            (field_faults stoi fs)
            (fields_at stoi n fs)
            (after_fields fs n)
    visit_fields_lem no_field n = done end n
    visit_fields_lem (add_field s name e fs) n =
        step _ (read (λ v. v.visited_field_expr) (visit_field_expr_lem s name (visit_expr_lem e n)))
          (end_with _ (visit_fields_lem fs _))
