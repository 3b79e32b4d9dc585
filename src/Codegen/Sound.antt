-- ===== src/Codegen/Sound.antt =====
-- `codegen` of an expression and of a statement whose names are declared.
use sipc.Prelude.{◌≡◌, refl, ℕ, Bool, true, ◌&&◌, ◌||◌, String, Option, none, some, arith}
use sipc.Ast.{
  Expr, Exprs, Fields, Stmt, Stmts, number, boolean, variable, binary, ternary, input, null,
  fun_app, alloc, ref, deref, negation, minus, array, array_len, array_of, indexing, rec, access,
  nil, cons, end, field, assign, update, block, loop, for_each, for_range, if_then, if_else, output,
  error, return,
}
use sipc.Codegen.{find, Names}
use sipc.Codegen.Generate.{codegen_expr, codegen_exprs, codegen_fields}
use sipc.Codegen.Statements.{codegen_stmt, codegen_stmts, codegen_step}
use sipc.Codegen.Values.{
  IsInt, IsAddress, IsStmt, IsReturn, AllInt, AllFields, AllStmt, OptionInt, gen_number_lem,
  gen_bool_lem, gen_not_lem, gen_neg_lem, gen_array_len_lem, gen_input_lem, gen_null_lem,
  gen_ref_lem, gen_deref_lem, gen_deref-IsAddress,
}
use sipc.Codegen.Choices.{
  is_some, AllAddresses, gen_binary_lem, gen_variable_lem, gen_variable-IsAddress, gen_fun_app_lem,
  gen_ternary_lem,
}
use sipc.Codegen.Heap.{gen_alloc_lem, gen_array_lem, gen_array_of_lem, gen_record_lem}
use sipc.Codegen.Places.{
  gen_access_lem, gen_access-IsAddress, gen_indexing_lem, gen_indexing-IsAddress,
}
use sipc.Codegen.Flow.{gen_while_lem, gen_assign_lem, gen_for_range_lem, gen_for_each_lem}
use sipc.Codegen.Branches.{
  gen_update_lem, gen_if_lem, gen_block_lem, gen_output_lem, gen_error_lem, gen_return_lem,
}
use sipc.Codegen.Scoped.{
  Scope, listed, expr_ok, target_ok, exprs_ok, fields_ok, increment_ok, stmt_ok, stmts_ok, ends_ok,
}

-- The maps have the names of the scope.
pub record Agrees (sc : Scope) (ns : Names) : Type 0 where
  pub addresses : AllAddresses ns
  pub of_locals : (x : String) → listed x sc.locals ≡ true → is_some (find x ns.named_values) ≡ true
  pub of_functions :
      (x : String) → listed x sc.functions ≡ true → is_some (find x ns.function_index) ≡ true
  pub of_fields : (x : String) → listed x sc.fields ≡ true → is_some (find x ns.field_index) ≡ true

-- A test of two parts.
pub and_parts : (a b : Bool) → a && b ≡ true → (a ≡ true) × (b ≡ true)
and_parts a b h = (ground (arith, h), ground (arith, h))

found : (o : Option ℕ) → is_some o ≡ true → (n : ℕ) × (o ≡ some n)
found none h = ground (arith, h)
found (some n) h = (n, refl)

module _ {sc : Scope} {ns : Names} (ag : Agrees sc ns) where
  variable_lem :
      (x : String)
      → listed x sc.locals || listed x sc.functions ≡ true
      → find x ns.named_values ≡ none
      → is_some (find x ns.function_index) ≡ true
  variable_lem x h e = ground (arith, h, e, ag.of_locals x, ag.of_functions x)

  mutual
    unfolding codegen_expr codegen_exprs codegen_fields

    pub expr_lem : (e : Expr) → expr_ok sc e ≡ true → IsInt ns (codegen_expr e)
    expr_lem (number n k) h = gen_number_lem k
    expr_lem (boolean n b) h = gen_bool_lem b
    expr_lem (variable n x) h = gen_variable_lem x ag.addresses (variable_lem x h)
    expr_lem (binary n op l r) h =
        let p = and_parts _ _ h in
        let q = and_parts _ _ (p.1) in gen_binary_lem op (p.0) (expr_lem l (q.0)) (expr_lem r (q.1))
    expr_lem (ternary n c t e) h =
        let p = and_parts _ _ h in
        let q = and_parts _ _ (p.1) in
        gen_ternary_lem (expr_lem c (p.0)) (expr_lem t (q.0)) (expr_lem e (q.1))
    expr_lem (input n) h = gen_input_lem
    expr_lem (null n) h = gen_null_lem
    expr_lem (fun_app n f xs) h =
        let p = and_parts _ _ h in gen_fun_app_lem _ (expr_lem f (p.0)) (exprs_lem xs (p.1))
    expr_lem (alloc n e) h = gen_alloc_lem (expr_lem e h)
    expr_lem (ref n e) h = gen_ref_lem (target_lem e h)
    expr_lem (deref n e) h = gen_deref_lem (expr_lem e h)
    expr_lem (negation n e) h = gen_not_lem (expr_lem e h)
    expr_lem (minus n e) h = gen_neg_lem (expr_lem e h)
    expr_lem (array n xs) h = gen_array_lem _ (exprs_lem xs h)
    expr_lem (array_len n e) h = gen_array_len_lem (expr_lem e h)
    expr_lem (array_of n a b) h =
        let p = and_parts _ _ h in gen_array_of_lem (expr_lem a (p.0)) (expr_lem b (p.1))
    expr_lem (indexing n a i) h =
        let p = and_parts _ _ h in gen_indexing_lem (expr_lem a (p.0)) (expr_lem i (p.1))
    expr_lem (rec n fs) h = gen_record_lem _ (fields_lem fs h)
    expr_lem (access n e f) h =
        let p = and_parts _ _ h in gen_access_lem f (ag.of_fields f (p.0)) (expr_lem e (p.1))

    pub target_lem : (e : Expr) → target_ok sc e ≡ true → IsAddress ns (codegen_expr e)
    target_lem (variable n x) h = gen_variable-IsAddress x ag.addresses (ag.of_locals x h)
    target_lem (deref n e) h = gen_deref-IsAddress (expr_lem e h)
    target_lem (indexing n a i) h =
        let p = and_parts _ _ h in gen_indexing-IsAddress (expr_lem a (p.0)) (expr_lem i (p.1))
    target_lem (access n e f) h =
        let p = and_parts _ _ h in gen_access-IsAddress f (ag.of_fields f (p.0)) (expr_lem e (p.1))
    target_lem _ h = ground (arith, h)

    exprs_lem : (es : Exprs) → exprs_ok sc es ≡ true → AllInt ns (codegen_exprs es)
    exprs_lem nil h = tt
    exprs_lem (cons e es) h = let p = and_parts _ _ h in (expr_lem e (p.0), exprs_lem es (p.1))

    fields_lem : (fs : Fields) → fields_ok sc fs ≡ true → AllFields ns (codegen_fields fs)
    fields_lem end h = tt
    fields_lem (field n s e fs) h =
        let p = and_parts _ _ h in
        let q = and_parts _ _ (p.1) in
        (found _ (ag.of_fields s (p.0)), expr_lem e (q.0), fields_lem fs (q.1))

  increment_lem : (i : Option Expr) → increment_ok sc i ≡ true → OptionInt ns (codegen_step i)
  unfolding codegen_step
  increment_lem none h = tt
  increment_lem (some e) h = expr_lem e h

  mutual
    unfolding codegen_stmt codegen_stmts

    pub stmt_lem : (s : Stmt) → stmt_ok sc s ≡ true → IsStmt ns (codegen_stmt s)
    stmt_lem (assign n l r) h =
        let p = and_parts _ _ h in gen_assign_lem (target_lem l (p.0)) (expr_lem r (p.1))
    stmt_lem (update n e b) h = gen_update_lem b (target_lem e h)
    stmt_lem (block n ss) h = gen_block_lem _ (stmts_lem ss h)
    stmt_lem (loop n c s) h =
        let p = and_parts _ _ h in gen_while_lem (expr_lem c (p.0)) (stmt_lem s (p.1))
    stmt_lem (for_each n x e s) h =
        let p = and_parts _ _ h in
        let q = and_parts _ _ (p.1) in
        gen_for_each_lem (target_lem x (p.0)) (expr_lem e (q.0)) (stmt_lem s (q.1))
    stmt_lem (for_range n x a b i s) h =
        let p = and_parts _ _ h in
        let q = and_parts _ _ (p.1) in
        let r = and_parts _ _ (q.1) in
        let t = and_parts _ _ (r.1) in
        gen_for_range_lem _ (target_lem x (p.0)) (expr_lem a (q.0)) (expr_lem b (r.0))
          (increment_lem i (t.0)) (stmt_lem s (t.1))
    stmt_lem (if_then n c s) h =
        let p = and_parts _ _ h in gen_if_lem none (expr_lem c (p.0)) (stmt_lem s (p.1)) tt
    stmt_lem (if_else n c s t) h =
        let p = and_parts _ _ h in
        let q = and_parts _ _ (p.1) in
        gen_if_lem (some _) (expr_lem c (p.0)) (stmt_lem s (q.0)) (stmt_lem t (q.1))
    stmt_lem (output n e) h = gen_output_lem (expr_lem e h)
    stmt_lem (error n e) h = gen_error_lem (expr_lem e h)
    stmt_lem (return n e) h = ground (arith, h)

    pub stmts_lem : (ss : Stmts) → stmts_ok sc ss ≡ true → AllStmt ns (codegen_stmts ss)
    stmts_lem nil h = tt
    stmts_lem (cons s ss) h = let p = and_parts _ _ h in (stmt_lem s (p.0), stmts_lem ss (p.1))

  pub return_lem : (s : Stmt) → ends_ok sc s ≡ true → IsReturn ns (codegen_stmt s)
  unfolding codegen_stmt
  return_lem (return n e) h = gen_return_lem (expr_lem e h)
  return_lem _ h = ground (arith, h)
