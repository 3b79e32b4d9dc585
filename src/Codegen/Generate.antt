-- ===== src/Codegen/Generate.antt =====
-- `codegen` of an expression: the call of the method of its class, in
-- src/codegen/CodeGenFunctions.cpp.
use sipc.Prelude.{String, List, [], ◌∷◌}
use sipc.Ast.{
  Expr, Exprs, Fields, number, boolean, variable, binary, ternary, input, null, fun_app, alloc, ref,
  deref, negation, minus, array, array_len, array_of, indexing, rec, access, nil, cons, end, field,
}
use sipc.Codegen.{Value, M}
use sipc.Codegen.Expressions.{
  gen_number, gen_bool, gen_binary, gen_variable, gen_input, gen_fun_app, gen_null, gen_ref,
  gen_deref, gen_array_len, gen_not, gen_neg, gen_ternary,
}
use sipc.Codegen.Allocations.{
  gen_alloc, gen_array, gen_array_of, gen_indexing, gen_record, gen_access,
}

unfoldable mutual
  pub codegen_expr : Expr → M Value
  codegen_expr (number n k) = gen_number k
  codegen_expr (boolean n b) = gen_bool b
  codegen_expr (variable n x) = gen_variable x
  codegen_expr (binary n op l r) = gen_binary op (codegen_expr l) (codegen_expr r)
  codegen_expr (ternary n c t e) = gen_ternary (codegen_expr c) (codegen_expr t) (codegen_expr e)
  codegen_expr (input n) = gen_input
  codegen_expr (null n) = gen_null
  codegen_expr (fun_app n f xs) = gen_fun_app (codegen_expr f) (codegen_exprs xs)
  codegen_expr (alloc n e) = gen_alloc (codegen_expr e)
  codegen_expr (ref n e) = gen_ref (codegen_expr e)
  codegen_expr (deref n e) = gen_deref (codegen_expr e)
  codegen_expr (negation n e) = gen_not (codegen_expr e)
  codegen_expr (minus n e) = gen_neg (codegen_expr e)
  codegen_expr (array n xs) = gen_array (codegen_exprs xs)
  codegen_expr (array_len n e) = gen_array_len (codegen_expr e)
  codegen_expr (array_of n a b) = gen_array_of (codegen_expr a) (codegen_expr b)
  codegen_expr (indexing n a i) = gen_indexing (codegen_expr a) (codegen_expr i)
  codegen_expr (rec n fs) = gen_record (codegen_fields fs)
  codegen_expr (access n e f) = gen_access (codegen_expr e) f

  pub codegen_exprs : Exprs → List (M Value)
  codegen_exprs nil = []
  codegen_exprs (cons e es) = codegen_expr e ∷ codegen_exprs es

  pub codegen_fields : Fields → List (String × M Value)
  codegen_fields end = []
  codegen_fields (field n s e fs) = (s, codegen_expr e) ∷ codegen_fields fs
