-- ===== src/Codegen/Statements.antt =====
-- The `codegen` methods of the statements, in src/codegen/CodeGenFunctions.cpp.
use sipc.Prelude.{pos, Bool, true, false, Option, none, some, List, [], ◌∷◌, if◌then◌else◌}
use sipc.Ast.{
  Expr, Stmt, Stmts, nil, cons, assign, update, block, loop, for_each, for_range, if_then, if_else,
  output, error, return,
}
use sipc.Codegen.{
  int64, Value, nullptr, constant, add, sub, ne, nop, tip_output, tip_error, arithmetic, icmp, load,
  store, call, br, cond_br, ret, M, pure, ◌>>=◌, ◌>>◌, create, new_block, set_insert, next_label,
  set_l_value, not_null,
}
use sipc.Codegen.Generate.{codegen_expr}
use sipc.Codegen.Loops.{start, start_with_nop, gen_while, gen_for_range, gen_for_each}

unfoldable pub gen_assign : M Value → M Value → M Value
gen_assign lhs rhs = do
  set_l_value true
  l ← lhs
  set_l_value false
  not_null l "failed to generate bitcode for the lhs of the assignment"
  r ← rhs
  not_null r "failed to generate bitcode for the rhs of the assignment"
  create (store r l)

-- The value of the last statement, `nullptr` in an empty block.
unfoldable pub gen_stmts : Value → List (M Value) → M Value
gen_stmts last_stmt [] = pure last_stmt
gen_stmts last_stmt (s ∷ stmts) = s >>= λ v. gen_stmts v stmts

unfoldable pub nop_if_null : Value → M Value
nop_if_null nullptr = create (call nop [])
nop_if_null v = pure v

unfoldable pub gen_block : List (M Value) → M Value
gen_block stmts = gen_stmts nullptr stmts >>= nop_if_null

unfoldable pub gen_update : M Value → Bool → M Value
gen_update arg increment = do
  set_l_value true
  v ← arg
  set_l_value false
  not_null v "Failed to generate bitcode for the argument in update statement"
  loaded ← create (load int64 v)
  updated ← create (arithmetic (if increment then add else sub) loaded (constant (pos 1)))
  create (store updated v)
  pure updated

-- Without an `else` that block has a call of nothing.
unfoldable pub gen_else : Option (M Value) → M Value
gen_else (some else_part) = do
  v ← else_part
  not_null v "failed to generate bitcode for the else block"
gen_else none = create (call nop [])

unfoldable pub gen_if : M Value → M Value → Option (M Value) → M Value
gen_if condition then_part else_part = do
  c ← condition
  not_null c "failed to generate bitcode for the condition of the if statement"
  test ← create (icmp ne c (constant (pos 0)))
  label ← next_label
  then_bb ← new_block "then" (some label) true
  else_bb ← new_block "else" (some label) false
  merge_bb ← new_block "ifmerge" (some label) false
  create (cond_br test then_bb else_bb)
  set_insert then_bb
  v ← then_part
  not_null v "failed to generate bitcode for the then block"
  create (br merge_bb)
  start else_bb
  gen_else else_part
  create (br merge_bb)
  start_with_nop merge_bb

unfoldable pub gen_output : M Value → M Value
gen_output arg = do
  v ← arg
  not_null v "failed to generate bitcode for the argument of the output statement"
  create (call tip_output (v ∷ []))

unfoldable pub gen_error : M Value → M Value
gen_error arg = do
  v ← arg
  not_null v "failed to generate bitcode for the argument of the error statement"
  create (call tip_error (v ∷ []))

unfoldable pub gen_return : M Value → M Value
gen_return arg = arg >>= λ v. create (ret v)

unfoldable pub codegen_step : Option Expr → Option (M Value)
codegen_step none = none
codegen_step (some e) = some (codegen_expr e)

unfoldable mutual
  pub codegen_stmt : Stmt → M Value
  codegen_stmt (assign n l r) = gen_assign (codegen_expr l) (codegen_expr r)
  codegen_stmt (update n e b) = gen_update (codegen_expr e) b
  codegen_stmt (block n ss) = gen_block (codegen_stmts ss)
  codegen_stmt (loop n c s) = gen_while (codegen_expr c) (codegen_stmt s)
  codegen_stmt (for_each n x e s) = gen_for_each (codegen_expr x) (codegen_expr e) (codegen_stmt s)
  codegen_stmt (for_range n x a b i s) =
      gen_for_range (codegen_expr x) (codegen_expr a) (codegen_expr b) (codegen_step i)
        (codegen_stmt s)
  codegen_stmt (if_then n c s) = gen_if (codegen_expr c) (codegen_stmt s) none
  codegen_stmt (if_else n c s t) = gen_if (codegen_expr c) (codegen_stmt s) (some (codegen_stmt t))
  codegen_stmt (output n e) = gen_output (codegen_expr e)
  codegen_stmt (error n e) = gen_error (codegen_expr e)
  codegen_stmt (return n e) = gen_return (codegen_expr e)

  pub codegen_stmts : Stmts → List (M Value)
  codegen_stmts nil = []
  codegen_stmts (cons s ss) = codegen_stmt s ∷ codegen_stmts ss
