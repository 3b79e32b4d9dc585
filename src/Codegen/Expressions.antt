-- ===== src/Codegen/Expressions.antt =====
-- The `codegen` methods of the expressions without storage on the heap, in
-- src/codegen/CodeGenFunctions.cpp. The generation of a child is an argument.
use sipc.Prelude.{
  ℤ, pos, concat, ℕ, Bool, true, false, String, Option, none, some, List, [], ◌∷◌, str_eq,
  if◌then◌else◌,
}
use sipc.Codegen.{
  int64, pointer, Value, null_pointer, function_table, constant, type_of, add, sub, mul, sdiv, srem,
  band, bor, xor, Predicate, sgt, slt, sge, sle, eq, ne, tip_input, at_pointer, arithmetic, neg,
  icmp, int_cast, int_to_ptr, ptr_to_int, load, inbounds_gep, phi, call, br, cond_br, M, pure, fail,
  ◌>>=◌, ◌>>◌, create, new_block, insert, set_insert, get_insert_block, next_label, l_value,
  set_l_value, not_null, find_value, find_function,
}

-- `ASTNumberExpr` and `ASTBoolExpr`.
unfoldable pub gen_number : ℤ → M Value
gen_number k = pure (constant k)

unfoldable pub gen_bool : Bool → M Value
gen_bool b = pure (constant (pos (if b then 1 else 0)))

unfoldable pub gen_compare : Predicate → Value → Value → M Value
gen_compare p l r = do cmp ← create (icmp p l r); create (int_cast cmp)

unfoldable pub gen_operator : String → Value → Value → M Value
gen_operator op l r =
    if str_eq op "+"
    then create (arithmetic add l r)
    else if str_eq op "-"
    then create (arithmetic sub l r)
    else if str_eq op "*"
    then create (arithmetic mul l r)
    else if str_eq op "/"
    then create (arithmetic sdiv l r)
    else if str_eq op ">"
    then gen_compare sgt l r
    else if str_eq op "<"
    then gen_compare slt l r
    else if str_eq op ">="
    then gen_compare sge l r
    else if str_eq op "<="
    then gen_compare sle l r
    else if str_eq op "=="
    then gen_compare eq l r
    else if str_eq op "!="
    then gen_compare ne l r
    else if str_eq op "and"
    then create (arithmetic band l r)
    else if str_eq op "or"
    then create (arithmetic bor l r)
    else if str_eq op "%"
    then create (arithmetic srem l r)
    else fail (concat ("Invalid binary operator: " ∷ op ∷ []))

unfoldable pub gen_binary : String → M Value → M Value → M Value
gen_binary op left right = do
  l ← left
  r ← right
  not_null l "null binary operand"
  not_null r "null binary operand"
  gen_operator op l r

unfoldable pub index_value : String → Option ℕ → M Value
index_value name none = fail (concat ("Unknown variable name: " ∷ name ∷ []))
index_value name (some i) = pure (constant (pos i))

unfoldable pub variable_at : String → Option Value → Bool → M Value
variable_at name (some v) true = pure v
variable_at name (some v) false = create (load int64 v)
variable_at name none is_l_value = find_function name >>= index_value name

unfoldable pub gen_variable : String → M Value
gen_variable name = do
  value ← find_value name
  is_l_value ← l_value
  variable_at name value is_l_value

-- The declaration of the runtime's function, by its first use, is no call of the builder.
unfoldable pub gen_input : M Value
gen_input = create (call tip_input [])

unfoldable pub gen_actuals : List (M Value) → M (List Value)
gen_actuals [] = pure []
gen_actuals (actual ∷ actuals) = do
  v ← actual
  not_null v "failed to generate bitcode for the argument"
  vs ← gen_actuals actuals
  pure (v ∷ vs)

unfoldable pub gen_fun_app : M Value → List (M Value) → M Value
gen_fun_app function actuals = do
  fun_val ← function
  not_null fun_val "failed to generate bitcode for the function"
  slot ← create (inbounds_gep function_table (constant (pos 0) ∷ fun_val ∷ []))
  function_pointer ← create (load pointer slot)
  args ← gen_actuals actuals
  create (call (at_pointer function_pointer) args)

unfoldable pub gen_null : M Value
gen_null = create (ptr_to_int null_pointer)

unfoldable pub gen_ref : M Value → M Value
gen_ref var = do
  set_l_value true
  address ← var
  set_l_value false
  not_null address "could not generate l-value for address of"
  create (ptr_to_int address)

-- The flag is reset where it is set.
unfoldable pub reset_l_value : Bool → M Bool
reset_l_value true = set_l_value false
reset_l_value false = pure false

unfoldable pub load_unless : Bool → Value → M Value
load_unless true address = pure address
load_unless false address = create (load int64 address)

unfoldable pub deref_as : M Value → Bool → M Value
deref_as ptr is_l_value = do
  reset_l_value is_l_value
  v ← ptr
  not_null v "failed to generate bitcode for the pointer"
  address ← create (int_to_ptr v)
  load_unless is_l_value address

unfoldable pub gen_deref : M Value → M Value
gen_deref ptr = l_value >>= deref_as ptr

unfoldable pub gen_array_len : M Value → M Value
gen_array_len ptr = do
  v ← ptr
  not_null v "Failed to generate code for the array expression"
  array_ptr ← create (int_to_ptr v)
  create (load int64 array_ptr)

unfoldable pub gen_not : M Value → M Value
gen_not arg = do
  v ← arg
  not_null v "failed to generate bitcode for the argument of the not expression"
  create (arithmetic xor v (constant (pos 1)))

unfoldable pub gen_neg : M Value → M Value
gen_neg arg = do
  v ← arg
  not_null v "failed to generate bitcode for the argument of the negation expression"
  create (neg v)

unfoldable pub gen_ternary : M Value → M Value → M Value → M Value
gen_ternary condition then_part else_part = do
  c ← condition
  not_null c "failed to generate bitcode for the condition of the if statement"
  test ← create (icmp ne c (constant (pos 0)))
  label ← next_label
  then_bb ← new_block "then" (some label) true
  else_bb ← new_block "else" (some label) false
  merge_bb ← new_block "ternerymerge" (some label) false
  create (cond_br test then_bb else_bb)
  set_insert then_bb
  then_v ← then_part
  not_null then_v "failed to generate bitcode for the then block"
  create (br merge_bb)
  then_end ← get_insert_block
  insert else_bb
  set_insert else_bb
  else_v ← else_part
  not_null else_v "failed to generate bitcode for the else block"
  create (br merge_bb)
  else_end ← get_insert_block
  insert merge_bb
  set_insert merge_bb
  create (phi (type_of then_v) ((then_v, then_end) ∷ (else_v, else_end) ∷ []))
