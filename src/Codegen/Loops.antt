-- ===== src/Codegen/Loops.antt =====
-- The `codegen` methods of `while` and `for`, in src/codegen/CodeGenFunctions.cpp. The generation
-- of a child is an argument.
use sipc.Prelude.{ℕ, pos, true, false, Option, none, some, [], ◌∷◌}
use sipc.Codegen.{
  int64, Value, constant, add, slt, sle, ne, nop, one_int64, arithmetic, icmp, int_to_ptr, alloca,
  load, store, gep, call, br, cond_br, M, pure, ◌>>=◌, ◌>>◌, create, new_block, insert, set_insert,
  next_label, set_l_value, not_null,
}

-- The header, which is in the function, the body and the exit.
unfoldable pub loop_blocks : M (ℕ × ℕ × ℕ)
loop_blocks = do
  label ← next_label
  header_bb ← new_block "header" (some label) true
  body_bb ← new_block "body" (some label) false
  exit_bb ← new_block "exit" (some label) false
  pure (header_bb, body_bb, exit_bb)

-- The block is put at the end of the function and written to.
unfoldable pub start : ℕ → M ℕ
start bb = do insert bb; set_insert bb

unfoldable pub start_with_nop : ℕ → M Value
start_with_nop bb = do start bb; create (call nop [])

unfoldable pub gen_while : M Value → M Value → M Value
gen_while condition body = do
  bbs ← loop_blocks
  create (br (bbs.0))
  set_insert (bbs.0)
  c ← condition
  not_null c "failed to generate bitcode for the conditional"
  test ← create (icmp ne c (constant (pos 0)))
  create (cond_br test (bbs.1) (bbs.2))
  start (bbs.1)
  v ← body
  not_null v "failed to generate bitcode for the loop body"
  create (br (bbs.0))
  start_with_nop (bbs.2)

-- The increment, or 1.
unfoldable pub gen_increment : Option (M Value) → M Value
gen_increment none = pure (constant (pos 1))
gen_increment (some increment) = do
  v ← increment
  not_null v "Failed to generate bitcode for the increment in for statement"

-- `using_range`, from the jump to the header.
unfoldable pub range_loop : ℕ × ℕ × ℕ → Value → Value → Value → M Value → M Value
range_loop bbs item stop increment body = do
  create (br (bbs.0))
  set_insert (bbs.0)
  current ← create (load int64 item)
  test ← create (icmp slt current stop)
  create (cond_br test (bbs.1) (bbs.2))
  start (bbs.1)
  v ← body
  not_null v "failed to generate bitcode for the loop body"
  reached ← create (load int64 item)
  after ← create (arithmetic add reached increment)
  create (store after item)
  create (br (bbs.0))
  start_with_nop (bbs.2)

unfoldable pub gen_item : M Value → M Value
gen_item item = do
  set_l_value true
  v ← item
  set_l_value false
  not_null v "Failed to generate the item for the range start in for statement"

unfoldable pub gen_for_range : M Value → M Value → M Value → Option (M Value) → M Value → M Value
gen_for_range item range_start range_end increment body = do
  bbs ← loop_blocks
  item_v ← gen_item item
  start_v ← range_start
  not_null start_v "Failed to generate bitcode for the range start in for statement"
  end_v ← range_end
  not_null end_v "Failed to generate bitcode for the range end in for statement"
  increment_v ← gen_increment increment
  create (store start_v item_v)
  range_loop bbs item_v end_v increment_v body

-- The other `for`, from the jump to the header: the index goes from 1 to the length.
unfoldable pub index_loop : ℕ × ℕ × ℕ → Value → Value → Value → Value → M Value → M Value
index_loop bbs item index array_ptr size body = do
  create (br (bbs.0))
  set_insert (bbs.0)
  current ← create (load int64 index)
  test ← create (icmp sle current size)
  create (cond_br test (bbs.1) (bbs.2))
  start (bbs.1)
  now ← create (load int64 index)
  slot ← create (gep array_ptr (now ∷ []))
  element ← create (load int64 slot)
  create (store element item)
  v ← body
  not_null v "failed to generate bitcode for the loop body"
  after ← create (arithmetic add now (constant (pos 1)))
  create (store after index)
  create (br (bbs.0))
  start_with_nop (bbs.2)

unfoldable pub gen_for_each : M Value → M Value → M Value → M Value
gen_for_each item iterator body = do
  bbs ← loop_blocks
  item_v ← gen_item item
  iterator_v ← iterator
  not_null iterator_v "Failed to generate bitcode for the iterator in for statement"
  index ← create (alloca one_int64)
  create (store (constant (pos 1)) index)
  array_ptr ← create (int_to_ptr iterator_v)
  size ← create (load int64 array_ptr)
  index_loop bbs item_v index array_ptr size body
