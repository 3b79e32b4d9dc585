-- ===== src/Codegen/Allocations.antt =====
-- The `codegen` methods of arrays, records and `alloc`, in src/codegen/CodeGenFunctions.cpp. The
-- generation of a child is an argument.
use sipc.Prelude.{
  ℕ, suc, Bool, true, false, if◌then◌else◌, pos, String, Option, none, some, List, [], ◌∷◌, length,
}
use sipc.Codegen.{
  int64, pointer, Value, constant, type_of, add, bor, slt, sle, sge, calloc, tip_error, one_int64,
  one_record, one_record_pointer, arithmetic, icmp, int_to_ptr, ptr_to_int, bit_cast, alloca, load,
  store, gep, inbounds_gep, struct_gep, phi, call, br, cond_br, unreachable, M, pure, fail, ◌>>=◌,
  ◌>>◌, create, new_block, set_insert, next_label, l_value, set_l_value, allocating, set_allocating,
  not_null, find_field, field_slot, record_bytes,
}
use sipc.Codegen.Expressions.{reset_l_value}

unfoldable pub gen_alloc : M Value → M Value
gen_alloc initializer = do
  set_allocating true
  v ← initializer
  set_allocating false
  not_null v "failed to generate bitcode for the initializer of the alloc expression"
  allocated ← create (call calloc (constant (pos 1) ∷ constant (pos 8) ∷ []))
  create (store v allocated)
  create (ptr_to_int allocated)

-- `calloc` of the items and of the length, which is stored before them.
unfoldable pub new_array : Value → Value → M Value
new_array num_items size = do
  array_ptr ← create (call calloc (num_items ∷ constant (pos 8) ∷ []))
  int64_ptr ← create (bit_cast array_ptr)
  create (store size int64_ptr)
  pure int64_ptr

unfoldable pub gen_elements : Value → ℕ → List (M Value) → M Value
gen_elements int64_ptr i [] = pure int64_ptr
gen_elements int64_ptr i (element ∷ elements) = do
  v ← element
  not_null v "Failed to generate code for array element"
  slot ← create (inbounds_gep int64_ptr (constant (pos (suc i)) ∷ []))
  create (store v slot)
  gen_elements int64_ptr (suc i) elements

unfoldable pub gen_array : List (M Value) → M Value
gen_array elements = do
  int64_ptr ← new_array (constant (pos (suc (length elements)))) (constant (pos (length elements)))
  gen_elements int64_ptr 0 elements
  create (ptr_to_int int64_ptr)

-- The loop that stores the elements.
unfoldable pub fill_array : Value → Value → M Value → M ℕ
fill_array size int64_ptr element = do
  index_ptr ← create (alloca one_int64)
  create (store (constant (pos 1)) index_ptr)
  label ← next_label
  loop_cond ← new_block "loopcond" (some label) true
  loop_body ← new_block "loopbody" (some label) true
  loop_end ← new_block "loopend" (some label) true
  create (br loop_cond)
  set_insert loop_cond
  current ← create (load int64 index_ptr)
  test ← create (icmp sle current size)
  create (cond_br test loop_body loop_end)
  set_insert loop_body
  v ← element
  not_null v "Failed to generate code for the element expression in array-of expression"
  slot ← create (inbounds_gep int64_ptr (current ∷ []))
  create (store v slot)
  after ← create (arithmetic add current (constant (pos 1)))
  create (store after index_ptr)
  create (br loop_cond)
  set_insert loop_end

unfoldable pub gen_array_of : M Value → M Value → M Value
gen_array_of e1 e2 = do
  size ← e1
  not_null size "Failed to generate code for the size expression in array-of expression"
  num_items ← create (arithmetic add size (constant (pos 1)))
  int64_ptr ← new_array num_items size
  fill_array size int64_ptr e2
  create (ptr_to_int int64_ptr)

-- The test of the index, and the block for an index out of bounds; the builder is left in the block
-- for one in bounds. The blocks are that one and the one to go on in.
unfoldable pub check_bounds : Value → Value → M (ℕ × ℕ)
check_bounds index size = do
  negative ← create (icmp slt index (constant (pos 0)))
  too_large ← create (icmp sge index size)
  out_of_bounds ← create (arithmetic bor negative too_large)
  in_bounds_bb ← new_block "inBounds" none true
  out_of_bounds_bb ← new_block "outOfBounds" none true
  continue_bb ← new_block "continue" none true
  create (cond_br out_of_bounds out_of_bounds_bb in_bounds_bb)
  set_insert out_of_bounds_bb
  create (call tip_error (constant (pos 0) ∷ []))
  create unreachable
  set_insert in_bounds_bb
  pure (in_bounds_bb, continue_bb)

unfoldable pub element_value : Bool → Value → ℕ → M Value
element_value true slot in_bounds_bb = create (phi (type_of slot) ((slot, some in_bounds_bb) ∷ []))
element_value false slot in_bounds_bb = create (load int64 slot)

unfoldable pub indexing_as : M Value → M Value → Bool → M Value
indexing_as arr idx is_l_value = do
  set_l_value false
  array_val ← arr
  not_null array_val "Failed to generate code for the array expression"
  array_ptr ← create (int_to_ptr array_val)
  size ← create (load int64 array_ptr)
  index ← idx
  set_l_value is_l_value
  not_null index "Failed to generate code for the index expression"
  bbs ← check_bounds index size
  adjusted ← create (arithmetic add index (constant (pos 1)))
  slot ← create (gep array_ptr (adjusted ∷ []))
  create (br (bbs.1))
  set_insert (bbs.1)
  now ← l_value
  element_value now slot (bbs.0)

unfoldable pub gen_indexing : M Value → M Value → M Value
gen_indexing arr idx = l_value >>= indexing_as arr idx

unfoldable pub gen_fields : Value → List (String × M Value) → M Value
gen_fields allocated [] = pure allocated
gen_fields allocated ((name, initializer) ∷ fields) = do
  n ← field_slot name
  slot ← create (struct_gep allocated n)
  v ← initializer
  create (store v slot)
  gen_fields allocated fields

unfoldable pub record_in : Bool → List (String × M Value) → M Value
record_in true fields = do
  alloca_record ← create (alloca one_record_pointer)
  bytes ← record_bytes
  callocated ← create (call calloc (constant (pos 1) ∷ constant (pos bytes) ∷ []))
  create (store callocated alloca_record)
  loaded ← create (load pointer alloca_record)
  gen_fields loaded fields
  create (ptr_to_int callocated)
record_in false fields = do
  alloca_record ← create (alloca one_record)
  gen_fields alloca_record fields
  create (ptr_to_int alloca_record)

unfoldable pub gen_record : List (String × M Value) → M Value
gen_record fields = do is_alloc ← allocating; record_in is_alloc fields

unfoldable pub access_at : Bool → Option ℕ → M Value → M Value
access_at is_l_value none of_record = fail "This field doesn't exist"
access_at is_l_value (some index) of_record = do
  v ← of_record
  address ← create (int_to_ptr v)
  slot ← create (struct_gep address index)
  if is_l_value
      then pure slot
      else (create (load int64 slot) >>= λ field_load. create (ptr_to_int field_load))

unfoldable pub access_as : M Value → String → Bool → M Value
access_as of_record name is_l_value = do
  reset_l_value is_l_value
  index ← find_field name
  access_at is_l_value index of_record

unfoldable pub gen_access : M Value → String → M Value
gen_access of_record name = l_value >>= access_as of_record name
