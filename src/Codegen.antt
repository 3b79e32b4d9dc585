-- ===== src/Codegen.antt =====
-- src/codegen/CodeGenFunctions.cpp: the state of code generation and the calls it makes of LLVM.
-- LLVM is not part of the repository: the model records each call of the builder with its
-- arguments, the last one first, and gives a value its number and its type. Left out are the names
-- of values, which LLVM only prints, and the context and the function, of which there is one at a
-- time. A builder's method returns no null pointer, so that only the code itself gives `nullptr`.
pub mod Expressions
pub mod Allocations
pub mod Generate
pub mod Loops
pub mod Statements
pub mod Programs
pub mod Shape
pub mod Edges
pub mod Rules
pub mod Reads
pub mod Values
pub mod Choices
pub mod Heap
pub mod Places
pub mod Flow
pub mod Branches
pub mod Scoped
pub mod Sound
pub mod Frames
pub mod Bodies
pub mod Functions
pub mod Indexes
pub mod Laws
pub mod Named
pub mod Analysed
pub mod Accepted
use sipc.Prelude.{
  ℤ, ℕ, zero, suc, Bool, true, false, String, Option, none, some, List, [], ◌∷◌, ◌++◌, str_eq,
  if◌then◌else◌,
}

pub data IrType : Type 0 where
  int64 int1 pointer void : IrType

pub data Value : Type 0 where
  nullptr null_pointer function_table input_array : Value
  constant : ℤ → Value
  argument : ℕ → Value
  result : IrType → ℕ → Value

unfoldable pub type_of : Value → IrType
type_of nullptr = void
type_of null_pointer = pointer
type_of function_table = pointer
type_of input_array = pointer
type_of (constant n) = int64
type_of (argument n) = int64
type_of (result t n) = t

pub data Opcode : Type 0 where
  add sub mul sdiv srem band bor xor : Opcode

pub data Predicate : Type 0 where
  sgt slt sge sle eq ne : Predicate

pub data Callee : Type 0 where
  calloc nop tip_input tip_output tip_error tip_main_undefined : Callee
  at_pointer : Value → Callee

-- What an `alloca` has room for.
pub data Room : Type 0 where
  one_int64 one_record one_record_pointer : Room

pub data Instruction : Type 0 where
  arithmetic : Opcode → Value → Value → Instruction
  neg : Value → Instruction
  icmp : Predicate → Value → Value → Instruction
  int_cast int_to_ptr ptr_to_int bit_cast : Value → Instruction
  alloca : Room → Instruction
  load : IrType → Value → Instruction
  store : Value → Value → Instruction
  gep inbounds_gep : Value → List Value → Instruction
  struct_gep : Value → ℕ → Instruction
  phi : IrType → List (Value × Option ℕ) → Instruction
  call : Callee → List Value → Instruction
  br : ℕ → Instruction
  cond_br : Value → ℕ → ℕ → Instruction
  ret : Value → Instruction
  unreachable : Instruction

-- The type of what a method of the builder returns, by its arguments.
unfoldable pub type_given : Instruction → IrType
unfolding type_of
type_given (arithmetic op l r) = type_of l
type_given (neg v) = type_of v
type_given (icmp p l r) = int1
type_given (int_cast v) = int64
type_given (int_to_ptr v) = pointer
type_given (ptr_to_int v) = int64
type_given (bit_cast v) = pointer
type_given (alloca r) = pointer
type_given (load t p) = t
type_given (gep p vs) = pointer
type_given (inbounds_gep p vs) = pointer
type_given (struct_gep p n) = pointer
type_given (phi t vs) = t
type_given (call calloc vs) = pointer
type_given (call nop vs) = void
type_given (call tip_main_undefined vs) = void
type_given (call _ vs) = int64
type_given _ = void

-- A block has the text and the number of its label, and is put into the function as it is created
-- or later; `create_entry` creates the first one of a function.
pub data Call : Type 0 where
  instruction : Instruction → Call
  entry_alloca : String → Call
  create_block : String → Option ℕ → Bool → Call
  insert_block set_insert_point : ℕ → Call
  create_entry : String → Call
  declare : String → List String → Call
  create_function_table : List String → Call
  create_inputs create_record_type : ℕ → Call
  verify_function : String → Call
  verify_module : Call

-- The maps `namedValues`, `functionIndex`, `fieldIndex` and `functionFormalNames`, with the entry
-- that was last added first.
pub record Names : Type 0 where
  pub named_values : List (String × Value)
  pub function_index : List (String × ℕ)
  pub field_index : List (String × ℕ)
  pub formal_names : List (String × List String)

-- A function of the module: its name and the names of its arguments.
abbrev pub LlvmFunction : Type 0
LlvmFunction = String × List String

-- The variables of the file, and of the builder. `declared` are the functions of the module in the
-- order in which they are created: of two with one name LLVM gives the second another name, so that
-- the first one is found. `record_size` is what the data layout gives for the record type.
pub record Generator : Type 0 where
  pub calls : List Call
  pub next : ℕ
  pub blocks : ℕ
  pub insert_at : Option ℕ
  pub label_num : ℕ
  pub l_value_gen : Bool
  pub alloc_flag : Bool
  pub names : Names
  pub declared : List LlvmFunction
  pub num_args : ℕ
  pub record_size : ℕ

pub data Result (A : Type 0) : Type 0 where
  ok : A → Generator → Result A
  internal_error : String → Result A

abbrev pub M : Type 0 → Type 0
M A = Generator → Result A

unfoldable pub pure : {A : Type 0} → A → M A
pure a g = ok a g

unfoldable pub fail : {A : Type 0} → String → M A
fail message g = internal_error message

infixl 5 ◌>>=◌ ◌>>◌
unfoldable pub ◌>>=◌ : {A B : Type 0} → M A → (A → M B) → M B
◌>>=◌ m f g = elim (m g) [ ok a h ↦ f a h | internal_error e ↦ internal_error e ]

abbrev pub ◌>>◌ : {A B : Type 0} → M A → M B → M B
m >> k = m >>= λ _. k

unfoldable pub create : Instruction → M Value
unfolding type_given
create i g =
    ok (result (type_given i) g.next)
      (record g { calls = instruction i ∷ g.calls; next = suc g.next })

unfoldable pub create_entry_block_alloca : String → M Value
create_entry_block_alloca name g =
    ok (result pointer g.next) (record g { calls = entry_alloca name ∷ g.calls; next = suc g.next })

unfoldable pub new_block : String → Option ℕ → Bool → M ℕ
new_block text label attached g =
    ok g.blocks
      (record g { calls = create_block text label attached ∷ g.calls; blocks = suc g.blocks })

unfoldable pub insert : ℕ → M ℕ
insert b g = ok b (record g { calls = insert_block b ∷ g.calls })

unfoldable pub set_insert : ℕ → M ℕ
set_insert b g = ok b (record g { calls = set_insert_point b ∷ g.calls; insert_at = some b })

unfoldable pub get_insert_block : M (Option ℕ)
get_insert_block g = ok g.insert_at g

-- `labelNum++`, and the label that the blocks then get.
unfoldable pub next_label : M ℕ
next_label g = ok (suc g.label_num) (record g { label_num = suc g.label_num })

unfoldable pub l_value : M Bool
l_value g = ok g.l_value_gen g

unfoldable pub set_l_value : Bool → M Bool
set_l_value b g = ok b (record g { l_value_gen = b })

unfoldable pub allocating : M Bool
allocating g = ok g.alloc_flag g

unfoldable pub set_allocating : Bool → M Bool
set_allocating b g = ok b (record g { alloc_flag = b })

-- A null pointer is an error.
unfoldable pub not_null : Value → String → M Value
unfolding fail pure
not_null nullptr message = fail message
not_null v message = pure v

unfoldable pub find : {A : Type 0} → String → List (String × A) → Option A
find key [] = none
find key ((k, a) ∷ rest) = if str_eq key k then some a else find key rest

unfoldable pub find_value : String → M (Option Value)
unfolding find
find_value name g = ok (find name g.names.named_values) g

unfoldable pub find_function : String → M (Option ℕ)
unfolding find
find_function name g = ok (find name g.names.function_index) g

unfoldable pub find_field : String → M (Option ℕ)
unfolding find
find_field name g = ok (find name g.names.field_index) g

-- `fieldIndex[name]`, which adds an entry of 0 where there is none.
unfoldable pub field_slot : String → M ℕ
unfolding find
field_slot name g = elim (find name g.names.field_index) [
  | some n ↦ ok n g
  | none ↦
      ok 0 (record g { names = record g.names { field_index = (name, 0) ∷ g.names.field_index } })
]

unfoldable pub name_value : String → Value → M Value
name_value name v g =
    ok v (record g { names = record g.names { named_values = (name, v) ∷ g.names.named_values } })

unfoldable pub record_bytes : M ℕ
record_bytes g = ok g.record_size g

-- A call that gives nothing that the code uses.
unfoldable pub tell : Call → M ℕ
tell c g = ok 0 (record g { calls = c ∷ g.calls })

unfoldable pub new_entry : String → M ℕ
new_entry name g =
    ok g.blocks (record g { calls = create_entry name ∷ g.calls; blocks = suc g.blocks })

unfoldable pub for_all : {A : Type 0} → (A → M ℕ) → List A → M ℕ
unfolding pure ◌>>=◌
for_all f [] = pure 0
for_all f (a ∷ rest) = f a >>= λ _. for_all f rest
