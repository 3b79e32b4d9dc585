-- ===== src/Codegen/Programs.antt =====
-- The `codegen` methods of functions and programs and `getFunction`, in
-- src/codegen/CodeGenFunctions.cpp, and `CodeGenerator::generate`. The size of the record type, by
-- its number of fields, is an argument: LLVM's data layout gives it.
use sipc.Prelude.{
  ℕ, suc, pos, false, String, Option, none, some, List, [], ◌∷◌, ◌++◌, str_eq, length, map,
  if◌then◌else◌,
}
use sipc.Ast.{DeclNode, DeclStmt, Function, Program}
use sipc.Codegen.{
  int64, Value, nullptr, constant, argument, input_array, declare, create_function_table,
  create_inputs, create_record_type, verify_function, verify_module, Generator, LlvmFunction,
  Result, ok, load, store, inbounds_gep, call, ret, tip_main_undefined, M, pure, ◌>>=◌, ◌>>◌,
  create, create_entry_block_alloca, set_insert, not_null, find, find_function, name_value, tell,
  new_entry, for_all,
}
use sipc.Codegen.Statements.{codegen_stmts}

unfoldable pub decl_names : List DeclNode → List String
decl_names ds = map (λ d. d.name) ds

-- `functionFormalNames[name]`.
unfoldable pub formals_of : String → M (List String)
formals_of name g = elim (find name g.names.formal_names) [
  | some formals ↦ ok formals g
  | none ↦
      ok []
        (record g { names = record g.names { formal_names = (name, []) ∷ g.names.formal_names } })
]

-- The arguments of the function get the names of the formals. LLVM would rename one that repeats
-- a name, which the symbol table refuses before.
unfoldable pub declare_function : String → List String → M LlvmFunction
declare_function name formals g =
    ok (name, formals)
      (record g {
        calls = declare name formals ∷ g.calls;
        declared = g.declared ++ (name, formals) ∷ [];
      })

-- The number of the arguments of `main` is kept.
unfoldable pub declare_main : List String → M LlvmFunction
declare_main formals g = declare_function "_tip_main" [] (record g { num_args = length formals })

-- `getFunction` of the module.
unfoldable pub unless_declared : String → M LlvmFunction → M LlvmFunction
unfolding find
unless_declared name m g = elim (find name g.declared) [
  | some args ↦ ok (name, args) g
  | none ↦ m g
]

unfoldable pub get_function : String → M LlvmFunction
get_function name = do
  formals ← formals_of name
  if str_eq name "main"
      then unless_declared "_tip_main" (declare_main formals)
      else unless_declared name (declare_function name formals)

-- An argument of `main` comes from the array of inputs.
unfoldable pub gen_inputs : ℕ → List String → M ℕ
gen_inputs i [] = pure i
gen_inputs i (name ∷ names) = do
  arg_alloc ← create_entry_block_alloca name
  slot ← create (inbounds_gep input_array (constant (pos 0) ∷ constant (pos i) ∷ []))
  in_val ← create (load int64 slot)
  create (store in_val arg_alloc)
  name_value name arg_alloc
  gen_inputs (suc i) names

unfoldable pub gen_arguments : ℕ → List String → M ℕ
gen_arguments i [] = pure i
gen_arguments i (name ∷ names) = do
  arg_alloc ← create_entry_block_alloca name
  create (store (argument i) arg_alloc)
  name_value name arg_alloc
  gen_arguments (suc i) names

-- The last `alloca`; the locals start as 0.
unfoldable pub gen_vars : Value → List DeclNode → M Value
gen_vars last [] = pure last
gen_vars last (d ∷ ds) = do
  local_alloca ← create_entry_block_alloca d.name
  create (store (constant (pos 0)) local_alloca)
  name_value d.name local_alloca
  gen_vars local_alloca ds

unfoldable pub gen_decl_stmt : DeclStmt → M ℕ
gen_decl_stmt d = do
  v ← gen_vars nullptr d.vars
  not_null v "failed to generate bitcode for the function declarations"
  pure 0

unfoldable pub gen_body : List (M Value) → M ℕ
gen_body [] = pure 0
gen_body (s ∷ stmts) = do
  v ← s
  not_null v "failed to generate bitcode for the function statement"
  gen_body stmts

unfoldable pub clear_names : M ℕ
clear_names g = ok 0 (record g { names = record g.names { named_values = [] } })

-- `main` has no arguments in LLVM, and its formals are taken from the map.
unfoldable pub gen_formals : String → List String → M ℕ
gen_formals name args =
    if str_eq name "main" then formals_of name >>= gen_inputs 0 else gen_arguments 0 args

unfoldable pub codegen_function : Function → M ℕ
codegen_function f = do
  the_function ← get_function f.decl.name
  entry ← new_entry (the_function.0)
  set_insert entry
  clear_names
  gen_formals f.decl.name (the_function.1)
  for_all gen_decl_stmt f.declarations
  gen_body (codegen_stmts f.stmts)
  tell (verify_function (the_function.0))

-- `functionIndex` and `functionFormalNames`.
unfoldable pub index_functions : ℕ → List Function → M ℕ
index_functions i [] = pure i
index_functions i (f ∷ fs) = λ g. index_functions (suc i) fs (record g {
  names = record g.names {
    function_index = (f.decl.name, i) ∷ g.names.function_index;
    formal_names = (f.decl.name, decl_names f.formals) ∷ g.names.formal_names;
  };
})

unfoldable pub declare_functions : List Function → M (List String)
declare_functions [] = pure []
declare_functions (f ∷ fs) = do
  the_function ← get_function f.decl.name
  rest ← declare_functions fs
  pure (the_function.0 ∷ rest)

-- The function that stands for a missing `main`.
unfoldable pub define_main : Option ℕ → M ℕ
define_main (some i) = pure i
define_main none = do
  m ← declare_function "_tip_main" []
  entry ← new_entry (m.0)
  set_insert entry
  declare_function "_tip_main_undefined" []
  create (call tip_main_undefined [])
  create (ret (constant (pos 0)))
  pure 0

unfoldable pub gen_globals : M ℕ
gen_globals g = ok 0 (record g { calls = create_inputs g.num_args ∷ g.calls })

unfoldable pub index_fields : ℕ → List String → M ℕ
index_fields i [] = pure i
index_fields i (s ∷ ss) = λ g.
    index_fields (suc i) ss
      (record g { names = record g.names { field_index = (s, i) ∷ g.names.field_index } })

unfoldable pub gen_record_type : (ℕ → ℕ) → ℕ → M ℕ
gen_record_type struct_size n g =
    ok n (record g { calls = create_record_type n ∷ g.calls; record_size = struct_size n })

unfoldable pub reset_labels : M ℕ
reset_labels g = ok 0 (record g { label_num = 0 })

unfoldable pub codegen_program : (ℕ → ℕ) → List String → Program → M ℕ
codegen_program struct_size fields p = do
  reset_labels
  index_functions 0 p.functions
  program_functions ← declare_functions p.functions
  tell (create_function_table program_functions)
  main ← find_function "main"
  define_main main
  gen_globals
  declare_function "calloc" ("" ∷ "" ∷ [])
  n ← index_fields 0 fields
  gen_record_type struct_size n
  for_all codegen_function p.functions
  tell verify_module

-- The variables of the file when the compiler starts.
unfoldable pub initial : Generator
initial = record {
  calls = [];
  next = 0;
  blocks = 0;
  insert_at = none;
  label_num = 0;
  l_value_gen = false;
  alloc_flag = false;
  names = record { named_values = []; function_index = []; field_index = []; formal_names = [] };
  declared = [];
  num_args = 0;
  record_size = 0;
}

unfoldable pub generate : (ℕ → ℕ) → List String → Program → Result ℕ
generate struct_size fields p = codegen_program struct_size fields p initial
