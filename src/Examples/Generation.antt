-- ===== src/Examples/Generation.antt =====
-- Code for the program of Printing.
use sipc.Prelude.{concat, String, pos, true, ◌∷◌, none, ◌≡◌, refl, ℕ, false, ◌*◌, some, []}
use sipc.Codegen.{
  Generator, ok, internal_error, ◌>>=◌, pure, find, tell, find_function, for_all, new_entry,
  set_insert, find_value, l_value, not_null, fail, create, type_given,
}
use sipc.Codegen.Programs.{
  generate, decl_names, codegen_program, reset_labels, index_functions, declare_functions,
  get_function, formals_of, unless_declared, initial, declare_main, declare_function, define_main,
  gen_globals, index_fields, gen_record_type, codegen_function, clear_names, gen_formals,
  gen_inputs, gen_arguments, gen_decl_stmt, gen_body,
}
use sipc.Codegen.Statements.{codegen_stmts, codegen_stmt, gen_return}
use sipc.Codegen.Generate.{codegen_expr}
use sipc.Codegen.Expressions.{gen_number, gen_variable, variable_at, index_value}
use sipc.Codegen.Shape.{shape}
use sipc.Codegen.Edges.{phis_agree}
use sipc.Codegen.Laws.{generate_correct}
use sipc.Ast.{
  Function, Program, nil, cons, return, variable, number, accept_program, accept_stmts, accept_stmt,
  accept_expr,
}
use sipc.Symbols
use sipc.Symbols.{SymbolTable, build, lookup, has_name}
use sipc.Weeding.{check}
use sipc.Weeding.Laws.{check_iff}
use sipc.Codegen.Analysed.{build-check-generate}
use sipc.Examples.Printing.{one, at, name}

abbrev table : SymbolTable
table = record {
  function_map = ("f", (record { node = at 2; name = "f" }, false)) ∷ [];
  local_map = (2, ("a", name 3) ∷ []) ∷ [];
  fields = [];
}

check-one : check one ≡ none
check-one = (check_iff one).1 refl

generate_correct_example :
    (n : ℕ) × (g : Generator) × (generate (λ n. n * 8) [] one ≡ ok n g)
    × (shape g.calls ≡ some (record { opened = false; pending = []; count = g.blocks }))
    × (phis_agree g.calls ≡ true)
unfolding decl_names
generate_correct_example = generate_correct (λ n. n * 8) [] one refl

build-one : build one ≡ Symbols.ok table
unfolding build accept_program accept_stmts accept_stmt accept_expr lookup has_name
build-one = refl

build-check-generate_example :
    (n : ℕ) × (g : Generator) × (generate (λ n. n * 8) [] one ≡ ok n g)
    × (shape g.calls ≡ some (record { opened = false; pending = []; count = g.blocks }))
    × (phis_agree g.calls ≡ true)
unfolding decl_names
build-check-generate_example =
    build-check-generate (λ n. n * 8) one table build-one check-one refl refl

-- `main() { return 0; } _tip_main(a) { return a; }`: both have one function of the module, which has no
-- arguments.
abbrev formal : String → Function
formal f = record {
  node = at 20;
  decl = record { node = at 21; name = f };
  formals = name 22 ∷ [];
  declarations = [];
  stmts = cons (return (at 23) (variable (at 24) "a")) nil;
  is_poly = false;
}

abbrev two_mains : Program
two_mains = record {
  name = "two";
  functions =
      record (formal "main") {
        formals = [];
        stmts = cons (return (at 25) (number (at 26) (pos 0))) nil;
      }
      ∷ formal "_tip_main"
      ∷ [];
}

clash_of_mains : generate (λ n. n * 8) [] two_mains ≡ internal_error "Unknown variable name: a"
unfolding generate decl_names ◌>>=◌ pure find tell find_function for_all new_entry set_insert
    find_value l_value not_null fail create type_given codegen_program reset_labels index_functions
    declare_functions get_function formals_of unless_declared initial declare_main declare_function
    define_main gen_globals index_fields gen_record_type codegen_function clear_names gen_formals
    gen_inputs gen_arguments gen_decl_stmt gen_body codegen_stmts codegen_stmt gen_return
    codegen_expr gen_number gen_variable variable_at index_value concat
clash_of_mains = refl
