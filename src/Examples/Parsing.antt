-- ===== src/Examples/Parsing.antt =====
-- The parse tree of `f(a) { var b; while (a > 0) a--; b = -7; return (a | b); }`, built with an
-- `int` that holds its numbers, and with one that does not hold 7.
use sipc.Prelude.{
  map, ◌==◌, true, ◌*◌, List, ℕ, ◌≡◌, refl, ◌↔◌, ℤ, pos, negsuc, false, String, Option, none, some,
  [], ◌∷◌, str_eq, if◌then◌else◌,
}
use sipc.Ast.{variable, binary, number, loop, update, assign, return, nil, cons}
use sipc.Builder.{
  Start, gt_op, mm_op, bar_op, var_expr, num_expr, neg_number, relational_expr, paren_expr,
  non_short_circuiting, while_stmt, update_stmt, assign_stmt, no_stmt, add_stmt, NameTree,
  FunctionTree, ProgramTree,
}
use sipc.Builder.Visitor.{out_of_range, Visited, ok, throws, op_string, negate, node_at}
use sipc.Builder.Visits.{build, push_back}
use sipc.Builder.Translation.{functions_fault, after}
use sipc.Builder.Trees.{program_at, after_functions, expr_at, after_stmt, stmt_at}
use sipc.Ast.{Program, accept_program, accept_stmts, accept_stmt, accept_expr}
use sipc.Symbols
use sipc.Symbols.{SymbolTable, lookup, has_name}
use sipc.Weeding.{check}
use sipc.Weeding.Laws.{check_iff}
use sipc.Unifier.{TypeConstraint}
use sipc.Constraints.Traversal.{collect}
use sipc.Codegen
use sipc.Codegen.{Generator}
use sipc.Codegen.Shape.{shape}
use sipc.Codegen.Edges.{phis_agree}
use sipc.Codegen.Programs.{generate, decl_names}
use sipc.Codegen.Named.{variable_named, field_named, functions_every, locals_of, build_named}
use sipc.Pipeline.{build-analyses-generate}
use sipc.Builder.Grammar.{functions_numerals}
use sipc.Builder.Rules.{report, expected}
use sipc.Builder.Laws.{build_lem, build_returns}
use sipc.Builder.Unbuild.{functions_tree, strip_function}
use sipc.Builder.RoundTrip.{build-functions_tree}
use sipc.Builder.Numbering.{addresses, all_different, build-different}
use sipc.Builder.Faults.{first_large, build_throws_iff}

abbrev at : ℕ → Start
at n = record { line = 1; column = n }

abbrev name : ℕ → String → NameTree
name n s = record { start = at n; identifier = s }

abbrev parsed_f : FunctionTree
parsed_f = record {
  start = at 0;
  name = name 0 "f";
  params = name 2 "a" ∷ [];
  kpoly = false;
  declarations = record { start = at 7; names = name 11 "b" ∷ [] } ∷ [];
  statements =
      add_stmt
        (while_stmt (at 14)
          (relational_expr (at 21) gt_op (var_expr (at 21) "a") (num_expr (at 25) "0"))
          (update_stmt (at 28) (var_expr (at 28) "a") mm_op))
        (add_stmt (assign_stmt (at 33) (var_expr (at 33) "b") (neg_number (at 37) "7")) no_stmt);
  return_start = at 41;
  return_expr =
      paren_expr (at 48)
        (non_short_circuiting (at 49) bar_op (var_expr (at 49) "a") (var_expr (at 53) "b"));
}

abbrev pub tree : ProgramTree
tree = record { text = "f(a){varb;while(a>0)a--;b=-7;return(a|b);}"; functions = parsed_f ∷ [] }

abbrev pub small : String → Option ℤ
small s = if str_eq s "0" then some (pos 0) else if str_eq s "7" then some (pos 7) else none

abbrev tiny : String → Option ℤ
tiny s = if str_eq s "0" then some (pos 0) else none

abbrev pub start : Visited
start = record {
  visited_stmt = none;
  visited_decl_node = none;
  visited_decl_stmt = none;
  visited_expr = none;
  visited_field_expr = none;
  visited_function = none;
  made = 0;
}

abbrev hash : String → String
hash s = "1f"

build_lem_example :
    report (build small hash tree start)
    ≡ expected
        (functions_fault small tree.functions)
        (program_at small hash 0 tree)
        (after_functions tree.functions 0)
build_lem_example = build_lem small hash tree start

-- `a | b` is compiled as b, and `-7` is one number.
built_stmts : program_at small hash 0 tree ≡ record {
  name = "1f";
  functions =
      record {
        node = record { address = 16; line = 1; column = 0 };
        decl = record { node = record { address = 0; line = 1; column = 0 }; name = "f" };
        formals = record { node = record { address = 1; line = 1; column = 2 }; name = "a" } ∷ [];
        declarations =
            record {
              node = record { address = 3; line = 1; column = 7 };
              vars =
                  record { node = record { address = 2; line = 1; column = 11 }; name = "b" } ∷ [];
            }
            ∷ [];
        stmts =
            cons
              (loop
                (record { address = 9; line = 1; column = 14 })
                (binary
                  (record { address = 6; line = 1; column = 21 })
                  ">"
                  (variable (record { address = 4; line = 1; column = 21 }) "a")
                  (number (record { address = 5; line = 1; column = 25 }) (pos 0)))
                (update
                  (record { address = 8; line = 1; column = 28 })
                  (variable (record { address = 7; line = 1; column = 28 }) "a")
                  false))
              (cons
                (assign
                  (record { address = 12; line = 1; column = 33 })
                  (variable (record { address = 10; line = 1; column = 33 }) "b")
                  (number (record { address = 11; line = 1; column = 37 }) (negsuc 6)))
                (cons
                  (return
                    (record { address = 15; line = 1; column = 41 })
                    (variable (record { address = 14; line = 1; column = 53 }) "b"))
                  nil));
        is_poly = false;
      }
      ∷ [];
}
unfolding after op_string expr_at after_stmt stmt_at negate push_back
built_stmts = refl

build_throws_iff_example :
    (build tiny hash tree start ≡ throws (out_of_range "7"))
    ↔ (first_large tiny (functions_numerals tree.functions) ≡ some (out_of_range "7"))
build_throws_iff_example = build_throws_iff tiny hash tree start refl (out_of_range "7")

throws_seven : build tiny hash tree start ≡ throws (out_of_range "7")
unfolding functions_numerals
throws_seven = build_throws_iff_example.1 refl

abbrev built : Program
built = program_at small hash 0 tree

abbrev table : SymbolTable
table = record {
  function_map = ("f", (record { node = node_at 0 (at 0); name = "f" }, false)) ∷ [];
  local_map =
      (
        0,
        ("a", record { node = node_at 1 (at 2); name = "a" })
            ∷ ("b", record { node = node_at 2 (at 11); name = "b" })
            ∷ [],
      )
      ∷ [];
  fields = [];
}

build-table : Symbols.build built ≡ Symbols.ok table
unfolding Symbols.build accept_program accept_stmts accept_stmt accept_expr lookup has_name
    push_back after op_string expr_at after_stmt stmt_at
build-table = refl

check-built : check built ≡ none
unfolding push_back after op_string expr_at after_stmt stmt_at
check-built = (check_iff built).1 refl

build-analyses-generate_example :
    (w : Visited) × (build small hash tree start ≡ ok built w)
    × (cs : List TypeConstraint) × (collect table built ≡ some cs)
    × (n : ℕ) × (g : Generator) × (generate (λ n. n * 8) table.fields built ≡ Codegen.ok n g)
    × (shape g.calls ≡ some (record { opened = false; pending = []; count = g.blocks }))
    × (phis_agree g.calls ≡ true)
unfolding functions_numerals push_back after op_string expr_at after_stmt stmt_at decl_names
    accept_stmts accept_stmt accept_expr
build-analyses-generate_example =
    build-analyses-generate small hash (λ n. n * 8) tree start built table refl refl refl
      build-table check-built refl refl

built_returns : (w : Visited) × (build small hash tree start ≡ ok built w)
unfolding functions_fault op_string
built_returns = build_returns small hash tree start refl

build-different_example : all_different (addresses (accept_program built)) ≡ true
build-different_example =
    build-different small hash tree start built (built_returns.0) (built_returns.1)

build_named_example :
    (functions_every (λ f. variable_named (locals_of f) ("f" ∷ [])) built.functions ≡ true)
    × (functions_every (λ f. field_named []) built.functions ≡ true)
build_named_example = build_named built table build-table

abbrev decimal : ℕ → String
decimal n = if n == 0 then "0" else "7"

build-functions_tree_example :
    functions_tree decimal built.functions
    ≡ some (map (strip_function small decimal) tree.functions)
build-functions_tree_example =
    build-functions_tree small hash decimal tree start built (built_returns.0) refl
      (built_returns.1)
