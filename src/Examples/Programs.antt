-- ===== src/Examples/Programs.antt =====
-- A small program, `f(a) { var b; b = &a; return {g: *b}.g; }  f(c) { return c; }`, through the
-- passes on syntax trees.
use sipc.Prelude.{
  ◌||◌, ==_iff, ◌+◌, length, ◌<◌, ◌≡◌, refl, ℕ, true, false, String, none, some, List, [], arith,
  ◌∷◌, ◌↔◌,
}
use sipc.Ast.{
  Node, DeclNode, variable, ref, deref, rec, access, end, field, Stmts, assign, return, nil, cons,
  Function, Program, accept_program, accept_stmts, accept_expr,
}
use sipc.Weeding.{check}
use sipc.Weeding.Lvalues.{functions_weeded}
use sipc.Weeding.Laws.{check_iff}
use sipc.Symbols.{
  ok, semantic_error, function_redeclared, FunctionMap, function_names, field_names, lookup,
  has_name, SymbolTable,
}
use sipc.Symbols.Functions.{is_ok, distinct_names, first_named, function_names_correct}
use sipc.Symbols.Fields.{any_field, no_duplicates, field_names_correct}
use sipc.Unifier.{Unifier}
use sipc.Types.{equal_var, TipType, plain, alpha, var, function, cons as cons_type, nil as no_types}
use sipc.Types.Substitute.{copy, fresh_copy, substitute}
use sipc.CallGraph.Callees.{CalleesFirst, topo_sort-CalleesFirst}
use sipc.CallGraph.{
  entry, CallGraph, topo_sort, member, get_callers, get_callees, get_edges, get_total_edges,
}
use sipc.CallGraph.Queries.{get_callers-get_callees, get_edges_correct, is_edge}
use sipc.CallGraph.Order.{count, topo_sort-perm}

abbrev at : ℕ → Node
at n = record { address = n; line = 1; column = n }

abbrev decl : ℕ → String → DeclNode
decl n s = record { node = at n; name = s }

abbrev body : Stmts
body = cons (assign (at 10) (variable (at 11) "b") (ref (at 12) (variable (at 13) "a"))) (
    cons
      (return (at 14) (
        access (at 15) (rec (at 16) (field (at 17) "g" (deref (at 18) (variable (at 19) "b")) end))
          "g"))
      nil)

abbrev first_function : Function
first_function = record {
  node = at 1;
  decl = decl 2 "f";
  formals = decl 3 "a" ∷ [];
  declarations = record { node = at 4; vars = decl 5 "b" ∷ [] } ∷ [];
  stmts = body;
  is_poly = false;
}

abbrev second_function : Function
second_function = record {
  node = at 30;
  decl = decl 31 "f";
  formals = decl 32 "c" ∷ [];
  declarations = [];
  stmts = cons (return (at 33) (variable (at 34) "c")) nil;
  is_poly = true;
}

abbrev twice : Program
twice = record { name = "twice"; functions = first_function ∷ second_function ∷ [] }

abbrev once : Program
once = record { name = "once"; functions = first_function ∷ [] }

check_iff_example : (check once ≡ none) ↔ (functions_weeded once.functions ≡ true)
check_iff_example = check_iff once

function_names_correct_example :
    (is_ok (function_names twice) ≡ distinct_names twice.functions)
    × ((m : FunctionMap)
        → function_names twice ≡ ok m
        → (s : String) → lookup s m ≡ first_named s twice.functions)
function_names_correct_example = function_names_correct twice

redeclared : function_names twice ≡ semantic_error (function_redeclared (decl 31 "f"))
unfolding function_names lookup
redeclared = refl

field_names_correct_example :
    ((s : String) → has_name s (field_names once) ≡ any_field s (accept_program once))
    × (no_duplicates (field_names once) ≡ true)
field_names_correct_example = field_names_correct once

one_field : field_names once ≡ "g" ∷ []
unfolding field_names accept_program has_name accept_stmts accept_expr
one_field = refl

abbrev once_table : SymbolTable
once_table = record {
  function_map = ("f", (decl 2 "f", false)) ∷ [];
  local_map = (2, ("a", decl 3 "a") ∷ ("b", decl 5 "b") ∷ []) ∷ [];
  fields = "g" ∷ [];
}

abbrev generic : TipType
generic = function (cons_type (var (alpha 3 none "")) (cons_type (var (plain 4)) no_types))

-- The copy of a variable with a context has none.
context_lost : copy (var (alpha 3 (some 9) "s")) ≡ some (var (alpha 3 none "s"))
unfolding copy
context_lost = refl

-- The target comes out where it was not in.
target_left :
    substitute (var (alpha 3 (some 9) "s")) (alpha 3 none "s") TipType.int
    ≡ some (var (alpha 3 none "s"))
unfolding substitute equal_var
target_left = refl

instantiated :
    fresh_copy generic 9
    ≡ some (function (cons_type (var (alpha 3 (some 9) "")) (cons_type (var (plain 4)) no_types)))
unfolding fresh_copy
instantiated = refl

-- Two functions that call each other, and a third that calls the first.
abbrev graph : CallGraph
graph = record {
  name = λ f. "";
  call_graph = (1, 2 ∷ []) ∷ (2, 1 ∷ []) ∷ (3, 1 ∷ []) ∷ [];
  may_call = [];
  vertices = 1 ∷ 2 ∷ 3 ∷ [];
  edges = [];
  fun_map = [];
}

sorted_graph : topo_sort 4 graph (1 ∷ 2 ∷ 3 ∷ []) ≡ some (2 ∷ 1 ∷ 3 ∷ [])
unfolding topo_sort
sorted_graph = refl

topo_sort-perm_example :
    (out : List ℕ) × (topo_sort 4 graph (1 ∷ 2 ∷ 3 ∷ []) ≡ some out)
    × ((x : ℕ) → count x out ≡ count x (1 ∷ 2 ∷ 3 ∷ []))
topo_sort-perm_example = topo_sort-perm 4 graph (1 ∷ 2 ∷ 3 ∷ []) (omega arith)

get_callers-get_callees_example : member 3 (get_callers graph 1) ≡ member 1 (get_callees graph 3)
get_callers-get_callees_example = get_callers-get_callees graph 3 1 refl

get_edges_correct_example :
    ((f c : ℕ)
      → is_edge f c ((get_edges graph).0)
        ≡ is_edge f c graph.edges || member c (get_callees graph f))
    × (length ((get_edges graph).0) ≡ length graph.edges + get_total_edges graph)
    × (length ((get_edges ((get_edges graph).1)).0)
        ≡ length graph.edges + get_total_edges graph + get_total_edges graph)
get_edges_correct_example = get_edges_correct graph refl

-- Without a cycle: the third function calls the others, and the second the first.
abbrev chain : CallGraph
chain = record {
  name = λ f. "";
  call_graph = (2, 1 ∷ []) ∷ (3, 2 ∷ 1 ∷ []) ∷ [];
  may_call = [];
  vertices = 3 ∷ 2 ∷ 1 ∷ [];
  edges = [];
  fun_map = [];
}

chain_falls : (f c : ℕ) → member c (get_callees chain f) ≡ true → c < f
unfolding member get_callees entry
chain_falls f c h = ground (arith, h, ==_iff f 2, ==_iff f 3, ==_iff c 1, ==_iff c 2)

topo_sort-CalleesFirst_example :
    (out : List ℕ) × (topo_sort 4 chain (1 ∷ 2 ∷ 3 ∷ []) ≡ some out)
    × CalleesFirst chain (1 ∷ 2 ∷ 3 ∷ []) out
topo_sort-CalleesFirst_example =
    topo_sort-CalleesFirst chain (1 ∷ 2 ∷ 3 ∷ []) (λ f. f) 4 chain_falls (omega arith)
