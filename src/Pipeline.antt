-- ===== src/Pipeline.antt =====
-- The phases that src/tipc.cpp and src/semantic/SemanticAnalysis.cpp run one after the other, on what
-- the parser gives.
use sipc.Prelude.{
  ◌≡◌, refl, ap, ◌∙◌, ℤ, ℕ, true, false, String, Option, none, some, List, [], ◌∷◌, arith,
}
use sipc.Ast.{Program, Function, Stmts, nil, cons, return}
use sipc.Symbols
use sipc.Symbols.{SymbolTable}
use sipc.Weeding.{check}
use sipc.Unifier.{TypeConstraint}
use sipc.Constraints.Traversal.{last_return, collect}
use sipc.Constraints.Listed.{is_some}
use sipc.Constraints.Defined.{all_return, collect_defined}
use sipc.Codegen.{Generator}
use sipc.Codegen
use sipc.Codegen.Shape.{shape}
use sipc.Codegen.Edges.{phis_agree}
use sipc.Codegen.Programs.{generate}
use sipc.Codegen.Scoped.{function_names, functions_plain}
use sipc.Codegen.Accepted.{returns_last, well_formed, functions_spared, analyses-generate}
use sipc.Builder.{ProgramTree}
use sipc.Builder.Visitor.{Visited, ok}
use sipc.Builder.Visits.{build}
use sipc.Builder.Trees.{program_at}
use sipc.Builder.Grammar.{functions_parsed, functions_numerals}
use sipc.Builder.Laws.{build_returns}
use sipc.Builder.Faults.{first_large, functions_fault_lem}
use sipc.Builder.Shape.{functions_at-well_formed}

returns_last-last_return : (ss : Stmts) → returns_last ss ≡ true → is_some (last_return ss) ≡ true
unfolding last_return
returns_last-last_return nil h = ground (arith, h)
returns_last-last_return (cons (return n e) nil) h = refl
returns_last-last_return (cons s nil) h = ground (arith, h)
returns_last-last_return (cons s (cons t ss)) h =
    ground (arith, h, returns_last-last_return (cons t ss))

well_formed-all_return : (fs : List Function) → well_formed fs ≡ true → all_return fs ≡ true
well_formed-all_return [] h = refl
well_formed-all_return (f ∷ fs) h =
    ground (arith, h, returns_last-last_return f.stmts, well_formed-all_return fs)

-- For a tree that the grammar allows and whose numbers fit into an int, ASTBuilder returns a
-- program. Where the symbol table and the pass for l-values accept that program, no function is
-- assigned to or has its address taken, and no function is called _tip_main, _tip_main_undefined or
-- calloc or names two formals alike, the collection of type constraints is defined, code generation
-- throws no exception, and in the calls that it makes of the builder operands have the types that
-- the instructions take, functions of the runtime get as many arguments as they take, targets of
-- branches exist, nothing is written outside a block or after its end, every block is put into the
-- function, written and ended, and each phi has one value for each branch made to its block before
-- it, from that block.
pub build-analyses-generate :
    (stoi : String → Option ℤ) (sha256 : String → String) (struct_size : ℕ → ℕ) (t : ProgramTree)
    (v : Visited) (p : Program) (table : SymbolTable)
    → functions_parsed t.functions ≡ true
    → first_large stoi (functions_numerals t.functions) ≡ none
    → p ≡ program_at stoi sha256 v.made t
    → Symbols.build p ≡ Symbols.ok table
    → check p ≡ none
    → functions_plain p.functions ≡ true
    → functions_spared (function_names p.functions) table.fields p.functions ≡ true
    → (w : Visited) × (build stoi sha256 t v ≡ ok p w)
      × (cs : List TypeConstraint) × (collect table p ≡ some cs)
      × (n : ℕ) × (g : Generator) × (generate struct_size table.fields p ≡ Codegen.ok n g)
      × (shape g.calls ≡ some (record { opened = false; pending = []; count = g.blocks }))
      × (phis_agree g.calls ≡ true)
build-analyses-generate stoi sha256 struct_size t v p table parsed fits made b h plain s =
    let wf : well_formed p.functions ≡ true =
      ap (λ q. well_formed q.functions) made
      ∙ functions_at-well_formed stoi t.functions v.made parsed in
    let r =
      build_returns stoi sha256 t v
        (ground (arith, functions_fault_lem stoi t.functions parsed, fits)) in
    let g = analyses-generate struct_size p table wf b h plain s in
    let c = collect_defined p table b (well_formed-all_return p.functions wf) in
    (r.0, ground (arith, r.1, made), c.0, c.1, g.0, g.1, g.2, g.3, g.4)
