-- ===== src/Examples/Printing.antt =====
-- A small program, `f(a) { while (a) a++; return -(a); }`, printed and gone through.
use sipc.Prelude.{ℕ, true, false, ◌≡◌, ◌≢◌, refl, none, some, List, [], ◌∷◌, map, arith}
use sipc.Ast.{
  Node, DeclNode, variable, minus, Stmts, update, loop, return, nil, cons, Function, Program,
}
use sipc.Printer.{Style, indent}
use sipc.Printer.Steps.{print}
use sipc.Printer.Render.{render_program}
use sipc.Printer.Laws.{print_lem}
use sipc.Iterator.{AstNode, program, begin, walk}
use sipc.Iterator.PreOrder.{PreOrder, walk-PreOrder}

abbrev pub at : ℕ → Node
at n = record { address = n; line = 1; column = n }

abbrev pub name : ℕ → DeclNode
name n = record { node = at n; name = "a" }

abbrev body : Stmts
body =
    cons (loop (at 4) (variable (at 5) "a") (update (at 6) (variable (at 7) "a") true))
      (cons (return (at 8) (minus (at 9) (variable (at 10) "a"))) nil)

abbrev negate : Function
negate = record {
  node = at 1;
  decl = record { node = at 2; name = "f" };
  formals = name 3 ∷ [];
  declarations = [];
  stmts = body;
  is_poly = false;
}

abbrev pub one : Program
one = record { name = "one"; functions = negate ∷ [] }

abbrev style : Style
style = record { to_string = λ k. "0"; indent_char = " "; indent_size = 2 }

print_lem_example :
    (one.functions ≢ [] → print style one ≡ some (render_program style one))
    × (one.functions ≡ [] → print style one ≡ none)
print_lem_example = print_lem style one

printed : render_program style one ≡ "f(a) \n{\n  while (a) \n    a++;\n  return -(a);\n}\n"
unfolding render_program indent
printed = refl

walk-PreOrder_example :
    (ns : List AstNode) × (walk 20 (begin (program 0 one)) ≡ some (map some ns))
    × PreOrder (program 0 one) ns
walk-PreOrder_example = walk-PreOrder (program 0 one) 20 (omega arith)
