-- ===== src/Printer/Render.antt =====
-- The text of a program by recursion on its syntax, with the level of indentation as an argument:
-- a description to hold the visitor of src/frontend/prettyprint/PrettyPrinter.cpp against.
use sipc.Prelude.{concat, ℕ, suc, String, Option, none, some, List, [], ◌∷◌, if◌then◌else◌}
use sipc.Ast.{
  DeclNode, DeclStmt, Expr, Exprs, Fields, Stmt, Stmts, Function, Program, number, boolean,
  variable, binary, ternary, input, null, fun_app, alloc, ref, deref, negation, minus, array,
  array_len, array_of, indexing, rec, access, nil, cons, end, field, assign, update, block, loop,
  for_each, for_range, if_then, if_else, output, error, return,
}
use sipc.Printer.{Style, indent, join}

-- The length of an array stands after its element, as the code prints it.
unfoldable mutual
  unfolding concat join

  pub render : Style → Expr → String
  render st (number n k) = st.to_string k
  render st (boolean n b) = if b then "true" else "false"
  render st (variable n x) = x
  render st (binary n op l r) = concat ("(" ∷ render st l ∷ " " ∷ op ∷ " " ∷ render st r ∷ ")" ∷ [])
  render st (ternary n c t e) =
      concat (render st c ∷ " ? " ∷ render st t ∷ " : " ∷ render st e ∷ [])
  render st (input n) = "input"
  render st (null n) = "null"
  render st (fun_app n f xs) =
      concat (render st f ∷ "(" ∷ join ", " 1 (render_all st xs) ∷ ")" ∷ [])
  render st (alloc n e) = concat ("alloc " ∷ render st e ∷ [])
  render st (ref n e) = concat ("&" ∷ render st e ∷ [])
  render st (deref n e) = concat ("*" ∷ render st e ∷ [])
  render st (negation n e) = concat ("(not " ∷ render st e ∷ ")" ∷ [])
  render st (minus n e) = concat ("-(" ∷ render st e ∷ ")" ∷ [])
  render st (array n xs) = concat ("[" ∷ join ", " 1 (render_all st xs) ∷ "]" ∷ [])
  render st (array_len n e) = concat ("#" ∷ render st e ∷ [])
  render st (array_of n a b) = concat ("[" ∷ render st b ∷ " of " ∷ render st a ∷ "]" ∷ [])
  render st (indexing n a i) = concat (render st a ∷ "[" ∷ render st i ∷ "]" ∷ [])
  render st (rec n fs) = concat ("{" ∷ join ", " 1 (render_fields st fs) ∷ "}" ∷ [])
  render st (access n e f) = concat (render st e ∷ "." ∷ f ∷ [])

  pub render_all : Style → Exprs → List String
  render_all st nil = []
  render_all st (cons e es) = render st e ∷ render_all st es

  pub render_fields : Style → Fields → List String
  render_fields st end = []
  render_fields st (field n s e fs) = concat (s ∷ ":" ∷ render st e ∷ []) ∷ render_fields st fs

unfoldable pub render_increment : Style → Option Expr → String
unfolding concat render
render_increment st none = ""
render_increment st (some e) = concat (" by " ∷ render st e ∷ [])

unfoldable pub render_range : Style → Expr → Expr → String
unfolding concat render
render_range st a b = concat (render st a ∷ ".." ∷ render st b ∷ [])

-- Statements of a block, and the statement under a condition, stand one level deeper.
unfoldable mutual
  unfolding concat join indent render render_increment render_range

  pub render_stmt : Style → ℕ → Stmt → String
  render_stmt st lv (assign n l r) =
      concat (indent st lv ∷ render st l ∷ " = " ∷ render st r ∷ ";" ∷ [])
  render_stmt st lv (update n e b) =
      concat (indent st lv ∷ render st e ∷ (if b then "++" else "--") ∷ ";" ∷ [])
  render_stmt st lv (block n ss) =
      concat
        (indent st lv ∷ "{\n" ∷ join "\n" 0 (render_stmts st (suc lv) ss) ∷ indent st lv ∷ "}" ∷ [])
  render_stmt st lv (loop n c s) =
      concat (indent st lv ∷ "while (" ∷ render st c ∷ ") \n" ∷ render_stmt st (suc lv) s ∷ [])
  render_stmt st lv (for_each n x e s) = concat (
      indent st lv
      ∷ "for ("
      ∷ render st x
      ∷ " : "
      ∷ render st e
      ∷ ""
      ∷ ") \n"
      ∷ render_stmt st (suc lv) s
      ∷ [])
  render_stmt st lv (for_range n x a b i s) = concat (
      indent st lv
      ∷ "for ("
      ∷ render st x
      ∷ " : "
      ∷ render_range st a b
      ∷ render_increment st i
      ∷ ") \n"
      ∷ render_stmt st (suc lv) s
      ∷ [])
  render_stmt st lv (if_then n c s) =
      concat (indent st lv ∷ "if (" ∷ render st c ∷ ") \n" ∷ render_stmt st (suc lv) s ∷ [])
  render_stmt st lv (if_else n c s t) = concat (
      indent st lv
      ∷ "if ("
      ∷ render st c
      ∷ ") \n"
      ∷ render_stmt st (suc lv) s
      ∷ "\n"
      ∷ indent st lv
      ∷ "else\n"
      ∷ render_stmt st (suc lv) t
      ∷ [])
  render_stmt st lv (output n e) = concat (indent st lv ∷ "output " ∷ render st e ∷ ";" ∷ [])
  render_stmt st lv (error n e) = concat (indent st lv ∷ "error " ∷ render st e ∷ ";" ∷ [])
  render_stmt st lv (return n e) = concat (indent st lv ∷ "return " ∷ render st e ∷ ";" ∷ [])

  pub render_stmts : Style → ℕ → Stmts → List String
  render_stmts st lv nil = []
  render_stmts st lv (cons s ss) = render_stmt st lv s ∷ render_stmts st lv ss

unfoldable pub render_names : List DeclNode → List String
render_names [] = []
render_names (d ∷ ds) = d.name ∷ render_names ds

unfoldable pub render_decls : Style → ℕ → List DeclStmt → List String
unfolding concat join indent render_names
render_decls st lv [] = []
render_decls st lv (d ∷ ds) =
    concat (indent st lv ∷ "var " ∷ join ", " 1 (render_names d.vars) ∷ ";" ∷ [])
    ∷ render_decls st lv ds

unfoldable pub render_function : Style → Function → String
unfolding concat join render_names render_decls render_stmts
render_function st f = concat (
    f.decl.name
    ∷ "("
    ∷ join ", " 1 (render_names f.formals)
    ∷ ") "
    ∷ (if f.is_poly then "poly" else "")
    ∷ "\n{\n"
    ∷ join "\n" 0 (render_decls st 1 f.declarations)
    ∷ join "\n" 0 (render_stmts st 1 f.stmts)
    ∷ "}\n"
    ∷ [])

unfoldable pub render_functions : Style → List Function → List String
unfolding render_function
render_functions st [] = []
render_functions st (f ∷ fs) = render_function st f ∷ render_functions st fs

unfoldable pub render_program : Style → Program → String
unfolding render_functions join
render_program st p = join "\n" 1 (render_functions st p.functions)
