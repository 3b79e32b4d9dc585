-- ===== src/Printer/Steps.antt =====
-- The `visit` and `endVisit` methods of src/frontend/prettyprint/PrettyPrinter.cpp, and `print`.
use sipc.Prelude.{
  concat, ℕ, suc, ◌-◌, Bool, true, false, String, Option, none, some, List, [], ◌∷◌, if◌then◌else◌,
  length,
}
use sipc.Ast.{
  DeclStmt, Expr, Exprs, Fields, Stmt, Stmts, Function, Program, number, boolean, variable, binary,
  ternary, input, null, fun_app, alloc, ref, deref, negation, minus, array, array_len, array_of,
  indexing, rec, access, nil, cons, end, field, assign, update, block, loop, for_each, for_range,
  if_then, if_else, output, error, return, Event, leave_expr, leave_field, visit_stmt, leave_stmt,
  leave_decl, leave_decl_stmt, visit_function, leave_function, accept_program,
}
use sipc.Printer.{◌>>=◌, Style, Printer, indent, push, split, join, join_with_delim, pop}

unfoldable pub exprs_size : Exprs → ℕ
exprs_size nil = 0
exprs_size (cons e es) = suc (exprs_size es)

unfoldable pub fields_size : Fields → ℕ
fields_size end = 0
fields_size (field n s e fs) = suc (fields_size fs)

unfoldable pub stmts_size : Stmts → ℕ
stmts_size nil = 0
stmts_size (cons s ss) = suc (stmts_size ss)

-- An `endVisit` that replaces the text of one child, and of two, in their order.
unfoldable pub end_one : (String → List String) → Printer → Option Printer
unfolding pop push concat
end_one f p = pop p >>= λ a. some (push (concat (f (a.0))) (a.1))

unfoldable pub end_two : (String → String → List String) → Printer → Option Printer
unfolding pop push concat
end_two f p = pop p >>= λ right.
    pop (right.1) >>= λ left. some (push (concat (f (left.0) (right.0))) (left.1))

unfoldable pub end_ternary : Printer → Option Printer
unfolding pop push concat
end_ternary p = pop p >>= λ e. pop (e.1) >>= λ t.
    pop (t.1) >>= λ c. some (push (concat (c.0 ∷ " ? " ∷ t.0 ∷ " : " ∷ e.0 ∷ [])) (c.1))

-- `visitResults.back() +=`.
unfoldable pub extend_back : List String → List String → Option (List String)
unfolding concat
extend_back ss [] = none
extend_back ss (s ∷ rest) = some (concat (s ∷ ss) ∷ rest)

unfoldable pub end_fun_app : Exprs → Printer → Option Printer
unfolding join_with_delim exprs_size extend_back
end_fun_app xs p = join_with_delim p.results ", " (exprs_size xs) 1 >>= λ j.
    extend_back ("(" ∷ j.0 ∷ ")" ∷ []) (j.1) >>= λ rs. some (record p { results = rs })

unfoldable pub end_array : Exprs → Printer → Option Printer
unfolding split join exprs_size concat
end_array xs p = split (exprs_size xs) [] p.results >>= λ j.
    some (record p { results = concat ("[" ∷ join ", " 1 (j.0) ∷ "]" ∷ []) ∷ j.1 })

unfoldable pub end_rec : Fields → Printer → Option Printer
unfolding join_with_delim fields_size concat
end_rec fs p = join_with_delim p.results ", " (fields_size fs) 1 >>= λ j.
    some (record p { results = concat ("{" ∷ j.0 ∷ "}" ∷ []) ∷ j.1 })

unfoldable pub end_expr : Style → Expr → Printer → Option Printer
unfolding push end_one end_two end_ternary end_fun_app end_array end_rec
end_expr st (number n k) p = some (push (st.to_string k) p)
end_expr st (boolean n b) p = some (push (if b then "true" else "false") p)
end_expr st (variable n x) p = some (push x p)
end_expr st (binary n op l r) p = end_two (λ a b. "(" ∷ a ∷ " " ∷ op ∷ " " ∷ b ∷ ")" ∷ []) p
end_expr st (ternary n c t e) p = end_ternary p
end_expr st (input n) p = some (push "input" p)
end_expr st (null n) p = some (push "null" p)
end_expr st (fun_app n f xs) p = end_fun_app xs p
end_expr st (alloc n e) p = end_one (λ a. "alloc " ∷ a ∷ []) p
end_expr st (ref n e) p = end_one (λ a. "&" ∷ a ∷ []) p
end_expr st (deref n e) p = end_one (λ a. "*" ∷ a ∷ []) p
end_expr st (negation n e) p = end_one (λ a. "(not " ∷ a ∷ ")" ∷ []) p
end_expr st (minus n e) p = end_one (λ a. "-(" ∷ a ∷ ")" ∷ []) p
end_expr st (array n xs) p = end_array xs p
end_expr st (array_len n e) p = end_one (λ a. "#" ∷ a ∷ []) p
end_expr st (array_of n a b) p = end_two (λ b2 base. "[" ∷ base ∷ " of " ∷ b2 ∷ "]" ∷ []) p
end_expr st (indexing n a i) p = end_two (λ base index. base ∷ "[" ∷ index ∷ "]" ∷ []) p
end_expr st (rec n fs) p = end_rec fs p
end_expr st (access n e f) p = end_one (λ a. a ∷ "." ∷ f ∷ []) p

unfoldable pub end_decl_stmt : Style → DeclStmt → Printer → Option Printer
unfolding join_with_delim indent concat
end_decl_stmt st d p = join_with_delim p.results ", " (length d.vars) 1 >>= λ j.
    some (record p { results = concat (indent st p.level ∷ "var " ∷ j.0 ∷ ";" ∷ []) ∷ j.1 })

unfoldable pub end_update : Style → Bool → Printer → Option Printer
unfolding end_one indent
end_update st increment p =
    end_one (λ a. indent st p.level ∷ a ∷ (if increment then "++" else "--") ∷ ";" ∷ []) p

unfoldable pub end_assign : Style → Printer → Option Printer
unfolding end_two indent
end_assign st p = end_two (λ l r. indent st p.level ∷ l ∷ " = " ∷ r ∷ ";" ∷ []) p

-- `indentLevel++`, in `visit` of a block, `while`, `for`, `if` and a function, and `indentLevel--`.
unfoldable pub deeper : Printer → Printer
deeper p = record p { level = suc p.level }

unfoldable pub shallower : Printer → Printer
shallower p = record p { level = p.level - 1 }

unfoldable pub end_block : Style → Stmts → Printer → Option Printer
unfolding shallower join_with_delim stmts_size indent concat
end_block st ss p =
    let q = shallower p in
    join_with_delim q.results "\n" (stmts_size ss) 0 >>= λ j. some (record q {
      results = concat (indent st q.level ∷ "{\n" ∷ j.0 ∷ indent st q.level ∷ "}" ∷ []) ∷ j.1;
    })

unfoldable pub end_while : Style → Printer → Option Printer
unfolding shallower end_two indent
end_while st p =
    let q = shallower p in
    end_two (λ c body. indent st q.level ∷ "while (" ∷ c ∷ ") \n" ∷ body ∷ []) q

-- The text of the increment, and of the iterator or range.
unfoldable pub pop_increment : Option Expr → Printer → Option (String × Printer)
unfolding pop concat
pop_increment none p = some ("", p)
pop_increment (some e) p = pop p >>= λ a. some (concat (" by " ∷ a.0 ∷ []), a.1)

unfoldable pub pop_range : Printer → Option (String × Printer)
unfolding pop concat
pop_range p = pop p >>= λ stop.
    pop (stop.1) >>= λ start. some (concat (start.0 ∷ ".." ∷ stop.0 ∷ []), start.1)

unfoldable pub end_for : Style → Option Expr → Bool → Printer → Option Printer
unfolding shallower pop push pop_increment pop_range indent concat
end_for st increment has_iterator p = pop p >>= λ body. pop_increment increment (body.1) >>= λ inc.
    (if has_iterator then pop (inc.1) else pop_range (inc.1)) >>= λ iter. pop (iter.1) >>= λ item.
    let q = shallower (item.1) in
    some (
      push
        (concat
          (indent st q.level ∷ "for (" ∷ item.0 ∷ " : " ∷ iter.0 ∷ inc.0 ∷ ") \n" ∷ body.0 ∷ []))
        q)

unfoldable pub end_if_then : Style → Printer → Option Printer
unfolding shallower end_two indent
end_if_then st p =
    let q = shallower p in end_two (λ c t. indent st q.level ∷ "if (" ∷ c ∷ ") \n" ∷ t ∷ []) q

unfoldable pub end_if_else : Style → Printer → Option Printer
unfolding shallower pop push indent concat
end_if_else st p = pop p >>= λ e. pop (e.1) >>= λ t. pop (t.1) >>= λ c.
    let q = shallower (c.1) in
    some (
      push
        (concat (
          indent st q.level
          ∷ "if ("
          ∷ c.0
          ∷ ") \n"
          ∷ t.0
          ∷ "\n"
          ∷ indent st q.level
          ∷ "else\n"
          ∷ e.0
          ∷ []))
        q)

-- `output`, `error` and `return`.
unfoldable pub end_word : Style → String → Printer → Option Printer
unfolding end_one indent
end_word st word p = end_one (λ a. indent st p.level ∷ word ∷ a ∷ ";" ∷ []) p

unfoldable pub end_stmt : Style → Stmt → Printer → Option Printer
unfolding end_assign end_update end_block end_while end_for end_if_then end_if_else end_word
end_stmt st (assign n l r) p = end_assign st p
end_stmt st (update n e b) p = end_update st b p
end_stmt st (block n ss) p = end_block st ss p
end_stmt st (loop n c s) p = end_while st p
end_stmt st (for_each n x e s) p = end_for st none true p
end_stmt st (for_range n x a b i s) p = end_for st i false p
end_stmt st (if_then n c s) p = end_if_then st p
end_stmt st (if_else n c s t) p = end_if_else st p
end_stmt st (output n e) p = end_word st "output " p
end_stmt st (error n e) p = end_word st "error " p
end_stmt st (return n e) p = end_word st "return " p

unfoldable pub visit : Stmt → Printer → Printer
unfolding deeper
visit (block n ss) p = deeper p
visit (loop n c s) p = deeper p
visit (for_each n x e s) p = deeper p
visit (for_range n x a b i s) p = deeper p
visit (if_then n c s) p = deeper p
visit (if_else n c s t) p = deeper p
visit _ p = p

-- The body, the declarations and the formals come off the stack in this order.
unfoldable pub end_function : Function → Printer → Option Printer
unfolding shallower join_with_delim stmts_size extend_back
end_function f p = join_with_delim p.results "\n" (stmts_size f.stmts) 0 >>= λ body.
    join_with_delim (body.1) "\n" (length f.declarations) 0 >>= λ decls.
    join_with_delim (decls.1) ", " (length f.formals) 1 >>= λ formals.
    extend_back
      ("("
        ∷ formals.0
        ∷ ") "
        ∷ (if f.is_poly then "poly" else "")
        ∷ "\n{\n"
        ∷ decls.0
        ∷ body.0
        ∷ "}\n"
        ∷ [])
      (formals.1)
    >>= λ rs. some (shallower (record p { results = rs }))

unfoldable pub step : Style → Event → Printer → Option Printer
unfolding end_expr end_one push visit end_stmt end_decl_stmt deeper end_function
step st (leave_expr e) p = end_expr st e p
step st (leave_field n s e) p = end_one (λ a. s ∷ ":" ∷ a ∷ []) p
step st (visit_stmt s) p = some (visit s p)
step st (leave_stmt s) p = end_stmt st s p
step st (leave_decl d) p = some (push d.name p)
step st (leave_decl_stmt d) p = end_decl_stmt st d p
step st (visit_function f) p = some (deeper p)
step st (leave_function f) p = end_function f p
step st _ p = some p

unfoldable pub steps : Style → List Event → Printer → Option Printer
unfolding step
steps st [] p = some p
steps st (e ∷ es) p = step st e p >>= steps st es

-- The text that is written to the stream.
unfoldable pub print : Style → Program → Option String
unfolding steps accept_program join_with_delim
print st program = steps st (accept_program program) (record { results = []; level = 0 }) >>= λ p.
    join_with_delim p.results "\n" (length program.functions) 1 >>= λ j. some (j.0)
