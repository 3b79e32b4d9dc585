-- ===== src/Printer/Laws.antt =====
-- The printer of src/frontend/prettyprint/PrettyPrinter.cpp over statements, functions and programs.
use sipc.Prelude.{
  concat, ◌≡◌, ◌≢◌, refl, ap, ℕ, suc, ◌-◌, String, none, some, List, [], ◌∷◌, ◌++◌, length, arith,
}
use sipc.Ast.{
  DeclNode, DeclStmt, Stmt, Stmts, Function, Program, nil, cons, assign, update, block, loop,
  for_each, for_range, if_then, if_else, output, error, return, leave_decl_stmt, leave_function,
  accept_increment, accept_stmt, accept_stmts, accept_decls, accept_decl_stmts, accept_function,
  accept_functions, accept_program,
}
use sipc.Printer.{Style, indent, push, join, join_with_delim, pop}
use sipc.Printer.Render.{
  render_increment, render_range, render_stmt, render_stmts, render_names, render_decls,
  render_function, render_functions, render_program,
}
use sipc.Printer.Steps.{
  stmts_size, end_one, end_two, extend_back, end_decl_stmt, end_update, end_assign, deeper,
  shallower, end_block, end_while, pop_increment, pop_range, end_for, end_if_then, end_if_else,
  end_word, end_stmt, visit, end_function, step, steps, print,
}
use sipc.Printer.Expressions.{
  at, onto, steps-++, split-onto_all, onto_nonempty, join-onto, Goes, ◌then◌, before, last, nothing,
  expr_lem,
}

length-render_stmts :
    (st : Style) (lv : ℕ) (ss : Stmts) → length (render_stmts st lv ss) ≡ stmts_size ss
unfolding render_stmts stmts_size
length-render_stmts st lv nil = refl
length-render_stmts st lv (cons s ss) = ap suc (length-render_stmts st lv ss)

pred_suc : (lv : ℕ) → suc lv - 1 ≡ lv
pred_suc lv = omega arith

mutual
  unfolding step visit end_stmt end_assign end_update end_block end_while end_for end_if_then
      end_if_else end_word render_stmt render_stmts render_increment render_range accept_stmt
      accept_stmts accept_increment end_one end_two push pop deeper shallower pop_increment
      pop_range

  stmt_lem :
      (st : Style) (s : Stmt) (b : String) (bs : List String) (lv : ℕ)
      → Goes st (accept_stmt s) (at b bs lv) (at (render_stmt st lv s) (b ∷ bs) lv)
  stmt_lem st (assign n l r) b bs lv =
      before refl (expr_lem st l b bs lv then expr_lem st r _ _ lv then last refl)
  stmt_lem st (update n e u) b bs lv = before refl (expr_lem st e b bs lv then last refl)
  stmt_lem st (output n e) b bs lv = before refl (expr_lem st e b bs lv then last refl)
  stmt_lem st (error n e) b bs lv = before refl (expr_lem st e b bs lv then last refl)
  stmt_lem st (return n e) b bs lv = before refl (expr_lem st e b bs lv then last refl)
  stmt_lem st (block n ss) b bs lv = before refl (
      stmts_lem st ss b bs (suc lv)
      then last (
          ground (
            arith,
            length-render_stmts st (suc lv) ss,
            join-onto (render_stmts st (suc lv) ss) b bs "\n",
            pred_suc lv,
          )))
  stmt_lem st (loop n c s) b bs lv = before refl (
      expr_lem st c b bs (suc lv)
      then stmt_lem st s _ _ (suc lv)
      then last (ground (arith, pred_suc lv)))
  stmt_lem st (for_each n x e s) b bs lv = before refl (
      expr_lem st x b bs (suc lv)
      then expr_lem st e _ _ (suc lv)
      then stmt_lem st s _ _ (suc lv)
      then last (ground (arith, pred_suc lv)))
  stmt_lem st (for_range n x a z none s) b bs lv = before refl (
      expr_lem st x b bs (suc lv)
      then expr_lem st a _ _ (suc lv)
      then expr_lem st z _ _ (suc lv)
      then stmt_lem st s _ _ (suc lv)
      then last (ground (arith, pred_suc lv)))
  stmt_lem st (for_range n x a z (some i) s) b bs lv = before refl (
      expr_lem st x b bs (suc lv)
      then expr_lem st a _ _ (suc lv)
      then expr_lem st z _ _ (suc lv)
      then expr_lem st i _ _ (suc lv)
      then stmt_lem st s _ _ (suc lv)
      then last (ground (arith, pred_suc lv)))
  stmt_lem st (if_then n c s) b bs lv = before refl (
      expr_lem st c b bs (suc lv)
      then stmt_lem st s _ _ (suc lv)
      then last (ground (arith, pred_suc lv)))
  stmt_lem st (if_else n c s t) b bs lv = before refl (
      expr_lem st c b bs (suc lv)
      then stmt_lem st s _ _ (suc lv)
      then stmt_lem st t _ _ (suc lv)
      then last (ground (arith, pred_suc lv)))

  stmts_lem :
      (st : Style) (ss : Stmts) (b : String) (bs : List String) (lv : ℕ)
      → Goes st
          (accept_stmts ss)
          (at b bs lv)
          (record { results = onto (render_stmts st lv ss) b bs; level = lv })
  stmts_lem st nil b bs lv = nothing
  stmts_lem st (cons s ss) b bs lv = stmt_lem st s b bs lv then stmts_lem st ss _ _ lv

decls_lem :
    (st : Style) (ds : List DeclNode) (b : String) (bs : List String) (lv : ℕ)
    → steps st (accept_decls ds) (at b bs lv)
      ≡ some (record { results = onto (render_names ds) b bs; level = lv })
unfolding steps step accept_decls render_names push
decls_lem st [] b bs lv = refl
decls_lem st (d ∷ ds) b bs lv = decls_lem st ds d.name (b ∷ bs) lv

length-render_names : (ds : List DeclNode) → length (render_names ds) ≡ length ds
unfolding render_names
length-render_names [] = refl
length-render_names (d ∷ ds) = ap suc (length-render_names ds)

decl_stmts_lem :
    (st : Style) (ds : List DeclStmt) (b : String) (bs : List String) (lv : ℕ)
    → steps st (accept_decl_stmts ds) (at b bs lv)
      ≡ some (record { results = onto (render_decls st lv ds) b bs; level = lv })
unfolding steps step accept_decl_stmts render_decls end_decl_stmt
decl_stmts_lem st [] b bs lv = refl
decl_stmts_lem st (d ∷ ds) b bs lv = ground (
  arith,
  steps-++ st (accept_decls d.vars) (leave_decl_stmt d ∷ accept_decl_stmts ds) (at b bs lv),
  decls_lem st d.vars b bs lv,
  length-render_names d.vars,
  join-onto (render_names d.vars) b bs ", ",
  decl_stmts_lem st ds
      (concat (indent st lv ∷ "var " ∷ join ", " 1 (render_names d.vars) ∷ ";" ∷ [])) (b ∷ bs) lv,
)

length-render_decls :
    (st : Style) (lv : ℕ) (ds : List DeclStmt) → length (render_decls st lv ds) ≡ length ds
unfolding render_decls
length-render_decls st lv [] = refl
length-render_decls st lv (d ∷ ds) = ap suc (length-render_decls st lv ds)

onto_top :
    (ss : List String) (b : String) (bs : List String)
    → (t : String) × (r : List String) × (onto ss b bs ≡ t ∷ r)
onto_top [] b bs = (b, bs, refl)
onto_top (s ∷ ss) b bs = onto_top ss s (b ∷ bs)

-- The events between those that enter and leave a function.
body_lem :
    (st : Style) (f : Function) (name : String) (rs : List String)
    → (t : String) × (r : List String) × (u : String) × (q : List String) × (steps st
          (accept_decls f.formals
            ++ (accept_decl_stmts f.declarations
                ++ (accept_stmts f.stmts ++ leave_function f ∷ [])))
          (at name rs 1)
        ≡ steps st
            (leave_function f ∷ [])
            (record { results = onto (render_stmts st 1 f.stmts) u q; level = 1 }))
      × (onto (render_names f.formals) name rs ≡ t ∷ r)
      × (onto (render_decls st 1 f.declarations) t r ≡ u ∷ q)
body_lem st f name rs =
    let a = onto_top (render_names f.formals) name rs in
    let c = onto_top (render_decls st 1 f.declarations) (a.0) (a.1) in
    (
      a.0,
      a.1,
      c.0,
      c.1,
      ground (
        arith,
        steps-++ st (accept_decls f.formals)
            (accept_decl_stmts f.declarations ++ (accept_stmts f.stmts ++ leave_function f ∷ []))
            (at name rs 1),
        decls_lem st f.formals name rs 1,
        a.2,
        steps-++ st (accept_decl_stmts f.declarations)
            (accept_stmts f.stmts ++ leave_function f ∷ []) (at (a.0) (a.1) 1),
        decl_stmts_lem st f.declarations (a.0) (a.1) 1,
        c.2,
        steps-++ st (accept_stmts f.stmts) (leave_function f ∷ []) (at (c.0) (c.1) 1),
        (stmts_lem st f.stmts (c.0) (c.1) 1).run,
      ),
      a.2,
      c.2,
    )

function_lem :
    (st : Style) (f : Function) (rs : List String)
    → steps st (accept_function f) (record { results = rs; level = 0 })
      ≡ some (record { results = render_function st f ∷ rs; level = 0 })
unfolding steps step accept_function end_function render_function push deeper shallower extend_back
function_lem st f rs =
    let h = body_lem st f f.decl.name rs in
    ground (
      arith,
      h.4,
      h.5,
      h.6,
      join-onto (render_stmts st 1 f.stmts) (h.2) (h.3) "\n",
      length-render_stmts st 1 f.stmts,
      join-onto (render_decls st 1 f.declarations) (h.0) (h.1) "\n",
      length-render_decls st 1 f.declarations,
      join-onto (render_names f.formals) f.decl.name rs ", ",
      length-render_names f.formals,
    )

abbrev pile : List String → List String → List String
pile [] rs = rs
pile (s ∷ ss) rs = pile ss (s ∷ rs)

functions_lem :
    (st : Style) (fs : List Function) (rs : List String)
    → steps st (accept_functions fs) (record { results = rs; level = 0 })
      ≡ some (record { results = pile (render_functions st fs) rs; level = 0 })
unfolding steps accept_functions render_functions
functions_lem st [] rs = refl
functions_lem st (f ∷ fs) rs = ground (
  arith,
  steps-++ st (accept_function f) (accept_functions fs) (record { results = rs; level = 0 }),
  function_lem st f rs,
  functions_lem st fs (render_function st f ∷ rs),
)

length-render_functions :
    (st : Style) (fs : List Function) → length (render_functions st fs) ≡ length fs
unfolding render_functions
length-render_functions st [] = refl
length-render_functions st (f ∷ fs) = ap suc (length-render_functions st fs)

pile-onto : (ss : List String) (b : String) (bs : List String) → pile ss (b ∷ bs) ≡ onto ss b bs
pile-onto [] b bs = refl
pile-onto (s ∷ ss) b bs = pile-onto ss s (b ∷ bs)

print_functions :
    (st : Style) (p : Program) (f : Function) (fs : List Function)
    → p.functions ≡ f ∷ fs
    → print st p ≡ some (render_program st p)
unfolding print render_program render_functions accept_program join_with_delim
print_functions st p f fs e = ground (
  arith,
  functions_lem st p.functions [],
  e,
  pile-onto (render_functions st fs) (render_function st f) [],
  split-onto_all (render_functions st fs) (render_function st f) [],
  onto_nonempty (render_functions st fs) (render_function st f) [],
  length-render_functions st fs,
)

-- The printer writes, for every program that has a function, the text that the recursion on its
-- syntax gives; for a program without functions its behaviour is undefined.
pub print_lem :
    (st : Style) (p : Program)
    → (p.functions ≢ [] → print st p ≡ some (render_program st p))
      × (p.functions ≡ [] → print st p ≡ none)
unfolding print steps accept_program accept_functions join_with_delim
print_lem st p = (λ h. split_on p.functions refl h, λ e. ground (arith, e))
  where
    split_on :
        (fs : List Function)
        → p.functions ≡ fs
        → p.functions ≢ []
        → print st p ≡ some (render_program st p)
    split_on [] e h = absurd (h e)
    split_on (f ∷ fs) e h = print_functions st p f fs e
