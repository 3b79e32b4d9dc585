-- ===== src/Builder/Laws.antt =====
-- The methods of `ASTBuilder` for statements, functions and programs give what Translation and Trees
-- say.
use sipc.Prelude.{
  Option-cases, inl, inr, ◌≡◌, refl, ℤ, ℕ, suc, String, Option, none, some, List, [], ◌∷◌, arith,
}
use sipc.Ast.{Program, Node, Function, Stmt, Expr, nil}
use sipc.Builder.{
  Start, NameTree, DeclarationTree, StmtTree, block_stmt, assign_stmt, update_stmt, while_stmt,
  for_each_stmt, for_range_stmt, for_by_stmt, if_stmt, if_else_stmt, output_stmt, error_stmt,
  StmtTrees, no_stmt, add_stmt, FunctionTree, ProgramTree,
}
use sipc.Builder.Visitor.{
  Exception, unknown_operator, op_string, node_at, Visited, Outcome, ok, throws, M, ◌>>=◌,
  make_stmt, expr_of, stmt_of, visit_name_declaration, visit_names, visit_declaration,
  visit_declarations,
}
use sipc.Builder.Visits.{
  visit_stmt, visit_stmts, visit_return_stmt, visit_function, visit_functions, build,
}
use sipc.Builder.Translation.{first, fault, stmt_fault, stmts_fault, functions_fault}
use sipc.Builder.Trees.{
  stmt_at, stmts_at, after_stmt, after_stmts, names_at, after_names, decls_at, after_decls,
  after_function, after_functions, function_at, functions_at, program_at,
}
use sipc.Builder.Rules.{
  Yields, Leaves, step, step_in, finish, end_with, read, attempt, done, make_stmt_lem,
  make_decl_node_lem, make_decl_stmt_lem, make_function_lem, report, expected,
}
use sipc.Builder.Expressions.{kept, visit_expr_lem}

abbrev kept_stmt : Visited → Option Stmt
kept_stmt v = v.visited_stmt

with_part :
    (s : Start) (f : Node → Expr → Stmt) {n k : ℕ} {m : M Unit} {x : Option Exception} {a : Expr}
    → Leaves kept n m x a k
    → Leaves kept_stmt n
        (expr_of m >>= λ r. make_stmt s (λ node. f node r))
        x
        (f (node_at k s) a)
        (suc k)
with_part s f p = finish kept_stmt _ (read kept p) (make_stmt_lem s _ _)

with_body :
    (s : Start) (f : Node → Stmt → Stmt) {n k : ℕ} {m : M Unit} {x : Option Exception} {a : Stmt}
    → Leaves kept_stmt n m x a k
    → Leaves kept_stmt n
        (stmt_of m >>= λ r. make_stmt s (λ node. f node r))
        x
        (f (node_at k s) a)
        (suc k)
with_body s f p = finish kept_stmt _ (read kept_stmt p) (make_stmt_lem s _ _)

module _ (stoi : String → Option ℤ) where
  mutual
    unfolding visit_stmt stmt_fault after_stmt stmt_at

    pub visit_stmt_lem :
        (t : StmtTree) (n : ℕ)
        → Leaves kept_stmt n
            (visit_stmt stoi t)
            (stmt_fault stoi t)
            (stmt_at stoi n t)
            (after_stmt t n)
    visit_stmt_lem (block_stmt s ss) n =
        finish kept_stmt _ (visit_stmts_lem ss n) (make_stmt_lem s _ _)
    visit_stmt_lem (assign_stmt s l r) n =
        step_in kept_stmt _ (read kept (visit_expr_lem stoi l n))
          (with_part s _ (visit_expr_lem stoi r _))
    visit_stmt_lem (update_stmt s e op) n =
        step_in kept_stmt _ (read kept (visit_expr_lem stoi e n)) (
          finish kept_stmt _ (attempt (unknown_operator op) "" (op_string op) _)
            (make_stmt_lem s _ _))
    visit_stmt_lem (while_stmt s c b) n =
        step_in kept_stmt _ (read kept (visit_expr_lem stoi c n))
          (with_body s _ (visit_stmt_lem b _))
    visit_stmt_lem (for_each_stmt s x e b) n =
        step_in kept_stmt _ (read kept (visit_expr_lem stoi x n)) (
          step_in kept_stmt _ (read kept (visit_expr_lem stoi e _))
            (with_body s _ (visit_stmt_lem b _)))
    visit_stmt_lem (for_range_stmt s x from to b) n =
        step_in kept_stmt _ (read kept (visit_expr_lem stoi x n)) (
          step_in kept_stmt _ (read kept (visit_expr_lem stoi from _)) (
            step_in kept_stmt _ (read kept (visit_expr_lem stoi to _))
              (with_body s _ (visit_stmt_lem b _))))
    visit_stmt_lem (for_by_stmt s x from to by b) n =
        step_in kept_stmt _ (read kept (visit_expr_lem stoi x n)) (
          step_in kept_stmt _ (read kept (visit_expr_lem stoi from _)) (
            step_in kept_stmt _ (read kept (visit_expr_lem stoi to _)) (
              step_in kept_stmt _ (read kept (visit_expr_lem stoi by _))
                (with_body s _ (visit_stmt_lem b _)))))
    visit_stmt_lem (if_stmt s c t) n =
        step_in kept_stmt _ (read kept (visit_expr_lem stoi c n))
          (with_body s _ (visit_stmt_lem t _))
    visit_stmt_lem (if_else_stmt s c t e) n =
        step_in kept_stmt _ (read kept (visit_expr_lem stoi c n)) (
          step_in kept_stmt _ (read kept_stmt (visit_stmt_lem t _))
            (with_body s _ (visit_stmt_lem e _)))
    visit_stmt_lem (output_stmt s e) n = with_part s _ (visit_expr_lem stoi e n)
    visit_stmt_lem (error_stmt s e) n = with_part s _ (visit_expr_lem stoi e n)

    pub visit_stmts_lem :
        (ts : StmtTrees) (n : ℕ)
        → Yields n
            (visit_stmts stoi ts)
            (stmts_fault stoi ts)
            (stmts_at stoi n ts)
            (after_stmts ts n)
    visit_stmts_lem no_stmt n = done nil n
    visit_stmts_lem (add_stmt t ts) n =
        step _ (read kept_stmt (visit_stmt_lem t n)) (end_with _ (visit_stmts_lem ts _))

visit_names_lem :
    (ds : List NameTree) (n : ℕ) → Yields n (visit_names ds) none (names_at n ds) (after_names ds n)
unfolding visit_names visit_name_declaration
visit_names_lem [] n = done [] n
visit_names_lem (d ∷ ds) n =
    step _ (read (λ v. v.visited_decl_node) (make_decl_node_lem d.start _ n))
      (end_with _ (visit_names_lem ds _))

visit_declarations_lem :
    (ds : List DeclarationTree) (n : ℕ)
    → Yields n (visit_declarations ds) none (decls_at n ds) (after_decls ds n)
unfolding visit_declarations visit_declaration
visit_declarations_lem [] n = done [] n
visit_declarations_lem (d ∷ ds) n =
    step _
      (read (λ v. v.visited_decl_stmt)
        (finish (λ v. v.visited_decl_stmt) _ (visit_names_lem d.names n)
          (make_decl_stmt_lem d.start _ _)))
      (end_with _ (visit_declarations_lem ds _))

module _ (stoi : String → Option ℤ) where
  visit_function_lem :
      (f : FunctionTree) (n : ℕ)
      → Leaves
          (λ v. v.visited_function)
          n
          (visit_function stoi f)
          (first (stmts_fault stoi f.statements) (fault stoi f.return_expr))
          (function_at stoi n f)
          (after_function f n)
  unfolding visit_function visit_name_declaration visit_return_stmt
  visit_function_lem f n =
      let get : Visited → Option Function = λ v. v.visited_function in
      step_in get _ (read (λ v. v.visited_decl_node) (make_decl_node_lem f.name.start _ n)) (
        step_in get _ (visit_names_lem f.params _) (
          step_in get _ (visit_declarations_lem f.declarations _) (
            step_in get _ (visit_stmts_lem stoi f.statements _) (
              finish get _
                (read kept_stmt (with_part f.return_start _ (visit_expr_lem stoi f.return_expr _)))
                (make_function_lem f.start _ _)))))

  visit_functions_lem :
      (fs : List FunctionTree) (n : ℕ)
      → Yields n
          (visit_functions stoi fs)
          (functions_fault stoi fs)
          (functions_at stoi n fs)
          (after_functions fs n)
  unfolding visit_functions functions_fault
  visit_functions_lem [] n = done [] n
  visit_functions_lem (f ∷ fs) n =
      step _ (read (λ v. v.visited_function) (visit_function_lem f n))
        (end_with _ (visit_functions_lem fs _))

-- Whatever earlier visits left in the variables, `build` throws the fault of the parse tree that is
-- met first, and without a fault it returns the tree that Trees describes and has made as many nodes
-- as Trees counts.
pub build_lem :
    (stoi : String → Option ℤ) (sha256 : String → String) (t : ProgramTree) (v : Visited)
    → report (build stoi sha256 t v)
      ≡ expected
          (functions_fault stoi t.functions)
          (program_at stoi sha256 v.made t)
          (after_functions t.functions v.made)
unfolding build
build_lem stoi sha256 t v = (end_with _ (visit_functions_lem stoi t.functions v.made)).run v refl

pub build_fails :
    (stoi : String → Option ℤ) (sha256 : String → String) (t : ProgramTree) (v : Visited)
    (e : Exception)
    → functions_fault stoi t.functions ≡ some e
    → build stoi sha256 t v ≡ throws e
build_fails stoi sha256 t v e h = by_outcome (build stoi sha256 t v) (build_lem stoi sha256 t v)
  where
    by_outcome :
        (o : Outcome Program)
        → report o
          ≡ expected
              (functions_fault stoi t.functions)
              (program_at stoi sha256 v.made t)
              (after_functions t.functions v.made)
        → o ≡ throws e
    by_outcome (ok p w) r = ground (arith, h, r)
    by_outcome (throws z) r = ground (arith, h, r)

pub build_returns :
    (stoi : String → Option ℤ) (sha256 : String → String) (t : ProgramTree) (v : Visited)
    → functions_fault stoi t.functions ≡ none
    → (w : Visited) × (build stoi sha256 t v ≡ ok (program_at stoi sha256 v.made t) w)
build_returns stoi sha256 t v h = by_outcome (build stoi sha256 t v) (build_lem stoi sha256 t v)
  where
    by_outcome :
        (o : Outcome Program)
        → report o
          ≡ expected
              (functions_fault stoi t.functions)
              (program_at stoi sha256 v.made t)
              (after_functions t.functions v.made)
        → (w : Visited) × (o ≡ ok (program_at stoi sha256 v.made t) w)
    by_outcome (ok p w) r = (w, ground (arith, h, r))
    by_outcome (throws z) r = absurd (ground (arith, h, r))

pub build_gives :
    (stoi : String → Option ℤ) (sha256 : String → String) (t : ProgramTree) (v : Visited)
    (p : Program) (w : Visited)
    → build stoi sha256 t v ≡ ok p w
    → p ≡ program_at stoi sha256 v.made t
build_gives stoi sha256 t v p w h = elim (Option-cases (functions_fault stoi t.functions)) [
  | inl e ↦ ground (arith, h, (build_returns stoi sha256 t v e).1)
  | inr (x, e) ↦ absurd (ground (arith, h, build_fails stoi sha256 t v x e))
]
