-- ===== src/Builder/Numbering.antt =====
-- The addresses of the nodes that ASTBuilder makes, which the analyses take as keys: each node of a tree
-- is an object of its own. The proof counts the nodes in the order in which `accept` leaves them.
use sipc.Prelude.{
  Bool, true, false, not, ◌&&◌, ◌<◌, ◌==◌, ==_iff, if◌then◌else◌, ◌≡◌, refl, ap, sym, ◌∙◌, subst, ℤ,
  ℕ, suc, ◌≤◌, String, Option, none, some, List, [], ◌∷◌, ◌++◌, arith,
}
use sipc.Ast.{
  Node, Program, Expr, return, Event, leave_expr, leave_field, leave_stmt, leave_decl,
  leave_decl_stmt, leave_function, accept_expr, accept_exprs, accept_fields, accept_increment,
  accept_stmt, accept_stmts, accept_decls, accept_decl_stmts, accept_function, accept_functions,
  accept_program,
}
use sipc.Iterator.{expr_node, stmt_node}
use sipc.Builder.{
  DeclarationTree, NameTree, ExprTree, fun_app_expr, access_expr, deref_expr, neg_expr, ref_expr,
  array_len_expr, not_expr, alloc_expr, paren_expr, array_indexing_expr, array_of_expr, neg_number,
  num_expr, var_expr, bool_expr, multiplicative_expr, additive_expr, relational_expr, equality_expr,
  bool_ops, non_short_circuiting, ternary_expr, input_expr, null_expr, record_rule, array_literal,
  ExprTrees, no_expr, add_expr, FieldTrees, no_field, add_field, StmtTree, block_stmt, assign_stmt,
  update_stmt, while_stmt, for_each_stmt, for_range_stmt, for_by_stmt, if_stmt, if_else_stmt,
  output_stmt, error_stmt, StmtTrees, no_stmt, add_stmt, FunctionTree, ProgramTree,
}
use sipc.Builder.Visitor.{Exception, Visited, ok}
use sipc.Builder.Visits.{push_back, build}
use sipc.Builder.Rules.{Report, gives, fails, report, expected}
use sipc.Builder.Laws.{build_lem}
use sipc.Builder.Translation.{functions_fault, after, after_all, after_fields}
use sipc.Builder.Trees.{
  expr_at, exprs_at, fields_at, stmt_at, stmts_at, after_stmt, after_stmts, names_at, after_names,
  decls_at, after_decls, body_start, return_at, after_function, function_at, functions_at,
  after_functions, program_at,
}

-- The address of the node that an event leaves.
unfoldable pub left_by : Event → Option ℕ
unfolding expr_node stmt_node
left_by (leave_expr e) = some (expr_node e).address
left_by (leave_field n s e) = some n.address
left_by (leave_stmt s) = some (stmt_node s).address
left_by (leave_decl d) = some d.node.address
left_by (leave_decl_stmt d) = some d.node.address
left_by (leave_function f) = some f.node.address
left_by _ = none

-- From `lo` on and below `hi`, each address is greater than those before it.
data Rises : ℕ → List Event → ℕ → Type 0 where
  done : {lo hi : ℕ} → lo ≤ hi → Rises lo [] hi
  pass :
      {lo hi : ℕ} {e : Event} {es : List Event}
      → left_by e ≡ none
      → Rises lo es hi
      → Rises lo (e ∷ es) hi
  leave :
      {lo hi a : ℕ} {e : Event} {es : List Event}
      → left_by e ≡ some a
      → lo ≤ a
      → Rises (suc a) es hi
      → Rises lo (e ∷ es) hi

weaken : {es : List Event} {lo hi : ℕ} (k : ℕ) → k ≤ lo → Rises lo es hi → Rises k es hi
weaken k g (done h) = done (omega arith)
weaken k g (pass e h) = pass e (weaken k g h)
weaken k g (leave e l h) = leave e (omega arith) h

bound : {es : List Event} {lo hi : ℕ} → Rises lo es hi → lo ≤ hi
bound (done h) = h
bound (pass e h) = bound h
bound (leave e l h) = let b = bound h in omega arith

infixr 5 ◌then◌
◌then◌ :
    {xs ys : List Event} {lo mid hi : ℕ}
    → Rises lo xs mid
    → Rises mid ys hi
    → Rises lo (xs ++ ys) hi
(done h) then k = weaken _ h k
(pass e h) then k = pass e (h then k)
(leave e l h) then k = leave e l (h then k)

abbrev parts : Report Program → Program × ℕ
parts (gives p k) = (p, k)
parts (fails e) = (record { name = ""; functions = [] }, 0)

-- The last event of a node, whose address is the next one.
last : {e : Event} (n : ℕ) → left_by e ≡ some n → Rises n (e ∷ []) (suc n)
last n h = leave h (omega arith) (done (omega arith))

module _ (stoi : String → Option ℤ) where
  mutual
    unfolding expr_at after accept_expr left_by

    expr_rises : (t : ExprTree) (n : ℕ) → Rises n (accept_expr (expr_at stoi n t)) (after t n)
    expr_rises (fun_app_expr s f xs) n =
        pass refl (expr_rises f n then exprs_rises xs _ then last _ refl)
    expr_rises (access_expr s e name) n = pass refl (expr_rises e n then last _ refl)
    expr_rises (paren_expr s e) n = expr_rises e n
    expr_rises (record_rule s fs) n = pass refl (fields_rises fs n then last _ refl)
    expr_rises (array_literal s xs) n = pass refl (exprs_rises xs n then last _ refl)
    expr_rises (non_short_circuiting s op l r) n =
        weaken n (bound (expr_rises l n)) (expr_rises r (after l n))
    expr_rises (ternary_expr s c t e) n =
        pass refl (expr_rises c n then expr_rises t _ then expr_rises e _ then last _ refl)
    expr_rises (deref_expr s e) n = pass refl (expr_rises e n then last _ refl)
    expr_rises (neg_expr s e) n = pass refl (expr_rises e n then last _ refl)
    expr_rises (ref_expr s e) n = pass refl (expr_rises e n then last _ refl)
    expr_rises (array_len_expr s e) n = pass refl (expr_rises e n then last _ refl)
    expr_rises (not_expr s e) n = pass refl (expr_rises e n then last _ refl)
    expr_rises (alloc_expr s e) n = pass refl (expr_rises e n then last _ refl)
    expr_rises (array_indexing_expr s l r) n =
        pass refl (expr_rises l n then expr_rises r _ then last _ refl)
    expr_rises (array_of_expr s l r) n =
        pass refl (expr_rises l n then expr_rises r _ then last _ refl)
    expr_rises (multiplicative_expr s op l r) n =
        pass refl (expr_rises l n then expr_rises r _ then last _ refl)
    expr_rises (additive_expr s op l r) n =
        pass refl (expr_rises l n then expr_rises r _ then last _ refl)
    expr_rises (relational_expr s op l r) n =
        pass refl (expr_rises l n then expr_rises r _ then last _ refl)
    expr_rises (equality_expr s op l r) n =
        pass refl (expr_rises l n then expr_rises r _ then last _ refl)
    expr_rises (bool_ops s op l r) n =
        pass refl (expr_rises l n then expr_rises r _ then last _ refl)
    expr_rises (neg_number s text) n = pass refl (last n refl)
    expr_rises (num_expr s text) n = pass refl (last n refl)
    expr_rises (var_expr s name) n = pass refl (last n refl)
    expr_rises (bool_expr s text) n = pass refl (last n refl)
    expr_rises (input_expr s) n = pass refl (last n refl)
    expr_rises (null_expr s) n = pass refl (last n refl)

    exprs_rises :
        (ts : ExprTrees) (n : ℕ) → Rises n (accept_exprs (exprs_at stoi n ts)) (after_all ts n)
    exprs_rises no_expr n = done (omega arith)
    exprs_rises (add_expr t ts) n = expr_rises t n then exprs_rises ts _

    fields_rises :
        (ts : FieldTrees) (n : ℕ)
        → Rises n (accept_fields (fields_at stoi n ts)) (after_fields ts n)
    fields_rises no_field n = done (omega arith)
    fields_rises (add_field s name t ts) n =
        pass refl (expr_rises t n then leave refl (omega arith) (fields_rises ts _))

  mutual
    unfolding stmt_at after_stmt accept_stmt accept_increment left_by

    stmt_rises : (t : StmtTree) (n : ℕ) → Rises n (accept_stmt (stmt_at stoi n t)) (after_stmt t n)
    stmt_rises (block_stmt s ss) n = pass refl (stmts_rises ss n then last _ refl)
    stmt_rises (assign_stmt s l r) n =
        pass refl (expr_rises l n then expr_rises r _ then last _ refl)
    stmt_rises (update_stmt s e op) n = pass refl (expr_rises e n then last _ refl)
    stmt_rises (while_stmt s c b) n =
        pass refl (expr_rises c n then stmt_rises b _ then last _ refl)
    stmt_rises (for_each_stmt s x e b) n =
        pass refl (expr_rises x n then expr_rises e _ then stmt_rises b _ then last _ refl)
    stmt_rises (if_stmt s c t) n = pass refl (expr_rises c n then stmt_rises t _ then last _ refl)
    stmt_rises (if_else_stmt s c t e) n =
        pass refl (expr_rises c n then stmt_rises t _ then stmt_rises e _ then last _ refl)
    stmt_rises (output_stmt s e) n = pass refl (expr_rises e n then last _ refl)
    stmt_rises (error_stmt s e) n = pass refl (expr_rises e n then last _ refl)
    stmt_rises (for_range_stmt s x from to b) n = pass refl (
        expr_rises x n
        then expr_rises from _
        then expr_rises to _
        then stmt_rises b _
        then last _ refl)
    stmt_rises (for_by_stmt s x from to by b) n = pass refl (
        expr_rises x n
        then expr_rises from _
        then expr_rises to _
        then expr_rises by _
        then stmt_rises b _
        then last _ refl)

    stmts_rises :
        (ts : StmtTrees) (n : ℕ) → Rises n (accept_stmts (stmts_at stoi n ts)) (after_stmts ts n)
    stmts_rises no_stmt n = done (omega arith)
    stmts_rises (add_stmt t ts) n = stmt_rises t n then stmts_rises ts _

names_rise :
    (ds : List NameTree) (n : ℕ) → Rises n (accept_decls (names_at n ds)) (after_names ds n)
unfolding accept_decls left_by
names_rise [] n = done (omega arith)
names_rise (d ∷ ds) n = leave refl (omega arith) (names_rise ds (suc n))

declarations_rise :
    (ds : List DeclarationTree) (n : ℕ)
    → Rises n (accept_decl_stmts (decls_at n ds)) (after_decls ds n)
unfolding accept_decl_stmts left_by
declarations_rise [] n = done (omega arith)
declarations_rise (d ∷ ds) n =
    pass refl (names_rise d.names n then leave refl (omega arith) (declarations_rise ds _))

returning :
    (stoi : String → Option ℤ) (ts : StmtTrees) (n : ℕ) (m : Node) (e : Expr) (hi : ℕ)
    → Rises (after_stmts ts n) (accept_stmt (return m e)) hi
    → Rises n (accept_stmts (push_back (stmts_at stoi n ts) (return m e))) hi
unfolding push_back accept_stmts stmts_at after_stmts
returning stoi no_stmt n m e hi h = h then done (omega arith)
returning stoi (add_stmt t ts) n m e hi h = stmt_rises stoi t n then returning stoi ts _ m e hi h

function_rises :
    (stoi : String → Option ℤ) (f : FunctionTree) (n : ℕ)
    → Rises n (accept_function (function_at stoi n f)) (after_function f n)
unfolding accept_function left_by accept_stmt
function_rises stoi f n = pass refl (
    leave refl (omega arith) (
      names_rise f.params _
      then declarations_rise f.declarations _
      then returning stoi f.statements (body_start f n) _ _ _
          (pass refl (expr_rises stoi f.return_expr (return_at f n) then last _ refl))
      then last _ refl))

functions_rise :
    (stoi : String → Option ℤ) (fs : List FunctionTree) (n : ℕ)
    → Rises n (accept_functions (functions_at stoi n fs)) (after_functions fs n)
unfolding accept_functions
functions_rise stoi [] n = done (omega arith)
functions_rise stoi (f ∷ fs) n = function_rises stoi f n then functions_rise stoi fs _

-- The nodes of the program that `build` returns are numbered in the order in which `accept` leaves them.
build-Rises :
    (stoi : String → Option ℤ) (sha256 : String → String) (t : ProgramTree) (v : Visited)
    (p : Program) (w : Visited)
    → build stoi sha256 t v ≡ ok p w
    → Rises v.made (accept_program p) w.made
unfolding accept_program
build-Rises stoi sha256 t v p w h =
    by_fault (functions_fault stoi t.functions) (ap report (sym h) ∙ build_lem stoi sha256 t v)
  where
    by_fault :
        (x : Option Exception)
        → gives p w.made
          ≡ expected x (program_at stoi sha256 v.made t) (after_functions t.functions v.made)
        → Rises v.made (accept_functions p.functions) w.made
    by_fault none r =
        subst (λ q. Rises v.made (accept_functions (q.0).functions) (q.1)) (ap parts (sym r))
          (functions_rise stoi t.functions v.made)
    by_fault (some e) r = absurd (ground (arith, r))

-- The addresses of the nodes that a list of events leaves.
unfoldable pub addresses : List Event → List ℕ
unfolding left_by
addresses [] = []
addresses (e ∷ es) = elim (left_by e) [ none ↦ addresses es | some a ↦ a ∷ addresses es ]

abbrev occurs : ℕ → List ℕ → Bool
occurs a [] = false
occurs a (b ∷ bs) = if a == b then true else occurs a bs

abbrev pub all_different : List ℕ → Bool
all_different [] = true
all_different (a ∷ bs) = not (occurs a bs) && all_different bs

above_unused :
    {lo hi : ℕ} (a : ℕ) {es : List Event}
    → a < lo
    → Rises lo es hi
    → occurs a (addresses es) ≡ false
unfolding addresses
above_unused a lt (done h) = refl
above_unused a lt (pass {es = es} e h) = ground (arith, e, above_unused a lt h)
above_unused a lt (leave {a = b} {es = es} e l h) =
    ground (arith, e, lt, l, ==_iff a b, above_unused a (omega arith) h)

Rises-different :
    {lo hi : ℕ} {es : List Event} → Rises lo es hi → all_different (addresses es) ≡ true
unfolding addresses
Rises-different (done h) = refl
Rises-different (pass e h) = ground (arith, e, Rises-different h)
Rises-different (leave {a = b} e l h) =
    ground (arith, e, above_unused b (omega arith) h, Rises-different h)

-- No two nodes of the program that `build` returns have one address: expressions, fields, statements,
-- declarations and functions, as `accept` leaves them.
pub build-different :
    (stoi : String → Option ℤ) (sha256 : String → String) (t : ProgramTree) (v : Visited)
    (p : Program) (w : Visited)
    → build stoi sha256 t v ≡ ok p w
    → all_different (addresses (accept_program p)) ≡ true
build-different stoi sha256 t v p w h = Rises-different (build-Rises stoi sha256 t v p w h)
