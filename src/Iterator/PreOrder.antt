-- ===== src/Iterator/PreOrder.antt =====
-- The iterator of src/frontend/iterators/PreOrderIterator.cpp goes through the nodes in pre-order,
-- and its loop ends.
use sipc.Prelude.{
  ◌≡◌, refl, ap, sym, subst, ℕ, zero, suc, ◌+◌, ◌<◌, ◌↔◌, true, Option, none, some, List, [], ◌∷◌,
  ◌++◌, ==_iff, length, map, arith,
}
use sipc.Ast.{
  DeclNode, DeclStmt, Expr, Exprs, Fields, Stmt, Stmts, Function, number, boolean, variable, binary,
  ternary, input, null, fun_app, alloc, ref, deref, negation, minus, array, array_len, array_of,
  indexing, rec, access, nil, cons, end, field, assign, update, block, loop, for_each, for_range,
  if_then, if_else, output, error, return,
}
use sipc.Iterator.{
  AstNode, expr, field_expr, stmt, decl, decl_stmt, fun, program, subtrees, expr_children,
  stmt_children, exprs_list, fields_list, stmts_list, Iterator, begin, end_of, current, push_all,
  increment, same_top, are_equal, walk, root,
}

-- The nodes in pre-order: a node, then those of its subtrees from the first to the last.
mutual
  pub data PreOrder : AstNode → List AstNode → Type 0 where
    node : {t : AstNode} {ns : List AstNode} → PreOrders (subtrees t) ns → PreOrder t (t ∷ ns)

  pub data PreOrders : List AstNode → List AstNode → Type 0 where
    nothing : PreOrders [] []
    first :
        {t : AstNode} {ts ms ns : List AstNode}
        → PreOrder t ms
        → PreOrders ts ns
        → PreOrders (t ∷ ts) (ms ++ ns)

-- How many nodes a tree has.
abbrev mutual
  expr_size : Expr → ℕ
  expr_size (number n k) = 1
  expr_size (boolean n b) = 1
  expr_size (variable n x) = 1
  expr_size (binary n op l r) = suc (expr_size l + expr_size r)
  expr_size (ternary n c t e) = suc (expr_size c + (expr_size t + expr_size e))
  expr_size (input n) = 1
  expr_size (null n) = 1
  expr_size (fun_app n f xs) = suc (expr_size f + exprs_size xs)
  expr_size (alloc n e) = suc (expr_size e)
  expr_size (ref n e) = suc (expr_size e)
  expr_size (deref n e) = suc (expr_size e)
  expr_size (negation n e) = suc (expr_size e)
  expr_size (minus n e) = suc (expr_size e)
  expr_size (array n xs) = suc (exprs_size xs)
  expr_size (array_len n e) = suc (expr_size e)
  expr_size (array_of n a b) = suc (expr_size a + expr_size b)
  expr_size (indexing n a i) = suc (expr_size a + expr_size i)
  expr_size (rec n fs) = suc (fields_size fs)
  expr_size (access n e f) = suc (expr_size e)

  exprs_size : Exprs → ℕ
  exprs_size nil = 0
  exprs_size (cons e es) = expr_size e + exprs_size es

  fields_size : Fields → ℕ
  fields_size end = 0
  fields_size (field n s e fs) = suc (expr_size e) + fields_size fs

abbrev option_size : Option Expr → ℕ
option_size none = 0
option_size (some e) = expr_size e

abbrev mutual
  stmt_size : Stmt → ℕ
  stmt_size (assign n l r) = suc (expr_size l + expr_size r)
  stmt_size (update n e b) = suc (expr_size e)
  stmt_size (block n ss) = suc (stmts_size ss)
  stmt_size (loop n c s) = suc (expr_size c + stmt_size s)
  stmt_size (for_each n x e s) = suc (expr_size x + (expr_size e + stmt_size s))
  stmt_size (for_range n x a b i s) =
      suc (expr_size x + (expr_size a + (expr_size b + (option_size i + stmt_size s))))
  stmt_size (if_then n c s) = suc (expr_size c + stmt_size s)
  stmt_size (if_else n c s t) = suc (expr_size c + (stmt_size s + stmt_size t))
  stmt_size (output n e) = suc (expr_size e)
  stmt_size (error n e) = suc (expr_size e)
  stmt_size (return n e) = suc (expr_size e)

  stmts_size : Stmts → ℕ
  stmts_size nil = 0
  stmts_size (cons s ss) = stmt_size s + stmts_size ss

abbrev decl_stmts_size : List DeclStmt → ℕ
decl_stmts_size [] = 0
decl_stmts_size (d ∷ ds) = suc (length d.vars) + decl_stmts_size ds

abbrev function_size : Function → ℕ
function_size f =
    suc (suc (length f.formals + (decl_stmts_size f.declarations + stmts_size f.stmts)))

abbrev functions_size : List Function → ℕ
functions_size [] = 0
functions_size (f ∷ fs) = function_size f + functions_size fs

abbrev pub size : AstNode → ℕ
size (expr e) = expr_size e
size (field_expr n s e) = suc (expr_size e)
size (stmt s) = stmt_size s
size (decl d) = 1
size (decl_stmt d) = suc (length d.vars)
size (fun f) = function_size f
size (program a p) = suc (functions_size p.functions)

abbrev sizes : List AstNode → ℕ
sizes [] = 0
sizes (t ∷ ts) = size t + sizes ts

sizes-append : (xs ys : List AstNode) → sizes (xs ++ ys) ≡ sizes xs + sizes ys
sizes-append [] ys = omega arith
sizes-append (x ∷ xs) ys = omega (arith, sizes-append xs ys)

sizes-exprs : (es : Exprs) → sizes (exprs_list es) ≡ exprs_size es
unfolding exprs_list
sizes-exprs nil = refl
sizes-exprs (cons e es) = omega (arith, sizes-exprs es)

sizes-fields : (fs : Fields) → sizes (fields_list fs) ≡ fields_size fs
unfolding fields_list
sizes-fields end = refl
sizes-fields (field n s e fs) = omega (arith, sizes-fields fs)

sizes-stmts : (ss : Stmts) → sizes (stmts_list ss) ≡ stmts_size ss
unfolding stmts_list
sizes-stmts nil = refl
sizes-stmts (cons s ss) = omega (arith, sizes-stmts ss)

sizes-decls : (ds : List DeclNode) → sizes (map decl ds) ≡ length ds
sizes-decls [] = refl
sizes-decls (d ∷ ds) = omega (arith, sizes-decls ds)

sizes-decl_stmts : (ds : List DeclStmt) → sizes (map decl_stmt ds) ≡ decl_stmts_size ds
sizes-decl_stmts [] = refl
sizes-decl_stmts (d ∷ ds) = omega (arith, sizes-decl_stmts ds)

sizes-funs : (fs : List Function) → sizes (map fun fs) ≡ functions_size fs
sizes-funs [] = refl
sizes-funs (f ∷ fs) = omega (arith, sizes-funs fs)

sizes-expr_children : (e : Expr) → suc (sizes (expr_children e)) ≡ expr_size e
unfolding expr_children
sizes-expr_children (number n k) = refl
sizes-expr_children (fun_app n f xs) = omega (arith, sizes-exprs xs)
sizes-expr_children (array n xs) = omega (arith, sizes-exprs xs)
sizes-expr_children (rec n fs) = omega (arith, sizes-fields fs)
sizes-expr_children _ = omega arith

sizes-stmt_children : (s : Stmt) → suc (sizes (stmt_children s)) ≡ stmt_size s
unfolding stmt_children
sizes-stmt_children (block n ss) = omega (arith, sizes-stmts ss)
sizes-stmt_children (for_range n x a b none s) = omega arith
sizes-stmt_children (for_range n x a b (some i) s) = omega arith
sizes-stmt_children _ = omega arith

sizes-subtrees : (t : AstNode) → suc (sizes (subtrees t)) ≡ size t
unfolding subtrees
sizes-subtrees (expr e) = sizes-expr_children e
sizes-subtrees (field_expr n s e) = omega arith
sizes-subtrees (stmt s) = sizes-stmt_children s
sizes-subtrees (decl d) = refl
sizes-subtrees (decl_stmt d) = omega (arith, sizes-decls d.vars)
sizes-subtrees (fun f) = omega (
  arith,
  sizes-append (map decl f.formals) (map decl_stmt f.declarations ++ stmts_list f.stmts),
  sizes-append (map decl_stmt f.declarations) (stmts_list f.stmts),
  sizes-decls f.formals,
  sizes-decl_stmts f.declarations,
  sizes-stmts f.stmts,
)
sizes-subtrees (program a p) = omega (arith, sizes-funs p.functions)

abbrev Parts : List AstNode → List AstNode → List AstNode → Type 0
Parts xs ys out =
    (a : List AstNode) × (b : List AstNode) × PreOrders xs a × PreOrders ys b × (out ≡ a ++ b)

append_assoc : (xs ys zs : List AstNode) → (xs ++ ys) ++ zs ≡ xs ++ (ys ++ zs)
append_assoc [] ys zs = refl
append_assoc (x ∷ xs) ys zs = ap (λ l. x ∷ l) (append_assoc xs ys zs)

uncons :
    {ts out : List AstNode} (t : AstNode)
    → PreOrders (t ∷ ts) out
    → (a : List AstNode) × (b : List AstNode) × PreOrder t a × PreOrders ts b × (out ≡ a ++ b)
uncons t (first {ms = a} {ns = b} p q) = (a, b, p, q, refl)

PreOrders-push_all :
    (xs ys : List AstNode) {out : List AstNode} → PreOrders (push_all xs ys) out → Parts xs ys out
unfolding push_all
PreOrders-push_all [] ys {out} p = ([], out, nothing, p, refl)
PreOrders-push_all (x ∷ xs) ys p =
    let u = uncons x p in
    let r = PreOrders-push_all xs ys (u.3) in
    (
      u.0 ++ r.0,
      r.1,
      first (u.2) (r.2),
      r.3,
      ground (arith, u.4, r.4, append_assoc (u.0) (r.0) (r.1)),
    )

sizes-push_all : (xs ys : List AstNode) → sizes (push_all xs ys) ≡ sizes xs + sizes ys
unfolding push_all
sizes-push_all [] ys = omega arith
sizes-push_all (x ∷ xs) ys = omega (arith, sizes-push_all xs ys)

-- The test of the loop is whether the stack is empty.
are_equal-end_of : (it : Iterator) → (are_equal it (end_of it.tree) ≡ true) ↔ (it.stack ≡ [])
unfolding are_equal end_of same_top
are_equal-end_of it = at_stack it.stack refl
  where
    at_stack :
        (st : List AstNode)
        → it.stack ≡ st
        → (are_equal it (end_of it.tree) ≡ true) ↔ (it.stack ≡ [])
    at_stack [] e = (λ h. e, λ h. ground (arith, e, ==_iff (root it.tree) (root it.tree)))
    at_stack (t ∷ ts) e = (λ h. ground (arith, e), λ h. ground (arith, e))

walk_lem :
    (fuel : ℕ) (root_tree : AstNode) (st : List AstNode)
    → sizes st < fuel
    → (ns : List AstNode) × (walk fuel (record { tree = root_tree; stack = st })
        ≡ some (map some ns))
      × PreOrders st ns
unfolding walk current increment
walk_lem zero r st lt = ground arith
walk_lem (suc fuel) r [] lt =
    ([], ground (arith, are_equal-end_of (record { tree = r; stack = [] })), nothing)
walk_lem (suc fuel) r (t ∷ ts) lt =
    let w =
      walk_lem fuel r (push_all (subtrees t) ts)
        (omega (arith, sizes-push_all (subtrees t) ts, sizes-subtrees t)) in
    let p = PreOrders-push_all (subtrees t) ts (w.2) in
    (
      t ∷ w.0,
      ground (arith, are_equal-end_of (record { tree = r; stack = t ∷ ts }), w.1),
      subst (λ l. PreOrders (t ∷ ts) (t ∷ l)) (sym (p.4)) (first (node (p.2)) (p.3)),
    )

-- With more fuel than nodes the loop from `begin` to `end` returns, each read finds a node, and the
-- nodes come in pre-order.
pub walk-PreOrder :
    (t : AstNode) (fuel : ℕ)
    → size t < fuel
    → (ns : List AstNode) × (walk fuel (begin t) ≡ some (map some ns)) × PreOrder t ns
unfolding begin
walk-PreOrder t fuel lt =
    let w = walk_lem fuel t (t ∷ []) (omega (arith, lt)) in
    let p = uncons t (w.2) in
    let e = only (p.3) in
    (w.0, w.1, subst (PreOrder t) (ground (arith, p.4, e, append_nil (p.0))) (p.2))
  where
    only : {b : List AstNode} → PreOrders [] b → b ≡ []
    only nothing = refl

    append_nil : (xs : List AstNode) → xs ++ [] ≡ xs
    append_nil [] = refl
    append_nil (x ∷ xs) = ap (λ l. x ∷ l) (append_nil xs)
