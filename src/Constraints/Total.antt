-- ===== src/Constraints/Total.antt =====
-- The collection of constraints by src/semantic/types/constraints/TypeConstraintVisitor.cpp is
-- defined: each step, where the function on top of the stack has an entry in the symbol table.
use sipc.Prelude.{
  ◌≡◌, refl, Bool, true, false, String, Option, none, some, List, [], ◌∷◌, arith, str_eq, ◌||◌,
  if◌then◌else◌,
}
use sipc.Ast.{
  Node, DeclNode, Expr, Exprs, Stmt, Function, number, boolean, variable, binary, ternary, input,
  null, fun_app, alloc, ref, deref, negation, minus, array, array_len, array_of, indexing, rec,
  access, assign, update, block, loop, for_each, for_range, if_then, if_else, output, error, return,
}
use sipc.Types.{TipType, TipTypes}
use sipc.Constraints.{
  ◌>>=◌, Visitor, node_of, ast_to_var, handle, handle_type, handle_equal, node_var, decl_var, fresh,
  combine,
}
use sipc.Constraints.Expressions.{
  end_binary, end_fun_app, end_pointer, end_record, end_access, end_ternary, handle_row,
  handle_pairs, handle_front, end_array, end_indexing, end_array_len, end_array_of, end_not,
  end_neg, end_expr, is_arithmetic,
}
use sipc.Constraints.Traversal.{
  formal_types, handle_formals, last_return, end_function, end_assign, end_for_each, end_for_range,
  end_error, end_update, end_stmt,
}
use sipc.Constraints.Keeps.{
  Ready, Keeps, handle_lem, bind_lem, same_lem, handle_type_lem, handle_equal_lem, handle_var_lem,
  vars_lem, record_types_lem, both_lem,
}

handle_row_lem :
    (t : TipType) (ts : TipTypes) (v : Visitor)
    → ((handle_row t ts v).scope ≡ v.scope) × ((handle_row t ts v).symbols ≡ v.symbols)
unfolding handle_row handle
handle_row_lem t TipTypes.nil v = (refl, refl)
handle_row_lem t (TipTypes.cons s ss) v = handle_row_lem t ss (handle t s v)

handle_pairs_lem :
    (ts : TipTypes) (v : Visitor)
    → ((handle_pairs ts v).scope ≡ v.scope) × ((handle_pairs ts v).symbols ≡ v.symbols)
unfolding handle_pairs
handle_pairs_lem TipTypes.nil v = (refl, refl)
handle_pairs_lem (TipTypes.cons t ts) v =
    let a = handle_row_lem t ts v in
    let b = handle_pairs_lem ts (handle_row t ts v) in
    (ground (arith, a.0, b.0), ground (arith, a.1, b.1))

handle_front_lem :
    (n : Node) (ts : TipTypes) (v : Visitor)
    → ((handle_front n ts v).scope ≡ v.scope) × ((handle_front n ts v).symbols ≡ v.symbols)
unfolding handle_front handle
handle_front_lem n TipTypes.nil v = (refl, refl)
handle_front_lem n (TipTypes.cons t ts) v = (refl, refl)

end_array_lem : (n : Node) (es : Exprs) (v : Visitor) → Ready v → Keeps v (end_array n es v)
unfolding end_array
end_array_lem n es v r =
    let a = vars_lem es v r in
    let b = handle_pairs_lem (a.0) v in
    let c = handle_front_lem n (a.0) (handle_pairs (a.0) v) in
    record {
      after = handle_front n (a.0) (handle_pairs (a.0) v);
      returns = ground (arith, a.1);
      same_scope = ground (arith, b.0, c.0);
      same_symbols = ground (arith, b.1, c.1);
    }

if_lem :
    (b : Bool) {v : Visitor} {o q : Option Visitor}
    → Keeps v o
    → Keeps v q
    → Keeps v (if b then o else q)
if_lem true k l = k
if_lem false k l = l

pair_lem :
    (l r : Expr) (t : TipType) (v : Visitor)
    → Ready v
    → Keeps v (handle_type l t v >>= handle_type r t)
pair_lem l r t v ready =
    both_lem (handle_type r t) ready (handle_type_lem l t v ready) (handle_type_lem r t)

operands_lem :
    (op : String) (l r : Expr) (v : Visitor)
    → Ready v
    → Keeps v (
        if str_eq op "==" || str_eq op "!="
        then handle_equal l r v
        else if str_eq op "and" || str_eq op "or"
        then handle_type l TipType.bool v >>= handle_type r TipType.bool
        else handle_type l TipType.int v >>= handle_type r TipType.int)
operands_lem op l r v ready =
    if_lem (str_eq op "==" || str_eq op "!=") (handle_equal_lem l r v ready) (
      if_lem (str_eq op "and" || str_eq op "or") (pair_lem l r TipType.bool v ready)
        (pair_lem l r TipType.int v ready))

end_binary_lem :
    (n : Node) (op : String) (l r : Expr) (v : Visitor) → Ready v → Keeps v (end_binary n op l r v)
unfolding end_binary
end_binary_lem n op l r v ready =
    both_lem
      (λ w.
        if str_eq op "==" || str_eq op "!="
        then handle_equal l r w
        else if str_eq op "and" || str_eq op "or"
        then handle_type l TipType.bool w >>= handle_type r TipType.bool
        else handle_type l TipType.int w >>= handle_type r TipType.int)
      ready (handle_lem (node_var n) (if is_arithmetic op then TipType.int else TipType.bool) v)
      (operands_lem op l r)

end_ternary_lem :
    (n : Node) (c t e : Expr) (v : Visitor) → Ready v → Keeps v (end_ternary n c t e v)
unfolding end_ternary
end_ternary_lem n c t e v r =
    both_lem (λ v'. ast_to_var t v' >>= λ s. some (handle (node_var n) s v')) r
      (both_lem (handle_equal t e) r (handle_type_lem c TipType.bool v r) (handle_equal_lem t e))
      (λ w q.
        handle_var_lem t w (λ s u. some (handle (node_var n) s u)) q
          (λ s. handle_lem (node_var n) s w))

pub end_expr_lem : (e : Expr) (v : Visitor) → Ready v → Keeps v (end_expr e v)
unfolding end_expr end_fun_app end_pointer end_record end_access end_indexing end_array_len
    end_array_of end_not end_neg
end_expr_lem (number n k) v r = handle_lem (node_var n) TipType.int v
end_expr_lem (boolean n b) v r = handle_lem (node_var n) TipType.bool v
end_expr_lem (variable n x) v r = same_lem v
end_expr_lem (binary n op a b) v r = end_binary_lem n op a b v r
end_expr_lem (ternary n c t e) v r = end_ternary_lem n c t e v r
end_expr_lem (input n) v r = handle_lem (node_var n) TipType.int v
end_expr_lem (null n) v r = handle_lem (node_var n) _ v
end_expr_lem (fun_app n f xs) v r =
    let a = vars_lem xs v r in bind_lem _ (a.1) (handle_type_lem f _ v r)
end_expr_lem (alloc n e) v r =
    handle_var_lem e v (λ t w. some (handle (node_var n) (TipType.ref t) w)) r
      (λ t. handle_lem _ _ v)
end_expr_lem (ref n e) v r =
    handle_var_lem e v (λ t w. some (handle (node_var n) (TipType.ref t) w)) r
      (λ t. handle_lem _ _ v)
end_expr_lem (deref n e) v r = handle_type_lem e _ v r
end_expr_lem (negation n e) v r = handle_type_lem e _ v r
end_expr_lem (minus n e) v r = handle_type_lem e _ v r
end_expr_lem (array n xs) v r = end_array_lem n xs v r
end_expr_lem (array_len n e) v r =
    both_lem (handle_type e (TipType.array (fresh (node_of e) ""))) r
      (handle_lem (node_var n) TipType.int v)
      (handle_type_lem e (TipType.array (fresh (node_of e) "")))
end_expr_lem (array_of n a b) v r =
    both_lem (λ v'. ast_to_var b v' >>= λ t. some (handle (node_var n) (TipType.array t) v')) r
      (handle_type_lem a TipType.int v r)
      (λ w q.
        handle_var_lem b w (λ t u. some (handle (node_var n) (TipType.array t) u)) q
          (λ t. handle_lem _ _ w))
end_expr_lem (indexing n a i) v r =
    both_lem (handle_type a (TipType.array (node_var n))) r (handle_type_lem i TipType.int v r)
      (handle_type_lem a (TipType.array (node_var n)))
end_expr_lem (rec n fs) v r =
    let a = record_types_lem v.symbols.fields fs v r in bind_lem _ (a.1) (handle_lem _ _ v)
end_expr_lem (access n e s) v r = handle_type_lem e _ v r

end_assign_lem : (l e : Expr) (v : Visitor) → Ready v → Keeps v (end_assign l e v)
unfolding end_assign
end_assign_lem (deref n p) e v r =
    handle_var_lem e v (λ t w. handle_type p (TipType.ref t) w) r
      (λ t. handle_type_lem p (TipType.ref t) v r)
end_assign_lem l e v r = handle_equal_lem l e v r

increment_lem :
    (i : Option Expr) (v : Visitor)
    → Ready v
    → Keeps v (elim i [ none ↦ some v | some e ↦ handle_type e TipType.int v ])
increment_lem none v r = same_lem v
increment_lem (some e) v r = handle_type_lem e TipType.int v r

pub end_stmt_lem : (s : Stmt) (v : Visitor) → Ready v → Keeps v (end_stmt s v)
unfolding end_stmt end_for_each end_for_range end_error end_update
end_stmt_lem (assign n l e) v r = end_assign_lem l e v r
end_stmt_lem (update n e b) v r = handle_type_lem e _ v r
end_stmt_lem (block n ss) v r = same_lem v
end_stmt_lem (loop n c s) v r = handle_type_lem c _ v r
end_stmt_lem (for_each n x e s) v r =
    handle_var_lem x v (λ t w. handle_type e (TipType.array t) w) r
      (λ t. handle_type_lem e (TipType.array t) v r)
end_stmt_lem (for_range n x a b i s) v r =
    both_lem (λ w. elim i [ none ↦ some w | some e ↦ handle_type e TipType.int w ]) r
      (both_lem (handle_type b TipType.int) r
        (both_lem (handle_type a TipType.int) r (handle_type_lem x TipType.int v r)
          (handle_type_lem a TipType.int))
        (handle_type_lem b TipType.int))
      (increment_lem i)
end_stmt_lem (if_then n c s) v r = handle_type_lem c _ v r
end_stmt_lem (if_else n c s t) v r = handle_type_lem c _ v r
end_stmt_lem (output n e) v r = handle_type_lem e _ v r
end_stmt_lem (error n e) v r = handle_type_lem e _ v r
end_stmt_lem (return n e) v r = same_lem v

handle_formals_lem :
    (ds : List DeclNode) (v : Visitor)
    → ((handle_formals ds v).scope ≡ v.scope) × ((handle_formals ds v).symbols ≡ v.symbols)
unfolding handle_formals handle
handle_formals_lem [] v = (refl, refl)
handle_formals_lem (d ∷ ds) v = handle_formals_lem ds (handle (decl_var d) TipType.int v)

-- A function that ends in a `return`.
pub end_function_lem :
    (f : Function) (v : Visitor) (e : Expr)
    → Ready v
    → last_return f.stmts ≡ some e
    → Keeps v (end_function f v)
unfolding end_function
end_function_lem f v e r ends =
    if_lem (str_eq f.decl.name "main")
      (bind_lem _ ends (
        both_lem _ r
          (both_lem (handle_type e TipType.int) r formals (handle_type_lem e TipType.int))
          signature))
      (bind_lem _ ends (signature v r))
  where
    formals : Keeps v (some (handle_formals f.formals v))
    formals =
        let h = handle_formals_lem f.formals v in
        record {
          after = handle_formals f.formals v;
          returns = refl;
          same_scope = h.0;
          same_symbols = h.1;
        }

    typed : TipType → TipType
    typed t = TipType.function (combine (formal_types f.formals) t)

    signature :
        (w : Visitor)
        → Ready w
        → Keeps w (ast_to_var e w >>= λ t. some (handle (decl_var f.decl) (typed t) w))
    signature w q =
        handle_var_lem e w (λ t u. some (handle (decl_var f.decl) (typed t) u)) q
          (λ t. handle_lem (decl_var f.decl) (typed t) w)
