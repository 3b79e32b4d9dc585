-- ===== src/Constraints/Equations/Steps.antt =====
-- The `endVisit` methods for expressions of
-- src/semantic/types/constraints/TypeConstraintVisitor.cpp add the demands of
-- Constraints/Equations.
use sipc.Prelude.{
  ◌≡◌, refl, ap, sym, ◌∙◌, Bool, true, false, ◌||◌, String, Option, none, some, List, [], ◌∷◌, ◌++◌,
  str_eq, if◌then◌else◌,
}
use sipc.Ast.{
  Node, Expr, Exprs, Fields, number, boolean, variable, binary, ternary, input, null, fun_app,
  alloc, ref, deref, negation, minus, array, array_len, array_of, indexing, rec, access, nil, cons,
}
use sipc.Types.{TipType, TipTypes}
use sipc.Unifier.{TypeConstraint}
use sipc.Constraints.{
  ◌>>=◌, Visitor, node_of, node_var, fresh, ast_to_var, vars, handle, handle_type, handle_equal,
  combine,
}
use sipc.Constraints.Expressions.{
  end_binary, end_fun_app, end_pointer, initializer_of, record_types, end_record, end_access,
  end_ternary, handle_row, handle_pairs, handle_front, end_array, end_indexing, end_array_len,
  end_array_of, end_not, end_neg, end_expr,
}
use sipc.Constraints.Equations.{
  Demand, ◌≐◌, ◌and◌, only, typed, alike, operands, each, pairs, front, of_expr,
}

abbrev pub bare : Visitor → Visitor
bare v = record v { collected = [] }

abbrev pub add : List TypeConstraint → Visitor → Visitor
add cs v = record v { collected = v.collected ++ cs }

pub append_assoc : (xs ys zs : List TypeConstraint) → (xs ++ ys) ++ zs ≡ xs ++ (ys ++ zs)
append_assoc [] ys zs = refl
append_assoc (x ∷ xs) ys zs = ap (λ l. x ∷ l) (append_assoc xs ys zs)

pub append_nil : (xs : List TypeConstraint) → xs ++ [] ≡ xs
append_nil [] = refl
append_nil (x ∷ xs) = ap (λ l. x ∷ l) (append_nil xs)

pub add_nil : (v : Visitor) → add [] v ≡ v
add_nil v = ap (λ l. record v { collected = l }) (append_nil v.collected)

pub add-add : (cs ds : List TypeConstraint) (v : Visitor) → add ds (add cs v) ≡ add (cs ++ ds) v
add-add cs ds v = ap (λ l. record v { collected = l }) (append_assoc v.collected cs ds)

-- A step adds what is demanded.
pub record Adds (v : Visitor) (o : Option Visitor) (d : Demand) : Type 0 where
  pub by : o ≡ (d >>= λ cs. some (add cs v))

pub single : (s t : TipType) (v : Visitor) → Adds v (some (handle s t v)) (only s t)
unfolding handle
single s t v = record { by = refl }

pub nothing : (v : Visitor) → Adds v (some v) (some [])
nothing v = record { by = ap some (sym (add_nil v)) }

pub and_then :
    {v : Visitor} {o : Option Visitor} (a b : Demand) (f : Visitor → Option Visitor)
    → Adds v o a
    → ((cs : List TypeConstraint) → Adds (add cs v) (f (add cs v)) b)
    → Adds v (o >>= f) (a and b)
and_then none b f h g = record { by = ap (λ o. o >>= f) h.by }
and_then {v} (some cs) b f h g = record { by = ap (λ o. o >>= f) h.by ∙ (g cs).by ∙ rest b }
  where
    rest :
        (d : Demand)
        → (d >>= λ ds. some (add ds (add cs v)))
          ≡ (d >>= (λ ds. some (cs ++ ds)) >>= λ es. some (add es v))
    rest none = refl
    rest (some ds) = ap some (add-add cs ds v)

pub read_then :
    {v : Visitor} {A : Type 0} {o o' : Option A} (f : A → Option Visitor) (g : A → Demand)
    → o ≡ o'
    → ((a : A) → Adds v (f a) (g a))
    → Adds v (o >>= f) (o' >>= g)
read_then {v} {A} {o' = o'} f g e h = record { by = ap (λ x. x >>= f) e ∙ by_result o' }
  where
    by_result : (x : Option A) → (x >>= f) ≡ (x >>= g >>= λ cs. some (add cs v))
    by_result none = refl
    by_result (some a) = (h a).by

pub ast_to_var-bare : (e : Expr) (v : Visitor) → ast_to_var e v ≡ ast_to_var e (bare v)
unfolding ast_to_var
ast_to_var-bare (variable n s) v = refl
ast_to_var-bare _ v = refl

vars-bare : (xs : Exprs) (v : Visitor) → vars xs v ≡ vars xs (bare v)
unfolding vars
vars-bare nil v = refl
vars-bare (cons e es) v =
    ap (λ o. o >>= λ t. vars es v >>= λ ts. some (TipTypes.cons t ts)) (ast_to_var-bare e v)
    ∙ ap (λ o. ast_to_var e (bare v) >>= λ t. o >>= λ ts. some (TipTypes.cons t ts))
        (vars-bare es v)

pub typed_lem :
    (e : Expr) (t : TipType) (v : Visitor) → Adds v (handle_type e t v) (typed (bare v) e t)
unfolding handle_type
typed_lem e t v = read_then _ _ (ast_to_var-bare e v) λ s. single s t v

pub alike_lem : (e e' : Expr) (v : Visitor) → Adds v (handle_equal e e' v) (alike (bare v) e e')
unfolding handle_equal
alike_lem e e' v =
    read_then _ _ (ast_to_var-bare e v) λ s. read_then _ _ (ast_to_var-bare e' v) λ t. single s t v

record_types-bare :
    (ss : List String) (fs : Fields) (v : Visitor)
    → record_types ss fs v ≡ record_types ss fs (bare v)
unfolding record_types
record_types-bare [] fs v = refl
record_types-bare (s ∷ ss) fs v =
    ap (λ o. o >>= λ t. record_types ss fs v >>= λ ts. some (TipTypes.cons t ts))
      (initial (initializer_of s fs))
    ∙ ap
        (λ o.
          elim (initializer_of s fs) [
            | none ↦ some TipType.absent_field
            | some e ↦ ast_to_var e (bare v)
          ]
          >>= λ t. o >>= λ ts. some (TipTypes.cons t ts))
        (record_types-bare ss fs v)
  where
    initial :
        (x : Option Expr)
        → (elim x [ none ↦ some TipType.absent_field | some e ↦ ast_to_var e v ])
          ≡ (elim x [ none ↦ some TipType.absent_field | some e ↦ ast_to_var e (bare v) ])
    initial none = refl
    initial (some e) = ast_to_var-bare e v

handle_row_lem : (t : TipType) (ts : TipTypes) (v : Visitor) → handle_row t ts v ≡ add (each t ts) v
unfolding handle_row handle
handle_row_lem t TipTypes.nil v = sym (add_nil v)
handle_row_lem t (TipTypes.cons s ss) v =
    handle_row_lem t ss (handle t s v) ∙ add-add (t ≐ s ∷ []) (each t ss) v

handle_pairs_lem : (ts : TipTypes) (v : Visitor) → handle_pairs ts v ≡ add (pairs ts) v
unfolding handle_pairs
handle_pairs_lem TipTypes.nil v = sym (add_nil v)
handle_pairs_lem (TipTypes.cons t ts) v =
    ap (λ w. handle_pairs ts w) (handle_row_lem t ts v)
    ∙ handle_pairs_lem ts (add (each t ts) v)
    ∙ add-add (each t ts) (pairs ts) v

handle_front_lem :
    (n : Node) (ts : TipTypes) (v : Visitor) → handle_front n ts v ≡ add (front n ts) v
unfolding handle_front handle
handle_front_lem n TipTypes.nil v = sym (add_nil v)
handle_front_lem n (TipTypes.cons t ts) v = refl

elements_lem :
    (n : Node) (ts : TipTypes) (v : Visitor)
    → Adds v (some (handle_front n ts (handle_pairs ts v))) (some (pairs ts ++ front n ts))
elements_lem n ts v = record {
  by = ap some (
      ap (λ w. handle_front n ts w) (handle_pairs_lem ts v)
      ∙ handle_front_lem n ts (add (pairs ts) v)
      ∙ add-add (pairs ts) (front n ts) v);
}

choose :
    {v : Visitor} {o o' : Option Visitor} {d d' : Demand} (b : Bool)
    → Adds v o d
    → Adds v o' d'
    → Adds v (if b then o else o') (if b then d else d')
choose true h k = h
choose false h k = k

pub both_lem :
    (e e' : Expr) (t : TipType) (v : Visitor)
    → Adds v (handle_type e t v >>= handle_type e' t) (typed (bare v) e t and typed (bare v) e' t)
both_lem e e' t v = and_then _ _ _ (typed_lem e t v) λ cs. typed_lem e' t (add cs v)

operands_lem :
    (op : String) (l r : Expr) (v : Visitor)
    → Adds v
        (if str_eq op "==" || str_eq op "!="
          then handle_equal l r v
          else if str_eq op "and" || str_eq op "or"
          then (handle_type l TipType.bool v >>= handle_type r TipType.bool)
          else (handle_type l TipType.int v >>= handle_type r TipType.int))
        (operands (bare v) op l r)
operands_lem op l r v = choose (str_eq op "==" || str_eq op "!=") (alike_lem l r v) (
    choose (str_eq op "and" || str_eq op "or") (both_lem l r TipType.bool v)
      (both_lem l r TipType.int v))

pub end_expr_lem : (e : Expr) (v : Visitor) → Adds v (end_expr e v) (of_expr (bare v) e)
unfolding end_expr end_binary end_fun_app end_pointer end_record end_access end_ternary end_array
    end_indexing end_array_len end_array_of end_not end_neg
end_expr_lem (number n k) v = single _ _ v
end_expr_lem (boolean n b) v = single _ _ v
end_expr_lem (variable n x) v = nothing v
end_expr_lem (binary n op l r) v =
    and_then _ _
      (λ w.
        if str_eq op "==" || str_eq op "!="
        then handle_equal l r w
        else if str_eq op "and" || str_eq op "or"
        then (handle_type l TipType.bool w >>= handle_type r TipType.bool)
        else (handle_type l TipType.int w >>= handle_type r TipType.int))
      (single _ _ v) λ cs. operands_lem op l r (add cs v)
end_expr_lem (ternary n c t e) v =
    and_then _ _ _ (and_then _ _ _ (typed_lem c TipType.bool v) λ cs. alike_lem t e (add cs v))
      λ cs. read_then _ _ (ast_to_var-bare t (add cs v)) λ s. single (node_var n) s (add cs v)
end_expr_lem (input n) v = single _ _ v
end_expr_lem (null n) v = single _ _ v
end_expr_lem (fun_app n f xs) v =
    read_then _ _ (vars-bare xs v) λ ts. typed_lem f (TipType.function (combine ts (node_var n))) v
end_expr_lem (alloc n e) v =
    read_then _ _ (ast_to_var-bare e v) λ t. single (node_var n) (TipType.ref t) v
end_expr_lem (ref n e) v =
    read_then _ _ (ast_to_var-bare e v) λ t. single (node_var n) (TipType.ref t) v
end_expr_lem (deref n e) v = typed_lem e _ v
end_expr_lem (negation n e) v = typed_lem e _ v
end_expr_lem (minus n e) v = typed_lem e _ v
end_expr_lem (array n xs) v = read_then _ _ (vars-bare xs v) λ ts. elements_lem n ts v
end_expr_lem (array_len n e) v =
    and_then _ _ (handle_type e (TipType.array (fresh (node_of e) ""))) (single _ _ v)
      λ cs. typed_lem e _ (add cs v)
end_expr_lem (array_of n a b) v = and_then _ _ _ (typed_lem a TipType.int v) λ cs.
    read_then _ _ (ast_to_var-bare b (add cs v))
      λ t. single (node_var n) (TipType.array t) (add cs v)
end_expr_lem (indexing n a i) v =
    and_then _ _ _ (typed_lem i TipType.int v) λ cs. typed_lem a _ (add cs v)
end_expr_lem (rec n fs) v =
    read_then _ _ (record_types-bare v.symbols.fields fs v)
      λ ts. single (node_var n) (TipType.rec ts v.symbols.fields) v
end_expr_lem (access n e s) v = typed_lem e _ v
