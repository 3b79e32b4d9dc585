-- ===== src/Constraints/Expressions.antt =====
-- The `endVisit` methods of src/semantic/types/constraints/TypeConstraintVisitor.cpp for the
-- expressions.
use sipc.Prelude.{Bool, ◌||◌, String, Option, none, some, List, [], ◌∷◌, str_eq, if◌then◌else◌}
use sipc.Ast.{
  Node, Expr, Exprs, Fields, number, boolean, variable, binary, ternary, input, null, fun_app,
  alloc, ref, deref, negation, minus, array, array_len, array_of, indexing, rec, access, end, field,
}
use sipc.Types.{TipType, TipTypes}
use sipc.Constraints.{
  ◌>>=◌, Visitor, node_of, node_var, fresh, ast_to_var, handle, handle_type, handle_equal, vars,
  combine,
}

abbrev pub is_arithmetic : String → Bool
is_arithmetic op =
    str_eq op "+" || (str_eq op "-" || (str_eq op "*" || (str_eq op "/" || str_eq op "%")))

unfoldable pub end_binary : Node → String → Expr → Expr → Visitor → Option Visitor
unfolding handle_type handle_equal handle
end_binary n op l r v =
    let v' = handle (node_var n) (if is_arithmetic op then TipType.int else TipType.bool) v in
    if str_eq op "==" || str_eq op "!="
    then handle_equal l r v'
    else if str_eq op "and" || str_eq op "or"
    then handle_type l TipType.bool v' >>= handle_type r TipType.bool
    else handle_type l TipType.int v' >>= handle_type r TipType.int

unfoldable pub end_fun_app : Node → Expr → Exprs → Visitor → Option Visitor
unfolding vars handle_type combine
end_fun_app n f xs v =
    vars xs v >>= λ ts. handle_type f (TipType.function (combine ts (node_var n))) v

-- `handle(n, ref e)` and `handle(n, array e)`.
unfoldable pub end_pointer : Node → Expr → Visitor → Option Visitor
unfolding ast_to_var handle
end_pointer n e v = ast_to_var e v >>= λ t. some (handle (node_var n) (TipType.ref t) v)

unfoldable pub initializer_of : String → Fields → Option Expr
initializer_of s end = none
initializer_of s (field n t e fs) = if str_eq s t then some e else initializer_of s fs

unfoldable pub record_types : List String → Fields → Visitor → Option TipTypes
unfolding initializer_of ast_to_var
record_types [] fs v = some TipTypes.nil
record_types (s ∷ ss) fs v =
    elim (initializer_of s fs) [ none ↦ some TipType.absent_field | some e ↦ ast_to_var e v ]
    >>= λ t. record_types ss fs v >>= λ ts. some (TipTypes.cons t ts)

unfoldable pub end_record : Node → Fields → Visitor → Option Visitor
unfolding record_types handle
end_record n fs v =
    let all_fields = v.symbols.fields in
    record_types all_fields fs v >>= λ ts. some (handle (node_var n) (TipType.rec ts all_fields) v)

unfoldable pub access_types : Node → String → List String → TipTypes
access_types n s [] = TipTypes.nil
access_types n s (f ∷ fs) =
    TipTypes.cons (if str_eq f s then node_var n else fresh n f) (access_types n s fs)

unfoldable pub end_access : Node → Expr → String → Visitor → Option Visitor
unfolding access_types handle_type
end_access n e s v =
    handle_type e (TipType.rec (access_types n s v.symbols.fields) v.symbols.fields) v

unfoldable pub end_ternary : Node → Expr → Expr → Expr → Visitor → Option Visitor
unfolding handle_type handle_equal ast_to_var handle
end_ternary n c t e v = handle_type c TipType.bool v >>= handle_equal t e >>= λ v'.
    ast_to_var t v' >>= λ s. some (handle (node_var n) s v')

unfoldable pub handle_row : TipType → TipTypes → Visitor → Visitor
unfolding handle
handle_row t TipTypes.nil v = v
handle_row t (TipTypes.cons s ss) v = handle_row t ss (handle t s v)

-- Each element with every later one.
unfoldable pub handle_pairs : TipTypes → Visitor → Visitor
unfolding handle_row
handle_pairs TipTypes.nil v = v
handle_pairs (TipTypes.cons t ts) v = handle_pairs ts (handle_row t ts v)

unfoldable pub handle_front : Node → TipTypes → Visitor → Visitor
unfolding handle
handle_front n TipTypes.nil v = v
handle_front n (TipTypes.cons t ts) v = handle (node_var n) (TipType.array t) v

unfoldable pub end_array : Node → Exprs → Visitor → Option Visitor
unfolding vars handle_pairs handle_front
end_array n xs v = vars xs v >>= λ ts. some (handle_front n ts (handle_pairs ts v))

unfoldable pub end_indexing : Node → Expr → Expr → Visitor → Option Visitor
unfolding handle_type
end_indexing n a i v = handle_type i TipType.int v >>= handle_type a (TipType.array (node_var n))

unfoldable pub end_array_len : Node → Expr → Visitor → Option Visitor
unfolding handle_type handle node_of
end_array_len n e v =
    handle_type e (TipType.array (fresh (node_of e) "")) (handle (node_var n) TipType.int v)

unfoldable pub end_array_of : Node → Expr → Expr → Visitor → Option Visitor
unfolding handle_type handle ast_to_var
end_array_of n a b v = handle_type a TipType.int v >>= λ v'.
    ast_to_var b v' >>= λ t. some (handle (node_var n) (TipType.array t) v')

unfoldable pub end_not : Expr → Visitor → Option Visitor
unfolding handle_type
end_not e v = handle_type e TipType.bool v

unfoldable pub end_neg : Expr → Visitor → Option Visitor
unfolding handle_type
end_neg e v = handle_type e TipType.int v

unfoldable pub end_expr : Expr → Visitor → Option Visitor
unfolding handle handle_type end_binary end_fun_app end_pointer end_record end_access end_ternary
    end_array end_indexing end_array_len end_array_of end_not end_neg
end_expr (number n k) v = some (handle (node_var n) TipType.int v)
end_expr (boolean n b) v = some (handle (node_var n) TipType.bool v)
end_expr (variable n x) v = some v
end_expr (binary n op l r) v = end_binary n op l r v
end_expr (ternary n c t e) v = end_ternary n c t e v
end_expr (input n) v = some (handle (node_var n) TipType.int v)
end_expr (null n) v = some (handle (node_var n) (TipType.ref (fresh n "")) v)
end_expr (fun_app n f xs) v = end_fun_app n f xs v
end_expr (alloc n e) v = end_pointer n e v
end_expr (ref n e) v = end_pointer n e v
end_expr (deref n e) v = handle_type e (TipType.ref (node_var n)) v
end_expr (negation n e) v = end_not e v
end_expr (minus n e) v = end_neg e v
end_expr (array n xs) v = end_array n xs v
end_expr (array_len n e) v = end_array_len n e v
end_expr (array_of n a b) v = end_array_of n a b v
end_expr (indexing n a i) v = end_indexing n a i v
end_expr (rec n fs) v = end_record n fs v
end_expr (access n e s) v = end_access n e s v
