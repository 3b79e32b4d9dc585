-- ===== src/Constraints/Equations.antt =====
-- The type constraints that each construct of a program asks for, construct by construct, against
-- which the visitor of src/semantic/types/constraints/TypeConstraintVisitor.cpp is proved.
pub mod Steps
pub mod Collected
use sipc.Prelude.{
  ℕ, Bool, ◌||◌, String, Option, none, some, List, [], ◌∷◌, ◌++◌, str_eq, if◌then◌else◌,
}
use sipc.Ast.{
  Node, DeclNode, Expr, Stmt, Function, Event, Program, number, boolean, variable, binary, ternary,
  input, null, fun_app, alloc, ref, deref, negation, minus, array, array_len, array_of, indexing,
  rec, access, assign, update, block, loop, for_each, for_range, if_then, if_else, output, error,
  return, leave_expr, leave_stmt, visit_function, leave_function, accept_program,
}
use sipc.Symbols.{SymbolTable}
use sipc.Types.{TipType, TipTypes}
use sipc.Unifier.{TypeConstraint}
use sipc.Constraints.{◌>>=◌, Visitor, node_of, node_var, decl_var, fresh, ast_to_var, vars, combine}
use sipc.Constraints.Expressions.{is_arithmetic, record_types, access_types}
use sipc.Constraints.Traversal.{formal_types, last_return}

abbrev pub Demand : Type 0
Demand = Option (List TypeConstraint)

infix 90 ◌≐◌
abbrev pub ◌≐◌ : TipType → TipType → TypeConstraint
s ≐ t = record { lhs = s; rhs = t }

-- The demands of the left, then those of the right.
infixl 6 ◌and◌
abbrev pub ◌and◌ : Demand → Demand → Demand
a and b = a >>= λ cs. b >>= λ ds. some (cs ++ ds)

abbrev pub only : TipType → TipType → Demand
only s t = some (s ≐ t ∷ [])

-- The term of an expression, where the function is known.
abbrev pub typed : Visitor → Expr → TipType → Demand
typed v e t = ast_to_var e v >>= λ s. only s t

abbrev pub alike : Visitor → Expr → Expr → Demand
alike v e e' = ast_to_var e v >>= λ s. ast_to_var e' v >>= λ t. only s t

abbrev pub operands : Visitor → String → Expr → Expr → Demand
operands v op l r =
    if str_eq op "==" || str_eq op "!="
    then alike v l r
    else if str_eq op "and" || str_eq op "or"
    then typed v l TipType.bool and typed v r TipType.bool
    else typed v l TipType.int and typed v r TipType.int

abbrev pub each : TipType → TipTypes → List TypeConstraint
each t TipTypes.nil = []
each t (TipTypes.cons s ss) = t ≐ s ∷ each t ss

-- The elements of an array have one type, and the array is of the first one's.
abbrev pub pairs : TipTypes → List TypeConstraint
pairs TipTypes.nil = []
pairs (TipTypes.cons t ts) = each t ts ++ pairs ts

abbrev pub front : Node → TipTypes → List TypeConstraint
front n TipTypes.nil = []
front n (TipTypes.cons t ts) = node_var n ≐ TipType.array t ∷ []

abbrev pub of_expr : Visitor → Expr → Demand
of_expr v (number n k) = only (node_var n) TipType.int
of_expr v (boolean n b) = only (node_var n) TipType.bool
of_expr v (variable n x) = some []
of_expr v (binary n op l r) =
    only (node_var n) (if is_arithmetic op then TipType.int else TipType.bool) and operands v op l r
of_expr v (ternary n c t e) =
    typed v c TipType.bool and alike v t e and (ast_to_var t v >>= λ s. only (node_var n) s)
of_expr v (input n) = only (node_var n) TipType.int
of_expr v (null n) = only (node_var n) (TipType.ref (fresh n ""))
of_expr v (fun_app n f xs) =
    vars xs v >>= λ ts. typed v f (TipType.function (combine ts (node_var n)))
of_expr v (alloc n e) = ast_to_var e v >>= λ t. only (node_var n) (TipType.ref t)
of_expr v (ref n e) = ast_to_var e v >>= λ t. only (node_var n) (TipType.ref t)
of_expr v (deref n e) = typed v e (TipType.ref (node_var n))
of_expr v (negation n e) = typed v e TipType.bool
of_expr v (minus n e) = typed v e TipType.int
of_expr v (array n xs) = vars xs v >>= λ ts. some (pairs ts ++ front n ts)
of_expr v (array_len n e) =
    only (node_var n) TipType.int and typed v e (TipType.array (fresh (node_of e) ""))
of_expr v (array_of n a b) =
    typed v a TipType.int and (ast_to_var b v >>= λ t. only (node_var n) (TipType.array t))
of_expr v (indexing n a i) = typed v i TipType.int and typed v a (TipType.array (node_var n))
of_expr v (rec n fs) =
    record_types v.symbols.fields fs v >>= λ ts. only (node_var n) (TipType.rec ts v.symbols.fields)
of_expr v (access n e s) =
    typed v e (TipType.rec (access_types n s v.symbols.fields) v.symbols.fields)

abbrev pub by_step : Visitor → Option Expr → Demand
by_step v none = some []
by_step v (some e) = typed v e TipType.int

abbrev pub of_assign : Visitor → Expr → Expr → Demand
of_assign v (deref n p) r = ast_to_var r v >>= λ t. typed v p (TipType.ref t)
of_assign v l r = alike v l r

abbrev pub of_stmt : Visitor → Stmt → Demand
of_stmt v (assign n l r) = of_assign v l r
of_stmt v (update n e b) = typed v e TipType.int
of_stmt v (block n ss) = some []
of_stmt v (loop n c s) = typed v c TipType.bool
of_stmt v (for_each n x e s) = ast_to_var x v >>= λ t. typed v e (TipType.array t)
of_stmt v (for_range n x a b i s) =
    typed v x TipType.int and typed v a TipType.int and typed v b TipType.int and by_step v i
of_stmt v (if_then n c s) = typed v c TipType.bool
of_stmt v (if_else n c s t) = typed v c TipType.bool
of_stmt v (output n e) = typed v e TipType.int
of_stmt v (error n e) = typed v e TipType.int
of_stmt v (return n e) = some []

abbrev pub all_int : List DeclNode → List TypeConstraint
all_int [] = []
all_int (d ∷ ds) = decl_var d ≐ TipType.int ∷ all_int ds

-- What is called has the type of its formals and of what it returns.
abbrev pub signature : Visitor → Function → Expr → Demand
signature v f e = ast_to_var e v >>= λ t.
    only (decl_var f.decl) (TipType.function (combine (formal_types f.formals) t))

-- The formals and the result of `main` are integers.
abbrev pub of_function : Visitor → Function → Demand
of_function v f = last_return f.stmts >>= λ e.
    if str_eq f.decl.name "main"
    then some (all_int f.formals) and typed v e TipType.int and signature v f e
    else signature v f e

abbrev pub of_event : Visitor → Event → Demand
of_event v (leave_expr e) = of_expr v e
of_event v (leave_stmt s) = of_stmt v s
of_event v (leave_function f) = of_function v f
of_event v _ = some []

-- A function's events come after its visit.
abbrev pub scope_after : List ℕ → Event → List ℕ
scope_after fs (visit_function f) = f.decl.node.address ∷ fs
scope_after fs _ = fs

abbrev pub within : SymbolTable → List ℕ → Visitor
within st fs = record { symbols = st; scope = fs; collected = [] }

abbrev pub of_events : SymbolTable → List ℕ → List Event → Demand
of_events st fs [] = some []
of_events st fs (e ∷ es) = of_event (within st fs) e and of_events st (scope_after fs e) es

-- The demands of the constructs of a program, in the order of its traversal.
abbrev pub equations : SymbolTable → Program → Demand
unfolding accept_program
equations st p = of_events st [] (accept_program p)
