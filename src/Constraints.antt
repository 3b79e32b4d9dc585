-- ===== src/Constraints.antt =====
-- src/semantic/types/constraints/TypeConstraintVisitor.cpp with the handler of
-- ConstraintCollector.cpp: the constraints that a traversal collects, in their order.
-- `none` is undefined behaviour of the source: a read of the top of an empty stack, of the locals
-- of a function that the symbol table does not list, or of a last statement that is no `return`.
pub mod Expressions
pub mod Traversal
pub mod Keeps
pub mod Total
pub mod Listed
pub mod Defined
pub mod Equations
pub mod Pipeline
use sipc.Prelude.{
  ℕ, Bool, true, false, ◌||◌, String, Option, none, some, List, [], ◌∷◌, ◌++◌, str_eq,
  if◌then◌else◌,
}
use sipc.Ast.{
  Node, DeclNode, Expr, Exprs, Fields, Stmt, Stmts, Function, Program, number, boolean, variable,
  binary, ternary, input, null, fun_app, alloc, ref, deref, negation, minus, array, array_len,
  array_of, indexing, rec, access, nil, cons, end, field, assign, update, block, loop, for_each,
  for_range, if_then, if_else, output, error, return, Event, leave_expr, leave_stmt, visit_function,
  leave_function, accept_program,
}
use sipc.Symbols.{SymbolTable, get_local, get_function}
use sipc.Types.{TipType, TipTypes, TipVar}
use sipc.Unifier.{TypeConstraint}

infixl 5 ◌>>=◌
abbrev pub ◌>>=◌ {ℓ κ} : {A : Type ℓ} {B : Type κ} → Option A → (A → Option B) → Option B
none >>= f = none
some a >>= f = f a

pub record Visitor : Type 0 where
  pub symbols : SymbolTable
  pub scope : List ℕ
  pub collected : List TypeConstraint

unfoldable pub node_of : Expr → Node
node_of (number n _) = n
node_of (boolean n _) = n
node_of (variable n _) = n
node_of (binary n _ _ _) = n
node_of (ternary n _ _ _) = n
node_of (input n) = n
node_of (null n) = n
node_of (fun_app n _ _) = n
node_of (alloc n _) = n
node_of (ref n _) = n
node_of (deref n _) = n
node_of (negation n _) = n
node_of (minus n _) = n
node_of (array n _) = n
node_of (array_len n _) = n
node_of (array_of n _ _) = n
node_of (indexing n _ _) = n
node_of (rec n _) = n
node_of (access n _ _) = n

abbrev pub node_var : Node → TipType
node_var n = TipType.var (TipVar.plain n.address)

abbrev pub decl_var : DeclNode → TipType
decl_var d = node_var d.node

-- `TipAlpha` with a null context.
abbrev pub fresh : Node → String → TipType
fresh n s = TipType.var (TipVar.alpha n.address none s)

-- The two lookups of a name; the second runs if the first gives the null pointer.
unfoldable pub canonical : SymbolTable → String → Option DeclNode → Option DeclNode
unfolding get_function
canonical st s (some d) = some d
canonical st s none = get_function st s

unfoldable pub ast_to_var : Expr → Visitor → Option TipType
unfolding node_of get_local canonical
ast_to_var (variable n s) v = elim v.scope [
  | [] ↦ none
  | f ∷ fs ↦ get_local v.symbols s f >>= λ l. elim (canonical v.symbols s l) [
    | none ↦ some (node_var n)
    | some d ↦ some (decl_var d)
  ]
]
ast_to_var e v = some (node_var (node_of e))

-- `handle` of ConstraintCollector.
unfoldable pub handle : TipType → TipType → Visitor → Visitor
handle s t v = record v { collected = v.collected ++ record { lhs = s; rhs = t } ∷ [] }

-- `handle(astToVar(e), t)`, `handle(astToVar(e), astToVar(e'))`.
unfoldable pub handle_type : Expr → TipType → Visitor → Option Visitor
unfolding ast_to_var handle
handle_type e t v = ast_to_var e v >>= λ s. some (handle s t v)

unfoldable pub handle_equal : Expr → Expr → Visitor → Option Visitor
unfolding ast_to_var handle
handle_equal e e' v = ast_to_var e v >>= λ s. ast_to_var e' v >>= λ t. some (handle s t v)

unfoldable pub vars : Exprs → Visitor → Option TipTypes
unfolding ast_to_var
vars nil v = some TipTypes.nil
vars (cons e es) v = ast_to_var e v >>= λ t. vars es v >>= λ ts. some (TipTypes.cons t ts)

-- `TipFunction::combine`.
unfoldable pub combine : TipTypes → TipType → TipTypes
combine TipTypes.nil ret = TipTypes.cons ret TipTypes.nil
combine (TipTypes.cons t ts) ret = TipTypes.cons t (combine ts ret)
