-- ===== src/Symbols.antt =====
-- src/semantic/symboltable: the three collectors and the symbol table that `SymbolTable::build`
-- makes of what they collect. A `std::map` keyed by names is a list in the order of its keys,
-- and the map of local names, keyed by the address of a function's declaration, a list in the
-- order of insertion, since only `print` (not modelled) shows its order.
pub mod Functions
pub mod Fields
use Prim.Native.Nat.{Ordering}
use Prim.Native.String.{compare}
use sipc.Prelude.{
  ℕ, Bool, true, false, String, Option, none, some, List, [], ◌∷◌, ◌++◌, ◌==◌, str_eq,
  if◌then◌else◌, map,
}
use sipc.Ast.{
  Node, DeclNode, Expr, variable, access, Function, Program, Event, leave_expr, leave_field,
  leave_decl, visit_function, leave_function, accept_program,
}

abbrev pub str_lt : String → String → Bool
str_lt s t = elim (compare s t) [ Ordering.lt ↦ true | _ ↦ false ]

abbrev pub Table {ℓ} : Type ℓ → Type ℓ
Table A = List (String × A)

-- `find` and `insert` of a `std::map`; `insert` keeps an entry that is there.
unfoldable pub lookup {ℓ} : {A : Type ℓ} → String → Table A → Option A
lookup s [] = none
lookup s ((t, a) ∷ m) = if str_eq s t then some a else lookup s m

unfoldable pub place {ℓ} : {A : Type ℓ} → String → A → Table A → Table A
place s a [] = (s, a) ∷ []
place s a ((t, b) ∷ m) = if str_lt s t then (s, a) ∷ (t, b) ∷ m else (t, b) ∷ place s a m

unfoldable pub insert {ℓ} : {A : Type ℓ} → String → A → Table A → Table A
unfolding lookup place
insert s a m = elim (lookup s m) [ some _ ↦ m | none ↦ place s a m ]

pub data SymbolError : Type 0 where
  function_redeclared : DeclNode → SymbolError
  redeclared : DeclNode → String → SymbolError
  declared_as_function : DeclNode → SymbolError
  undeclared : Node → String → String → SymbolError

pub data Result {ℓ} (A : Type ℓ) : Type ℓ where
  ok : A → Result A
  semantic_error : SymbolError → Result A

infixl 5 ◌>>=◌
abbrev pub ◌>>=◌ {ℓ κ} : {A : Type ℓ} {B : Type κ} → Result A → (A → Result B) → Result B
ok a >>= f = f a
semantic_error e >>= f = semantic_error e

abbrev pub FunctionMap : Type 0
FunctionMap = Table (DeclNode × Bool)

-- FunctionNameCollector, whose `visit` returns false: it reads no body.
unfoldable pub visit_name : Function → FunctionMap → Result FunctionMap
unfolding lookup insert
visit_name f m = elim (lookup f.decl.name m) [
  | none ↦ ok (insert f.decl.name (f.decl, f.is_poly) m)
  | some _ ↦ semantic_error (function_redeclared f.decl)
]

unfoldable pub visit_names : List Function → FunctionMap → Result FunctionMap
unfolding visit_name
visit_names [] m = ok m
visit_names (f ∷ fs) m = visit_name f m >>= λ m'. visit_names fs m'

unfoldable pub function_names : Program → Result FunctionMap
unfolding visit_names
function_names p = visit_names p.functions []

-- LocalNameCollector: `cur_map`, `fun_name` and `first` are of the function that is visited.
pub record LocalNames : Type 0 where
  pub l_map : List (ℕ × Table DeclNode)
  pub cur_map : Table DeclNode
  pub fun_name : String
  pub first : Bool

unfoldable pub lookup_locals : ℕ → List (ℕ × Table DeclNode) → Option (Table DeclNode)
lookup_locals f [] = none
lookup_locals f ((g, m) ∷ l) = if f == g then some m else lookup_locals f l

unfoldable pub insert_locals :
    ℕ → Table DeclNode → List (ℕ × Table DeclNode) → List (ℕ × Table DeclNode)
unfolding lookup_locals
insert_locals f m l = elim (lookup_locals f l) [ some _ ↦ l | none ↦ l ++ (f, m) ∷ [] ]

unfoldable pub declare : FunctionMap → DeclNode → LocalNames → Result LocalNames
unfolding lookup insert
declare f_map d s =
    if s.first then ok (record s { first = false }) else elim (lookup d.name f_map) [
      | some _ ↦ semantic_error (declared_as_function d)
      | none ↦ elim (lookup d.name s.cur_map) [
        | some _ ↦ semantic_error (redeclared d s.fun_name)
        | none ↦ ok (record s { cur_map = insert d.name d s.cur_map })
      ]
    ]

unfoldable pub use_variable : FunctionMap → Node → String → LocalNames → Result LocalNames
unfolding lookup
use_variable f_map n x s = elim (lookup x f_map) [
  | some _ ↦ ok s
  | none ↦ elim (lookup x s.cur_map) [
    | some _ ↦ ok s
    | none ↦ semantic_error (undeclared n x s.fun_name)
  ]
]

unfoldable pub local_step : FunctionMap → Event → LocalNames → Result LocalNames
unfolding declare use_variable insert_locals
local_step f_map (visit_function f) s =
    ok (record s { cur_map = []; fun_name = f.decl.name; first = true })
local_step f_map (leave_decl d) s = declare f_map d s
local_step f_map (leave_expr (variable n x)) s = use_variable f_map n x s
local_step f_map (leave_function f) s =
    ok (record s { l_map = insert_locals f.decl.node.address s.cur_map s.l_map })
local_step f_map _ s = ok s

unfoldable pub local_steps : FunctionMap → List Event → LocalNames → Result LocalNames
unfolding local_step
local_steps f_map [] s = ok s
local_steps f_map (e ∷ es) s = local_step f_map e s >>= λ s'. local_steps f_map es s'

unfoldable pub local_names : Program → FunctionMap → Result (List (ℕ × Table DeclNode))
unfolding local_steps accept_program
local_names p f_map =
    local_steps f_map (accept_program p)
      (record { l_map = []; cur_map = []; fun_name = ""; first = false })
    >>= λ s. ok s.l_map

-- FieldNameCollector.
unfoldable pub has_name : String → List String → Bool
has_name s [] = false
has_name s (t ∷ ts) = if str_eq s t then true else has_name s ts

unfoldable pub add_field : String → List String → List String
unfolding has_name
add_field s fs = if has_name s fs then fs else fs ++ s ∷ []

unfoldable pub field_step : Event → List String → List String
unfolding add_field
field_step (leave_field n s e) fs = add_field s fs
field_step (leave_expr (access n e s)) fs = add_field s fs
field_step _ fs = fs

unfoldable pub field_steps : List Event → List String → List String
unfolding field_step
field_steps [] fs = fs
field_steps (e ∷ es) fs = field_steps es (field_step e fs)

unfoldable pub field_names : Program → List String
unfolding field_steps accept_program
field_names p = field_steps (accept_program p) []

pub record SymbolTable : Type 0 where
  pub function_map : FunctionMap
  pub local_map : List (ℕ × Table DeclNode)
  pub fields : List String

unfoldable pub build : Program → Result SymbolTable
unfolding function_names local_names field_names
build p = function_names p >>= λ f_map. local_names p f_map >>= λ l_map.
    ok (record { function_map = f_map; local_map = l_map; fields = field_names p })

unfoldable pub get_function : SymbolTable → String → Option DeclNode
unfolding lookup
get_function t s = elim (lookup s t.function_map) [ none ↦ none | some p ↦ some (p.0) ]

unfoldable pub get_poly : SymbolTable → String → Bool
unfolding lookup
get_poly t s = elim (lookup s t.function_map) [ none ↦ false | some p ↦ p.1 ]

unfoldable pub get_functions : SymbolTable → List DeclNode
get_functions t = map (λ e. (e.1).0) t.function_map

-- `getLocal` and `getLocals` read the entry of the function without a test that there is one:
-- `none` is that undefined behaviour, and `some none` the null pointer.
unfoldable pub get_local : SymbolTable → String → ℕ → Option (Option DeclNode)
unfolding lookup lookup_locals
get_local t s f = elim (lookup_locals f t.local_map) [ none ↦ none | some m ↦ some (lookup s m) ]

unfoldable pub get_locals : SymbolTable → ℕ → Option (List DeclNode)
unfolding lookup_locals
get_locals t f = elim (lookup_locals f t.local_map) [
  | none ↦ none
  | some m ↦ some (map (λ e. e.1) m)
]
