-- ===== src/Symbols/Functions.antt =====
-- The names of functions: src/semantic/symboltable/FunctionNameCollector.cpp and the queries of
-- SymbolTable.cpp that read its map.
use sipc.Prelude.{
  ◌≡◌, refl, inl, inr, Bool, true, false, ◌&&◌, String, Option, none, some, List, [], ◌∷◌, str_eq,
  str_eq_iff, Option-cases, arith, if◌then◌else◌,
}
use sipc.Ast.{DeclNode, Function, Program}
use sipc.Symbols.{
  Table, lookup, place, insert, visit_name, visit_names, function_names, Result, ok, semantic_error,
  FunctionMap,
}

-- The first function of a list with a name.
abbrev pub first_named : String → List Function → Option (DeclNode × Bool)
first_named s [] = none
first_named s (f ∷ fs) = if str_eq s f.decl.name then some (f.decl, f.is_poly) else first_named s fs

-- No two functions have one name.
abbrev pub distinct_names : List Function → Bool
distinct_names [] = true
distinct_names (f ∷ fs) = elim (first_named f.decl.name fs) [
  | none ↦ distinct_names fs
  | some _ ↦ false
]

-- Whether a result is no exception.
abbrev pub is_ok {ℓ} : {A : Type ℓ} → Result A → Bool
is_ok (ok _) = true
is_ok (semantic_error _) = false

abbrev is_none {ℓ} : {A : Type ℓ} → Option A → Bool
is_none none = true
is_none (some _) = false

abbrev or_else {ℓ} : {A : Type ℓ} → Option A → Option A → Option A
or_else none b = b
or_else (some a) b = some a

-- No function of the list has a name in the map.
abbrev all_new : List Function → FunctionMap → Bool
all_new [] m = true
all_new (f ∷ fs) m = is_none (lookup f.decl.name m) && all_new fs m

pub lookup-place {ℓ} :
    {A : Type ℓ} (s t : String) (a : A) (m : Table A)
    → lookup s m ≡ none
    → lookup t (place s a m) ≡ (if str_eq t s then some a else lookup t m)
unfolding lookup place
lookup-place s t a [] absent = refl
lookup-place s t a ((u, b) ∷ m) absent =
    ground (arith, lookup-place s t a m, str_eq_iff t s, str_eq_iff t u, str_eq_iff s u)

all_new-place :
    (fs : List Function) (s : String) (a : DeclNode × Bool) (m : FunctionMap)
    → lookup s m ≡ none
    → all_new fs (place s a m) ≡ all_new fs m && is_none (first_named s fs)
all_new-place [] s a m absent = refl
all_new-place (f ∷ fs) s a m absent = ground (
  arith,
  lookup-place s f.decl.name a m absent,
  all_new-place fs s a m absent,
  str_eq_iff f.decl.name s,
  str_eq_iff s f.decl.name,
)

visit_names-is_ok :
    (fs : List Function) (m : FunctionMap)
    → is_ok (visit_names fs m) ≡ all_new fs m && distinct_names fs
unfolding visit_names visit_name insert
visit_names-is_ok [] m = refl
visit_names-is_ok (f ∷ fs) m = ground (
  arith,
  visit_names-is_ok fs (place f.decl.name (f.decl, f.is_poly) m),
  all_new-place fs f.decl.name (f.decl, f.is_poly) m,
)

visit_names-lookup :
    (fs : List Function) (m m' : FunctionMap) (s : String)
    → visit_names fs m ≡ ok m'
    → lookup s m' ≡ or_else (lookup s m) (first_named s fs)
unfolding visit_names visit_name insert
visit_names-lookup [] m m' s runs = ground arith
visit_names-lookup (f ∷ fs) m m' s runs = elim (Option-cases (lookup f.decl.name m)) [
  | inl new ↦ ground (
    arith,
    visit_names-lookup fs (place f.decl.name (f.decl, f.is_poly) m) m' s,
    lookup-place f.decl.name s (f.decl, f.is_poly) m new,
    str_eq_iff s f.decl.name,
  )
  | inr taken ↦ ground (arith, taken.1)
]

all_new_nil : (fs : List Function) → all_new fs [] ≡ true
unfolding lookup
all_new_nil [] = refl
all_new_nil (f ∷ fs) = all_new_nil fs

-- The collector of function names throws no exception if and only if no two functions have one
-- name; and where it ends, the map has for each name the declaration of the function of that name
-- with its `poly` mark, and no entry for other names.
pub function_names_correct :
    (p : Program)
    → (is_ok (function_names p) ≡ distinct_names p.functions)
      × ((m : FunctionMap)
          → function_names p ≡ ok m
          → (s : String) → lookup s m ≡ first_named s p.functions)
unfolding function_names lookup
function_names_correct p = (
  ground (arith, visit_names-is_ok p.functions [], all_new_nil p.functions),
  λ m runs s. visit_names-lookup p.functions [] m s runs,
)
