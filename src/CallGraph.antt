-- ===== src/CallGraph.antt =====
-- src/semantic/cfa/CallGraph.cpp and the order in which src/semantic/types/TypeInference.cpp takes
-- the functions of a call graph. A function is the address of its node. The maps and sets keyed by
-- pointers are lists in the order of their iteration.
-- The two recursions of TypeInference.cpp run on fuel; `none` is a run that lacks it.
pub mod Order
pub mod Callees
pub mod Queries
use sipc.Prelude.{
  ℕ, zero, suc, ◌+◌, Bool, true, false, String, Option, none, some, List, [], ◌∷◌, ◌++◌, ◌==◌,
  str_eq, if◌then◌else◌, length, ◌&&◌,
}
use sipc.Symbols.{Table, lookup, str_lt}

infixl 5 ◌>>=◌
abbrev pub ◌>>=◌ {ℓ κ} : {A : Type ℓ} {B : Type κ} → Option A → (A → Option B) → Option B
none >>= f = none
some a >>= f = f a

-- `name` reads the name of the function at an address.
pub record CallGraph : Type 0 where
  pub name : ℕ → String
  pub call_graph : List (ℕ × List ℕ)
  pub may_call : List (ℕ × List ℕ)
  pub vertices : List ℕ
  pub edges : List (ℕ × ℕ)
  pub fun_map : Table ℕ

unfoldable pub member : ℕ → List ℕ → Bool
member x [] = false
member x (y ∷ ys) = if x == y then true else member x ys

unfoldable pub entry : ℕ → List (ℕ × List ℕ) → Option (List ℕ)
entry x [] = none
entry x ((y, ys) ∷ g) = if x == y then some ys else entry x g

unfoldable pub count_edges : List (ℕ × List ℕ) → ℕ
count_edges [] = 0
count_edges ((f, gs) ∷ g) = length gs + count_edges g

unfoldable pub get_total_edges : CallGraph → ℕ
unfolding count_edges
get_total_edges cg = count_edges cg.call_graph

unfoldable pub edges_of : ℕ → List ℕ → List (ℕ × ℕ)
edges_of f [] = []
edges_of f (d ∷ ds) = (f, d) ∷ edges_of f ds

unfoldable pub all_edges : List (ℕ × List ℕ) → List (ℕ × ℕ)
unfolding edges_of
all_edges [] = []
all_edges ((f, ds) ∷ g) = edges_of f ds ++ all_edges g

-- `getEdges` pushes onto a member, which it returns.
unfoldable pub get_edges : CallGraph → List (ℕ × ℕ) × CallGraph
unfolding all_edges
get_edges cg = let es = cg.edges ++ all_edges cg.call_graph in (es, record cg { edges = es })

-- `mayCall[e]`, which enters an empty set for a new key; the entry is not modelled, as nothing
-- tells it from a missing one.
unfoldable pub get_called_funs : CallGraph → ℕ → List ℕ
unfolding entry
get_called_funs cg e = elim (entry e cg.may_call) [ none ↦ [] | some fs ↦ fs ]

unfoldable pub get_callees : CallGraph → ℕ → List ℕ
unfolding entry
get_callees cg f = elim (entry f cg.call_graph) [ none ↦ [] | some fs ↦ fs ]

-- The callees of the last function with the name.
unfoldable pub callees_named : (ℕ → String) → String → List (ℕ × List ℕ) → List ℕ → List ℕ
callees_named name s [] found = found
callees_named name s ((f, fs) ∷ g) found =
    callees_named name s g (if str_eq (name f) s then fs else found)

unfoldable pub get_callees_by_name : CallGraph → String → List ℕ
unfolding callees_named
get_callees_by_name cg s = callees_named cg.name s cg.call_graph []

unfoldable pub callers_among : ℕ → List (ℕ × List ℕ) → List ℕ
unfolding member
callers_among f [] = []
callers_among f ((g, gs) ∷ rest) =
    if member f gs then g ∷ callers_among f rest else callers_among f rest

unfoldable pub get_callers : CallGraph → ℕ → List ℕ
unfolding callers_among
get_callers cg f = callers_among f cg.call_graph

-- A set of names, in their order.
unfoldable pub insert_name : String → List String → List String
insert_name s [] = s ∷ []
insert_name s (t ∷ ts) =
    if str_eq s t then t ∷ ts else if str_lt s t then s ∷ t ∷ ts else t ∷ insert_name s ts

unfoldable pub any_named : (ℕ → String) → String → List ℕ → Bool
any_named name s [] = false
any_named name s (f ∷ fs) = if str_eq (name f) s then true else any_named name s fs

unfoldable pub callers_named : (ℕ → String) → String → List (ℕ × List ℕ) → List String → List String
unfolding insert_name any_named
callers_named name s [] found = found
callers_named name s ((f, fs) ∷ g) found =
    callers_named name s g (if any_named name s fs then insert_name (name f) found else found)

unfoldable pub get_callers_by_name : CallGraph → String → List String
unfolding callers_named
get_callers_by_name cg s = callers_named cg.name s cg.call_graph []

-- `fromFunNameToASTFuns[f_name]`; for a new name it enters and returns the null pointer, `none`.
unfoldable pub get_ast_fun : CallGraph → String → Option ℕ
unfolding lookup
get_ast_fun cg s = lookup s cg.fun_map

unfoldable pub get_total_vertices : CallGraph → ℕ
get_total_vertices cg = length cg.vertices

unfoldable pub some_edge : (ℕ → String) → String → String → List (ℕ × ℕ) → Bool
some_edge name caller callee [] = false
some_edge name caller callee ((f, g) ∷ es) =
    if str_eq (name f) caller && str_eq (name g) callee
    then true
    else some_edge name caller callee es

unfoldable pub exist_edge : String → String → CallGraph → Bool × CallGraph
unfolding some_edge get_edges
exist_edge caller callee cg = let p = get_edges cg in (some_edge cg.name caller callee (p.0), p.1)

-- TypeInference.cpp: the two variables of its unnamed namespace.
pub record Sort : Type 0 where
  pub unmarked : List ℕ
  pub sorted : List ℕ

-- `erase` at the position that `find` gives.
unfoldable pub erase : ℕ → List ℕ → List ℕ
erase x [] = []
erase x (y ∷ ys) = if x == y then ys else y ∷ erase x ys

-- The loop over the callees, with the recursive call passed in.
unfoldable pub visit_callees : (ℕ → Sort → Option Sort) → List ℕ → Sort → Option Sort
visit_callees call [] s = some s
visit_callees call (c ∷ cs) s = call c s >>= visit_callees call cs

unfoldable pub topo_visit : ℕ → CallGraph → ℕ → Sort → Option Sort
unfolding visit_callees erase member get_callees
topo_visit zero cg f s = none
topo_visit (suc fuel) cg f s =
    if member f s.unmarked
    then visit_callees (topo_visit fuel cg) (get_callees cg f)
        (record s { unmarked = erase f s.unmarked })
      >>= (λ s'. some (record s' { sorted = s'.sorted ++ f ∷ [] }))
    else some s

unfoldable pub back : List ℕ → Option ℕ
back [] = none
back (x ∷ []) = some x
back (x ∷ y ∷ ys) = back (y ∷ ys)

-- The loop of `topoSort`; the first number bounds its rounds, the second the recursion.
unfoldable pub topo_loop : ℕ → ℕ → CallGraph → Sort → Option (List ℕ)
unfolding topo_visit back
topo_loop zero fuel cg s = none
topo_loop (suc rounds) fuel cg s = elim (back s.unmarked) [
  | none ↦ some s.sorted
  | some f ↦ topo_visit fuel cg f s >>= topo_loop rounds fuel cg
]

unfoldable pub topo_sort : ℕ → CallGraph → List ℕ → Option (List ℕ)
unfolding topo_loop
topo_sort fuel cg funcs = topo_loop fuel fuel cg (record { unmarked = funcs; sorted = [] })

-- The loop of `mayIndirectlyCall`, with its `result` so far. Once `result` is true no further
-- call is made, but the loop goes on.
unfoldable pub any_call : (ℕ → Option Bool) → List ℕ → ℕ → Bool → Option Bool
any_call call [] g found = some found
any_call call (c ∷ cs) g true = if c == g then some true else any_call call cs g true
any_call call (c ∷ cs) g false = if c == g then some true else call c >>= any_call call cs g

unfoldable pub may_indirectly_call : ℕ → CallGraph → ℕ → ℕ → Option Bool
unfolding any_call get_callees
may_indirectly_call zero cg f g = none
may_indirectly_call (suc fuel) cg f g =
    any_call (λ c. may_indirectly_call fuel cg c g) (get_callees cg f) g false

unfoldable pub recursive_among : ℕ → CallGraph → List ℕ → Option (List ℕ)
unfolding may_indirectly_call
recursive_among fuel cg [] = some []
recursive_among fuel cg (f ∷ fs) = may_indirectly_call fuel cg f f >>= λ b.
    recursive_among fuel cg fs >>= λ rs. some (if b then f ∷ rs else rs)

unfoldable pub recursive_funcs : ℕ → CallGraph → Option (List ℕ)
unfolding recursive_among
recursive_funcs fuel cg = recursive_among fuel cg cg.vertices

-- Whether a function is one of the recursive ones or may call one.
unfoldable pub is_filtered : ℕ → CallGraph → ℕ → List ℕ → Option Bool
unfolding may_indirectly_call
is_filtered fuel cg f [] = some false
is_filtered fuel cg f (r ∷ rs) =
    let rest = is_filtered fuel cg f rs in
    (if f == r then some true else may_indirectly_call fuel cg f r) >>= λ b.
    if b then some true else rest

unfoldable pub keep_among : ℕ → CallGraph → List ℕ → List ℕ → Option (List ℕ)
unfolding is_filtered
keep_among fuel cg rs [] = some []
keep_among fuel cg rs (f ∷ fs) = is_filtered fuel cg f rs >>= λ b.
    keep_among fuel cg rs fs >>= λ ks. some (if b then ks else f ∷ ks)

unfoldable pub topo_sort_non_recursive : ℕ → CallGraph → Option (List ℕ)
unfolding recursive_funcs keep_among topo_sort
topo_sort_non_recursive fuel cg =
    recursive_funcs fuel cg >>= λ rs. keep_among fuel cg rs cg.vertices >>= topo_sort fuel cg
