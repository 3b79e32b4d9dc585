-- ===== src/Constraints/Listed.antt =====
-- The functions that `SymbolTable::build` of src/semantic/symboltable/SymbolTable.cpp lists: it
-- keeps an entry of local names for each function of the program.
use sipc.Prelude.{
  String, ◌≡◌, refl, ap, ℕ, Bool, true, false, ◌&&◌, ◌||◌, Option, none, some, List, [], ◌∷◌, ◌++◌,
  arith, ◌==◌, ==_iff, Option-cases,
}
use sipc.Ast.{
  Node, DeclNode, Function, Program, variable, Event, leave_expr, leave_decl, visit_function,
  leave_function, accept_stmts, accept_decls, accept_decl_stmts, accept_function, accept_functions,
  accept_program,
}
use sipc.Ast.Inner.{inside}
use sipc.Symbols.{
  SymbolTable, lookup, lookup_locals, insert_locals, Table, FunctionMap, LocalNames, Result,
  ◌>>=◌ as result_bind, ok, semantic_error, local_step, local_steps, local_names, function_names,
  field_names, build, declare, use_variable,
}

append_assoc : (xs ys zs : List Event) → (xs ++ ys) ++ zs ≡ xs ++ (ys ++ zs)
append_assoc [] ys zs = refl
append_assoc (x ∷ xs) ys zs = ap (λ l. x ∷ l) (append_assoc xs ys zs)

pub accept_function_lem :
    (f : Function) → accept_function f ≡ visit_function f ∷ (inside f ++ leave_function f ∷ [])
unfolding accept_function
accept_function_lem f = ground (
  arith,
  append_assoc (accept_decls f.formals) (accept_decl_stmts f.declarations ++ accept_stmts f.stmts)
      (leave_function f ∷ []),
  append_assoc (accept_decl_stmts f.declarations) (accept_stmts f.stmts) (leave_function f ∷ []),
)

abbrev pub is_some {ℓ} : {A : Type ℓ} → Option A → Bool
is_some none = false
is_some (some _) = true

pub is_some_lem : {A : Type 0} (o : Option A) → is_some o ≡ true → (a : A) × (o ≡ some a)
is_some_lem none e = ground arith
is_some_lem (some a) e = (a, refl)

-- The map of local names has an entry for a function, and for each of a list.
abbrev pub has_entry : Function → List (ℕ × Table DeclNode) → Bool
has_entry f l = is_some (lookup_locals f.decl.node.address l)

abbrev pub all_listed : List Function → List (ℕ × Table DeclNode) → Bool
all_listed [] l = true
all_listed (f ∷ fs) l = has_entry f l && all_listed fs l

-- An event that leaves the function at an address.
abbrev pub leaves_event : ℕ → Event → Bool
leaves_event k (leave_function f) = k == f.decl.node.address
leaves_event k _ = false

abbrev pub leaves : ℕ → List Event → Bool
leaves k [] = false
leaves k (e ∷ es) = leaves_event k e || leaves k es

leaves-++ : (k : ℕ) (xs ys : List Event) → leaves k (xs ++ ys) ≡ leaves k xs || leaves k ys
leaves-++ k [] ys = refl
leaves-++ k (x ∷ xs) ys = ground (arith, leaves-++ k xs ys)

lookup_locals-snoc :
    (k a : ℕ) (m : Table DeclNode) (l : List (ℕ × Table DeclNode))
    → is_some (lookup_locals k (l ++ (a, m) ∷ [])) ≡ is_some (lookup_locals k l) || (k == a)
unfolding lookup_locals
lookup_locals-snoc k a m [] = ground arith
lookup_locals-snoc k a m ((b, n) ∷ l) = ground (arith, lookup_locals-snoc k a m l)

insert_locals_lem :
    (k a : ℕ) (m : Table DeclNode) (l : List (ℕ × Table DeclNode))
    → is_some (lookup_locals k (insert_locals a m l)) ≡ is_some (lookup_locals k l) || (k == a)
unfolding insert_locals
insert_locals_lem k a m l =
    ground (arith, lookup_locals-snoc k a m l, Option-cases (lookup_locals a l), ==_iff k a)

declare_map :
    (fm : FunctionMap) (d : DeclNode) (s s' : LocalNames)
    → declare fm d s ≡ ok s'
    → s'.l_map ≡ s.l_map
unfolding declare
declare_map fm d s s' e =
    ground (arith, Option-cases (lookup d.name fm), Option-cases (lookup d.name s.cur_map))

use_variable_map :
    (fm : FunctionMap) (n : Node) (x : String) (s s' : LocalNames)
    → use_variable fm n x s ≡ ok s'
    → s'.l_map ≡ s.l_map
unfolding use_variable
use_variable_map fm n x s s' e =
    ground (arith, Option-cases (lookup x fm), Option-cases (lookup x s.cur_map))

abbrev pub known : ℕ → LocalNames → Bool
known k s = is_some (lookup_locals k s.l_map)

local_step_lem :
    (k : ℕ) (fm : FunctionMap) (e : Event) (s s' : LocalNames)
    → local_step fm e s ≡ ok s'
    → known k s' ≡ known k s || leaves_event k e
unfolding local_step
local_step_lem k fm (visit_function f) s s' e = ground arith
local_step_lem k fm (leave_decl d) s s' e = ground (arith, declare_map fm d s s' e)
local_step_lem k fm (leave_expr (variable n x)) s s' e =
    ground (arith, use_variable_map fm n x s s' e)
local_step_lem k fm (leave_function f) s s' e =
    ground (arith, insert_locals_lem k f.decl.node.address s.cur_map s.l_map)
local_step_lem k fm _ s s' e = ground arith

local_steps_lem :
    (k : ℕ) (fm : FunctionMap) (es : List Event) (s s' : LocalNames)
    → local_steps fm es s ≡ ok s'
    → known k s' ≡ known k s || leaves k es
unfolding local_steps
local_steps_lem k fm [] s s' e = ground arith
local_steps_lem k fm (x ∷ es) s s' e =
    split (λ t. local_steps_lem k fm es t s') (local_step fm x s) refl e
  where
    split :
        ((t : LocalNames) → local_steps fm es t ≡ ok s' → known k s' ≡ known k t || leaves k es)
        → (o : Result LocalNames) → local_step fm x s ≡ o
        → result_bind o (local_steps fm es) ≡ ok s'
        → known k s' ≡ known k s || leaves k (x ∷ es)
    split ih (ok t) h q = ground (arith, ih t q, local_step_lem k fm x s t h)
    split ih (semantic_error err) h q = ground arith

leaves_function : (f : Function) → leaves f.decl.node.address (accept_function f) ≡ true
leaves_function f = ground (
  arith,
  accept_function_lem f,
  leaves-++ f.decl.node.address (inside f) (leave_function f ∷ []),
  ==_iff f.decl.node.address f.decl.node.address,
)

leaves_functions :
    (k : ℕ) (f : Function) (fs : List Function)
    → leaves k (accept_functions (f ∷ fs))
      ≡ leaves k (accept_function f) || leaves k (accept_functions fs)
unfolding accept_functions
leaves_functions k f fs = leaves-++ k (accept_function f) (accept_functions fs)

all_left :
    (fs : List Function) (es : List Event) (l : List (ℕ × Table DeclNode))
    → ((k : ℕ) → is_some (lookup_locals k l) ≡ leaves k es || leaves k (accept_functions fs))
    → all_listed fs l ≡ true
all_left [] es l h = refl
all_left (f ∷ fs) es l h = ground (
  arith,
  h f.decl.node.address,
  leaves_functions f.decl.node.address f fs,
  leaves_function f,
  all_left fs (es ++ accept_function f) l
      (λ k. ground (arith, h k, leaves_functions k f fs, leaves-++ k es (accept_function f))),
)

local_names_lem :
    (p : Program) (fm : FunctionMap) (l : List (ℕ × Table DeclNode))
    → local_names p fm ≡ ok l
    → all_listed p.functions l ≡ true
unfolding local_names accept_program lookup_locals
local_names_lem p fm l e = split (local_steps fm (accept_functions p.functions) start) refl e
  where
    start : LocalNames
    start = record { l_map = []; cur_map = []; fun_name = ""; first = false }

    split :
        (o : Result LocalNames)
        → local_steps fm (accept_functions p.functions) start ≡ o
        → result_bind o (λ s. ok s.l_map) ≡ ok l
        → all_listed p.functions l ≡ true
    split (ok s) h q =
        all_left p.functions [] l
          (λ k. ground (arith, q, local_steps_lem k fm (accept_functions p.functions) start s h))
    split (semantic_error err) h q = ground arith

pub build_lem :
    (p : Program) (st : SymbolTable) → build p ≡ ok st → all_listed p.functions st.local_map ≡ true
unfolding build
build_lem p st e = names (function_names p) e
  where
    locals :
        (fm : FunctionMap) (o : Result (List (ℕ × Table DeclNode)))
        → local_names p fm ≡ o
        → result_bind o
            (λ l. ok (record { function_map = fm; local_map = l; fields = field_names p }))
          ≡ ok st
        → all_listed p.functions st.local_map ≡ true
    locals fm (ok l) h q = ground (arith, q, local_names_lem p fm l h)
    locals fm (semantic_error err) h q = ground arith

    names :
        (o : Result FunctionMap)
        → result_bind o (λ fm.
          result_bind
            (local_names p fm)
            (λ l. ok (record { function_map = fm; local_map = l; fields = field_names p })))
          ≡ ok st
        → all_listed p.functions st.local_map ≡ true
    names (ok fm) q = locals fm (local_names p fm) refl q
    names (semantic_error err) q = ground arith
