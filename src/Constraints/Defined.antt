-- ===== src/Constraints/Defined.antt =====
-- The collection of constraints on a whole program, in the order of its traversal: which events
-- come between those of a function, and the functions that the symbol table lists.
use sipc.Prelude.{◌≡◌, refl, Bool, true, ◌&&◌, Option, none, some, List, [], ◌∷◌, ◌++◌, arith}
use sipc.Ast.{
  Function, Program, Event, leave_expr, leave_stmt, visit_function, leave_function, accept_function,
  accept_functions, accept_program,
}
use sipc.Ast.Inner.{inner_event, inner, inside, inner-inside}
use sipc.Symbols.{SymbolTable, lookup_locals, ok, build}
use sipc.Unifier.{TypeConstraint}
use sipc.Constraints.{◌>>=◌, Visitor}
use sipc.Constraints.Traversal.{step, steps, collect, last_return}
use sipc.Constraints.Keeps.{Ready, Keeps, Ready-keeps}
use sipc.Constraints.Total.{end_expr_lem, end_stmt_lem, end_function_lem}
use sipc.Constraints.Listed.{
  accept_function_lem, is_some, is_some_lem, has_entry, all_listed, build_lem,
}

steps-++ : (xs ys : List Event) (v : Visitor) → steps (xs ++ ys) v ≡ (steps xs v >>= steps ys)
unfolding steps
steps-++ [] ys v = refl
steps-++ (x ∷ xs) ys v = go (λ w. steps-++ xs ys w) (step x v)
  where
    go :
        ((w : Visitor) → steps (xs ++ ys) w ≡ (steps xs w >>= steps ys))
        → (o : Option Visitor) → (o >>= steps (xs ++ ys)) ≡ (o >>= steps xs >>= steps ys)
    go h none = refl
    go h (some w) = h w

step_lem : (e : Event) (v : Visitor) → Ready v → inner_event e ≡ true → Keeps v (step e v)
unfolding step
step_lem (leave_expr e) v r i = end_expr_lem e v r
step_lem (leave_stmt s) v r i = end_stmt_lem s v r
step_lem (visit_function f) v r i = ground arith
step_lem (leave_function f) v r i = ground arith
step_lem _ v r i = record { after = v; returns = refl; same_scope = refl; same_symbols = refl }

steps_lem : (es : List Event) (v : Visitor) → Ready v → inner es ≡ true → Keeps v (steps es v)
unfolding steps
steps_lem [] v r i = record { after = v; returns = refl; same_scope = refl; same_symbols = refl }
steps_lem (e ∷ es) v r i =
    let k = step_lem e v r (ground (arith, i)) in
    let l = steps_lem es k.after (Ready-keeps r k.same_scope k.same_symbols) (ground (arith, i)) in
    record {
      after = l.after;
      returns = ground (arith, k.returns, l.returns);
      same_scope = ground (arith, k.same_scope, l.same_scope);
      same_symbols = ground (arith, k.same_symbols, l.same_symbols);
    }

-- Each function of the list ends in a `return`.
abbrev pub all_return : List Function → Bool
all_return [] = true
all_return (f ∷ fs) = is_some (last_return f.stmts) && all_return fs

function_lem :
    (f : Function) (v : Visitor)
    → is_some (last_return f.stmts) ≡ true
    → has_entry f v.symbols.local_map ≡ true
    → (w : Visitor) × (steps (accept_function f) v ≡ some w) × (w.symbols ≡ v.symbols)
unfolding steps step
function_lem f v ends listed =
    let e = is_some_lem (last_return f.stmts) ends in
    let m = is_some_lem (lookup_locals f.decl.node.address v.symbols.local_map) listed in
    let u : Visitor = record v { scope = f.decl.node.address ∷ v.scope } in
    let r : Ready u = record {
      current = f.decl.node.address;
      below = v.scope;
      names = m.0;
      stack = refl;
      listed = m.1;
    } in
    let k = steps_lem (inside f) u r (inner-inside f) in
    let l = end_function_lem f k.after (e.0) (Ready-keeps r k.same_scope k.same_symbols) (e.1) in
    (
      l.after,
      ground (
        arith,
        accept_function_lem f,
        steps-++ (inside f) (leave_function f ∷ []) u,
        k.returns,
        l.returns,
      ),
      ground (arith, k.same_symbols, l.same_symbols),
    )

functions_lem :
    (fs : List Function) (v : Visitor)
    → all_return fs ≡ true
    → all_listed fs v.symbols.local_map ≡ true
    → (w : Visitor) × (steps (accept_functions fs) v ≡ some w)
unfolding accept_functions steps
functions_lem [] v ends listed = (v, refl)
functions_lem (f ∷ fs) v ends listed =
    let a = function_lem f v (ground (arith, ends)) (ground (arith, listed)) in
    let b = functions_lem fs (a.0) (ground (arith, ends)) (ground (arith, listed, a.2)) in
    (b.0, ground (arith, steps-++ (accept_function f) (accept_functions fs) v, a.1, b.1))

-- Where the symbol table was built from a program whose functions end in a `return`, the traversal
-- that collects the type constraints of the program is defined throughout.
pub collect_defined :
    (p : Program) (st : SymbolTable)
    → build p ≡ ok st
    → all_return p.functions ≡ true
    → (cs : List TypeConstraint) × (collect st p ≡ some cs)
unfolding collect accept_program
collect_defined p st e ends =
    let r =
      functions_lem p.functions (record { symbols = st; scope = []; collected = [] }) ends
        (build_lem p st e) in
    ((r.0).collected, ground (arith, r.1))
