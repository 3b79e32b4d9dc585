-- ===== src/Ast/Inner.antt =====
-- What `accept` of src/frontend/ast/treetypes calls between the two events of a function: no event
-- of another function.
use sipc.Prelude.{◌≡◌, refl, Bool, true, false, ◌&&◌, List, [], ◌∷◌, ◌++◌, arith}
use sipc.Ast.{
  DeclNode, DeclStmt, Function, Event, leave_decl, leave_decl_stmt, visit_function, leave_function,
  accept_stmts, accept_decls, accept_decl_stmts,
}
use sipc.Ast.Every.{every}
use sipc.Ast.Quiet.{quiet, every-quiet}

-- No event of the list enters or leaves a function.
abbrev pub inner_event : Event → Bool
inner_event (visit_function f) = false
inner_event (leave_function f) = false
inner_event _ = true

abbrev pub inner : List Event → Bool
inner [] = true
inner (e ∷ es) = inner_event e && inner es

inner-++ : (xs ys : List Event) → inner (xs ++ ys) ≡ inner xs && inner ys
inner-++ [] ys = refl
inner-++ (x ∷ xs) ys = ground (arith, inner-++ xs ys)

-- A list without the events that `quiet` excludes has no event of a function.
quiet-inner : (es : List Event) → every quiet es ≡ true → inner es ≡ true
quiet-inner [] h = refl
quiet-inner (e ∷ es) h = ground (arith, h, quiet-inner es)

decls_inner : (ds : List DeclNode) → inner (accept_decls ds) ≡ true
unfolding accept_decls
decls_inner [] = refl
decls_inner (d ∷ ds) = decls_inner ds

decl_stmts_inner : (ds : List DeclStmt) → inner (accept_decl_stmts ds) ≡ true
unfolding accept_decl_stmts
decl_stmts_inner [] = refl
decl_stmts_inner (d ∷ ds) = ground (
  arith,
  inner-++ (accept_decls d.vars) (leave_decl_stmt d ∷ accept_decl_stmts ds),
  decls_inner d.vars,
  decl_stmts_inner ds,
)

-- The events between those that enter and leave a function.
abbrev pub inside : Function → List Event
inside f =
    leave_decl f.decl
    ∷ (accept_decls f.formals ++ (accept_decl_stmts f.declarations ++ accept_stmts f.stmts))

pub inner-inside : (f : Function) → inner (inside f) ≡ true
inner-inside f = ground (
  arith,
  inner-++ (accept_decls f.formals) (accept_decl_stmts f.declarations ++ accept_stmts f.stmts),
  inner-++ (accept_decl_stmts f.declarations) (accept_stmts f.stmts),
  decls_inner f.formals,
  decl_stmts_inner f.declarations,
  quiet-inner (accept_stmts f.stmts) (every-quiet f.stmts),
)
