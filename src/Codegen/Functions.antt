-- ===== src/Codegen/Functions.antt =====
-- `codegen` of a function, in src/codegen/CodeGenFunctions.cpp: its calls have the shape that LLVM
-- asks for, and leave no block open.
use sipc.Prelude.{◌≡◌, sym, ◌∙◌, subst, true, false, ==_iff, String, some, List, [], arith}
use sipc.Ast.{Function}
use sipc.Codegen.{find, Names}
use sipc.Codegen.Rules.{closed, write_to}
use sipc.Codegen.Choices.{is_some}
use sipc.Codegen.Programs.{codegen_function, decl_names}
use sipc.Codegen.Scoped.{listed, body_ok, scope_of, function_ok, all_names, has_vars}
use sipc.Codegen.Sound.{Agrees, and_parts}
use sipc.Codegen.Frames.{Grown, decl_stmts_lem, listed-append}
use sipc.Codegen.Bodies.{
  Leads, Leads-bind, Leads-declares, Leads-end, Leads-clear, Leads-formals, HasFormals,
  get_function_lem, new_entry_lem, verify_lem, gen_body_lem,
}

-- Where the names of the scope are in the maps, and the formals of the function too.
pub record Ready (functions fields : List String) (f : Function) (ns : Names) : Type 0 where
  pub with_functions :
      (x : String) → listed x functions ≡ true → is_some (find x ns.function_index) ≡ true
  pub with_fields : (x : String) → listed x fields ≡ true → is_some (find x ns.field_index) ≡ true
  pub free : HasFormals ns "_tip_main" []
  pub with_formals : find f.decl.name ns.formal_names ≡ some (decl_names f.formals)

agrees :
    {functions fields : List String} {f : Function} {ns a b : Names}
    → Ready functions fields f ns
    → Grown (decl_names f.formals) (record ns { named_values = [] }) a
    → Grown (all_names f.declarations) a b
    → Agrees (scope_of functions fields f) b
unfolding find
agrees {functions} {fields} {f} {ns} {a} {b} rd g h = record {
  addresses = h.addresses_kept (g.addresses_kept λ x v e. ground (arith, e));
  of_locals = λ x e. h.has x (
      ground
        (arith, g.has x, e, listed-append x (decl_names f.formals) (all_names f.declarations)));
  of_functions = λ x e.
      subst (λ m. is_some (find x m) ≡ true) (sym (h.functions_kept ∙ g.functions_kept))
        (rd.with_functions x e);
  of_fields = λ x e.
      subst (λ m. is_some (find x m) ≡ true) (sym (h.fields_kept ∙ g.fields_kept))
        (rd.with_fields x e);
}

pub codegen_function_lem :
    (functions fields : List String) (f : Function) {ns : Names}
    → function_ok functions fields f ≡ true
    → Ready functions fields f ns
    → Leads ns (closed [] [] (some false)) (codegen_function f) (closed [] [] (some false))
unfolding codegen_function
codegen_function_lem functions fields f {ns} ok_f rd =
    let xs = decl_names f.formals in
    let p =
      and_parts (has_vars f.declarations) (body_ok (scope_of functions fields f) f.stmts) ok_f in
    Leads-bind (get_function_lem f.decl.name _ rd.free rd.with_formals) λ the_function same.
      Leads-bind (new_entry_lem (the_function.0)) λ entry _.
        Leads-bind (write_to entry [] (ground (arith, ==_iff entry entry))) λ _ _. Leads-clear λ _.
          Leads-formals f.decl.name (the_function.1) xs rd.with_formals same λ a _ g.
            Leads-declares (decl_stmts_lem [] [] f.declarations (p.0)) λ b _ h.
              Leads-bind (gen_body_lem (agrees rd g h) f.stmts (p.1))
                λ _ _. Leads-end (verify_lem (the_function.0))
