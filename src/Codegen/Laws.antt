-- ===== src/Codegen/Laws.antt =====
-- `CodeGenerator::generate` and `codegen` of a program, in src/codegen.
use sipc.Prelude.{
  ◌≡◌, refl, sym, ◌∙◌, subst, ℕ, pos, true, false, ==_iff, String, Option, none, some, List, [],
  ◌∷◌, arith, str_eq, str_eq_iff, not, ◌&&◌, Bool, Bool-cases, inl, inr, if◌then◌else◌,
}
use sipc.Ast.{Function, Program}
use sipc.Codegen.{
  constant, type_of, find, Names, Generator, ok, M, ◌>>=◌, ◌>>◌, call, ret, tip_main_undefined,
  create_function_table, verify_module, tell, for_all, find_function,
}
use sipc.Codegen.Shape.{shape}
use sipc.Codegen.Edges.{flow, phis_agree, Follows-same}
use sipc.Codegen.Rules.{Spot, At, Fit, Gives, bind, closed, emit, emit_last, write_to}
use sipc.Codegen.Reads.{>>=_run, pure_run, give}
use sipc.Codegen.Choices.{is_some}
use sipc.Codegen.Programs.{
  decl_names, declare_functions, define_main, gen_globals, gen_record_type, reset_labels,
  declare_function, index_functions, index_fields, codegen_function, codegen_program, initial,
  generate,
}
use sipc.Codegen.Scoped.{
  listed, function_names, unique, function_ok, functions_ok, program_ok, is_reserved,
  functions_plain,
}
use sipc.Codegen.Sound.{and_parts}
use sipc.Codegen.Bodies.{HasFormals, declare_lem, get_function_lem, new_entry_lem}
use sipc.Codegen.Functions.{codegen_function_lem}
use sipc.Codegen.Indexes.{
  indexed, fields_indexed, index_functions_run, index_fields_run, function_index_has,
  field_index_has, fields_indexed_keeps, FormalsFound, formals_indexed, formals_indexed_other,
}

abbrev outside : Spot
outside = closed [] [] (some false)

-- The computation ends without an error, whatever it adds to the maps.
record Ends {A : Type 0} (ns : Names) (m : M A) : Type 0 where
  run :
      (s : Generator)
      → At ns outside s
      → (a : A) × (s' : Generator) × (ns' : Names) × (m s ≡ ok a s') × At ns' outside s'

module _ {ns : Names} {A B : Type 0} {m : M A} {f : A → M B} where
  Ends-bind :
      {F : A → Type 0}
      → Gives ns outside m F (λ a. outside)
      → ((a : A) → Ends ns (f a))
      → Ends ns (m >>= f)
  Ends-bind hm hf = record {
    run = λ s at.
        let x = hm.run s at in
        let y = (hf (x.0)).run (x.1) (x.4) in (y.0, y.1, y.2, >>=_run m f (x.2) (y.3), y.4);
  }

-- A call outside of blocks.
tell_lem :
    {ns : Names} {A : Type 0} {m : M A}
    → ((s : Generator)
        → (a : A) × (s' : Generator) × (m s ≡ ok a s')
          × (shape s'.calls ≡ shape s.calls)
          × (s'.blocks ≡ s.blocks)
          × (s'.l_value_gen ≡ s.l_value_gen)
          × (s'.names ≡ s.names)
          × (s'.declared ≡ s.declared)
          × (flow s'.calls ≡ flow s.calls)
          × (s'.insert_at ≡ s.insert_at))
    → Gives ns outside m (λ a. Unit) (λ a. outside)
tell_lem {ns} h = record {
  run = λ s at.
      let x = h s in
      (
        x.0,
        x.1,
        x.2,
        tt,
        record {
          fits = ground (arith, x.3, x.4, at.fits);
          fresh = refl;
          exist = refl;
          flag = x.5 ∙ at.flag;
          same_names = x.6 ∙ at.same_names;
          args_fit = subst (Fit ns.formal_names) (sym (x.7)) at.args_fit;
          flows = Follows-same (x.8) (x.9) (x.4) at.flows;
        },
      );
}

declare_functions_lem :
    {ns : Names} (fs : List Function)
    → HasFormals ns "_tip_main" []
    → FormalsFound ns fs
    → Gives ns outside (declare_functions fs) (λ xs. Unit) (λ xs. outside)
unfolding declare_functions
declare_functions_lem [] free h = give [] tt
declare_functions_lem (f ∷ fs) free h =
    bind (get_function_lem f.decl.name _ free (h.0)) λ the_function _.
      bind (declare_functions_lem fs free (h.1)) λ names _. give (the_function.0 ∷ names) tt

define_main_lem :
    {ns : Names} (o : Option ℕ)
    → HasFormals ns "_tip_main" []
    → HasFormals ns "_tip_main_undefined" []
    → Gives ns outside (define_main o) (λ n. Unit) (λ n. outside)
unfolding define_main type_of
define_main_lem (some i) main undefined = give i tt
define_main_lem none main undefined = bind (declare_lem "_tip_main" [] main) λ m _.
    bind (new_entry_lem (m.0)) λ entry _.
      bind (write_to entry [] (ground (arith, ==_iff entry entry))) λ _ _.
        bind (declare_lem "_tip_main_undefined" [] undefined) λ _ _.
          bind (emit (call tip_main_undefined []) refl refl) λ _ _.
            bind (emit_last (ret (constant (pos 0))) refl refl (λ n h. refl)) λ _ _. give 0 tt

find_function_lem :
    {ns : Names} (x : String) → Gives ns outside (find_function x) (λ o. Unit) (λ o. outside)
unfolding find_function
find_function_lem x = record { run = λ s at. (_, s, refl, tt, at) }

-- Every function of the list can be generated.
abbrev AllReady : (functions fields : List String) → List Function → Names → Type 0
AllReady functions fields fs ns =
    ((x : String) → listed x functions ≡ true → is_some (find x ns.function_index) ≡ true)
    × ((x : String) → listed x fields ≡ true → is_some (find x ns.field_index) ≡ true)
    × HasFormals ns "_tip_main" []
    × FormalsFound ns fs

FormalsFound-Kept :
    (fs : List Function) (a b : Names)
    → a.formal_names ≡ b.formal_names
    → FormalsFound b fs
    → FormalsFound a fs
FormalsFound-Kept [] a b e h = tt
FormalsFound-Kept (f ∷ fs) a b e h = (
  subst (λ m. find f.decl.name m ≡ some (decl_names f.formals)) (sym e) (h.0),
  FormalsFound-Kept fs a b e (h.1),
)

functions_lem :
    (functions fields : List String) (fs : List Function) {ns : Names}
    → functions_ok functions fields fs ≡ true
    → AllReady functions fields fs ns
    → Ends ns (for_all codegen_function fs)
unfolding for_all
functions_lem functions fields [] {ns} e rd = record { run = λ s at. (0, s, ns, pure_run 0 s, at) }
functions_lem functions fields (f ∷ fs) {ns} e rd =
    let p = and_parts (function_ok functions fields f) (functions_ok functions fields fs) e in
    let first =
      codegen_function_lem functions fields f (p.0) (record {
        with_functions = rd.0;
        with_fields = rd.1;
        free = rd.2;
        with_formals = rd.3.0;
      }) in
    record {
      run = λ s at.
          let x = first.run s at in
          let kept = x.4 in
          let y =
            (functions_lem functions fields fs {ns = x.2} (p.1) (
              (λ t h. subst (λ m. is_some (find t m) ≡ true) (sym kept.functions_same) (rd.0 t h)),
              (λ t h. subst (λ m. is_some (find t m) ≡ true) (sym kept.fields_same) (rd.1 t h)),
              (λ ys h. rd.2 ys (subst (λ m. find "_tip_main" m ≡ some ys) kept.formals_same h)),
              FormalsFound-Kept fs (x.2) ns kept.formals_same (rd.3.1),
            )).run
              (x.1) (x.5) in
          (y.0, y.1, y.2, >>=_run (codegen_function f) _ (x.3) (y.3), y.4);
    }

Ends-then :
    {ns : Names} {A B : Type 0} {m : M A} {f : A → M B}
    → Ends ns m
    → ((ns' : Names) (a : A) → Ends ns' (f a))
    → Ends ns (m >>= f)
Ends-then {m = m} {f = f} hm hf = record {
  run = λ s at.
      let x = hm.run s at in
      let y = (hf (x.2) (x.0)).run (x.1) (x.4) in (y.0, y.1, y.2, >>=_run m f (x.3) (y.3), y.4);
}

Ends-with :
    {ns : Names} {A : Type 0} {m : M A}
    → Gives ns outside m (λ a. Unit {0}) (λ a. outside)
    → Ends ns m
Ends-with {ns} h = record { run = λ s at. let x = h.run s at in (x.0, x.1, ns, x.2, x.4) }

renamed :
    {a b : Names} (s : Generator)
    → b.formal_names ≡ a.formal_names
    → At a outside s
    → At b outside (record s { names = b })
renamed s same at = record {
  fits = at.fits;
  fresh = refl;
  exist = refl;
  flag = at.flag;
  same_names = refl;
  args_fit = subst (λ m. Fit m s.declared) (sym same) at.args_fit;
  flows = at.flows;
}

index_fields_lem :
    {ns : Names} {B : Type 0} {f : ℕ → M B} (xs : List String)
    → ((n : ℕ) → Ends (fields_indexed 0 xs ns) (f n))
    → Ends ns (index_fields 0 xs >>= f)
index_fields_lem {ns} {f = f} xs hf = record {
  run = λ s at.
      let x = index_fields_run xs 0 s in
      let y =
        (hf (x.0)).run (record s { names = fields_indexed 0 xs s.names })
          (subst
            (λ n.
              At (fields_indexed 0 xs n) outside (record s { names = fields_indexed 0 xs s.names }))
            at.same_names
            (renamed s (fields_indexed_keeps xs 0 s.names).1
              (subst (λ n. At n outside s) (sym at.same_names) at))) in
      (y.0, y.1, y.2, >>=_run (index_fields 0 xs) f (x.1) (y.3), y.4);
}

module _ {ns : Names} where
  table_lem :
      (xs : List String)
      → Gives ns outside (tell (create_function_table xs)) (λ n. Unit {0}) (λ n. outside)
  unfolding tell
  table_lem xs = tell_lem λ s. (_, _, refl, ground arith, refl, refl, refl, refl, refl, refl)

  module_lem : Gives ns outside (tell verify_module) (λ n. Unit {0}) (λ n. outside)
  unfolding tell
  module_lem = tell_lem λ s. (_, _, refl, ground arith, refl, refl, refl, refl, refl, refl)

  globals_lem : Gives ns outside gen_globals (λ n. Unit {0}) (λ n. outside)
  unfolding gen_globals
  globals_lem = tell_lem λ s. (_, _, refl, ground arith, refl, refl, refl, refl, refl, refl)

  record_type_lem :
      (size : ℕ → ℕ) (n : ℕ)
      → Gives ns outside (gen_record_type size n) (λ n. Unit {0}) (λ n. outside)
  unfolding gen_record_type
  record_type_lem size n =
      tell_lem λ s. (_, _, refl, ground arith, refl, refl, refl, refl, refl, refl)

abbrev no_names : Names
no_names = record { named_values = []; function_index = []; field_index = []; formal_names = [] }

-- The state in which the functions of a program are in the maps, and none is declared.
abbrev started : List Function → Generator
unfolding initial
started fs = record initial { names = indexed 0 fs no_names }

started-At : (fs : List Function) → At (indexed 0 fs no_names) outside (started fs)
unfolding initial find
started-At fs = record {
  fits = refl;
  fresh = refl;
  exist = refl;
  flag = refl;
  same_names = refl;
  args_fit = λ x xs ys h d. ground (arith, d);
  flows = record { same_block = refl; phis = refl; near = refl; tracked = tt; stands = tt };
}

reset_run : (s : Generator) → reset_labels s ≡ ok 0 (record s { label_num = 0 })
unfolding reset_labels
reset_run s = refl

clash : (b : Bool) {A : Type 0} → not b ≡ true → b ≡ true → A
clash true h e = absurd (ground (arith, h))
clash false h e = absurd (ground (arith, e))

neither : (b c : Bool) → b ≡ false → c ≡ false → (if b then true else c) ≡ false
neither true c h e = h
neither false c h e = e

reserved-unlisted :
    (x : String) (fs : List Function)
    → is_reserved x ≡ true
    → functions_plain fs ≡ true
    → listed x (function_names fs) ≡ false
reserved-unlisted x [] r h = refl
reserved-unlisted x (f ∷ fs) r h =
    let p = and_parts (not (is_reserved f.decl.name)) _ h in
    let q = and_parts (unique (decl_names f.formals)) (functions_plain fs) (p.1) in
    elim (Bool-cases (str_eq x f.decl.name)) [
      | inl e ↦
          clash (is_reserved f.decl.name) (p.0)
            (subst (λ y. is_reserved y ≡ true) ((str_eq_iff x f.decl.name).0 e) r)
      | inr e ↦ neither _ _ e (reserved-unlisted x fs r (q.1))
    ]

-- No function of the program has a reserved name.
reserved_free :
    (fs : List Function) (x : String) (xs : List String)
    → is_reserved x ≡ true
    → functions_plain fs ≡ true
    → HasFormals (indexed 0 fs no_names) x xs
unfolding find
reserved_free fs x xs r h ys e =
    ground (arith, e, formals_indexed_other fs 0 no_names x (reserved-unlisted x fs r h))

-- The rest of `codegen` of a program, after its functions are in the maps.
rest_lem :
    (struct_size : ℕ → ℕ) (fields : List String) (fs : List Function)
    → unique (function_names fs) ≡ true
    → functions_plain fs ≡ true
    → functions_ok (function_names fs) fields fs ≡ true
    → Ends (indexed 0 fs no_names) (do
      program_functions ← declare_functions fs
      tell (create_function_table program_functions)
      main ← find_function "main"
      define_main main
      gen_globals
      declare_function "calloc" ("" ∷ "" ∷ [])
      n ← index_fields 0 fields
      gen_record_type struct_size n
      for_all codegen_function fs
      tell verify_module)
rest_lem struct_size fields fs names plain good =
    let kept = fields_indexed_keeps fields 0 (indexed 0 fs no_names) in
    let found = formals_indexed fs 0 no_names names in
    let main = reserved_free fs "_tip_main" [] refl plain in
    Ends-bind (declare_functions_lem fs main found) λ names. Ends-bind (table_lem names) λ _.
      Ends-bind (find_function_lem "main") λ m.
        Ends-bind (define_main_lem m main (reserved_free fs "_tip_main_undefined" [] refl plain))
          λ _. Ends-bind globals_lem λ _.
            Ends-bind (declare_lem "calloc" ("" ∷ "" ∷ []) (reserved_free fs "calloc" _ refl plain))
              λ _. index_fields_lem fields λ n. Ends-bind (record_type_lem struct_size n) λ _.
                Ends-then
                  (functions_lem (function_names fs) fields fs good (
                    (λ x h.
                        subst (λ m. is_some (find x m) ≡ true) (sym (kept.0))
                          (function_index_has fs 0 no_names x (ground (arith, h)))),
                    (λ x h. field_index_has fields 0 (indexed 0 fs no_names) x (ground (arith, h))),
                    (λ ys h. main ys (subst (λ m. find "_tip_main" m ≡ some ys) (kept.1) h)),
                    FormalsFound-Kept fs (fields_indexed 0 fields (indexed 0 fs no_names))
                        (indexed 0 fs no_names) (kept.1) found,
                  ))
                  λ ns' _. Ends-with module_lem

program_lem :
    (struct_size : ℕ → ℕ) (fields : List String) (p : Program)
    → program_ok fields p ≡ true
    → (n : ℕ) × (g : Generator) × (ns : Names) × (codegen_program struct_size fields p initial
        ≡ ok n g)
      × At ns outside g
unfolding codegen_program initial
program_lem struct_size fields p e =
    let fs = p.functions in
    let q =
      and_parts (unique (function_names fs) && functions_plain fs)
        (functions_ok (function_names fs) fields fs) e in
    let u = and_parts (unique (function_names fs)) (functions_plain fs) (q.0) in
    let x = index_functions_run fs 0 initial in
    let y = (rest_lem struct_size fields fs (u.0) (u.1) (q.1)).run (started fs) (started-At fs) in
    (
      y.0,
      y.1,
      y.2,
      >>=_run reset_labels _ (reset_run initial) (>>=_run (index_functions 0 fs) _ (x.1) (y.3)),
      y.4,
    )

-- Take a program whose functions have different names, where no function is called _tip_main,
-- _tip_main_undefined or calloc or names two formals alike, the names that are used are declared,
-- each declaration has a name, operators have an instruction, an l-value that is no function stands
-- where an address is needed, and each function returns at its end and nowhere else. Then code
-- generation throws no exception, and in the calls that it makes of the builder operands have the
-- types that the instructions take, functions of the runtime get as many arguments as they take,
-- targets of branches exist, nothing is written outside a block or after its end, every block is
-- put into the function, written and ended, and each phi has one value for each branch made to its
-- block before it, from that block.
pub generate_correct :
    (struct_size : ℕ → ℕ) (fields : List String) (p : Program)
    → program_ok fields p ≡ true
    → (n : ℕ) × (g : Generator) × (generate struct_size fields p ≡ ok n g)
      × (shape g.calls ≡ some (record { opened = false; pending = []; count = g.blocks }))
      × (phis_agree g.calls ≡ true)
unfolding generate
generate_correct struct_size fields p e =
    let x = program_lem struct_size fields p e in (x.0, x.1, x.3, x.4.fits, x.4.flows.phis)
