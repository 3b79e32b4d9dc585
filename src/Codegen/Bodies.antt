-- ===== src/Codegen/Bodies.antt =====
-- The parts of `codegen` of a function, in src/codegen/CodeGenFunctions.cpp, and of `getFunction`.
use sipc.Prelude.{
  ◌≡◌, refl, sym, ap, ◌∙◌, subst, ℕ, suc, Bool, true, false, String, Option, some, List, [], ◌∷◌,
  str_eq, if◌then◌else◌, arith, Bool-cases, Option-cases, inl, inr, ◌⊎◌, ◌++◌, str_eq_iff,
}
use sipc.Ast.{Stmts, nil, cons}
use sipc.Codegen.{
  Value, find, Names, LlvmFunction, Generator, ok, M, ◌>>=◌, not_null, new_entry, tell, Call,
  declare, create_entry, verify_function,
}
use sipc.Codegen.Edges.{Follows-more}
use sipc.Codegen.Rules.{Spot, At, Fit, Gives, bind, here, closed, is_null}
use sipc.Codegen.Reads.{>>=_run, check_value, checked_value, give, expect}
use sipc.Codegen.Statements.{codegen_stmts}
use sipc.Codegen.Programs.{
  formals_of, declare_function, declare_main, unless_declared, get_function, gen_body, gen_formals,
  gen_inputs, gen_arguments, clear_names,
}
use sipc.Codegen.Scoped.{Scope, stmt_ok, body_ok}
use sipc.Codegen.Sound.{Agrees, and_parts, stmt_lem, return_lem}
use sipc.Codegen.Frames.{Grown, Declares, gen_inputs_lem, gen_arguments_lem}

abbrev statement_text : String
statement_text = "failed to generate bitcode for the function statement"

-- The maps of functions, fields and formals are the same.
pub record Kept (ns ns' : Names) : Type 0 where
  pub functions_same : ns'.function_index ≡ ns.function_index
  pub fields_same : ns'.field_index ≡ ns.field_index
  pub formals_same : ns'.formal_names ≡ ns.formal_names

-- The computation ends without an error, with those maps as they were.
pub record Leads {A : Type 0} (ns : Names) (p : Spot) (m : M A) (q : Spot) : Type 0 where
  pub run :
      (s : Generator)
      → At ns p s
      → (a : A) × (s' : Generator) × (ns' : Names) × (m s ≡ ok a s') × Kept ns ns' × At ns' q s'

module _ {ns : Names} {p r : Spot} {A B : Type 0} where
  pub Leads-bind :
      {m : M A} {f : A → M B} {F : A → Type 0} {q : A → Spot}
      → Gives ns p m F q
      → ((a : A) → F a → Leads ns (q a) (f a) r)
      → Leads ns p (m >>= f) r
  Leads-bind {m} {f} hm hf = record {
    run = λ s at.
        let x = hm.run s at in
        let y = (hf (x.0) (x.3)).run (x.1) (x.4) in
        (y.0, y.1, y.2, >>=_run m f (x.2) (y.3), y.4, y.5);
  }

  -- The first computation adds local variables.
  Leads-Grown :
      {m : M A} {f : A → M B} {F : A → Type 0} {xs : List String}
      → ((s : Generator)
          → At ns p s
          → (a : A) × (s' : Generator) × (ns' : Names) × (m s ≡ ok a s')
            × F a
            × Grown xs ns ns'
            × At ns' p s')
      → ((ns' : Names) (a : A) → Grown xs ns ns' → Leads ns' p (f a) r)
      → Leads ns p (m >>= f) r
  Leads-Grown {m} {f} hm hf = record {
    run = λ s at.
        let x = hm s at in
        let g = x.5 in
        let y = (hf (x.2) (x.0) g).run (x.1) (x.6) in
        (
          y.0,
          y.1,
          y.2,
          >>=_run m f (x.3) (y.3),
          record {
            functions_same = y.4.functions_same ∙ g.functions_kept;
            fields_same = y.4.fields_same ∙ g.fields_kept;
            formals_same = y.4.formals_same ∙ g.formals_kept;
          },
          y.5,
        );
  }

  pub Leads-declares :
      {m : M A} {f : A → M B} {F : A → Type 0} {xs : List String}
      → Declares p m F xs
      → ((ns' : Names) (a : A) → Grown xs ns ns' → Leads ns' p (f a) r)
      → Leads ns p (m >>= f) r
  Leads-declares hm hf = Leads-Grown (hm.run ns) hf

pub Leads-end :
    {ns : Names} {p q : Spot} {A : Type 0} {m : M A} {F : A → Type 0}
    → Gives ns p m F (λ a. q)
    → Leads ns p m q
Leads-end h = record {
  run = λ s at.
      let x = h.run s at in
      (
        x.0,
        x.1,
        _,
        x.2,
        record { functions_same = refl; fields_same = refl; formals_same = refl },
        x.4,
      );
}

clear_run :
    (s : Generator)
    → clear_names s ≡ ok 0 (record s { names = record s.names { named_values = [] } })
unfolding clear_names
clear_run s = refl

pub Leads-clear :
    {ns : Names} {p r : Spot} {B : Type 0} {f : ℕ → M B}
    → ((n : ℕ) → Leads (record ns { named_values = [] }) p (f n) r)
    → Leads ns p (clear_names >>= f) r
Leads-clear {ns} {f = f} hf = record {
  run = λ s at.
      let y =
        (hf 0).run (record s { names = record s.names { named_values = [] } })
          (record {
            fits = at.fits;
            fresh = at.fresh;
            exist = at.exist;
            flag = at.flag;
            same_names =
                ap {A = Names} {B = Names} (λ n. record n { named_values = [] }) at.same_names;
            args_fit = at.args_fit;
            flows = at.flows;
          }) in
      (
        y.0,
        y.1,
        y.2,
        >>=_run clear_names f (clear_run s) (y.3),
        record {
          functions_same = y.4.functions_same;
          fields_same = y.4.fields_same;
          formals_same = y.4.formals_same;
        },
        y.5,
      );
}

formals_run :
    (name : String) (xs : List String) (s : Generator)
    → find name s.names.formal_names ≡ some xs
    → formals_of name s ≡ ok xs s
unfolding formals_of
formals_run name xs s e = ground (arith, e)

-- The arguments of a function, or the formals of `main`, become local variables.
pub Leads-formals :
    {ns : Names} {q : Spot} {B : Type 0} {f : ℕ → M B} (name : String) (args xs : List String)
    → find name ns.formal_names ≡ some xs
    → (str_eq name "main" ≡ false → args ≡ xs)
    → ((ns' : Names) (n : ℕ) → Grown xs ns ns' → Leads ns' (here [] [] (some false)) (f n) q)
    → Leads ns (here [] [] (some false)) (gen_formals name args >>= f) q
unfolding gen_formals
Leads-formals {ns} {q} {f = f} name args xs e same hf = of_either (str_eq name "main") refl
  where
    of_either :
        (b : Bool)
        → str_eq name "main" ≡ b
        → Leads ns
            (here [] [] (some false))
            ((if b then formals_of name >>= gen_inputs 0 else gen_arguments 0 args) >>= f)
            q
    of_either true is_main =
        Leads-Grown {F = λ n. Unit}
          (λ s at.
            let x = (gen_inputs_lem [] [] 0 xs).run ns s at in
            let named = subst (λ n. find name n.formal_names ≡ some xs) (sym at.same_names) e in
            (
              x.0,
              x.1,
              x.2,
              >>=_run (formals_of name) (gen_inputs 0) (formals_run name xs s named) (x.3),
              x.4,
              x.5,
              x.6,
            ))
          hf
    of_either false is_main =
        Leads-declares
          (subst (λ ys. Declares (here [] [] (some false)) (gen_arguments 0 args) (λ n. Unit) ys)
            (same is_main) (gen_arguments_lem [] [] 0 args))
          hf

tell_run : (c : Call) (s : Generator) → tell c s ≡ ok 0 (record s { calls = c ∷ s.calls })
unfolding tell
tell_run c s = refl

new_entry_run :
    (name : String) (s : Generator)
    → new_entry name s
      ≡ ok s.blocks (record s { calls = create_entry name ∷ s.calls; blocks = suc s.blocks })
unfolding new_entry
new_entry_run name s = refl

declare_run :
    (name : String) (xs : List String) (s : Generator)
    → declare_function name xs s
      ≡ ok
          (name, xs)
          (record s { calls = declare name xs ∷ s.calls; declared = s.declared ++ (name, xs) ∷ [] })
unfolding declare_function
declare_run name xs s = refl

find-snoc :
    (x name : String) (xs zs : List String) (ds : List LlvmFunction)
    → find x (ds ++ (name, zs) ∷ []) ≡ some xs
    → (find x ds ≡ some xs) ⊎ ((str_eq x name ≡ true) × (zs ≡ xs))
unfolding find
find-snoc x name xs zs [] e = elim (Bool-cases (str_eq x name)) [
  | inl t ↦ inr (t, ground (arith, e, t))
  | inr t ↦ ground (arith, e, t)
]
find-snoc x name xs zs ((y, ys) ∷ ds) e = elim (Bool-cases (str_eq x y)) [
  | inl t ↦ inl (ground (arith, e, t))
  | inr t ↦ elim (find-snoc x name xs zs ds (ground (arith, e, t))) [
    | inl r ↦ inl (ground (arith, r, t))
    | inr r ↦ inr r
  ]
]

-- A function may be declared if it has the formals of the program's function of its name.
abbrev pub HasFormals : Names → String → List String → Type 0
HasFormals ns name xs = (ys : List String) → find name ns.formal_names ≡ some ys → xs ≡ ys

Fit-declare :
    (ns : Names) (name : String) (xs : List String) (ds : List LlvmFunction)
    → HasFormals ns name xs
    → Fit ns.formal_names ds
    → Fit ns.formal_names (ds ++ (name, xs) ∷ [])
Fit-declare ns name xs ds h fit x zs ys e d = elim (find-snoc x name zs xs ds d) [
  | inl r ↦ fit x zs ys e r
  | inr r ↦
      sym (r.1)
      ∙ h ys (subst (λ y. find y ns.formal_names ≡ some ys) ((str_eq_iff x name).0 (r.0)) e)
]

module _ {ns : Names} where
  pub formals_lem :
      {p : Spot} (name : String) (xs : List String)
      → find name ns.formal_names ≡ some xs
      → Gives ns p (formals_of name) (λ ys. ys ≡ xs) (λ ys. p)
  formals_lem name xs e = record {
    run = λ s at. (
      xs,
      s,
      formals_run name xs s (subst (λ n. find name n.formal_names ≡ some xs) (sym at.same_names) e),
      refl,
      at,
    );
  }

  pub declare_lem :
      {p : Spot} (name : String) (xs : List String)
      → HasFormals ns name xs
      → Gives ns p (declare_function name xs) (λ t. t.1 ≡ xs) (λ t. p)
  declare_lem name xs h = record {
    run = λ s at. (
      _,
      _,
      declare_run name xs s,
      refl,
      record {
        fits = ground (arith, at.fits);
        fresh = at.fresh;
        exist = at.exist;
        flag = at.flag;
        same_names = at.same_names;
        args_fit = Fit-declare ns name xs s.declared h at.args_fit;
        flows = at.flows;
      },
    );
  }

  declare_main_lem :
      {p : Spot} (xs : List String)
      → HasFormals ns "_tip_main" []
      → Gives ns p (declare_main xs) (λ t. Unit) (λ t. p)
  unfolding declare_main declare_function
  declare_main_lem xs h = record {
    run = λ s at. (
      _,
      _,
      refl,
      tt,
      record {
        fits = ground (arith, at.fits);
        fresh = at.fresh;
        exist = at.exist;
        flag = at.flag;
        same_names = at.same_names;
        args_fit = Fit-declare ns "_tip_main" [] s.declared h at.args_fit;
        flows = at.flows;
      },
    );
  }

  -- A function that is found has the formals that the map has for its name.
  unless_declared_lem :
      {p : Spot} (name : String) {F : LlvmFunction → Type 0} {m : M LlvmFunction}
      → ((s : Generator) (xs : List String)
          → At ns p s
          → find name s.declared ≡ some xs
          → F (name, xs))
      → Gives ns p m F (λ t. p)
      → Gives ns p (unless_declared name m) F (λ t. p)
  unfolding unless_declared
  unless_declared_lem name found h = record {
    run = λ s at.
        let x = h.run s at in
        elim (Option-cases (find name s.declared)) [
          | inl e ↦ (x.0, x.1, ground (arith, e, x.2), x.3, x.4)
          | inr (xs, e) ↦ ((name, xs), s, ground (arith, e), found s xs at e, at)
        ];
  }

  pub get_function_lem :
      {p : Spot} (name : String) (xs : List String)
      → HasFormals ns "_tip_main" []
      → find name ns.formal_names ≡ some xs
      → Gives ns p (get_function name) (λ t. str_eq name "main" ≡ false → t.1 ≡ xs) (λ t. p)
  unfolding get_function
  get_function_lem {p} name xs free e =
      bind (formals_lem name xs e) λ ys same. by_name ys same (str_eq name "main") refl
    where
      as_formals : (ys : List String) → ys ≡ xs → HasFormals ns name ys
      as_formals ys same zs h = ground (arith, same, e, h)

      by_name :
          (ys : List String)
          → ys ≡ xs
          → (b : Bool) → str_eq name "main" ≡ b
          → Gives ns p
              (if b
                then unless_declared "_tip_main" (declare_main ys)
                else unless_declared name (declare_function name ys))
              (λ t. str_eq name "main" ≡ false → t.1 ≡ xs)
              (λ t. p)
      by_name ys same true is_main =
          unless_declared_lem "_tip_main" (λ s zs at d other. ground (arith, is_main, other))
            (expect (declare_main_lem ys free) λ t h other. ground (arith, is_main, other))
      by_name ys same false is_main =
          unless_declared_lem name (λ s zs at d other. at.args_fit name zs xs e d)
            (expect (declare_lem name ys (as_formals ys same)) λ t h other. h ∙ same)

  pub new_entry_lem :
      {l : Option Bool} (name : String)
      → Gives ns (closed [] [] l) (new_entry name) (λ b. Unit) (λ b. closed ((b, true) ∷ []) [] l)
  new_entry_lem name = record {
    run = λ s at. (
      _,
      _,
      new_entry_run name s,
      tt,
      record {
        fits = ground (arith, at.fits);
        fresh = ground arith;
        exist = refl;
        flag = at.flag;
        same_names = at.same_names;
        args_fit = at.args_fit;
        flows = Follows-more at.flows;
      },
    );
  }

  pub verify_lem :
      {l : Option Bool} (name : String)
      → Gives ns (closed [] [] l) (tell (verify_function name)) (λ n. Unit) (λ n. closed [] [] l)
  verify_lem name = record {
    run = λ s at. (
      _,
      _,
      tell_run (verify_function name) s,
      tt,
      record {
        fits = ground (arith, at.fits);
        fresh = at.fresh;
        exist = at.exist;
        flag = at.flag;
        same_names = at.same_names;
        args_fit = at.args_fit;
        flows = at.flows;
      },
    );
  }

  pub gen_body_lem :
      {sc : Scope} (ag : Agrees sc ns) (ss : Stmts)
      → body_ok sc ss ≡ true
      → Gives ns
          (here [] [] (some false))
          (gen_body (codegen_stmts ss))
          (λ n. Unit)
          (λ n. closed [] [] (some false))
  unfolding gen_body codegen_stmts
  gen_body_lem ag nil h = ground (arith, h)
  gen_body_lem ag (cons s nil) h =
      bind (return_lem ag s h [] []) λ v hv. check_closed v hv λ _. give 0 tt
    where
      check_closed :
          (v : Value) {f : Value → M ℕ}
          → is_null v ≡ false
          → ((w : Value)
              → Gives ns
                  (closed [] [] (some false))
                  (f w)
                  (λ n. Unit)
                  (λ n. closed [] [] (some false)))
          → Gives ns
              (closed [] [] (some false))
              (not_null v statement_text >>= f)
              (λ n. Unit)
              (λ n. closed [] [] (some false))
      check_closed v e hf =
          bind (checked_value {F = λ w. is_null w ≡ false} v statement_text e e) λ w _. hf w
  gen_body_lem {sc} ag (cons s (cons t ss)) h =
      let p = and_parts (stmt_ok sc s) (body_ok sc (cons t ss)) h in
      bind (stmt_lem ag s (p.0) [] [])
        λ v hv. check_value v statement_text hv λ _. gen_body_lem ag (cons t ss) (p.1)
