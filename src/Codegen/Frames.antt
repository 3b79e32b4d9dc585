-- ===== src/Codegen/Frames.antt =====
-- Generation of the variables of a function, in `codegen` of functions and of declarations in
-- src/codegen/CodeGenFunctions.cpp: what is added to the map of names.
use sipc.Prelude.{
  ◌≡◌, refl, ap, ◌∙◌, subst, ℕ, suc, pos, Bool, true, false, ◌||◌, String, Option, some, List, [],
  ◌∷◌, ◌++◌, str_eq, arith, Bool-cases, inl, inr,
}
use sipc.Ast.{DeclNode, DeclStmt}
use sipc.Codegen.{
  int64, pointer, Value, nullptr, constant, argument, input_array, type_of, type_given, Names,
  Generator, ok, M, pure, ◌>>=◌, create_entry_block_alloca, name_value, load, store, inbounds_gep,
  find, for_all, not_null,
}
use sipc.Codegen.Edges.{Known}
use sipc.Codegen.Rules.{Spot, At, Gives, here, emit, is_null, entry_run}
use sipc.Codegen.Reads.{>>=_run, pure_run, pointer-is_null, checked_value}
use sipc.Codegen.Values.{emits}
use sipc.Codegen.Choices.{is_some, AllAddresses}
use sipc.Codegen.Programs.{decl_names, gen_inputs, gen_arguments, gen_vars, gen_decl_stmt}
use sipc.Codegen.Scoped.{listed, has_vars, all_names}

-- The second map has the names of the first and the listed ones.
pub record Grown (xs : List String) (ns ns' : Names) : Type 0 where
  pub functions_kept : ns'.function_index ≡ ns.function_index
  pub fields_kept : ns'.field_index ≡ ns.field_index
  pub formals_kept : ns'.formal_names ≡ ns.formal_names
  pub addresses_kept : AllAddresses ns → AllAddresses ns'
  pub has :
      (x : String)
      → listed x xs || is_some (find x ns.named_values) ≡ true
      → is_some (find x ns'.named_values) ≡ true

pub record Declares {A : Type 0} (p : Spot) (m : M A) (F : A → Type 0) (xs : List String)
    : Type 0 where
  pub run :
      (ns : Names) (s : Generator)
      → At ns p s
      → (a : A) × (s' : Generator) × (ns' : Names) × (m s ≡ ok a s')
        × F a
        × Grown xs ns ns'
        × At ns' p s'

pub listed-append :
    (x : String) (xs ys : List String) → listed x (xs ++ ys) ≡ (listed x xs || listed x ys)
listed-append x [] ys = refl
listed-append x (z ∷ xs) ys = elim (Bool-cases (str_eq x z)) [
  | inl e ↦ ground (arith, e)
  | inr e ↦ ground (arith, e, listed-append x xs ys)
]

Grown-refl : (ns : Names) → Grown [] ns ns
Grown-refl ns = record {
  functions_kept = refl;
  fields_kept = refl;
  formals_kept = refl;
  addresses_kept = λ h. h;
  has = λ x h. h;
}

Grown-trans :
    (xs ys : List String) {a b c : Names} → Grown xs a b → Grown ys b c → Grown (xs ++ ys) a c
Grown-trans xs ys {a} {b} {c} g h = record {
  functions_kept = h.functions_kept ∙ g.functions_kept;
  fields_kept = h.fields_kept ∙ g.fields_kept;
  formals_kept = h.formals_kept ∙ g.formals_kept;
  addresses_kept = λ e. h.addresses_kept (g.addresses_kept e);
  has = λ x e. h.has x (
      either (listed x xs) (listed x ys) _ _ (g.has x)
        (subst (λ t. t || is_some (find x a.named_values) ≡ true) (listed-append x xs ys) e));
}
  where
    either : (p q r t : Bool) → (p || r ≡ true → t ≡ true) → (p || q) || r ≡ true → q || t ≡ true
    either p q r t f e = ground (arith, e, f)

-- A new entry of the map, with an address.
add_name :
    (ns : Names) (x : String) (v : Value)
    → type_of v ≡ pointer
    → Grown (x ∷ []) ns (record ns { named_values = (x, v) ∷ ns.named_values })
unfolding find
add_name ns x v h = record {
  functions_kept = refl;
  fields_kept = refl;
  formals_kept = refl;
  addresses_kept = λ f y w e. elim (Bool-cases (str_eq y x)) [
    | inl t ↦ ground (arith, e, t, h)
    | inr t ↦ f y w (ground (arith, e, t))
  ];
  has = λ y e. elim (Bool-cases (str_eq y x)) [
    | inl t ↦ ground (arith, t)
    | inr t ↦ ground (arith, e, t)
  ];
}

name_run :
    (x : String) (v : Value) (s : Generator)
    → name_value x v s
      ≡ ok v (record s { names = record s.names { named_values = (x, v) ∷ s.names.named_values } })
unfolding name_value
name_run x v s = refl

module _ {p : Spot} {A B : Type 0} {F : A → Type 0} {G : B → Type 0} where
  before :
      {m : M A} {f : A → M B} {xs : List String}
      → ((ns : Names) → Gives ns p m F (λ a. p))
      → ((a : A) → F a → Declares p (f a) G xs)
      → Declares p (m >>= f) G xs
  before {m} {f} hm hf = record {
    run = λ ns s at.
        let x = (hm ns).run s at in
        let y = (hf (x.0) (x.3)).run ns (x.1) (x.4) in
        (y.0, y.1, y.2, >>=_run m f (x.2) (y.3), y.4, y.5, y.6);
  }

  pub then_declares :
      {m : M A} {f : A → M B} (xs ys : List String)
      → Declares p m F xs
      → ((a : A) → F a → Declares p (f a) G ys)
      → Declares p (m >>= f) G (xs ++ ys)
  then_declares {m} {f} xs ys hm hf = record {
    run = λ ns s at.
        let x = hm.run ns s at in
        let y = (hf (x.0) (x.4)).run (x.2) (x.1) (x.6) in
        (y.0, y.1, y.2, >>=_run m f (x.3) (y.3), y.4, Grown-trans xs ys (x.5) (y.5), y.6);
  }

done : {p : Spot} {A : Type 0} {F : A → Type 0} (a : A) → F a → Declares p (pure a) F []
done a h = record { run = λ ns s at. (a, s, ns, pure_run a s, h, Grown-refl ns, at) }

named :
    {p : Spot} (x : String) (v : Value)
    → type_of v ≡ pointer
    → Declares p (name_value x v) (λ w. w ≡ v) (x ∷ [])
named x v h = record {
  run = λ ns s at. (
    v,
    _,
    record ns { named_values = (x, v) ∷ ns.named_values },
    name_run x v s,
    refl,
    add_name ns x v h,
    record {
      fits = at.fits;
      fresh = at.fresh;
      exist = at.exist;
      flag = at.flag;
      same_names =
          ap {A = Names} {B = Names} (λ n. record n { named_values = (x, v) ∷ n.named_values })
            at.same_names;
      args_fit = at.args_fit;
      flows = at.flows;
    },
  );
}

entry_lem :
    {k : List (ℕ × Bool)} {ks : List Known} {l : Option Bool} (name : String) (ns : Names)
    → Gives ns
        (here k ks l)
        (create_entry_block_alloca name)
        (λ v. type_of v ≡ pointer)
        (λ v. here k ks l)
unfolding type_of
entry_lem name ns = record {
  run = λ s at. (
    _,
    _,
    entry_run name s,
    refl,
    record {
      fits = ground (arith, at.fits);
      fresh = at.fresh;
      exist = at.exist;
      flag = at.flag;
      same_names = at.same_names;
      args_fit = at.args_fit;
      flows = at.flows;
    },
  );
}

abbrev null_text : String
null_text = "failed to generate bitcode for the function declarations"

module _ (k : List (ℕ × Bool)) (ks : List Known) where
  pub gen_arguments_lem :
      (i : ℕ) (xs : List String)
      → Declares (here k ks (some false)) (gen_arguments i xs) (λ n. Unit) xs
  unfolding gen_arguments type_of
  gen_arguments_lem i [] = done i tt
  gen_arguments_lem i (x ∷ xs) = before (entry_lem x) λ v hv.
      before (λ ns. emit (store (argument i) v) (ground (arith, hv)) refl)
        λ _ _. then_declares (x ∷ []) xs (named x v hv) λ _ _. gen_arguments_lem (suc i) xs

  pub gen_inputs_lem :
      (i : ℕ) (xs : List String)
      → Declares (here k ks (some false)) (gen_inputs i xs) (λ n. Unit) xs
  unfolding gen_inputs type_of type_given
  gen_inputs_lem i [] = done i tt
  gen_inputs_lem i (x ∷ xs) = before (entry_lem x) λ v hv.
      before
        (λ ns.
          emits (inbounds_gep input_array (constant (pos 0) ∷ constant (pos i) ∷ [])) pointer refl
            refl refl)
        λ slot hs.
          before (λ ns. emits (load int64 slot) int64 refl (ground (arith, hs)) refl)
            λ w hw.
              before (λ ns. emit (store w v) (ground (arith, hv, hw)) refl)
                λ _ _. then_declares (x ∷ []) xs (named x v hv) λ _ _. gen_inputs_lem (suc i) xs

  gen_vars_lem :
      (last : Value) (ds : List DeclNode)
      → is_null last ≡ false
      → Declares
          (here k ks (some false))
          (gen_vars last ds)
          (λ v. is_null v ≡ false)
          (decl_names ds)
  unfolding gen_vars decl_names type_of
  gen_vars_lem last [] e = done last e
  gen_vars_lem last (d ∷ ds) e = before (entry_lem d.name) λ v hv.
      before (λ ns. emit (store (constant (pos 0)) v) (ground (arith, hv)) refl)
        λ _ _.
          then_declares (d.name ∷ []) (decl_names ds) (named d.name v hv)
            λ _ _. gen_vars_lem v ds (pointer-is_null v hv)

  -- From `nullptr` where there is a variable.
  gen_first_var_lem :
      (d : DeclNode) (ds : List DeclNode)
      → Declares
          (here k ks (some false))
          (gen_vars nullptr (d ∷ ds))
          (λ v. is_null v ≡ false)
          (decl_names (d ∷ ds))
  unfolding gen_vars decl_names type_of
  gen_first_var_lem d ds = before (entry_lem d.name) λ v hv.
      before (λ ns. emit (store (constant (pos 0)) v) (ground (arith, hv)) refl)
        λ _ _.
          then_declares (d.name ∷ []) (decl_names ds) (named d.name v hv)
            λ _ _. gen_vars_lem v ds (pointer-is_null v hv)

  gen_decl_stmt_lem :
      (vars : List DeclNode)
      → (elim vars [ [] ↦ false | v ∷ vs ↦ true ]) ≡ true
      → Declares {A = ℕ}
          (here k ks (some false))
          (gen_vars nullptr vars >>= λ v. not_null v null_text >>= λ _. pure 0)
          (λ n. Unit)
          (decl_names vars ++ [])
  gen_decl_stmt_lem [] e = ground (arith, e)
  gen_decl_stmt_lem (d ∷ ds) e =
      then_declares (decl_names (d ∷ ds)) [] (gen_first_var_lem d ds) λ v hv.
        before (λ ns. checked_value {F = λ w. is_null w ≡ false} v null_text hv hv) λ _ _. done 0 tt

  pub decl_stmts_lem :
      (ds : List DeclStmt)
      → has_vars ds ≡ true
      → Declares (here k ks (some false)) (for_all gen_decl_stmt ds) (λ n. Unit) (all_names ds)
  unfolding for_all gen_decl_stmt
  decl_stmts_lem [] e = done 0 tt
  decl_stmts_lem (d ∷ ds) e =
      let h = vars_there d.vars (has_vars ds) e in
      then_declares (decl_names d.vars ++ []) (all_names ds) (gen_decl_stmt_lem d.vars (h.0))
        λ _ _. decl_stmts_lem ds (h.1)
    where
      vars_there :
          (vs : List DeclNode) (b : Bool)
          → (elim vs [ [] ↦ false | v ∷ rest ↦ b ]) ≡ true
          → ((elim vs [ [] ↦ false | v ∷ rest ↦ true ]) ≡ true) × (b ≡ true)
      vars_there [] b e = ground (arith, e)
      vars_there (v ∷ vs) b e = (refl, e)
