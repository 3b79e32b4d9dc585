-- ===== src/Codegen/Named.antt =====
-- What a symbol table says about the names of a program: where `SymbolTable::build` of
-- src/semantic/symboltable throws no exception, each variable that a function uses is one of its
-- locals or a function, and each field is one of the table.
use sipc.Prelude.{
  ◌≡◌, refl, ◌⊎◌, Bool, true, false, ◌&&◌, ◌||◌, String, Option, none, some, List, [], ◌∷◌, ◌++◌,
  str_eq_iff, Option-cases, inl, inr, arith,
}
use sipc.Ast.{
  DeclNode, DeclStmt, Function, Program, variable, access, Event, leave_expr, leave_field,
  leave_decl, leave_decl_stmt, visit_function, leave_function, accept_stmts, accept_decls,
  accept_decl_stmts, accept_function, accept_functions, accept_program,
}
use sipc.Ast.Every.{every, every-++}
use sipc.Ast.Quiet.{quiet, every-quiet}
use sipc.Symbols.{
  Table, FunctionMap, SymbolError, LocalNames, Result, ok, semantic_error, lookup, insert, declare,
  use_variable, local_step, local_steps, local_names, has_name, SymbolTable, build,
  function_names as collected_names,
}
use sipc.Symbols.Functions.{lookup-place, first_named, function_names_correct}
use sipc.Symbols.Fields.{any_field, field_names_correct}
use sipc.Codegen.Programs.{decl_names}
use sipc.Codegen.Scoped.{listed, all_names, function_names}

abbrev pub is_some {ℓ} : {A : Type ℓ} → Option A → Bool
is_some none = false
is_some (some a) = true

-- The variable, or the field, that an event names is declared.
abbrev pub variable_named : List String → List String → Event → Bool
variable_named locals functions (leave_expr (variable n x)) = listed x locals || listed x functions
variable_named locals functions _ = true

abbrev pub field_named : List String → Event → Bool
field_named fields (leave_expr (access n e f)) = listed f fields
field_named fields (leave_field n s e) = listed s fields
field_named fields _ = true

-- A test of the statements of each function.
abbrev pub functions_every : (Function → Event → Bool) → List Function → Bool
functions_every P [] = true
functions_every P (f ∷ fs) = every (P f) (accept_stmts f.stmts) && functions_every P fs

-- The keys of a map, and the names of a list, are among others.
abbrev Within : {A : Type 0} → List String → Table A → Type 0
Within L m = (x : String) → is_some (lookup x m) ≡ true → listed x L ≡ true

abbrev Sub : List String → List String → Type 0
Sub A L = (x : String) → listed x A ≡ true → listed x L ≡ true

Result-cases :
    {A : Type 0} (r : Result A)
    → ((a : A) × (r ≡ ok a)) ⊎ ((e : SymbolError) × (r ≡ semantic_error e))
Result-cases (ok a) = inl (a, refl)
Result-cases (semantic_error e) = inr (e, refl)

listed-++ : (x : String) (xs ys : List String) → listed x (xs ++ ys) ≡ listed x xs || listed x ys
listed-++ x [] ys = refl
listed-++ x (y ∷ xs) ys = ground (arith, listed-++ x xs ys)

nothing : (x : String) → is_some (lookup {A = DeclNode} x []) ≡ true → false ≡ true
unfolding lookup
nothing x h = h

abbrev pub locals_of : Function → List String
locals_of f = decl_names f.formals ++ all_names f.declarations

module _ (f_map : FunctionMap) where
  split_steps :
      (xs ys : List Event) (s t : LocalNames)
      → local_steps f_map (xs ++ ys) s ≡ ok t
      → (u : LocalNames) × (local_steps f_map xs s ≡ ok u) × (local_steps f_map ys u ≡ ok t)
  unfolding local_steps
  split_steps [] ys s t h = (s, refl, h)
  split_steps (x ∷ xs) ys s t h = elim (Result-cases (local_step f_map x s)) [
    | inl (w, e) ↦
        let r = split_steps xs ys w t (ground (arith, e, h)) in (r.0, ground (arith, e, r.1), r.2)
    | inr (x, e) ↦ absurd (ground (arith, e, h))
  ]

  module _ (L F : List String)
      (known : (x : String) → is_some (lookup x f_map) ≡ true → listed x F ≡ true) where
    -- A use passes only where the name is declared.
    quiet_step :
        (e : Event) (s t : LocalNames)
        → quiet e ≡ true
        → Within L s.cur_map
        → local_step f_map e s ≡ ok t
        → (t ≡ s) × (variable_named L F e ≡ true)
    unfolding local_step use_variable
    quiet_step (leave_expr (variable n x)) s t q w h = elim (Option-cases (lookup x f_map)) [
      | inr (d, e) ↦ (ground (arith, e, h), ground (arith, e, known x))
      | inl e ↦ elim (Option-cases (lookup x s.cur_map)) [
        | inr (d, e') ↦ (ground (arith, e, e', h), ground (arith, e', w x))
        | inl e' ↦ absurd (ground (arith, e, e', h))
      ]
    ]
    quiet_step (leave_decl d) s t q w h = ground (arith, q)
    quiet_step (visit_function f) s t q w h = ground (arith, q)
    quiet_step (leave_function f) s t q w h = ground (arith, q)
    quiet_step _ s t q w h = (ground (arith, h), refl)

    quiet_steps :
        (es : List Event) (s t : LocalNames)
        → every quiet es ≡ true
        → Within L s.cur_map
        → local_steps f_map es s ≡ ok t
        → every (variable_named L F) es ≡ true
    unfolding local_steps
    quiet_steps [] s t q w h = refl
    quiet_steps (x ∷ xs) s t q w h = elim (Result-cases (local_step f_map x s)) [
      | inl (u, e) ↦
          let a = quiet_step x s u (ground (arith, q)) w e in
          ground (arith, a.1, quiet_steps xs s t (ground (arith, q)) w (ground (arith, e, a.0, h)))
      | inr (z, e) ↦ absurd (ground (arith, e, h))
    ]

  module _ (L : List String) where
    declare_step :
        (d : DeclNode) (s t : LocalNames)
        → s.first ≡ false
        → listed d.name L ≡ true
        → Within L s.cur_map
        → local_step f_map (leave_decl d) s ≡ ok t
        → (t.first ≡ false) × Within L t.cur_map
    unfolding local_step declare insert
    declare_step d s t f i w h = elim (Option-cases (lookup d.name f_map)) [
      | inr (x, e) ↦ absurd (ground (arith, f, e, h))
      | inl e ↦ elim (Option-cases (lookup d.name s.cur_map)) [
        | inr (x, e') ↦ absurd (ground (arith, f, e, e', h))
        | inl e' ↦ (
          ground (arith, f, e, e', h),
          λ x g. ground (
            arith,
            f,
            e,
            e',
            h,
            g,
            i,
            lookup-place d.name x d s.cur_map e',
            str_eq_iff x d.name,
            w x,
          ),
        )
      ]
    ]

    declare_steps :
        (ds : List DeclNode) (s t : LocalNames)
        → s.first ≡ false
        → Sub (decl_names ds) L
        → Within L s.cur_map
        → local_steps f_map (accept_decls ds) s ≡ ok t
        → (t.first ≡ false) × Within L t.cur_map
    unfolding local_steps accept_decls decl_names
    declare_steps [] s t f i w h = (ground (arith, f, h), λ x g. w x (ground (arith, h, g)))
    declare_steps (d ∷ ds) s t f i w h = elim (Result-cases (local_step f_map (leave_decl d) s)) [
      | inl (u, e) ↦
          let a = declare_step d s u f (ground (arith, i d.name, str_eq_iff d.name d.name)) w e in
          declare_steps ds u t (a.0) (λ x g. ground (arith, i x, g)) (a.1) (ground (arith, e, h))
      | inr (x, e) ↦ absurd (ground (arith, e, h))
    ]

    declarations_steps :
        (ds : List DeclStmt) (s t : LocalNames)
        → s.first ≡ false
        → Sub (all_names ds) L
        → Within L s.cur_map
        → local_steps f_map (accept_decl_stmts ds) s ≡ ok t
        → (t.first ≡ false) × Within L t.cur_map
    unfolding local_steps accept_decl_stmts local_step
    declarations_steps [] s t f i w h = (ground (arith, f, h), λ x g. w x (ground (arith, h, g)))
    declarations_steps (d ∷ ds) s t f i w h =
        let r =
          split_steps (accept_decls d.vars) (leave_decl_stmt d ∷ accept_decl_stmts ds) s t h in
        let a =
          declare_steps d.vars s (r.0) f
            (λ x g. ground (
              arith,
              g,
              i x,
              listed-++ x (decl_names d.vars ++ []) (all_names ds),
              listed-++ x (decl_names d.vars) [],
            ))
            w (r.1) in
        declarations_steps ds (r.0) t (a.0)
          (λ x g. ground (arith, g, i x, listed-++ x (decl_names d.vars ++ []) (all_names ds)))
          (a.1) (r.2)

  module _ (F : List String)
      (known : (x : String) → is_some (lookup x f_map) ≡ true → listed x F ≡ true) where
    function_steps :
        (f : Function) (s t : LocalNames)
        → local_steps f_map (accept_function f) s ≡ ok t
        → every (variable_named (locals_of f) F) (accept_stmts f.stmts) ≡ true
    unfolding local_steps accept_function local_step declare
    function_steps f s t h =
        let L = locals_of f in
        let start : LocalNames = record s { cur_map = []; fun_name = f.decl.name; first = false } in
        let a =
          split_steps (accept_decls f.formals)
            (accept_decl_stmts f.declarations ++ (accept_stmts f.stmts ++ leave_function f ∷ []))
            start t h in
        let b =
          split_steps (accept_decl_stmts f.declarations)
            (accept_stmts f.stmts ++ leave_function f ∷ []) (a.0) t (a.2) in
        let c = split_steps (accept_stmts f.stmts) (leave_function f ∷ []) (b.0) t (b.2) in
        let formals =
          declare_steps L f.formals start (a.0) refl
            (λ x g.
              ground (arith, g, listed-++ x (decl_names f.formals) (all_names f.declarations)))
            (λ x g. ground (arith, nothing x g)) (a.1) in
        let declared =
          declarations_steps L f.declarations (a.0) (b.0) (formals.0)
            (λ x g.
              ground (arith, g, listed-++ x (decl_names f.formals) (all_names f.declarations)))
            (formals.1) (b.1) in
        quiet_steps L F known (accept_stmts f.stmts) (b.0) (c.0) (every-quiet f.stmts) (declared.1)
          (c.1)

    functions_steps :
        (fs : List Function) (s t : LocalNames)
        → local_steps f_map (accept_functions fs) s ≡ ok t
        → functions_every (λ f. variable_named (locals_of f) F) fs ≡ true
    unfolding accept_functions
    functions_steps [] s t h = refl
    functions_steps (f ∷ fs) s t h =
        let r = split_steps (accept_function f) (accept_functions fs) s t h in
        ground (arith, function_steps f s (r.0) (r.1), functions_steps fs (r.0) t (r.2))

first_named-listed :
    (x : String) (fs : List Function)
    → is_some (first_named x fs) ≡ true
    → listed x (function_names fs) ≡ true
first_named-listed x [] h = ground (arith, h)
first_named-listed x (f ∷ fs) h = ground (arith, h, first_named-listed x fs)

has_name-listed : (x : String) (xs : List String) → has_name x xs ≡ listed x xs
unfolding has_name
has_name-listed x [] = refl
has_name-listed x (y ∷ xs) = ground (arith, has_name-listed x xs)

-- The fields that the events of a list name.
fields_every :
    (fields : List String) (es : List Event)
    → ((s : String) → any_field s es ≡ true → listed s fields ≡ true)
    → every (field_named fields) es ≡ true
fields_every fields [] h = refl
fields_every fields (leave_expr (access n e f) ∷ es) h =
    ground (arith, h f, str_eq_iff f f, fields_every fields es (λ s g. h s (ground (arith, g))))
fields_every fields (leave_field n f e ∷ es) h =
    ground (arith, h f, str_eq_iff f f, fields_every fields es (λ s g. h s (ground (arith, g))))
fields_every fields (_ ∷ es) h = fields_every fields es h

functions_fields :
    (P : Event → Bool) (fs : List Function)
    → every P (accept_functions fs) ≡ true
    → functions_every (λ f. P) fs ≡ true
unfolding accept_functions accept_function
functions_fields P [] h = refl
functions_fields P (f ∷ fs) h = ground (
  arith,
  h,
  every-++ P (accept_function f) (accept_functions fs),
  every-++ P (accept_decls f.formals)
      (accept_decl_stmts f.declarations ++ (accept_stmts f.stmts ++ leave_function f ∷ [])),
  every-++ P (accept_decl_stmts f.declarations) (accept_stmts f.stmts ++ leave_function f ∷ []),
  every-++ P (accept_stmts f.stmts) (leave_function f ∷ []),
  functions_fields P fs,
)

-- Where the symbol table is built, each use of a variable in the body of a function names a
-- parameter, a local variable or a function of the program, and each field is one of the table.
pub build_named :
    (p : Program) (table : SymbolTable)
    → build p ≡ ok table
    → (functions_every (λ f. variable_named (locals_of f) (function_names p.functions)) p.functions
        ≡ true)
      × (functions_every (λ f. field_named table.fields) p.functions ≡ true)
unfolding build local_names accept_program
build_named p table h = elim (Result-cases (collected_names p)) [
  | inr (z, e) ↦ absurd (ground (arith, e, h))
  | inl (m, e) ↦
      let start : LocalNames = record { l_map = []; cur_map = []; fun_name = ""; first = false } in
      elim (Result-cases (local_steps m (accept_functions p.functions) start)) [
        | inr (z, e') ↦ absurd (ground (arith, e, e', h))
        | inl (t, e') ↦ (
          functions_steps m (function_names p.functions)
              (λ x g.
                first_named-listed x p.functions
                  (ground (arith, g, (function_names_correct p).1 m e x)))
              p.functions start t e',
          functions_fields (field_named table.fields) p.functions (
              fields_every table.fields (accept_functions p.functions) (λ s g.
                ground (
                  arith,
                  g,
                  e,
                  e',
                  h,
                  (field_names_correct p).0 s,
                  has_name-listed s table.fields,
                ))),
        )
      ]
]
