-- ===== src/Constraints/Keeps.antt =====
-- Steps of src/semantic/types/constraints/TypeConstraintVisitor.cpp that return: where the function
-- on top of the stack has an entry in the symbol table, `astToVar` gives a variable.
use sipc.Prelude.{
  ◌≡◌, refl, ℕ, String, Option, none, some, List, [], ◌∷◌, arith, Option-cases, inl, inr,
}
use sipc.Ast.{Node, DeclNode, Expr, Exprs, Fields, variable, nil, cons}
use sipc.Symbols.{lookup, lookup_locals, get_local, Table}
use sipc.Types.{TipType, TipTypes}
use sipc.Constraints.{
  ◌>>=◌, Visitor, ast_to_var, handle, handle_type, handle_equal, vars, canonical, node_var,
  decl_var,
}
use sipc.Constraints.Expressions.{record_types, initializer_of}

pub record Ready (v : Visitor) : Type 0 where
  pub current : ℕ
  pub below : List ℕ
  pub names : Table DeclNode
  pub stack : v.scope ≡ current ∷ below
  pub listed : lookup_locals current v.symbols.local_map ≡ some names

-- A step returns, and only adds constraints.
pub record Keeps (v : Visitor) (o : Option Visitor) : Type 0 where
  pub after : Visitor
  pub returns : o ≡ some after
  pub same_scope : after.scope ≡ v.scope
  pub same_symbols : after.symbols ≡ v.symbols

pub Ready-keeps : {v w : Visitor} → Ready v → w.scope ≡ v.scope → w.symbols ≡ v.symbols → Ready w
Ready-keeps {v} {w} r s t = record {
  current = r.current;
  below = r.below;
  names = r.names;
  stack = ground (arith, r.stack);
  listed = ground (arith, r.listed);
}

ast_to_var_lem : (e : Expr) (v : Visitor) → Ready v → (t : TipType) × (ast_to_var e v ≡ some t)
unfolding ast_to_var get_local
ast_to_var_lem (variable n s) v r = var_lem n s v r (canonical v.symbols s (lookup s r.names)) refl
  where
    var_lem :
        (n : Node) (s : String) (v : Visitor) (r : Ready v) (o : Option DeclNode)
        → canonical v.symbols s (lookup s r.names) ≡ o
        → (t : TipType) × (ast_to_var (variable n s) v ≡ some t)
    var_lem n s v r none e = (node_var n, ground (arith, r.stack, r.listed, e))
    var_lem n s v r (some d) e = (decl_var d, ground (arith, r.stack, r.listed, e))
ast_to_var_lem _ v r = (_, refl)

pub handle_lem : (s t : TipType) (v : Visitor) → Keeps v (some (handle s t v))
unfolding handle
handle_lem s t v = record {
  after = handle s t v;
  returns = refl;
  same_scope = refl;
  same_symbols = refl;
}

then_lem :
    {v : Visitor} {o : Option Visitor} (f : Visitor → Option Visitor)
    → Keeps v o
    → ((w : Visitor) → w.scope ≡ v.scope → w.symbols ≡ v.symbols → Keeps w (f w))
    → Keeps v (o >>= f)
then_lem f k h =
    let l = h k.after k.same_scope k.same_symbols in
    record {
      after = l.after;
      returns = ground (arith, k.returns, l.returns);
      same_scope = ground (arith, k.same_scope, l.same_scope);
      same_symbols = ground (arith, k.same_symbols, l.same_symbols);
    }

pub bind_lem :
    {A : Type 0} {o : Option A} {a : A} {v : Visitor} (f : A → Option Visitor)
    → o ≡ some a
    → Keeps v (f a)
    → Keeps v (o >>= f)
bind_lem f e k = record {
  after = k.after;
  returns = ground (arith, e, k.returns);
  same_scope = k.same_scope;
  same_symbols = k.same_symbols;
}

pub same_lem : (v : Visitor) → Keeps v (some v)
same_lem v = record { after = v; returns = refl; same_scope = refl; same_symbols = refl }

pub handle_type_lem : (e : Expr) (t : TipType) (v : Visitor) → Ready v → Keeps v (handle_type e t v)
unfolding handle_type
handle_type_lem e t v r =
    let a = ast_to_var_lem e v r in bind_lem (λ s. some (handle s t v)) (a.1) (handle_lem (a.0) t v)

pub handle_equal_lem : (e e' : Expr) (v : Visitor) → Ready v → Keeps v (handle_equal e e' v)
unfolding handle_equal
handle_equal_lem e e' v r =
    let a = ast_to_var_lem e v r in
    let b = ast_to_var_lem e' v r in
    bind_lem (λ s. ast_to_var e' v >>= λ t. some (handle s t v)) (a.1)
      (bind_lem (λ t. some (handle (a.0) t v)) (b.1) (handle_lem (a.0) (b.0) v))

pub handle_var_lem :
    (e : Expr) (v : Visitor) (f : TipType → Visitor → Option Visitor)
    → Ready v
    → ((t : TipType) → Keeps v (f t v))
    → Keeps v (ast_to_var e v >>= λ t. f t v)
handle_var_lem e v f r h = let a = ast_to_var_lem e v r in bind_lem (λ t. f t v) (a.1) (h (a.0))

pub vars_lem : (es : Exprs) (v : Visitor) → Ready v → (ts : TipTypes) × (vars es v ≡ some ts)
unfolding vars
vars_lem nil v r = (TipTypes.nil, refl)
vars_lem (cons e es) v r =
    let a = ast_to_var_lem e v r in
    let b = vars_lem es v r in (TipTypes.cons (a.0) (b.0), ground (arith, a.1, b.1))

pub record_types_lem :
    (ss : List String) (fs : Fields) (v : Visitor)
    → Ready v
    → (ts : TipTypes) × (record_types ss fs v ≡ some ts)
unfolding record_types
record_types_lem [] fs v r = (TipTypes.nil, refl)
record_types_lem (s ∷ ss) fs v r =
    let b = record_types_lem ss fs v r in
    elim (Option-cases (initializer_of s fs)) [
      | inl e ↦ (TipTypes.cons TipType.absent_field (b.0), ground (arith, b.1, e))
      | inr e ↦
          let a = ast_to_var_lem (e.0) v r in
          (TipTypes.cons (a.0) (b.0), ground (arith, a.1, b.1, e.1))
    ]

-- Two steps, the second on what the first leaves.
pub both_lem :
    {v : Visitor} {o : Option Visitor} (f : Visitor → Option Visitor)
    → Ready v
    → Keeps v o
    → ((w : Visitor) → Ready w → Keeps w (f w))
    → Keeps v (o >>= f)
both_lem f r k h = then_lem f k (λ w s t. h w (Ready-keeps r s t))
