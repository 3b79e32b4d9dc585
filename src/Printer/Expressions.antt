-- ===== src/Printer/Expressions.antt =====
-- The stack of src/frontend/prettyprint/PrettyPrinter.cpp over expressions: a traversal pushes the
-- text of the expression, where the stack is not empty.
use sipc.Prelude.{
  ◌≡◌, refl, ap, ℕ, suc, ◌+◌, false, String, Option, none, some, List, [], ◌∷◌, ◌++◌, ltb, length,
  arith,
}
use sipc.Ast.{
  Expr, Exprs, Fields, number, boolean, variable, binary, ternary, input, null, fun_app, alloc, ref,
  deref, negation, minus, array, array_len, array_of, indexing, rec, access, nil, cons, end, field,
  Event, accept_expr, accept_exprs, accept_fields,
}
use sipc.Printer.{◌>>=◌, Style, Printer, push, split, join, join_with_delim, pop}
use sipc.Printer.Render.{render, render_all, render_fields}
use sipc.Printer.Steps.{
  exprs_size, fields_size, end_one, end_two, end_ternary, extend_back, end_fun_app, end_array,
  end_rec, end_expr, step, steps,
}

-- A printer whose stack is not empty.
abbrev pub at : String → List String → ℕ → Printer
at b bs lv = record { results = b ∷ bs; level = lv }

-- The texts pushed in order.
abbrev pub onto : List String → String → List String → List String
onto [] b bs = b ∷ bs
onto (s ∷ ss) b bs = onto ss s (b ∷ bs)

abbrev append : List String → List String → List String
append [] ys = ys
append (x ∷ xs) ys = x ∷ append xs ys

append_nil : (xs : List String) → append xs [] ≡ xs
append_nil [] = refl
append_nil (x ∷ xs) = ap (λ l. x ∷ l) (append_nil xs)

pub steps-++ :
    (st : Style) (xs ys : List Event) (p : Printer)
    → steps st (xs ++ ys) p ≡ (steps st xs p >>= steps st ys)
unfolding steps
steps-++ st [] ys p = refl
steps-++ st (x ∷ xs) ys p = go (λ q. steps-++ st xs ys q) (step st x p)
  where
    go :
        ((q : Printer) → steps st (xs ++ ys) q ≡ (steps st xs q >>= steps st ys))
        → (o : Option Printer) → (o >>= steps st (xs ++ ys)) ≡ (o >>= steps st xs >>= steps st ys)
    go h none = refl
    go h (some q) = h q

split_more :
    (ss : List String) (k : ℕ) (taken : List String) (b : String) (bs : List String)
    → split (length ss + k) taken (onto ss b bs) ≡ split k (append ss taken) (b ∷ bs)
unfolding split
split_more [] k taken b bs = ap (λ n. split n taken (b ∷ bs)) (omega arith)
split_more (s ∷ ss) k taken b bs = ground (arith, split_more ss (suc k) taken s (b ∷ bs))

pub split-onto :
    (ss : List String) (b : String) (bs : List String)
    → split (length ss) [] (onto ss b bs) ≡ some (ss, b ∷ bs)
unfolding split
split-onto ss b bs = ground (arith, split_more ss 0 [] b bs, append_nil ss)

pub split-onto_all :
    (ss : List String) (b : String) (bs : List String)
    → split (suc (length ss)) [] (onto ss b bs) ≡ some (b ∷ ss, bs)
unfolding split
split-onto_all ss b bs = ground (arith, split_more ss 1 [] b bs, append_nil ss)

pub onto_nonempty :
    (ss : List String) (b : String) (bs : List String) → ltb (length (onto ss b bs)) 1 ≡ false
onto_nonempty [] b bs = ground arith
onto_nonempty (s ∷ ss) b bs = onto_nonempty ss s (b ∷ bs)

pub join-onto :
    (ss : List String) (b : String) (bs : List String) (delim : String)
    → (join_with_delim (onto ss b bs) delim (length ss) 1 ≡ some (join delim 1 ss, b ∷ bs))
      × (join_with_delim (onto ss b bs) delim (length ss) 0 ≡ some (join delim 0 ss, b ∷ bs))
unfolding join_with_delim
join-onto ss b bs delim =
    (ground (arith, split-onto ss b bs, onto_nonempty ss b bs), ground (arith, split-onto ss b bs))

length-render_all : (st : Style) (es : Exprs) → length (render_all st es) ≡ exprs_size es
unfolding render_all exprs_size
length-render_all st nil = refl
length-render_all st (cons e es) = ap suc (length-render_all st es)

length-render_fields : (st : Style) (fs : Fields) → length (render_fields st fs) ≡ fields_size fs
unfolding render_fields fields_size
length-render_fields st end = refl
length-render_fields st (field n s e fs) = ap suc (length-render_fields st fs)

-- The printer goes from `p` to `q` over the events.
pub record Goes (st : Style) (es : List Event) (p q : Printer) : Type 0 where
  pub run : steps st es p ≡ some q

module _ {st : Style} where
  infixr 5 ◌then◌
  pub ◌then◌ :
      {xs ys : List Event} {p q r : Printer}
      → Goes st xs p q
      → Goes st ys q r
      → Goes st (xs ++ ys) p r
  ◌then◌ {xs = xs} {ys = ys} {p = p} g h = record {
    run = ground (arith, steps-++ st xs ys p, g.run, h.run);
  }

  pub before :
      {e : Event} {es : List Event} {p q r : Printer}
      → step st e p ≡ some q
      → Goes st es q r
      → Goes st (e ∷ es) p r
  unfolding steps
  before g h = record { run = ground (arith, g, h.run) }

  pub last : {e : Event} {p q : Printer} → step st e p ≡ some q → Goes st (e ∷ []) p q
  unfolding steps
  last g = record { run = ground (arith, g) }

  pub nothing : {p : Printer} → Goes st [] p p
  unfolding steps
  nothing = record { run = refl }

mutual
  unfolding step end_expr render render_all render_fields accept_expr accept_exprs accept_fields
      end_one end_two end_ternary end_fun_app extend_back end_array end_rec push pop

  pub expr_lem :
      (st : Style) (e : Expr) (b : String) (bs : List String) (lv : ℕ)
      → Goes st (accept_expr e) (at b bs lv) (at (render st e) (b ∷ bs) lv)
  expr_lem st (number n k) b bs lv = before refl (last refl)
  expr_lem st (boolean n k) b bs lv = before refl (last refl)
  expr_lem st (variable n x) b bs lv = before refl (last refl)
  expr_lem st (input n) b bs lv = before refl (last refl)
  expr_lem st (null n) b bs lv = before refl (last refl)
  expr_lem st (alloc n e) b bs lv = before refl (expr_lem st e b bs lv then last refl)
  expr_lem st (ref n e) b bs lv = before refl (expr_lem st e b bs lv then last refl)
  expr_lem st (deref n e) b bs lv = before refl (expr_lem st e b bs lv then last refl)
  expr_lem st (negation n e) b bs lv = before refl (expr_lem st e b bs lv then last refl)
  expr_lem st (minus n e) b bs lv = before refl (expr_lem st e b bs lv then last refl)
  expr_lem st (array_len n e) b bs lv = before refl (expr_lem st e b bs lv then last refl)
  expr_lem st (access n e f) b bs lv = before refl (expr_lem st e b bs lv then last refl)
  expr_lem st (binary n op l r) b bs lv =
      before refl (expr_lem st l b bs lv then expr_lem st r _ _ lv then last refl)
  expr_lem st (array_of n a c) b bs lv =
      before refl (expr_lem st a b bs lv then expr_lem st c _ _ lv then last refl)
  expr_lem st (indexing n a i) b bs lv =
      before refl (expr_lem st a b bs lv then expr_lem st i _ _ lv then last refl)
  expr_lem st (ternary n c t e) b bs lv =
      before refl
        (expr_lem st c b bs lv then expr_lem st t _ _ lv then expr_lem st e _ _ lv then last refl)
  expr_lem st (fun_app n f xs) b bs lv = before refl (
      expr_lem st f b bs lv
      then exprs_lem st xs _ _ lv
      then last (
          ground (
            arith,
            length-render_all st xs,
            join-onto (render_all st xs) (render st f) (b ∷ bs) ", ",
          )))
  expr_lem st (array n xs) b bs lv = before refl (
      exprs_lem st xs b bs lv
      then last (ground (arith, length-render_all st xs, split-onto (render_all st xs) b bs)))
  expr_lem st (rec n fs) b bs lv = before refl (
      fields_lem st fs b bs lv
      then last
          (ground (arith, length-render_fields st fs, join-onto (render_fields st fs) b bs ", ")))

  pub exprs_lem :
      (st : Style) (es : Exprs) (b : String) (bs : List String) (lv : ℕ)
      → Goes st
          (accept_exprs es)
          (at b bs lv)
          (record { results = onto (render_all st es) b bs; level = lv })
  exprs_lem st nil b bs lv = nothing
  exprs_lem st (cons e es) b bs lv = expr_lem st e b bs lv then exprs_lem st es _ _ lv

  pub fields_lem :
      (st : Style) (fs : Fields) (b : String) (bs : List String) (lv : ℕ)
      → Goes st
          (accept_fields fs)
          (at b bs lv)
          (record { results = onto (render_fields st fs) b bs; level = lv })
  fields_lem st end b bs lv = nothing
  fields_lem st (field n s e fs) b bs lv =
      before refl (expr_lem st e b bs lv then before refl (fields_lem st fs _ _ lv))
