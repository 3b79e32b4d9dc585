-- ===== src/Unifier/Substitution.antt =====
-- A substitution that makes the sides of all constraints equal is a solution, so the classes that
-- `solve` infers are a most general unifier.
use sipc.Prelude.{◌≡◌, refl, subst, ℕ, ◌<◌, true, false, inl, inr, List, length, arith}
use sipc.Types.{
  TipVar, TipType, TipTypes, var, int, bool, absent_field, ref, array, function, rec, mu, nil, cons,
  equal_type, equal_types,
}
use sipc.Types.Equality.{equal_var_iff, equal_type_refl, equal_type_sym, equal_type_trans}
use sipc.UnionFind.Classes.{SameClass}
use sipc.Unifier.{
  TypeConstraint, Unifier, Outcome, done, ◌>>=◌, is_var, arguments, size, do_match, create, solve,
}
use sipc.Unifier.Terms.{AllPairs, AllPairs-size, Decomposes, do_match_iff}
use sipc.Unifier.Least.{IsSolution}
use sipc.Unifier.Solve.{Satisfies}
use sipc.Unifier.Universe.{universe}
use sipc.Unifier.Laws.{Verdict, typable, untypable, solve-Verdict}

-- A term with its variables replaced. A recursive type is left as it is.
unfoldable mutual
  pub apply : (TipVar → TipType) → TipType → TipType
  apply σ (var v) = σ v
  apply σ int = int
  apply σ bool = bool
  apply σ absent_field = absent_field
  apply σ (ref a) = ref (apply σ a)
  apply σ (array a) = array (apply σ a)
  apply σ (function ts) = function (apply_all σ ts)
  apply σ (rec ts ns) = rec (apply_all σ ts) ns
  apply σ (mu v a) = mu v a

  pub apply_all : (TipVar → TipType) → TipTypes → TipTypes
  apply_all σ nil = nil
  apply_all σ (cons t ts) = cons (apply σ t) (apply_all σ ts)

-- The substitution makes two terms equal.
abbrev pub Equates : (TipVar → TipType) → TipType → TipType → Type 0
Equates σ x y = equal_type (apply σ x) (apply σ y) ≡ true

equates_args :
    (σ : TipVar → TipType) (xs ys : TipTypes)
    → equal_types (apply_all σ xs) (apply_all σ ys) ≡ true
    → AllPairs (Equates σ) xs ys
unfolding apply equal_type
equates_args σ nil nil h = tt
equates_args σ (cons x xs) (cons y ys) h = (ground arith, equates_args σ xs ys (ground arith))
equates_args σ nil (cons y ys) h = cc
equates_args σ (cons x xs) nil h = cc

matched :
    (σ : TipVar → TipType) (a b : TipType)
    → AllPairs (Equates σ) (arguments a) (arguments b)
    → (size (arguments a) ≡ size (arguments b) → do_match a b ≡ true)
    → Decomposes (Equates σ) a b
matched σ a b h m = inr (m (AllPairs-size (Equates σ) (arguments a) (arguments b) h), h)

equates_decompose :
    (σ : TipVar → TipType) (a b : TipType)
    → Equates σ a b
    → is_var a ≡ false
    → is_var b ≡ false
    → Decomposes (Equates σ) a b
unfolding apply equal_type is_var arguments
equates_decompose σ int int h p q = inl refl
equates_decompose σ bool bool h p q = inl refl
equates_decompose σ absent_field absent_field h p q = inl refl
equates_decompose σ (mu v a) (mu w b) h p q = inl h
equates_decompose σ (ref a) (ref b) h p q =
    matched σ (ref a) (ref b) (h, tt) (λ e. ground (arith, do_match_iff (ref a) (ref b)))
equates_decompose σ (array a) (array b) h p q =
    matched σ (array a) (array b) (h, tt) (λ e. ground (arith, do_match_iff (array a) (array b)))
equates_decompose σ (function xs) (function ys) h p q =
    matched σ (function xs) (function ys) (equates_args σ xs ys h)
      (λ e. ground (arith, do_match_iff (function xs) (function ys)))
equates_decompose σ (rec xs ns) (rec ys ms) h p q =
    matched σ (rec xs ns) (rec ys ms) (equates_args σ xs ys h)
      (λ e. ground (arith, do_match_iff (rec xs ns) (rec ys ms)))
equates_decompose σ (var v) b h p q = cc
equates_decompose σ a (var v) h p q = cc
equates_decompose σ _ _ h p q = cc

mutual
  unfolding apply equal_type

  apply-equal : (σ : TipVar → TipType) (a b : TipType) → equal_type a b ≡ true → Equates σ a b
  apply-equal σ (var v) (var w) h =
      subst (λ u. Equates σ (var v) (var u)) ((equal_var_iff v w).0 h) (equal_type_refl (σ v))
  apply-equal σ int int h = refl
  apply-equal σ bool bool h = refl
  apply-equal σ absent_field absent_field h = refl
  apply-equal σ (ref a) (ref b) h = apply-equal σ a b h
  apply-equal σ (array a) (array b) h = apply-equal σ a b h
  apply-equal σ (function xs) (function ys) h = apply_all-equal σ xs ys h
  apply-equal σ (rec xs _) (rec ys _) h = apply_all-equal σ xs ys h
  apply-equal σ (mu v a) (mu w b) h = h
  apply-equal σ _ _ h = cc

  apply_all-equal :
      (σ : TipVar → TipType) (xs ys : TipTypes)
      → equal_types xs ys ≡ true
      → equal_types (apply_all σ xs) (apply_all σ ys) ≡ true
  apply_all-equal σ nil nil h = refl
  apply_all-equal σ (cons x xs) (cons y ys) h =
      ground (arith, apply-equal σ x y, apply_all-equal σ xs ys)
  apply_all-equal σ _ _ h = cc

pub Equates-IsSolution : (σ : TipVar → TipType) → IsSolution (Equates σ)
Equates-IsSolution σ = record {
  equivalence = record {
    equal = apply-equal σ;
    symm = λ a b. equal_type_sym (apply σ a) (apply σ b);
    trans = λ a b c. equal_type_trans (apply σ a) (apply σ b) (apply σ c);
  };
  decompose = equates_decompose σ;
}

-- Where a substitution makes the sides of every constraint equal, for a fuel above the number of
-- subterms, the constructor and `solve` end, and the substitution makes any two terms equal that
-- they have put into one class: the inferred classes are a most general unifier.
pub solve_most_general :
    (cs : List TypeConstraint) (fuel : ℕ) (σ : TipVar → TipType)
    → length (universe cs) < fuel
    → Satisfies (Equates σ) cs
    → (u : Unifier) × ((create cs >>= solve fuel) ≡ done u)
      × ((x y : TipType) → SameClass u.edges x y → Equates σ x y)
solve_most_general cs fuel σ lt h = of_verdict (create cs >>= solve fuel) (solve-Verdict cs fuel lt)
  where
    of_verdict :
        (o : Outcome Unifier)
        → Verdict cs o
        → (u : Unifier) × (o ≡ done u) × ((x y : TipType) → SameClass u.edges x y → Equates σ x y)
    of_verdict o (typable {u} s l) = (u, refl, l (Equates σ) (Equates-IsSolution σ) h)
    of_verdict o (untypable n) = absurd (n (Equates σ, Equates-IsSolution σ, h))
