-- ===== src/Unifier/Terms.antt =====
-- Facts on the shape of type terms: equal terms have the same shape, and equal arguments.
use sipc.Prelude.{◌≡◌, ◌↔◌, ◌<◌, ℕ, refl, true, arith, inl, inr, ◌⊎◌, ==_iff}
use sipc.Types.{
  TipType, TipTypes, var, int, bool, absent_field, ref, array, function, rec, mu, nil, cons,
  equal_type, equal_types,
}
use sipc.Types.Equality.{equal_type_sym, equal_type_trans}
use sipc.Unifier.{is_var, is_cons, arguments, size, same_type, do_match}

-- Two lists of types have one length, and `R` relates them pairwise.
abbrev pub AllPairs : (TipType → TipType → Type 0) → TipTypes → TipTypes → Type 0
AllPairs R nil nil = Unit
AllPairs R (cons x xs) (cons y ys) = R x y × AllPairs R xs ys
AllPairs R _ _ = ⊥

pub AllPairs-map :
    (R S : TipType → TipType → Type 0)
    → ((x y : TipType) → R x y → S x y)
    → (xs ys : TipTypes) → AllPairs R xs ys
    → AllPairs S xs ys
AllPairs-map R S f nil nil h = tt
AllPairs-map R S f (cons x xs) (cons y ys) h = (f x y h.0, AllPairs-map R S f xs ys h.1)
AllPairs-map R S f nil (cons y ys) h = absurd h
AllPairs-map R S f (cons x xs) nil h = absurd h

AllPairs-sym :
    (R : TipType → TipType → Type 0)
    → ((x y : TipType) → R x y → R y x)
    → (xs ys : TipTypes) → AllPairs R xs ys
    → AllPairs R ys xs
AllPairs-sym R f nil nil h = tt
AllPairs-sym R f (cons x xs) (cons y ys) h = (f x y h.0, AllPairs-sym R f xs ys h.1)
AllPairs-sym R f nil (cons y ys) h = absurd h
AllPairs-sym R f (cons x xs) nil h = absurd h

AllPairs-trans :
    (R : TipType → TipType → Type 0)
    → ((x y z : TipType) → R x y → R y z → R x z)
    → (xs ys zs : TipTypes) → AllPairs R xs ys
    → AllPairs R ys zs
    → AllPairs R xs zs
AllPairs-trans R f nil nil nil h k = tt
AllPairs-trans R f (cons x xs) (cons y ys) (cons z zs) h k =
    (f x y z h.0 k.0, AllPairs-trans R f xs ys zs h.1 k.1)
AllPairs-trans R f nil nil (cons z zs) h k = absurd k
AllPairs-trans R f nil (cons y ys) zs h k = absurd h
AllPairs-trans R f (cons x xs) nil zs h k = absurd h
AllPairs-trans R f (cons x xs) (cons y ys) nil h k = absurd k

abbrev pub Equal : TipType → TipType → Type 0
Equal a b = equal_type a b ≡ true

equal_types-AllPairs : (xs ys : TipTypes) → equal_types xs ys ≡ true → AllPairs Equal xs ys
unfolding equal_type
equal_types-AllPairs nil nil h = tt
equal_types-AllPairs (cons x xs) (cons y ys) h =
    (ground arith, equal_types-AllPairs xs ys (ground arith))
equal_types-AllPairs nil (cons y ys) h = cc
equal_types-AllPairs (cons x xs) nil h = cc

pub AllPairs-size :
    (R : TipType → TipType → Type 0) (xs ys : TipTypes) → AllPairs R xs ys → size xs ≡ size ys
unfolding size
AllPairs-size R nil nil h = refl
AllPairs-size R (cons x xs) (cons y ys) h = ground (arith, AllPairs-size R xs ys h.1)
AllPairs-size R nil (cons y ys) h = absurd h
AllPairs-size R (cons x xs) nil h = absurd h

pub is_var-equal : (a b : TipType) → equal_type a b ≡ true → is_var a ≡ is_var b
unfolding equal_type is_var
is_var-equal (var v) (var w) h = refl
is_var-equal int int h = refl
is_var-equal bool bool h = refl
is_var-equal absent_field absent_field h = refl
is_var-equal (ref a) (ref b) h = refl
is_var-equal (array a) (array b) h = refl
is_var-equal (function xs) (function ys) h = refl
is_var-equal (rec xs _) (rec ys _) h = refl
is_var-equal (mu v a) (mu w b) h = refl
is_var-equal _ _ h = cc

pub arguments-equal :
    (a b : TipType) → equal_type a b ≡ true → AllPairs Equal (arguments a) (arguments b)
unfolding equal_type arguments
arguments-equal (var v) (var w) h = tt
arguments-equal int int h = tt
arguments-equal bool bool h = tt
arguments-equal absent_field absent_field h = tt
arguments-equal (ref a) (ref b) h = (h, tt)
arguments-equal (array a) (array b) h = (h, tt)
arguments-equal (function xs) (function ys) h = equal_types-AllPairs xs ys h
arguments-equal (rec xs _) (rec ys _) h = equal_types-AllPairs xs ys h
arguments-equal (mu v a) (mu w b) h = tt
arguments-equal _ _ h = cc

-- The place in the list of `doMatch` of a type's class, if it is there.
abbrev pub listed : TipType → ℕ
listed (function _) = 1
listed int = 2
listed (rec _ _) = 3
listed (ref _) = 4
listed (array _) = 5
listed _ = 0

same_type_iff : (a b : TipType) → (same_type a b ≡ true) ↔ ((listed a ≡ listed b) × (0 < listed a))
unfolding same_type
same_type_iff (function _) (function _) = ground arith
same_type_iff int int = ground arith
same_type_iff (rec _ _) (rec _ _) = ground arith
same_type_iff (ref _) (ref _) = ground arith
same_type_iff (array _) (array _) = ground arith
same_type_iff (var _) (var _) = ground arith
same_type_iff bool bool = ground arith
same_type_iff absent_field absent_field = ground arith
same_type_iff (mu _ _) (mu _ _) = ground arith
same_type_iff _ _ = ground arith

-- `doMatch` holds of two types of one listed class with as many arguments.
pub do_match_iff :
    (a b : TipType)
    → (do_match a b ≡ true)
      ↔ ((listed a ≡ listed b) × (0 < listed a) × (size (arguments a) ≡ size (arguments b)))
unfolding do_match
do_match_iff a b =
    ground (arith, same_type_iff b a, ==_iff (size (arguments b)) (size (arguments a)))

listed-cons : (a : TipType) → 0 < listed a → is_cons a ≡ true
unfolding is_cons
listed-cons (var v) h = absurd (omega arith)
listed-cons (mu v a) h = absurd (omega arith)
listed-cons _ h = refl

pub do_match-cons : (a b : TipType) → do_match a b ≡ true → (is_cons a ≡ true) × (is_cons b ≡ true)
do_match-cons a b h =
    let (e, p, k) = (do_match_iff a b).0 h in (listed-cons a p, listed-cons b (rw e at p))

do_match-sym : (a b : TipType) → do_match a b ≡ true → do_match b a ≡ true
do_match-sym a b h = ground (arith, do_match_iff a b, do_match_iff b a)

do_match_trans : (a b c : TipType) → do_match a b ≡ true → do_match b c ≡ true → do_match a c ≡ true
do_match_trans a b c h k = ground (arith, do_match_iff a b, do_match_iff b c, do_match_iff a c)

listed-equal : (a b : TipType) → equal_type a b ≡ true → listed a ≡ listed b
unfolding equal_type
listed-equal (var v) (var w) h = refl
listed-equal int int h = refl
listed-equal bool bool h = refl
listed-equal absent_field absent_field h = refl
listed-equal (ref a) (ref b) h = refl
listed-equal (array a) (array b) h = refl
listed-equal (function xs) (function ys) h = refl
listed-equal (rec xs _) (rec ys _) h = refl
listed-equal (mu v a) (mu w b) h = refl
listed-equal _ _ h = cc

do_match-equal :
    (a b c : TipType) → equal_type a b ≡ true → do_match a c ≡ true → do_match b c ≡ true
do_match-equal a b c h k = ground (
  arith,
  do_match_iff a c,
  do_match_iff b c,
  listed-equal a b h,
  AllPairs-size Equal (arguments a) (arguments b) (arguments-equal a b h),
)

-- An equivalence of type terms, coarser than `operator==`.
pub record IsEquivalence (S : TipType → TipType → Type 0) : Type 0 where
  pub equal : (a b : TipType) → equal_type a b ≡ true → S a b
  pub symm : (a b : TipType) → S a b → S b a
  pub trans : (a b c : TipType) → S a b → S b c → S a c

-- Two types are equal, or match and have related arguments.
abbrev pub Decomposes : (TipType → TipType → Type 0) → TipType → TipType → Type 0
Decomposes S a b =
    (equal_type a b ≡ true) ⊎ (do_match a b ≡ true) × AllPairs S (arguments a) (arguments b)

module _ (S : TipType → TipType → Type 0) (eqv : IsEquivalence S) where
  open eqv use {equal, symm, trans}

  pub Decomposes-symm : (a b : TipType) → Decomposes S a b → Decomposes S b a
  Decomposes-symm a b (inl e) = inl (equal_type_sym a b e)
  Decomposes-symm a b (inr (m, h)) =
      inr (do_match-sym a b m, AllPairs-sym S symm (arguments a) (arguments b) h)

  pairs_of_equal : (a b : TipType) → equal_type a b ≡ true → AllPairs S (arguments a) (arguments b)
  pairs_of_equal a b e =
      AllPairs-map Equal S equal (arguments a) (arguments b) (arguments-equal a b e)

  pub Decomposes-trans : (a b c : TipType) → Decomposes S a b → Decomposes S b c → Decomposes S a c
  Decomposes-trans a b c (inl e) (inl k) = inl (equal_type_trans a b c e k)
  Decomposes-trans a b c (inl e) (inr (m, h)) = inr (
    do_match-equal b a c (equal_type_sym a b e) m,
    AllPairs-trans S trans (arguments a) (arguments b) (arguments c) (pairs_of_equal a b e) h,
  )
  Decomposes-trans a b c (inr (m, h)) (inl k) = inr (
    do_match-sym c a (do_match-equal b c a k (do_match-sym a b m)),
    AllPairs-trans S trans (arguments a) (arguments b) (arguments c) h (pairs_of_equal b c k),
  )
  Decomposes-trans a b c (inr (m, h)) (inr (n, k)) = inr (
    do_match_trans a b c m n,
    AllPairs-trans S trans (arguments a) (arguments b) (arguments c) h k,
  )
