-- ===== src/Types/Equality.antt =====
-- `operator==` of the type terms is equality up to the names of records.
use sipc.Prelude.{
  ◌≡◌, refl, sym, ap, ap₂, ◌∙◌, ◌↔◌, ℕ, true, ◌&&◌, [], Option, none, some, arith, str_eq_iff,
  ==_iff,
}
use sipc.Types.{
  TipVar, plain, alpha, TipType, TipTypes, var, int, bool, absent_field, ref, array, function, rec,
  mu, nil, cons, equal_context, equal_var, equal_type, equal_types,
}

equal_context_iff : (a b : Option ℕ) → (equal_context a b ≡ true) ↔ (a ≡ b)
unfolding equal_context
equal_context_iff none none = ground arith
equal_context_iff (some a) (some b) = ground (arith, ==_iff a b)
equal_context_iff _ _ = ground arith

pub equal_var_iff : (v w : TipVar) → (equal_var v w ≡ true) ↔ (v ≡ w)
unfolding equal_var
equal_var_iff (plain n) (plain m) = ground (arith, ==_iff n m)
equal_var_iff (alpha n c s) (alpha m d t) = ground (arith, equal_context_iff c d, str_eq_iff s t)
equal_var_iff _ _ = ground arith

-- A type without the names of its records.
mutual
  pub anonymous : TipType → TipType
  anonymous (ref a) = ref (anonymous a)
  anonymous (array a) = array (anonymous a)
  anonymous (function xs) = function (anonymous_all xs)
  anonymous (rec xs _) = rec (anonymous_all xs) []
  anonymous (mu v a) = mu v (anonymous a)
  anonymous (var v) = var v
  anonymous int = int
  anonymous bool = bool
  anonymous absent_field = absent_field

  pub anonymous_all : TipTypes → TipTypes
  anonymous_all nil = nil
  anonymous_all (cons a xs) = cons (anonymous a) (anonymous_all xs)

mutual
  unfolding equal_type

  equal_refl : (a : TipType) → equal_type a a ≡ true
  equal_refl (var v) = (equal_var_iff v v).1 refl
  equal_refl int = refl
  equal_refl bool = refl
  equal_refl absent_field = refl
  equal_refl (ref a) = equal_refl a
  equal_refl (array a) = equal_refl a
  equal_refl (function xs) = equals_refl xs
  equal_refl (rec xs _) = equals_refl xs
  equal_refl (mu v a) = ground (arith, equal_var_iff v v, equal_refl a)

  equals_refl : (xs : TipTypes) → equal_types xs xs ≡ true
  equals_refl nil = refl
  equals_refl (cons a xs) = ground (arith, equal_refl a, equals_refl xs)

mutual
  unfolding equal_type anonymous

  equal-anonymous : (a b : TipType) → equal_type (anonymous a) (anonymous b) ≡ equal_type a b
  equal-anonymous (ref a) (ref b) = equal-anonymous a b
  equal-anonymous (array a) (array b) = equal-anonymous a b
  equal-anonymous (function xs) (function ys) = equals-anonymous xs ys
  equal-anonymous (rec xs _) (rec ys _) = equals-anonymous xs ys
  equal-anonymous (mu v a) (mu w b) = ap (λ t. equal_var v w && t) (equal-anonymous a b)
  equal-anonymous (var v) (var w) = refl
  equal-anonymous int int = refl
  equal-anonymous bool bool = refl
  equal-anonymous absent_field absent_field = refl
  equal-anonymous _ _ = refl

  equals-anonymous :
      (xs ys : TipTypes) → equal_types (anonymous_all xs) (anonymous_all ys) ≡ equal_types xs ys
  equals-anonymous (cons a xs) (cons b ys) =
      ap₂ (λ s t. s && t) (equal-anonymous a b) (equals-anonymous xs ys)
  equals-anonymous nil nil = refl
  equals-anonymous _ _ = refl

mutual
  unfolding equal_type anonymous

  anonymous_of_equal : (a b : TipType) → equal_type a b ≡ true → anonymous a ≡ anonymous b
  anonymous_of_equal (var v) (var w) h = ap var ((equal_var_iff v w).0 h)
  anonymous_of_equal (ref a) (ref b) h = ap ref (anonymous_of_equal a b h)
  anonymous_of_equal (array a) (array b) h = ap array (anonymous_of_equal a b h)
  anonymous_of_equal (function xs) (function ys) h = ap function (anonymous_of_equals xs ys h)
  anonymous_of_equal (rec xs _) (rec ys _) h = ap (λ cs. rec cs []) (anonymous_of_equals xs ys h)
  anonymous_of_equal (mu v a) (mu w b) h = ground (arith, equal_var_iff v w, anonymous_of_equal a b)
  anonymous_of_equal int int h = refl
  anonymous_of_equal bool bool h = refl
  anonymous_of_equal absent_field absent_field h = refl
  anonymous_of_equal _ _ h = cc

  anonymous_of_equals :
      (xs ys : TipTypes) → equal_types xs ys ≡ true → anonymous_all xs ≡ anonymous_all ys
  anonymous_of_equals nil nil h = refl
  anonymous_of_equals (cons a xs) (cons b ys) h =
      ground (arith, anonymous_of_equal a b, anonymous_of_equals xs ys)
  anonymous_of_equals _ _ h = cc

-- `operator==` holds of two types exactly when they are the same term once the names of records
-- are dropped.
pub equal_type_iff : (a b : TipType) → (equal_type a b ≡ true) ↔ (anonymous a ≡ anonymous b)
equal_type_iff a b = (
  anonymous_of_equal a b,
  λ h.
      sym (equal-anonymous a b) ∙ ap (λ t. equal_type t (anonymous b)) h ∙ equal_refl (anonymous b),
)

pub equal_type_refl : (a : TipType) → equal_type a a ≡ true
equal_type_refl = equal_refl

pub equal_type_sym : (a b : TipType) → equal_type a b ≡ true → equal_type b a ≡ true
equal_type_sym a b h = (equal_type_iff b a).1 (sym ((equal_type_iff a b).0 h))

pub equal_type_trans :
    (a b c : TipType) → equal_type a b ≡ true → equal_type b c ≡ true → equal_type a c ≡ true
equal_type_trans a b c h k =
    (equal_type_iff a c).1 ((equal_type_iff a b).0 h ∙ (equal_type_iff b c).0 k)

-- Two equal types answer every comparison alike.
pub equal_type_left : (a b c : TipType) → equal_type a b ≡ true → equal_type a c ≡ equal_type b c
equal_type_left a b c h =
    ground (arith, equal_type_trans a b c, equal_type_trans b a c, equal_type_sym a b)

pub equal_type_right : (a b c : TipType) → equal_type a b ≡ true → equal_type c a ≡ equal_type c b
equal_type_right a b c h =
    ground (arith, equal_type_trans c a b, equal_type_trans c b a, equal_type_sym a b)
