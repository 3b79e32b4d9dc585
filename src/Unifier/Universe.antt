-- ===== src/Unifier/Universe.antt =====
-- The terms that a run of the unifier can meet: the subterms of its constraints.
use sipc.Prelude.{
  ◌≡◌, refl, sym, ◌∙◌, ◌≤◌, true, ◌||◌, List, [], ◌∷◌, ◌++◌, length, Bool-cases, inl, inr, arith,
}
use sipc.Types.{
  TipType, TipTypes, var, int, bool, absent_field, ref, array, function, rec, mu, nil, cons,
  equal_type,
}
use sipc.Types.Equality.{equal_type_refl, equal_type_sym}
use sipc.UnionFind.{Edges}
use sipc.Unifier.{TypeConstraint, arguments}
use sipc.Unifier.Terms.{AllPairs, Equal, arguments-equal}
use sipc.Unifier.Measure.{contains, contains-equal, AllIn, IsClosed, root_count}

unfoldable mutual
  pub subterms : TipType → List TipType
  subterms (ref a) = ref a ∷ subterms a
  subterms (array a) = array a ∷ subterms a
  subterms (function ts) = function ts ∷ subterms_all ts
  subterms (rec ts ns) = rec ts ns ∷ subterms_all ts
  subterms (var v) = var v ∷ []
  subterms int = int ∷ []
  subterms bool = bool ∷ []
  subterms absent_field = absent_field ∷ []
  subterms (mu v a) = mu v a ∷ []

  pub subterms_all : TipTypes → List TipType
  subterms_all nil = []
  subterms_all (cons t ts) = subterms t ++ subterms_all ts

unfoldable pub universe : List TypeConstraint → List TipType
universe [] = []
universe (c ∷ cs) = subterms c.lhs ++ (subterms c.rhs ++ universe cs)

contains-append :
    (us vs : List TipType) (t : TipType) → contains (us ++ vs) t ≡ (contains us t || contains vs t)
unfolding contains
contains-append [] vs t = refl
contains-append (u ∷ us) vs t = ground (arith, contains-append us vs t)

abbrev Includes : List TipType → List TipType → Type 0
Includes us vs = (t : TipType) → contains us t ≡ true → contains vs t ≡ true

-- The arguments of the terms of `us` lie in `vs`.
abbrev Covers : List TipType → List TipType → Type 0
Covers us vs = (t : TipType) → contains us t ≡ true → AllIn vs (arguments t)

AllIn-map : (us vs : List TipType) → Includes us vs → (xs : TipTypes) → AllIn us xs → AllIn vs xs
AllIn-map us vs i nil h = tt
AllIn-map us vs i (cons x xs) h = (i x h.0, AllIn-map us vs i xs h.1)

AllIn-equal :
    (us : List TipType) (xs ys : TipTypes) → AllPairs Equal xs ys → AllIn us xs → AllIn us ys
AllIn-equal us nil nil h k = tt
AllIn-equal us (cons x xs) (cons y ys) h k =
    (sym (contains-equal us x y h.0) ∙ k.0, AllIn-equal us xs ys h.1 k.1)
AllIn-equal us nil (cons y ys) h k = absurd h
AllIn-equal us (cons x xs) nil h k = absurd h

Includes-left : (us vs : List TipType) → Includes us (us ++ vs)
Includes-left us vs t h = ground (arith, contains-append us vs t)

Includes-right : (us vs : List TipType) → Includes vs (us ++ vs)
Includes-right us vs t h = ground (arith, contains-append us vs t)

Covers-append : (us vs ws : List TipType) → Covers us ws → Covers vs ws → Covers (us ++ vs) ws
Covers-append us vs ws f g t h = elim (Bool-cases (contains us t)) [
  | inl e ↦ f t e
  | inr n ↦ g t (ground (arith, contains-append us vs t))
]

Covers-map : (us vs ws : List TipType) → Includes vs ws → Covers us vs → Covers us ws
Covers-map us vs ws i f t h = AllIn-map vs ws i (arguments t) (f t h)

-- A term with its arguments in `ws`, before a list that `ws` covers.
Covers-cons :
    (u : TipType) (us ws : List TipType)
    → AllIn ws (arguments u)
    → Covers us ws
    → Covers (u ∷ us) ws
unfolding contains
Covers-cons u us ws a f t h = elim (Bool-cases (equal_type t u)) [
  | inl e ↦
      AllIn-equal ws (arguments u) (arguments t) (arguments-equal u t (equal_type_sym t u e)) a
  | inr n ↦ f t (ground arith)
]

contains-head : (u : TipType) (us : List TipType) → contains (u ∷ us) u ≡ true
unfolding contains
contains-head u us = ground (arith, equal_type_refl u)

Includes-tail : (u : TipType) (us : List TipType) → Includes us (u ∷ us)
unfolding contains
Includes-tail u us t h = ground arith

closed_with :
    (u : TipType) (us : List TipType) → AllIn us (arguments u) → IsClosed us → IsClosed (u ∷ us)
closed_with u us a f =
    Covers-cons u us (u ∷ us) (AllIn-map us (u ∷ us) (Includes-tail u us) (arguments u) a)
      (Covers-map us us (u ∷ us) (Includes-tail u us) f)

closed_nil : IsClosed []
unfolding contains
closed_nil t h = cc

IsClosed-append : (us vs : List TipType) → IsClosed us → IsClosed vs → IsClosed (us ++ vs)
IsClosed-append us vs f g =
    Covers-append us vs (us ++ vs) (Covers-map us us (us ++ vs) (Includes-left us vs) f)
      (Covers-map vs vs (us ++ vs) (Includes-right us vs) g)

contains-subterms : (t : TipType) → contains (subterms t) t ≡ true
unfolding subterms
contains-subterms (ref a) = contains-head (ref a) (subterms a)
contains-subterms (array a) = contains-head (array a) (subterms a)
contains-subterms (function ts) = contains-head (function ts) (subterms_all ts)
contains-subterms (rec ts ns) = contains-head (rec ts ns) (subterms_all ts)
contains-subterms (var v) = contains-head (var v) []
contains-subterms int = contains-head int []
contains-subterms bool = contains-head bool []
contains-subterms absent_field = contains-head absent_field []
contains-subterms (mu v a) = contains-head (mu v a) []

AllIn-subterms : (ts : TipTypes) → AllIn (subterms_all ts) ts
unfolding subterms
AllIn-subterms nil = tt
AllIn-subterms (cons t ts) = (
  Includes-left (subterms t) (subterms_all ts) t (contains-subterms t),
  AllIn-map (subterms_all ts) (subterms t ++ subterms_all ts)
      (Includes-right (subterms t) (subterms_all ts)) ts (AllIn-subterms ts),
)

mutual
  unfolding subterms arguments

  subterms-IsClosed : (t : TipType) → IsClosed (subterms t)
  subterms-IsClosed (ref a) =
      closed_with (ref a) (subterms a) (contains-subterms a, tt) (subterms-IsClosed a)
  subterms-IsClosed (array a) =
      closed_with (array a) (subterms a) (contains-subterms a, tt) (subterms-IsClosed a)
  subterms-IsClosed (function ts) =
      closed_with (function ts) (subterms_all ts) (AllIn-subterms ts) (subterms_all-IsClosed ts)
  subterms-IsClosed (rec ts ns) =
      closed_with (rec ts ns) (subterms_all ts) (AllIn-subterms ts) (subterms_all-IsClosed ts)
  subterms-IsClosed (var v) = closed_with (var v) [] tt closed_nil
  subterms-IsClosed int = closed_with int [] tt closed_nil
  subterms-IsClosed bool = closed_with bool [] tt closed_nil
  subterms-IsClosed absent_field = closed_with absent_field [] tt closed_nil
  subterms-IsClosed (mu v a) = closed_with (mu v a) [] tt closed_nil

  subterms_all-IsClosed : (ts : TipTypes) → IsClosed (subterms_all ts)
  subterms_all-IsClosed nil = closed_nil
  subterms_all-IsClosed (cons t ts) =
      IsClosed-append (subterms t) (subterms_all ts) (subterms-IsClosed t)
        (subterms_all-IsClosed ts)

pub universe-IsClosed : (cs : List TypeConstraint) → IsClosed (universe cs)
unfolding universe
universe-IsClosed [] = closed_nil
universe-IsClosed (c ∷ cs) =
    IsClosed-append (subterms c.lhs) (subterms c.rhs ++ universe cs) (subterms-IsClosed c.lhs) (
      IsClosed-append (subterms c.rhs) (universe cs) (subterms-IsClosed c.rhs)
        (universe-IsClosed cs))

-- Both sides of each constraint lie in the universe.
abbrev pub Mentions : List TipType → List TypeConstraint → Type 0
Mentions us [] = Unit
Mentions us (c ∷ cs) = (contains us c.lhs ≡ true) × (contains us c.rhs ≡ true) × Mentions us cs

Mentions-map :
    (us vs : List TipType)
    → Includes us vs
    → (cs : List TypeConstraint) → Mentions us cs
    → Mentions vs cs
Mentions-map us vs i [] h = tt
Mentions-map us vs i (c ∷ cs) (l, r, rest) = (i c.lhs l, i c.rhs r, Mentions-map us vs i cs rest)

pub universe-Mentions : (cs : List TypeConstraint) → Mentions (universe cs) cs
unfolding universe
universe-Mentions [] = tt
universe-Mentions (c ∷ cs) =
    let l = subterms c.lhs in
    let r = subterms c.rhs in
    (
      Includes-left l (r ++ universe cs) c.lhs (contains-subterms c.lhs),
      Includes-right l (r ++ universe cs) c.rhs
          (Includes-left r (universe cs) c.rhs (contains-subterms c.rhs)),
      Mentions-map (universe cs) (l ++ (r ++ universe cs))
          (λ t h. Includes-right l (r ++ universe cs) t (Includes-right r (universe cs) t h)) cs
          (universe-Mentions cs),
    )

pub root_count_le : (es : Edges) (us : List TipType) → root_count es us ≤ length us
unfolding root_count
root_count_le es [] = omega arith
root_count_le es (u ∷ us) = ground (arith, root_count_le es us)
