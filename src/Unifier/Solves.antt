-- ===== src/Unifier/Solves.antt =====
-- The classes that a run of `unify` leaves are a solution: two proper types of one class match
-- and their arguments are in one class, and the root of a class with a proper type is proper.
use sipc.Prelude.{◌≡◌, true, false, inl, inr, ◌⊎◌, if◌then◌else◌, arith}
use sipc.Types.{TipType, TipTypes, equal_type}
use sipc.Types.Equality.{equal_type_refl}
use sipc.UnionFind.{Edges}
use sipc.UnionFind.Find.{
  IsForest, Represents, Represents-Grows, Represents-shrinks, Represents-unique,
}
use sipc.UnionFind.Union.{Unions, Represents-union}
use sipc.UnionFind.Classes.{
  SameClass, SameClass-sym, SameClass-shrinks, SameClass-of_union, Represents-self_of, root_of,
  roots-equal,
}
use sipc.UnionFind.Laws.{IsValid, IsValid-Grows, IsValid-union}
use sipc.Unifier.{
  Outcome, done, unification_error, out_of_range, out_of_fuel, is_var, arguments, do_match,
}
use sipc.Unifier.Terms.{
  AllPairs, AllPairs-map, is_var-equal, IsEquivalence, Decomposes, Decomposes-symm,
  Decomposes-trans,
}
use sipc.Unifier.Keeps.{Ensures, Keeps, Includes, Runs-Keeps, RunsAll-Keeps}
use sipc.Unifier.Least.{Within}
use sipc.Unifier.Runs.{
  Runs, RunsAll, Finds, united, settled, bound_left, bound_right, decomposed, clash, finished, next,
  stopped,
}

-- The root of a proper type is proper.
abbrev pub IsProper : Edges → Type 0
IsProper es = (t r : TipType) → Represents es t r → is_var t ≡ false → is_var r ≡ false

IsProper-finds :
    {es fs : Edges} {t1 t2 rep1 rep2 : TipType}
    → IsForest es
    → Finds es t1 t2 rep1 rep2 fs
    → IsProper es
    → IsProper fs
IsProper-finds v f p t r h n = p t r (Represents-shrinks t r v f.grows h) n

module _ {es fs : Edges} {t1 t2 rep1 rep2 : TipType} (f : Finds es t1 t2 rep1 rep2 fs) where
  pub self1 : Represents fs rep1 rep1
  self1 = Represents-self_of fs t1 rep1 (Represents-Grows t1 rep1 f.grows f.found1)

  pub self2 : Represents fs rep2 rep2
  self2 = Represents-self_of fs t2 rep2 (Represents-Grows t2 rep2 f.grows f.found2)

-- All proper types of a class decompose over `F`.
abbrev pub Decomposed : (TipType → TipType → Type 0) → Edges → Type 0
Decomposed F es =
    (x y : TipType) → SameClass es x y → is_var x ≡ false → is_var y ≡ false → Decomposes F x y

module _ {es : Edges} {a b : TipType} (v : IsForest es) (u : Unions es a b) (p : IsProper es)
    (self_a : Represents es a a) (self_b : Represents es b b) where
  is_var-root1 : is_var a ≡ is_var u.root1
  is_var-root1 =
      is_var-equal a u.root1
        (Represents-unique es a a a u.root1 (equal_type_refl a) self_a u.represents1)

  is_var-root2 : is_var b ≡ is_var u.root2
  is_var-root2 =
      is_var-equal b u.root2
        (Represents-unique es b b b u.root2 (equal_type_refl b) self_b u.represents2)

  -- A variable is bound, or a proper type gets a proper parent.
  IsProper-union : (is_var a ≡ true) ⊎ (is_var b ≡ false) → IsProper (united u)
  IsProper-union c t r h n =
      let (r0, q) = root_of es v t in
      let r' = if equal_type r0 u.root1 then u.root2 else r0 in
      let e =
        Represents-unique (united u) t t r r' (equal_type_refl t) h (Represents-union v u t r0 q) in
      ground (
        arith,
        is_var-equal r r' e,
        is_var-root1,
        is_var-root2,
        p t r0 q n,
        is_var-equal r0 u.root1,
      )

  -- A class whose root is a variable holds variables only.
  no_proper : (x : TipType) → SameClass es x a → is_var a ≡ true → is_var x ≡ false → ⊥
  no_proper x h va n =
      let (r, q) = root_of es v x in
      ground (arith, p x r q n, is_var-equal r a (roots-equal es x a r a q self_a h))

  Decomposed-bind :
      (F : TipType → TipType → Type 0) → is_var a ≡ true → Decomposed F es → Decomposed F (united u)
  Decomposed-bind F va d x y h nx ny = elim (SameClass-of_union v u x y h) [
    | inl e ↦ d x y e nx ny
    | inr (inl (e, k)) ↦ absurd (no_proper x e va nx)
    | inr (inr (e, k)) ↦ absurd (no_proper y (SameClass-sym es a y k) va ny)
  ]

  Decomposed-match :
      (F : TipType → TipType → Type 0)
      → IsEquivalence F
      → is_var a ≡ false
      → is_var b ≡ false
      → Decomposes F a b
      → Decomposed F es
      → Decomposed F (united u)
  Decomposed-match F eqv va vb ab d x y h nx ny = elim (SameClass-of_union v u x y h) [
    | inl e ↦ d x y e nx ny
    | inr (inl (e, k)) ↦
        Decomposes-trans F eqv x a y (d x a e nx va)
          (Decomposes-trans F eqv a b y ab (d b y k vb ny))
    | inr (inr (e, k)) ↦
        Decomposes-trans F eqv x b y (d x b e nx vb)
          (Decomposes-trans F eqv b a y (Decomposes-symm F eqv a b ab) (d a y k va ny))
  ]

module _ (F : TipType → TipType → Type 0) (eqv : IsEquivalence F) where
  -- What a run from `es` to `fs` does, where `F` relates all that is joined in the end.
  pub record Solves (es fs : Edges) : Type 0 where
    pub proper : IsProper fs
    pub decompose : Within F fs → Decomposed F es → Decomposed F fs

  Decomposed-finds :
      {es fs : Edges} {t1 t2 rep1 rep2 : TipType}
      → IsForest es
      → Finds es t1 t2 rep1 rep2 fs
      → Decomposed F es
      → Decomposed F fs
  Decomposed-finds v f d x y h = d x y (SameClass-shrinks x y v f.grows h)

  after_decomposing :
      {es fs : Edges} {t1 t2 rep1 rep2 : TipType}
      → (v : IsValid es) → (f : Finds es t1 t2 rep1 rep2 fs) → is_var rep1 ≡ false
      → is_var rep2 ≡ false
      → do_match rep1 rep2 ≡ true
      → IsProper es
      → (u : Unions fs rep1 rep2) → (o : Outcome Edges)
      → Ensures
          (λ hs. Keeps (united u) hs × AllPairs (SameClass hs) (arguments rep1) (arguments rep2))
          Unit
          o
      → Ensures (λ hs. Solves (united u) hs) Unit o
      → Ensures (λ hs. Solves es hs) Unit o
  after_decomposing {es} {fs} {t1} {t2} {rep1} {rep2} v f l r d p u (done hs) (k, joined) s =
      record {
        proper = s.proper;
        decompose = λ w start. s.decompose w (
            Decomposed-match (IsValid-Grows f.grows v).forest u (IsProper-finds v.forest f p)
              (self1 f) (self2 f) F eqv l r
              (inr (d, AllPairs-map (SameClass hs) F w (arguments rep1) (arguments rep2) joined))
              (Decomposed-finds v.forest f start));
      }
  after_decomposing v f l r d p u (unification_error s t) k h = tt
  after_decomposing v f l r d p u out_of_range k h = h
  after_decomposing v f l r d p u out_of_fuel k h = h

  after_first :
      {es fs : Edges}
      → Solves es fs
      → (o : Outcome Edges) → Ensures (λ gs. Includes fs gs) Unit o
      → Ensures (λ gs. Solves fs gs) Unit o
      → Ensures (λ gs. Solves es gs) Unit o
  after_first s (done gs) i t = record {
    proper = t.proper;
    decompose = λ w d. t.decompose w (s.decompose (λ x y h. w x y (i x y h)) d);
  }
  after_first s (unification_error x y) i t = t
  after_first s out_of_range i t = t
  after_first s out_of_fuel i t = t

  includes_of :
      (es : Edges) (P : Edges → Type 0) (o : Outcome Edges)
      → Ensures (λ fs. Keeps es fs × P fs) Unit o
      → Ensures (λ fs. Includes es fs) Unit o
  includes_of es P (done fs) (k, h) = k.includes
  includes_of es P (unification_error x y) h = h
  includes_of es P out_of_range h = h
  includes_of es P out_of_fuel h = h

  Solves-bind :
      {es fs : Edges} {a b t1 t2 : TipType} (v : IsValid es) (f : Finds es t1 t2 a b fs)
      → (u : Unions fs a b) → is_var a ≡ true
      → IsProper es
      → Solves es (united u)
  Solves-bind v f u va p =
      let v' = (IsValid-Grows f.grows v).forest in
      let p' = IsProper-finds v.forest f p in
      record {
        proper = IsProper-union v' u p' (self1 f) (self2 f) (inl va);
        decompose =
            λ w d. Decomposed-bind v' u p' (self1 f) (self2 f) F va (Decomposed-finds v.forest f d);
      }

  mutual
    pub Runs-Solves :
        {t1 t2 : TipType} {es : Edges} {o : Outcome Edges}
        → Runs t1 t2 es o
        → IsValid es
        → IsProper es
        → Ensures (λ fs. Solves es fs) Unit o
    Runs-Solves (settled f e) v p = record {
      proper = IsProper-finds v.forest f p;
      decompose = λ w d. Decomposed-finds v.forest f d;
    }
    Runs-Solves (bound_left f n l u) v p = Solves-bind v f u l p
    Runs-Solves (bound_right f n l r u) v p =
        Solves-bind v (record { grows = f.grows; found1 = f.found2; found2 = f.found1 }) u r p
    Runs-Solves (decomposed {o = o} f n l r d u rest) v p =
        let v' = IsValid-Grows f.grows v in
        let p' = IsProper-finds v.forest f p in
        after_decomposing v f l r d p u o (RunsAll-Keeps rest (IsValid-union v' u)) (
          RunsAll-Solves rest (IsValid-union v' u)
            (IsProper-union v'.forest u p' (self1 f) (self2 f) (inr r)))
    Runs-Solves (clash f n l r d) v p = tt

    pub RunsAll-Solves :
        {xs ys : TipTypes} {es : Edges} {o : Outcome Edges}
        → RunsAll xs ys es o
        → IsValid es
        → IsProper es
        → Ensures (λ fs. Solves es fs) Unit o
    RunsAll-Solves finished v p = record { proper = p; decompose = λ w d. d }
    RunsAll-Solves (next {xs = xs} {ys = ys} {fs = ms} {o = o} q rest) v p =
        let v' = (Runs-Keeps q v).0.valid in
        let s = Runs-Solves q v p in
        after_first s o
          (includes_of ms (λ fs. AllPairs (SameClass fs) xs ys) o (RunsAll-Keeps rest v'))
          (RunsAll-Solves rest v' s.proper)
    RunsAll-Solves (stopped q) v p = tt
