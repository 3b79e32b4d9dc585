-- ===== src/Unifier/Terminates.antt =====
-- `unify` returns: the depth of its recursion is below the measure, so it never runs out of fuel
-- above it, and it reads no argument out of range.
use sipc.Prelude.{◌≡◌, ℕ, zero, suc, ◌≤◌, ◌<◌, true, false, List, Bool-cases, inl, inr, arith}
use sipc.Types.{TipType, TipTypes, nil, cons, equal_type}
use sipc.Types.Equality.{equal_type_refl, equal_type_left, equal_type_right, equal_type_sym}
use sipc.UnionFind.{Edges}
use sipc.UnionFind.Find.{
  IsForest, Grows-trans, Represents, Represents-shrinks, Represents-unique, find_lem,
}
use sipc.UnionFind.Union.{Unions, Represents-is_root, quick_union_lem}
use sipc.UnionFind.Laws.{IsValid, IsValid-Grows, IsValid-union}
use sipc.Unifier.{
  Outcome, done, unification_error, out_of_range, out_of_fuel, ◌>>=◌, is_var, is_proper_type,
  is_cons, arguments, size, do_match, unify_args, unify_reps, unify,
}
use sipc.Unifier.Terms.{do_match-cons, do_match_iff}
use sipc.Unifier.Keeps.{Ensures, Runs-Keeps}
use sipc.Unifier.Solves.{self1, self2}
use sipc.Unifier.Measure.{
  contains, AllIn, IsClosed, IsBounded, IsBounded-Grows, IsBounded-union, root_count,
  root_count-Grows, root_count-union,
}
use sipc.Unifier.Runs.{
  Runs, RunsAll, Finds, united, settled, bound_left, bound_right, decomposed, clash, finished, next,
  stopped,
}

turned :
    {es fs : Edges} {t1 t2 rep1 rep2 : TipType}
    → Finds es t1 t2 rep1 rep2 fs
    → Finds es t2 t1 rep2 rep1 fs
turned f = record { grows = f.grows; found1 = f.found2; found2 = f.found1 }

unequal : (a b : TipType) → equal_type a b ≡ false → equal_type b a ≡ false
unequal a b n = ground (arith, equal_type_sym b a)

pub record Spends (us : List TipType) (es fs : Edges) : Type 0 where
  pub bounded : IsBounded us fs
  pub le : root_count fs us ≤ root_count es us

module _ (us : List TipType) where
  Spends-finds :
      {es fs : Edges} {t1 t2 rep1 rep2 : TipType}
      → IsForest es
      → Finds es t1 t2 rep1 rep2 fs
      → IsBounded us es
      → Spends us es fs
  Spends-finds v f b = record {
    bounded = IsBounded-Grows us v f.grows b;
    le = omega (arith, root_count-Grows us f.grows);
  }

  Spends-union :
      {es : Edges} {a b : TipType} (v : IsForest es) (u : Unions es a b)
      → Represents es a a
      → Represents es b b
      → equal_type a b ≡ false
      → contains us a ≡ true
      → contains us b ≡ true
      → IsBounded us es
      → IsBounded us (united u) × (root_count (united u) us < root_count es us)
  Spends-union {es} {a} {b} v u self_a self_b n in_a in_b bounded =
      let e = Represents-unique es a a a u.root1 (equal_type_refl a) self_a u.represents1 in
      let k = Represents-unique es b b b u.root2 (equal_type_refl b) self_b u.represents2 in
      (
        IsBounded-union v u us in_b bounded,
        root_count-union v u
            (ground (
              arith,
              equal_type_left b u.root2 u.root1 k,
              equal_type_right a u.root1 b e,
              equal_type_sym b a,
            ))
            (Represents-is_root a u.root1 u.represents1) us (bounded a u.root1 in_a u.represents1),
      )

  module _ (closed : IsClosed us) where
    -- The union of the representatives of two terms of the universe.
    spend :
        {es fs : Edges} {t1 t2 rep1 rep2 : TipType} (v : IsValid es)
        (f : Finds es t1 t2 rep1 rep2 fs)
        → equal_type rep1 rep2 ≡ false
        → contains us t1 ≡ true
        → contains us t2 ≡ true
        → IsBounded us es
        → (u : Unions fs rep1 rep2)
        → IsBounded us (united u) × (root_count (united u) us < root_count es us)
    spend {t1 = t1} {t2} {rep1} {rep2} v f n in1 in2 bounded u =
        let s = Spends-finds v.forest f bounded in
        let (b, lt) =
          Spends-union (IsValid-Grows f.grows v).forest u (self1 f) (self2 f) n
            (bounded t1 rep1 in1 f.found1) (bounded t2 rep2 in2 f.found2) s.bounded in
        (b, omega (arith, s.le))

    spend_args :
        (es fs : Edges)
        → root_count fs us ≤ root_count es us
        → (o : Outcome Edges) → Ensures (Spends us fs) Unit o
        → Ensures (Spends us es) Unit o
    spend_args es fs le (done gs) s = record { bounded = s.bounded; le = omega (arith, s.le) }
    spend_args es fs le (unification_error x y) s = s
    spend_args es fs le out_of_range s = s
    spend_args es fs le out_of_fuel s = s

    mutual
      pub Runs-Spends :
          {t1 t2 : TipType} {es : Edges} {o : Outcome Edges}
          → Runs t1 t2 es o
          → IsValid es
          → IsBounded us es
          → contains us t1 ≡ true
          → contains us t2 ≡ true
          → Ensures (Spends us es) Unit o
      Runs-Spends (settled f e) v b in1 in2 = Spends-finds v.forest f b
      Runs-Spends (bound_left f n l u) v b in1 in2 =
          let (b', lt) = spend v f n in1 in2 b u in record { bounded = b'; le = omega arith }
      Runs-Spends (bound_right {rep1 = rep1} {rep2 = rep2} f n l r u) v b in1 in2 =
          let (b', lt) = spend v (turned f) (unequal rep1 rep2 n) in2 in1 b u in
          record { bounded = b'; le = omega arith }
      Runs-Spends (decomposed {t1} {t2} {rep1} {rep2} {es} {o = o} f n l r d u rest) v b in1 in2 =
          let (b', lt) = spend v f n in1 in2 b u in
          spend_args es (united u) (omega arith) o (
            RunsAll-Spends rest (IsValid-union (IsValid-Grows f.grows v) u) b'
              (closed rep1 (b t1 rep1 in1 f.found1)) (closed rep2 (b t2 rep2 in2 f.found2)))
      Runs-Spends (clash f n l r d) v b in1 in2 = tt

      pub RunsAll-Spends :
          {xs ys : TipTypes} {es : Edges} {o : Outcome Edges}
          → RunsAll xs ys es o
          → IsValid es
          → IsBounded us es
          → AllIn us xs
          → AllIn us ys
          → Ensures (Spends us es) Unit o
      RunsAll-Spends finished v b in1 in2 = record { bounded = b; le = omega arith }
      RunsAll-Spends (next {es = es} {fs = fs} {o = o} p rest) v b in1 in2 =
          let s = Runs-Spends p v b (in1.0) (in2.0) in
          spend_args es fs s.le o
            (RunsAll-Spends rest (Runs-Keeps p v).0.valid s.bounded (in1.1) (in2.1))
      RunsAll-Spends (stopped p) v b in1 in2 = tt

-- A loop over the arguments whose calls are runs is a run.
unify_args_next :
    {x y : TipType} {xs ys : TipTypes} {es : Edges} (o : Outcome Edges)
    → (rest : Edges → Outcome Edges) → IsValid es
    → Runs x y es o
    → ((fs : Edges) → Runs x y es (done fs) → RunsAll xs ys fs (rest fs))
    → RunsAll (cons x xs) (cons y ys) es (o >>= rest)
unify_args_next (done fs) rest v p k = next p (k fs p)
unify_args_next (unification_error s t) rest v p k = stopped p
unify_args_next out_of_range rest v p k = absurd (Runs-Keeps p v)
unify_args_next out_of_fuel rest v p k = absurd (Runs-Keeps p v)

-- `unify` after its two calls of `find`.
unify_reps-Runs :
    (call : TipType → TipType → Edges → Outcome Edges) {es fs : Edges} (t1 t2 rep1 rep2 : TipType)
    (f : Finds es t1 t2 rep1 rep2 fs)
    → IsForest fs
    → ((u : Unions fs rep1 rep2)
        → equal_type rep1 rep2 ≡ false
        → do_match rep1 rep2 ≡ true
        → RunsAll
            (arguments rep1)
            (arguments rep2)
            (united u)
            (unify_args call (arguments rep1) (arguments rep2) (united u)))
    → Runs t1 t2 es (unify_reps call t1 t2 rep1 rep2 fs)
unfolding unify_reps is_proper_type
unify_reps-Runs call {es} {fs} t1 t2 rep1 rep2 f v args = elim (Bool-cases (equal_type rep1 rep2)) [
  | inl e ↦ rw e (settled f e)
  | inr n ↦ elim (Bool-cases (is_var rep1)) [
    | inl l ↦
        let u = quick_union_lem v rep1 rep2 in
        elim (Bool-cases (is_var rep2)) [
          | inl r ↦ rw (n, l, r, u.runs) (bound_left f n l u)
          | inr r ↦ rw (n, l, r, u.runs) (bound_left f n l u)
        ]
    | inr l ↦ elim (Bool-cases (is_var rep2)) [
      | inl r ↦ let u = quick_union_lem v rep2 rep1 in rw (n, l, r, u.runs) (bound_right f n l r u)
      | inr r ↦ elim (Bool-cases (do_match rep1 rep2)) [
        | inl d ↦
            let u = quick_union_lem v rep1 rep2 in
            let (c1, c2) = do_match-cons rep1 rep2 d in
            rw (n, l, r, c1, c2, d, u.runs) (decomposed f n l r d u (args u n d))
        | inr d ↦ elim (Bool-cases (is_cons rep1)) [
          | inr c ↦ rw (n, l, r, c) (clash f n l r d)
          | inl c ↦ elim (Bool-cases (is_cons rep2)) [
            | inr c' ↦ rw (n, l, r, c, c') (clash f n l r d)
            | inl c' ↦ rw (n, l, r, c, c', d) (clash f n l r d)
          ]
        ]
      ]
    ]
  ]
]

module _ (us : List TipType) (closed : IsClosed us) where
  -- The calls of `call` on terms of the universe are runs, where at most `n` terms are roots.
  abbrev RunsBelow : (TipType → TipType → Edges → Outcome Edges) → ℕ → Type 0
  RunsBelow call n =
      (x y : TipType) (es : Edges)
      → IsValid es
      → IsBounded us es
      → contains us x ≡ true
      → contains us y ≡ true
      → root_count es us < n
      → Runs x y es (call x y es)

  unify_args-Runs :
      (call : TipType → TipType → Edges → Outcome Edges) (n : ℕ)
      → RunsBelow call n
      → (xs ys : TipTypes) (es : Edges) → IsValid es
      → IsBounded us es
      → AllIn us xs
      → AllIn us ys
      → size xs ≡ size ys
      → root_count es us < n
      → RunsAll xs ys es (unify_args call xs ys es)
  unfolding unify_args size
  unify_args-Runs call n all nil nil es v b in1 in2 e lt = finished
  unify_args-Runs call n all nil (cons y ys) es v b in1 in2 e lt = absurd (omega arith)
  unify_args-Runs call n all (cons x xs) nil es v b in1 in2 e lt = absurd (omega arith)
  unify_args-Runs call n all (cons x xs) (cons y ys) es v b in1 in2 e lt =
      unify_args_next (call x y es) (unify_args call xs ys) v (all x y es v b in1.0 in2.0 lt)
        (λ fs p.
          let s = Runs-Spends us closed p v b in1.0 in2.0 in
          unify_args-Runs call n all xs ys fs (Runs-Keeps p v).0.valid s.bounded in1.1 in2.1
            (omega arith) (omega (arith, s.le)))

  -- With as much fuel as there are roots in the universe, a call of `unify` on two of its terms
  -- is a run: it ends with edges or with the exception.
  pub unify-Runs :
      (fuel : ℕ) (t1 t2 : TipType) (es : Edges)
      → IsValid es
      → IsBounded us es
      → contains us t1 ≡ true
      → contains us t2 ≡ true
      → root_count es us < fuel
      → Runs t1 t2 es (unify fuel t1 t2 es)
  unfolding unify
  unify-Runs zero t1 t2 es v b in1 in2 lt = absurd (omega arith)
  unify-Runs (suc fuel) t1 t2 es v b in1 in2 lt =
      let find1 = find_lem v.forest t1 in
      let v1 = IsValid-Grows find1.grows v in
      let find2 = find_lem v1.forest t2 in
      let f : Finds es t1 t2 find1.root find2.root find2.after = record {
        grows = Grows-trans find1.grows find2.grows;
        found1 = find1.represents;
        found2 = Represents-shrinks t2 find2.root v.forest find1.grows find2.represents;
      } in
      let v2 = IsValid-Grows f.grows v in
      rw (find1.runs, find2.runs)
        (unify_reps-Runs (unify fuel) t1 t2 find1.root find2.root f v2.forest (λ u n d.
          let (b', lt') = spend us closed v f n in1 in2 b u in
          unify_args-Runs (unify fuel) fuel (unify-Runs fuel) (arguments find1.root)
            (arguments find2.root) (united u) (IsValid-union v2 u) b'
            (closed find1.root (b t1 find1.root in1 f.found1))
            (closed find2.root (b t2 find2.root in2 f.found2))
            ((do_match_iff find1.root find2.root).0 d).2 (omega arith)))
