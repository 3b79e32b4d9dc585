-- ===== src/CallGraph/Callees.antt =====
-- The order that the topological sort of src/semantic/types/TypeInference.cpp is for: where the
-- call graph has no cycle, callees come before their callers.
use sipc.Prelude.{
  ◌≡◌, ℕ, zero, suc, ◌<◌, Bool, true, ◌||◌, Option, some, List, [], ◌∷◌, ◌++◌, ◌==◌, ==_iff, arith,
  length, subst, Bool-cases, Option-cases, inl, inr,
}
use sipc.CallGraph.{
  CallGraph, member, Sort, erase, visit_callees, topo_visit, back, topo_loop, topo_sort,
  get_callees,
}
use sipc.CallGraph.Order.{topo_sort-perm}

member-snoc : (x y : ℕ) (ys : List ℕ) → member x (ys ++ y ∷ []) ≡ member x ys || (x == y)
unfolding member
member-snoc x y [] = ground arith
member-snoc x y (z ∷ zs) = ground (arith, member-snoc x y zs)

member-erase :
    (x y : ℕ) (ys : List ℕ) → member x ys ≡ true → (x == y) || member x (erase y ys) ≡ true
unfolding member erase
member-erase x y [] h = ground arith
member-erase x y (z ∷ zs) h =
    ground (arith, member-erase x y zs, ==_iff x y, ==_iff x z, ==_iff y z)

-- Each function of a list stands after those of its callees that are to be sorted.
pub data CalleesFirst (cg : CallGraph) (funcs : List ℕ) : List ℕ → Type 0 where
  nothing : CalleesFirst cg funcs []
  after :
      {xs : List ℕ} (f : ℕ)
      → CalleesFirst cg funcs xs
      → ((c : ℕ) → member c (get_callees cg f) ≡ true → member c funcs ≡ true → member c xs ≡ true)
      → CalleesFirst cg funcs (xs ++ f ∷ [])

abbrev present : ℕ → Sort → Bool
present x s = member x s.unmarked || member x s.sorted

record Sorts (cg : CallGraph) (funcs : List ℕ) (s s' : Sort) : Type 0 where
  ordered : CalleesFirst cg funcs s.sorted → CalleesFirst cg funcs s'.sorted
  keeps : (x : ℕ) → present x s ≡ true → present x s' ≡ true
  grows : (x : ℕ) → member x s.sorted ≡ true → member x s'.sorted ≡ true

module _ (cg : CallGraph) (funcs : List ℕ) (rank : ℕ → ℕ)
    (down : (f c : ℕ) → member c (get_callees cg f) ≡ true → rank c < rank f) where
  -- The functions below a rank are unmarked or sorted: none is being visited.
  Below : ℕ → Sort → Type 0
  Below r s = (x : ℕ) → member x funcs ≡ true → rank x < r → present x s ≡ true

  Visits : ℕ → Sort → Sort → Type 0
  Visits f s s' = Sorts cg funcs s s' × (member f funcs ≡ true → member f s'.sorted ≡ true)

  visit_callees_lem :
      (call : ℕ → Sort → Option Sort) (r : ℕ)
      → ((c : ℕ) (s s' : Sort) → Below (suc (rank c)) s → call c s ≡ some s' → Visits c s s')
      → (cs : List ℕ) (s s' : Sort) → ((c : ℕ) → member c cs ≡ true → rank c < r)
      → Below r s
      → visit_callees call cs s ≡ some s'
      → Sorts cg funcs s s'
        × ((c : ℕ) → member c cs ≡ true → member c funcs ≡ true → member c s'.sorted ≡ true)
  unfolding visit_callees member Below Visits
  visit_callees_lem call r h [] s s' low b e =
      let same : s ≡ s' = ground (arith, e) in
      (
        subst (λ t. Sorts cg funcs s t) same
            (record { ordered = λ o. o; keeps = λ x p. p; grows = λ x p. p }),
        λ c i m. ground (arith, i),
      )
  visit_callees_lem call r h (c ∷ cs) s s' low b e = elim (Option-cases (call c s)) [
    | inl n ↦ ground (arith, n, e)
    | inr q ↦
        let t = q.0 in
        let a =
          h c s t (λ x m l. b x m (ground (arith, l, low c (ground (arith, ==_iff c c))))) (q.1) in
        let k =
          visit_callees_lem call r h cs t s' (λ d i. low d (ground (arith, i)))
            (λ x m l. a.0.keeps x (b x m l)) (ground (arith, q.1, e)) in
        (
          record {
            ordered = λ o. k.0.ordered (a.0.ordered o);
            keeps = λ x p. k.0.keeps x (a.0.keeps x p);
            grows = λ x p. k.0.grows x (a.0.grows x p);
          },
          λ d i m. elim (Bool-cases (d == c)) [
            | inl y ↦ k.0.grows d (ground (arith, a.1, m, ==_iff d c, y))
            | inr n ↦ k.1 d (ground (arith, i, n)) m
          ],
        )
  ]

  topo_visit_lem :
      (fuel f : ℕ) (s s' : Sort)
      → Below (suc (rank f)) s
      → topo_visit fuel cg f s ≡ some s'
      → Visits f s s'
  unfolding topo_visit Below Visits
  topo_visit_lem zero f s s' b e = ground (arith, e)
  topo_visit_lem (suc fuel) f s s' b e = elim (Bool-cases (member f s.unmarked)) [
    | inr n ↦
        let same : s ≡ s' = ground (arith, e, n) in
        (
          subst (λ t. Sorts cg funcs s t) same
              (record { ordered = λ o. o; keeps = λ x p. p; grows = λ x p. p }),
          λ m. ground (arith, same, n, b f m (omega arith)),
        )
    | inl y ↦
        let t : Sort = record s { unmarked = erase f s.unmarked } in
        elim (Option-cases (visit_callees (topo_visit fuel cg) (get_callees cg f) t)) [
          | inl n ↦ ground (arith, n, e, y)
          | inr q ↦
              let u = q.0 in
              let k =
                visit_callees_lem (topo_visit fuel cg) (rank f)
                  (λ c v v' lo run. topo_visit_lem fuel c v v' lo run) (get_callees cg f) t u
                  (down f)
                  (λ x m l.
                    ground
                      (arith, b x m (omega (arith, l)), member-erase x f s.unmarked, ==_iff x f, l))
                  (q.1) in
              let end : record u { sorted = u.sorted ++ f ∷ [] } ≡ s' = ground (arith, e, y, q.1) in
              subst (λ v. Sorts cg funcs s v × (member f funcs ≡ true → member f v.sorted ≡ true))
                end
                (
                  record {
                    ordered = λ o. after f (k.0.ordered o) (k.1);
                    keeps = λ x p. ground (
                      arith,
                      k.0.keeps x,
                      p,
                      member-erase x f s.unmarked,
                      member-snoc x f u.sorted,
                    );
                    grows = λ x p. ground (arith, k.0.grows x p, member-snoc x f u.sorted);
                  },
                  λ m. ground (arith, member-snoc f f u.sorted, ==_iff f f),
                )
        ]
  ]

  topo_loop_lem :
      (rounds fuel : ℕ) (s : Sort) (out : List ℕ)
      → ((x : ℕ) → member x funcs ≡ true → present x s ≡ true)
      → CalleesFirst cg funcs s.sorted
      → topo_loop rounds fuel cg s ≡ some out
      → CalleesFirst cg funcs out
  unfolding topo_loop Below Visits
  topo_loop_lem zero fuel s out p o e = ground (arith, e)
  topo_loop_lem (suc rounds) fuel s out p o e = elim (Option-cases (back s.unmarked)) [
    | inl n ↦ subst (CalleesFirst cg funcs) (ground (arith, e, n)) o
    | inr f ↦ elim (Option-cases (topo_visit fuel cg (f.0) s)) [
      | inl n ↦ ground (arith, n, e, f.1)
      | inr q ↦
          let k = topo_visit_lem fuel (f.0) s (q.0) (λ x m l. p x m) (q.1) in
          topo_loop_lem rounds fuel (q.0) out (λ x m. k.0.keeps x (p x m)) (k.0.ordered o)
            (ground (arith, e, f.1, q.1))
    ]
  ]

-- Where a rank falls along every call, so that the call graph has no cycle, and with more fuel than
-- functions, the sort returns, and in its result each function stands after those of its callees
-- that were to be sorted.
pub topo_sort-CalleesFirst :
    (cg : CallGraph) (funcs : List ℕ) (rank : ℕ → ℕ) (fuel : ℕ)
    → ((f c : ℕ) → member c (get_callees cg f) ≡ true → rank c < rank f)
    → length funcs < fuel
    → (out : List ℕ) × (topo_sort fuel cg funcs ≡ some out) × CalleesFirst cg funcs out
unfolding topo_sort
topo_sort-CalleesFirst cg funcs rank fuel down lt =
    let r = topo_sort-perm fuel cg funcs lt in
    (
      r.0,
      r.1,
      topo_loop_lem cg funcs rank down fuel fuel (record { unmarked = funcs; sorted = [] }) (r.0)
          (λ x m. ground (arith, m)) nothing (r.1),
    )
