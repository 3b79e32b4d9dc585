-- ===== src/CallGraph/Order.antt =====
-- The topological sort of src/semantic/types/TypeInference.cpp: it returns, and what it returns is
-- a reordering of the functions that it is given.
use sipc.Prelude.{
  ◌≡◌, refl, ℕ, zero, suc, ◌+◌, ◌≤◌, ◌<◌, true, Option, none, some, List, [], ◌∷◌, ◌++◌, ◌==◌,
  ==_iff, if◌then◌else◌, length, arith, Bool-cases, Option-cases, inl, inr,
}
use sipc.CallGraph.{
  CallGraph, member, Sort, erase, visit_callees, topo_visit, back, topo_loop, topo_sort,
  get_callees,
}

-- How often a function stands in a list.
abbrev pub count : ℕ → List ℕ → ℕ
count x [] = 0
count x (y ∷ ys) = if x == y then suc (count x ys) else count x ys

count-snoc : (x y : ℕ) (ys : List ℕ) → count x (ys ++ y ∷ []) ≡ count x ys + count x (y ∷ [])
count-snoc x y [] = ground arith
count-snoc x y (z ∷ zs) = ground (arith, count-snoc x y zs)

count-erase :
    (x y : ℕ) (ys : List ℕ)
    → member y ys ≡ true
    → count x ys ≡ count x (erase y ys) + count x (y ∷ [])
unfolding member erase
count-erase x y [] e = ground arith
count-erase x y (z ∷ zs) e = ground (arith, count-erase x y zs, ==_iff x y, ==_iff y z, ==_iff x z)

length-erase : (y : ℕ) (ys : List ℕ) → member y ys ≡ true → length ys ≡ suc (length (erase y ys))
unfolding member erase
length-erase y [] e = ground arith
length-erase y (z ∷ zs) e = ground (arith, length-erase y zs)

-- What a step of the sort keeps: each function stands as often in the two lists together, and
-- no function is unmarked that was not.
record Moves (s s' : Sort) : Type 0 where
  total : (x : ℕ) → count x s'.unmarked + count x s'.sorted ≡ count x s.unmarked + count x s.sorted
  fewer : length s'.unmarked ≤ length s.unmarked

Returns : Sort → Option Sort → Type 0
Returns s o = (s' : Sort) × (o ≡ some s') × Moves s s'

visit_callees_lem :
    (call : ℕ → Sort → Option Sort) (bound : ℕ)
    → ((c : ℕ) (s : Sort) → length s.unmarked < bound → Returns s (call c s))
    → (cs : List ℕ) (s : Sort) → length s.unmarked < bound
    → Returns s (visit_callees call cs s)
unfolding visit_callees Returns
visit_callees_lem call bound h [] s lt =
    (s, refl, record { total = λ x. refl; fewer = omega arith })
visit_callees_lem call bound h (c ∷ cs) s lt =
    let a = h c s lt in
    let b = visit_callees_lem call bound h cs (a.0) (ground (arith, a.2.fewer)) in
    (
      b.0,
      ground (arith, a.1, b.1),
      record {
        total = λ x. ground (arith, a.2.total x, b.2.total x);
        fewer = ground (arith, a.2.fewer, b.2.fewer);
      },
    )

-- A visit of an unmarked function marks it.
Visits : ℕ → Sort → Option Sort → Type 0
Visits f s o =
    (s' : Sort) × (o ≡ some s')
    × Moves s s'
    × (member f s.unmarked ≡ true → length s'.unmarked < length s.unmarked)

topo_visit_lem :
    (fuel : ℕ) (cg : CallGraph) (f : ℕ) (s : Sort)
    → length s.unmarked < fuel
    → Visits f s (topo_visit fuel cg f s)
unfolding topo_visit Returns Visits
topo_visit_lem zero cg f s lt = ground arith
topo_visit_lem (suc fuel) cg f s lt = elim (Bool-cases (member f s.unmarked)) [
  | inl m ↦
      let t : Sort = record s { unmarked = erase f s.unmarked } in
      let len = length-erase f s.unmarked m in
      let a =
        visit_callees_lem (topo_visit fuel cg) fuel
          (λ c u k. let v = topo_visit_lem fuel cg c u k in (v.0, v.1, v.2)) (get_callees cg f) t
          (ground (arith, len)) in
      (
        record (a.0) { sorted = (a.0).sorted ++ f ∷ [] },
        ground (arith, a.1, m),
        record {
          total = λ x.
              ground
                (arith, a.2.total x, count-snoc x f (a.0).sorted, count-erase x f s.unmarked m);
          fewer = ground (arith, a.2.fewer, len);
        },
        λ _. ground (arith, a.2.fewer, len),
      )
  | inr m ↦ (s, ground arith, record { total = λ x. refl; fewer = omega arith }, λ k. ground arith)
]

back_lem : (xs : List ℕ) (f : ℕ) → back xs ≡ some f → member f xs ≡ true
unfolding back member
back_lem [] f e = ground arith
back_lem (x ∷ []) f e = ground (arith, ==_iff f x)
back_lem (x ∷ y ∷ ys) f e = ground (arith, back_lem (y ∷ ys) f e)

back_nil : (xs : List ℕ) → back xs ≡ none → xs ≡ []
unfolding back
back_nil [] e = refl
back_nil (x ∷ []) e = ground arith
back_nil (x ∷ y ∷ ys) e = ground (arith, back_nil (y ∷ ys) e)

topo_loop_lem :
    (rounds fuel : ℕ) (cg : CallGraph) (s : Sort)
    → length s.unmarked < rounds
    → length s.unmarked < fuel
    → (out : List ℕ) × (topo_loop rounds fuel cg s ≡ some out)
      × ((x : ℕ) → count x out ≡ count x s.unmarked + count x s.sorted)
unfolding topo_loop Visits
topo_loop_lem zero fuel cg s lt k = ground arith
topo_loop_lem (suc rounds) fuel cg s lt k = elim (Option-cases (back s.unmarked)) [
  | inl e ↦ (s.sorted, ground arith, λ x. ground (arith, back_nil s.unmarked e))
  | inr e ↦
      let m = back_lem s.unmarked (e.0) (e.1) in
      let v = topo_visit_lem fuel cg (e.0) s k in
      let r =
        topo_loop_lem rounds fuel cg (v.0) (ground (arith, v.3 m)) (ground (arith, v.2.fewer)) in
      (r.0, ground (arith, e.1, v.1, r.1), λ x. ground (arith, r.2 x, v.2.total x))
]

-- With more fuel than functions the sort returns, for any call graph, with cycles or without:
-- each function stands in the result as often as in the list that was given.
pub topo_sort-perm :
    (fuel : ℕ) (cg : CallGraph) (funcs : List ℕ)
    → length funcs < fuel
    → (out : List ℕ) × (topo_sort fuel cg funcs ≡ some out)
      × ((x : ℕ) → count x out ≡ count x funcs)
unfolding topo_sort
topo_sort-perm fuel cg funcs lt =
    let r = topo_loop_lem fuel fuel cg (record { unmarked = funcs; sorted = [] }) lt lt in
    (r.0, r.1, λ x. ground (arith, r.2 x))
