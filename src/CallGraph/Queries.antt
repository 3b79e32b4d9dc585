-- ===== src/CallGraph/Queries.antt =====
-- The queries of src/semantic/cfa/CallGraph.cpp against one another.
use sipc.Prelude.{
  ◌≡◌, refl, ℕ, ◌+◌, Bool, true, false, not, ◌&&◌, ◌||◌, ap, ◌∙◌, none, some, List, [], ◌∷◌, ◌++◌,
  ◌==◌, ==_iff, if◌then◌else◌, length, arith,
}
use sipc.CallGraph.{
  CallGraph, member, entry, count_edges, get_total_edges, edges_of, all_edges, get_edges,
  get_callees, callers_among, get_callers,
}

-- No function has two entries, as in a map.
abbrev has_key : ℕ → List (ℕ × List ℕ) → Bool
has_key x [] = false
has_key x ((y, ys) ∷ g) = if x == y then true else has_key x g

abbrev pub distinct_keys : List (ℕ × List ℕ) → Bool
distinct_keys [] = true
distinct_keys ((x, ys) ∷ g) = not (has_key x g) && distinct_keys g

abbrev callees_in : ℕ → List (ℕ × List ℕ) → List ℕ
callees_in f g = elim (entry f g) [ none ↦ [] | some fs ↦ fs ]

no_caller :
    (f c : ℕ) (g : List (ℕ × List ℕ)) → has_key f g ≡ false → member f (callers_among c g) ≡ false
unfolding callers_among member
no_caller f c [] h = refl
no_caller f c ((x, ys) ∷ g) h = ground (arith, no_caller f c g)

callers_lem :
    (f c : ℕ) (g : List (ℕ × List ℕ))
    → distinct_keys g ≡ true
    → member f (callers_among c g) ≡ member c (callees_in f g)
unfolding callers_among member entry
callers_lem f c [] h = refl
callers_lem f c ((x, ys) ∷ g) h = ground (arith, callers_lem f c g, no_caller f c g, ==_iff f x)

length-append : (xs ys : List (ℕ × ℕ)) → length (xs ++ ys) ≡ length xs + length ys
length-append [] ys = omega arith
length-append (x ∷ xs) ys = ground (arith, length-append xs ys)

length-edges_of : (f : ℕ) (ds : List ℕ) → length (edges_of f ds) ≡ length ds
unfolding edges_of
length-edges_of f [] = refl
length-edges_of f (d ∷ ds) = ground (arith, length-edges_of f ds)

length-all_edges : (g : List (ℕ × List ℕ)) → length (all_edges g) ≡ count_edges g
unfolding all_edges count_edges
length-all_edges [] = refl
length-all_edges ((f, ds) ∷ g) =
    ground
      (arith, length-append (edges_of f ds) (all_edges g), length-edges_of f ds, length-all_edges g)

-- Where no function has two entries, a function is among the callers of another exactly where the
-- other is among its callees.
pub get_callers-get_callees :
    (cg : CallGraph) (f c : ℕ)
    → distinct_keys cg.call_graph ≡ true
    → member f (get_callers cg c) ≡ member c (get_callees cg f)
unfolding get_callers get_callees
get_callers-get_callees cg f c h = callers_lem f c cg.call_graph h

-- Whether an edge is in a list of edges.
abbrev pub is_edge : ℕ → ℕ → List (ℕ × ℕ) → Bool
is_edge f c [] = false
is_edge f c ((x, y) ∷ es) = if (f == x) && (c == y) then true else is_edge f c es

is_edge-append :
    (f c : ℕ) (xs ys : List (ℕ × ℕ)) → is_edge f c (xs ++ ys) ≡ is_edge f c xs || is_edge f c ys
is_edge-append f c [] ys = refl
is_edge-append f c ((x, y) ∷ xs) ys = ground (arith, is_edge-append f c xs ys)

is_edge-edges_of : (f c x : ℕ) (ds : List ℕ) → is_edge f c (edges_of x ds) ≡ (f == x) && member c ds
unfolding edges_of member
is_edge-edges_of f c x [] = ground arith
is_edge-edges_of f c x (d ∷ ds) = ground (arith, is_edge-edges_of f c x ds, ==_iff c d, ==_iff f x)

no_edge :
    (f c : ℕ) (g : List (ℕ × List ℕ)) → has_key f g ≡ false → is_edge f c (all_edges g) ≡ false
unfolding all_edges
no_edge f c [] h = refl
no_edge f c ((x, ds) ∷ g) h = ground (
  arith,
  h,
  is_edge-append f c (edges_of x ds) (all_edges g),
  is_edge-edges_of f c x ds,
  no_edge f c g,
)

edges_lem :
    (f c : ℕ) (g : List (ℕ × List ℕ))
    → distinct_keys g ≡ true
    → is_edge f c (all_edges g) ≡ member c (callees_in f g)
unfolding all_edges entry member
edges_lem f c [] h = refl
edges_lem f c ((x, ds) ∷ g) h = ground (
  arith,
  h,
  is_edge-append f c (edges_of x ds) (all_edges g),
  is_edge-edges_of f c x ds,
  no_edge f c g,
  edges_lem f c g,
  ==_iff f x,
)

-- Where no function has two entries, getEdges returns the edges that earlier calls left and, from
-- each function, one to each of its callees, and no others. It returns as many as the graph has more
-- than before, so that a second call returns the edges of the graph twice.
pub get_edges_correct :
    (cg : CallGraph)
    → distinct_keys cg.call_graph ≡ true
    → ((f c : ℕ)
        → is_edge f c ((get_edges cg).0) ≡ is_edge f c cg.edges || member c (get_callees cg f))
      × (length ((get_edges cg).0) ≡ length cg.edges + get_total_edges cg)
      × (length ((get_edges ((get_edges cg).1)).0)
          ≡ length cg.edges + get_total_edges cg + get_total_edges cg)
unfolding get_edges get_total_edges get_callees
get_edges_correct cg h =
    let a = length-append cg.edges (all_edges cg.call_graph) in
    let b = length-append (cg.edges ++ all_edges cg.call_graph) (all_edges cg.call_graph) in
    let c = length-all_edges cg.call_graph in
    (
      (λ f d.
          is_edge-append f d cg.edges (all_edges cg.call_graph)
          ∙ ap (λ x. is_edge f d cg.edges || x) (edges_lem f d cg.call_graph h)),
      ground (arith, a, c),
      ground (arith, a, b, c),
    )
