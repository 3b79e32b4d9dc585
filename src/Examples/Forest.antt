-- ===== src/Examples/Forest.antt =====
-- A union-find structure over three terms, and reordered edges.
use mathlib.Core.List.{Permᴰ}
use sipc.Prelude.{◌≡◌, refl, ◌⊎◌, ◌↔◌, true, false, some, [], ◌∷◌}
use sipc.Types.{TipType, var, plain, int, rec, nil, cons, equal_type}
use sipc.Types.Equality.{anonymous, equal_type_iff}
use sipc.UnionFind.{
  Edges, add, find, quick_union, connected, smart_insert, climb, lookup, get_parent, redirect,
  invariant,
}
use sipc.UnionFind.Distinct.{lookup-perm}
use sipc.UnionFind.Laws.{
  Reachable, empty, next, added, united, IsValid, Reachable-IsValid, Joined, connected-quick_union,
  find_correct,
}

abbrev x : TipType
x = var (plain 1)

abbrev y : TipType
y = var (plain 2)

abbrev joined_edges : Edges
joined_edges = (y, y) ∷ (x, y) ∷ (int, int) ∷ []

two_calls : Reachable joined_edges
unfolding add find quick_union climb smart_insert lookup equal_type get_parent redirect
two_calls = next (next empty (added (int ∷ x ∷ []) refl)) (united x y refl)

Reachable-IsValid_example : IsValid joined_edges
Reachable-IsValid_example = Reachable-IsValid two_calls

find_correct_example :
    (r : TipType) × (fs : Edges) × (find x joined_edges ≡ some (r, fs))
    × Joined fs x r
    × ((s : TipType) (gs : Edges) → find x fs ≡ some (s, gs) → equal_type r s ≡ true)
find_correct_example = find_correct two_calls x

connected-quick_union_example :
    (fs : Edges) × (quick_union y int joined_edges ≡ some (tt, fs))
    × ((a b : TipType)
        → Joined fs a b ↔ (
            Joined joined_edges a b
            ⊎ Joined joined_edges a y × Joined joined_edges int b
            ⊎ Joined joined_edges a int × Joined joined_edges y b))
connected-quick_union_example = connected-quick_union two_calls y int

chain :
    (connected x int joined_edges ≡ some (false, joined_edges))
    × (connected x y joined_edges ≡ some (true, joined_edges))
unfolding connected find climb smart_insert lookup equal_type get_parent
chain = (refl, refl)

distinct : invariant joined_edges ≡ true
unfolding invariant equal_type
distinct = refl

lookup-perm_example : lookup x joined_edges ≡ lookup x ((x, y) ∷ (y, y) ∷ (int, int) ∷ [])
lookup-perm_example = lookup-perm x (Permᴰ.swap refl refl) distinct

equal_type_iff_example :
    (equal_type (rec (cons int nil) ("f" ∷ [])) (rec (cons int nil) ("g" ∷ [])) ≡ true)
    ↔ (anonymous (rec (cons int nil) ("f" ∷ [])) ≡ anonymous (rec (cons int nil) ("g" ∷ [])))
equal_type_iff_example =
    equal_type_iff (rec (cons int nil) ("f" ∷ [])) (rec (cons int nil) ("g" ∷ []))
