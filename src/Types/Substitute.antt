-- ===== src/Types/Substitute.antt =====
-- src/semantic/types/solver: Substituter, and Copier and FreshAlphaCopier, which inherit from it.
-- A visitor keeps a stack, `visited`, on which `endVisit` replaces the results for the children
-- of a term by the result for the term. `none` is undefined behaviour of the source (the back of
-- an empty vector), or a `TipMu` that is made with a null variable.
use sipc.Prelude.{ℕ, zero, suc, Option, none, some, String, List, [], ◌∷◌, if◌then◌else◌}
use sipc.Types.{
  TipVar, plain, alpha, TipType, TipTypes, var, int, bool, absent_field, ref, array, function, rec,
  mu, nil, cons, equal_var,
}

infixl 5 ◌>>=◌
abbrev pub ◌>>=◌ {ℓ κ} : {A : Type ℓ} {B : Type κ} → Option A → (A → Option B) → Option B
none >>= f = none
some a >>= f = f a

abbrev pub Visited : Type 0
Visited = List TipType

unfoldable pub count : TipTypes → ℕ
count nil = 0
count (cons t ts) = suc (count ts)

-- The loop over the arguments, which pops a result for each: they come off in the reverse order
-- and are reversed at the end.
unfoldable pub pop : ℕ → TipTypes → Visited → Option (TipTypes × Visited)
pop zero ts visited = some (ts, visited)
pop (suc k) ts [] = none
pop (suc k) ts (t ∷ visited) = pop k (cons t ts) visited

unfoldable pub end_ref : Visited → Option Visited
end_ref [] = none
end_ref (t ∷ visited) = some (ref t ∷ visited)

unfoldable pub end_array : Visited → Option Visited
end_array [] = none
end_array (t ∷ visited) = some (array t ∷ visited)

-- A function has a return type, the last of its arguments.
unfoldable pub make_function : TipTypes → Option TipType
make_function nil = none
make_function (cons t ts) = some (function (cons t ts))

unfoldable pub end_function : TipTypes → Visited → Option Visited
unfolding count pop make_function
end_function ts visited =
    pop (count ts) nil visited >>= λ p. make_function (p.0) >>= λ t. some (t ∷ (p.1))

unfoldable pub end_rec : TipTypes → List String → Visited → Option Visited
unfolding count pop
end_rec ts names visited = pop (count ts) nil visited >>= λ p. some (rec (p.0) names ∷ (p.1))

unfoldable pub make_mu : TipType → TipType → Option TipType
make_mu (var v) t = some (mu v t)
make_mu _ t = none

unfoldable pub end_mu : Visited → Option Visited
unfolding make_mu
end_mu (t ∷ v ∷ visited) = make_mu v t >>= λ r. some (r ∷ visited)
end_mu _ = none

-- The traversal, for the `endVisit` of variables that is passed in.
unfoldable mutual
  unfolding end_ref end_array end_function end_rec end_mu

  pub walk : (TipVar → Option TipType) → TipType → Visited → Option Visited
  walk leaf (var v) visited = leaf v >>= λ t. some (t ∷ visited)
  walk leaf int visited = some (int ∷ visited)
  walk leaf bool visited = some (bool ∷ visited)
  walk leaf absent_field visited = some (absent_field ∷ visited)
  walk leaf (ref t) visited = walk leaf t visited >>= end_ref
  walk leaf (array t) visited = walk leaf t visited >>= end_array
  walk leaf (function ts) visited = walk_all leaf ts visited >>= end_function ts
  walk leaf (rec ts names) visited = walk_all leaf ts visited >>= end_rec ts names
  walk leaf (mu v t) visited = leaf v >>= λ r. walk leaf t (r ∷ visited) >>= end_mu

  pub walk_all : (TipVar → Option TipType) → TipTypes → Visited → Option Visited
  walk_all leaf nil visited = some visited
  walk_all leaf (cons t ts) visited = walk leaf t visited >>= walk_all leaf ts

unfoldable pub get_result : Visited → Option TipType
get_result [] = none
get_result (t ∷ visited) = some t

-- Copier: the copy of a `TipAlpha` has no context.
unfoldable pub copy_var : TipVar → Option TipType
copy_var (plain n) = some (var (plain n))
copy_var (alpha n c s) = some (var (alpha n none s))

unfoldable pub copy : TipType → Option TipType
unfolding walk get_result copy_var
copy t = walk copy_var t [] >>= get_result

-- FreshAlphaCopier: a `TipAlpha` gets the context.
unfoldable pub fresh_var : ℕ → TipVar → Option TipType
fresh_var context (plain n) = some (var (plain n))
fresh_var context (alpha n c s) = some (var (alpha n (some context) s))

unfoldable pub fresh_copy : TipType → ℕ → Option TipType
unfolding walk get_result fresh_var
fresh_copy t context = walk (fresh_var context) t [] >>= get_result

-- Substituter.
unfoldable pub substitute_var : TipVar → TipType → TipVar → Option TipType
unfolding copy copy_var
substitute_var target s v = if equal_var v target then copy s else copy_var v

unfoldable pub substitute : TipType → TipVar → TipType → Option TipType
unfolding walk get_result substitute_var
substitute t v s = walk (substitute_var v s) t [] >>= get_result
