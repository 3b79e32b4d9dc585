-- ===== src/Constraints/Pipeline.antt =====
-- The part of `runMono` of src/semantic/types/TypeInference.cpp before its check for absent fields:
-- the collected constraints are handed to the unifier.
use sipc.Prelude.{ℕ, Option, none, some}
use sipc.Ast.{Program}
use sipc.Symbols.{SymbolTable}
use sipc.Constraints.Traversal.{collect}
use sipc.Unifier.{Unifier, Outcome, ◌>>=◌, create, solve}

-- `none` is the undefined behaviour of the collection.
unfoldable pub collect_and_solve : ℕ → SymbolTable → Program → Option (Outcome Unifier)
unfolding collect create solve
collect_and_solve fuel st p = elim (collect st p) [
  | none ↦ none
  | some cs ↦ some (create cs >>= solve fuel)
]
