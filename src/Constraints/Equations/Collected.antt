-- ===== src/Constraints/Equations/Collected.antt =====
-- The visitor of src/semantic/types/constraints/TypeConstraintVisitor.cpp collects the demands of
-- Constraints/Equations.
use sipc.Prelude.{Option, some}
use sipc.Ast.{Event}
use sipc.Constraints.{◌>>=◌, Visitor}
use sipc.Constraints.Equations.{Demand, scope_after}

-- A step with its scope.
scoped : Event → Visitor → Visitor
scoped e v = record v { scope = scope_after v.scope e }

abbrev collected_by : Option Visitor → Demand
collected_by o = o >>= λ v. some v.collected
