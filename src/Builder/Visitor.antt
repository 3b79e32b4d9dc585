-- ===== src/Builder/Visitor.antt =====
-- The methods of `ASTBuilder`: each leaves what it made in a variable of the file that the next
-- visit overwrites. A null pointer where a tree needs a node is an error of its own, and the
-- address of a node stands for the object: it is taken to be the number of the nodes made before it,
-- and tells only whether two nodes of a tree are one object.
use sipc.Prelude.{ℤ, pos, negsuc, ℕ, zero, suc, String, Option, none, some, List, [], ◌∷◌}
use sipc.Ast.{Node, DeclNode, Expr, Stmt, DeclStmt, Function, binary}
use sipc.Builder.{
  Start, Token, mul_op, div_op, add_op, sub_op, mod_op, gt_op, lte_op, gte_op, lt_op, eq_op, ne_op,
  and_op, or_op, mm_op, pp_op, NameTree, DeclarationTree,
}

pub data Exception : Type 0 where
  out_of_range : String → Exception
  unknown_operator : Token → Exception
  null_node : Exception

pub record FieldExpr : Type 0 where
  pub node : Node
  pub name : String
  pub init : Expr

-- The variables of the file, and the number of nodes made.
pub record Visited : Type 0 where
  pub visited_stmt : Option Stmt
  pub visited_decl_node : Option DeclNode
  pub visited_decl_stmt : Option DeclStmt
  pub visited_expr : Option Expr
  pub visited_field_expr : Option FieldExpr
  pub visited_function : Option Function
  pub made : ℕ

pub data Outcome (A : Type 0) : Type 0 where
  ok : A → Visited → Outcome A
  throws : Exception → Outcome A

abbrev pub M : Type 0 → Type 0
M A = Visited → Outcome A

abbrev pub pure : {A : Type 0} → A → M A
pure a v = ok a v

abbrev pub throw : {A : Type 0} → Exception → M A
throw e v = throws e

infixl 5 ◌>>=◌ ◌>>◌
unfoldable pub ◌>>=◌ : {A B : Type 0} → M A → (A → M B) → M B
◌>>=◌ m f v = elim (m v) [ ok a w ↦ f a w | throws e ↦ throws e ]

abbrev pub ◌>>◌ : {A B : Type 0} → M A → M B → M B
m >> k = m >>= λ _. k

-- `opString`: its default throws.
unfoldable pub op_string : Token → Option String
op_string mul_op = some "*"
op_string div_op = some "/"
op_string add_op = some "+"
op_string sub_op = some "-"
op_string mm_op = some "--"
op_string pp_op = some "++"
op_string mod_op = some "%"
op_string gt_op = some ">"
op_string gte_op = some ">="
op_string lt_op = some "<"
op_string lte_op = some "<="
op_string eq_op = some "=="
op_string ne_op = some "!="
op_string and_op = some "and"
op_string or_op = some "or"
op_string _ = none

unfoldable pub or_throw : {A : Type 0} → Exception → Option A → M A
or_throw e none v = throws e
or_throw e (some a) v = ok a v

unfoldable pub negate : ℤ → ℤ
negate (pos zero) = pos zero
negate (pos (suc n)) = negsuc n
negate (negsuc n) = pos (suc n)

-- `setLocation`, with the address.
abbrev pub node_at : ℕ → Start → Node
node_at a s = record { address = a; line = s.line; column = s.column }

-- The ends of the methods: a node is made, and its place set.
unfoldable pub make_expr : Start → (Node → Expr) → M Unit
make_expr s f v = ok tt (record v { visited_expr = some (f (node_at v.made s)); made = suc v.made })

unfoldable pub make_stmt : Start → (Node → Stmt) → M Unit
make_stmt s f v = ok tt (record v { visited_stmt = some (f (node_at v.made s)); made = suc v.made })

unfoldable pub make_field_expr : Start → (Node → FieldExpr) → M Unit
make_field_expr s f v =
    ok tt (record v { visited_field_expr = some (f (node_at v.made s)); made = suc v.made })

unfoldable pub make_decl_node : Start → (Node → DeclNode) → M Unit
make_decl_node s f v =
    ok tt (record v { visited_decl_node = some (f (node_at v.made s)); made = suc v.made })

unfoldable pub make_decl_stmt : Start → (Node → DeclStmt) → M Unit
make_decl_stmt s f v =
    ok tt (record v { visited_decl_stmt = some (f (node_at v.made s)); made = suc v.made })

unfoldable pub make_function : Start → (Node → Function) → M Unit
make_function s f v =
    ok tt (record v { visited_function = some (f (node_at v.made s)); made = suc v.made })

-- The read of a variable.
unfoldable pub last : {A : Type 0} → (Visited → Option A) → M A
unfolding or_throw
last get v = or_throw null_node (get v) v

-- A visit, and the read of the variable that it leaves.
abbrev pub expr_of : M Unit → M Expr
expr_of m = m >>= λ _. last (λ v. v.visited_expr)

abbrev pub stmt_of : M Unit → M Stmt
stmt_of m = m >>= λ _. last (λ v. v.visited_stmt)

abbrev pub field_of : M Unit → M FieldExpr
field_of m = m >>= λ _. last (λ v. v.visited_field_expr)

abbrev pub decl_node_of : M Unit → M DeclNode
decl_node_of m = m >>= λ _. last (λ v. v.visited_decl_node)

abbrev pub decl_stmt_of : M Unit → M DeclStmt
decl_stmt_of m = m >>= λ _. last (λ v. v.visited_decl_stmt)

abbrev pub function_of : M Unit → M Function
function_of m = m >>= λ _. last (λ v. v.visited_function)

abbrev pub operator : Token → M String
operator op = or_throw (unknown_operator op) (op_string op)

-- `visitBinaryExpr`, with the visits of its two operands.
unfoldable pub visit_binary_expr : Start → String → M Unit → M Unit → M Unit
visit_binary_expr s op left right = do
  lhs ← expr_of left
  rhs ← expr_of right
  make_expr s (λ n. binary n op lhs rhs)

unfoldable pub visit_field_expr : Start → String → M Unit → M Unit
visit_field_expr s name visit_init = do
  e ← expr_of visit_init
  make_field_expr s (λ n. record { node = n; name = name; init = e })

unfoldable pub visit_name_declaration : NameTree → M Unit
visit_name_declaration d = make_decl_node d.start (λ n. record { node = n; name = d.identifier })

unfoldable pub visit_names : List NameTree → M (List DeclNode)
unfolding visit_name_declaration
visit_names [] = pure []
visit_names (d ∷ ds) = do
  x ← decl_node_of (visit_name_declaration d)
  xs ← visit_names ds
  pure (x ∷ xs)

unfoldable pub visit_declaration : DeclarationTree → M Unit
unfolding visit_names
visit_declaration d = do
  vars ← visit_names d.names
  make_decl_stmt d.start (λ n. record { node = n; vars = vars })

unfoldable pub visit_declarations : List DeclarationTree → M (List DeclStmt)
unfolding visit_declaration
visit_declarations [] = pure []
visit_declarations (d ∷ ds) = do
  x ← decl_stmt_of (visit_declaration d)
  xs ← visit_declarations ds
  pure (x ∷ xs)
