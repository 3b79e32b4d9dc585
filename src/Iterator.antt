-- ===== src/Iterator.antt =====
-- src/frontend/ast/SyntaxTree.cpp and src/frontend/iterators: the children of a node, which the
-- `getChildren` method of each class of src/frontend/ast/treetypes gives, and the iterator that goes
-- through a tree in pre-order. `none` is undefined behaviour: the top of an empty stack.
pub mod PreOrder
use sipc.Prelude.{
  ℕ, zero, suc, ◌+◌, Bool, true, false, not, ◌&&◌, String, Option, none, some, List, [], ◌∷◌, ◌++◌,
  ◌==◌, if◌then◌else◌, length, map,
}
use sipc.Ast.{
  Node, DeclNode, DeclStmt, Expr, Exprs, Fields, Stmt, Stmts, Function, Program, number, boolean,
  variable, binary, ternary, input, null, fun_app, alloc, ref, deref, negation, minus, array,
  array_len, array_of, indexing, rec, access, nil, cons, end, field, assign, update, block, loop,
  for_each, for_range, if_then, if_else, output, error, return,
}

-- A pointer to a node; a program, which has no place in the text, comes with its address.
pub data AstNode : Type 0 where
  expr : Expr → AstNode
  field_expr : Node → String → Expr → AstNode
  stmt : Stmt → AstNode
  decl : DeclNode → AstNode
  decl_stmt : DeclStmt → AstNode
  fun : Function → AstNode
  program : ℕ → Program → AstNode

unfoldable pub exprs_list : Exprs → List AstNode
exprs_list nil = []
exprs_list (cons e es) = expr e ∷ exprs_list es

unfoldable pub fields_list : Fields → List AstNode
fields_list end = []
fields_list (field n s e fs) = field_expr n s e ∷ fields_list fs

unfoldable pub stmts_list : Stmts → List AstNode
stmts_list nil = []
stmts_list (cons s ss) = stmt s ∷ stmts_list ss

unfoldable pub access_children : Expr → List AstNode
access_children base = expr base ∷ []

unfoldable pub alloc_children : Expr → List AstNode
alloc_children init = expr init ∷ []

unfoldable pub array_len_children : Expr → List AstNode
array_len_children ptr = expr ptr ∷ []

unfoldable pub deref_children : Expr → List AstNode
deref_children ptr = expr ptr ∷ []

unfoldable pub field_children : Expr → List AstNode
field_children init = expr init ∷ []

unfoldable pub neg_children : Expr → List AstNode
neg_children arg = expr arg ∷ []

unfoldable pub not_children : Expr → List AstNode
not_children arg = expr arg ∷ []

unfoldable pub ref_children : Expr → List AstNode
ref_children var = expr var ∷ []

unfoldable pub error_children : Expr → List AstNode
error_children arg = expr arg ∷ []

unfoldable pub output_children : Expr → List AstNode
output_children arg = expr arg ∷ []

unfoldable pub return_children : Expr → List AstNode
return_children arg = expr arg ∷ []

unfoldable pub update_children : Expr → List AstNode
update_children arg = expr arg ∷ []

unfoldable pub array_of_children : Expr → Expr → List AstNode
array_of_children e1 e2 = expr e1 ∷ expr e2 ∷ []

unfoldable pub assign_children : Expr → Expr → List AstNode
assign_children lhs rhs = expr lhs ∷ expr rhs ∷ []

unfoldable pub binary_children : Expr → Expr → List AstNode
binary_children left right = expr left ∷ expr right ∷ []

unfoldable pub indexing_children : Expr → Expr → List AstNode
indexing_children arr idx = expr arr ∷ expr idx ∷ []

unfoldable pub ternary_children : Expr → Expr → Expr → List AstNode
ternary_children cond then_part else_part = expr cond ∷ expr then_part ∷ expr else_part ∷ []

unfoldable pub array_children : Exprs → List AstNode
unfolding exprs_list
array_children elements = exprs_list elements

unfoldable pub fun_app_children : Expr → Exprs → List AstNode
unfolding exprs_list
fun_app_children function actuals = expr function ∷ exprs_list actuals

unfoldable pub record_children : Fields → List AstNode
unfolding fields_list
record_children fields = fields_list fields

unfoldable pub block_children : Stmts → List AstNode
unfolding stmts_list
block_children stmts = stmts_list stmts

unfoldable pub while_children : Expr → Stmt → List AstNode
while_children cond body = expr cond ∷ stmt body ∷ []

unfoldable pub if_children : Expr → Stmt → Option Stmt → List AstNode
if_children cond then_part none = expr cond ∷ stmt then_part ∷ []
if_children cond then_part (some e) = expr cond ∷ stmt then_part ∷ stmt e ∷ []

unfoldable pub if_present : Option Expr → List AstNode
if_present none = []
if_present (some e) = expr e ∷ []

unfoldable pub for_children :
    Expr → Option Expr → Option Expr → Option Expr → Option Expr → Stmt → List AstNode
unfolding if_present
for_children item iterator start stop increment body =
    expr item
    ∷ (if_present iterator
        ++ (if_present start ++ (if_present stop ++ (if_present increment ++ stmt body ∷ []))))

unfoldable pub decl_stmt_children : List DeclNode → List AstNode
decl_stmt_children vars = map decl vars

unfoldable pub function_children : Function → List AstNode
unfolding stmts_list
function_children f =
    decl f.decl ∷ (map decl f.formals ++ (map decl_stmt f.declarations ++ stmts_list f.stmts))

unfoldable pub program_children : List Function → List AstNode
program_children functions = map fun functions

unfoldable pub expr_children : Expr → List AstNode
unfolding access_children alloc_children array_len_children deref_children field_children
    neg_children not_children ref_children error_children output_children return_children
    update_children array_of_children assign_children binary_children indexing_children
    ternary_children array_children fun_app_children record_children block_children while_children
    if_children for_children decl_stmt_children function_children program_children
expr_children (number n k) = []
expr_children (boolean n b) = []
expr_children (variable n x) = []
expr_children (binary n op l r) = binary_children l r
expr_children (ternary n c t e) = ternary_children c t e
expr_children (input n) = []
expr_children (null n) = []
expr_children (fun_app n f xs) = fun_app_children f xs
expr_children (alloc n e) = alloc_children e
expr_children (ref n e) = ref_children e
expr_children (deref n e) = deref_children e
expr_children (negation n e) = not_children e
expr_children (minus n e) = neg_children e
expr_children (array n xs) = array_children xs
expr_children (array_len n e) = array_len_children e
expr_children (array_of n a b) = array_of_children a b
expr_children (indexing n a i) = indexing_children a i
expr_children (rec n fs) = record_children fs
expr_children (access n e f) = access_children e

unfoldable pub stmt_children : Stmt → List AstNode
unfolding access_children alloc_children array_len_children deref_children field_children
    neg_children not_children ref_children error_children output_children return_children
    update_children array_of_children assign_children binary_children indexing_children
    ternary_children array_children fun_app_children record_children block_children while_children
    if_children for_children decl_stmt_children function_children program_children
stmt_children (assign n l r) = assign_children l r
stmt_children (update n e b) = update_children e
stmt_children (block n ss) = block_children ss
stmt_children (loop n c s) = while_children c s
stmt_children (for_each n x e s) = for_children x (some e) none none none s
stmt_children (for_range n x a b i s) = for_children x none (some a) (some b) i s
stmt_children (if_then n c s) = if_children c s none
stmt_children (if_else n c s t) = if_children c s (some t)
stmt_children (output n e) = output_children e
stmt_children (error n e) = error_children e
stmt_children (return n e) = return_children e

-- `getSubtrees`.
unfoldable pub subtrees : AstNode → List AstNode
unfolding expr_children stmt_children field_children decl_stmt_children function_children
    program_children
subtrees (expr e) = expr_children e
subtrees (field_expr n s e) = field_children e
subtrees (stmt s) = stmt_children s
subtrees (decl d) = []
subtrees (decl_stmt d) = decl_stmt_children d.vars
subtrees (fun f) = function_children f
subtrees (program a p) = program_children p.functions

unfoldable pub expr_node : Expr → Node
expr_node (number n _) = n
expr_node (boolean n _) = n
expr_node (variable n _) = n
expr_node (binary n _ _ _) = n
expr_node (ternary n _ _ _) = n
expr_node (input n) = n
expr_node (null n) = n
expr_node (fun_app n _ _) = n
expr_node (alloc n _) = n
expr_node (ref n _) = n
expr_node (deref n _) = n
expr_node (negation n _) = n
expr_node (minus n _) = n
expr_node (array n _) = n
expr_node (array_len n _) = n
expr_node (array_of n _ _) = n
expr_node (indexing n _ _) = n
expr_node (rec n _) = n
expr_node (access n _ _) = n

unfoldable pub stmt_node : Stmt → Node
stmt_node (assign n _ _) = n
stmt_node (update n _ _) = n
stmt_node (block n _) = n
stmt_node (loop n _ _) = n
stmt_node (for_each n _ _ _) = n
stmt_node (for_range n _ _ _ _ _) = n
stmt_node (if_then n _ _) = n
stmt_node (if_else n _ _ _) = n
stmt_node (output n _) = n
stmt_node (error n _) = n
stmt_node (return n _) = n

-- The pointer that `getRoot` returns.
unfoldable pub root : AstNode → ℕ
unfolding expr_node stmt_node
root (expr e) = (expr_node e).address
root (field_expr n s e) = n.address
root (stmt s) = (stmt_node s).address
root (decl d) = d.node.address
root (decl_stmt d) = d.node.address
root (fun f) = f.node.address
root (program a p) = a

-- The top of the stack first.
pub record Iterator : Type 0 where
  pub tree : AstNode
  pub stack : List AstNode

unfoldable pub begin : AstNode → Iterator
begin t = record { tree = t; stack = t ∷ [] }

unfoldable pub end_of : AstNode → Iterator
end_of t = record { tree = t; stack = [] }

-- `operator*`.
unfoldable pub current : Iterator → Option AstNode
current it = elim it.stack [ [] ↦ none | t ∷ ts ↦ some t ]

-- `operator++`: the loop pushes the last subtree first.
unfoldable pub push_all : List AstNode → List AstNode → List AstNode
push_all [] stack = stack
push_all (t ∷ ts) stack = t ∷ push_all ts stack

unfoldable pub increment : Iterator → Iterator
unfolding subtrees push_all
increment it = record it { stack = elim it.stack [ [] ↦ [] | t ∷ ts ↦ push_all (subtrees t) ts ] }

unfoldable pub same_top : List AstNode → List AstNode → Bool
unfolding root
same_top [] [] = true
same_top (s ∷ ss) (t ∷ ts) = root s == root t
same_top _ _ = false

-- `are_equal`.
unfoldable pub are_equal : Iterator → Iterator → Bool
unfolding root same_top
are_equal lhs rhs =
    if not (root lhs.tree == root rhs.tree)
    then false
    else if not (length lhs.stack == length rhs.stack)
    then false
    else same_top lhs.stack rhs.stack

-- The nodes that `for (auto it = t.begin(); it != t.end(); ++it)` reads, with fuel; the outer `none`
-- is a lack of it.
unfoldable pub walk : ℕ → Iterator → Option (List (Option AstNode))
unfolding are_equal end_of current increment
walk zero it = none
walk (suc fuel) it =
    let rest = walk fuel (increment it) in
    if are_equal it (end_of it.tree)
    then some []
    else elim rest [ none ↦ none | some ns ↦ some (current it ∷ ns) ]
