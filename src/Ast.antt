-- ===== src/Ast.antt =====
-- src/frontend/ast/treetypes: the syntax trees as data types with a constructor for each class,
-- and the order in which `accept` calls the `visit` and `endVisit` methods of a visitor.
-- A node carries its address, by which the analyses tell nodes apart, and its place in the text.
pub mod Inner
pub mod Every
pub mod Quiet
use sipc.Prelude.{ℕ, ℤ, Bool, String, List, [], ◌∷◌, ◌++◌, Option, none, some}

pub record Node : Type 0 where
  pub address : ℕ
  pub line : ℕ
  pub column : ℕ

pub record DeclNode : Type 0 where
  pub node : Node
  pub name : String

-- A field of a record literal is an expression of its own in the code; it stands in no other
-- place.
mutual
  pub data Expr : Type 0 where
    number : Node → ℤ → Expr
    boolean : Node → Bool → Expr
    variable : Node → String → Expr
    binary : Node → String → Expr → Expr → Expr
    ternary : Node → Expr → Expr → Expr → Expr
    input null : Node → Expr
    fun_app : Node → Expr → Exprs → Expr
    alloc ref deref negation minus : Node → Expr → Expr
    array : Node → Exprs → Expr
    array_len : Node → Expr → Expr
    array_of indexing : Node → Expr → Expr → Expr
    rec : Node → Fields → Expr
    access : Node → Expr → String → Expr

  pub data Exprs : Type 0 where
    nil : Exprs
    cons : Expr → Exprs → Exprs

  pub data Fields : Type 0 where
    end : Fields
    field : Node → String → Expr → Fields → Fields

-- A `for` statement has an iterator, or a range that may have an increment.
mutual
  pub data Stmt : Type 0 where
    assign : Node → Expr → Expr → Stmt
    update : Node → Expr → Bool → Stmt
    block : Node → Stmts → Stmt
    loop : Node → Expr → Stmt → Stmt
    for_each : Node → Expr → Expr → Stmt → Stmt
    for_range : Node → Expr → Expr → Expr → Option Expr → Stmt → Stmt
    if_then : Node → Expr → Stmt → Stmt
    if_else : Node → Expr → Stmt → Stmt → Stmt
    output error return : Node → Expr → Stmt

  pub data Stmts : Type 0 where
    nil : Stmts
    cons : Stmt → Stmts → Stmts

pub record DeclStmt : Type 0 where
  pub node : Node
  pub vars : List DeclNode

pub record Function : Type 0 where
  pub node : Node
  pub decl : DeclNode
  pub formals : List DeclNode
  pub declarations : List DeclStmt
  pub stmts : Stmts
  pub is_poly : Bool

pub record Program : Type 0 where
  pub name : String
  pub functions : List Function

-- The call of a visitor's method.
pub data Event : Type 0 where
  visit_expr leave_expr : Expr → Event
  visit_field leave_field : Node → String → Expr → Event
  visit_stmt leave_stmt : Stmt → Event
  leave_decl : DeclNode → Event
  visit_decl_stmt leave_decl_stmt : DeclStmt → Event
  visit_function leave_function : Function → Event

-- `accept` for a visitor whose `visit` methods return true: the calls in order.
unfoldable mutual
  pub accept_expr : Expr → List Event
  accept_expr (number n k) = visit_expr (number n k) ∷ leave_expr (number n k) ∷ []
  accept_expr (boolean n b) = visit_expr (boolean n b) ∷ leave_expr (boolean n b) ∷ []
  accept_expr (variable n s) = visit_expr (variable n s) ∷ leave_expr (variable n s) ∷ []
  accept_expr (binary n op l r) =
      visit_expr (binary n op l r)
      ∷ (accept_expr l ++ (accept_expr r ++ leave_expr (binary n op l r) ∷ []))
  accept_expr (ternary n c t e) =
      visit_expr (ternary n c t e)
      ∷ (accept_expr c ++ (accept_expr t ++ (accept_expr e ++ leave_expr (ternary n c t e) ∷ [])))
  accept_expr (input n) = visit_expr (input n) ∷ leave_expr (input n) ∷ []
  accept_expr (null n) = visit_expr (null n) ∷ leave_expr (null n) ∷ []
  accept_expr (fun_app n f xs) =
      visit_expr (fun_app n f xs)
      ∷ (accept_expr f ++ (accept_exprs xs ++ leave_expr (fun_app n f xs) ∷ []))
  accept_expr (alloc n e) = visit_expr (alloc n e) ∷ (accept_expr e ++ leave_expr (alloc n e) ∷ [])
  accept_expr (ref n e) = visit_expr (ref n e) ∷ (accept_expr e ++ leave_expr (ref n e) ∷ [])
  accept_expr (deref n e) = visit_expr (deref n e) ∷ (accept_expr e ++ leave_expr (deref n e) ∷ [])
  accept_expr (negation n e) =
      visit_expr (negation n e) ∷ (accept_expr e ++ leave_expr (negation n e) ∷ [])
  accept_expr (minus n e) = visit_expr (minus n e) ∷ (accept_expr e ++ leave_expr (minus n e) ∷ [])
  accept_expr (array n xs) =
      visit_expr (array n xs) ∷ (accept_exprs xs ++ leave_expr (array n xs) ∷ [])
  accept_expr (array_len n e) =
      visit_expr (array_len n e) ∷ (accept_expr e ++ leave_expr (array_len n e) ∷ [])
  accept_expr (array_of n a b) =
      visit_expr (array_of n a b)
      ∷ (accept_expr a ++ (accept_expr b ++ leave_expr (array_of n a b) ∷ []))
  accept_expr (indexing n a i) =
      visit_expr (indexing n a i)
      ∷ (accept_expr a ++ (accept_expr i ++ leave_expr (indexing n a i) ∷ []))
  accept_expr (rec n fs) = visit_expr (rec n fs) ∷ (accept_fields fs ++ leave_expr (rec n fs) ∷ [])
  accept_expr (access n e s) =
      visit_expr (access n e s) ∷ (accept_expr e ++ leave_expr (access n e s) ∷ [])

  pub accept_exprs : Exprs → List Event
  accept_exprs nil = []
  accept_exprs (cons e es) = accept_expr e ++ accept_exprs es

  pub accept_fields : Fields → List Event
  accept_fields end = []
  accept_fields (field n s e fs) =
      visit_field n s e ∷ (accept_expr e ++ (leave_field n s e ∷ accept_fields fs))

unfoldable pub accept_increment : Option Expr → List Event
accept_increment none = []
accept_increment (some e) = accept_expr e

unfoldable mutual
  pub accept_stmt : Stmt → List Event
  accept_stmt (assign n l r) =
      visit_stmt (assign n l r)
      ∷ (accept_expr l ++ (accept_expr r ++ leave_stmt (assign n l r) ∷ []))
  accept_stmt (update n e b) =
      visit_stmt (update n e b) ∷ (accept_expr e ++ leave_stmt (update n e b) ∷ [])
  accept_stmt (block n ss) =
      visit_stmt (block n ss) ∷ (accept_stmts ss ++ leave_stmt (block n ss) ∷ [])
  accept_stmt (loop n c s) =
      visit_stmt (loop n c s) ∷ (accept_expr c ++ (accept_stmt s ++ leave_stmt (loop n c s) ∷ []))
  accept_stmt (for_each n x e s) =
      visit_stmt (for_each n x e s)
      ∷ (accept_expr x ++ (accept_expr e ++ (accept_stmt s ++ leave_stmt (for_each n x e s) ∷ [])))
  accept_stmt (for_range n x a b i s) =
      visit_stmt (for_range n x a b i s)
      ∷ (accept_expr x
          ++ (accept_expr a
              ++ (accept_expr b
                  ++ (accept_increment i
                      ++ (accept_stmt s ++ leave_stmt (for_range n x a b i s) ∷ [])))))
  accept_stmt (if_then n c s) =
      visit_stmt (if_then n c s)
      ∷ (accept_expr c ++ (accept_stmt s ++ leave_stmt (if_then n c s) ∷ []))
  accept_stmt (if_else n c s t) =
      visit_stmt (if_else n c s t)
      ∷ (accept_expr c ++ (accept_stmt s ++ (accept_stmt t ++ leave_stmt (if_else n c s t) ∷ [])))
  accept_stmt (output n e) =
      visit_stmt (output n e) ∷ (accept_expr e ++ leave_stmt (output n e) ∷ [])
  accept_stmt (error n e) = visit_stmt (error n e) ∷ (accept_expr e ++ leave_stmt (error n e) ∷ [])
  accept_stmt (return n e) =
      visit_stmt (return n e) ∷ (accept_expr e ++ leave_stmt (return n e) ∷ [])

  pub accept_stmts : Stmts → List Event
  accept_stmts nil = []
  accept_stmts (cons s ss) = accept_stmt s ++ accept_stmts ss

unfoldable pub accept_decls : List DeclNode → List Event
accept_decls [] = []
accept_decls (d ∷ ds) = leave_decl d ∷ accept_decls ds

unfoldable pub accept_decl_stmts : List DeclStmt → List Event
unfolding accept_decls
accept_decl_stmts [] = []
accept_decl_stmts (d ∷ ds) =
    visit_decl_stmt d ∷ (accept_decls d.vars ++ (leave_decl_stmt d ∷ accept_decl_stmts ds))

unfoldable pub accept_function : Function → List Event
unfolding accept_decls accept_decl_stmts
accept_function f =
    visit_function f
    ∷ leave_decl f.decl
    ∷ (accept_decls f.formals
        ++ (accept_decl_stmts f.declarations ++ (accept_stmts f.stmts ++ leave_function f ∷ [])))

unfoldable pub accept_functions : List Function → List Event
unfolding accept_function
accept_functions [] = []
accept_functions (f ∷ fs) = accept_function f ++ accept_functions fs

unfoldable pub accept_program : Program → List Event
unfolding accept_functions
accept_program p = accept_functions p.functions
