-- ===== src/Builder.antt =====
-- src/frontend/ast/ASTBuilder.cpp, which makes a syntax tree of a parse tree, and the parse trees of
-- src/tipg4/TIP.g4: a data type for each rule of the grammar, a constructor for each alternative,
-- named by its label. ANTLR generates the classes of the parse trees and the parser, whose
-- listeners throw at the first syntax error, so that a tree has all the parts of its alternative.
pub mod Visitor
pub mod Visits
pub mod Translation
pub mod Trees
pub mod Rules
pub mod Expressions
pub mod Laws
pub mod Grammar
pub mod Faults
pub mod Shape
pub mod Numbering
pub mod Unbuild
pub mod RoundTrip
use sipc.Prelude.{ℕ, Bool, String, List}

-- The first token of a context.
pub record Start : Type 0 where
  pub line : ℕ
  pub column : ℕ

-- The types of the tokens that are operators.
pub data Token : Type 0 where
  mul_op div_op add_op sub_op mod_op gt_op lte_op gte_op lt_op eq_op ne_op and_op or_op mm_op
        pp_op :
      Token
  bar_op amp_op : Token

-- Lists of contexts are data types of their own.
mutual
  pub data ExprTree : Type 0 where
    fun_app_expr : Start → ExprTree → ExprTrees → ExprTree
    access_expr : Start → ExprTree → String → ExprTree
    deref_expr neg_expr ref_expr array_len_expr not_expr alloc_expr paren_expr :
        Start → ExprTree → ExprTree
    array_indexing_expr array_of_expr : Start → ExprTree → ExprTree → ExprTree
    neg_number num_expr var_expr bool_expr : Start → String → ExprTree
    multiplicative_expr additive_expr relational_expr equality_expr bool_ops non_short_circuiting :
        Start → Token → ExprTree → ExprTree → ExprTree
    ternary_expr : Start → ExprTree → ExprTree → ExprTree → ExprTree
    input_expr null_expr : Start → ExprTree
    record_rule : Start → FieldTrees → ExprTree
    array_literal : Start → ExprTrees → ExprTree

  pub data ExprTrees : Type 0 where
    no_expr : ExprTrees
    add_expr : ExprTree → ExprTrees → ExprTrees

  pub data FieldTrees : Type 0 where
    no_field : FieldTrees
    add_field : Start → String → ExprTree → FieldTrees → FieldTrees

-- A `for` statement has a sequence, a range, or a range with a step.
mutual
  pub data StmtTree : Type 0 where
    block_stmt : Start → StmtTrees → StmtTree
    assign_stmt : Start → ExprTree → ExprTree → StmtTree
    update_stmt : Start → ExprTree → Token → StmtTree
    while_stmt : Start → ExprTree → StmtTree → StmtTree
    for_each_stmt : Start → ExprTree → ExprTree → StmtTree → StmtTree
    for_range_stmt : Start → ExprTree → ExprTree → ExprTree → StmtTree → StmtTree
    for_by_stmt : Start → ExprTree → ExprTree → ExprTree → ExprTree → StmtTree → StmtTree
    if_stmt : Start → ExprTree → StmtTree → StmtTree
    if_else_stmt : Start → ExprTree → StmtTree → StmtTree → StmtTree
    output_stmt error_stmt : Start → ExprTree → StmtTree

  pub data StmtTrees : Type 0 where
    no_stmt : StmtTrees
    add_stmt : StmtTree → StmtTrees → StmtTrees

pub record NameTree : Type 0 where
  pub start : Start
  pub identifier : String

pub record DeclarationTree : Type 0 where
  pub start : Start
  pub names : List NameTree

-- The first name of the context is the one of the function.
pub record FunctionTree : Type 0 where
  pub start : Start
  pub name : NameTree
  pub params : List NameTree
  pub kpoly : Bool
  pub declarations : List DeclarationTree
  pub statements : StmtTrees
  pub return_start : Start
  pub return_expr : ExprTree

pub record ProgramTree : Type 0 where
  pub text : String
  pub functions : List FunctionTree
