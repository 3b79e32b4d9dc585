-- ===== src/Lib.antt =====
-- A model of tipc, the compiler from SIP programs to LLVM bitcode: the making of syntax trees, the
-- semantic analysis, the code generation and the printing of programs.
--
-- The compiler parses a program into a syntax tree (src/frontend), builds a symbol table, checks
-- that assignments have a target (weeding), finds which functions a call may reach, infers types,
-- and generates code. The analyses are visitors: a tree's `accept` calls their `visit` and
-- `endVisit` in an order that Ast gives as a list of events, over which each analysis folds.
--
--   Builder      src/frontend/ast/ASTBuilder.cpp, which makes a syntax tree of a parse tree: the
--                parse trees are data types by src/tipg4/TIP.g4, the methods are in Visitor and
--                Visits. Translation and Trees describe the result by recursion, and Rules,
--                Expressions and Laws hold the two against each other; Grammar, Faults, Shape and
--                Numbering are about the trees that the grammar allows, the exceptions, the shape
--                of the programs and the addresses of the nodes, and Unbuild and RoundTrip about
--                the way back to a parse tree.
--   Ast          src/frontend/ast/treetypes: nodes as data types, and `accept` as events. A node
--                carries its address, by which the code tells nodes apart. Every tests all events
--                by recursion on the syntax, and Quiet and Inner are about the events of one
--                function.
--   Weeding      src/semantic/weeding/CheckAssignable.cpp: `check`; Lvalues describes its task, and
--                Passes, Expressions and Laws hold the two against each other.
--   Symbols      src/semantic/symboltable: the collectors of names, `SymbolTable::build` and its
--                queries; Functions and Fields are about two of the collectors.
--   Constraints  src/semantic/types/constraints: `TypeConstraintVisitor` with the collecting
--                handler, in Expressions and Traversal; Equations lists what each construct asks
--                for, by which the traversal is judged. Pipeline hands the constraints to the
--                unifier, the first part of `runMono` of src/semantic/types/TypeInference.cpp.
--                Keeps, Total, Listed and Defined are about where the traversal is defined.
--   Types        src/semantic/types/concrete: the type terms and `operator==`; Substitute is
--                Substituter, Copier and FreshAlphaCopier of src/semantic/types/solver.
--   UnionFind    src/semantic/types/solver/UnionFind.cpp over a list of edges.
--   Unifier      src/semantic/types/solver/Unifier.cpp: the constructor, `add`, `unify`, `solve`.
--   CallGraph    src/semantic/cfa/CallGraph.cpp, and the sort of functions in TypeInference.cpp;
--                Order and Callees are about the sort and Queries about the queries.
--   Printer      src/frontend/prettyprint/PrettyPrinter.cpp, a visitor with a stack of texts, in
--                Steps; Render describes the text by recursion, and Expressions and Laws hold the
--                two against each other.
--   Iterator     `getChildren` of the nodes, src/frontend/ast/SyntaxTree.cpp and
--                src/frontend/iterators; PreOrder is about the order of the nodes.
--   Codegen      src/codegen/CodeGenFunctions.cpp: the `codegen` methods by class, in Expressions,
--                Allocations, Loops, Statements and Programs, as computations over the variables of
--                the file that record their calls of LLVM. Shape and Edges say which calls are
--                admitted, and Scoped which programs are meant; Rules, Reads and Frames are the
--                rules to prove a computation right, and the other modules apply them. Named,
--                Accepted and Analysed say what the analyses before it establish.
--   Pipeline     the phases that src/tipc.cpp and src/semantic/SemanticAnalysis.cpp run one after
--                the other.
--   Examples     tests, and instances of the theorems.
--
-- State is passed explicitly, and an exception or an undefined behaviour is a result. Pointers to
-- type terms are values, as the code compares what they point to. `find` and `unify` run on fuel:
-- `find` takes the number of edges, which bounds the length of a path in a forest, and `unify` a
-- number above that of the subterms of the constraints, since each recursive call follows a union
-- of two classes. The sort of functions takes more than their number, since each visit marks one,
-- and the loop of the iterator more than the number of nodes. `mayIndirectlyCall` has no sufficient
-- fuel: it does not return on some graphs.
--
-- Not modelled: text for logs and messages; `close` and `inferred` of Unifier.cpp, with TypeVars
-- and the check for absent fields; the polymorphic constraints; the control flow analysis; the
-- lexer and the parser, which ANTLR generates, and the hash of PicoSHA2, a parameter; what LLVM
-- does with the calls of the code generator, and what its verifier asks beyond Codegen/Shape and
-- Codegen/Edges, such as that a value is defined on each path to its use; the optimizer, which
-- registers its passes; and the command line.
pub mod Prelude
pub mod Ast
pub mod Symbols
pub mod Types
pub mod Weeding
pub mod UnionFind
pub mod Unifier
pub mod Constraints
pub mod CallGraph
pub mod Printer
pub mod Iterator
pub mod Builder
pub mod Codegen
pub mod Pipeline
mod Examples
