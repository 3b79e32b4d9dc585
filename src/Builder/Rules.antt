-- ===== src/Builder/Rules.antt =====
-- Rules for the methods of ASTBuilder: what a visit gives depends on the variables only in the
-- number of the next node.
use sipc.Prelude.{◌≡◌, ap, refl, ℕ, suc, Option, none, some, arith}
use sipc.Ast.{Node, Expr, Stmt, DeclNode, DeclStmt, Function}
use sipc.Builder.{Start}
use sipc.Builder.Visitor.{
  Exception, FieldExpr, Visited, Outcome, ok, throws, M, pure, ◌>>=◌, or_throw, node_at, make_expr,
  make_stmt, make_field_expr, make_decl_node, make_decl_stmt, make_function, last,
}
use sipc.Builder.Translation.{first, absent, given}

-- A value with the number of the next node, or an exception.
pub data Report (A : Type 0) : Type 0 where
  gives : A → ℕ → Report A
  fails : Exception → Report A

abbrev pub report : {A : Type 0} → Outcome A → Report A
report (ok a v) = gives a v.made
report (throws e) = fails e

abbrev pub expected : {A : Type 0} → Option Exception → A → ℕ → Report A
expected none a k = gives a k
expected (some e) a k = fails e

-- What a visit leaves in the variable that `get` reads.
abbrev pub left_in : {A : Type 0} → (Visited → Option A) → Outcome Unit → Report (Option A)
left_in get (ok a v) = gives (get v) v.made
left_in get (throws e) = fails e

-- From `n` nodes, a computation with the fault `x` or the value `a`, and `k` nodes after it.
pub record Yields {A : Type 0} (n : ℕ) (m : M A) (x : Option Exception) (a : A) (k : ℕ)
    : Type 0 where
  pub run : (v : Visited) → v.made ≡ n → report (m v) ≡ expected x a k

pub record Leaves {A : Type 0} (get : Visited → Option A) (n : ℕ) (m : M Unit)
    (x : Option Exception) (a : A) (k : ℕ) : Type 0 where
  pub run : (v : Visited) → v.made ≡ n → left_in get (m v) ≡ expected x (some a) k

module _ {A B : Type 0} where
  pub step :
      {n k l : ℕ} {m : M A} (f : A → M B) {x y : Option Exception} {a : A} {b : B}
      → Yields n m x a k
      → Yields k (f a) y b l
      → Yields n (m >>= f) (first x y) b l
  unfolding ◌>>=◌
  step {n = n} {k = k} {l = l} {m = m} f {x = x} {y = y} {a = a} {b = b} p q = record {
    run = λ v h. by_result x v (m v) refl (p.run v h);
  }
    where
      by_result :
          (x : Option Exception) (v : Visited) (o : Outcome A)
          → m v ≡ o
          → report o ≡ expected x a k
          → report ((m >>= f) v) ≡ expected (first x y) b l
      by_result none v (ok c w) e r = ground (arith, e, r, q.run w)
      by_result (some z) v (ok c w) e r = ground (arith, e, r)
      by_result none v (throws z) e r = ground (arith, e, r)
      by_result (some z') v (throws z) e r = ground (arith, e, r)

  -- The last step of a visit, and a visit that goes on with another one.
  pub finish :
      (get : Visited → Option B) {n k l : ℕ} {m : M A} (f : A → M Unit) {x : Option Exception}
      {a : A} {b : B}
      → Yields n m x a k
      → Leaves get k (f a) none b l
      → Leaves get n (m >>= f) x b l
  unfolding ◌>>=◌
  finish get {n = n} {k = k} {l = l} {m = m} f {x = x} {a = a} {b = b} p q = record {
    run = λ v h. by_result x v (m v) refl (p.run v h);
  }
    where
      by_result :
          (x : Option Exception) (v : Visited) (o : Outcome A)
          → m v ≡ o
          → report o ≡ expected x a k
          → left_in get ((m >>= f) v) ≡ expected x (some b) l
      by_result none v (ok c w) e r = ground (arith, e, r, q.run w)
      by_result (some z) v (ok c w) e r = ground (arith, e, r)
      by_result none v (throws z) e r = ground (arith, e, r)
      by_result (some z') v (throws z) e r = ground (arith, e, r)

  pub step_in :
      (get : Visited → Option B) {n k l : ℕ} {m : M A} (f : A → M Unit) {x y : Option Exception}
      {a : A} {b : B}
      → Yields n m x a k
      → Leaves get k (f a) y b l
      → Leaves get n (m >>= f) (first x y) b l
  unfolding ◌>>=◌
  step_in get {n = n} {k = k} {l = l} {m = m} f {x = x} {y = y} {a = a} {b = b} p q = record {
    run = λ v h. by_result x v (m v) refl (p.run v h);
  }
    where
      by_result :
          (x : Option Exception) (v : Visited) (o : Outcome A)
          → m v ≡ o
          → report o ≡ expected x a k
          → left_in get ((m >>= f) v) ≡ expected (first x y) (some b) l
      by_result none v (ok c w) e r = ground (arith, e, r, q.run w)
      by_result (some z) v (ok c w) e r = ground (arith, e, r)
      by_result none v (throws z) e r = ground (arith, e, r)
      by_result (some z') v (throws z) e r = ground (arith, e, r)

  pub end_with :
      {n k : ℕ} {m : M A} (f : A → B) {x : Option Exception} {a : A}
      → Yields n m x a k
      → Yields n (m >>= λ c. pure (f c)) x (f a) k
  unfolding ◌>>=◌
  end_with {n = n} {k = k} {m = m} f {x = x} {a = a} p = record {
    run = λ v h. by_result x v (m v) refl (p.run v h);
  }
    where
      by_result :
          (x : Option Exception) (v : Visited) (o : Outcome A)
          → m v ≡ o
          → report o ≡ expected x a k
          → report ((m >>= λ c. pure (f c)) v) ≡ expected x (f a) k
      by_result none v (ok c w) e r = ground (arith, e, r)
      by_result (some z) v (ok c w) e r = ground (arith, e, r)
      by_result none v (throws z) e r = ground (arith, e, r)
      by_result (some z') v (throws z) e r = ground (arith, e, r)

module _ {A : Type 0} where
  -- The variable is read after the visit.
  pub read :
      (get : Visited → Option A) {n k : ℕ} {m : M Unit} {x : Option Exception} {a : A}
      → Leaves get n m x a k
      → Yields n (m >>= λ _. last get) x a k
  unfolding ◌>>=◌ last or_throw
  read get {n = n} {k = k} {m = m} {x = x} {a = a} p = record {
    run = λ v h. by_result x v (m v) refl (p.run v h);
  }
    where
      by_result :
          (x : Option Exception) (v : Visited) (o : Outcome Unit)
          → m v ≡ o
          → left_in get o ≡ expected x (some a) k
          → report ((m >>= λ _. last get) v) ≡ expected x a k
      by_result none v (ok c w) e r = ground (arith, e, r)
      by_result (some z) v (ok c w) e r = ground (arith, e, r)
      by_result none v (throws z) e r = ground (arith, e, r)
      by_result (some z') v (throws z) e r = ground (arith, e, r)

  -- The value of a visit that another one overwrites.
  pub drop :
      (get : Visited → Option A) {n k l : ℕ} {m m' : M Unit} {x y : Option Exception} {a b : A}
      → Leaves get n m x a k
      → Leaves get k m' y b l
      → Leaves get n (m >>= λ _. m') (first x y) b l
  unfolding ◌>>=◌
  drop get {n = n} {k = k} {l = l} {m = m} {m' = m'} {x = x} {y = y} {a = a} {b = b} p q = record {
    run = λ v h. by_result x v (m v) refl (p.run v h);
  }
    where
      by_result :
          (x : Option Exception) (v : Visited) (o : Outcome Unit)
          → m v ≡ o
          → left_in get o ≡ expected x (some a) k
          → left_in get ((m >>= λ _. m') v) ≡ expected (first x y) (some b) l
      by_result none v (ok c w) e r = ground (arith, e, r, q.run w)
      by_result (some z) v (ok c w) e r = ground (arith, e, r)
      by_result none v (throws z) e r = ground (arith, e, r)
      by_result (some z') v (throws z) e r = ground (arith, e, r)

  pub attempt :
      (e : Exception) (d : A) (o : Option A) (n : ℕ)
      → Yields n (or_throw e o) (absent e o) (given d o) n
  unfolding or_throw
  attempt e d none n = record { run = λ v h. refl }
  attempt e d (some a) n = record { run = λ v h. ap (λ k. gives a k) h }

  pub done : (a : A) (n : ℕ) → Yields n (pure a) none a n
  done a n = record { run = λ v h. ap (λ k. gives a k) h }

pub make_expr_lem :
    (s : Start) (f : Node → Expr) (n : ℕ)
    → Leaves (λ v. v.visited_expr) n (make_expr s f) none (f (node_at n s)) (suc n)
unfolding make_expr
make_expr_lem s f n = record { run = λ v h. ap (λ k. gives (some (f (node_at k s))) (suc k)) h }

pub make_stmt_lem :
    (s : Start) (f : Node → Stmt) (n : ℕ)
    → Leaves (λ v. v.visited_stmt) n (make_stmt s f) none (f (node_at n s)) (suc n)
unfolding make_stmt
make_stmt_lem s f n = record { run = λ v h. ap (λ k. gives (some (f (node_at k s))) (suc k)) h }

pub make_field_expr_lem :
    (s : Start) (f : Node → FieldExpr) (n : ℕ)
    → Leaves (λ v. v.visited_field_expr) n (make_field_expr s f) none (f (node_at n s)) (suc n)
unfolding make_field_expr
make_field_expr_lem s f n = record {
  run = λ v h. ap (λ k. gives (some (f (node_at k s))) (suc k)) h;
}

pub make_decl_node_lem :
    (s : Start) (f : Node → DeclNode) (n : ℕ)
    → Leaves (λ v. v.visited_decl_node) n (make_decl_node s f) none (f (node_at n s)) (suc n)
unfolding make_decl_node
make_decl_node_lem s f n = record {
  run = λ v h. ap (λ k. gives (some (f (node_at k s))) (suc k)) h;
}

pub make_decl_stmt_lem :
    (s : Start) (f : Node → DeclStmt) (n : ℕ)
    → Leaves (λ v. v.visited_decl_stmt) n (make_decl_stmt s f) none (f (node_at n s)) (suc n)
unfolding make_decl_stmt
make_decl_stmt_lem s f n = record {
  run = λ v h. ap (λ k. gives (some (f (node_at k s))) (suc k)) h;
}

pub make_function_lem :
    (s : Start) (f : Node → Function) (n : ℕ)
    → Leaves (λ v. v.visited_function) n (make_function s f) none (f (node_at n s)) (suc n)
unfolding make_function
make_function_lem s f n = record { run = λ v h. ap (λ k. gives (some (f (node_at k s))) (suc k)) h }
