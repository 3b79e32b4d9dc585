-- ===== src/Codegen/Edges.antt =====
-- Which block branches to which, in the calls that src/codegen/CodeGenFunctions.cpp makes of LLVM's
-- builder, and whether each `phi` has one value for each branch to its block.
use sipc.Prelude.{
  ◌≡◌, refl, sym, subst, ℕ, suc, Bool, true, false, not, ◌&&◌, ltb, ◌==◌, ==_iff, Option, none,
  some, List, [], ◌∷◌, ◌++◌, arith, if◌then◌else◌,
}
use sipc.Codegen.{Value, Instruction, phi, br, cond_br, Call, instruction, set_insert_point}
use sipc.Codegen.Shape.{is_last, targets_exist}

-- The block that is written, the branches made, the last one first, and whether each `phi` so far
-- agrees with the branches to its block.
pub record Flow : Type 0 where
  pub written : Option ℕ
  pub edges : List (ℕ × ℕ)
  pub agrees : Bool

-- The blocks that branch to a block.
abbrev pub sources : ℕ → List (ℕ × ℕ) → List ℕ
sources b [] = []
sources b ((s, t) ∷ es) = if t == b then s ∷ sources b es else sources b es

abbrev pub without : ℕ → List ℕ → Option (List ℕ)
without b [] = none
without b (c ∷ cs) =
    if b == c then some cs else elim (without b cs) [ none ↦ none | some ds ↦ some (c ∷ ds) ]

-- The incoming blocks are these, each as often.
abbrev pub comes_from : List (Value × Option ℕ) → List ℕ → Bool
comes_from [] [] = true
comes_from ((v, some b) ∷ vs) bs = elim (without b bs) [ none ↦ false | some cs ↦ comes_from vs cs ]
comes_from _ _ = false

abbrev pub phi_agrees : Option ℕ → List (Value × Option ℕ) → List (ℕ × ℕ) → Bool
phi_agrees none vs es = false
phi_agrees (some b) vs es = comes_from vs (sources b es)

abbrev pub edge_to : Option ℕ → ℕ → List (ℕ × ℕ) → List (ℕ × ℕ)
edge_to none t es = es
edge_to (some s) t es = (s, t) ∷ es

abbrev pub flow_of : Instruction → Flow → Flow
flow_of (br t) fl = record fl { edges = edge_to fl.written t fl.edges }
flow_of (cond_br v t u) fl = record fl {
  edges = edge_to fl.written u (edge_to fl.written t fl.edges);
}
flow_of (phi t vs) fl = record fl { agrees = fl.agrees && phi_agrees fl.written vs fl.edges }
flow_of _ fl = fl

abbrev pub flow_step : Call → Flow → Flow
flow_step (instruction i) fl = flow_of i fl
flow_step (set_insert_point b) fl = record fl { written = some b }
flow_step _ fl = fl

abbrev pub flow : List Call → Flow
flow [] = record { written = none; edges = []; agrees = true }
flow (c ∷ cs) = flow_step c (flow cs)

-- Each `phi` has one value for each branch that is made to its block before it, from that block.
abbrev pub phis_agree : List Call → Bool
phis_agree cs = (flow cs).agrees

-- What a proof knows of a block: that it exists, or also which blocks branch to it.
pub data Known : Type 0 where
  known_block : ℕ → Known
  merging : ℕ → List ℕ → Known

abbrev pub below : ℕ → List Known → Bool
below n [] = true
below n (known_block b ∷ bs) = ltb b n && below n bs
below n (merging b ps ∷ bs) = ltb b n && below n bs

abbrev pub Tracked : List Known → List (ℕ × ℕ) → Type 0
Tracked [] es = Unit
Tracked (known_block b ∷ ks) es = Tracked ks es
Tracked (merging b ps ∷ ks) es = (sources b es ≡ ps) × Tracked ks es

-- A block whose branches are not followed.
abbrev pub spared : ℕ → List Known → Bool
spared b [] = true
spared b (known_block c ∷ ks) = spared b ks
spared b (merging c ps ∷ ks) = not (b == c) && spared b ks

abbrev pub spares : List Known → Instruction → Bool
spares ks (br t) = spared t ks
spares ks (cond_br v t u) = spared t ks && spared u ks
spares ks _ = true

abbrev pub below_edges : ℕ → List (ℕ × ℕ) → Bool
below_edges n [] = true
below_edges n ((s, t) ∷ es) = ltb t n && below_edges n es

-- Whether the builder is in a block, and in which.
pub data Standing : Type 0 where
  anywhere somewhere : Standing
  inside : ℕ → Standing

abbrev pub Stands : Standing → Option ℕ → Type 0
Stands anywhere o = Unit
Stands somewhere o = (b : ℕ) × (o ≡ some b)
Stands (inside b) o = o ≡ some b

abbrev pub is_special : Instruction → Bool
is_special (phi t vs) = true
is_special i = is_last i

pub special-last : (i : Instruction) → is_special i ≡ false → is_last i ≡ false
special-last (phi t vs) h = refl
special-last _ h = h

pub flow_of-plain : (i : Instruction) → is_special i ≡ false → (fl : Flow) → flow_of i fl ≡ fl
flow_of-plain (br t) h fl = ground (arith, h)
flow_of-plain (cond_br v t u) h fl = ground (arith, h)
flow_of-plain (phi t vs) h fl = ground (arith, h)
flow_of-plain _ h fl = refl

pub below-suc : (n : ℕ) (bs : List Known) → below n bs ≡ true → below (suc n) bs ≡ true
below-suc n [] h = refl
below-suc n (known_block b ∷ bs) h = ground (arith, h, below-suc n bs)
below-suc n (merging b ps ∷ bs) h = ground (arith, h, below-suc n bs)

pub spared-below : (n : ℕ) (bs : List Known) → below n bs ≡ true → spared n bs ≡ true
spared-below n [] h = refl
spared-below n (known_block b ∷ bs) h = ground (arith, h, spared-below n bs)
spared-below n (merging b ps ∷ bs) h = ground (arith, h, spared-below n bs)

below_edges-suc :
    (n : ℕ) (es : List (ℕ × ℕ)) → below_edges n es ≡ true → below_edges (suc n) es ≡ true
below_edges-suc n [] h = refl
below_edges-suc n ((s, t) ∷ es) h = ground (arith, h, below_edges-suc n es)

below_edges-edge_to :
    (n t : ℕ) (o : Option ℕ) (es : List (ℕ × ℕ))
    → ltb t n ≡ true
    → below_edges n es ≡ true
    → below_edges n (edge_to o t es) ≡ true
below_edges-edge_to n t none es h e = e
below_edges-edge_to n t (some s) es h e = ground (arith, h, e)

sources-below : (n : ℕ) (es : List (ℕ × ℕ)) → below_edges n es ≡ true → sources n es ≡ []
sources-below n [] h = refl
sources-below n ((s, t) ∷ es) h = ground (arith, h, sources-below n es)

spared-sources :
    (t b s : ℕ) (es : List (ℕ × ℕ)) → not (t == b) ≡ true → sources b ((s, t) ∷ es) ≡ sources b es
spared-sources t b s es h = ground (arith, h)

Tracked-edge_to :
    (t : ℕ) (o : Option ℕ) (ks : List Known) (es : List (ℕ × ℕ))
    → spared t ks ≡ true
    → Tracked ks es
    → Tracked ks (edge_to o t es)
Tracked-edge_to t none ks es h k = k
Tracked-edge_to t (some s) [] es h k = tt
Tracked-edge_to t (some s) (known_block b ∷ ks) es h k = Tracked-edge_to t (some s) ks es h k
Tracked-edge_to t (some s) (merging b ps ∷ ks) es h k = (
  ground (arith, h, spared-sources t b s es, k.0),
  Tracked-edge_to t (some s) ks es (ground (arith, h)) (k.1),
)

-- What holds of the branches where generation stands.
pub record Follows (ks : List Known) (w : Standing) (fl : Flow) (o : Option ℕ) (n : ℕ)
    : Type 0 where
  pub same_block : fl.written ≡ o
  pub phis : fl.agrees ≡ true
  pub near : below_edges n fl.edges ≡ true
  pub tracked : Tracked ks fl.edges
  pub stands : Stands w o

module _ {ks : List Known} {w : Standing} {fl : Flow} {o : Option ℕ} {n : ℕ} where
  pub Follows-more : Follows ks w fl o n → Follows ks w fl o (suc n)
  Follows-more h = record {
    same_block = h.same_block;
    phis = h.phis;
    near = below_edges-suc n fl.edges h.near;
    tracked = h.tracked;
    stands = h.stands;
  }

  pub Follows-block : Follows ks w fl o n → Follows (known_block n ∷ ks) w fl o (suc n)
  Follows-block h = record {
    same_block = h.same_block;
    phis = h.phis;
    near = below_edges-suc n fl.edges h.near;
    tracked = h.tracked;
    stands = h.stands;
  }

  pub Follows-merging : Follows ks w fl o n → Follows (merging n [] ∷ ks) w fl o (suc n)
  Follows-merging h = record {
    same_block = h.same_block;
    phis = h.phis;
    near = below_edges-suc n fl.edges h.near;
    tracked = (sources-below n fl.edges h.near, h.tracked);
    stands = h.stands;
  }

  pub Follows-moved :
      (b : ℕ)
      → Follows ks w fl o n
      → Follows ks (inside b) (record fl { written = some b }) (some b) n
  Follows-moved b h = record {
    same_block = refl;
    phis = h.phis;
    near = h.near;
    tracked = h.tracked;
    stands = refl;
  }

  pub Follows-last :
      (i : Instruction)
      → is_last i ≡ true
      → targets_exist n i ≡ true
      → spares ks i ≡ true
      → Follows ks w fl o n
      → Follows ks anywhere (flow_of i fl) o n
  Follows-last (br t) l e s h = record {
    same_block = h.same_block;
    phis = h.phis;
    near = below_edges-edge_to n t fl.written fl.edges e h.near;
    tracked = Tracked-edge_to t fl.written ks fl.edges s h.tracked;
    stands = tt;
  }
  Follows-last (cond_br v t u) l e s h = record {
    same_block = h.same_block;
    phis = h.phis;
    near =
        below_edges-edge_to n u fl.written (edge_to fl.written t fl.edges) (ground (arith, e))
          (below_edges-edge_to n t fl.written fl.edges (ground (arith, e)) h.near);
    tracked =
        Tracked-edge_to u fl.written ks (edge_to fl.written t fl.edges) (ground (arith, s))
          (Tracked-edge_to t fl.written ks fl.edges (ground (arith, s)) h.tracked);
    stands = tt;
  }
  Follows-last (phi t vs) l e s h = absurd (ground (arith, l))
  Follows-last _ l e s h = record {
    same_block = h.same_block;
    phis = h.phis;
    near = h.near;
    tracked = h.tracked;
    stands = tt;
  }

pub Follows-same :
    {ks : List Known} {w : Standing} {fl fl' : Flow} {o o' : Option ℕ} {n n' : ℕ}
    → fl' ≡ fl
    → o' ≡ o
    → n' ≡ n
    → Follows ks w fl o n
    → Follows ks w fl' o' n'
Follows-same {ks} {w} {fl} {fl'} {o} {o'} {n} {n'} e f g h =
    subst (λ x. Follows ks w x o' n') (sym e)
      (subst (λ x. Follows ks w fl x n') (sym f) (subst (λ x. Follows ks w fl o x) (sym g) h))

-- A branch to a block whose branches are followed.
pub Follows-leave :
    {m b n : ℕ} {ps : List ℕ} {ks : List Known} {w : Standing} {fl : Flow} {o : Option ℕ}
    → o ≡ some b
    → ltb m n ≡ true
    → spared m ks ≡ true
    → Follows (merging m ps ∷ ks) w fl o n
    → Follows (merging m (b ∷ ps) ∷ ks) anywhere (flow_of (br m) fl) o n
Follows-leave {m} {b} {n} {ps} {ks} {w} {fl} e lt s h = record {
  same_block = h.same_block;
  phis = h.phis;
  near = below_edges-edge_to n m fl.written fl.edges lt h.near;
  tracked = (
    ground (arith, h.same_block, e, h.tracked.0, ==_iff m m),
    Tracked-edge_to m fl.written ks fl.edges s (h.tracked.1),
  );
  stands = tt;
}

pub below-rest : (n : ℕ) (qs ks : List Known) → below n (qs ++ ks) ≡ true → below n ks ≡ true
below-rest n [] ks h = h
below-rest n (known_block b ∷ qs) ks h = below-rest n qs ks (ground (arith, h))
below-rest n (merging b ps ∷ qs) ks h = below-rest n qs ks (ground (arith, h))

pub Tracked-rest : (qs ks : List Known) (es : List (ℕ × ℕ)) → Tracked (qs ++ ks) es → Tracked ks es
Tracked-rest [] ks es h = h
Tracked-rest (known_block b ∷ qs) ks es h = Tracked-rest qs ks es h
Tracked-rest (merging b ps ∷ qs) ks es h = Tracked-rest qs ks es (h.1)
