-- ===== src/Codegen/Rules.antt =====
-- Rules to prove that a computation of src/codegen/CodeGenFunctions.cpp ends without an error and
-- that its calls are those that Codegen/Shape and Codegen/Edges admit: one for each operation on
-- the state, and one for a sequence.
use sipc.Prelude.{
  Option-cases, ◌≡◌, refl, sym, ap, ◌∙◌, subst, ℕ, suc, Bool, true, false, not, ◌&&◌, ltb, ◌==◌,
  String, Option, none, some, List, [], ◌∷◌, inl, inr, arith,
}
use sipc.Codegen.{
  IrType, pointer, phi, get_insert_block, Value, nullptr, result, type_of, Instruction, type_given,
  br, instruction, entry_alloca, create_block, insert_block, set_insert_point, Names, LlvmFunction,
  find, Generator, ok, M, ◌>>=◌, create, create_entry_block_alloca, new_block, insert, set_insert,
}
use sipc.Codegen.Shape.{well_typed, is_last, targets_exist, take, attach, shape}
use sipc.Codegen.Edges.{
  Flow, flow, Known, known_block, merging, below, spared, spares, Standing, anywhere, somewhere,
  inside, is_special, special-last, flow_of-plain, below-suc, spared-below, comes_from, Follows,
  Follows-block, Follows-merging, Follows-moved, Follows-last, Follows-leave,
}

-- Where generation stands: whether a block is open, the blocks to come, blocks that exist, and the
-- flag for l-values where it is known.
pub record Spot : Type 0 where
  pub opened : Bool
  pub pending : List (ℕ × Bool)
  pub known : List Known
  pub l_flag : Option Bool
  pub standing : Standing

abbrev pub below_pending : ℕ → List (ℕ × Bool) → Bool
below_pending n [] = true
below_pending n ((b, a) ∷ k) = ltb b n && below_pending n k

abbrev pub absent : ℕ → List (ℕ × Bool) → Bool
absent b [] = true
absent b ((c, a) ∷ k) = not (b == c) && absent b k

abbrev pub FlagIs : Option Bool → Bool → Type 0
FlagIs none b = Unit
FlagIs (some x) b = b ≡ x

abbrev pub is_null : Value → Bool
is_null nullptr = true
is_null _ = false

abbrev pub in_block : Standing → List (ℕ × Bool) → List Known → Option Bool → Spot
in_block w k ks l = record { opened = true; pending = k; known = ks; l_flag = l; standing = w }

-- In some block.
abbrev pub here : List (ℕ × Bool) → List Known → Option Bool → Spot
here k ks l = in_block somewhere k ks l

abbrev pub closed : List (ℕ × Bool) → List Known → Option Bool → Spot
closed k ks l = record { opened = false; pending = k; known = ks; l_flag = l; standing = anywhere }

both : (a b : Bool) → a && b ≡ true → (a ≡ true) × (b ≡ true)
both true b h = (refl, h)
both false b h = absurd (ground (arith, h))

pub create_run :
    (i : Instruction) (s : Generator)
    → create i s
      ≡ ok
          (result (type_given i) s.next)
          (record s { calls = instruction i ∷ s.calls; next = suc s.next })
unfolding create
create_run i s = refl

pub entry_run :
    (name : String) (s : Generator)
    → create_entry_block_alloca name s
      ≡ ok
          (result pointer s.next)
          (record s { calls = entry_alloca name ∷ s.calls; next = suc s.next })
unfolding create_entry_block_alloca
entry_run name s = refl

pub block_run :
    (text : String) (label : Option ℕ) (a : Bool) (s : Generator)
    → new_block text label a s
      ≡ ok s.blocks
          (record s { calls = create_block text label a ∷ s.calls; blocks = suc s.blocks })
unfolding new_block
block_run text label a s = refl

insert_run :
    (b : ℕ) (s : Generator) → insert b s ≡ ok b (record s { calls = insert_block b ∷ s.calls })
unfolding insert
insert_run b s = refl

set_insert_run :
    (b : ℕ) (s : Generator)
    → set_insert b s ≡ ok b (record s { calls = set_insert_point b ∷ s.calls; insert_at = some b })
unfolding set_insert
set_insert_run b s = refl

-- A branch has no instruction after it, and others have no target.
not_a_branch : (j : Instruction) → is_last j ≡ false → (n : ℕ) → targets_exist n j ≡ true
not_a_branch (br b) h n = ground (arith, h)
not_a_branch _ h n = ground (arith, h)

ltb-suc : (b n : ℕ) → ltb b n ≡ true → ltb b (suc n) ≡ true
ltb-suc b n h = ground (arith, h)

below_pending-suc :
    (n : ℕ) (k : List (ℕ × Bool)) → below_pending n k ≡ true → below_pending (suc n) k ≡ true
below_pending-suc n [] h = refl
below_pending-suc n ((b, a) ∷ k) h = ground (arith, h, below_pending-suc n k)

absent-blocks : (n : ℕ) (k : List (ℕ × Bool)) → below_pending n k ≡ true → absent n k ≡ true
absent-blocks n [] h = refl
absent-blocks n ((b, a) ∷ k) h = ground (arith, h, absent-blocks n k)

take-below :
    (b n : ℕ) (k k' : List (ℕ × Bool))
    → take b k ≡ some k'
    → below_pending n k ≡ true
    → below_pending n k' ≡ true
take-below b n [] k' e h = ground (arith, e)
take-below b n ((c, a) ∷ k) k' e h = elim (Option-cases (take b k)) [
  | inl eq ↦ ground (arith, e, h, eq)
  | inr (r, eq) ↦ ground (arith, e, h, eq, take-below b n k r eq)
]

attach-below :
    (b n : ℕ) (k k' : List (ℕ × Bool))
    → attach b k ≡ some k'
    → below_pending n k ≡ true
    → below_pending n k' ≡ true
attach-below b n [] k' e h = ground (arith, e)
attach-below b n ((c, a) ∷ k) k' e h = elim (Option-cases (attach b k)) [
  | inl eq ↦ ground (arith, e, h, eq)
  | inr (r, eq) ↦ ground (arith, e, h, eq, attach-below b n k r eq)
]

-- A function of the module that is named like one of the program has its formals as arguments.
abbrev pub Fit : List (String × List String) → List LlvmFunction → Type 0
Fit formals declared =
    (x : String) (xs ys : List String)
    → find x formals ≡ some ys
    → find x declared ≡ some xs
    → xs ≡ ys

module _ (ns : Names) where
  pub record At (p : Spot) (s : Generator) : Type 0 where
    pub fits :
        shape s.calls ≡ some (record { opened = p.opened; pending = p.pending; count = s.blocks })
    pub fresh : below_pending s.blocks p.pending ≡ true
    pub exist : below s.blocks p.known ≡ true
    pub flag : FlagIs p.l_flag s.l_value_gen
    pub same_names : s.names ≡ ns
    pub args_fit : Fit ns.formal_names s.declared
    pub flows : Follows p.known p.standing (flow s.calls) s.insert_at s.blocks

  -- From `p` the computation ends without an error, in `q` of its result, which has `F`.
  pub record Gives {A : Type 0} (p : Spot) (m : M A) (F : A → Type 0) (q : A → Spot) : Type 0 where
    pub run :
        (s : Generator) → At p s → (a : A) × (s' : Generator) × (m s ≡ ok a s') × F a × At (q a) s'

module _ {ns : Names} where
  pub bind :
      {A B : Type 0} {p : Spot} {m : M A} {F : A → Type 0} {q : A → Spot} {f : A → M B}
      {G : B → Type 0} {r : B → Spot}
      → Gives ns p m F q
      → ((a : A) → F a → Gives ns (q a) (f a) G r)
      → Gives ns p (m >>= f) G r
  unfolding ◌>>=◌
  bind {m = m} {f = f} hm hf = record {
    run = λ s at.
        let x = hm.run s at in
        let y = (hf (x.0) (x.3)).run (x.1) (x.4) in (y.0, y.1, ground (arith, x.2, y.2), y.3, y.4);
  }

  module _ {k : List (ℕ × Bool)} {ks : List Known} {l : Option Bool} where
    -- An instruction that is not the last one of its block and no `phi`.
    pub emit :
        {w : Standing} (i : Instruction)
        → well_typed i ≡ true
        → is_special i ≡ false
        → Gives ns
            (in_block w k ks l)
            (create i)
            (λ v. (type_of v ≡ type_given i) × (is_null v ≡ false))
            (λ v. in_block w k ks l)
    unfolding type_of
    emit {w} i typed special = record {
      run = λ s at.
          let last = special-last i special in
          (
            _,
            _,
            create_run i s,
            (refl, refl),
            record {
              fits = ground (arith, at.fits, typed, last, not_a_branch i last s.blocks);
              fresh = at.fresh;
              exist = at.exist;
              flag = at.flag;
              same_names = at.same_names;
              args_fit = at.args_fit;
              flows =
                  subst (λ fl. Follows ks w fl s.insert_at s.blocks)
                    (sym (flow_of-plain i special (flow s.calls))) at.flows;
            },
          );
    }

    -- The last instruction of a block.
    pub emit_last :
        {w : Standing} (i : Instruction)
        → well_typed i ≡ true
        → is_last i ≡ true
        → ((n : ℕ) → below n ks ≡ true → targets_exist n i && spares ks i ≡ true)
        → Gives ns (in_block w k ks l) (create i) (λ v. is_null v ≡ false) (λ v. closed k ks l)
    emit_last i typed last targets = record {
      run = λ s at.
          let t = both (targets_exist s.blocks i) (spares ks i) (targets s.blocks at.exist) in
          (
            _,
            _,
            create_run i s,
            refl,
            record {
              fits = ground (arith, at.fits, typed, last, t.0);
              fresh = at.fresh;
              exist = at.exist;
              flag = at.flag;
              same_names = at.same_names;
              args_fit = at.args_fit;
              flows = Follows-last i last (t.0) (t.1) at.flows;
            },
          );
    }

    -- The branch to a block whose branches are followed, from a block that is known.
    pub leave :
        {b m : ℕ} {ps : List ℕ}
        → spared m ks ≡ true
        → Gives ns
            (in_block (inside b) k (merging m ps ∷ ks) l)
            (create (br m))
            (λ v. is_null v ≡ false)
            (λ v. closed k (merging m (b ∷ ps) ∷ ks) l)
    leave {b} {m} {ps} sp = record {
      run = λ s at. (
        _,
        _,
        create_run (br m) s,
        refl,
        record {
          fits = ground (arith, at.fits, at.exist);
          fresh = at.fresh;
          exist = at.exist;
          flag = at.flag;
          same_names = at.same_names;
          args_fit = at.args_fit;
          flows = Follows-leave at.flows.stands (ground (arith, at.exist)) sp at.flows;
        },
      );
    }

    -- From any block, whose number `GetInsertBlock` then gives.
    pub leave_and_read :
        {A : Type 0} {G : A → Type 0} {r : A → Spot} {m : ℕ} {ps : List ℕ} (f : Option ℕ → M A)
        → spared m ks ≡ true
        → ((b : ℕ) → Gives ns (closed k (merging m (b ∷ ps) ∷ ks) l) (f (some b)) G r)
        → Gives ns
            (here k (merging m ps ∷ ks) l)
            (create (br m) >>= λ v. get_insert_block >>= f)
            G
            r
    unfolding ◌>>=◌ create get_insert_block
    leave_and_read {m = m} {ps = ps} f sp hf = record {
      run = λ s at.
          let in_some = at.flows.stands in
          let left = record s { calls = instruction (br m) ∷ s.calls; next = suc s.next } in
          let x = (hf (in_some.0)).run left (record {
            fits = ground (arith, at.fits, at.exist);
            fresh = at.fresh;
            exist = at.exist;
            flag = at.flag;
            same_names = at.same_names;
            args_fit = at.args_fit;
            flows = Follows-leave (in_some.1) (ground (arith, at.exist)) sp at.flows;
          }) in
          (x.0, x.1, ap (λ o. f o left) (in_some.1) ∙ x.2, x.3, x.4);
    }

    -- A value for each branch to the block.
    pub give_phi :
        {m : ℕ} {ps : List ℕ} (t : IrType) (vs : List (Value × Option ℕ))
        → well_typed (phi t vs) ≡ true
        → comes_from vs ps ≡ true
        → Gives ns
            (in_block (inside m) k (merging m ps ∷ ks) l)
            (create (phi t vs))
            (λ v. type_of v ≡ t)
            (λ v. in_block (inside m) k (merging m ps ∷ ks) l)
    unfolding type_of type_given
    give_phi {m} {ps} t vs typed from = record {
      run = λ s at. (
        _,
        _,
        create_run (phi t vs) s,
        refl,
        record {
          fits = ground (arith, at.fits, typed);
          fresh = at.fresh;
          exist = at.exist;
          flag = at.flag;
          same_names = at.same_names;
          args_fit = at.args_fit;
          flows = record {
            same_block = at.flows.same_block;
            phis = ground (
              arith, at.flows.phis, at.flows.same_block, at.flows.stands, at.flows.tracked.0, from,
            );
            near = at.flows.near;
            tracked = at.flows.tracked;
            stands = at.flows.stands;
          };
        },
      );
    }

    module _ {w : Standing} {o : Bool} (text : String) (label : Option ℕ) (a : Bool) where
      -- A new block, whose branches are followed or not.
      open_as :
          (known : ℕ → Known)
          → ((n : ℕ) → below n ks ≡ true → below (suc n) (known n ∷ ks) ≡ true)
          → ((fl : Flow) (x : Option ℕ) (n : ℕ)
              → Follows ks w fl x n
              → Follows (known n ∷ ks) w fl x (suc n))
          → Gives ns
              (record { opened = o; pending = k; known = ks; l_flag = l; standing = w })
              (new_block text label a)
              (λ b. (absent b k ≡ true) × (spared b ks ≡ true))
              (λ b. record {
                opened = o;
                pending = (b, a) ∷ k;
                known = known b ∷ ks;
                l_flag = l;
                standing = w;
              })
      open_as known made followed = record {
        run = λ s at. (
          _,
          _,
          block_run text label a s,
          (absent-blocks s.blocks k at.fresh, spared-below s.blocks ks at.exist),
          record {
            fits = ground (arith, at.fits);
            fresh = ground (arith, below_pending-suc s.blocks k at.fresh);
            exist = made s.blocks at.exist;
            flag = at.flag;
            same_names = at.same_names;
            args_fit = at.args_fit;
            flows = followed (flow s.calls) s.insert_at s.blocks at.flows;
          },
        );
      }

      pub open_block :
          Gives ns
            (record { opened = o; pending = k; known = ks; l_flag = l; standing = w })
            (new_block text label a)
            (λ b. (absent b k ≡ true) × (spared b ks ≡ true))
            (λ b. record {
              opened = o;
              pending = (b, a) ∷ k;
              known = known_block b ∷ ks;
              l_flag = l;
              standing = w;
            })
      open_block =
          open_as known_block (λ n h. ground (arith, below-suc n ks h))
            (λ fl x n h. Follows-block h)

      pub open_merging :
          Gives ns
            (record { opened = o; pending = k; known = ks; l_flag = l; standing = w })
            (new_block text label a)
            (λ b. (absent b k ≡ true) × (spared b ks ≡ true))
            (λ b. record {
              opened = o;
              pending = (b, a) ∷ k;
              known = merging b [] ∷ ks;
              l_flag = l;
              standing = w;
            })
      open_merging =
          open_as (λ b. merging b []) (λ n h. ground (arith, below-suc n ks h))
            (λ fl x n h. Follows-merging h)

    pub put_in :
        (b : ℕ) (k' : List (ℕ × Bool))
        → attach b k ≡ some k'
        → Gives ns (closed k ks l) (insert b) (λ c. Unit) (λ c. closed k' ks l)
    put_in b k' e = record {
      run = λ s at. (
        _,
        _,
        insert_run b s,
        tt,
        record {
          fits = ground (arith, at.fits, e);
          fresh = attach-below b s.blocks k k' e at.fresh;
          exist = at.exist;
          flag = at.flag;
          same_names = at.same_names;
          args_fit = at.args_fit;
          flows = at.flows;
        },
      );
    }

    pub write_in :
        (b : ℕ) (k' : List (ℕ × Bool))
        → take b k ≡ some k'
        → Gives ns (closed k ks l) (set_insert b) (λ c. Unit) (λ c. in_block (inside b) k' ks l)
    write_in b k' e = record {
      run = λ s at. (
        _,
        _,
        set_insert_run b s,
        tt,
        record {
          fits = ground (arith, at.fits, e);
          fresh = take-below b s.blocks k k' e at.fresh;
          exist = at.exist;
          flag = at.flag;
          same_names = at.same_names;
          args_fit = at.args_fit;
          flows = Follows-moved b at.flows;
        },
      );
    }

  -- The block that the builder is in is forgotten.
  pub in_some_block :
      {A : Type 0} {p : Spot} {m : M A} {F : A → Type 0} {b : A → ℕ} {k : A → List (ℕ × Bool)}
      {ks : A → List Known} {l : Option Bool}
      → Gives ns p m F (λ a. in_block (inside (b a)) (k a) (ks a) l)
      → Gives ns p m F (λ a. here (k a) (ks a) l)
  in_some_block h = record {
    run = λ s at.
        let x = h.run s at in
        let old = x.4.flows in
        (
          x.0,
          x.1,
          x.2,
          x.3,
          record {
            fits = x.4.fits;
            fresh = x.4.fresh;
            exist = x.4.exist;
            flag = x.4.flag;
            same_names = x.4.same_names;
            args_fit = x.4.args_fit;
            flows = record {
              same_block = old.same_block;
              phis = old.phis;
              near = old.near;
              tracked = old.tracked;
              stands = (_, old.stands);
            };
          },
        );
  }

  pub write_to :
      {k : List (ℕ × Bool)} {ks : List Known} {l : Option Bool} (b : ℕ) (k' : List (ℕ × Bool))
      → take b k ≡ some k'
      → Gives ns (closed k ks l) (set_insert b) (λ c. Unit) (λ c. here k' ks l)
  write_to b k' e = in_some_block {b = λ c. b} (write_in b k' e)
