-- ===== src/Codegen/Flow.antt =====
-- Generation of loops and of assignments, by the `codegen` methods of Codegen/Loops and
-- Codegen/Statements.
use sipc.Prelude.{
  ◌&&◌, ◌≡◌, refl, ℕ, pos, Bool, true, false, Option, none, some, List, [], ◌∷◌, arith,
}
use sipc.Codegen.{
  int64, int1, pointer, Value, constant, type_of, type_given, Names, M, add, slt, sle, ne, nop,
  one_int64, arithmetic, icmp, int_to_ptr, alloca, load, store, gep, call, br, cond_br,
}
use sipc.Codegen.Shape.{take, attach}
use sipc.Codegen.Edges.{Known, known_block, spared}
use sipc.Codegen.Rules.{
  Gives, bind, here, closed, emit, emit_last, is_null, open_block, put_in, write_to,
}
use sipc.Codegen.Reads.{
  int64-is_null, pointer-is_null, check_value, with_label, set_flag, forget_blocks, expect, give,
  give_as, checked_value,
}
use sipc.Codegen.Loops.{
  loop_blocks, start, start_with_nop, gen_while, gen_increment, range_loop, gen_item, gen_for_range,
  index_loop, gen_for_each,
}
use sipc.Codegen.Statements.{gen_assign}
use sipc.Codegen.Values.{IsInt, IsAddress, IsStmt, OptionInt, emits}
use sipc.Codegen.Choices.{distinct_blocks}

abbrev Blocks : List (ℕ × Bool) → List Known → ℕ × ℕ × ℕ → Type 0
Blocks k ks bs =
    (attach (bs.1) ((bs.2, false) ∷ (bs.1, false) ∷ k) ≡ some ((bs.2, false) ∷ (bs.1, true) ∷ k))
    × (take (bs.1) ((bs.2, false) ∷ (bs.1, true) ∷ k) ≡ some ((bs.2, false) ∷ k))
    × (attach (bs.2) ((bs.2, false) ∷ k) ≡ some ((bs.2, true) ∷ k))
    × (take (bs.2) ((bs.2, true) ∷ k) ≡ some k)
    × (take (bs.0) ((bs.2, false) ∷ (bs.1, false) ∷ (bs.0, true) ∷ k)
        ≡ some ((bs.2, false) ∷ (bs.1, false) ∷ k))
    × (spared (bs.0) ks && (spared (bs.1) ks && spared (bs.2) ks) ≡ true)

module _ {ns : Names} where
  pub start_lem :
      {k : List (ℕ × Bool)} {ks : List Known} {l : Option Bool} (b : ℕ) (k1 k2 : List (ℕ × Bool))
      → attach b k ≡ some k1
      → take b k1 ≡ some k2
      → Gives ns (closed k ks l) (start b) (λ c. Unit) (λ c. here k2 ks l)
  unfolding start
  start_lem b k1 k2 e f = bind (put_in b k1 e) λ _ _. write_to b k2 f

  pub start_with_nop_lem :
      {k : List (ℕ × Bool)} {ks : List Known} {l : Option Bool} (b : ℕ) (k1 k2 : List (ℕ × Bool))
      → attach b k ≡ some k1
      → take b k1 ≡ some k2
      → Gives ns (closed k ks l) (start_with_nop b) (λ v. is_null v ≡ false) (λ v. here k2 ks l)
  unfolding start_with_nop
  start_with_nop_lem b k1 k2 e f =
      bind (start_lem b k1 k2 e f) λ _ _. expect (emit (call nop []) refl refl) λ v h. h.1

  loop_blocks_lem :
      (k : List (ℕ × Bool)) (ks : List Known) (l : Option Bool)
      → Gives ns
          (here k ks l)
          loop_blocks
          (λ bs. Blocks k ks bs)
          (λ bs.
            here
              ((bs.2, false) ∷ (bs.1, false) ∷ (bs.0, true) ∷ k)
              (known_block (bs.2) ∷ known_block (bs.1) ∷ known_block (bs.0) ∷ ks)
              l)
  unfolding loop_blocks
  loop_blocks_lem k ks l = with_label λ label. bind (open_block "header" (some label) true) λ h fh.
      bind (open_block "body" (some label) false) λ b fb.
        bind (open_block "exit" (some label) false) λ x fx.
          let d = distinct_blocks h b x true false k fb fx in
          give_as
            (λ bs.
              here ((bs.2, false) ∷ (bs.1, false) ∷ (bs.0, true) ∷ k)
                (known_block (bs.2) ∷ known_block (bs.1) ∷ known_block (bs.0) ∷ ks) l)
            (h, b, x)
            (
              ground (arith, d),
              ground (arith, d),
              ground (arith, d),
              ground (arith, d),
              ground (arith, d),
              ground (arith, fh, fb, fx),
            )

  pub gen_while_lem :
      {c body : M Value} → IsInt ns c → IsStmt ns body → IsStmt ns (gen_while c body)
  unfolding gen_while type_of type_given
  gen_while_lem hc hb k ks = bind (loop_blocks_lem k ks (some false)) λ bs d.
      bind (emit_last (br (bs.0)) refl refl (λ n h. ground (arith, h))) λ _ _.
        bind (write_to (bs.0) _ (d.4)) λ _ _. bind (hc _ _) λ c tc.
          check_value c _ (int64-is_null c tc) λ _.
            bind (emits (icmp ne c (constant (pos 0))) int1 refl (ground (arith, tc)) refl)
              λ test ht.
                bind
                  (emit_last (cond_br test (bs.1) (bs.2)) (ground (arith, ht)) refl
                    (λ n h. ground (arith, h)))
                  λ _ _. bind (start_lem (bs.1) _ _ (d.0) (d.1)) λ _ _. bind (hb _ _) λ v hv.
                    check_value v _ hv λ _.
                      bind (emit_last (br (bs.0)) refl refl (λ n h. ground (arith, h))) λ _ _.
                        forget_blocks
                          (known_block (bs.2) ∷ known_block (bs.1) ∷ known_block (bs.0) ∷ [])
                          (start_with_nop_lem (bs.2) _ _ (d.2) (d.3))

  gen_item_lem :
      {item : M Value} (k : List (ℕ × Bool)) (ks : List Known)
      → IsAddress ns item
      → Gives ns
          (here k ks (some false))
          (gen_item item)
          (λ v. type_of v ≡ pointer)
          (λ v. here k ks (some false))
  unfolding gen_item
  gen_item_lem k ks h =
      set_flag true
        λ _. bind (h k ks) λ v hv. set_flag false λ _. checked_value v _ (pointer-is_null v hv) hv

  gen_increment_lem : (i : Option (M Value)) → OptionInt ns i → IsInt ns (gen_increment i)
  unfolding gen_increment type_of
  gen_increment_lem none h k ks = give _ refl
  gen_increment_lem (some m) h k ks =
      bind (h k ks) λ v hv. checked_value v _ (int64-is_null v hv) hv

  pub gen_assign_lem : {l r : M Value} → IsAddress ns l → IsInt ns r → IsStmt ns (gen_assign l r)
  unfolding gen_assign type_given
  gen_assign_lem hl hr k ks = set_flag true λ _. bind (hl k ks) λ l tl. set_flag false λ _.
      check_value l _ (pointer-is_null l tl) λ _. bind (hr k ks) λ r tr.
        check_value r _ (int64-is_null r tr)
          λ _. expect (emit (store r l) (ground (arith, tl, tr)) refl) λ v h. h.1

  pub gen_for_range_lem :
      {x a b body : M Value} (i : Option (M Value))
      → IsAddress ns x
      → IsInt ns a
      → IsInt ns b
      → OptionInt ns i
      → IsStmt ns body
      → IsStmt ns (gen_for_range x a b i body)
  unfolding gen_for_range range_loop type_given
  gen_for_range_lem i hx ha hb hi hbody k ks = bind (loop_blocks_lem k ks (some false)) λ bs d.
      bind (gen_item_lem _ _ hx) λ item ti. bind (ha _ _) λ first tf.
        check_value first _ (int64-is_null first tf) λ _. bind (hb _ _) λ stop ts.
          check_value stop _ (int64-is_null stop ts) λ _.
            bind (gen_increment_lem i hi _ _) λ by_one tb.
              bind (emit (store first item) (ground (arith, ti, tf)) refl) λ _ _.
                bind (emit_last (br (bs.0)) refl refl (λ n h. ground (arith, h))) λ _ _.
                  bind (write_to (bs.0) _ (d.4)) λ _ _.
                    bind (emits (load int64 item) int64 refl (ground (arith, ti)) refl)
                      λ current tc.
                        bind (emits (icmp slt current stop) int1 refl (ground (arith, tc, ts)) refl)
                          λ test ht.
                            bind
                              (emit_last (cond_br test (bs.1) (bs.2)) (ground (arith, ht)) refl
                                (λ n h. ground (arith, h)))
                              λ _ _. bind (start_lem (bs.1) _ _ (d.0) (d.1)) λ _ _.
                                bind (hbody _ _) λ v hv. check_value v _ hv λ _.
                                  bind
                                    (emits (load int64 item) int64 refl (ground (arith, ti)) refl)
                                    λ reached tr.
                                      bind
                                        (emits (arithmetic add reached by_one) int64 tr
                                          (ground (arith, tr, tb)) refl)
                                        λ later tl.
                                          bind
                                            (emit (store later item) (ground (arith, tl, ti)) refl)
                                            λ _ _.
                                              bind
                                                (emit_last (br (bs.0)) refl refl
                                                  (λ n h. ground (arith, h)))
                                                λ _ _.
                                                  forget_blocks
                                                    (known_block (bs.2)
                                                      ∷ known_block (bs.1)
                                                      ∷ known_block (bs.0)
                                                      ∷ [])
                                                    (start_with_nop_lem (bs.2) _ _ (d.2) (d.3))

  pub gen_for_each_lem :
      {x e body : M Value}
      → IsAddress ns x
      → IsInt ns e
      → IsStmt ns body
      → IsStmt ns (gen_for_each x e body)
  unfolding gen_for_each index_loop type_of type_given
  gen_for_each_lem hx he hbody k ks = bind (loop_blocks_lem k ks (some false)) λ bs d.
      bind (gen_item_lem _ _ hx) λ item ti. bind (he _ _) λ e te.
        check_value e _ (int64-is_null e te) λ _.
          bind (emits (alloca one_int64) pointer refl refl refl) λ index tx.
            bind (emit (store (constant (pos 1)) index) (ground (arith, tx)) refl) λ _ _.
              bind (emits (int_to_ptr e) pointer refl (ground (arith, te)) refl) λ p tp.
                bind (emits (load int64 p) int64 refl (ground (arith, tp)) refl) λ size ts.
                  bind (emit_last (br (bs.0)) refl refl (λ n h. ground (arith, h))) λ _ _.
                    bind (write_to (bs.0) _ (d.4)) λ _ _.
                      bind (emits (load int64 index) int64 refl (ground (arith, tx)) refl)
                        λ current tc.
                          bind
                            (emits (icmp sle current size) int1 refl (ground (arith, tc, ts)) refl)
                            λ test ht.
                              bind
                                (emit_last (cond_br test (bs.1) (bs.2)) (ground (arith, ht)) refl
                                  (λ n h. ground (arith, h)))
                                λ _ _. bind (start_lem (bs.1) _ _ (d.0) (d.1)) λ _ _.
                                  bind
                                    (emits (load int64 index) int64 refl (ground (arith, tx)) refl)
                                    λ now tn.
                                      bind
                                        (emits (gep p (now ∷ [])) pointer refl
                                          (ground (arith, tp, tn)) refl)
                                        λ slot tslot.
                                          bind
                                            (emits (load int64 slot) int64 refl
                                              (ground (arith, tslot)) refl)
                                            λ element tel.
                                              bind
                                                (emit (store element item) (ground (arith, tel, ti))
                                                  refl)
                                                λ _ _. bind (hbody _ _) λ v hv.
                                                  check_value v _ hv λ _.
                                                    bind
                                                      (emits (arithmetic add now (constant (pos 1)))
                                                        int64 tn (ground (arith, tn)) refl)
                                                      λ later tl.
                                                        bind
                                                          (emit (store later index)
                                                            (ground (arith, tl, tx)) refl)
                                                          λ _ _.
                                                            bind
                                                            (emit_last (br (bs.0)) refl refl
                                                            (λ n h. ground (arith, h)))
                                                            λ _ _.
                                                            forget_blocks
                                                            (known_block (bs.2)
                                                            ∷ known_block (bs.1)
                                                            ∷ known_block (bs.0)
                                                            ∷ [])
                                                            (start_with_nop_lem (bs.2) _ _ (d.2)
                                                            (d.3))
