-- ===== src/Codegen/Heap.antt =====
-- Generation of arrays, records and `alloc`, by the `codegen` methods of Codegen/Allocations.
use sipc.Prelude.{◌≡◌, refl, ℕ, suc, pos, Bool, true, false, String, some, List, [], ◌∷◌, arith}
use sipc.Codegen.{
  int64, int1, pointer, Value, constant, type_of, type_given, Names, M, add, sle, calloc, one_int64,
  one_record, one_record_pointer, arithmetic, icmp, ptr_to_int, bit_cast, alloca, load, store,
  inbounds_gep, struct_gep, call, br, cond_br,
}
use sipc.Codegen.Edges.{Known, known_block}
use sipc.Codegen.Rules.{Gives, bind, here, emit, emit_last, open_block, write_to}
use sipc.Codegen.Reads.{
  int64-is_null, check_value, with_label, set_alloc, read_alloc, read_bytes, read_slot,
  forget_blocks, give,
}
use sipc.Codegen.Allocations.{
  gen_alloc, new_array, gen_elements, gen_array, fill_array, gen_array_of, gen_fields, record_in,
  gen_record,
}
use sipc.Codegen.Values.{IsInt, AllInt, AllFields, emits}
use sipc.Codegen.Choices.{distinct_blocks}

module _ {ns : Names} where
  pub gen_alloc_lem :
      {initializer : M Value} → IsInt ns initializer → IsInt ns (gen_alloc initializer)
  unfolding gen_alloc type_of type_given
  gen_alloc_lem h k ks = set_alloc true λ _. bind (h k ks) λ v hv. set_alloc false λ _.
      check_value v _ (int64-is_null v hv) λ _.
        bind (emits (call calloc (constant (pos 1) ∷ constant (pos 8) ∷ [])) pointer refl refl refl)
          λ p hp.
            bind (emit (store v p) (ground (arith, hv, hp)) refl)
              λ _ _. emits (ptr_to_int p) int64 refl (ground (arith, hp)) refl

  new_array_lem :
      (num_items size : Value) (k : List (ℕ × Bool)) (ks : List Known)
      → type_of num_items ≡ int64
      → type_of size ≡ int64
      → Gives ns
          (here k ks (some false))
          (new_array num_items size)
          (λ v. type_of v ≡ pointer)
          (λ v. here k ks (some false))
  unfolding new_array type_of type_given
  new_array_lem num_items size k ks hn hs =
      bind
        (emits (call calloc (num_items ∷ constant (pos 8) ∷ [])) pointer refl (ground (arith, hn))
          refl)
        λ p hp.
          bind (emits (bit_cast p) pointer refl (ground (arith, hp)) refl)
            λ q hq. bind (emit (store size q) (ground (arith, hs, hq)) refl) λ _ _. give q hq

  gen_elements_lem :
      (int64_ptr : Value) (i : ℕ) (ms : List (M Value)) (k : List (ℕ × Bool)) (ks : List Known)
      → type_of int64_ptr ≡ pointer
      → AllInt ns ms
      → Gives ns
          (here k ks (some false))
          (gen_elements int64_ptr i ms)
          (λ v. Unit)
          (λ v. here k ks (some false))
  unfolding gen_elements type_of type_given
  gen_elements_lem p i [] k ks hp h = give p tt
  gen_elements_lem p i (m ∷ ms) k ks hp h = bind (h.0 k ks) λ v hv.
      check_value v _ (int64-is_null v hv) λ _.
        bind
          (emits (inbounds_gep p (constant (pos (suc i)) ∷ [])) pointer refl (ground (arith, hp))
            refl)
          λ slot hslot.
            bind (emit (store v slot) (ground (arith, hv, hslot)) refl)
              λ _ _. gen_elements_lem p (suc i) ms k ks hp (h.1)

  pub gen_array_lem : (ms : List (M Value)) → AllInt ns ms → IsInt ns (gen_array ms)
  unfolding gen_array type_of type_given
  gen_array_lem ms h k ks = bind (new_array_lem _ _ k ks refl refl) λ p hp.
      bind (gen_elements_lem p 0 ms k ks hp h)
        λ _ _. emits (ptr_to_int p) int64 refl (ground (arith, hp)) refl

  fill_array_lem :
      (size p : Value) {element : M Value} (k : List (ℕ × Bool)) (ks : List Known)
      → type_of size ≡ int64
      → type_of p ≡ pointer
      → IsInt ns element
      → Gives ns
          (here k ks (some false))
          (fill_array size p element)
          (λ v. Unit)
          (λ v. here k ks (some false))
  unfolding fill_array type_of type_given
  fill_array_lem size p k ks hs hp he =
      bind (emits (alloca one_int64) pointer refl refl refl) λ index hi.
        bind (emit (store (constant (pos 1)) index) (ground (arith, hi)) refl) λ _ _.
          with_label λ label. bind (open_block "loopcond" (some label) true) λ c fc.
            bind (open_block "loopbody" (some label) true) λ b fb.
              bind (open_block "loopend" (some label) true) λ e fe.
                let d = distinct_blocks c b e true true k fb fe in
                bind (emit_last (br c) refl refl (λ n h. ground (arith, h))) λ _ _.
                  bind (write_to c ((e, true) ∷ (b, true) ∷ k) (ground (arith, d))) λ _ _.
                    bind (emits (load int64 index) int64 refl (ground (arith, hi)) refl)
                      λ current hc.
                        bind (emits (icmp sle current size) int1 refl (ground (arith, hc, hs)) refl)
                          λ test ht.
                            bind
                              (emit_last (cond_br test b e) (ground (arith, ht)) refl
                                (λ n h. ground (arith, h)))
                              λ _ _. bind (write_to b ((e, true) ∷ k) (ground (arith, d))) λ _ _.
                                bind
                                  (he ((e, true) ∷ k)
                                    (known_block e ∷ known_block b ∷ known_block c ∷ ks))
                                  λ v hv. check_value v _ (int64-is_null v hv) λ _.
                                    bind
                                      (emits (inbounds_gep p (current ∷ [])) pointer refl
                                        (ground (arith, hp, hc)) refl)
                                      λ slot hslot.
                                        bind (emit (store v slot) (ground (arith, hv, hslot)) refl)
                                          λ _ _.
                                            bind
                                              (emits (arithmetic add current (constant (pos 1)))
                                                int64 hc (ground (arith, hc)) refl)
                                              λ later hl.
                                                bind
                                                  (emit (store later index) (ground (arith, hl, hi))
                                                    refl)
                                                  λ _ _.
                                                    bind
                                                      (emit_last (br c) refl refl
                                                        (λ n h. ground (arith, h)))
                                                      λ _ _.
                                                        forget_blocks
                                                          (known_block e
                                                            ∷ known_block b
                                                            ∷ known_block c
                                                            ∷ [])
                                                          (write_to e k (ground (arith, d)))

  pub gen_array_of_lem :
      {e1 e2 : M Value} → IsInt ns e1 → IsInt ns e2 → IsInt ns (gen_array_of e1 e2)
  unfolding gen_array_of type_of type_given
  gen_array_of_lem h1 h2 k ks = bind (h1 k ks) λ size hs.
      check_value size _ (int64-is_null size hs) λ _.
        bind (emits (arithmetic add size (constant (pos 1))) int64 hs (ground (arith, hs)) refl)
          λ n hn. bind (new_array_lem n size k ks hn hs) λ p hp.
            bind (fill_array_lem size p k ks hs hp h2)
              λ _ _. emits (ptr_to_int p) int64 refl (ground (arith, hp)) refl

  gen_fields_lem :
      (p : Value) (fs : List (String × M Value)) (k : List (ℕ × Bool)) (ks : List Known)
      → type_of p ≡ pointer
      → AllFields ns fs
      → Gives ns
          (here k ks (some false))
          (gen_fields p fs)
          (λ v. Unit)
          (λ v. here k ks (some false))
  unfolding gen_fields type_of type_given
  gen_fields_lem p [] k ks hp h = give p tt
  gen_fields_lem p ((name, m) ∷ fs) k ks hp h = read_slot name (h.0.0) _ (h.0.1) (
      bind (emits (struct_gep p (h.0.0)) pointer refl (ground (arith, hp)) refl) λ slot hslot.
        bind (h.1 k ks) λ v hv.
          bind (emit (store v slot) (ground (arith, hv, hslot)) refl)
            λ _ _. gen_fields_lem p fs k ks hp (h.2))

  record_in_lem :
      (b : Bool) (fs : List (String × M Value)) → AllFields ns fs → IsInt ns (record_in b fs)
  unfolding record_in type_of type_given
  record_in_lem true fs h k ks =
      bind (emits (alloca one_record_pointer) pointer refl refl refl) λ a ha. read_bytes λ bytes.
        bind
          (emits (call calloc (constant (pos 1) ∷ constant (pos bytes) ∷ [])) pointer refl refl
            refl)
          λ c hc. bind (emit (store c a) (ground (arith, hc, ha)) refl) λ _ _.
            bind (emits (load pointer a) pointer refl (ground (arith, ha)) refl) λ loaded hl.
              bind (gen_fields_lem loaded fs k ks hl h)
                λ _ _. emits (ptr_to_int c) int64 refl (ground (arith, hc)) refl
  record_in_lem false fs h k ks = bind (emits (alloca one_record) pointer refl refl refl) λ a ha.
      bind (gen_fields_lem a fs k ks ha h)
        λ _ _. emits (ptr_to_int a) int64 refl (ground (arith, ha)) refl

  pub gen_record_lem : (fs : List (String × M Value)) → AllFields ns fs → IsInt ns (gen_record fs)
  unfolding gen_record
  gen_record_lem fs h k ks = read_alloc λ b. record_in_lem b fs h k ks
