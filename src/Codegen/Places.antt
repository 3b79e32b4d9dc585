-- ===== src/Codegen/Places.antt =====
-- Generation of the access to a field and of an array's element, by the `codegen` methods of
-- Codegen/Allocations: as a value and as an address.
use sipc.Prelude.{
  ==_iff, ◌∙◌, if◌then◌else◌, ◌≡◌, refl, ℕ, pos, Bool, true, false, ◌==◌, String, Option, none,
  some, List, [], ◌∷◌, arith,
}
use sipc.Codegen.{
  int64, int1, pointer, Value, constant, type_of, type_given, Names, M, pure, find, add, bor, slt,
  sge, tip_error, arithmetic, icmp, int_to_ptr, ptr_to_int, load, gep, struct_gep, call, cond_br,
  unreachable,
}
use sipc.Codegen.Edges.{Known, known_block, merging, inside, spared}
use sipc.Codegen.Rules.{
  Gives, bind, here, in_block, emit_last, open_block, open_merging, leave, give_phi, in_some_block,
  write_to, write_in,
}
use sipc.Codegen.Reads.{
  int64-is_null, check_value, skip, set_flag, read_flag, read_field, forget_flag, forget_blocks,
  expect, give,
}
use sipc.Codegen.Allocations.{
  check_bounds, element_value, indexing_as, gen_indexing, access_at, access_as, gen_access,
}
use sipc.Codegen.Expressions.{reset_l_value}
use sipc.Codegen.Values.{IsInt, IsAddress, emits}
use sipc.Codegen.Choices.{distinct_blocks, is_some}

module _ {ns : Names} where
  access_at_lem :
      (o : Option ℕ) {m : M Value} (b : Bool) (k : List (ℕ × Bool)) (ks : List Known)
      → is_some o ≡ true
      → IsInt ns m
      → Gives ns
          (here k ks (some false))
          (access_at b o m)
          (λ v. type_of v ≡ (if b then pointer else int64))
          (λ v. here k ks (some false))
  unfolding access_at type_of type_given
  access_at_lem none b k ks e h = ground (arith, e)
  access_at_lem (some n) true k ks e h = bind (h k ks) λ v hv.
      bind (emits (int_to_ptr v) pointer refl (ground (arith, hv)) refl) λ p hp.
        bind (emits (struct_gep p n) pointer refl (ground (arith, hp)) refl) λ slot hs. give slot hs
  access_at_lem (some n) false k ks e h = bind (h k ks) λ v hv.
      bind (emits (int_to_ptr v) pointer refl (ground (arith, hv)) refl) λ p hp.
        bind (emits (struct_gep p n) pointer refl (ground (arith, hp)) refl) λ slot hs.
          bind (emits (load int64 slot) int64 refl (ground (arith, hs)) refl)
            λ w hw. emits (ptr_to_int w) int64 refl (ground (arith, hw)) refl

  pub gen_access_lem :
      {m : M Value} (name : String)
      → is_some (find name ns.field_index) ≡ true
      → IsInt ns m
      → IsInt ns (gen_access m name)
  unfolding gen_access access_as reset_l_value
  gen_access_lem {m} name e h k ks =
      read_flag (access_as m name) (
        skip false λ _. read_field name (λ o. access_at false o m) (access_at_lem _ false k ks e h))

  pub gen_access-IsAddress :
      {m : M Value} (name : String)
      → is_some (find name ns.field_index) ≡ true
      → IsInt ns m
      → IsAddress ns (gen_access m name)
  unfolding gen_access access_as reset_l_value
  gen_access-IsAddress {m} name e h k ks = read_flag (access_as m name) (
      set_flag false λ _.
        read_field name (λ o. access_at true o m) (forget_flag (access_at_lem _ true k ks e h)))

  forget_others :
      {k : List (ℕ × Bool)} {ks : List Known} {l : Option Bool} (i o c : ℕ)
      → (c == c ≡ true) × (spared c ks ≡ true)
      → Gives ns {A = ℕ × ℕ}
          (in_block
            (inside i)
            ((c, true) ∷ k)
            (merging c [] ∷ known_block o ∷ known_block i ∷ ks)
            l)
          (pure (i, c))
          (λ bs. (bs.1 == bs.1 ≡ true) × (spared (bs.1) ks ≡ true))
          (λ bs. in_block (inside (bs.0)) ((bs.1, true) ∷ k) (merging (bs.1) [] ∷ ks) l)
  unfolding pure
  forget_others i o c e = record {
    run = λ s at. (
      (i, c),
      s,
      refl,
      e,
      record {
        fits = at.fits;
        fresh = at.fresh;
        exist = ground (arith, at.exist);
        flag = at.flag;
        same_names = at.same_names;
        args_fit = at.args_fit;
        flows = record {
          same_block = at.flows.same_block;
          phis = at.flows.phis;
          near = at.flows.near;
          tracked = at.flows.tracked;
          stands = at.flows.stands;
        };
      },
    );
  }

  -- The blocks in bounds and to go on in; the builder is in the first.
  check_bounds_lem :
      (index size : Value) (l : Option Bool) (k : List (ℕ × Bool)) (ks : List Known)
      → type_of index ≡ int64
      → type_of size ≡ int64
      → Gives ns
          (here k ks l)
          (check_bounds index size)
          (λ bs. (bs.1 == bs.1 ≡ true) × (spared (bs.1) ks ≡ true))
          (λ bs. in_block (inside (bs.0)) ((bs.1, true) ∷ k) (merging (bs.1) [] ∷ ks) l)
  unfolding check_bounds type_of type_given
  check_bounds_lem index size l k ks hi hs =
      bind (emits (icmp slt index (constant (pos 0))) int1 refl (ground (arith, hi)) refl) λ n hn.
        bind (emits (icmp sge index size) int1 refl (ground (arith, hi, hs)) refl) λ g hg.
          bind (emits (arithmetic bor n g) int1 hn (ground (arith, hn, hg)) refl) λ out hout.
            bind (open_block "inBounds" none true) λ i fi.
              bind (open_block "outOfBounds" none true) λ o fo.
                bind (open_merging "continue" none true) λ c fc.
                  let d = distinct_blocks i o c true true k fo fc in
                  bind
                    (emit_last (cond_br out o i) (ground (arith, hout)) refl
                      (λ n h. ground (arith, h)))
                    λ _ _. bind (write_to o ((c, true) ∷ (i, true) ∷ k) (ground (arith, d))) λ _ _.
                      bind (emits (call tip_error (constant (pos 0) ∷ [])) int64 refl refl refl)
                        λ _ _. bind (emit_last unreachable refl refl (λ n h. refl)) λ _ _.
                          bind (write_in i ((c, true) ∷ k) (ground (arith, d)))
                            λ _ _. forget_others i o c (d.8, fc.1)

  element_value_lem :
      (b : Bool) (slot : Value) (i c : ℕ) (l : Option Bool) (k : List (ℕ × Bool)) (ks : List Known)
      → type_of slot ≡ pointer
      → Gives ns
          (in_block (inside c) k (merging c (i ∷ []) ∷ ks) l)
          (element_value b slot i)
          (λ v. type_of v ≡ (if b then pointer else int64))
          (λ v. in_block (inside c) k (merging c (i ∷ []) ∷ ks) l)
  unfolding element_value type_of type_given
  element_value_lem true slot i c l k ks h =
      expect
        (give_phi (type_of slot) ((slot, some i) ∷ []) (ground (arith, h))
          (ground (arith, ==_iff i i)))
        λ v e. e ∙ h
  element_value_lem false slot i c l k ks h =
      emits (load int64 slot) int64 refl (ground (arith, h)) refl

  -- In either way the flag is as it was.
  indexing_as_lem :
      {arr idx : M Value} (b : Bool) (k : List (ℕ × Bool)) (ks : List Known)
      → IsInt ns arr
      → IsInt ns idx
      → Gives ns
          (here k ks (some b))
          (indexing_as arr idx b)
          (λ v. type_of v ≡ (if b then pointer else int64))
          (λ v. here k ks (some b))
  unfolding indexing_as type_of type_given
  indexing_as_lem b k ks ha hi = set_flag false λ _. bind (ha k ks) λ a ta.
      check_value a _ (int64-is_null a ta) λ _.
        bind (emits (int_to_ptr a) pointer refl (ground (arith, ta)) refl) λ p hp.
          bind (emits (load int64 p) int64 refl (ground (arith, hp)) refl) λ size hs.
            bind (hi k ks) λ index ti. set_flag b λ _.
              check_value index _ (int64-is_null index ti) λ _.
                bind (check_bounds_lem index size (some b) k ks ti hs) λ bs hb.
                  bind
                    (emits (arithmetic add index (constant (pos 1))) int64 ti (ground (arith, ti))
                      refl)
                    λ adjusted hadj.
                      bind
                        (emits (gep p (adjusted ∷ [])) pointer refl (ground (arith, hp, hadj)) refl)
                        λ slot hslot. bind (leave (hb.1)) λ _ _.
                          bind (write_in (bs.1) k (ground (arith, hb.0))) λ _ _.
                            forget_blocks (merging (bs.1) (bs.0 ∷ []) ∷ []) (
                              in_some_block {b = λ c. bs.1} (
                                read_flag (λ now. element_value now slot (bs.0))
                                  (element_value_lem b slot (bs.0) (bs.1) (some b) k ks hslot)))

  pub gen_indexing_lem :
      {arr idx : M Value} → IsInt ns arr → IsInt ns idx → IsInt ns (gen_indexing arr idx)
  unfolding gen_indexing
  gen_indexing_lem {arr} {idx} ha hi k ks =
      read_flag (indexing_as arr idx) (indexing_as_lem false k ks ha hi)

  pub gen_indexing-IsAddress :
      {arr idx : M Value} → IsInt ns arr → IsInt ns idx → IsAddress ns (gen_indexing arr idx)
  unfolding gen_indexing
  gen_indexing-IsAddress {arr} {idx} ha hi k ks =
      read_flag (indexing_as arr idx) (forget_flag (indexing_as_lem true k ks ha hi))
