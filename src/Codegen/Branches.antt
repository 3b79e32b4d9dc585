-- ===== src/Codegen/Branches.antt =====
-- Generation of updates, branches, blocks and the other statements, by the `codegen` methods of
-- Codegen/Statements.
use sipc.Prelude.{
  refl, ℕ, pos, Bool, true, false, Option, none, some, List, [], ◌∷◌, arith, if◌then◌else◌,
}
use sipc.Codegen.{
  int64, int1, Value, nullptr, null_pointer, function_table, input_array, argument, result,
  constant, type_of, type_given, Names, M, add, sub, ne, nop, tip_output, tip_error, arithmetic,
  icmp, load, store, call, br, cond_br, ret,
}
use sipc.Codegen.Edges.{Known, known_block}
use sipc.Codegen.Rules.{Gives, bind, here, emit, emit_last, open_block, write_to}
use sipc.Codegen.Reads.{
  int64-is_null, pointer-is_null, check_value, with_label, set_flag, forget_blocks, expect, give,
  checked_value,
}
use sipc.Codegen.Statements.{
  gen_stmts, nop_if_null, gen_block, gen_update, gen_else, gen_if, gen_output, gen_error,
  gen_return,
}
use sipc.Codegen.Values.{IsInt, IsAddress, IsStmt, IsReturn, AllStmt, OptionStmt, emits}
use sipc.Codegen.Choices.{distinct_blocks}
use sipc.Codegen.Flow.{start_lem, start_with_nop_lem}

module _ {ns : Names} where
  pub gen_update_lem : {arg : M Value} (b : Bool) → IsAddress ns arg → IsStmt ns (gen_update arg b)
  unfolding gen_update type_of type_given
  gen_update_lem b h k ks = set_flag true λ _. bind (h k ks) λ v tv. set_flag false λ _.
      check_value v _ (pointer-is_null v tv) λ _.
        bind (emits (load int64 v) int64 refl (ground (arith, tv)) refl) λ loaded tl.
          bind
            (emits (arithmetic (if b then add else sub) loaded (constant (pos 1))) int64 tl
              (ground (arith, tl)) refl)
            λ updated tu.
              bind (emit (store updated v) (ground (arith, tu, tv)) refl)
                λ _ _. give updated (int64-is_null updated tu)

  gen_else_lem : (e : Option (M Value)) → OptionStmt ns e → IsStmt ns (gen_else e)
  unfolding gen_else
  gen_else_lem none h k ks = expect (emit (call nop []) refl refl) λ v h. h.1
  gen_else_lem (some m) h k ks = bind (h k ks) λ v hv. checked_value v _ hv hv

  pub gen_if_lem :
      {c t : M Value} (e : Option (M Value))
      → IsInt ns c
      → IsStmt ns t
      → OptionStmt ns e
      → IsStmt ns (gen_if c t e)
  unfolding gen_if type_of type_given
  gen_if_lem e hc ht he k ks = bind (hc k ks) λ c tc. check_value c _ (int64-is_null c tc) λ _.
      bind (emits (icmp ne c (constant (pos 0))) int1 refl (ground (arith, tc)) refl) λ test htest.
        with_label λ label. bind (open_block "then" (some label) true) λ t ft.
          bind (open_block "else" (some label) false) λ o fo.
            bind (open_block "ifmerge" (some label) false) λ m fm.
              let d = distinct_blocks t o m true false k fo fm in
              bind
                (emit_last (cond_br test t o) (ground (arith, htest)) refl
                  (λ n h. ground (arith, h)))
                λ _ _. bind (write_to t ((m, false) ∷ (o, false) ∷ k) (ground (arith, d))) λ _ _.
                  bind (ht _ _) λ v hv. check_value v _ hv λ _.
                    bind (emit_last (br m) refl refl (λ n h. ground (arith, h))) λ _ _.
                      bind
                        (start_lem o ((m, false) ∷ (o, true) ∷ k) ((m, false) ∷ k)
                          (ground (arith, d)) (ground (arith, d)))
                        λ _ _. bind (gen_else_lem e he _ _) λ _ _.
                          bind (emit_last (br m) refl refl (λ n h. ground (arith, h))) λ _ _.
                            forget_blocks (known_block m ∷ known_block o ∷ known_block t ∷ []) (
                              start_with_nop_lem m ((m, true) ∷ k) k (ground (arith, d))
                                (ground (arith, d)))

  gen_stmts_lem :
      (last : Value) (ms : List (M Value)) (k : List (ℕ × Bool)) (ks : List Known)
      → AllStmt ns ms
      → Gives ns
          (here k ks (some false))
          (gen_stmts last ms)
          (λ v. Unit)
          (λ v. here k ks (some false))
  unfolding gen_stmts
  gen_stmts_lem last [] k ks h = give last tt
  gen_stmts_lem last (m ∷ ms) k ks h = bind (h.0 k ks) λ v hv. gen_stmts_lem v ms k ks (h.1)

  nop_if_null_lem : (v : Value) → IsStmt ns (nop_if_null v)
  unfolding nop_if_null
  nop_if_null_lem nullptr k ks = expect (emit (call nop []) refl refl) λ v h. h.1
  nop_if_null_lem null_pointer k ks = give null_pointer refl
  nop_if_null_lem function_table k ks = give function_table refl
  nop_if_null_lem input_array k ks = give input_array refl
  nop_if_null_lem (constant n) k ks = give (constant n) refl
  nop_if_null_lem (argument n) k ks = give (argument n) refl
  nop_if_null_lem (result t n) k ks = give (result t n) refl

  pub gen_block_lem : (ms : List (M Value)) → AllStmt ns ms → IsStmt ns (gen_block ms)
  unfolding gen_block
  gen_block_lem ms h k ks = bind (gen_stmts_lem nullptr ms k ks h) λ v _. nop_if_null_lem v k ks

  pub gen_output_lem : {arg : M Value} → IsInt ns arg → IsStmt ns (gen_output arg)
  unfolding gen_output
  gen_output_lem h k ks = bind (h k ks) λ v tv.
      check_value v _ (int64-is_null v tv)
        λ _. expect (emit (call tip_output (v ∷ [])) (ground (arith, tv)) refl) λ v h. h.1

  pub gen_error_lem : {arg : M Value} → IsInt ns arg → IsStmt ns (gen_error arg)
  unfolding gen_error
  gen_error_lem h k ks = bind (h k ks) λ v tv.
      check_value v _ (int64-is_null v tv)
        λ _. expect (emit (call tip_error (v ∷ [])) (ground (arith, tv)) refl) λ v h. h.1

  pub gen_return_lem : {arg : M Value} → IsInt ns arg → IsReturn ns (gen_return arg)
  unfolding gen_return
  gen_return_lem h k ks =
      bind (h k ks) λ v tv. emit_last (ret v) (ground (arith, tv)) refl (λ n h. refl)
