-- ===== src/Codegen/Values.antt =====
-- What the generation of an expression promises, and that the `codegen` methods of
-- Codegen/Expressions keep the promise if those of the children do.
use sipc.Prelude.{
  ◌≡◌, refl, ◌∙◌, ℤ, pos, ℕ, Bool, true, false, String, Option, none, some, List, [], ◌∷◌, arith,
}
use sipc.Codegen.{
  find, IrType, int64, int1, pointer, Value, type_of, Instruction, type_given, Names, M, neg,
  arithmetic, xor, constant, Opcode, Predicate, icmp, int_cast, int_to_ptr, ptr_to_int, load, call,
  tip_input, null_pointer, create,
}
use sipc.Codegen.Shape.{well_typed}
use sipc.Codegen.Edges.{Known, Standing, is_special}
use sipc.Codegen.Rules.{Gives, bind, here, in_block, closed, emit, is_null}
use sipc.Codegen.Reads.{
  int64-is_null, pointer-is_null, check_value, skip, set_flag, read_flag, forget_flag, expect, give,
}
use sipc.Codegen.Expressions.{
  gen_not, gen_neg, gen_array_len, gen_deref, deref_as, gen_ref, reset_l_value, load_unless,
  gen_number, gen_bool, gen_compare, gen_input, gen_null,
}

module _ (ns : Names) where
  -- An integer, where no l-value is asked for; and an address, where one is.
  abbrev pub IsInt : M Value → Type 0
  IsInt m =
      (k : List (ℕ × Bool)) (ks : List Known)
      → Gives ns (here k ks (some false)) m (λ v. type_of v ≡ int64) (λ v. here k ks (some false))

  abbrev pub IsAddress : M Value → Type 0
  IsAddress m =
      (k : List (ℕ × Bool)) (ks : List Known)
      → Gives ns (here k ks (some true)) m (λ v. type_of v ≡ pointer) (λ v. here k ks none)

  abbrev pub IsStmt : M Value → Type 0
  IsStmt m =
      (k : List (ℕ × Bool)) (ks : List Known)
      → Gives ns (here k ks (some false)) m (λ v. is_null v ≡ false) (λ v. here k ks (some false))

  -- A `return` ends the block.
  abbrev pub IsReturn : M Value → Type 0
  IsReturn m =
      (k : List (ℕ × Bool)) (ks : List Known)
      → Gives ns (here k ks (some false)) m (λ v. is_null v ≡ false) (λ v. closed k ks (some false))

  abbrev pub AllInt : List (M Value) → Type 0
  AllInt [] = Unit
  AllInt (m ∷ ms) = IsInt m × AllInt ms

  abbrev pub OptionInt : Option (M Value) → Type 0
  OptionInt none = Unit
  OptionInt (some m) = IsInt m

  abbrev pub AllStmt : List (M Value) → Type 0
  AllStmt [] = Unit
  AllStmt (m ∷ ms) = IsStmt m × AllStmt ms

  abbrev pub OptionStmt : Option (M Value) → Type 0
  OptionStmt none = Unit
  OptionStmt (some m) = IsStmt m

  -- The initializers of fields that have an index.
  abbrev pub AllFields : List (String × M Value) → Type 0
  AllFields [] = Unit
  AllFields ((name, m) ∷ fields) =
      ((n : ℕ) × (find name ns.field_index ≡ some n)) × IsInt m × AllFields fields

module _ {ns : Names} {w : Standing} {k : List (ℕ × Bool)} {ks : List Known} {l : Option Bool} where
  -- An instruction that is not the last one of its block, by the type of what it gives.
  pub emits :
      (i : Instruction) (t : IrType)
      → type_given i ≡ t
      → well_typed i ≡ true
      → is_special i ≡ false
      → Gives ns (in_block w k ks l) (create i) (λ v. type_of v ≡ t) (λ v. in_block w k ks l)
  emits i t e typed last = expect (emit i typed last) λ v h. h.0 ∙ e

module _ {ns : Names} where
  pub gen_number_lem : (n : ℤ) → IsInt ns (gen_number n)
  unfolding gen_number type_of
  gen_number_lem n k ks = give _ refl

  pub gen_bool_lem : (b : Bool) → IsInt ns (gen_bool b)
  unfolding gen_bool type_of
  gen_bool_lem b k ks = give _ refl

  pub gen_compare_lem :
      (p : Predicate) (l r : Value)
      → type_of l ≡ int64
      → type_of r ≡ int64
      → IsInt ns (gen_compare p l r)
  unfolding gen_compare type_given
  gen_compare_lem p l r hl hr k ks =
      bind (emits (icmp p l r) int1 refl (ground (arith, hl, hr)) refl)
        λ cmp h. emits (int_cast cmp) int64 refl (ground (arith, h)) refl

  pub arithmetic_lem :
      (op : Opcode) (l r : Value)
      → type_of l ≡ int64
      → type_of r ≡ int64
      → IsInt ns (create (arithmetic op l r))
  unfolding type_given
  arithmetic_lem op l r hl hr k ks =
      emits (arithmetic op l r) int64 hl (ground (arith, hl, hr)) refl

  pub gen_not_lem : {arg : M Value} → IsInt ns arg → IsInt ns (gen_not arg)
  unfolding gen_not type_of
  gen_not_lem h k ks = bind (h k ks) λ v hv.
      check_value v _ (int64-is_null v hv)
        λ _. (arithmetic_lem xor v (constant (pos 1)) hv refl k ks)

  pub gen_neg_lem : {arg : M Value} → IsInt ns arg → IsInt ns (gen_neg arg)
  unfolding gen_neg type_given
  gen_neg_lem h k ks = bind (h k ks) λ v hv.
      check_value v _ (int64-is_null v hv) λ _. (emits (neg v) int64 hv (ground (arith, hv)) refl)

  pub gen_array_len_lem : {ptr : M Value} → IsInt ns ptr → IsInt ns (gen_array_len ptr)
  unfolding gen_array_len type_given
  gen_array_len_lem h k ks = bind (h k ks) λ v hv. check_value v _ (int64-is_null v hv) λ _.
      (bind (emits (int_to_ptr v) pointer refl (ground (arith, hv)) refl)
        λ p hp. emits (load int64 p) int64 refl (ground (arith, hp)) refl)

  pub gen_input_lem : IsInt ns gen_input
  unfolding gen_input type_given
  gen_input_lem k ks = emits (call tip_input []) int64 refl refl refl

  pub gen_null_lem : IsInt ns gen_null
  unfolding gen_null type_given type_of
  gen_null_lem k ks = emits (ptr_to_int null_pointer) int64 refl refl refl

  pub gen_ref_lem : {var : M Value} → IsAddress ns var → IsInt ns (gen_ref var)
  unfolding gen_ref type_given
  gen_ref_lem h k ks = set_flag true λ _.
      (bind (h k ks) λ v hv. set_flag false λ _.
        (check_value v _ (pointer-is_null v hv)
          λ _. (emits (ptr_to_int v) int64 refl (ground (arith, hv)) refl)))

  pub gen_deref_lem : {ptr : M Value} → IsInt ns ptr → IsInt ns (gen_deref ptr)
  unfolding gen_deref deref_as type_given reset_l_value load_unless
  gen_deref_lem {ptr} h k ks = read_flag (deref_as ptr) (
      skip false λ b. bind (h k ks) λ v hv. check_value v _ (int64-is_null v hv) λ _.
        (bind (emits (int_to_ptr v) pointer refl (ground (arith, hv)) refl)
          λ p hp. emits (load int64 p) int64 refl (ground (arith, hp)) refl))

  pub gen_deref-IsAddress : {ptr : M Value} → IsInt ns ptr → IsAddress ns (gen_deref ptr)
  unfolding gen_deref deref_as type_given reset_l_value load_unless
  gen_deref-IsAddress {ptr} h k ks = read_flag (deref_as ptr) (
      set_flag false λ _.
        (bind (h k ks) λ v hv. check_value v _ (int64-is_null v hv) λ _.
          (bind (emits (int_to_ptr v) pointer refl (ground (arith, hv)) refl)
            λ p hp. forget_flag (give p hp))))
