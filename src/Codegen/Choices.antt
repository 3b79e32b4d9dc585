-- ===== src/Codegen/Choices.antt =====
-- Generation of operators, variables, calls and conditional expressions, by the `codegen` methods of
-- Codegen/Expressions.
use sipc.Prelude.{
  ◌≡◌, refl, ◌∙◌, ℕ, pos, Bool, true, false, ◌==◌, ==_iff, String, Option, none, some, List, [],
  ◌∷◌, str_eq, arith, if◌then◌else◌,
}
use sipc.Codegen.{
  int64, int1, pointer, Value, constant, function_table, type_of, type_given, Names, M, l_value,
  ◌>>=◌, add, sub, mul, sdiv, srem, band, bor, sgt, slt, sge, sle, eq, ne, icmp, load, inbounds_gep,
  call, at_pointer, cond_br, find,
}
use sipc.Codegen.Shape.{all_int64}
use sipc.Codegen.Edges.{Known, known_block, merging, comes_from}
use sipc.Codegen.Rules.{
  Spot, Gives, bind, here, emit_last, open_block, open_merging, leave_and_read, give_phi,
  in_some_block, put_in, write_to, write_in, absent,
}
use sipc.Codegen.Reads.{
  int64-is_null, check_value, with_label, read_flag, read_value, read_function, forget_flag,
  forget_blocks, expect, give,
}
use sipc.Codegen.Expressions.{
  gen_operator, gen_binary, index_value, variable_at, gen_variable, gen_actuals, gen_fun_app,
  gen_ternary,
}
use sipc.Codegen.Values.{IsInt, IsAddress, AllInt, emits, gen_compare_lem, arithmetic_lem}

-- The operators that have an instruction.
abbrev pub has_instruction : String → Bool
has_instruction op =
    if str_eq op "+"
    then true
    else if str_eq op "-"
    then true
    else if str_eq op "*"
    then true
    else if str_eq op "/"
    then true
    else if str_eq op ">"
    then true
    else if str_eq op "<"
    then true
    else if str_eq op ">="
    then true
    else if str_eq op "<="
    then true
    else if str_eq op "=="
    then true
    else if str_eq op "!="
    then true
    else if str_eq op "and"
    then true
    else if str_eq op "or"
    then true
    else str_eq op "%"

abbrev pub is_some : {A : Type 0} → Option A → Bool
is_some none = false
is_some (some a) = true

-- Every local variable has an address.
abbrev pub AllAddresses : Names → Type 0
AllAddresses ns = (x : String) (v : Value) → find x ns.named_values ≡ some v → type_of v ≡ pointer

-- Three new blocks are different.
pub distinct_blocks :
    {A B : Type 0} (t e m : ℕ) (a b : Bool) (k : List (ℕ × Bool))
    → (absent e ((t, a) ∷ k) ≡ true) × A
    → (absent m ((e, b) ∷ (t, a) ∷ k) ≡ true) × B
    → (t == m ≡ false)
      × (t == e ≡ false)
      × (e == m ≡ false)
      × (e == t ≡ false)
      × (m == e ≡ false)
      × (m == t ≡ false)
      × (t == t ≡ true)
      × (e == e ≡ true)
      × (m == m ≡ true)
distinct_blocks t e m a b k he hm = ground (
  arith,
  he.0,
  hm.0,
  ==_iff t m,
  ==_iff t e,
  ==_iff e m,
  ==_iff e t,
  ==_iff m e,
  ==_iff m t,
  ==_iff t t,
  ==_iff e e,
  ==_iff m m,
)

two_incoming :
    (v w : Value) (a b : ℕ) → comes_from ((v, some a) ∷ (w, some b) ∷ []) (b ∷ a ∷ []) ≡ true
two_incoming v w a b = ground (arith, ==_iff a b, ==_iff a a, ==_iff b b, ==_iff b a)

module _ {ns : Names} where
  chosen :
      {p : Spot} {F : Value → Type 0} {q : Value → Spot} (c : Bool) {x y : M Value}
      → Gives ns p x F q
      → (c ≡ false → Gives ns p y F q)
      → Gives ns p (if c then x else y) F q
  chosen true h g = h
  chosen false h g = g refl

  gen_operator_lem :
      (op : String) (l r : Value)
      → has_instruction op ≡ true
      → type_of l ≡ int64
      → type_of r ≡ int64
      → IsInt ns (gen_operator op l r)
  unfolding gen_operator
  gen_operator_lem op l r h hl hr k ks =
      chosen (str_eq op "+") (arithmetic_lem add l r hl hr k ks) λ h1.
        chosen (str_eq op "-") (arithmetic_lem sub l r hl hr k ks) λ h2.
          chosen (str_eq op "*") (arithmetic_lem mul l r hl hr k ks) λ h3.
            chosen (str_eq op "/") (arithmetic_lem sdiv l r hl hr k ks) λ h4.
              chosen (str_eq op ">") (gen_compare_lem sgt l r hl hr k ks) λ h5.
                chosen (str_eq op "<") (gen_compare_lem slt l r hl hr k ks) λ h6.
                  chosen (str_eq op ">=") (gen_compare_lem sge l r hl hr k ks) λ h7.
                    chosen (str_eq op "<=") (gen_compare_lem sle l r hl hr k ks) λ h8.
                      chosen (str_eq op "==") (gen_compare_lem eq l r hl hr k ks) λ h9.
                        chosen (str_eq op "!=") (gen_compare_lem ne l r hl hr k ks) λ h10.
                          chosen (str_eq op "and") (arithmetic_lem band l r hl hr k ks) λ h11.
                            chosen (str_eq op "or") (arithmetic_lem bor l r hl hr k ks) λ h12.
                              chosen (str_eq op "%") (arithmetic_lem srem l r hl hr k ks) λ h13.
                                ground
                                  (arith, h, h1, h2, h3, h4, h5, h6, h7, h8, h9, h10, h11, h12, h13)

  pub gen_binary_lem :
      (op : String) {left right : M Value}
      → has_instruction op ≡ true
      → IsInt ns left
      → IsInt ns right
      → IsInt ns (gen_binary op left right)
  unfolding gen_binary
  gen_binary_lem op h hl hr k ks = bind (hl k ks) λ l tl. bind (hr k ks) λ r tr.
      check_value l _ (int64-is_null l tl)
        λ _. check_value r _ (int64-is_null r tr) λ _. gen_operator_lem op l r h tl tr k ks

  -- The index of a function, and the value of a variable.
  function_index_lem :
      (o : Option ℕ) (x : String) (k : List (ℕ × Bool)) (ks : List Known)
      → is_some o ≡ true
      → Gives ns
          (here k ks (some false))
          (index_value x o)
          (λ v. type_of v ≡ int64)
          (λ v. here k ks (some false))
  unfolding index_value type_of
  function_index_lem (some i) x k ks h = give (constant (pos i)) refl
  function_index_lem none x k ks h = ground (arith, h)

  variable_at_lem :
      (o : Option Value) (x : String) (k : List (ℕ × Bool)) (ks : List Known)
      → ((v : Value) → o ≡ some v → type_of v ≡ pointer)
      → (o ≡ none → is_some (find x ns.function_index) ≡ true)
      → Gives ns
          (here k ks (some false))
          (variable_at x o false)
          (λ v. type_of v ≡ int64)
          (λ v. here k ks (some false))
  unfolding variable_at type_given
  variable_at_lem (some v) x k ks address named =
      emits (load int64 v) int64 refl (ground (arith, address v refl)) refl
  variable_at_lem none x k ks address named =
      read_function x (index_value x) (function_index_lem _ x k ks (named refl))

  pub gen_variable_lem :
      (x : String)
      → AllAddresses ns
      → (find x ns.named_values ≡ none → is_some (find x ns.function_index) ≡ true)
      → IsInt ns (gen_variable x)
  unfolding gen_variable
  gen_variable_lem x addresses named k ks =
      read_value x (λ value. l_value >>= λ b. variable_at x value b)
        (read_flag (λ b. variable_at x (find x ns.named_values) b)
          (variable_at_lem _ x k ks (addresses x) named))

  address_at_lem :
      (o : Option Value) (x : String) (k : List (ℕ × Bool)) (ks : List Known)
      → ((v : Value) → o ≡ some v → type_of v ≡ pointer)
      → is_some o ≡ true
      → Gives ns
          (here k ks (some true))
          (variable_at x o true)
          (λ v. type_of v ≡ pointer)
          (λ v. here k ks none)
  unfolding variable_at
  address_at_lem (some v) x k ks address h = forget_flag (give v (address v refl))
  address_at_lem none x k ks address h = ground (arith, h)

  pub gen_variable-IsAddress :
      (x : String)
      → AllAddresses ns
      → is_some (find x ns.named_values) ≡ true
      → IsAddress ns (gen_variable x)
  unfolding gen_variable
  gen_variable-IsAddress x addresses h k ks =
      read_value x (λ value. l_value >>= λ b. variable_at x value b)
        (read_flag (λ b. variable_at x (find x ns.named_values) b)
          (address_at_lem _ x k ks (addresses x) h))

  gen_actuals_lem :
      (ms : List (M Value)) (k : List (ℕ × Bool)) (ks : List Known)
      → AllInt ns ms
      → Gives ns
          (here k ks (some false))
          (gen_actuals ms)
          (λ vs. all_int64 vs ≡ true)
          (λ vs. here k ks (some false))
  unfolding gen_actuals
  gen_actuals_lem [] k ks h = give [] refl
  gen_actuals_lem (m ∷ ms) k ks h = bind (h.0 k ks) λ v hv.
      check_value v _ (int64-is_null v hv)
        λ _. bind (gen_actuals_lem ms k ks (h.1)) λ vs hvs. give (v ∷ vs) (ground (arith, hv, hvs))

  pub gen_fun_app_lem :
      {function : M Value} (actuals : List (M Value))
      → IsInt ns function
      → AllInt ns actuals
      → IsInt ns (gen_fun_app function actuals)
  unfolding gen_fun_app type_of type_given
  gen_fun_app_lem actuals h hs k ks = bind (h k ks) λ f hf.
      check_value f _ (int64-is_null f hf) λ _.
        bind
          (emits (inbounds_gep function_table (constant (pos 0) ∷ f ∷ [])) pointer refl
            (ground (arith, hf)) refl)
          λ slot hslot.
            bind (emits (load pointer slot) pointer refl (ground (arith, hslot)) refl) λ p hp.
              bind (gen_actuals_lem actuals k ks hs)
                λ vs hvs. emits (call (at_pointer p) vs) int64 refl (ground (arith, hp, hvs)) refl

  pub gen_ternary_lem :
      {c t e : M Value} → IsInt ns c → IsInt ns t → IsInt ns e → IsInt ns (gen_ternary c t e)
  unfolding gen_ternary type_of type_given
  gen_ternary_lem hc ht he k ks = bind (hc k ks) λ c tc. check_value c _ (int64-is_null c tc) λ _.
      bind (emits (icmp ne c (constant (pos 0))) int1 refl (ground (arith, tc)) refl) λ test tt1.
        with_label λ label. bind (open_block "then" (some label) true) λ t ft.
          bind (open_block "else" (some label) false) λ e fe.
            bind (open_merging "ternerymerge" (some label) false) λ m fm.
              let d = distinct_blocks t e m true false k fe fm in
              let known = known_block e ∷ known_block t ∷ ks in
              bind
                (emit_last (cond_br test t e) (ground (arith, tt1)) refl
                  (λ n h. ground (arith, h, d, ft, fe)))
                λ _ _. bind (write_to t ((m, false) ∷ (e, false) ∷ k) (ground (arith, d))) λ _ _.
                  bind (ht ((m, false) ∷ (e, false) ∷ k) (merging m [] ∷ known)) λ v tv.
                    check_value v _ (int64-is_null v tv) λ _. leave_and_read _ (fm.1) λ then_end.
                      bind (put_in e ((m, false) ∷ (e, true) ∷ k) (ground (arith, d))) λ _ _.
                        bind (write_to e ((m, false) ∷ k) (ground (arith, d))) λ _ _.
                          bind (he ((m, false) ∷ k) (merging m (then_end ∷ []) ∷ known)) λ w tw.
                            check_value w _ (int64-is_null w tw) λ _.
                              leave_and_read _ (fm.1) λ else_end.
                                bind (put_in m ((m, true) ∷ k) (ground (arith, d))) λ _ _.
                                  bind (write_in m k (ground (arith, d))) λ _ _.
                                    forget_blocks
                                      (merging m (else_end ∷ then_end ∷ [])
                                        ∷ known_block e
                                        ∷ known_block t
                                        ∷ [])
                                      (in_some_block {b = λ c. m} (
                                        expect
                                          (give_phi (type_of v)
                                            ((v, some then_end) ∷ (w, some else_end) ∷ [])
                                            (ground (arith, tv, tw))
                                            (two_incoming v w then_end else_end))
                                          λ x h. h ∙ tv))
