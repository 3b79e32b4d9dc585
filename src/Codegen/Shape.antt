-- ===== src/Codegen/Shape.antt =====
-- Part of what LLVM asks of the calls that src/codegen/CodeGenFunctions.cpp makes of its builder:
-- operands of the types that the instruction takes, a branch to a block that exists, no
-- instruction outside a block or after the last one of a block, and that each block is put into
-- the function, written once and ended.
use sipc.Prelude.{
  ℕ, zero, suc, Bool, true, false, not, ◌&&◌, ◌||◌, ltb, ◌==◌, Option, none, some, List, [], ◌∷◌,
  if◌then◌else◌,
}
use sipc.Codegen.{
  IrType, int64, int1, pointer, void, Value, type_of, Instruction, arithmetic, neg, icmp, int_cast,
  int_to_ptr, ptr_to_int, bit_cast, alloca, load, store, gep, inbounds_gep, struct_gep, phi, call,
  br, cond_br, ret, unreachable, at_pointer, calloc, tip_output, tip_error, Call, instruction,
  create_block, insert_block, set_insert_point, create_entry, verify_function,
}

-- Written are the blocks to come: their numbers, and whether the function has them.
pub record Shape : Type 0 where
  pub opened : Bool
  pub pending : List (ℕ × Bool)
  pub count : ℕ

abbrev pub same : IrType → IrType → Bool
same int64 int64 = true
same int1 int1 = true
same pointer pointer = true
same void void = true
same _ _ = false

abbrev pub is : IrType → Value → Bool
is t v = same (type_of v) t

abbrev pub all_int64 : List Value → Bool
all_int64 [] = true
all_int64 (v ∷ vs) = is int64 v && all_int64 vs

abbrev pub all_incoming : IrType → List (Value × Option ℕ) → Bool
all_incoming t [] = true
all_incoming t ((v, b) ∷ vs) = is t v && all_incoming t vs

abbrev pub counts : ℕ → List Value → Bool
counts zero [] = true
counts (suc n) (v ∷ vs) = counts n vs
counts _ _ = false

-- A call has as many arguments as the function of the runtime takes; a function that is called by
-- its pointer takes those that it is given.
-- Arithmetic is on integers of one width; `CreatePtrToInt` of an integer gives that integer.
abbrev pub well_typed : Instruction → Bool
well_typed (arithmetic op l r) = (is int64 l && is int64 r) || (is int1 l && is int1 r)
well_typed (neg v) = is int64 v
well_typed (icmp p l r) = is int64 l && is int64 r
well_typed (int_cast v) = is int1 v
well_typed (int_to_ptr v) = is int64 v
well_typed (ptr_to_int v) = is int64 v || is pointer v
well_typed (bit_cast v) = is pointer v
well_typed (alloca r) = true
well_typed (load t p) = is pointer p
well_typed (store v p) = (is int64 v || is pointer v) && is pointer p
well_typed (gep p vs) = is pointer p && all_int64 vs
well_typed (inbounds_gep p vs) = is pointer p && all_int64 vs
well_typed (struct_gep p n) = is pointer p
well_typed (phi t vs) = all_incoming t vs
well_typed (call (at_pointer f) vs) = is pointer f && all_int64 vs
well_typed (call calloc vs) = counts 2 vs && all_int64 vs
well_typed (call tip_output vs) = counts 1 vs && all_int64 vs
well_typed (call tip_error vs) = counts 1 vs && all_int64 vs
well_typed (call _ vs) = counts 0 vs
well_typed (br b) = true
well_typed (cond_br v b c) = is int1 v
well_typed (ret v) = is int64 v
well_typed unreachable = true

abbrev pub is_last : Instruction → Bool
is_last (br b) = true
is_last (cond_br v b c) = true
is_last (ret v) = true
is_last unreachable = true
is_last _ = false

abbrev pub targets_exist : ℕ → Instruction → Bool
targets_exist n (br b) = ltb b n
targets_exist n (cond_br v b c) = ltb b n && ltb c n
targets_exist n _ = true

-- A block of the function is taken to be written, and one that is not yet part of it is put in.
abbrev pub take : ℕ → List (ℕ × Bool) → Option (List (ℕ × Bool))
take b [] = none
take b ((c, attached) ∷ k) =
    if b == c
    then if attached then some k else none
    else elim (take b k) [ none ↦ none | some k' ↦ some ((c, attached) ∷ k') ]

abbrev pub attach : ℕ → List (ℕ × Bool) → Option (List (ℕ × Bool))
attach b [] = none
attach b ((c, attached) ∷ k) =
    if b == c
    then if attached then none else some ((c, true) ∷ k)
    else elim (attach b k) [ none ↦ none | some k' ↦ some ((c, attached) ∷ k') ]

abbrev pub is_empty : List (ℕ × Bool) → Bool
is_empty [] = true
is_empty (b ∷ k) = false

abbrev pub with_pending : Bool → Shape → Option (List (ℕ × Bool)) → Option Shape
with_pending o c none = none
with_pending o c (some k) = some (record c { opened = o; pending = k })

abbrev pub step : Call → Shape → Option Shape
step (instruction i) c =
    if c.opened && (well_typed i && targets_exist c.count i)
    then some (record c { opened = not (is_last i) })
    else none
step (create_block text label attached) c =
    some (record c { pending = (c.count, attached) ∷ c.pending; count = suc c.count })
step (create_entry name) c =
    some (record c { pending = (c.count, true) ∷ c.pending; count = suc c.count })
step (insert_block b) c = with_pending c.opened c (attach b c.pending)
step (set_insert_point b) c = if c.opened then none else with_pending true c (take b c.pending)
step (verify_function name) c = if c.opened || not (is_empty c.pending) then none else some c
step _ c = some c

-- What the calls, the last one first, leave; `none` where one of them is refused.
abbrev pub shape : List Call → Option Shape
shape [] = some (record { opened = false; pending = []; count = 0 })
shape (c ∷ cs) = elim (shape cs) [ none ↦ none | some sh ↦ step c sh ]
