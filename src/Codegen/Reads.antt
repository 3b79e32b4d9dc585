-- ===== src/Codegen/Reads.antt =====
-- Rules for the operations of src/codegen/CodeGenFunctions.cpp that make no call: the tests for a
-- null pointer, the flags, the label and the maps of names; and rules to weaken what is known.
use sipc.Prelude.{
  ◌++◌, ◌≡◌, refl, sym, subst, ℕ, suc, Bool, false, String, Option, none, some, List, arith,
}
use sipc.Codegen.{
  int64, pointer, Value, nullptr, type_of, Names, Generator, Result, ok, M, pure, ◌>>=◌,
  get_insert_block, next_label, l_value, set_l_value, allocating, set_allocating, not_null, find,
  find_value, find_function, find_field, field_slot, record_bytes,
}
use sipc.Codegen.Edges.{Known, Standing, below-rest, Tracked-rest}
use sipc.Codegen.Rules.{in_block, Spot, is_null, At, Gives, here}

-- What each of them gives.
pub null_run :
    (v : Value) (text : String) (s : Generator) → is_null v ≡ false → not_null v text s ≡ ok v s
unfolding not_null
null_run nullptr text s h = ground (arith, h)
null_run _ text s h = refl

label_run :
    (s : Generator) → next_label s ≡ ok (suc s.label_num) (record s { label_num = suc s.label_num })
unfolding next_label
label_run s = refl

flag_run : (b : Bool) (s : Generator) → set_l_value b s ≡ ok b (record s { l_value_gen = b })
unfolding set_l_value
flag_run b s = refl

alloc_run : (b : Bool) (s : Generator) → set_allocating b s ≡ ok b (record s { alloc_flag = b })
unfolding set_allocating
alloc_run b s = refl

reads_run :
    (s : Generator)
    → (l_value s ≡ ok s.l_value_gen s)
      × (allocating s ≡ ok s.alloc_flag s)
      × (get_insert_block s ≡ ok s.insert_at s)
      × (record_bytes s ≡ ok s.record_size s)
unfolding l_value allocating get_insert_block record_bytes
reads_run s = (refl, refl, refl, refl)

names_run :
    (name : String) (s : Generator)
    → (find_value name s ≡ ok (find name s.names.named_values) s)
      × (find_function name s ≡ ok (find name s.names.function_index) s)
      × (find_field name s ≡ ok (find name s.names.field_index) s)
unfolding find_value find_function find_field
names_run name s = (refl, refl, refl)

slot_run :
    (name : String) (s : Generator) (n : ℕ)
    → find name s.names.field_index ≡ some n
    → field_slot name s ≡ ok n s
unfolding field_slot
slot_run name s n e = ground (arith, e)

pub >>=_run :
    {A B : Type 0} {s t : Generator} {a : B} {x : Result A} (m : M B) (f : B → M A)
    → m s ≡ ok a t
    → f a t ≡ x
    → (m >>= f) s ≡ x
unfolding ◌>>=◌
>>=_run m f e h = ground (arith, e, h)

pub pure_run : {A : Type 0} (a : A) (s : Generator) → pure a s ≡ ok a s
unfolding pure
pure_run a s = refl

-- A value with a type that is not void is no null pointer.
pub int64-is_null : (v : Value) → type_of v ≡ int64 → is_null v ≡ false
unfolding type_of
int64-is_null nullptr e = ground (arith, e)
int64-is_null _ e = refl

pub pointer-is_null : (v : Value) → type_of v ≡ pointer → is_null v ≡ false
unfolding type_of
pointer-is_null nullptr e = ground (arith, e)
pointer-is_null _ e = refl

module _ {ns : Names} {A : Type 0} {G : A → Type 0} {r : A → Spot} where
  -- A computation that leaves the state as it is, and whose result is known where it runs.
  known_read :
      {B : Type 0} {p : Spot} (m : M B) (b : Generator → B) (f : B → M A)
      → ((s : Generator) → m s ≡ ok (b s) s)
      → ((s : Generator) → At ns p s → Gives ns p (f (b s)) G r)
      → Gives ns p (m >>= f) G r
  known_read m b f hm hf = record {
    run = λ s at. let x = (hf s at).run s at in (x.0, x.1, >>=_run m f (hm s) (x.2), x.3, x.4);
  }

  module _ {k : List (ℕ × Bool)} {ks : List Known} where
    module _ {l : Option Bool} where
      pub check_value :
          (v : Value) (text : String) {f : Value → M A}
          → is_null v ≡ false
          → ((w : Value) → Gives ns (here k ks l) (f w) G r)
          → Gives ns (here k ks l) (not_null v text >>= f) G r
      check_value v text {f} h hf = record {
        run = λ s at.
            let x = (hf v).run s at in
            (x.0, x.1, >>=_run (not_null v text) f (null_run v text s h) (x.2), x.3, x.4);
      }

      pub skip :
          {B : Type 0} (b : B) {f : B → M A}
          → ((c : B) → Gives ns (here k ks l) (f c) G r)
          → Gives ns (here k ks l) (pure b >>= f) G r
      skip b {f} hf = record {
        run = λ s at.
            let x = (hf b).run s at in
            (x.0, x.1, >>=_run (pure b) f (pure_run b s) (x.2), x.3, x.4);
      }

      pub with_label :
          {f : ℕ → M A}
          → ((n : ℕ) → Gives ns (here k ks l) (f n) G r)
          → Gives ns (here k ks l) (next_label >>= f) G r
      with_label {f} hf = record {
        run = λ s at.
            let x =
              (hf (suc s.label_num)).run (record s { label_num = suc s.label_num })
                (record {
                  fits = at.fits;
                  fresh = at.fresh;
                  exist = at.exist;
                  flag = at.flag;
                  same_names = at.same_names;
                  args_fit = at.args_fit;
                  flows = at.flows;
                }) in
            (x.0, x.1, >>=_run next_label f (label_run s) (x.2), x.3, x.4);
      }

      pub set_alloc :
          (b : Bool) {f : Bool → M A}
          → ((c : Bool) → Gives ns (here k ks l) (f c) G r)
          → Gives ns (here k ks l) (set_allocating b >>= f) G r
      set_alloc b {f} hf = record {
        run = λ s at.
            let x =
              (hf b).run (record s { alloc_flag = b })
                (record {
                  fits = at.fits;
                  fresh = at.fresh;
                  exist = at.exist;
                  flag = at.flag;
                  same_names = at.same_names;
                  args_fit = at.args_fit;
                  flows = at.flows;
                }) in
            (x.0, x.1, >>=_run (set_allocating b) f (alloc_run b s) (x.2), x.3, x.4);
      }

      pub set_flag :
          (b : Bool) {f : Bool → M A}
          → ((c : Bool) → Gives ns (here k ks (some b)) (f c) G r)
          → Gives ns (here k ks l) (set_l_value b >>= f) G r
      set_flag b {f} hf = record {
        run = λ s at.
            let x =
              (hf b).run (record s { l_value_gen = b })
                (record {
                  fits = at.fits;
                  fresh = at.fresh;
                  exist = at.exist;
                  flag = refl;
                  same_names = at.same_names;
                  args_fit = at.args_fit;
                  flows = at.flows;
                }) in
            (x.0, x.1, >>=_run (set_l_value b) f (flag_run b s) (x.2), x.3, x.4);
      }

      pub read_alloc :
          {f : Bool → M A}
          → ((b : Bool) → Gives ns (here k ks l) (f b) G r)
          → Gives ns (here k ks l) (allocating >>= f) G r
      read_alloc {f} hf =
          known_read allocating (λ s. s.alloc_flag) f (λ s. (reads_run s).1)
            (λ s at. hf s.alloc_flag)

      pub read_bytes :
          {f : ℕ → M A}
          → ((b : ℕ) → Gives ns (here k ks l) (f b) G r)
          → Gives ns (here k ks l) (record_bytes >>= f) G r
      read_bytes {f} hf =
          known_read record_bytes (λ s. s.record_size) f (λ s. (reads_run s).3)
            (λ s at. hf s.record_size)

      pub read_value :
          (name : String) (f : Option Value → M A)
          → Gives ns (here k ks l) (f (find name ns.named_values)) G r
          → Gives ns (here k ks l) (find_value name >>= f) G r
      read_value name f hf =
          known_read (find_value name) (λ s. find name s.names.named_values) f
            (λ s. (names_run name s).0)
            (λ s at.
              subst (λ n. Gives ns (here k ks l) (f (find name n.named_values)) G r)
                (sym at.same_names) hf)

      pub read_function :
          (name : String) (f : Option ℕ → M A)
          → Gives ns (here k ks l) (f (find name ns.function_index)) G r
          → Gives ns (here k ks l) (find_function name >>= f) G r
      read_function name f hf =
          known_read (find_function name) (λ s. find name s.names.function_index) f
            (λ s. (names_run name s).1)
            (λ s at.
              subst (λ n. Gives ns (here k ks l) (f (find name n.function_index)) G r)
                (sym at.same_names) hf)

      pub read_field :
          (name : String) (f : Option ℕ → M A)
          → Gives ns (here k ks l) (f (find name ns.field_index)) G r
          → Gives ns (here k ks l) (find_field name >>= f) G r
      read_field name f hf =
          known_read (find_field name) (λ s. find name s.names.field_index) f
            (λ s. (names_run name s).2)
            (λ s at.
              subst (λ n. Gives ns (here k ks l) (f (find name n.field_index)) G r)
                (sym at.same_names) hf)

      pub read_slot :
          (name : String) (n : ℕ) (f : ℕ → M A)
          → find name ns.field_index ≡ some n
          → Gives ns (here k ks l) (f n) G r
          → Gives ns (here k ks l) (field_slot name >>= f) G r
      read_slot name n f e hf = record {
        run = λ s at.
            let x = hf.run s at in
            (
              x.0,
              x.1,
              >>=_run (field_slot name) f
                  (slot_run name s n
                    (subst (λ m. find name m.field_index ≡ some n) (sym at.same_names) e))
                  (x.2),
              x.3,
              x.4,
            );
      }

    pub read_flag :
        {w : Standing} {b : Bool} (f : Bool → M A)
        → Gives ns (in_block w k ks (some b)) (f b) G r
        → Gives ns (in_block w k ks (some b)) (l_value >>= f) G r
    read_flag {w} {b} f hf =
        known_read l_value (λ s. s.l_value_gen) f (λ s. (reads_run s).0)
          (λ s at. subst (λ x. Gives ns (in_block w k ks (some b)) (f x) G r) (sym at.flag) hf)

module _ {ns : Names} {A : Type 0} {m : M A} {F : A → Type 0} {p : Spot} where
  pub forget_flag :
      {k : List (ℕ × Bool)} {ks : List Known} {l : Option Bool}
      → Gives ns p m F (λ a. here k ks l)
      → Gives ns p m F (λ a. here k ks none)
  forget_flag h = record {
    run = λ s at.
        let x = h.run s at in
        (
          x.0,
          x.1,
          x.2,
          x.3,
          record {
            fits = x.4.fits;
            fresh = x.4.fresh;
            exist = x.4.exist;
            flag = tt;
            same_names = x.4.same_names;
            args_fit = x.4.args_fit;
            flows = x.4.flows;
          },
        );
  }

  pub forget_blocks :
      {k : List (ℕ × Bool)} {ks : List Known} {l : Option Bool} (qs : List Known)
      → Gives ns p m F (λ a. here k (qs ++ ks) l)
      → Gives ns p m F (λ a. here k ks l)
  forget_blocks {ks = ks} qs h = record {
    run = λ s at.
        let x = h.run s at in
        let old = x.4.flows in
        (
          x.0,
          x.1,
          x.2,
          x.3,
          record {
            fits = x.4.fits;
            fresh = x.4.fresh;
            exist = below-rest _ qs ks x.4.exist;
            flag = x.4.flag;
            same_names = x.4.same_names;
            args_fit = x.4.args_fit;
            flows = record {
              same_block = old.same_block;
              phis = old.phis;
              near = old.near;
              tracked = Tracked-rest qs ks _ old.tracked;
              stands = old.stands;
            };
          },
        );
  }

  pub expect :
      {G : A → Type 0} {q : A → Spot} → Gives ns p m F q → ((a : A) → F a → G a) → Gives ns p m G q
  expect h f = record { run = λ s at. let x = h.run s at in (x.0, x.1, x.2, f (x.0) (x.3), x.4) }

pub give :
    {ns : Names} {A : Type 0} {F : A → Type 0} {p : Spot} (a : A)
    → F a
    → Gives ns p (pure a) F (λ b. p)
unfolding pure
give a h = record { run = λ s at. (a, s, refl, h, at) }

pub give_as :
    {ns : Names} {A : Type 0} {F : A → Type 0} (q : A → Spot) (a : A)
    → F a
    → Gives ns (q a) (pure a) F q
unfolding pure
give_as q a h = record { run = λ s at. (a, s, refl, h, at) }

-- A test for a null pointer at the end of a computation.
pub checked_value :
    {ns : Names} {F : Value → Type 0} {p : Spot} (v : Value) (text : String)
    → is_null v ≡ false
    → F v
    → Gives ns p (not_null v text) F (λ b. p)
checked_value v text e h = record { run = λ s at. (v, s, null_run v text s e, h, at) }
