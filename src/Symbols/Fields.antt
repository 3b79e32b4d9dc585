-- ===== src/Symbols/Fields.antt =====
-- The names of fields: src/semantic/symboltable/FieldNameCollector.cpp.
use sipc.Prelude.{
  ◌≡◌, refl, Bool, true, false, not, ◌&&◌, ◌||◌, String, List, [], ◌∷◌, ◌++◌, str_eq, str_eq_iff,
  arith,
}
use sipc.Ast.{access, Program, Event, leave_expr, leave_field, accept_program}
use sipc.Symbols.{has_name, add_field, field_step, field_steps, field_names}

-- The field that an event names.
abbrev pub names_field : String → Event → Bool
names_field s (leave_field n t e) = str_eq s t
names_field s (leave_expr (access n e t)) = str_eq s t
names_field s _ = false

abbrev pub any_field : String → List Event → Bool
any_field s [] = false
any_field s (e ∷ es) = names_field s e || any_field s es

abbrev pub no_duplicates : List String → Bool
no_duplicates [] = true
no_duplicates (s ∷ ss) = not (has_name s ss) && no_duplicates ss

has_name-snoc :
    (s t : String) (fs : List String) → has_name s (fs ++ t ∷ []) ≡ has_name s fs || str_eq s t
unfolding has_name
has_name-snoc s t [] = ground arith
has_name-snoc s t (f ∷ fs) = ground (arith, has_name-snoc s t fs)

has_name-add_field :
    (s t : String) (fs : List String) → has_name s (add_field t fs) ≡ has_name s fs || str_eq s t
unfolding add_field
has_name-add_field s t fs = ground (arith, has_name-snoc s t fs, str_eq_iff s t)

no_duplicates-snoc :
    (t : String) (fs : List String)
    → no_duplicates (fs ++ t ∷ []) ≡ no_duplicates fs && not (has_name t fs)
unfolding has_name
no_duplicates-snoc t [] = refl
no_duplicates-snoc t (f ∷ fs) =
    ground (arith, no_duplicates-snoc t fs, has_name-snoc f t fs, str_eq_iff f t, str_eq_iff t f)

no_duplicates-add_field :
    (t : String) (fs : List String)
    → no_duplicates fs ≡ true
    → no_duplicates (add_field t fs) ≡ true
unfolding add_field
no_duplicates-add_field t fs h = ground (arith, no_duplicates-snoc t fs)

field_step_lem :
    (s : String) (e : Event) (fs : List String)
    → has_name s (field_step e fs) ≡ has_name s fs || names_field s e
unfolding field_step
field_step_lem s (leave_field n t e) fs = has_name-add_field s t fs
field_step_lem s (leave_expr (access n e t)) fs = has_name-add_field s t fs
field_step_lem s _ fs = ground arith

field_step-no_duplicates :
    (e : Event) (fs : List String)
    → no_duplicates fs ≡ true
    → no_duplicates (field_step e fs) ≡ true
unfolding field_step
field_step-no_duplicates (leave_field n t e) fs h = no_duplicates-add_field t fs h
field_step-no_duplicates (leave_expr (access n e t)) fs h = no_duplicates-add_field t fs h
field_step-no_duplicates _ fs h = h

field_steps_lem :
    (s : String) (es : List Event) (fs : List String)
    → has_name s (field_steps es fs) ≡ has_name s fs || any_field s es
unfolding field_steps
field_steps_lem s [] fs = ground arith
field_steps_lem s (e ∷ es) fs =
    ground (arith, field_steps_lem s es (field_step e fs), field_step_lem s e fs)

field_steps-no_duplicates :
    (es : List Event) (fs : List String)
    → no_duplicates fs ≡ true
    → no_duplicates (field_steps es fs) ≡ true
unfolding field_steps
field_steps-no_duplicates [] fs h = h
field_steps-no_duplicates (e ∷ es) fs h =
    field_steps-no_duplicates es (field_step e fs) (field_step-no_duplicates e fs h)

-- The collector of field names lists exactly the fields that a record literal or an access of the
-- program names, each once.
pub field_names_correct :
    (p : Program)
    → ((s : String) → has_name s (field_names p) ≡ any_field s (accept_program p))
      × (no_duplicates (field_names p) ≡ true)
unfolding field_names has_name
field_names_correct p = (
  λ s. field_steps_lem s (accept_program p) [],
  field_steps-no_duplicates (accept_program p) [] refl,
)
