-- ===== src/Codegen/Indexes.antt =====
-- The maps of functions and of fields that `codegen` of a program fills, in
-- src/codegen/CodeGenFunctions.cpp.
use sipc.Prelude.{
  ◌≡◌, refl, ◌∙◌, ℕ, suc, true, false, not, ◌||◌, String, some, List, [], ◌∷◌, str_eq, str_eq_iff,
  arith, Bool-cases, inl, inr,
}
use sipc.Ast.{Function}
use sipc.Codegen.{find, Names, Generator, ok, pure}
use sipc.Codegen.Choices.{is_some}
use sipc.Codegen.Programs.{decl_names, index_functions, index_fields}
use sipc.Codegen.Scoped.{listed, unique, function_names}
use sipc.Codegen.Sound.{and_parts}

abbrev pub indexed : ℕ → List Function → Names → Names
indexed i [] ns = ns
indexed i (f ∷ fs) ns = indexed (suc i) fs (record ns {
  function_index = (f.decl.name, i) ∷ ns.function_index;
  formal_names = (f.decl.name, decl_names f.formals) ∷ ns.formal_names;
})

abbrev pub fields_indexed : ℕ → List String → Names → Names
fields_indexed i [] ns = ns
fields_indexed i (x ∷ xs) ns =
    fields_indexed (suc i) xs (record ns { field_index = (x, i) ∷ ns.field_index })

pub index_functions_run :
    (fs : List Function) (i : ℕ) (g : Generator)
    → (n : ℕ) × (index_functions i fs g ≡ ok n (record g { names = indexed i fs g.names }))
unfolding index_functions pure
index_functions_run [] i g = (i, refl)
index_functions_run (f ∷ fs) i g = index_functions_run fs (suc i) _

pub index_fields_run :
    (xs : List String) (i : ℕ) (g : Generator)
    → (n : ℕ) × (index_fields i xs g ≡ ok n (record g { names = fields_indexed i xs g.names }))
unfolding index_fields pure
index_fields_run [] i g = (i, refl)
index_fields_run (x ∷ xs) i g = index_fields_run xs (suc i) _

-- A function of the list has an index, as one of the map before has.
pub function_index_has :
    (fs : List Function) (i : ℕ) (ns : Names) (x : String)
    → listed x (function_names fs) || is_some (find x ns.function_index) ≡ true
    → is_some (find x (indexed i fs ns).function_index) ≡ true
unfolding find
function_index_has [] i ns x h = h
function_index_has (f ∷ fs) i ns x h =
    function_index_has fs (suc i) _ x (elim (Bool-cases (str_eq x f.decl.name)) [
      | inl e ↦ ground (arith, e)
      | inr e ↦ ground (arith, e, h)
    ])

pub field_index_has :
    (xs : List String) (i : ℕ) (ns : Names) (x : String)
    → listed x xs || is_some (find x ns.field_index) ≡ true
    → is_some (find x (fields_indexed i xs ns).field_index) ≡ true
unfolding find
field_index_has [] i ns x h = h
field_index_has (y ∷ xs) i ns x h =
    field_index_has xs (suc i) _ x
      (elim (Bool-cases (str_eq x y)) [ inl e ↦ ground (arith, e) | inr e ↦ ground (arith, e, h) ])

pub fields_indexed_keeps :
    (xs : List String) (i : ℕ) (ns : Names)
    → ((fields_indexed i xs ns).function_index ≡ ns.function_index)
      × ((fields_indexed i xs ns).formal_names ≡ ns.formal_names)
fields_indexed_keeps [] i ns = (refl, refl)
fields_indexed_keeps (x ∷ xs) i ns = fields_indexed_keeps xs (suc i) _

-- A name that is not of the list has the formals that it had.
pub formals_indexed_other :
    (fs : List Function) (i : ℕ) (ns : Names) (x : String)
    → listed x (function_names fs) ≡ false
    → find x (indexed i fs ns).formal_names ≡ find x ns.formal_names
unfolding find
formals_indexed_other [] i ns x h = refl
formals_indexed_other (f ∷ fs) i ns x h =
    formals_indexed_other fs (suc i) _ x (ground (arith, h)) ∙ ground (arith, h)

-- The functions whose formals are in the map.
abbrev pub FormalsFound : Names → List Function → Type 0
FormalsFound ns [] = Unit
FormalsFound ns (f ∷ fs) =
    (find f.decl.name ns.formal_names ≡ some (decl_names f.formals)) × FormalsFound ns fs

pub formals_indexed :
    (fs : List Function) (i : ℕ) (ns : Names)
    → unique (function_names fs) ≡ true
    → FormalsFound (indexed i fs ns) fs
unfolding find
formals_indexed [] i ns h = tt
formals_indexed (f ∷ fs) i ns h =
    let p =
      and_parts (not (listed f.decl.name (function_names fs))) (unique (function_names fs)) h in
    (
      formals_indexed_other fs (suc i) _ f.decl.name (ground (arith, p.0))
          ∙ ground (arith, str_eq_iff f.decl.name f.decl.name),
      formals_indexed fs (suc i) _ (p.1),
    )
