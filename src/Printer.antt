-- ===== src/Printer.antt =====
-- src/frontend/prettyprint/PrettyPrinter.{h,cpp}: the visitor that prints a program. It keeps a
-- stack of texts, `results` (its top first here, at the back of the vector in the code), and the
-- level of indentation. `none` is undefined behaviour: the back of an empty vector, or a loop of
-- `joinWithDelim` whose bound, of an unsigned type, lies below zero.
-- `std::to_string`, which prints the value of a number, is a parameter.
pub mod Steps
pub mod Render
pub mod Expressions
pub mod Laws
use Prim.Native.String as texts
use Prim.Native.Char.{Char}
use sipc.Prelude.{
  concat, ℤ, ℕ, zero, suc, ◌+◌, ◌-◌, ◌*◌, Bool, true, false, String, Option, none, some, List, [],
  ◌∷◌, ◌++◌, ltb, if◌then◌else◌, length,
}

infixl 5 ◌>>=◌
abbrev pub ◌>>=◌ {ℓ κ} : {A : Type ℓ} {B : Type κ} → Option A → (A → Option B) → Option B
none >>= f = none
some a >>= f = f a

unfoldable pub repeat : ℕ → Char → String
repeat zero c = ""
repeat (suc n) c = texts.String.◌∷◌ c (repeat n c)

-- What the constructor is given besides the stream.
pub record Style : Type 0 where
  pub to_string : ℤ → String
  pub indent_char : Char
  pub indent_size : ℕ

pub record Printer : Type 0 where
  pub results : List String
  pub level : ℕ

unfoldable pub indent : Style → ℕ → String
unfolding repeat
indent st level = repeat (level * st.indent_size) st.indent_char

unfoldable pub push : String → Printer → Printer
push s p = record p { results = s ∷ p.results }

unfoldable pub split : ℕ → List String → List String → Option (List String × List String)
split zero taken rest = some (taken, rest)
split (suc n) taken [] = none
split (suc n) taken (s ∷ rest) = split n (s ∷ taken) rest

-- The texts in order; all but the last `skip` have the delimiter after them.
unfoldable pub join : String → ℕ → List String → String
unfolding concat
join delim skip [] = ""
join delim skip (s ∷ ss) =
    concat (s ∷ (if ltb (length ss) skip then "" else delim) ∷ join delim skip ss ∷ [])

-- The text and the shorter stack.
unfoldable pub join_with_delim : List String → String → ℕ → ℕ → Option (String × List String)
unfolding split join
join_with_delim results delim sz skip =
    if ltb (length results) skip
    then none
    else split sz [] results >>= λ p. some (join delim skip (p.0), p.1)

-- `back` and `pop_back`.
unfoldable pub pop : Printer → Option (String × Printer)
pop p = elim p.results [ [] ↦ none | s ∷ rest ↦ some (s, record p { results = rest }) ]
