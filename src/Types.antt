-- ===== src/Types.antt =====
-- The type terms of src/semantic/types/concrete: a data type with a constructor for each class,
-- and the structural `operator==` of the classes.
pub mod Equality
pub mod Substitute
use sipc.Prelude.{
  ℕ, Bool, true, false, ◌&&◌, String, Option, none, some, List, ◌==◌, str_eq, length, suc,
}

-- `TipVar(node)` and its subclass `TipAlpha(node, context, name)`. A node is the address of an
-- AST node; `none` is the null context.
pub data TipVar : Type 0 where
  plain : ℕ → TipVar
  alpha : ℕ → Option ℕ → String → TipVar

-- The arguments of a `TipCons` are a list that stands in the block. The last argument of a
-- function is its return type.
mutual
  pub data TipType : Type 0 where
    var : TipVar → TipType
    int bool absent_field : TipType
    ref array : TipType → TipType
    function : TipTypes → TipType
    rec : TipTypes → List String → TipType
    mu : TipVar → TipType → TipType

  pub data TipTypes : Type 0 where
    nil : TipTypes
    cons : TipType → TipTypes → TipTypes

unfoldable pub equal_context : Option ℕ → Option ℕ → Bool
equal_context none none = true
equal_context (some a) (some b) = a == b
equal_context _ _ = false

unfoldable pub equal_var : TipVar → TipVar → Bool
unfolding equal_context
equal_var (plain n) (plain m) = n == m
equal_var (alpha n c s) (alpha m d t) = n == m && equal_context c d && str_eq s t
equal_var _ _ = false

-- Records are compared without their names, as the code does.
unfoldable mutual
  unfolding equal_var

  pub equal_type : TipType → TipType → Bool
  equal_type (var v) (var w) = equal_var v w
  equal_type int int = true
  equal_type bool bool = true
  equal_type absent_field absent_field = true
  equal_type (ref a) (ref b) = equal_type a b
  equal_type (array a) (array b) = equal_type a b
  equal_type (function xs) (function ys) = equal_types xs ys
  equal_type (rec xs _) (rec ys _) = equal_types xs ys
  equal_type (mu v a) (mu w b) = equal_var v w && equal_type a b
  equal_type _ _ = false

  pub equal_types : TipTypes → TipTypes → Bool
  equal_types nil nil = true
  equal_types (cons a xs) (cons b ys) = equal_type a b && equal_types xs ys
  equal_types _ _ = false
