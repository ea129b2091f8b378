-- ===== src/Json/Equality.antt =====
-- Python's `==` on JSON values. `True == 1` and `False == 0`; objects are compared without regard to
-- the order of their keys. How floats compare is a parameter, since a float is a bit pattern here.
use llm_evolutionary_samplin.Prelude.{
  ℕ, ℤ, pos, String, Bool, true, false, ◌&&◌, Option, none, some, ◌==◌, nat_eq, int_eq, string_eq,
}
use llm_evolutionary_samplin.Json.{Json, Items, Fields}
use llm_evolutionary_samplin.Json.Objects.{get_field, count_fields}

-- What Python does with IEEE doubles, given by their bit patterns: `==`, and `float.__repr__`.
pub record Floats : Type 0 where
  pub same : (a b : ℕ) → Bool
  pub same_int : (a : ℕ) (n : ℤ) → Bool
  pub repr : (a : ℕ) → String

-- A Boolean counts as the integer that it is.
abbrev pub bool_int : Bool → ℤ
bool_int true = pos 1
bool_int false = pos 0

abbrev pub found_eq : (Json → Bool) → Option Json → Bool
found_eq same none = false
found_eq same (some w) = same w

module _ (floats : Floats) where
  unfoldable pub equal_number : ℤ → Json → Bool
  equal_number n (Json.bool b) = n == bool_int b
  equal_number n (Json.int m) = n == m
  equal_number n (Json.float b) = floats.same_int b n
  equal_number n _ = false

  unfoldable pub equal_float : ℕ → Json → Bool
  equal_float a (Json.bool b) = floats.same_int a (bool_int b)
  equal_float a (Json.int m) = floats.same_int a m
  equal_float a (Json.float b) = floats.same a b
  equal_float a _ = false

  unfoldable mutual
    pub py_eq : Json → Json → Bool
    py_eq Json.null w = elim w [ Json.null ↦ true | _ ↦ false ]
    py_eq (Json.bool b) w = equal_number (bool_int b) w
    py_eq (Json.int n) w = equal_number n w
    py_eq (Json.float b) w = equal_float b w
    py_eq (Json.str s) w = elim w [ Json.str t ↦ s == t | _ ↦ false ]
    py_eq (Json.arr xs) (Json.arr ys) = items_eq xs ys
    py_eq (Json.arr xs) _ = false
    py_eq (Json.obj fs) (Json.obj gs) = count_fields fs == count_fields gs && fields_in fs gs
    py_eq (Json.obj fs) _ = false

    pub items_eq : Items → Items → Bool
    items_eq Items.nil Items.nil = true
    items_eq (Items.cons x xs) (Items.cons y ys) = py_eq x y && items_eq xs ys
    items_eq _ _ = false

    -- every entry of the first object is in the second
    pub fields_in : Fields → Fields → Bool
    fields_in Fields.end gs = true
    fields_in (Fields.field k v fs) gs = found_eq (py_eq v) (get_field k gs) && fields_in fs gs
