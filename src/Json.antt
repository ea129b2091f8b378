-- ===== src/Json.antt =====
-- The values that `json.loads` yields, which src/sampling/plan_scaler.py walks. A float is its bit
-- pattern. An object holds its entries in insertion order, as a Python dict does.
pub mod Objects
pub mod Equality
pub mod Writes
pub mod Dumps
use llm_evolutionary_samplin.Prelude.{ℕ, ℤ, String, Bool, List, [], ◌∷◌}

mutual
  pub data Json : Type 0 where
    null : Json
    bool : Bool → Json
    int : ℤ → Json
    float : (bits : ℕ) → Json
    str : String → Json
    arr : Items → Json
    obj : Fields → Json

  pub data Items : Type 0 where
    nil : Items
    cons : Json → Items → Items

  pub data Fields : Type 0 where
    end : Fields
    field : String → Json → Fields → Fields

-- The two containers as lists.
abbrev pub items : Items → List Json
items nil = []
items (cons x xs) = x ∷ items xs

abbrev pub entries : Fields → List (String × Json)
entries end = []
entries (field k v fs) = (k, v) ∷ entries fs

abbrev pub of_items : List Json → Items
of_items [] = nil
of_items (x ∷ xs) = cons x (of_items xs)

abbrev pub of_entries : List (String × Json) → Fields
of_entries [] = end
of_entries ((k, v) ∷ es) = field k v (of_entries es)
