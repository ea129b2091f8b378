-- ===== src/Refs.antt =====
-- The references between plan nodes, and the two validators, of src/sampling/plan_scaler.py. A structure
-- is a dict from node ids, which are decimal strings, to nodes of one operator each.
pub mod Sound
pub mod Ints
use llm_evolutionary_samplin.Prelude.{
  ℕ, suc, ℤ, pos, String, Bool, true, false, ◌&&◌, ◌||◌, not, Option, none, some, List, [], ◌∷◌,
  ◌++◌, Result, ok, err, ◌>>=◌, ◌>>◌, guard, or_raise, ◌==◌, string_eq, int_eq, nat_eq,
  if◌then◌else◌, parse_int, is_digit, contains, all, length, select, map,
}
use llm_evolutionary_samplin.Error.{Error, Reason, plan_transfer, value_error}
use llm_evolutionary_samplin.Json.{
  Json, null, bool, int, float, str, arr, obj, Items, nil, cons, Fields, end, field, items, entries,
}
use llm_evolutionary_samplin.Json.Objects.{count_fields}
use llm_evolutionary_samplin.Json.Equality.{bool_int}

-- `k in _REF_KEYS_SCALAR`
unfoldable pub is_scalar_key : String → Bool
is_scalar_key k = k == "input" || k == "left" || k == "right"

-- `k in _REF_KEYS_LIST`
unfoldable pub is_list_key : String → Bool
is_list_key k = k == "inputs" || k == "children"

-- A Boolean is an `int` in Python.
unfoldable pub is_intish : Json → Bool
is_intish (int n) = true
is_intish (bool b) = true
is_intish (str s) = is_digit s
is_intish _ = false

-- `none` is the ValueError.
unfoldable pub to_int : Json → Option ℤ
to_int (int n) = some n
to_int (bool b) = some (bool_int b)
to_int (str s) = if is_digit s then parse_int s else none
to_int _ = none

abbrev pub some_list : Option ℤ → List ℤ
some_list none = []
some_list (some n) = n ∷ []

-- `[_to_int(x) for x in xs]`, where all are intish
unfoldable pub ints_of : List Json → List ℤ
ints_of [] = []
ints_of (x ∷ xs) = some_list (to_int x) ++ ints_of xs

-- The references that an entry holds itself; `none` where the walks descend into the value.
unfoldable pub direct_refs : String → Json → Option (List ℤ)
direct_refs k (arr xs) =
    if is_list_key k && all is_intish (items xs) then some (ints_of (items xs)) else none
direct_refs k v = if is_scalar_key k && is_intish v then some (some_list (to_int v)) else none

-- The `walk` functions: every reference below a value, with its key, in the order of the walk.
abbrev pub tag : String → List ℤ → List (String × ℤ)
tag k [] = []
tag k (r ∷ rs) = (k, r) ∷ tag k rs

abbrev pub or_else : Option (List ℤ) → String → List (String × ℤ) → List (String × ℤ)
or_else (some rs) k deeper = tag k rs
or_else none k deeper = deeper

unfoldable mutual
  pub refs_of : Json → List (String × ℤ)
  refs_of (obj fs) = refs_in_fields fs
  refs_of (arr xs) = refs_in_items xs
  refs_of null = []
  refs_of (bool b) = []
  refs_of (int n) = []
  refs_of (float b) = []
  refs_of (str s) = []

  pub refs_in_items : Items → List (String × ℤ)
  refs_in_items nil = []
  refs_in_items (cons x xs) = refs_of x ++ refs_in_items xs

  pub refs_in_fields : Fields → List (String × ℤ)
  refs_in_fields end = []
  refs_in_fields (field k v fs) = or_else (direct_refs k v) k (refs_of v) ++ refs_in_fields fs

abbrev pub targets : List (String × ℤ) → List ℤ
targets [] = []
targets ((k, r) ∷ rs) = r ∷ targets rs

-- `int(k) for k in structure.keys() if k.isdigit()`
abbrev pub key_id : String → List ℤ
key_id k = if is_digit k then some_list (parse_int k) else []

unfoldable pub internal_ids : Fields → List ℤ
internal_ids end = []
internal_ids (field k v fs) = key_id k ++ internal_ids fs

-- The references of all nodes.
unfoldable pub plan_refs : Fields → List (String × ℤ)
plan_refs end = []
plan_refs (field nid node fs) = refs_of node ++ plan_refs fs

-- The body of the loop of `_validate_structure_dict`.
unfoldable pub validate_node : String → String → Json → Result Error (Unit {0})
validate_node stage k (obj v) =
    guard (is_digit k) (plan_transfer (Reason.invalid_node_id stage k))
    >> guard (count_fields v == 1) (plan_transfer (Reason.node_without_single_operator stage k))
validate_node stage k v =
    guard (is_digit k) (plan_transfer (Reason.invalid_node_id stage k))
    >> err (plan_transfer (Reason.node_must_be_dict stage k))

unfoldable pub validate_nodes : String → Fields → Result Error (Unit {0})
validate_nodes stage end = ok tt
validate_nodes stage (field k v fs) = validate_node stage k v >> validate_nodes stage fs

-- The structure itself is the result, so that what follows has it as a dict.
unfoldable pub validate_structure_dict : String → Json → Result Error Fields
validate_structure_dict stage (obj fs) = validate_nodes stage fs >> ok fs
validate_structure_dict stage _ = err (plan_transfer (Reason.structure_must_be_dict stage))

-- `rid not in internal_ids and rid not in sf2_scan_ids`
abbrev pub is_dangling : List ℤ → List ℤ → String × ℤ → Bool
is_dangling internal scans r = not (contains internal r.1) && not (contains scans r.1)

unfoldable pub bad_refs : Fields → List ℤ → List (String × ℤ)
bad_refs structure scans = select (is_dangling (internal_ids structure) scans) (plan_refs structure)

unfoldable pub validate_references : String → Fields → List ℤ → Result Error (Unit {0})
validate_references stage structure scans =
    let bad = bad_refs structure scans in
    guard (length bad == 0) (plan_transfer (Reason.dangling_refs stage (length bad)))
