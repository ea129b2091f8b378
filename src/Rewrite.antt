-- ===== src/Rewrite.antt =====
-- `_rewrite_plan_references` of src/sampling/plan_scaler.py.
pub mod Renames
pub mod Keys
use llm_evolutionary_samplin.Prelude.{
  ℤ, String, Bool, true, false, ◌&&◌, Option, none, some, List, [], ◌∷◌, Result, ok, err, ◌>>=◌,
  ◌>>◌, guard, or_raise, ◌==◌, int_eq, string_eq, if◌then◌else◌, is_digit, parse_int, str_ℤ, all,
}
use llm_evolutionary_samplin.Prelude.Dict.{Dict, lookup}
use llm_evolutionary_samplin.Error.{Error, Reason, plan_transfer, value_error, key_error}
use llm_evolutionary_samplin.Json.{
  Json, null, bool, int, float, str, arr, obj, Items, nil, cons, Fields, end, field, items,
}
use llm_evolutionary_samplin.Json.Objects.{set_field}
use llm_evolutionary_samplin.Refs.{is_scalar_key, is_list_key, is_intish, to_int}

-- `internal_id_map` first, `scan_id_map` second; `none` is an id in neither.
unfoldable pub renamed : Dict ℤ ℤ → Dict ℤ ℤ → ℤ → Option ℤ
renamed internal scans vid = elim (lookup vid internal) [
  | some n ↦ some n
  | none ↦ lookup vid scans
]

abbrev pub int_or : Json → Option ℤ → Json
int_or value none = value
int_or value (some n) = int n

module _ (internal scans : Dict ℤ ℤ) where
  unfoldable pub map_ref : Json → Json
  map_ref value = elim (to_int value) [
    | none ↦ value
    | some vid ↦ int_or value (renamed internal scans vid)
  ]

  unfoldable pub map_refs : Items → Items
  map_refs nil = nil
  map_refs (cons x xs) = cons (map_ref x) (map_refs xs)

  -- The value of one entry; `deeper` is the rewritten value, where the walk descends.
  unfoldable pub rewrite_entry : String → Json → Json → Json
  rewrite_entry k (arr xs) deeper =
      if is_scalar_key k
      then map_ref (arr xs)
      else if is_list_key k && all is_intish (items xs)
      then arr (map_refs xs)
      else deeper
  rewrite_entry k v deeper = if is_scalar_key k then map_ref v else deeper

  unfoldable mutual
    pub rewrite_obj : Json → Json
    rewrite_obj (obj fs) = obj (rewrite_fields fs)
    rewrite_obj (arr xs) = arr (rewrite_items xs)
    rewrite_obj null = null
    rewrite_obj (bool b) = bool b
    rewrite_obj (int n) = int n
    rewrite_obj (float b) = float b
    rewrite_obj (str s) = str s

    pub rewrite_items : Items → Items
    rewrite_items nil = nil
    rewrite_items (cons x xs) = cons (rewrite_obj x) (rewrite_items xs)

    pub rewrite_fields : Fields → Fields
    rewrite_fields end = end
    rewrite_fields (field k v fs) = field k (rewrite_entry k v (rewrite_obj v)) (rewrite_fields fs)

  -- `old_to_new_key[old_key]`, whose keys are the texts of the old ids
  unfoldable pub old_to_new_key : Dict ℤ ℤ → String → Option String
  old_to_new_key [] old_key = none
  old_to_new_key ((o, n) ∷ m) old_key =
      let later = old_to_new_key m old_key in
      elim later [ some s ↦ some s | none ↦ if str_ℤ o == old_key then some (str_ℤ n) else none ]

  -- The body of the last loop.
  unfoldable pub rewrite_node : String → Fields → String → Json → Result Error Fields
  rewrite_node stage new_plan old_key node = do
    guard (is_digit old_key) (plan_transfer (Reason.non_numeric_node_id stage old_key))
    old ← or_raise (parse_int old_key) value_error
    found ←
        or_raise (lookup old internal)
          (plan_transfer (Reason.missing_internal_id_map stage old_key))
    new_key ← or_raise (old_to_new_key internal old_key) key_error
    ok (set_field new_key (rewrite_obj node) new_plan)

  unfoldable pub rewrite_nodes : String → Fields → Fields → Result Error Fields
  rewrite_nodes stage new_plan end = ok new_plan
  rewrite_nodes stage new_plan (field k v fs) = do
    new_plan' ← rewrite_node stage new_plan k v
    rewrite_nodes stage new_plan' fs

  unfoldable pub rewrite_plan_references : Fields → String → Result Error Fields
  rewrite_plan_references plan stage = rewrite_nodes stage end plan
