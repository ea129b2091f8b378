-- ===== src/Scans.antt =====
-- Scan signatures and the mapping of scan ids between scale factors, of src/sampling/plan_scaler.py.
pub mod Groups
pub mod Pairing
pub mod Mapping
use llm_evolutionary_samplin.Prelude.{
  ℕ, ℤ, String, Bool, true, false, ◌&&◌, Option, none, some, List, [], ◌∷◌, ◌++◌, Result, ok, err,
  ◌>>=◌, ◌>>◌, guard, or_raise, for_each, traverse, ◌==◌, int_eq, string_eq, if◌then◌else◌, int_leb,
  length, leb, select,
}
use llm_evolutionary_samplin.Prelude.Dict.{Dict, lookup, insert, keys}
use llm_evolutionary_samplin.Prelude.Sort.{sort}
use llm_evolutionary_samplin.Error.{Error, Reason, plan_transfer, attribute_error}
use llm_evolutionary_samplin.Json.{
  Json, null, bool, int, float, str, arr, obj, Items, nil, cons, Fields, end, field, items,
}
use llm_evolutionary_samplin.Json.Objects.{get_field, has_field}
use llm_evolutionary_samplin.Json.Equality.{Floats, bool_int}
use llm_evolutionary_samplin.Json.Dumps.{json_dumps_canonical}

-- `d.get(k, default)`
abbrev pub get_or : Json → Option Json → Json
get_or default none = default
get_or default (some v) = v

abbrev pub is_entry : Json → Bool
is_entry (obj e) = has_field "id" e && has_field "node" e
is_entry _ = false

abbrev pub as_dict : Json → List Fields
as_dict (obj e) = e ∷ []
as_dict _ = []

-- The entries that are dicts with an id and a node.
unfoldable pub keep_entries : Items → List Fields
keep_entries nil = []
keep_entries (cons x xs) =
    let rest = keep_entries xs in if is_entry x then as_dict x ++ rest else rest

entries_field : Option Json → Result Error (List Fields)
entries_field (some (arr xs)) = ok (keep_entries xs)
entries_field _ = err (plan_transfer Reason.bad_table_info)

unfoldable pub table_info_entries : Json → Result Error (List Fields)
unfolding entries_field
table_info_entries null = ok []
table_info_entries (arr xs) = ok (keep_entries xs)
table_info_entries (obj fs) = entries_field (get_field "entries" fs)
table_info_entries _ = err (plan_transfer Reason.bad_table_info)

-- `v.get(k, default)`, where only a dict has the method
unfoldable pub py_get : Json → String → Json → Result Error Json
py_get (obj fs) k default = ok (get_or default (get_field k fs))
py_get _ k default = err attribute_error

-- `schema.get("columns", None)`, and None if there is no such dict
schema_columns : Json → Json
schema_columns (obj schema) = get_or null (get_field "columns" schema)
schema_columns _ = null

-- The `isinstance(base, dict)` guard.
base_columns : Json → Json
unfolding schema_columns
base_columns (obj base) = schema_columns (get_or (obj end) (get_field "schema" base))
base_columns _ = null

normalized : (columns projection constraints predicate : Json) → Json
normalized columns projection constraints predicate = obj (
    field "op" (str "parquetScan") (
      field "baseConf"
        (obj (
          field "schema.columns" columns
            (field "projection" projection (field "constraints" constraints end))))
        (field "predicate" predicate end)))

-- The part behind the test for a parquet scan.
normalize_scan : Json → Result Error Json
unfolding base_columns normalized
normalize_scan ps = do
  base ← py_get ps "baseConf" (obj end)
  projection ← py_get base "projection" null
  constraints ← py_get base "constraints" null
  predicate ← py_get ps "predicate" null
  ok (normalized (base_columns base) projection constraints predicate)

module _ (floats : Floats) where
  scan_signature_obj : Fields → Option Json → Result Error String
  unfolding normalize_scan
  scan_signature_obj fs none = ok (json_dumps_canonical floats (obj fs))
  scan_signature_obj fs (some ps) = do
    scan ← normalize_scan ps
    ok (json_dumps_canonical floats scan)

  unfoldable pub scan_normalized_signature : Json → Result Error String
  unfolding scan_signature_obj
  scan_normalized_signature (obj fs) = scan_signature_obj fs (get_field "parquetScan" fs)
  scan_normalized_signature v = ok (json_dumps_canonical floats v)

  abbrev pub entry_node : Fields → Json
  entry_node e = get_or (obj end) (get_field "node" e)

  -- `isinstance(sid, int)`, which a Boolean is
  abbrev pub entry_id : Fields → Option ℤ
  entry_id e = elim (get_field "id" e) [
    | none ↦ none
    | some v ↦ elim v [ int n ↦ some n | bool b ↦ some (bool_int b) | _ ↦ none ]
  ]

  -- The body of the loop of `_build_scan_signature_map`.
  unfoldable pub add_signature : Dict ℤ String → Fields → Result Error (Dict ℤ String)
  add_signature sigs entry = do
    sid ← or_raise (entry_id entry) (plan_transfer Reason.entry_id_must_be_int)
    sig ← scan_normalized_signature (entry_node entry)
    ok (insert sid sig sigs)

  unfoldable pub build_scan_signature_map : Json → Result Error (Dict ℤ String)
  build_scan_signature_map info = do
    entries ← table_info_entries info
    for_each add_signature [] entries

abbrev pub group_or_empty {ℓ} : {A : Type ℓ} → Option (List A) → List A
group_or_empty none = []
group_or_empty (some xs) = xs

-- `by_sig.setdefault(sig, []).append(x)`
unfoldable pub add_to_group {ℓ} :
    {A : Type ℓ} → String → A → Dict String (List A) → Dict String (List A)
add_to_group sig x groups = insert sig (group_or_empty (lookup sig groups) ++ x ∷ []) groups

-- The ids of each signature, in the order of the map.
unfoldable pub group_by_sig : Dict String (List ℤ) → Dict ℤ String → Dict String (List ℤ)
group_by_sig groups [] = groups
group_by_sig groups ((sid, sig) ∷ sigs) = group_by_sig (add_to_group sig sid groups) sigs

-- `for sig in by_sig: by_sig[sig] = sorted(by_sig[sig])`
unfoldable pub sort_groups : Dict String (List ℤ) → Dict String (List ℤ)
sort_groups [] = []
sort_groups ((sig, ids) ∷ groups) = (sig, sort int_leb ids) ∷ sort_groups groups

-- `for i, sf1_id in enumerate(sf1_ids): mapping[sf1_id] = sf2_ids[i]`; there are enough `sf2_ids`.
unfoldable pub pair_ids : List ℤ → List ℤ → Dict ℤ ℤ → Dict ℤ ℤ
pair_ids [] sf2_ids mapping = mapping
pair_ids (a ∷ more) [] mapping = mapping
pair_ids (a ∷ more) (b ∷ bs) mapping = pair_ids more bs (insert a b mapping)

-- The body of the last loop.
unfoldable pub pair_group :
    Dict String (List ℤ) → Dict ℤ ℤ → String × List ℤ → Result Error (Dict ℤ ℤ)
pair_group sf2_by_sig mapping (sig, sf1_ids) =
    let sf2_ids = group_or_empty (lookup sig sf2_by_sig) in
    do
      guard (leb (length sf1_ids) (length sf2_ids))
          (plan_transfer (Reason.scan_signature_unmatched (length sf1_ids) (length sf2_ids)))
      ok (pair_ids sf1_ids sf2_ids mapping)

-- What follows the two signature maps.
unfoldable pub match_signatures : Dict ℤ String → Dict ℤ String → Result Error (Dict ℤ ℤ)
match_signatures sf1_sig sf2_sig =
    for_each (pair_group (sort_groups (group_by_sig [] sf2_sig))) []
      (sort_groups (group_by_sig [] sf1_sig))

unfoldable pub build_scan_id_mapping : Floats → Json → Json → Result Error (Dict ℤ ℤ)
build_scan_id_mapping floats sf1_succinct sf2_succinct = do
  sf1_sig ← build_scan_signature_map floats sf1_succinct
  sf2_sig ← build_scan_signature_map floats sf2_succinct
  match_signatures sf1_sig sf2_sig
