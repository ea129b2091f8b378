-- ===== src/Rebind.antt =====
-- `_rebind_parquet_scans_in_structure` of src/sampling/plan_scaler.py.
use llm_evolutionary_samplin.Prelude.{
  ℤ, pos, String, Bool, true, false, ◌||◌, Option, none, some, List, [], ◌∷◌, Result, ok, err,
  ◌>>=◌, ◌>>◌, guard, or_raise, for_each, string_eq, int_eq, if◌then◌else◌, is_digit, parse_int,
  int_leb, leb, length, all,
}
use llm_evolutionary_samplin.Prelude.Dict.{Dict, lookup}
use llm_evolutionary_samplin.Prelude.Sort.{sort}
use llm_evolutionary_samplin.Error.{
  Error, Reason, plan_transfer, attribute_error, type_error, key_error,
}
use llm_evolutionary_samplin.Json.{Json, null, obj, Fields, end, entries}
use llm_evolutionary_samplin.Json.Objects.{get_field, set_field, has_field}
use llm_evolutionary_samplin.Json.Equality.{Floats}
use llm_evolutionary_samplin.Scans.{
  get_or, table_info_entries, scan_normalized_signature, entry_node, entry_id, group_or_empty,
  add_to_group,
}

-- Entries by their ids. Ids that are not all integers do not compare (a TypeError); the caller has
-- checked them before.
abbrev pub id_or_zero : Option ℤ → ℤ
id_or_zero none = pos 0
id_or_zero (some n) = n

abbrev pub has_int_id : Floats → Fields → Bool
has_int_id floats e = elim (entry_id floats e) [ none ↦ false | some n ↦ true ]

-- `sorted(entries, key=lambda x: x["id"])` for integer ids. In `_transfer_plan` the scan signature map has
-- raised before for any other id.
unfoldable pub sort_entries : Floats → List Fields → Result Error (List Fields)
sort_entries floats es =
    if leb (length es) 1 || all (has_int_id floats) es
    then ok
        (sort (λ a b. int_leb (id_or_zero (entry_id floats a)) (id_or_zero (entry_id floats b))) es)
    else err type_error

unfoldable pub sort_all_entries :
    Floats → Dict String (List Fields) → Result Error (Dict String (List Fields))
sort_all_entries floats [] = ok []
sort_all_entries floats ((sig, es) ∷ groups) = do
  sorted ← sort_entries floats es
  rest ← sort_all_entries floats groups
  ok ((sig, sorted) ∷ rest)

-- `sf2_by_sig`
unfoldable pub entries_by_sig :
    Floats → Dict String (List Fields) → Fields → Result Error (Dict String (List Fields))
entries_by_sig floats groups e = do
  sig ← scan_normalized_signature floats (entry_node floats e)
  ok (add_to_group sig e groups)

abbrev pub is_scan : Json → Bool
is_scan (obj fs) = has_field "parquetScan" fs
is_scan _ = false

-- The numeric keys with their nodes, by number.
abbrev pub numeric : List (String × Json) → List (String × Json)
numeric [] = []
numeric ((k, v) ∷ es) = if is_digit k then (k, v) ∷ numeric es else numeric es

abbrev pub by_number : String × Json → String × Json → Bool
by_number a b = int_leb (id_or_zero (parse_int a.0)) (id_or_zero (parse_int b.0))

-- `struct_scan_ids_by_sig`
unfoldable pub scan_ids_by_sig :
    Floats → Dict String (List String) → String × Json → Result Error (Dict String (List String))
scan_ids_by_sig floats groups (nid, node) =
    if is_scan node
    then (do sig ← scan_normalized_signature floats node; ok (add_to_group sig nid groups))
    else ok groups

-- `sf1_node.get("parquetScan", {}).get("predicate", None)`, and None if that raises
unfoldable pub predicate_of : Json → Json
predicate_of (obj fs) = elim (get_or (obj end) (get_field "parquetScan" fs)) [
  | obj ps ↦ get_or null (get_field "predicate" ps)
  | _ ↦ null
]
predicate_of _ = null

-- `node["parquetScan"]["predicate"] = pred`, after the `setdefault`
unfoldable pub set_predicate : Json → Json → Result Error Json
set_predicate pred (obj fs) = elim (get_or (obj end) (get_field "parquetScan" fs)) [
  | obj ps ↦ ok (obj (set_field "parquetScan" (obj (set_field "predicate" pred ps)) fs))
  | _ ↦ err type_error
]
set_predicate pred _ = err attribute_error

-- `if sf1_pred is not None: …`
unfoldable pub keep_predicate : Json → Json → Result Error Json
keep_predicate null node = ok node
keep_predicate pred node = set_predicate pred node

-- `for i, nid_str in enumerate(node_ids): …`; there are enough entries.
unfoldable pub rebind_ids : Floats → List String → List Fields → Fields → Result Error Fields
rebind_ids floats [] es out = ok out
rebind_ids floats (nid ∷ nids) [] out = ok out
rebind_ids floats (nid ∷ nids) (e ∷ es) out = do
  sf1_node ← or_raise (get_field nid out) key_error
  node ← keep_predicate (predicate_of sf1_node) (entry_node floats e)
  rebind_ids floats nids es (set_field nid node out)

unfoldable pub rebind_group :
    Floats → Dict String (List Fields) → Fields → String × List String → Result Error Fields
rebind_group floats sf2_by_sig out (sig, node_ids) =
    let sf2_list = group_or_empty (lookup sig sf2_by_sig) in
    do
      guard (leb (length node_ids) (length sf2_list)) (
          plan_transfer
            (Reason.rebind_scan_signature_unmatched (length node_ids) (length sf2_list)))
      rebind_ids floats node_ids sf2_list out

unfoldable pub rebind_parquet_scans_in_structure : Floats → Fields → Json → Result Error Fields
rebind_parquet_scans_in_structure floats structure sf2_info = do
  sf2_entries ← table_info_entries sf2_info
  groups ← for_each (entries_by_sig floats) [] sf2_entries
  sf2_by_sig ← sort_all_entries floats groups
  scan_ids ← for_each (scan_ids_by_sig floats) [] (sort by_number (numeric (entries structure)))
  for_each (rebind_group floats sf2_by_sig) structure scan_ids
