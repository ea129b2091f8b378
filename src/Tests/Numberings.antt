-- ===== src/Tests/Numberings.antt =====
-- References, scan signatures, the traversal, the new numbering and the rewriting, on small plans.
use llm_evolutionary_samplin.Prelude.{
  ℕ, ℤ, pos, String, ◌≡◌, refl, true, List, [], ◌∷◌, ok, some, ◌⊎◌, parse_int, is_digit, str_ℤ,
  contains, IsDistinct, int_eq,
}
use llm_evolutionary_samplin.Prelude.Dict.{Dict, values, lookup, insert}
use llm_evolutionary_samplin.Prelude.Sort.{insert_sorted, sort}
use llm_evolutionary_samplin.Json.{obj, Fields, end, field}
use llm_evolutionary_samplin.Json.Objects.{get_field, has_field, set_field}
use llm_evolutionary_samplin.Json.Dumps.{json_dumps_canonical}
use llm_evolutionary_samplin.Refs.{
  is_scalar_key, is_list_key, is_intish, to_int, ints_of, direct_refs, internal_ids, plan_refs,
  validate_node, validate_nodes, validate_structure_dict, bad_refs, validate_references, refs_of,
}
use llm_evolutionary_samplin.Refs.Sound.{first, Refers, validate_references_sound}
use llm_evolutionary_samplin.Scans.{
  keep_entries, table_info_entries, py_get, scan_normalized_signature, add_signature,
  build_scan_signature_map, add_to_group, group_by_sig, sort_groups, pair_ids, pair_group,
  match_signatures, build_scan_id_mapping,
}
use llm_evolutionary_samplin.Scans.Mapping.{IsScanMapping, build_scan_id_mapping-IsScanMapping}
use llm_evolutionary_samplin.Graph.{
  find_internal_references, find_roots, nodes_by_id, extract, children_of, visit_each, dfs,
  traversal_order, topo_order_from_roots,
}
use llm_evolutionary_samplin.Graph.Order.{traversal_order-exact}
use llm_evolutionary_samplin.Renumber.{
  next_free, new_id, assign_one, assign_each, ids_of, with_missing, assign_new_node_ids,
}
use llm_evolutionary_samplin.Renumber.Laws.{
  IsRenumbering, assign_new_node_ids-IsRenumbering, assign_new_node_ids-same,
}
use llm_evolutionary_samplin.Rewrite.{
  renamed, map_ref, map_refs, rewrite_entry, rewrite_obj, old_to_new_key, rewrite_node,
  rewrite_nodes, rewrite_plan_references,
}
use llm_evolutionary_samplin.Rewrite.Renames.{IsFlatAt, rename_refs, refs-rewrite_obj}
use llm_evolutionary_samplin.Rewrite.Keys.{rewrite_plan_references_ids}
use llm_evolutionary_samplin.Tests.Plans.{
  no_floats, number, sf1_info, sf2_info, sf1_fields, limit, join,
}

abbrev plan : Fields
plan = field "3" (limit 0) (field "0" (join 1 2) end)

abbrev scan_ids : List ℤ
scan_ids = pos 1 ∷ pos 2 ∷ []

accepted : validate_references "test" plan scan_ids ≡ ok tt
unfolding validate_references bad_refs plan_refs internal_ids refs_of direct_refs ints_of to_int
    is_intish is_list_key is_scalar_key parse_int is_digit
accepted = refl

refers : Refers (pos 0) (limit 0)
unfolding direct_refs is_scalar_key is_list_key is_intish to_int
refers =
    Refers.deeper "limit" (obj (field "input" (number 0) end)) first refl
      (Refers.by_scalar "input" (number 0) first refl refl refl)

validate_references_sound_example :
    (contains (internal_ids plan) (pos 0) ≡ true) ⊎ (contains scan_ids (pos 0) ≡ true)
validate_references_sound_example =
    validate_references_sound "test" plan scan_ids accepted "3" (limit 0) (pos 0) first refers

valid : validate_structure_dict "test" (obj plan) ≡ ok plan
unfolding validate_structure_dict validate_nodes validate_node is_digit
valid = refl

abbrev scan_map : Dict ℤ ℤ
scan_map = (pos 11, pos 1) ∷ (pos 10, pos 2) ∷ []

mapped :
    build_scan_id_mapping no_floats sf1_info sf2_info ≡ ok ((pos 10, pos 2) ∷ (pos 11, pos 1) ∷ [])
unfolding build_scan_id_mapping match_signatures pair_group pair_ids sort_groups group_by_sig
    add_to_group build_scan_signature_map add_signature scan_normalized_signature py_get
    table_info_entries keep_entries json_dumps_canonical get_field has_field insert_sorted sort
    lookup insert str_ℤ
mapped = refl

traversal_order-exact_example :
    (order : List ℤ) × (traversal_order sf1_fields ≡ some order)
    × IsDistinct order
    × ((i : ℤ) → contains order i ≡ contains (internal_ids sf1_fields) i)
traversal_order-exact_example = traversal_order-exact sf1_fields

assign_new_node_ids-IsRenumbering_example :
    (m : Dict ℤ ℤ) × (assign_new_node_ids sf1_fields scan_ids ≡ some m)
    × IsRenumbering sf1_fields scan_ids m
assign_new_node_ids-IsRenumbering_example = assign_new_node_ids-IsRenumbering sf1_fields scan_ids

build_scan_id_mapping-IsScanMapping_example :
    (sf1 : Dict ℤ String) × (sf2 : Dict ℤ String) × (build_scan_signature_map no_floats sf1_info
      ≡ ok sf1)
    × (build_scan_signature_map no_floats sf2_info ≡ ok sf2)
    × IsScanMapping sf1 sf2 ((pos 10, pos 2) ∷ (pos 11, pos 1) ∷ [])
build_scan_id_mapping-IsScanMapping_example =
    build_scan_id_mapping-IsScanMapping no_floats sf1_info sf2_info
      ((pos 10, pos 2) ∷ (pos 11, pos 1) ∷ []) mapped

numbered : assign_new_node_ids sf1_fields [] ≡ some ((pos 2, pos 2) ∷ (pos 1, pos 1) ∷ [])
unfolding assign_new_node_ids with_missing ids_of assign_each assign_one new_id next_free
    topo_order_from_roots traversal_order dfs visit_each children_of extract nodes_by_id find_roots
    find_internal_references internal_ids plan_refs refs_of direct_refs ints_of to_int is_intish
    is_list_key is_scalar_key get_field insert_sorted sort lookup insert is_digit parse_int str_ℤ
numbered = refl

internal_1 : contains (internal_ids sf1_fields) (pos 1) ≡ true
unfolding internal_ids is_digit parse_int
internal_1 = refl

assign_new_node_ids-same_example :
    lookup (pos 1) ((pos 2, pos 2) ∷ (pos 1, pos 1) ∷ []) ≡ some (pos 1)
assign_new_node_ids-same_example =
    assign_new_node_ids-same sf1_fields [] ((pos 2, pos 2) ∷ (pos 1, pos 1) ∷ []) numbered
      (λ i h. refl) (pos 1) internal_1

abbrev new_ids : Dict ℤ ℤ
new_ids = (pos 2, pos 0) ∷ (pos 1, pos 3) ∷ []

abbrev new_scans : Dict ℤ ℤ
new_scans = (pos 10, pos 2) ∷ (pos 11, pos 1) ∷ []

number_flat : (k : String) (n : ℕ) → IsFlatAt k (number n)
unfolding is_intish
number_flat k n scalar other = cc other

join_flat : IsFlatAt "hashJoin" (obj (field "left" (number 10) (field "right" (number 2) end)))
unfolding is_scalar_key
join_flat scalar other = cc scalar

refs-rewrite_obj_example :
    refs_of (rewrite_obj new_ids new_scans (join 10 2))
    ≡ rename_refs new_ids new_scans (refs_of (join 10 2))
refs-rewrite_obj_example =
    refs-rewrite_obj new_ids new_scans (join 10 2)
      (join_flat, (number_flat "left" 10, tt, (number_flat "right" 2, tt, tt)), tt)

rewritten :
    rewrite_plan_references new_ids new_scans sf1_fields "test"
    ≡ ok (field "3" (limit 0) (field "0" (join 2 1) end))
unfolding rewrite_plan_references rewrite_nodes rewrite_node old_to_new_key rewrite_obj
    rewrite_entry map_refs map_ref renamed is_list_key is_scalar_key is_intish to_int lookup
    parse_int is_digit str_ℤ has_field get_field set_field
rewritten = refl

new_3 : contains (internal_ids (field "3" (limit 0) (field "0" (join 2 1) end))) (pos 3) ≡ true
unfolding internal_ids is_digit parse_int
new_3 = refl

rewrite_plan_references_ids_example : contains (values new_ids) (pos 3) ≡ true
rewrite_plan_references_ids_example =
    rewrite_plan_references_ids new_ids new_scans sf1_fields
      (field "3" (limit 0) (field "0" (join 2 1) end)) "test" (pos 3) rewritten new_3
