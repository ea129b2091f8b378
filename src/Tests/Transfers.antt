-- ===== src/Tests/Transfers.antt =====
-- A plan moved between two scale factors.
use llm_evolutionary_samplin.Prelude.{ℤ, String, ◌≡◌, refl, ok, is_digit, parse_int, str_ℕ, str_ℤ}
use llm_evolutionary_samplin.Prelude.Dict.{Dict, keys, lookup, insert}
use llm_evolutionary_samplin.Prelude.Sort.{insert_sorted, sort}
use llm_evolutionary_samplin.Json.{Fields, end, field}
use llm_evolutionary_samplin.Json.Objects.{
  get_field, has_field, set_field, del_field, get_item, set_item, insert_item, pop_item,
}
use llm_evolutionary_samplin.Json.Equality.{py_eq}
use llm_evolutionary_samplin.Json.Dumps.{json_dumps_canonical}
use llm_evolutionary_samplin.Pointer.{
  json_pointer_unescape, json_pointer_split, index_of, step, walk, split_last, place_of,
  json_pointer_resolve_parent, json_pointer_get, write_back, add_to, remove_from, replace_in,
  change_parent, json_pointer_add, json_pointer_remove, json_pointer_replace,
}
use llm_evolutionary_samplin.Patch.{apply_named, apply_op, apply_ops, apply_json_patch}
use llm_evolutionary_samplin.Refs.{
  is_scalar_key, is_list_key, is_intish, to_int, ints_of, direct_refs, internal_ids, plan_refs,
  validate_node, validate_nodes, validate_structure_dict, bad_refs, validate_references, refs_of,
}
use llm_evolutionary_samplin.Scans.{
  keep_entries, table_info_entries, py_get, scan_normalized_signature, add_signature,
  build_scan_signature_map, add_to_group, group_by_sig, sort_groups, pair_ids, pair_group,
  match_signatures, build_scan_id_mapping,
}
use llm_evolutionary_samplin.Graph.{
  find_internal_references, find_roots, nodes_by_id, extract, children_of, visit_each, dfs,
  traversal_order, topo_order_from_roots,
}
use llm_evolutionary_samplin.Renumber.{
  next_free, new_id, assign_one, assign_each, ids_of, with_missing, assign_new_node_ids,
}
use llm_evolutionary_samplin.Rewrite.{
  renamed, map_ref, map_refs, rewrite_entry, rewrite_obj, old_to_new_key, rewrite_node,
  rewrite_nodes, rewrite_plan_references,
}
use llm_evolutionary_samplin.Rebind.{
  sort_entries, sort_all_entries, entries_by_sig, scan_ids_by_sig, predicate_of, set_predicate,
  keep_predicate, rebind_ids, rebind_group, rebind_parquet_scans_in_structure,
}
use llm_evolutionary_samplin.Transfer.{distinct, check_unresolved, transfer_core, transfer_plan}
use llm_evolutionary_samplin.Transfer.Results.{IsRunnable, transfer_plan-IsRunnable}
use llm_evolutionary_samplin.Tests.Plans.{
  no_floats, sf1_base, sf1_info, sf2_info, swap_patch, limit, join,
}

-- The swapped join gets the free id 0, since 2 is a scan id now, and the limit the next free one.
abbrev pub moved : Fields
moved = field "3" (limit 0) (field "0" (join 1 2) end)

runs : transfer_plan no_floats sf1_base sf1_info sf1_base sf2_info swap_patch ≡ ok moved
unfolding transfer_plan transfer_core check_unresolved distinct rebind_parquet_scans_in_structure
    rebind_group rebind_ids keep_predicate set_predicate predicate_of scan_ids_by_sig entries_by_sig
    sort_all_entries sort_entries rewrite_plan_references rewrite_nodes rewrite_node old_to_new_key
    rewrite_obj rewrite_entry map_refs map_ref renamed assign_new_node_ids with_missing ids_of
    assign_each assign_one new_id next_free topo_order_from_roots traversal_order dfs visit_each
    children_of extract nodes_by_id find_roots find_internal_references build_scan_id_mapping
    match_signatures pair_group pair_ids sort_groups group_by_sig add_to_group
    build_scan_signature_map add_signature scan_normalized_signature py_get table_info_entries
    keep_entries refs_of validate_references bad_refs validate_structure_dict validate_nodes
    validate_node plan_refs internal_ids direct_refs ints_of to_int is_intish is_list_key
    is_scalar_key apply_json_patch apply_ops apply_op apply_named json_pointer_replace
    json_pointer_remove json_pointer_add change_parent replace_in remove_from add_to write_back
    json_pointer_get json_pointer_resolve_parent place_of split_last walk step index_of
    json_pointer_split json_pointer_unescape json_dumps_canonical py_eq get_field has_field
    set_field del_field get_item set_item insert_item pop_item insert_sorted sort lookup insert
    is_digit parse_int str_ℕ str_ℤ
runs = refl

transfer_plan-IsRunnable_example :
    (sigs : Dict ℤ String) × (build_scan_signature_map no_floats sf2_info ≡ ok sigs)
    × IsRunnable (keys sigs) moved
transfer_plan-IsRunnable_example =
    transfer_plan-IsRunnable no_floats sf1_base sf1_info sf1_base sf2_info swap_patch moved runs
