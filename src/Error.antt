-- ===== src/Error.antt =====
-- What the code of src/sampling raises. A constructor of `Reason` stands for the text of
-- one `PlanTransferError`, with the values that the text names; the other exceptions are Python's own.
use llm_evolutionary_samplin.Prelude.{ℕ, String}

pub data Reason : Type 0 where
  -- patch-apply: the pointer functions
  invalid_json_pointer path_not_found invalid_list_index list_index_oob non_container : Reason
  dash_in_middle : Reason
  get_path_not_found get_invalid_list_index get_list_index_oob get_non_container : Reason
  add_invalid_list_index add_list_index_oob add_parent_non_container : Reason
  remove_root_not_allowed remove_path_not_found remove_invalid_list_index : Reason
  remove_list_index_oob remove_parent_non_container : Reason
  replace_invalid_list_index replace_list_index_oob replace_parent_non_container : Reason
  -- patch-apply: the operations, by their index in the patch
  patch_must_be_list : Reason
  invalid_op add_missing_value replace_missing_value move_missing_from : ℕ → Reason
  copy_missing_from test_missing_value test_failed unsupported_op : ℕ → Reason
  -- validation
  node_must_have_single_operator : Reason
  structure_must_be_dict : (stage : String) → Reason
  invalid_node_id node_must_be_dict node_without_single_operator : (stage key : String) → Reason
  dangling_refs : (stage : String) (count : ℕ) → Reason
  -- transfer
  bad_table_info entry_id_must_be_int : Reason
  scan_signature_unmatched : (sf1_count sf2_count : ℕ) → Reason
  rebind_scan_signature_unmatched : (struct_count sf2_count : ℕ) → Reason
  non_numeric_node_id missing_internal_id_map : (stage key : String) → Reason
  unresolved_leaf_refs : (count : ℕ) → Reason
  -- the wrappers around any exception that is not a PlanTransferError
  patch_apply_failed rebind_parquet_scans_failed rewrite_references_failed : Reason

pub data Error : Type 0 where
  plan_transfer : Reason → Error
  attribute_error type_error value_error key_error runtime_error : Error
  index_error stop_iteration file_not_found : Error
