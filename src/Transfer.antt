-- ===== src/Transfer.antt =====
-- `_transfer_plan` and `transfer_plan` of src/sampling/plan_scaler.py. Inputs are values here, so the
-- tests that no input was mutated always pass and are left out, as are the snapshots they compare.
pub mod Results
use llm_evolutionary_samplin.Prelude.{
  ℕ, ℤ, String, Bool, true, false, Option, none, some, List, [], ◌∷◌, Result, ok, err, ◌>>=◌, ◌>>◌,
  guard, or_raise, ◌==◌, nat_eq, int_eq, if◌then◌else◌, length, contains,
}
use llm_evolutionary_samplin.Prelude.Dict.{Dict, keys}
use llm_evolutionary_samplin.Error.{
  Error, Reason, plan_transfer, attribute_error, type_error, value_error, key_error, runtime_error,
  index_error, stop_iteration, file_not_found,
}
use llm_evolutionary_samplin.Json.{Json, obj, Fields}
use llm_evolutionary_samplin.Json.Equality.{Floats}
use llm_evolutionary_samplin.Patch.{apply_json_patch}
use llm_evolutionary_samplin.Refs.{validate_structure_dict, validate_references, bad_refs, targets}
use llm_evolutionary_samplin.Scans.{build_scan_id_mapping, build_scan_signature_map}
use llm_evolutionary_samplin.Rebind.{rebind_parquet_scans_in_structure}
use llm_evolutionary_samplin.Renumber.{assign_new_node_ids}
use llm_evolutionary_samplin.Rewrite.{rewrite_plan_references}

-- `except PlanTransferError: raise` and `except Exception as e: raise PlanTransferError(reason)`
abbrev pub or_wrap {ℓ} : {A : Type ℓ} → Result Error A → Reason → Result Error A
or_wrap (ok a) reason = ok a
or_wrap (err (plan_transfer r)) reason = err (plan_transfer r)
or_wrap (err attribute_error) reason = err (plan_transfer reason)
or_wrap (err type_error) reason = err (plan_transfer reason)
or_wrap (err value_error) reason = err (plan_transfer reason)
or_wrap (err key_error) reason = err (plan_transfer reason)
or_wrap (err runtime_error) reason = err (plan_transfer reason)
or_wrap (err index_error) reason = err (plan_transfer reason)
or_wrap (err stop_iteration) reason = err (plan_transfer reason)
or_wrap (err file_not_found) reason = err (plan_transfer reason)

-- `except Exception as e: raise PlanTransferError(reason)`
abbrev pub wrap_all {ℓ} : {A : Type ℓ} → Result Error A → Reason → Result Error A
wrap_all (ok a) reason = ok a
wrap_all (err e) reason = err (plan_transfer reason)

-- `unresolved` is a set.
unfoldable pub distinct : List ℤ → List ℤ
distinct [] = []
distinct (n ∷ ns) = let rest = distinct ns in if contains rest n then rest else n ∷ rest

-- Step 6.
unfoldable pub check_unresolved : Fields → List ℤ → Result Error (Unit {0})
check_unresolved transferred sf2_scan_ids =
    let unresolved = distinct (targets (bad_refs transferred sf2_scan_ids)) in
    guard (length unresolved == 0) (plan_transfer (Reason.unresolved_leaf_refs (length unresolved)))

-- The recursion of the traversal has fuel enough (`Graph.Order.traversal_order-exact`), so the error at
-- `assign_new_node_ids` is never raised.
unfoldable pub transfer_core : Floats → Json → Json → Json → Json → Json → Result Error Fields
transfer_core floats sf1_base sf1_info sf2_base sf2_info sf1_opt = do
  _ ← validate_structure_dict "transfer: sf1_base_structure" sf1_base
  _ ← validate_structure_dict "transfer: sf2_base_structure" sf2_base
  opt ← validate_structure_dict "transfer: sf1_opt_structure" sf1_opt
  scan_id_map ← build_scan_id_mapping floats sf1_info sf2_info
  sf2_sigs ← build_scan_signature_map floats sf2_info
  let sf2_scan_ids = keys sf2_sigs
  rebased ←
      or_wrap (rebind_parquet_scans_in_structure floats opt sf2_info)
        Reason.rebind_parquet_scans_failed
  internal_id_map ← or_raise (assign_new_node_ids rebased sf2_scan_ids) key_error
  transferred ←
      or_wrap (rewrite_plan_references internal_id_map scan_id_map rebased "transfer")
        Reason.rewrite_references_failed
  _ ← validate_structure_dict "transfer: transferred_structure" (obj transferred)
  validate_references "transfer: transferred_structure" transferred sf2_scan_ids
  check_unresolved transferred sf2_scan_ids
  ok transferred

unfoldable pub transfer_plan : Floats → Json → Json → Json → Json → Json → Result Error Fields
transfer_plan floats sf1_base sf1_info sf2_base sf2_info sf1_patch = do
  sf1_opt ← wrap_all (apply_json_patch floats sf1_base sf1_patch) Reason.patch_apply_failed
  _ ← validate_structure_dict "validation: sf1_opt_structure" sf1_opt
  transferred ← transfer_core floats sf1_base sf1_info sf2_base sf2_info sf1_opt
  _ ← validate_structure_dict "validation: transferred_structure" (obj transferred)
  sf2_sigs ← build_scan_signature_map floats sf2_info
  validate_references "validation: transferred_structure" transferred (keys sf2_sigs)
  ok transferred
