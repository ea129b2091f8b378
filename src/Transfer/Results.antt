-- ===== src/Transfer/Results.antt =====
-- What a plan that `transfer_plan` returns guarantees.
use llm_evolutionary_samplin.Prelude.{
  ℤ, String, ◌≡◌, ap, subst, true, false, List, Result, ok, err, or_raise, >>=-eq-ok, arith, ◌⊎◌,
  contains, int_eq,
}
use llm_evolutionary_samplin.Prelude.Dict.{Dict, keys}
use llm_evolutionary_samplin.Error.{
  Error, Reason, plan_transfer, attribute_error, type_error, value_error, key_error, runtime_error,
  index_error, stop_iteration, file_not_found,
}
use llm_evolutionary_samplin.Json.{Json, obj, Fields}
use llm_evolutionary_samplin.Json.Equality.{Floats}
use llm_evolutionary_samplin.Patch.{apply_json_patch}
use llm_evolutionary_samplin.Refs.{validate_structure_dict, validate_references, internal_ids}
use llm_evolutionary_samplin.Refs.Sound.{
  FieldIn, Refers, IsNode, validate_references_sound, validate_structure_dict-IsNode,
}
use llm_evolutionary_samplin.Scans.{build_scan_id_mapping, build_scan_signature_map}
use llm_evolutionary_samplin.Rebind.{rebind_parquet_scans_in_structure}
use llm_evolutionary_samplin.Renumber.{assign_new_node_ids}
use llm_evolutionary_samplin.Renumber.Laws.{assign_new_node_ids-IsRenumbering}
use llm_evolutionary_samplin.Rewrite.{rewrite_plan_references}
use llm_evolutionary_samplin.Rewrite.Keys.{rewrite_plan_references_ids}
use llm_evolutionary_samplin.Transfer.{
  or_wrap, wrap_all, check_unresolved, transfer_core, transfer_plan,
}

or_wrap_ok {ℓ} :
    {A : Type ℓ} (r : Result Error A) (reason : Reason) {a : A} → or_wrap r reason ≡ ok a → r ≡ ok a
or_wrap_ok (ok a) reason h = h
or_wrap_ok (err (plan_transfer r)) reason h = cc
or_wrap_ok (err attribute_error) reason h = cc
or_wrap_ok (err type_error) reason h = cc
or_wrap_ok (err value_error) reason h = cc
or_wrap_ok (err key_error) reason h = cc
or_wrap_ok (err runtime_error) reason h = cc
or_wrap_ok (err index_error) reason h = cc
or_wrap_ok (err stop_iteration) reason h = cc
or_wrap_ok (err file_not_found) reason h = cc

-- `ids` are the scan ids of the second scale factor.
pub record IsRunnable (ids : List ℤ) (plan : Fields) : Type 0 where
  pub nodes : (nid : String) (node : Json) → FieldIn nid node plan → IsNode nid node
  pub resolved :
      (nid : String) (node : Json) (r : ℤ)
      → FieldIn nid node plan
      → Refers r node
      → (contains (internal_ids plan) r ≡ true) ⊎ (contains ids r ≡ true)
  pub apart : (i : ℤ) → contains (internal_ids plan) i ≡ true → contains ids i ≡ false

-- The three guarantees, carried from the plan and the ids that the last checks saw.
IsRunnable-same :
    {ids ids' : List ℤ} {plan plan' : Fields}
    → plan' ≡ plan
    → ids' ≡ ids
    → ((nid : String) (node : Json) → FieldIn nid node plan' → IsNode nid node)
    → ((nid : String) (node : Json) (r : ℤ)
        → FieldIn nid node plan'
        → Refers r node
        → (contains (internal_ids plan') r ≡ true) ⊎ (contains ids r ≡ true))
    → ((i : ℤ) → contains (internal_ids plan') i ≡ true → contains ids' i ≡ false)
    → IsRunnable ids plan
IsRunnable-same {ids} same one nodes resolved apart = subst (IsRunnable ids) same (record {
  nodes = nodes;
  resolved = resolved;
  apart = λ i c. subst (λ l. contains l i ≡ false) one (apart i c);
})

module _ (floats : Floats) where
  -- A new numbering is apart from the scan ids.
  renumbered_apart :
      (structure : Fields) (ids : List ℤ) (m scans : Dict ℤ ℤ) (plan : Fields) (stage : String)
      → or_raise (assign_new_node_ids structure ids) key_error ≡ ok m
      → rewrite_plan_references m scans structure stage ≡ ok plan
      → (i : ℤ) → contains (internal_ids plan) i ≡ true
      → contains ids i ≡ false
  renumbered_apart structure ids m scans plan stage e h i c =
      let (m', found, renumbering) = assign_new_node_ids-IsRenumbering structure ids in
      let same : m' ≡ m = ground arith in
      renumbering.values_apart i
        (rw same (rewrite_plan_references_ids m scans structure plan stage i h c))

  transfer_core-apart :
      (base1 info1 base2 info2 opt : Json) (plan : Fields)
      → transfer_core floats base1 info1 base2 info2 opt ≡ ok plan
      → (sigs : Dict ℤ String) × (build_scan_signature_map floats info2 ≡ ok sigs)
        × ((i : ℤ) → contains (internal_ids plan) i ≡ true → contains (keys sigs) i ≡ false)
  unfolding transfer_core
  transfer_core-apart base1 info1 base2 info2 opt plan h =
      let (_, _, h1) =
        >>=-eq-ok (validate_structure_dict "transfer: sf1_base_structure" base1) _ h in
      let (_, _, h2) =
        >>=-eq-ok (validate_structure_dict "transfer: sf2_base_structure" base2) _ h1 in
      let (structure, _, h3) =
        >>=-eq-ok (validate_structure_dict "transfer: sf1_opt_structure" opt) _ h2 in
      let (scans, _, h4) = >>=-eq-ok (build_scan_id_mapping floats info1 info2) _ h3 in
      let (sigs, es, h5) = >>=-eq-ok (build_scan_signature_map floats info2) _ h4 in
      let (rebased, _, h6) =
        >>=-eq-ok
          (or_wrap (rebind_parquet_scans_in_structure floats structure info2)
            Reason.rebind_parquet_scans_failed)
          _ h5 in
      let (m, em, h7) =
        >>=-eq-ok (or_raise (assign_new_node_ids rebased (keys sigs)) key_error) _ h6 in
      let (plan', ep, h8) =
        >>=-eq-ok
          (or_wrap (rewrite_plan_references m scans rebased "transfer")
            Reason.rewrite_references_failed)
          _ h7 in
      let (_, _, h9) =
        >>=-eq-ok (validate_structure_dict "transfer: transferred_structure" (obj plan')) _ h8 in
      let (_, _, h10) =
        >>=-eq-ok (validate_references "transfer: transferred_structure" plan' (keys sigs)) _ h9 in
      let (_, _, last) = >>=-eq-ok (check_unresolved plan' (keys sigs)) (λ _. ok plan') h10 in
      let same : plan' ≡ plan = cc last in
      (
        sigs,
        es,
        λ i c.
            renumbered_apart rebased (keys sigs) m scans plan' "transfer" em
              (or_wrap_ok (rewrite_plan_references m scans rebased "transfer") _ ep) i (rw same c),
      )

  -- If `transfer_plan` returns a structure, then the scan ids of the second scale factor are known, every
  -- key of the structure is a decimal text and every node an object with exactly one operator, whatever a
  -- node refers to is the id of a node or such a scan id, and no id is both.
  pub transfer_plan-IsRunnable :
      (base1 info1 base2 info2 patch : Json) (plan : Fields)
      → transfer_plan floats base1 info1 base2 info2 patch ≡ ok plan
      → (sigs : Dict ℤ String) × (build_scan_signature_map floats info2 ≡ ok sigs)
        × IsRunnable (keys sigs) plan
  unfolding transfer_plan
  transfer_plan-IsRunnable base1 info1 base2 info2 patch plan h =
      let (opt, _, h1) =
        >>=-eq-ok (wrap_all (apply_json_patch floats base1 patch) Reason.patch_apply_failed) _ h in
      let (_, _, h2) =
        >>=-eq-ok (validate_structure_dict "validation: sf1_opt_structure" opt) _ h1 in
      let (plan', ec, h3) = >>=-eq-ok (transfer_core floats base1 info1 base2 info2 opt) _ h2 in
      let (structure, ev, h4) =
        >>=-eq-ok (validate_structure_dict "validation: transferred_structure" (obj plan')) _ h3 in
      let (sigs, es, h5) = >>=-eq-ok (build_scan_signature_map floats info2) _ h4 in
      let (u, er, last) =
        >>=-eq-ok (validate_references "validation: transferred_structure" plan' (keys sigs))
          (λ _. ok plan') h5 in
      let same : plan' ≡ plan = cc last in
      let (sigs', es', apart) = transfer_core-apart base1 info1 base2 info2 opt plan' ec in
      let one : sigs' ≡ sigs = cc in
      (
        sigs,
        es,
        IsRunnable-same same (ap keys one) (validate_structure_dict-IsNode _ plan' structure ev)
            (validate_references_sound _ plan' (keys sigs) er) apart,
      )
