-- ===== src/Patch.antt =====
-- `_apply_json_patch` of src/sampling/plan_scaler.py. `copy.deepcopy` is the identity on values.
pub mod Laws
use llm_evolutionary_samplin.Prelude.{
  ℕ, suc, ◌+◌, String, Bool, true, false, Option, none, some, List, [], ◌∷◌, Result, ok, err, ◌>>=◌,
  or_raise, ◌==◌, string_eq, if◌then◌else◌, not,
}
use llm_evolutionary_samplin.Error.{Error, Reason, plan_transfer}
use llm_evolutionary_samplin.Json.{Json, str, arr, obj, Items, nil, cons, Fields}
use llm_evolutionary_samplin.Json.Objects.{get_field}
use llm_evolutionary_samplin.Json.Equality.{Floats, py_eq}
use llm_evolutionary_samplin.Pointer.{
  json_pointer_get, json_pointer_add, json_pointer_remove, json_pointer_replace,
}

-- `opname == "add"`, where `opname` may be any value
abbrev pub is_text : Json → String → Bool
is_text (str s) t = s == t
is_text _ t = false

-- `op["value"]`, after the test that it is there
abbrev pub required : String → Fields → Reason → Result Error Json
required key op reason = or_raise (get_field key op) (plan_transfer reason)

module _ (floats : Floats) where
  -- The branches of the loop's body, by the operation's name.
  unfoldable pub apply_named : ℕ → Json → Json → Json → Fields → Result Error Json
  apply_named i cur opname path op =
      if is_text opname "add"
      then (do
        value ← required "value" op (Reason.add_missing_value i)
        json_pointer_add cur path value)
      else if is_text opname "remove"
      then json_pointer_remove cur path
      else if is_text opname "replace"
      then (do
        value ← required "value" op (Reason.replace_missing_value i)
        json_pointer_replace cur path value)
      else if is_text opname "move"
      then (do
        from ← required "from" op (Reason.move_missing_from i)
        val ← json_pointer_get cur from
        cur' ← json_pointer_remove cur from
        json_pointer_add cur' path val)
      else if is_text opname "copy"
      then (do
        from ← required "from" op (Reason.copy_missing_from i)
        val ← json_pointer_get cur from
        json_pointer_add cur path val)
      else if is_text opname "test"
      then (do
        expected ← required "value" op (Reason.test_missing_value i)
        actual ← json_pointer_get cur path
        if py_eq floats actual expected then ok cur else err (plan_transfer (Reason.test_failed i)))
      else err (plan_transfer (Reason.unsupported_op i))

  unfoldable pub apply_op : ℕ → Json → Json → Result Error Json
  apply_op i cur (obj op) = do
    opname ← required "op" op (Reason.invalid_op i)
    path ← required "path" op (Reason.invalid_op i)
    apply_named i cur opname path op
  apply_op i cur _ = err (plan_transfer (Reason.invalid_op i))

  -- `for i, op in enumerate(patch)`, from index `i` on
  unfoldable pub apply_ops : ℕ → Json → Items → Result Error Json
  apply_ops i cur nil = ok cur
  apply_ops i cur (cons op ops) = do cur' ← apply_op i cur op; apply_ops (i + 1) cur' ops

  unfoldable pub apply_json_patch : Json → Json → Result Error Json
  apply_json_patch doc (arr patch) = apply_ops 0 doc patch
  apply_json_patch doc _ = err (plan_transfer Reason.patch_must_be_list)
