-- ===== src/Operations.antt =====
-- `submit_run_operation` of src/modal_controller/utils.py: an operation is run remotely with retries, or
-- locally, and errors are mapped to messages.
pub mod Retries
use Prim.Native.Char.{code}
use Prim.Native.String.{String, ◌++◌}
use llm_evolutionary_samplin.Prelude.{
  ℕ, zero, suc, ◌+◌, ℤ, pos, negsuc, Bool, true, false, not, ◌&&◌, ◌||◌, Option, none, some, List,
  [], ◌∷◌, ◌==◌, nat_eq, if◌then◌else◌, Result, ok, err, ◌>>=◌, string_eq, contains,
}
use llm_evolutionary_samplin.Error.{Error, attribute_error, type_error, value_error}
use llm_evolutionary_samplin.Json.{
  Json, Items, null, bool, int, float, str, arr, obj, nil, cons, end, field,
}
use llm_evolutionary_samplin.Json.Objects.{get_field, set_field}
use llm_evolutionary_samplin.Json.Equality.{Floats, py_eq}
use llm_evolutionary_samplin.Metric.{truthy}
use llm_evolutionary_samplin.Validation.{dict_get}

-- `RETRY_DEFAULT_ERROR_KWS` of src/modal_controller/constants.py
abbrev pub retry_default_error_kws : List String
retry_default_error_kws =
    "Status.RESOURCE_EXHAUSTED" ∷ "Status.UNAVAILABLE" ∷ "Protocol error"
    ∷ "No UUID found in output." ∷ "Error retrieving result from S3 for UUID"
    ∷ "internal server error" ∷ "Failed to convert from succinct JSON:" ∷ []

-- `RETRY_ONLY_ONCE`
abbrev pub retry_only_once : List String
retry_only_once = "Failed to convert from succinct JSON:" ∷ []

-- `DEFAULT_ERROR_KWS_TO_MESSAGES`
abbrev pub default_error_kws_to_messages : List (String × String)
default_error_kws_to_messages =
    (
      "Status.RESOURCE_EXHAUSTED",
      "Error in our execution platform (Modal/S3): Status.RESOURCE_EXHAUSTED.",
    )
    ∷ ("Status.UNAVAILABLE", "Error in our execution platform (Modal/S3): Status.UNAVAILABLE.")
    ∷ ("Protocol error", "Error in our execution platform (Modal/S3): Protocol error.")
    ∷ (
      "No UUID found in output.",
      "Execution or result-saving failed/terminated unexpectedly in our execution platform (Modal/S3), so no usable output was produced.",
    )
    ∷ (
      "Error retrieving result from S3 for UUID",
      "Execution finished, but the saved output could not be retrieved from storage (S3).",
    )
    ∷ (
      "internal server error", "Error in our execution platform (Modal/S3): internal server error.",
    )
    ∷ []

-- `kw in text`
unfoldable pub starts_with : (kw text : String) → Bool
starts_with String.[] text = true
starts_with (String.◌∷◌ c kw) String.[] = false
starts_with (String.◌∷◌ c kw) (String.◌∷◌ d text) = (code c == code d) && starts_with kw text

unfoldable pub is_in : (kw text : String) → Bool
is_in kw String.[] = starts_with kw String.[]
is_in kw (String.◌∷◌ d text) = starts_with kw (String.◌∷◌ d text) || is_in kw text

-- `kw in value`, for any value
unfoldable pub kw_in_array : Floats → String → Items → Bool
kw_in_array floats kw nil = false
kw_in_array floats kw (cons x xs) = py_eq floats (str kw) x || kw_in_array floats kw xs

abbrev pub is_found : Option Json → Bool
is_found none = false
is_found (some v) = true

unfoldable pub kw_in : Floats → String → Json → Result Error Bool
kw_in floats kw (str text) = ok (is_in kw text)
kw_in floats kw (arr xs) = ok (kw_in_array floats kw xs)
kw_in floats kw (obj fs) = ok (is_found (get_field kw fs))
kw_in floats kw _ = err type_error

-- `next((kw for kw in kws if kw in error), None)`
unfoldable pub first_kw : Floats → Json → List String → Result Error (Option String)
first_kw floats error [] = ok none
first_kw floats error (kw ∷ kws) = do
  found ← kw_in floats kw error
  if found then ok (some kw) else first_kw floats error kws

abbrev pub error_dict : String → Json
error_dict message = obj (field "error" (str message) end)

-- What the attempts of an operation meet: the runner may not start, the run gives a UUID or None, or
-- raises, and the stored result of a UUID is fetched or not. An exception that is caught is its text.
pub record Remote : Type 0 where
  pub floats : Floats
  pub get_runner : ℕ → Result Error (Unit {0})
  pub run_operation : ℕ → Result String (Option String)
  pub get_s3_result : ℕ → String → Result String Json

-- A UUID, or an error dict.
pub data UuidOrError : Type 0 where
  found_uuid : String → UuidOrError
  found_error : Json → UuidOrError

abbrev pub ran : Result String (Option String) → UuidOrError
ran (err exc) = found_error (error_dict exc)
ran (ok none) = found_error (error_dict "No UUID found in output.")
ran (ok (some u)) = found_uuid u

unfoldable pub run_attempt : Remote → ℕ → Result Error UuidOrError
run_attempt remote i = do _ ← remote.get_runner i; ok (ran (remote.run_operation i))

abbrev pub fetched : String → Result String Json → Json
fetched u (ok result) = result
fetched u (err exc) = error_dict ("Error retrieving result from S3 for UUID " ++ u ++ ": " ++ exc)

unfoldable pub read_uuid_result : Remote → ℕ → String → Json
read_uuid_result remote i uuid =
    if uuid == ""
    then error_dict "No UUID found in output."
    else fetched uuid (remote.get_s3_result i uuid)

abbrev pub result_of : Remote → ℕ → UuidOrError → Json
result_of remote i (found_uuid u) = read_uuid_result remote i u
result_of remote i (found_error v) = v

-- The result of attempt `i`.
unfoldable pub attempt_result : Remote → ℕ → Result Error Json
attempt_result remote i = do
  uuid_or_error ← run_attempt remote i
  ok (result_of remote i uuid_or_error)

-- What follows an attempt: the loop is left, with a result that is returned as it is or mapped, or goes on.
pub data Next : Type 0 where
  return_ : Json → Next
  break_ : Json → Next
  continue_ : Next

abbrev pub is_retried : ℕ → Option String → Bool
is_retried i none = false
is_retried i (some kw) = not (contains retry_only_once kw) || (i == 0)

abbrev pub no_result : Json
no_result = error_dict "No result returned from operation after retries."

unfoldable pub after_error : Floats → (n_retry i : ℕ) → (result error : Json) → Result Error Next
after_error floats n_retry i result error = if i == n_retry then ok (break_ result) else (do
  error_kw ← first_kw floats error retry_default_error_kws
  ok (if is_retried i error_kw then continue_ else break_ result))

unfoldable pub after_attempt : Floats → (n_retry i : ℕ) → Json → Result Error Next
after_attempt floats n_retry i result =
    if truthy floats result
    then (do
      error ← dict_get result "error"
      if truthy floats error then after_error floats n_retry i result error else ok (break_ result))
    else ok (if i == n_retry then return_ no_result else continue_)

abbrev pub message_for : String → List (String × String) → String → String
message_for kw [] default = default
message_for kw ((k, m) ∷ rest) default = if k == kw then m else message_for kw rest default

abbrev pub kws_of : List (String × String) → List String
kws_of [] = []
kws_of ((k, m) ∷ rest) = k ∷ kws_of rest

abbrev pub with_message : Json → Option String → Json
with_message (obj fs) (some kw) =
    obj (set_field "error" (str (message_for kw default_error_kws_to_messages "")) fs)
with_message result _ = result

-- The mapping behind the loop.
unfoldable pub map_error : Floats → Json → Result Error Json
map_error floats result =
    if truthy floats result
    then (do
      error ← dict_get result "error"
      if truthy floats error
          then (do
            error_kw ← first_kw floats error (kws_of default_error_kws_to_messages)
            ok (with_message result error_kw))
          else ok result)
    else ok result

-- The loop over the attempts, from `i` on, with so many left.
unfoldable pub operation_loop : Remote → (n_retry i left : ℕ) → Json → Result Error Json
operation_loop remote n_retry i zero result = map_error remote.floats result
operation_loop remote n_retry i (suc left) result = do
  result' ← attempt_result remote i
  next ← after_attempt remote.floats n_retry i result'
  elim next [
    | return_ v ↦ ok v
    | break_ v ↦ map_error remote.floats v
    | continue_ ↦ operation_loop remote n_retry (i + 1) left result'
  ]

-- `submit_run_operation`; `local` is what the local runner returns.
unfoldable pub submit_run_operation :
    Remote → (local : Result Error Json) → (exec_local : Bool) → ℤ → Result Error Json
submit_run_operation remote local true n_retry = local
submit_run_operation remote local false (negsuc n) = err value_error
submit_run_operation remote local false (pos n) = operation_loop remote n 0 (n + 1) null
