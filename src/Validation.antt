-- ===== src/Validation.antt =====
-- Result-set validation of src/modal_controller/utils.py: a candidate plan is executed several times and
-- compared with the baseline plan.
pub mod Rounds
pub mod Accepts
use llm_evolutionary_samplin.Prelude.{
  ℕ, zero, suc, String, Bool, true, false, not, ◌&&◌, ◌||◌, Option, none, some, List, [], ◌∷◌,
  if◌then◌else◌, Result, ok, err, ◌>>=◌, or_raise, for_each, ◌==◌, nat_eq, all,
}
use llm_evolutionary_samplin.Error.{Error, attribute_error, key_error, type_error}
use llm_evolutionary_samplin.Json.{Json, null, bool, int, float, str, arr, obj}
use llm_evolutionary_samplin.Json.Objects.{get_field}
use llm_evolutionary_samplin.Json.Equality.{Floats}
use llm_evolutionary_samplin.Metric.{truthy}

-- What the comparison uses of pandas; `cells` is a mask in the order of its cells, and an exception is
-- its text.
pub record Pandas (Frame : Type 0) : Type 0 where
  pub read_json : Json → Result String Frame
  pub columns : Frame → List String
  pub sorted_names : List String → List String
  pub same_names : List String → List String → Bool
  pub select_columns : Frame → List String → Result String Frame
  pub n_rows : Frame → ℕ
  pub sort_values : Frame → List String → Result String Frame
  pub reset_index : Frame → Result String Frame
  pub floating : Frame → List String
  pub round_columns : Frame → List String → ℕ → Result String Frame
  pub eq : Frame → Frame → Result String (List Bool)
  pub is_na : Frame → List Bool

-- `mask & mask` and `mask | mask`
unfoldable pub both : List Bool → List Bool → List Bool
both [] ys = []
both (x ∷ xs) [] = []
both (x ∷ xs) (y ∷ ys) = (x && y) ∷ both xs ys

unfoldable pub either : List Bool → List Bool → List Bool
either [] ys = []
either (x ∷ xs) [] = []
either (x ∷ xs) (y ∷ ys) = (x || y) ∷ either xs ys

abbrev pub or_else {ℓ κ} : {E : Type κ} {A : Type ℓ} → Result E A → Result E A → Result E A
or_else (ok a) other = ok a
or_else (err e) other = other

module _ {Frame : Type 0} (pandas : Pandas Frame) where
  -- `df.sort_values(by=...).reset_index(drop=True)`
  abbrev pub sorted_rows : Frame → Result String Frame
  sorted_rows df = pandas.sort_values df (pandas.columns df) >>= pandas.reset_index

  -- Both are sorted, or neither is.
  unfoldable pub both_sorted : Frame → Frame → Result String (Frame × Frame)
  both_sorted baseline model =
      or_else (do a ← sorted_rows baseline; b ← sorted_rows model; ok (a, b))
        (do a ← pandas.reset_index baseline; b ← pandas.reset_index model; ok (a, b))

  unfoldable pub all_equal : ℕ → Frame → Frame → Result String Bool
  all_equal rounding baseline model = do
    a ← pandas.round_columns baseline (pandas.floating baseline) rounding
    b ← pandas.round_columns model (pandas.floating baseline) rounding
    eq ← pandas.eq a b
    ok (all (λ same. same) (either eq (both (pandas.is_na a) (pandas.is_na b))))

  unfoldable pub compare_frames : ℕ → Frame → Frame → Result String Bool
  compare_frames rounding baseline_df model_df =
      if not (
        pandas.same_names (pandas.sorted_names (pandas.columns baseline_df))
          (pandas.sorted_names (pandas.columns model_df)))
      then ok false
      else (do
        selected ← pandas.select_columns model_df (pandas.columns baseline_df)
        if not (pandas.n_rows baseline_df == pandas.n_rows selected) then ok false else (do
          (baseline_sorted, model_sorted) ← both_sorted baseline_df selected
          all_equal rounding baseline_sorted model_sorted))

  abbrev pub or_false : Result String Bool → Bool
  or_false (ok b) = b
  or_false (err e) = false

  unfoldable pub compare_result_sets : Json → Json → ℕ → Bool
  compare_result_sets baseline_data model_data rounding = or_false (do
    baseline_df ← pandas.read_json baseline_data
    model_df ← pandas.read_json model_data
    compare_frames rounding baseline_df model_df)

-- The error strings of a validation.
pub data Rejection : Type 0 where
  validation_failed : String → Rejection
  baseline_failed candidate_failed : Json → Rejection
  result_set_mismatch non_deterministic : Rejection

-- What ends the loop early: a rejection, or an exception that is not caught.
pub data Stop : Type 0 where
  rejected : Rejection → Stop
  raised : Error → Stop

-- `r.get(key)`
unfoldable pub dict_get : Json → String → Result Error Json
dict_get (obj fs) key = ok (get_default (get_field key fs))
  where
    get_default : Option Json → Json
    get_default none = null
    get_default (some v) = v
dict_get _ key = err attribute_error

-- `r[key]`
unfoldable pub dict_item : Json → String → Result Error Json
dict_item (obj fs) key = or_raise (get_field key fs) key_error
dict_item _ key = err type_error

abbrev pub or_raised {ℓ} : {A : Type ℓ} → Result Error A → Result Stop A
or_raised (ok a) = ok a
or_raised (err e) = err (raised e)

-- Future 0 executes the baseline, the others the candidate.
abbrev pub failed_run : ℕ → Json → Rejection
failed_run zero error = baseline_failed error
failed_run (suc k) error = candidate_failed error

-- The result set of a future that is done.
unfoldable pub run_data : Floats → ℕ → Result String Json → Result Stop Json
run_data floats i (err exc) = err (rejected (validation_failed exc))
run_data floats i (ok r) =
    if not (truthy floats r) then err (rejected (failed_run i (str "Unknown error"))) else (do
      error ← or_raised (dict_get r "error")
      if truthy floats error
          then err (rejected (failed_run i error))
          else or_raised (dict_item r "result_data"))

-- `baseline_data` and `primary_cand_data`
pub record Seen : Type 0 where
  pub baseline_data : Option Json
  pub primary_cand_data : Option Json

abbrev pub expect : Bool → Rejection → Seen → Result Stop Seen
expect matches rejection seen = if matches then ok seen else err (rejected rejection)

-- The body of the loop for a result set that has arrived; `compare` is `compare_result_sets`.
unfoldable pub baseline_arrives : (Json → Json → Bool) → Seen → Json → Result Stop Seen
baseline_arrives compare seen data_ = elim seen.primary_cand_data [
  | some primary ↦ expect (compare data_ primary) result_set_mismatch seen
  | none ↦ ok (record { baseline_data = some data_; primary_cand_data = none })
]

abbrev pub becomes_primary : (Json → Json → Bool) → Option Json → Json → Result Stop Seen
becomes_primary compare none data_ =
    ok (record { baseline_data = none; primary_cand_data = some data_ })
becomes_primary compare (some baseline) data_ =
    expect (compare baseline data_) result_set_mismatch
      (record { baseline_data = none; primary_cand_data = some data_ })

unfoldable pub candidate_arrives : (Json → Json → Bool) → Seen → Json → Result Stop Seen
candidate_arrives compare seen data_ = elim seen.primary_cand_data [
  | none ↦ becomes_primary compare seen.baseline_data data_
  | some primary ↦ expect (compare primary data_) non_deterministic seen
]

unfoldable pub arrives : (Json → Json → Bool) → Seen → ℕ → Json → Result Stop Seen
arrives compare seen zero data_ = baseline_arrives compare seen data_
arrives compare seen (suc k) data_ = candidate_arrives compare seen data_

-- The loop over the futures in the order in which they are done.
unfoldable pub compare_as_you_fetch :
    (Json → Json → Bool) → (ℕ → Result Stop Json) → Seen → List ℕ → Result Stop Seen
compare_as_you_fetch compare results seen [] = ok seen
compare_as_you_fetch compare results seen (i ∷ is) = do
  data_ ← results i
  seen' ← arrives compare seen i data_
  compare_as_you_fetch compare results seen' is

abbrev pub verdict : Result Stop Seen → Result Error (Option Rejection)
verdict (ok seen) = ok none
verdict (err (rejected r)) = ok (some r)
verdict (err (raised e)) = err e

abbrev pub nothing_seen : Seen
nothing_seen = record { baseline_data = none; primary_cand_data = none }

-- `compare_result_sets` with its default rounding
abbrev pub same_results : {Frame : Type 0} → Pandas Frame → Json → Json → Bool
same_results pandas a b = compare_result_sets pandas a b 6

-- `runs i` is what future `i` gives, or the text of its exception; `arrivals` is the order in which the
-- futures are done.
unfoldable pub validate_plan_result_set :
    {Frame : Type 0}
    → Floats
    → Pandas Frame
    → (ℕ → Result String Json)
    → List ℕ
    → Result Error (Option Rejection)
validate_plan_result_set floats pandas runs arrivals = verdict (
    compare_as_you_fetch (same_results pandas) (λ i. run_data floats i (runs i)) nothing_seen
      arrivals)
