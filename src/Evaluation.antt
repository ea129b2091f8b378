-- ===== src/Evaluation.antt =====
-- `evaluate_plan_n_runs` of src/modal_controller/utils.py and the statistics of its runs.
pub mod Runs
use Prim.Native.String.{◌++◌}
use mathlib.Core.List.{◌++◌ as ◌⧺◌}
use llm_evolutionary_samplin.Prelude.{
  ℕ, zero, suc, ◌+◌, ◌-◌, ℤ, pos, String, Bool, true, false, not, ◌||◌, Option, none, some, List,
  [], ◌∷◌, ◌==◌, nat_eq, string_eq, ltb, leb, if◌then◌else◌, length, all, select, get_elem?, map,
  Result, ok, err, ◌>>=◌, or_raise, traverse,
}
use llm_evolutionary_samplin.Prelude.Dict.{Dict, lookup, insert}
use llm_evolutionary_samplin.Prelude.Sort.{sort}
use llm_evolutionary_samplin.Error.{Error, type_error, value_error, index_error, attribute_error}
use llm_evolutionary_samplin.Json.{Json, Fields, null, bool, int, float, str, arr, obj, end, field}
use llm_evolutionary_samplin.Metric.{Numbers, truthy, is_number}
use llm_evolutionary_samplin.Validation.{dict_get}
use llm_evolutionary_samplin.Operations.{is_in}

-- What Python does with numbers, and the text of a value in an f-string.
pub record Arithmetic : Type 0 where
  pub numbers : Numbers
  pub add : (a b : Json) → Json
  pub sub : (a b : Json) → Json
  pub mul : (a b : Json) → Json
  pub div : (a b : Json) → Json
  pub root : Json → Json
  pub truncated : Json → ℕ
  pub text_of : Json → String

abbrev pub nat_json : ℕ → Json
nat_json n = int (pos n)

abbrev pub nan : Json
nan = float 9221120237041090560

module _ (a : Arithmetic) where
  abbrev pub item : List Json → ℕ → Result Error Json
  item vs i = or_raise (get_elem? vs i) index_error

  -- `_percentile` between two values, at `rank`
  unfoldable pub interpolated : List Json → Json → Result Error Json
  interpolated vs rank =
      let low = a.truncated rank in
      let high = if ltb (low + 1) (length vs - 1) then low + 1 else length vs - 1 in
      if low == high then item vs low else (do
        x ← item vs low
        y ← item vs high
        let weight = a.sub rank (nat_json low)
        ok (a.add (a.mul x (a.sub (nat_json 1) weight)) (a.mul y weight)))

  unfoldable pub percentile : List Json → Json → Result Error Json
  percentile [] p = ok nan
  percentile (v ∷ []) p = ok v
  percentile (v ∷ w ∷ vs) p =
      if not (a.numbers.less (nat_json 0) p)
      then ok v
      else (if not (a.numbers.less p (nat_json 1))
          then item (v ∷ w ∷ vs) (length vs + 1)
          else interpolated (v ∷ w ∷ vs) (a.mul p (nat_json (length vs + 1))))

  unfoldable pub sum : Json → List Json → Json
  sum total [] = total
  sum total (v ∷ vs) = sum (a.add total v) vs

  unfoldable pub squares : Json → List Json → List Json
  squares mean [] = []
  squares mean (v ∷ vs) = a.mul (a.sub v mean) (a.sub v mean) ∷ squares mean vs

  unfoldable pub std_value : Json → List Json → Json
  std_value mean vs =
      if ltb 1 (length vs)
      then a.root (a.div (sum (nat_json 0) (squares mean vs)) (nat_json (length vs)))
      else float 0

abbrev pub is_some_value : Json → Bool
is_some_value null = false
is_some_value _ = true

abbrev pub metric_stat_keys : List String
metric_stat_keys = "min" ∷ "p10" ∷ "p25" ∷ "p50" ∷ "p75" ∷ "p90" ∷ "max" ∷ "mean" ∷ "std" ∷ []

abbrev none_stats : List String → List (String × Json)
none_stats [] = []
none_stats (k ∷ ks) = (k, null) ∷ none_stats ks

module _ (a : Arithmetic) where
  abbrev sorted_values : List Json → List Json
  sorted_values vs = sort (λ x y. not (a.numbers.less y x)) vs

  unfoldable pub number_stats : List Json → Result Error (List (String × Json))
  number_stats values =
      let vs = sorted_values values in
      let mean_value = a.div (sum a (nat_json 0) values) (nat_json (length values)) in
      (do
        min ← item a vs 0
        p10 ← percentile a vs (float 4591870180066957722)
        p25 ← percentile a vs (float 4598175219545276416)
        p50 ← percentile a vs (float 4602678819172646912)
        p75 ← percentile a vs (float 4604930618986332160)
        p90 ← percentile a vs (float 4606281698874543309)
        max ← item a vs (length vs - 1)
        ok (
            ("min", min)
            ∷ ("p10", p10)
            ∷ ("p25", p25)
            ∷ ("p50", p50)
            ∷ ("p75", p75)
            ∷ ("p90", p90)
            ∷ ("max", max)
            ∷ ("mean", mean_value)
            ∷ ("std", std_value a mean_value values)
            ∷ []))

  -- `sum` raises on values that are no numbers.
  unfoldable pub compute_metric_stats : List Json → Result Error (List (String × Json))
  compute_metric_stats values =
      let present = select is_some_value values in
      if length present == 0
      then ok (none_stats metric_stat_keys)
      else (if all is_number present then number_stats present else err type_error)

-- `_rank_error`, one more than in the code
unfoldable pub rank_error : String → ℕ
rank_error e =
    if e == ""
    then 0
    else (if is_in "Exception during evaluation process!" e
        then 1
        else (if is_in "No Result returned from AWS (S3)" e then 2 else 3))

abbrev pub failed_exception : String
failed_exception = "Failed to evaluate plan: Exception during evaluation process!"

-- What a run gives: its metrics, or the error.
abbrev pub Outcome : Type 0
Outcome = Result String Fields

abbrev pub metrics_of : Json → Outcome
metrics_of (obj fs) = ok fs
metrics_of _ = err failed_exception

abbrev pub outcome_of : Arithmetic → Json → Result Error Json → Outcome
outcome_of a result (err e) = err failed_exception
outcome_of a result (ok error) =
    if truthy a.numbers.floats error
    then err ("Failed to evaluate plan: " ++ a.text_of error)
    else metrics_of result

-- `run_single_evaluation`, for what `submit_run_operation` returns
unfoldable pub run_single_evaluation : Arithmetic → Result Error Json → Outcome
run_single_evaluation a (err e) = err failed_exception
run_single_evaluation a (ok result) =
    if not (truthy a.numbers.floats result)
    then err "Failed to evaluate plan: No Result returned from AWS (S3)!"
    else outcome_of a result (dict_get result "error")

-- The variables of the loop over the runs.
pub record Collected : Type 0 where
  pub best_error : Option String
  pub best_error_rank : ℕ
  pub total_successful_runs : ℕ
  pub all_runs : Dict String (List Json)

abbrev pub runs_of : Option (List Json) → List Json
runs_of none = []
runs_of (some vs) = vs

unfoldable pub add_metrics : Fields → Dict String (List Json) → Dict String (List Json)
add_metrics end stats = stats
add_metrics (field k v fs) stats =
    add_metrics fs (insert k (runs_of (lookup k stats) ⧺ (v ∷ [])) stats)

-- The body of the loop.
unfoldable pub add_run : Outcome → Collected → Collected
add_run (err e) c =
    if ltb c.best_error_rank (rank_error e)
    then record c { best_error = some e; best_error_rank = rank_error e }
    else c
add_run (ok fs) c = record c {
  total_successful_runs = c.total_successful_runs + 1;
  all_runs = add_metrics fs c.all_runs;
}

unfoldable pub collect_runs : (ℕ → Outcome) → List ℕ → Collected → Collected
collect_runs outcomes [] c = c
collect_runs outcomes (i ∷ is) c = collect_runs outcomes is (add_run (outcomes i) c)

pub record Metric : Type 0 where
  pub name : String
  pub all_runs : List Json
  pub stats : List (String × Json)

pub record Evaluated : Type 0 where
  pub n_runs : ℕ
  pub benchmark_stats : List Metric
  pub error : Option String

abbrev pub metric_of : Arithmetic → String × List Json → Result Error Metric
metric_of a (k, vs) = do
  stats ← compute_metric_stats a vs
  ok (record { name = k; all_runs = vs; stats = stats })

abbrev pub or_all_failed : Option String → String
or_all_failed none = "Failed to evaluate plan: All evaluation attempts failed!"
or_all_failed (some e) = e

unfoldable pub evaluated_of : Arithmetic → Collected → Result Error Evaluated
evaluated_of a c =
    if c.total_successful_runs == 0
    then ok (record { n_runs = 0; benchmark_stats = []; error = some (or_all_failed c.best_error) })
    else (do
      stats ← traverse (metric_of a) c.all_runs
      ok (record { n_runs = c.total_successful_runs; benchmark_stats = stats; error = none }))

abbrev pub nothing_collected : Collected
nothing_collected = record {
  best_error = none;
  best_error_rank = 0;
  total_successful_runs = 0;
  all_runs = [];
}

-- `results i` is what `submit_run_operation` returns in run `i`; `arrivals` is the order in which the runs
-- are done.
unfoldable pub evaluate_plan_n_runs :
    Arithmetic → (n_runs : ℤ) → (ℕ → Result Error Json) → List ℕ → Result Error Evaluated
evaluate_plan_n_runs a (pos (suc n)) results arrivals =
    evaluated_of a
      (collect_runs (λ i. run_single_evaluation a (results i)) arrivals nothing_collected)
evaluate_plan_n_runs a _ results arrivals = err value_error
