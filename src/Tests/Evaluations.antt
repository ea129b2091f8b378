-- ===== src/Tests/Evaluations.antt =====
-- Two evaluations of a plan, one that fails in every run and one that succeeds.
use llm_evolutionary_samplin.Prelude.{
  ℕ, ◌<◌, ◌≤◌, ◌+◌, pos, String, ◌≡◌, refl, arith, true, none, some, [], ◌∷◌, Result, ok, contains,
  string_eq, All,
}
use llm_evolutionary_samplin.Prelude.Dict.{lookup, insert}
use llm_evolutionary_samplin.Prelude.Sort.{sort, insert_sorted}
use llm_evolutionary_samplin.Error.{Error}
use llm_evolutionary_samplin.Json.{Json, int, str, obj, end, field}
use llm_evolutionary_samplin.Json.Objects.{get_field}
use llm_evolutionary_samplin.Metric.{truthy}
use llm_evolutionary_samplin.Validation.{dict_get}
use llm_evolutionary_samplin.Evaluation.{
  Arithmetic, rank_error, Evaluated, evaluate_plan_n_runs, evaluated_of, collect_runs, add_run,
  add_metrics, run_single_evaluation, compute_metric_stats, number_stats, percentile, std_value,
  sum,
}
use llm_evolutionary_samplin.Evaluation.Runs.{
  n_successes, errors_of, outcomes_of, evaluate_plan_n_runs_fails, evaluate_plan_n_runs_counts,
}
use llm_evolutionary_samplin.Tests.Plans.{number}
use llm_evolutionary_samplin.Tests.Choices.{numbers}

-- Sums of natural numbers; the mean of one value is the value.
abbrev plus : Json → Json → Json
plus (int (pos a)) (int (pos b)) = int (pos (a + b))
plus a b = a

abbrev arithmetic : Arithmetic
arithmetic = record {
  numbers = numbers;
  add = plus;
  sub = λ a b. a;
  mul = λ a b. a;
  div = λ a b. a;
  root = λ a. a;
  truncated = λ a. 0;
  text_of = λ a. "no memory";
}

abbrev fails : ℕ → Result Error Json
fails i = ok (obj (field "error" (str "no memory") end))

no_success : n_successes (outcomes_of arithmetic fails) (1 ∷ 0 ∷ []) ≡ 0
unfolding run_single_evaluation truthy dict_get get_field
no_success = refl

evaluate_plan_n_runs_fails_example :
    (e : String) × (evaluate_plan_n_runs arithmetic (pos 2) fails (1 ∷ 0 ∷ [])
      ≡ ok (record { n_runs = 0; benchmark_stats = []; error = some e }))
    × (contains (errors_of (outcomes_of arithmetic fails) (1 ∷ 0 ∷ [])) e ≡ true)
    × All (λ x. rank_error x ≤ rank_error e) (errors_of (outcomes_of arithmetic fails) (1 ∷ 0 ∷ []))
evaluate_plan_n_runs_fails_example =
    evaluate_plan_n_runs_fails arithmetic 1 fails 1 (0 ∷ []) no_success

abbrev measures : ℕ → Result Error Json
measures i = ok (obj (field "time" (number 3) end))

abbrev evaluated : Evaluated
evaluated = record {
  n_runs = 1;
  benchmark_stats =
      record {
        name = "time";
        all_runs = number 3 ∷ [];
        stats =
            ("min", number 3)
            ∷ ("p10", number 3)
            ∷ ("p25", number 3)
            ∷ ("p50", number 3)
            ∷ ("p75", number 3)
            ∷ ("p90", number 3)
            ∷ ("max", number 3)
            ∷ ("mean", number 3)
            ∷ ("std", Json.float 0)
            ∷ [];
      }
      ∷ [];
  error = none;
}

one_success : 0 < n_successes (outcomes_of arithmetic measures) (0 ∷ [])
unfolding run_single_evaluation truthy dict_get get_field
one_success = omega arith

measured : evaluate_plan_n_runs arithmetic (pos 1) measures (0 ∷ []) ≡ ok evaluated
unfolding evaluate_plan_n_runs evaluated_of collect_runs add_run add_metrics run_single_evaluation
    compute_metric_stats number_stats percentile std_value sum sort insert_sorted lookup insert
    truthy dict_get get_field
measured = refl

evaluate_plan_n_runs_counts_example :
    (evaluated.n_runs ≡ n_successes (outcomes_of arithmetic measures) (0 ∷ []))
    × (evaluated.error ≡ none)
evaluate_plan_n_runs_counts_example =
    evaluate_plan_n_runs_counts arithmetic 0 measures (0 ∷ []) evaluated one_success measured
