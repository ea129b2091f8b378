-- ===== src/Tests/Runs.antt =====
-- A validation of two runs of a candidate, an operation that is retried, and two steps of sampling.
use llm_evolutionary_samplin.Prelude.{
  ℕ, zero, suc, ◌<◌, ◌≤◌, pos, String, ◌≡◌, ◌↔◌, inl, refl, arith, true, false, Option, none, some,
  List, [], ◌∷◌, Result, ok, err, nat_eq, nat_beq, contains,
}
use llm_evolutionary_samplin.Prelude.Dict.{lookup, insert}
use llm_evolutionary_samplin.Error.{Error, runtime_error}
use llm_evolutionary_samplin.Json.{Json, null, int, str, obj, end, field}
use llm_evolutionary_samplin.Json.Objects.{get_field}
use llm_evolutionary_samplin.Metric.{truthy}
use llm_evolutionary_samplin.Generation.Order.{IsComplete}
use llm_evolutionary_samplin.Validation.{
  validate_plan_result_set, run_data, dict_get, dict_item, Pandas, same_results,
  compare_as_you_fetch, arrives, baseline_arrives, candidate_arrives, compare_result_sets,
  compare_frames, both_sorted, all_equal, both, either,
}
use llm_evolutionary_samplin.Validation.Accepts.{IsAccepted, validate_plan_result_set-IsAccepted}
use llm_evolutionary_samplin.Operations.{
  Remote, submit_run_operation, attempt_result, run_attempt, read_uuid_result, first_kw, kw_in,
  is_in, starts_with,
}
use llm_evolutionary_samplin.Operations.Retries.{
  IsTransient, SucceedsAt, submit_run_operation_succeeds, submit_run_operation_bound,
}
use llm_evolutionary_samplin.Samples.{
  QueryInfo, Sampling, accumulate_samples, update_queries, update_query, accumulate_one, parents_in,
  parents_of, finalized_plans, id2metadata, new_sample_id, max_id, extend_plans, update_all,
  update_flags, finalized_plan,
}
use llm_evolutionary_samplin.NewSamples.{NewSampling}
use llm_evolutionary_samplin.Orchestrator.{
  Files, Steps, Settings, run_sampling_steps, start, rebuild, rebuild_limit, max_completed, maximum,
  remaining_steps, selected_step, run_step, accumulate,
}
use llm_evolutionary_samplin.Orchestrator.Same.{AreSameAfter}
use llm_evolutionary_samplin.Orchestrator.Resume.{fresh, IsPlain, run_sampling_steps_resume}
use llm_evolutionary_samplin.Orchestrator.Replay.{run_sampling_steps_rebuilds}
use llm_evolutionary_samplin.Tests.Plans.{no_floats, number}
use llm_evolutionary_samplin.Tests.Samplings.{query, plans, sampling, accumulated}

-- A table of one number.
abbrev read_number : Json → Result String ℕ
read_number (int (pos n)) = ok n
read_number _ = err "no table"

abbrev tables : Pandas ℕ
tables = record {
  read_json = read_number;
  columns = λ df. "n" ∷ [];
  sorted_names = λ names. names;
  same_names = λ a b. true;
  select_columns = λ df names. ok df;
  n_rows = λ df. 1;
  sort_values = λ df names. ok df;
  reset_index = λ df. ok df;
  floating = λ df. [];
  round_columns = λ df names rounding. ok df;
  eq = λ a b. ok (nat_beq a b ∷ []);
  is_na = λ df. false ∷ [];
}

abbrev three : Json
three = obj (field "result_data" (number 3) end)

abbrev executed : ℕ → Result String Json
executed i = ok three

arrivals_complete : IsComplete 3 (1 ∷ 0 ∷ 2 ∷ [])
arrivals_complete = record {
  all_arrive = arrive;
  in_range = (omega arith, (omega arith, (omega arith, tt)));
}
  where
    arrive : (i : ℕ) → i < 3 → contains (1 ∷ 0 ∷ 2 ∷ []) i ≡ true
    arrive zero less = refl
    arrive (suc zero) less = refl
    arrive (suc (suc zero)) less = refl
    arrive (suc (suc (suc i))) less = absurd (omega (arith, less))

validate_plan_result_set-IsAccepted_example :
    (validate_plan_result_set no_floats tables executed (1 ∷ 0 ∷ 2 ∷ []) ≡ ok none)
    ↔ IsAccepted (same_results tables) 2 0 (λ i. run_data no_floats i (executed i))
validate_plan_result_set-IsAccepted_example =
    validate_plan_result_set-IsAccepted no_floats tables executed 2 0 (1 ∷ 0 ∷ 2 ∷ [])
      arrivals_complete (refl, (refl, (refl, tt))) refl

accepts : validate_plan_result_set no_floats tables executed (1 ∷ 0 ∷ 2 ∷ []) ≡ ok none
unfolding validate_plan_result_set compare_as_you_fetch run_data arrives baseline_arrives
    candidate_arrives compare_result_sets compare_frames both_sorted all_equal both either dict_get
    dict_item truthy get_field
accepts = refl

-- The first run gives no UUID.
abbrev flaky : (ℕ → Result String (Option String)) → Remote
flaky run = record {
  floats = no_floats;
  get_runner = λ i. ok tt;
  run_operation = run;
  get_s3_result = λ i uuid. ok three;
}

abbrev first_run : ℕ → Result String (Option String)
first_run zero = ok none
first_run (suc i) = ok (some "u")

abbrev second_run : ℕ → Result String (Option String)
second_run zero = ok none
second_run (suc zero) = ok (some "u")
second_run (suc (suc i)) = err "unused"

succeeds : SucceedsAt (flaky first_run) 1 three
unfolding attempt_result run_attempt read_uuid_result truthy dict_get first_kw kw_in is_in
    starts_with get_field
succeeds = record {
  at = refl;
  success = record { error = null; is_truthy = refl; is_dict = refl; no_error = refl };
  before = before;
}
  where
    before :
        (j : ℕ)
        → j < 1
        → (r : Json) × (attempt_result (flaky first_run) j ≡ ok r) × IsTransient no_floats j r
    before zero less = (
      obj (field "error" (str "No UUID found in output.") end),
      refl,
      IsTransient.failed (str "No UUID found in output.") "No UUID found in output." refl refl refl
          refl (inl refl),
    )
    before (suc j) less = absurd (omega (arith, less))

submit_run_operation_succeeds_example :
    submit_run_operation (flaky first_run) (ok null) false (pos 1) ≡ ok three
submit_run_operation_succeeds_example =
    submit_run_operation_succeeds (flaky first_run) (ok null) 1 1 three succeeds (omega arith)

same_attempts :
    (j : ℕ) → j ≤ 1 → attempt_result (flaky first_run) j ≡ attempt_result (flaky second_run) j
unfolding attempt_result run_attempt read_uuid_result
same_attempts zero less = refl
same_attempts (suc zero) less = refl
same_attempts (suc (suc j)) less = absurd (omega (arith, less))

submit_run_operation_bound_example :
    submit_run_operation (flaky first_run) (ok null) false (pos 1)
    ≡ submit_run_operation (flaky second_run) (ok null) false (pos 1)
submit_run_operation_bound_example =
    submit_run_operation_bound (flaky first_run) (flaky second_run) (ok null) 1 refl same_attempts

-- The first step finds samples, the second none.
abbrev found_in : ℕ → List Sampling
found_in (suc zero) = sampling ∷ []
found_in _ = []

abbrev steps : Steps
steps = record {
  sample = λ step_idx n_samples strategy state. ok [];
  evaluate = λ step_idx sampled. ok (found_in step_idx);
}

abbrev settings : Settings
settings = record {
  strategy = "bol_evol";
  n_samples_per_step = 2;
  optimization_metric = "time";
  resume = true;
}

plain : IsPlain settings
plain = record { resumes = refl; plain = refl }

abbrev base : List QueryInfo
base = query plans ∷ []

abbrev one_step : Files
one_step = record {
  base_sampling = base;
  final_sampling = some accumulated;
  sampled = (1, []) ∷ [];
  evaluated = (1, sampling ∷ []) ∷ [];
}

abbrev two_steps : Files
two_steps = record {
  base_sampling = base;
  final_sampling = some accumulated;
  sampled = (1, []) ∷ (2, []) ∷ [];
  evaluated = (1, sampling ∷ []) ∷ (2, []) ∷ [];
}

runs_one : run_sampling_steps steps settings (pos 1) (fresh base) ≡ ok one_step
unfolding run_sampling_steps start rebuild rebuild_limit max_completed maximum remaining_steps
    selected_step run_step accumulate lookup insert accumulate_samples update_queries update_query
    accumulate_one parents_in parents_of finalized_plans id2metadata new_sample_id max_id
runs_one = refl

runs_two : run_sampling_steps steps settings (pos 2) (fresh base) ≡ ok two_steps
unfolding run_sampling_steps start rebuild rebuild_limit max_completed maximum remaining_steps
    selected_step run_step accumulate lookup insert accumulate_samples update_queries update_query
    accumulate_one parents_in parents_of finalized_plans id2metadata new_sample_id max_id
    extend_plans update_all update_flags finalized_plan
runs_two = refl

-- Steps that fail where the first one is called again.
abbrev once : ℕ → Result Error (List NewSampling)
once zero = err runtime_error
once (suc zero) = err runtime_error
once (suc (suc i)) = ok []

abbrev later_steps : Steps
later_steps = record {
  sample = λ step_idx n_samples strategy state. once step_idx;
  evaluate = λ step_idx sampled. ok (found_in step_idx);
}

same_later : AreSameAfter 1 steps later_steps
same_later = record {
  same_sample = λ i m strategy state. same_once i;
  same_evaluate = λ i new less. refl;
}
  where
    same_once : (i : ℕ) → 1 < i → once i ≡ ok []
    same_once zero less = absurd (omega (arith, less))
    same_once (suc zero) less = absurd (omega (arith, less))
    same_once (suc (suc i)) less = refl

run_sampling_steps_resume_example :
    run_sampling_steps later_steps settings (pos 2) one_step
    ≡ run_sampling_steps steps settings (pos 2) (fresh base)
run_sampling_steps_resume_example =
    run_sampling_steps_resume steps later_steps 1 same_later settings plain 1 base one_step runs_one

run_sampling_steps_rebuilds_example :
    (files : Files) × (run_sampling_steps steps settings (pos 1) two_steps ≡ ok files)
    × (files.final_sampling ≡ some accumulated)
run_sampling_steps_rebuilds_example =
    run_sampling_steps_rebuilds steps settings plain 1 0 base one_step two_steps runs_one runs_two
