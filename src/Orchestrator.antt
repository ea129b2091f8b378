-- ===== src/Orchestrator.antt =====
-- `run_sampling_steps` of src/sampling/orchestrator.py: sample, evaluate and accumulate, step by step, on
-- a directory of files, with resume.
pub mod Progress
pub mod Same
pub mod Resume
pub mod Replay
pub mod Trees
use llm_evolutionary_samplin.Prelude.{
  ℕ, zero, suc, ◌+◌, ◌-◌, ℤ, pos, negsuc, String, Bool, true, false, not, ◌&&◌, ◌||◌, Option, none,
  some, List, [], ◌∷◌, ◌==◌, nat_eq, string_eq, ltb, leb, if◌then◌else◌, length, select, Result, ok,
  err, ◌>>=◌, or_raise,
}
use llm_evolutionary_samplin.Prelude.Dict.{Dict, keys, lookup, insert}
use llm_evolutionary_samplin.Error.{Error, runtime_error, file_not_found}
use llm_evolutionary_samplin.Samples.{SampleId, PlanInfo, QueryInfo, Sampling, accumulate_samples}
use llm_evolutionary_samplin.Bases.{SamplingStrategy, original_strategy, of_last, all_plans, best_1}
use llm_evolutionary_samplin.NewSamples.{NewSampling}

-- The files of a run: the prepared and the accumulated sampling state, and of each step the sampled and
-- the evaluated plans.
pub record Files : Type 0 where
  pub base_sampling : List QueryInfo
  pub final_sampling : Option (List QueryInfo)
  pub sampled : Dict ℕ (List NewSampling)
  pub evaluated : Dict ℕ (List Sampling)

-- `sample_plans_from_file` and `evaluate_sampled_plans`, with the step that calls them.
pub record Steps : Type 0 where
  pub sample :
      (step_idx n_samples : ℕ) → SamplingStrategy → List QueryInfo → Result Error (List NewSampling)
  pub evaluate : (step_idx : ℕ) → List NewSampling → Result Error (List Sampling)

-- `max(completed_steps) if completed_steps else 0`
unfoldable pub maximum : List ℕ → ℕ
maximum [] = 0
maximum (n ∷ ns) = let rest = maximum ns in if ltb rest n then n else rest

unfoldable pub max_completed : Files → ℕ
max_completed files = maximum (keys files.evaluated)

abbrev pub min_nat : ℕ → ℕ → ℕ
min_nat m n = if ltb n m then n else m

-- `n_steps` may be negative.
unfoldable pub rebuild_limit : ℕ → ℤ → ℕ
rebuild_limit completed (pos n) = min_nat completed n
rebuild_limit completed (negsuc n) = completed

abbrev pub is_below : ℤ → ℕ → Bool
is_below (pos n) completed = ltb n completed
is_below (negsuc n) completed = true

unfoldable pub select_strategy :
    (strategy : String) (step_idx n_samples_per_step : ℕ) (optimization_metric : String)
    → SamplingStrategy × ℕ
select_strategy strategy step_idx n_samples_per_step optimization_metric =
    if strategy == "pst_evol"
    then (if step_idx == 1 then (original_strategy, n_samples_per_step) else (
      record {
        starting_selector = of_last;
        final_selector = all_plans;
        from_valid_only = false;
        optimization_metric = none;
        n_best = none;
      },
      1,
    ))
    else (if strategy == "bol_evol"
        then (
          record {
            starting_selector = of_last;
            final_selector = best_1;
            from_valid_only = false;
            optimization_metric = some optimization_metric;
            n_best = none;
          },
          n_samples_per_step,
        )
        else (original_strategy, n_samples_per_step))

-- `accumulate_samples` on the files: it reads and writes the accumulated state.
unfoldable pub accumulate : List Sampling → Files → Result Error Files
accumulate evaluated files = do
  state ← or_raise files.final_sampling file_not_found
  state' ← accumulate_samples evaluated state
  ok (record files { final_sampling = some state' })

-- The loop that rebuilds the accumulated state from the evaluated plans of so many steps, from `step_idx`.
unfoldable pub rebuild : (step_idx left : ℕ) → Files → Result Error Files
rebuild step_idx zero files = ok files
rebuild step_idx (suc left) files = do
  evaluated ← or_raise (lookup step_idx files.evaluated) runtime_error
  files' ← accumulate evaluated files
  rebuild (step_idx + 1) left files'

abbrev pub from_base : Files → Files
from_base files = record files { final_sampling = some files.base_sampling }

abbrev pub is_missing : Option (List QueryInfo) → Bool
is_missing none = true
is_missing (some s) = false

-- What happens before the first step.
unfoldable pub start : (resume : Bool) → ℤ → Files → Result Error Files
start resume n_steps files =
    if not resume
    then ok (from_base files)
    else (if is_missing files.final_sampling || is_below n_steps (max_completed files)
        then rebuild 1 (rebuild_limit (max_completed files) n_steps) (from_base files)
        else ok files)

abbrev pub reused {ℓ} : {A : Type ℓ} → (resume : Bool) → Option A → Option A
reused resume none = none
reused resume (some a) = if resume then some a else none

abbrev pub or_run {ℓ} : {A : Type ℓ} → Option A → Result Error A → Result Error A
or_run (some a) run = ok a
or_run none run = run

unfoldable pub run_step :
    Steps
    → (resume : Bool) → (step_idx n_samples : ℕ) → SamplingStrategy
    → Files
    → Result Error Files
run_step steps resume step_idx n_samples strategy files = do
  state ← or_raise files.final_sampling file_not_found
  sampled ←
      or_run (reused resume (lookup step_idx files.sampled))
        (steps.sample step_idx n_samples strategy state)
  evaluated ←
      or_run (reused resume (lookup step_idx files.evaluated)) (steps.evaluate step_idx sampled)
  accumulate evaluated (record files {
    sampled = insert step_idx sampled files.sampled;
    evaluated = insert step_idx evaluated files.evaluated;
  })

-- The settings of a run that its steps share.
pub record Settings : Type 0 where
  pub strategy : String
  pub n_samples_per_step : ℕ
  pub optimization_metric : String
  pub resume : Bool

unfoldable pub selected_step : Steps → Settings → ℕ → Files → Result Error Files
selected_step steps settings step_idx files =
    let chosen =
      select_strategy settings.strategy step_idx settings.n_samples_per_step
        settings.optimization_metric in
    run_step steps settings.resume step_idx chosen.1 chosen.0 files

-- The loop over the remaining steps.
unfoldable pub remaining_steps : Steps → Settings → (step_idx left : ℕ) → Files → Result Error Files
remaining_steps steps settings step_idx zero files = ok files
remaining_steps steps settings step_idx (suc left) files = do
  files' ← selected_step steps settings step_idx files
  remaining_steps steps settings (step_idx + 1) left files'

abbrev pub has_id : PlanInfo → Bool
has_id p = elim p.sample_id [ none ↦ false | some i ↦ true ]

abbrev pub missing_samples : ℕ → List QueryInfo → ℕ
missing_samples target [] = 0
missing_samples target (q ∷ qs) = target - length (select has_id q.sampled_plans)

abbrev pub steps_left : ℤ → ℕ → ℕ
steps_left (pos n) done = n - done
steps_left (negsuc n) done = 0

-- The extra step of `best_of`, if samples are missing; `completed` is the number of the last step that was
-- there before the run.
unfoldable pub top_up : Steps → Settings → (completed : ℕ) → Files → Result Error Files
top_up steps settings completed files = elim files.final_sampling [
  | none ↦ ok files
  | some state ↦
      let extra = missing_samples settings.n_samples_per_step state in
      if ltb 0 extra
      then run_step steps settings.resume (completed + 1) extra original_strategy files
      else ok files
]

abbrev pub is_top_up : Settings → ℤ → Bool
is_top_up settings n_steps = settings.strategy == "best_of" && settings.resume && is_one n_steps
  where
    is_one : ℤ → Bool
    is_one (pos n) = n == 1
    is_one (negsuc n) = false

unfoldable pub run_sampling_steps : Steps → Settings → ℤ → Files → Result Error Files
run_sampling_steps steps settings n_steps files = do
  let completed = max_completed files
  let limit = rebuild_limit completed n_steps
  started ← start settings.resume n_steps files
  done ← remaining_steps steps settings (limit + 1) (steps_left n_steps limit) started
  if is_top_up settings n_steps then top_up steps settings completed done else ok done
