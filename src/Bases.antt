-- ===== src/Bases.antt =====
-- `get_base_plans_for_sampling` of src/sampling/sample_plans.py: which plans of a tree the next samples
-- start from.
pub mod Kept
pub mod Ends
pub mod Parents
pub mod Best
use llm_evolutionary_samplin.Prelude.{
  ℕ, zero, suc, ◌-◌, ℤ, pos, negsuc, String, Bool, true, false, not, Option, none, some, List, [],
  ◌∷◌, if◌then◌else◌, length, get_elem?, take, select, Result, ok, err, ◌>>=◌, or_raise,
}
use llm_evolutionary_samplin.Prelude.Dict.{Dict, lookup}
use llm_evolutionary_samplin.Prelude.Sort.{sort}
use llm_evolutionary_samplin.Error.{Error, key_error, value_error, runtime_error}
use llm_evolutionary_samplin.Json.{Json, null}
use llm_evolutionary_samplin.Metric.{Numbers, get_metric_value, truthy, infinity}
use llm_evolutionary_samplin.Samples.{SampleId, sample_id_eq, PlanInfo}
use llm_evolutionary_samplin.Selection.{
  sampleid2sampleidx, get_upstream_patches, get_upstream_evaluation_stats,
}

pub data StartingSelector : Type 0 where
  original so_far of_last of_leafs : StartingSelector

pub data FinalSelector : Type 0 where
  all_plans best_1 best_n : FinalSelector

-- The two extra parameters are entries of `kwargs`.
pub record SamplingStrategy : Type 0 where
  pub starting_selector : StartingSelector
  pub final_selector : FinalSelector
  pub from_valid_only : Bool
  pub optimization_metric : Option String
  pub n_best : Option ℤ

-- `ORIGINAL_STRATEGY`
abbrev pub original_strategy : SamplingStrategy
original_strategy = record {
  starting_selector = original;
  final_selector = all_plans;
  from_valid_only = false;
  optimization_metric = none;
  n_best = none;
}

pub record BasePlan : Type 0 where
  pub parent_sample_id : SampleId
  pub upstream_patches : List Json
  pub upstream_evaluation_stats : Json

-- `xs[:n]`
unfoldable pub slice {ℓ} : {A : Type ℓ} → ℤ → List A → List A
slice (pos n) xs = take n xs
slice (negsuc n) xs = take (length xs - suc n) xs

-- `value or float("inf")`
abbrev pub or_infinity : Numbers → Option Json → Json
or_infinity numbers none = infinity
or_infinity numbers (some v) = if truthy numbers.floats v then v else infinity

-- `key_fn`
unfoldable pub rank_key : Numbers → String → PlanInfo → Result Error Json
rank_key numbers metric p = elim p.evaluation_stats [
  | null ↦ ok infinity
  | stats ↦ do value ← get_metric_value numbers.floats stats metric; ok (or_infinity numbers value)
]

unfoldable pub with_keys : Numbers → String → List PlanInfo → Result Error (List (Json × PlanInfo))
with_keys numbers metric [] = ok []
with_keys numbers metric (p ∷ ps) = do
  key ← rank_key numbers metric p
  rest ← with_keys numbers metric ps
  ok ((key, p) ∷ rest)

abbrev pub plans_of : List (Json × PlanInfo) → List PlanInfo
plans_of [] = []
plans_of ((k, p) ∷ ks) = p ∷ plans_of ks

-- `sorted` is stable: an element stays before one that is not smaller.
abbrev pub not_above : Numbers → Json × PlanInfo → Json × PlanInfo → Bool
not_above numbers a b = not (numbers.less b.0 a.0)

-- `except Exception as e: raise RuntimeError`
abbrev pub or_runtime {ℓ} : {A : Type ℓ} → Result Error A → Result Error A
or_runtime (ok a) = ok a
or_runtime (err e) = err runtime_error

unfoldable pub get_best_plan_infos :
    Numbers → Option String → ℤ → List PlanInfo → Result Error (List PlanInfo)
get_best_plan_infos numbers none n plans = err value_error
get_best_plan_infos numbers (some metric) n plans = or_runtime (do
  keyed ← with_keys numbers metric plans
  ok (slice n (plans_of (sort (not_above numbers) keyed))))

unfoldable pub start_plans : StartingSelector → List PlanInfo → List PlanInfo
start_plans of_last plans = select (λ p. p.is_last) plans
start_plans of_leafs plans = select (λ p. p.is_leaf) plans
start_plans original plans = plans
start_plans so_far plans = plans

unfoldable pub keep_valid : Bool → List PlanInfo → List PlanInfo
keep_valid true plans = select (λ p. p.is_valid) plans
keep_valid false plans = plans

unfoldable pub choose_final :
    Numbers → SamplingStrategy → List PlanInfo → FinalSelector → Result Error (List PlanInfo)
choose_final numbers strategy plans all_plans = ok plans
choose_final numbers strategy plans best_1 =
    get_best_plan_infos numbers strategy.optimization_metric (pos 1) plans
choose_final numbers strategy plans best_n = do
  n ← or_raise strategy.n_best value_error
  get_best_plan_infos numbers strategy.optimization_metric n plans

unfoldable pub final_plans :
    Numbers → SamplingStrategy → List PlanInfo → Result Error (List PlanInfo)
final_plans numbers strategy plans = choose_final numbers strategy plans strategy.final_selector

-- A result of a walk whose fuel may have run out (`none`).
abbrev pub Walk {ℓ} : Type ℓ → Type ℓ
Walk A = Option (Result Error A)

abbrev pub and_then {ℓ κ} : {A : Type ℓ} {B : Type κ} → Walk A → (A → Walk B) → Walk B
and_then none next = none
and_then (some (err e)) next = some (err e)
and_then (some (ok a)) next = next a

unfoldable pub base_plan : List PlanInfo → PlanInfo → Walk BasePlan
base_plan plans p = and_then (get_upstream_patches plans false p) (λ patches.
    and_then (get_upstream_evaluation_stats plans p) (λ stats. some (
      ok (record {
        parent_sample_id = p.sample_id;
        upstream_patches = patches;
        upstream_evaluation_stats = stats;
      }))))

unfoldable pub base_plans : List PlanInfo → List PlanInfo → Walk (List BasePlan)
base_plans plans [] = some (ok [])
base_plans plans (p ∷ ps) =
    and_then (base_plan plans p) (λ b. and_then (base_plans plans ps) (λ bs. some (ok (b ∷ bs))))

-- The early return for "original".
unfoldable pub original_base : List PlanInfo → Result Error (List BasePlan)
original_base plans = do
  idx ← or_raise (lookup none (sampleid2sampleidx 0 [] plans)) key_error
  root ← or_raise (get_elem? plans idx) key_error
  ok (
      record {
        parent_sample_id = none;
        upstream_patches = [];
        upstream_evaluation_stats = root.evaluation_stats;
      }
      ∷ [])

abbrev pub is_original : StartingSelector → Bool
is_original original = true
is_original _ = false

unfoldable pub get_base_plans_for_sampling :
    Numbers → List PlanInfo → SamplingStrategy → Walk (List BasePlan)
get_base_plans_for_sampling numbers plans strategy =
    if is_original strategy.starting_selector
    then some (original_base plans)
    else and_then
        (some (
          final_plans numbers strategy
            (keep_valid strategy.from_valid_only (start_plans strategy.starting_selector plans))))
        (base_plans plans)
