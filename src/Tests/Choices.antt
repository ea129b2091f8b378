-- ===== src/Tests/Choices.antt =====
-- Base plans picked from a small tree.
use llm_evolutionary_samplin.Prelude.{
  ℕ, pos, ◌≡◌, refl, arith, Bool, true, false, none, some, Option, List, [], ◌∷◌, nat_eq, int_eq,
  ltb, subst, ok, All, contains,
}
use llm_evolutionary_samplin.Prelude.Dict.{lookup, insert}
use llm_evolutionary_samplin.Prelude.Sort.{insert_sorted, sort}
use llm_evolutionary_samplin.Json.{Json, null, int, obj, nil, end, field}
use llm_evolutionary_samplin.Json.Objects.{get_field}
use llm_evolutionary_samplin.Metric.{Numbers, get_metric_value, split_dots, truthy, walk_path}
use llm_evolutionary_samplin.Samples.{sample_id_eq, PlanInfo}
use llm_evolutionary_samplin.Samples.Tree.{ids}
use llm_evolutionary_samplin.Bases.{
  SamplingStrategy, BasePlan, get_best_plan_infos, get_base_plans_for_sampling, of_leafs, all_plans,
  final_plans, choose_final, keep_valid, start_plans, original_strategy, original_base, slice,
  rank_key, with_keys,
}
use llm_evolutionary_samplin.Selection.{sampleid2sampleidx}
use llm_evolutionary_samplin.Bases.Ends.{AreBasesOf, get_base_plans_for_sampling_ends}
use llm_evolutionary_samplin.Bases.Parents.{get_base_plans_for_sampling-IsRooted}
use llm_evolutionary_samplin.Bases.Best.{Orders, IsKey, get_best_plan_infos-IsBest}
use llm_evolutionary_samplin.Tests.Plans.{no_floats, number}
use llm_evolutionary_samplin.Tests.Samplings.{plan, plans, tree}

-- Natural numbers are ordered; infinity is above them.
abbrev less_numbers : Json → Json → Bool
less_numbers (int (pos a)) (int (pos b)) = ltb a b
less_numbers (int (pos a)) (Json.float b) = true
less_numbers _ _ = false

abbrev pub numbers : Numbers
numbers = record { floats = no_floats; less = less_numbers }

abbrev leaves : SamplingStrategy
leaves = record {
  starting_selector = of_leafs;
  final_selector = all_plans;
  from_valid_only = true;
  optimization_metric = none;
  n_best = none;
}

picked :
    final_plans numbers leaves (keep_valid true (start_plans of_leafs plans))
    ≡ ok (plan (some 1) none true true ∷ [])
unfolding final_plans choose_final keep_valid start_plans
picked = refl

get_base_plans_for_sampling_ends_example :
    (bases : List BasePlan) × (get_base_plans_for_sampling numbers plans leaves ≡ some (ok bases))
    × AreBasesOf plans (plan (some 1) none true true ∷ []) bases
get_base_plans_for_sampling_ends_example =
    get_base_plans_for_sampling_ends numbers leaves plans (plan (some 1) none true true ∷ []) tree
      ((λ v. (nil, refl)), ((λ v. (nil, refl)), tt)) refl picked

abbrev pub root_base : BasePlan
root_base = record {
  parent_sample_id = none;
  upstream_patches = [];
  upstream_evaluation_stats = null;
}

started : get_base_plans_for_sampling numbers plans original_strategy ≡ some (ok (root_base ∷ []))
unfolding get_base_plans_for_sampling original_base sampleid2sampleidx lookup insert
started = refl

get_base_plans_for_sampling-IsRooted_example :
    All (λ b. contains (ids plans) b.parent_sample_id ≡ true) (root_base ∷ [])
get_base_plans_for_sampling-IsRooted_example =
    get_base_plans_for_sampling-IsRooted numbers original_strategy plans (root_base ∷ []) tree
      started

-- Two plans with a metric.
abbrev measured : ℕ → ℕ → PlanInfo
measured n time = record (plan (some n) none true true) {
  evaluation_stats = obj (field "time" (number time) end);
}

-- Every natural number is real, and so is infinity.
data IsReal : Json → Type 0 where
  natural : (n : ℕ) → IsReal (int (pos n))
  infinite : (b : ℕ) → IsReal (Json.float b)

ordered : Orders numbers IsReal
ordered = record { asymmetric = asymmetric; transitive = transitive }
  where
    asymmetric :
        (a b : Json) → IsReal a → IsReal b → less_numbers a b ≡ true → less_numbers b a ≡ false
    asymmetric a b (IsReal.natural m) (IsReal.natural n) h = ground arith
    asymmetric a b (IsReal.natural m) (IsReal.infinite n) h = refl
    asymmetric a b (IsReal.infinite m) (IsReal.natural n) h = cc h
    asymmetric a b (IsReal.infinite m) (IsReal.infinite n) h = refl

    transitive :
        (a b c : Json)
        → IsReal a
        → IsReal b
        → IsReal c
        → less_numbers b a ≡ false
        → less_numbers c b ≡ false
        → less_numbers c a ≡ false
    transitive a b c ra rb (IsReal.infinite n) h k = refl
    transitive a b c (IsReal.natural l) (IsReal.natural m) (IsReal.natural n) h k = ground arith
    transitive a b c (IsReal.natural l) (IsReal.infinite m) (IsReal.natural n) h k = cc k
    transitive a b c (IsReal.infinite l) (IsReal.natural m) (IsReal.natural n) h k = cc h
    transitive a b c (IsReal.infinite l) (IsReal.infinite m) (IsReal.natural n) h k = cc k

abbrev candidates : List PlanInfo
candidates = measured 1 8 ∷ measured 2 5 ∷ []

fastest : get_best_plan_infos numbers (some "time") (pos 1) candidates ≡ ok (measured 2 5 ∷ [])
unfolding get_best_plan_infos slice with_keys rank_key get_metric_value split_dots truthy walk_path
    sort insert_sorted get_field
fastest = refl

-- The metric of a plan that is measured.
time_of :
    (n time : ℕ) (v : Option Json)
    → get_metric_value no_floats (measured n time).evaluation_stats "time" ≡ ok v
    → some (number time) ≡ v
unfolding get_metric_value split_dots truthy walk_path get_field
time_of n time v h = cc h

measured-IsReal :
    (n time : ℕ) (key : Json) → IsKey numbers "time" (measured n time) key → IsReal key
measured-IsReal n time _ (IsKey.valued {v} e t) =
    let same : number time ≡ v = cc (time_of n time (some v) e) in
    subst IsReal same (IsReal.natural _)
measured-IsReal n time _ (IsKey.counted_false e t) = IsReal.infinite _
measured-IsReal n time _ (IsKey.missing e) = IsReal.infinite _

get_best_plan_infos-IsBest_example :
    (k : Json) × IsKey numbers "time" (measured 2 5) k
    × All (λ q. (key : Json) × IsKey numbers "time" q key × (numbers.less key k ≡ false)) candidates
get_best_plan_infos-IsBest_example =
    get_best_plan_infos-IsBest numbers IsReal ordered "time" candidates (measured 2 5 ∷ [])
      (measured-IsReal 1 8, (measured-IsReal 2 5, tt)) fastest
