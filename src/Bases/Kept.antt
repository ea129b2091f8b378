-- ===== src/Bases/Kept.antt =====
-- What the stages of the selection keep: every plan that is selected is one of the tree.
use llm_evolutionary_samplin.Prelude.{
  ℕ, suc, ◌-◌, ℤ, pos, negsuc, String, ◌≡◌, refl, Bool, true, false, Option, none, some, List, [],
  ◌∷◌, length, get_elem?, Result, ok, err, or_raise, >>=-eq-ok, All, contains, subst, All-select,
  All-take,
}
use llm_evolutionary_samplin.Prelude.Sort.{sort, All-sort}
use llm_evolutionary_samplin.Error.{Error, value_error}
use llm_evolutionary_samplin.Json.{Json}
use llm_evolutionary_samplin.Metric.{Numbers}
use llm_evolutionary_samplin.Samples.{sample_id_eq, PlanInfo}
use llm_evolutionary_samplin.Samples.Tree.{ids}
use llm_evolutionary_samplin.Selection.Stats.{contains-get_elem}
use llm_evolutionary_samplin.Bases.{
  StartingSelector, FinalSelector, SamplingStrategy, original, so_far, of_last, of_leafs, all_plans,
  best_1, best_n, slice, rank_key, with_keys, plans_of, not_above, get_best_plan_infos, start_plans,
  keep_valid, final_plans, choose_final, or_runtime,
}

pub All-slice {ℓ κ} :
    {A : Type ℓ} (P : A → Type κ) (n : ℤ) (xs : List A) → All P xs → All P (slice n xs)
unfolding slice
All-slice P (pos n) xs h = All-take P n xs h
All-slice P (negsuc n) xs h = All-take P (length xs - suc n) xs h

or_runtime_ok {ℓ} : {A : Type ℓ} (r : Result Error A) {a : A} → or_runtime r ≡ ok a → r ≡ ok a
or_runtime_ok (ok a) h = h
or_runtime_ok (err e) h = cc h

-- What a call of `get_best_plan_infos` that returned has computed.
pub get_best_lem :
    (numbers : Numbers) (metric : Option String) (n : ℤ) (plans best : List PlanInfo)
    → get_best_plan_infos numbers metric n plans ≡ ok best
    → (m : String) × (metric ≡ some m)
      × (keyed : List (Json × PlanInfo)) × (with_keys numbers m plans ≡ ok keyed)
      × (slice n (plans_of (sort (not_above numbers) keyed)) ≡ best)
unfolding get_best_plan_infos
get_best_lem numbers none n plans best e = cc e
get_best_lem numbers (some m) n plans best e =
    let (keyed, k, last) =
      >>=-eq-ok (with_keys numbers m plans)
        (λ ks. ok (slice n (plans_of (sort (not_above numbers) ks)))) (or_runtime_ok _ e) in
    (m, refl, keyed, k, cc last)

module _ {κ} (P : PlanInfo → Type κ) where
  All-plans_of : (ks : List (Json × PlanInfo)) → All (λ k. P k.1) ks → All P (plans_of ks)
  All-plans_of [] h = tt
  All-plans_of ((k, p) ∷ ks) (a, h) = (a, All-plans_of ks h)

  All-with_keys :
      (numbers : Numbers) (metric : String) (plans : List PlanInfo) (keyed : List (Json × PlanInfo))
      → with_keys numbers metric plans ≡ ok keyed
      → All P plans
      → All (λ k. P k.1) keyed
  unfolding with_keys
  All-with_keys numbers metric [] keyed e h =
      let same : [] ≡ keyed = cc e in subst (All (λ k. P k.1)) same tt
  All-with_keys numbers metric (p ∷ ps) keyed e (a, h) =
      let (key, _, e1) = >>=-eq-ok (rank_key numbers metric p) _ e in
      let (rest, er, e2) = >>=-eq-ok (with_keys numbers metric ps) (λ r. ok ((key, p) ∷ r)) e1 in
      let same : (key, p) ∷ rest ≡ keyed = cc e2 in
      subst (All (λ k. P k.1)) same (a, All-with_keys numbers metric ps rest er h)

  -- What holds of all candidates holds of the best ones.
  pub All-best :
      (numbers : Numbers) (metric : Option String) (n : ℤ) (plans best : List PlanInfo)
      → get_best_plan_infos numbers metric n plans ≡ ok best
      → All P plans
      → All P best
  All-best numbers metric n plans best e h =
      let (m, _, keyed, k, same) = get_best_lem numbers metric n plans best e in
      subst (All P) same (
        All-slice P n (plans_of (sort (not_above numbers) keyed)) (
          All-plans_of (sort (not_above numbers) keyed) (
            All-sort (λ k. P k.1) (not_above numbers) keyed
              (All-with_keys numbers m plans keyed k h))))

  pub All-start_plans :
      (s : StartingSelector) (plans : List PlanInfo) → All P plans → All P (start_plans s plans)
  unfolding start_plans
  All-start_plans original plans h = h
  All-start_plans so_far plans h = h
  All-start_plans of_last plans h = All-select P (λ p. p.is_last) plans h
  All-start_plans of_leafs plans h = All-select P (λ p. p.is_leaf) plans h

  pub All-keep_valid : (b : Bool) (plans : List PlanInfo) → All P plans → All P (keep_valid b plans)
  unfolding keep_valid
  All-keep_valid true plans h = All-select P (λ p. p.is_valid) plans h
  All-keep_valid false plans h = h

  All-choose_final :
      (numbers : Numbers) (strategy : SamplingStrategy) (plans chosen : List PlanInfo)
      (f : FinalSelector)
      → choose_final numbers strategy plans f ≡ ok chosen
      → All P plans
      → All P chosen
  unfolding choose_final
  All-choose_final numbers strategy plans chosen all_plans e h =
      let same : plans ≡ chosen = cc e in subst (All P) same h
  All-choose_final numbers strategy plans chosen best_1 e h =
      All-best numbers strategy.optimization_metric (pos 1) plans chosen e h
  All-choose_final numbers strategy plans chosen best_n e h =
      let (n, _, rest) =
        >>=-eq-ok (or_raise strategy.n_best value_error)
          (λ k. get_best_plan_infos numbers strategy.optimization_metric k plans) e in
      All-best numbers strategy.optimization_metric n plans chosen rest h

  pub All-final_plans :
      (numbers : Numbers) (strategy : SamplingStrategy) (plans chosen : List PlanInfo)
      → final_plans numbers strategy plans ≡ ok chosen
      → All P plans
      → All P chosen
  unfolding final_plans
  All-final_plans numbers strategy plans chosen =
      All-choose_final numbers strategy plans chosen strategy.final_selector

-- A plan stands in the tree.
abbrev pub IsAt : List PlanInfo → PlanInfo → Type 0
IsAt plans p = (i : ℕ) × (get_elem? plans i ≡ some p)

IsAt-later : (x : PlanInfo) (xs ps : List PlanInfo) → All (IsAt xs) ps → All (IsAt (x ∷ xs)) ps
IsAt-later x xs [] h = tt
IsAt-later x xs (p ∷ ps) ((i, e), h) = ((suc i, e), IsAt-later x xs ps h)

pub All-IsAt : (plans : List PlanInfo) → All (IsAt plans) plans
All-IsAt [] = tt
All-IsAt (x ∷ xs) = ((0, refl), IsAt-later x xs xs (All-IsAt xs))

pub IsAt-contains :
    (plans : List PlanInfo) (p : PlanInfo) → IsAt plans p → contains (ids plans) p.sample_id ≡ true
IsAt-contains plans p (i, e) = contains-get_elem plans i p e

-- The plans that a strategy picks stand in the tree.
pub chosen-IsAt :
    (numbers : Numbers) (strategy : SamplingStrategy) (plans chosen : List PlanInfo)
    → final_plans numbers strategy
        (keep_valid strategy.from_valid_only (start_plans strategy.starting_selector plans))
      ≡ ok chosen
    → All (IsAt plans) chosen
chosen-IsAt numbers strategy plans chosen e =
    All-final_plans (IsAt plans) numbers strategy
      (keep_valid strategy.from_valid_only (start_plans strategy.starting_selector plans)) chosen e
      (All-keep_valid (IsAt plans) strategy.from_valid_only
        (start_plans strategy.starting_selector plans)
        (All-start_plans (IsAt plans) strategy.starting_selector plans (All-IsAt plans)))
