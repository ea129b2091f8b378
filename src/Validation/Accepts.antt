-- ===== src/Validation/Accepts.antt =====
-- When a validation accepts, for an order in which the runs are done.
use llm_evolutionary_samplin.Prelude.{
  ℕ, zero, suc, ◌<◌, ◌≡◌, refl, ap, ◌∙◌, ◌↔◌, String, Bool, true, false, Option, none, some, List,
  [], ◌∷◌, ◌==◌, nat_eq, Result, ok, err, contains, IsDistinct, All, arith, subst,
}
use llm_evolutionary_samplin.Json.{Json}
use llm_evolutionary_samplin.Json.Equality.{Floats}
use llm_evolutionary_samplin.Generation.Order.{IsComplete}
use llm_evolutionary_samplin.Validation.{
  Stop, rejected, raised, Seen, baseline_arrives, candidate_arrives, arrives, compare_as_you_fetch,
  run_data, verdict, nothing_seen, becomes_primary, Pandas, same_results, validate_plan_result_set,
}
use llm_evolutionary_samplin.Validation.Rounds.{
  first_candidate, primary_is, baseline_is, Others, WithBaseline, FromStart, from_start,
}

-- Every run gives a result set; that of the candidate's run `first` matches the baseline's, and those of
-- its other runs match that of `first`.
pub record IsAccepted (compare : Json → Json → Bool) (n first : ℕ) (results : ℕ → Result Stop Json)
    : Type 0 where
  pub baseline : Json
  pub primary : Json
  pub baseline_runs : results 0 ≡ ok baseline
  pub primary_runs : results (suc first) ≡ ok primary
  pub correct : compare baseline primary ≡ true
  pub deterministic :
      (k : ℕ)
      → k < n
      → (k == first) ≡ false
      → (data_ : Json) × (results (suc k) ≡ ok data_) × (compare primary data_ ≡ true)

module _ (compare : Json → Json → Bool) (results : ℕ → Result Stop Json) where
  module _ (n first : ℕ) (a : IsAccepted compare n first results) where
    goes_on_behind :
        (base : Option Json) (is : List ℕ)
        → contains is (suc first) ≡ false
        → All (λ i. i < suc n) is
        → (seen' : Seen) × (compare_as_you_fetch compare results (primary_is base a.primary) is
            ≡ ok seen')
    unfolding compare_as_you_fetch arrives baseline_arrives candidate_arrives
    goes_on_behind base [] once b = (primary_is base a.primary, refl)
    goes_on_behind base (zero ∷ is) once (less, b) =
        let (seen', rest) = goes_on_behind base is (ground (arith, once)) b in
        (seen', rw a.baseline_runs (rw a.correct rest))
    goes_on_behind base (suc k ∷ is) once (less, b) =
        let (seen', rest) = goes_on_behind base is (ground (arith, once)) b in
        let (d, run, same) = a.deterministic k (omega (arith, less)) (ground (arith, once)) in
        (seen', rw run (rw same rest))

    -- Before the primary candidate, which the baseline's result set, if it is there, lets pass.
    goes_on :
        (base : Option Json) (is : List ℕ)
        → becomes_primary compare base a.primary ≡ ok (primary_is none a.primary)
        → IsDistinct is
        → first_candidate is ≡ some first
        → All (λ i. i < suc n) is
        → (seen' : Seen) × (compare_as_you_fetch compare results (baseline_is base) is ≡ ok seen')
    unfolding compare_as_you_fetch arrives baseline_arrives candidate_arrives
    goes_on base [] ready d found b = cc found
    goes_on base (zero ∷ is) ready (_, d) found (less, b) =
        let (seen', rest) = goes_on (some a.baseline) is (rw a.correct refl) d found b in
        (seen', rw a.baseline_runs rest)
    goes_on base (suc k ∷ is) ready (once, d) found (less, b) =
        let one : k ≡ first = cc found in
        let run : results (suc k) ≡ ok a.primary = ap (λ j. results (suc j)) one ∙ a.primary_runs in
        let (seen', rest) =
          goes_on_behind none is (subst (λ j. contains is (suc j) ≡ false) one once) b in
        (seen', rw run (rw ready rest))

verdict-none : (r : Result Stop Seen) → verdict r ≡ ok none → (seen : Seen) × (r ≡ ok seen)
verdict-none (ok seen) h = (seen, refl)
verdict-none (err (rejected x)) h = cc h
verdict-none (err (raised e)) h = cc h

-- If each of the baseline's run and the `n` runs of the candidate is done exactly once, and the candidate's
-- run `first` is the first of its runs that is done, then a validation accepts just when every run gives a
-- result set, `compare_result_sets` finds that of `first` equal to the baseline's, and it finds those of
-- the candidate's other runs equal to that of `first`.
pub validate_plan_result_set-IsAccepted :
    {Frame : Type 0} (floats : Floats) (pandas : Pandas Frame) (runs : ℕ → Result String Json)
    (n first : ℕ) (arrivals : List ℕ)
    → IsComplete (suc n) arrivals
    → IsDistinct arrivals
    → first_candidate arrivals ≡ some first
    → (validate_plan_result_set floats pandas runs arrivals ≡ ok none)
      ↔ IsAccepted (same_results pandas) n first (λ i. run_data floats i (runs i))
unfolding validate_plan_result_set FromStart WithBaseline Others
validate_plan_result_set-IsAccepted floats pandas runs n first arrivals complete distinct found =
    let compare = same_results pandas in
    let results : ℕ → Result Stop Json = λ i. run_data floats i (runs i) in
    (
      (λ accepted.
          let (seen, h) =
            verdict-none (compare_as_you_fetch compare results nothing_seen arrivals) accepted in
          let (base, run, (primary, primary_run, correct, others)) =
            from_start compare results first arrivals seen distinct
              (complete.all_arrive 0 (omega arith)) found h in
          record {
            baseline = base;
            primary = primary;
            baseline_runs = run;
            primary_runs = primary_run;
            correct = correct;
            deterministic =
                λ k less other. others k (complete.all_arrive (suc k) (omega (arith, less))) other;
          }),
      (λ a.
          let (seen, h) =
            goes_on compare results n first a none arrivals refl distinct found complete.in_range in
          ap verdict h),
    )
