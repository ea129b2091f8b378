-- ===== src/Evaluation/Runs.antt =====
-- Which error is returned when all runs fail, and what is counted when some succeed.
use Prim.Native.Char.{Char}
use Prim.Native.String.{◌++◌}
use Prim.Native.String.append
use llm_evolutionary_samplin.Prelude.{
  ℕ, suc, ◌+◌, ◌<◌, ◌≤◌, pos, String, ◌≡◌, ◌⊎◌, inl, inr, refl, ap, sym, ◌∙◌, Bool, true, false,
  not, none, some, List, [], ◌∷◌, ◌==◌, nat_eq, string_eq, eq_refl, ltb, if◌then◌else◌, Result, ok,
  err, >>=-eq-ok, Bool-cases, beq→eq, All, contains, traverse, arith, subst,
}
use llm_evolutionary_samplin.Error.{Error}
use llm_evolutionary_samplin.Json.{Json}
use llm_evolutionary_samplin.Evaluation.{
  Arithmetic, rank_error, Outcome, Collected, add_run, collect_runs, metric_of, Evaluated,
  evaluated_of, nothing_collected, run_single_evaluation, evaluate_plan_n_runs, failed_exception,
  or_all_failed, metrics_of, outcome_of,
}
use llm_evolutionary_samplin.Metric.{truthy}
use llm_evolutionary_samplin.Validation.{dict_get}

-- The number of runs that succeed, and the errors of the others.
abbrev pub succeeds : Outcome → ℕ
succeeds (ok fs) = 1
succeeds (err e) = 0

abbrev pub n_successes : (ℕ → Outcome) → List ℕ → ℕ
n_successes outcomes [] = 0
n_successes outcomes (i ∷ is) = succeeds (outcomes i) + n_successes outcomes is

abbrev pub with_error : Outcome → List String → List String
with_error (ok fs) es = es
with_error (err e) es = e ∷ es

abbrev pub errors_of : (ℕ → Outcome) → List ℕ → List String
errors_of outcomes [] = []
errors_of outcomes (i ∷ is) = with_error (outcomes i) (errors_of outcomes is)

-- The error is one of the highest rank, if it has any.
pub record IsWorst (errors : List String) (c : Collected) : Type 0 where
  pub bound : All (λ e. rank_error e ≤ c.best_error_rank) errors
  pub attained :
      (c.best_error_rank ≡ 0)
      ⊎ ((e : String) × (c.best_error ≡ some e)
          × (rank_error e ≡ c.best_error_rank)
          × (contains errors e ≡ true))

counted :
    (outcome : Outcome) (c : Collected)
    → (add_run outcome c).total_successful_runs ≡ succeeds outcome + c.total_successful_runs
unfolding add_run
counted (ok fs) c = omega arith
counted (err e) c = ground arith

collect_runs-counts :
    (outcomes : ℕ → Outcome) (is : List ℕ) (c : Collected)
    → (collect_runs outcomes is c).total_successful_runs
      ≡ n_successes outcomes is + c.total_successful_runs
unfolding collect_runs
collect_runs-counts outcomes [] c = omega arith
collect_runs-counts outcomes (i ∷ is) c =
    collect_runs-counts outcomes is (add_run (outcomes i) c) ∙ omega (arith, counted (outcomes i) c)

-- From one state of the loop to a later one: the rank only grows, and reaches that of every error.
record Grows (errors : List String) (c c' : Collected) : Type 0 where
  above : c.best_error_rank ≤ c'.best_error_rank
  bound : All (λ e. rank_error e ≤ c'.best_error_rank) errors
  source :
      ((c'.best_error ≡ c.best_error) × (c'.best_error_rank ≡ c.best_error_rank))
      ⊎ ((e : String) × (c'.best_error ≡ some e)
          × (rank_error e ≡ c'.best_error_rank)
          × (contains errors e ≡ true))

later_error :
    (errors : List String) (e : String) (c c' : Collected)
    → ((x : String) × (c'.best_error ≡ some x)
        × (rank_error x ≡ c'.best_error_rank)
        × (contains errors x ≡ true))
    → (x : String) × (c'.best_error ≡ some x)
      × (rank_error x ≡ c'.best_error_rank)
      × (contains (e ∷ errors) x ≡ true)
later_error errors e c c' (x, b, r, m) = (x, b, r, ground (arith, m))

kept_error :
    (errors : List String) (e : String) (c c' : Collected)
    → ltb c.best_error_rank (rank_error e) ≡ false
    → Grows errors c c'
    → Grows (e ∷ errors) c c'
kept_error errors e c c' kept g = record {
  above = g.above;
  bound = (ground (arith, kept, g.above), g.bound);
  source = elim g.source [
    | inl same ↦ inl same
    | inr found ↦ inr (later_error errors e c c' found)
  ];
}

worse_error :
    (errors : List String) (e : String) (c c' : Collected)
    → ltb c.best_error_rank (rank_error e) ≡ true
    → Grows errors (record c { best_error = some e; best_error_rank = rank_error e }) c'
    → Grows (e ∷ errors) c c'
worse_error errors e c c' worse g = record {
  above = ground (arith, worse, g.above);
  bound = (g.above, g.bound);
  source = elim g.source [
    | inl (b, r) ↦ inr (e, b, sym r, rw (eq_refl e) refl)
    | inr found ↦ inr (later_error errors e c c' found)
  ];
}

one_more :
    (outcome : Outcome) (errors : List String) (c c' : Collected)
    → Grows errors (add_run outcome c) c'
    → Grows (with_error outcome errors) c c'
unfolding add_run
one_more (ok fs) errors c c' g = record { above = g.above; bound = g.bound; source = g.source }
one_more (err e) errors c c' g = elim (Bool-cases (ltb c.best_error_rank (rank_error e))) [
  | inl worse ↦ worse_error errors e c c' worse (rw worse at g)
  | inr kept ↦ kept_error errors e c c' kept (rw kept at g)
]

run_through :
    (outcomes : ℕ → Outcome) (is : List ℕ) (c : Collected)
    → Grows (errors_of outcomes is) c (collect_runs outcomes is c)
unfolding collect_runs
run_through outcomes [] c = record { above = omega arith; bound = tt; source = inl (refl, refl) }
run_through outcomes (i ∷ is) c =
    one_more (outcomes i) (errors_of outcomes is) c
      (collect_runs outcomes is (add_run (outcomes i) c))
      (run_through outcomes is (add_run (outcomes i) c))

-- The errors of a run are never empty.
IsText : Outcome → Type 0
IsText (ok fs) = Unit
IsText (err e) = 0 < rank_error e

choice-IsText : (b : Bool) (x y : Outcome) → IsText x → IsText y → IsText (if b then x else y)
choice-IsText true x y p q = p
choice-IsText false x y p q = q

cons_not_empty : (c : Char) (t : String) → (String.◌∷◌ c t == "") ≡ false
cons_not_empty c t = neq_false (String.◌∷◌ c t) (λ e. cc e)
  where
    neq_false : (s : String) → (s ≡ "" → ⊥) → (s == "") ≡ false
    neq_false s differ = elim (Bool-cases (s == "")) [
      | inl same ↦ absurd (differ (beq→eq s "" same))
      | inr other ↦ other
    ]

append_not_empty : (s t : String) → (s == "") ≡ false → (s ++ t == "") ≡ false
append_not_empty String.[] t h = cc h
append_not_empty (String.◌∷◌ c s) t h =
    ap (λ x. x == "") (append.cons c s t) ∙ cons_not_empty c (s ++ t)

rank_positive : (e : String) → (e == "") ≡ false → 0 < rank_error e
unfolding rank_error
rank_positive e h = ground (arith, h)

metrics_of-IsText : (v : Json) → IsText (metrics_of v)
unfolding IsText
metrics_of-IsText (Json.obj fs) = tt
metrics_of-IsText Json.null = rank_positive failed_exception refl
metrics_of-IsText (Json.bool b) = rank_positive failed_exception refl
metrics_of-IsText (Json.int n) = rank_positive failed_exception refl
metrics_of-IsText (Json.float b) = rank_positive failed_exception refl
metrics_of-IsText (Json.str t) = rank_positive failed_exception refl
metrics_of-IsText (Json.arr xs) = rank_positive failed_exception refl

outcome_of-IsText : (a : Arithmetic) (v : Json) (r : Result Error Json) → IsText (outcome_of a v r)
unfolding IsText
outcome_of-IsText a v (err e) = rank_positive failed_exception refl
outcome_of-IsText a v (ok error) =
    choice-IsText (truthy a.numbers.floats error)
      (err ("Failed to evaluate plan: " ++ a.text_of error)) (metrics_of v)
      (rank_positive _ (append_not_empty "Failed to evaluate plan: " (a.text_of error) refl))
      (metrics_of-IsText v)

run-IsText : (a : Arithmetic) (r : Result Error Json) → IsText (run_single_evaluation a r)
unfolding run_single_evaluation IsText
run-IsText a (err e) = rank_positive failed_exception refl
run-IsText a (ok v) =
    choice-IsText (not (truthy a.numbers.floats v))
      (err "Failed to evaluate plan: No Result returned from AWS (S3)!")
      (outcome_of a v (dict_get v "error")) (rank_positive _ refl)
      (outcome_of-IsText a v (dict_get v "error"))

-- The outcomes of the runs.
abbrev pub outcomes_of : Arithmetic → (ℕ → Result Error Json) → ℕ → Outcome
outcomes_of a results i = run_single_evaluation a (results i)

module _ (a : Arithmetic) (n : ℕ) (results : ℕ → Result Error Json) where
  one_rank :
      (outcome : Outcome) (is : List ℕ) (rank : ℕ)
      → IsText outcome
      → succeeds outcome ≡ 0
      → All (λ e. rank_error e ≤ rank) (with_error outcome (errors_of (outcomes_of a results) is))
      → 0 < rank
  unfolding IsText
  one_rank (ok fs) is rank t none_ b = absurd (omega (arith, none_))
  one_rank (err e) is rank t none_ (less, b) = omega (arith, t, less)

  -- If at least one run is done and none succeeds, then the evaluation returns no statistics and one of
  -- the errors of the runs, of the highest rank among them.
  pub evaluate_plan_n_runs_fails :
      (i : ℕ) (is : List ℕ)
      → n_successes (outcomes_of a results) (i ∷ is) ≡ 0
      → (e : String) × (evaluate_plan_n_runs a (pos (suc n)) results (i ∷ is)
          ≡ ok (record { n_runs = 0; benchmark_stats = []; error = some e }))
        × (contains (errors_of (outcomes_of a results) (i ∷ is)) e ≡ true)
        × All (λ x. rank_error x ≤ rank_error e) (errors_of (outcomes_of a results) (i ∷ is))
  unfolding evaluate_plan_n_runs evaluated_of
  evaluate_plan_n_runs_fails i is none_ =
      let c = collect_runs (outcomes_of a results) (i ∷ is) nothing_collected in
      let g = run_through (outcomes_of a results) (i ∷ is) nothing_collected in
      let zero_runs : (c.total_successful_runs == 0) ≡ true =
        ground
          (arith, collect_runs-counts (outcomes_of a results) (i ∷ is) nothing_collected, none_) in
      let first : succeeds (outcomes_of a results i) ≡ 0 = omega (arith, none_) in
      elim g.source [
        | inl (_, r) ↦ absurd (
            omega (
              arith,
              r,
              one_rank (outcomes_of a results i) is c.best_error_rank (run-IsText a (results i))
                  first g.bound,
            ))
        | inr (e, best, rank, m) ↦ (
          e,
          rw zero_runs (
              ap
                (λ o.
                  ok (record { n_runs = 0; benchmark_stats = []; error = some (or_all_failed o) }))
                best),
          m,
          subst (λ k. All (λ x. rank_error x ≤ k) (errors_of (outcomes_of a results) (i ∷ is)))
              (sym rank) g.bound,
        )
      ]

  -- If a run succeeds and the evaluation returns, then it reports no error, and as many runs as succeed,
  -- whatever the order in which they are done.
  pub evaluate_plan_n_runs_counts :
      (arrivals : List ℕ) (evaluated : Evaluated)
      → 0 < n_successes (outcomes_of a results) arrivals
      → evaluate_plan_n_runs a (pos (suc n)) results arrivals ≡ ok evaluated
      → (evaluated.n_runs ≡ n_successes (outcomes_of a results) arrivals) × (evaluated.error ≡ none)
  unfolding evaluate_plan_n_runs evaluated_of
  evaluate_plan_n_runs_counts arrivals evaluated some_ h =
      let c = collect_runs (outcomes_of a results) arrivals nothing_collected in
      let n_runs : c.total_successful_runs ≡ n_successes (outcomes_of a results) arrivals =
        collect_runs-counts (outcomes_of a results) arrivals nothing_collected ∙ omega arith in
      let some_runs : (c.total_successful_runs == 0) ≡ false = ground (arith, n_runs, some_) in
      let (stats, _, last) = >>=-eq-ok (traverse (metric_of a) c.all_runs) _ (rw some_runs at h) in
      let same : record { n_runs = c.total_successful_runs; benchmark_stats = stats; error = none }
          ≡ evaluated =
        cc last in
      (ap (λ e. e.n_runs) (sym same) ∙ n_runs, ap (λ e. e.error) (sym same))
