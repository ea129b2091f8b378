-- ===== src/Generation/Order.antt =====
-- The patches of a batch do not depend on the order in which the calls are completed, nor does a transient
-- error of the model show in a result.
use llm_evolutionary_samplin.Prelude.{
  ℕ, zero, suc, ◌+◌, ◌<◌, ◌≤◌, ◌≡◌, refl, ap, sym, ◌∙◌, String, true, Option, none, some, List, [],
  ◌∷◌, length, get_elem?, contains, nat_eq, Result, guard, ok, err, ◌>>=◌, All, arith, ltb, ltb→lt,
  Bool-cases, inl, inr,
}
use llm_evolutionary_samplin.Prelude.Gather.{
  set_at, nones, store, gather, tabulate, gather-tabulate,
}
use llm_evolutionary_samplin.Error.{Error, value_error}
use llm_evolutionary_samplin.Json.{Json}
use llm_evolutionary_samplin.Json.Equality.{Floats}
use llm_evolutionary_samplin.Generation.{
  GenerationResult, reply_result, failed_result, Reply, Completion, attempts, Llm, Arrivals,
  Generated, generate_single_sample, subscript, optimize_plan, optimize_single_query, collect,
  optimize_plans_batch,
}

-- The executor completes each of `n` calls, and no other.
pub record IsComplete (n : ℕ) (arrivals : List ℕ) : Type 0 where
  pub all_arrive : (i : ℕ) → i < n → contains arrivals i ≡ true
  pub in_range : All (λ i. i < n) arrivals

-- What is read for a query.
pub record Input : Type 0 where
  pub query : Json
  pub plan : Json
  pub structure : Json
  pub info : Json

pub record IsInput (queries : List (Json × Json)) (i : ℕ) (input : Input) : Type 0 where
  pub at : get_elem? queries i ≡ some (input.query, input.plan)
  pub has_structure : subscript input.plan "structure" ≡ ok input.structure
  pub has_info : subscript input.plan "succinct_table_info" ≡ ok input.info

-- The samples of a query, one after the other.
abbrev pub samples_in_order : Llm → Input → (n_samples n_retry : ℕ) → Generated
samples_in_order llm input n_samples n_retry =
    tabulate
      (λ k.
        generate_single_sample llm.floats llm.extract
          (llm.complete input.query input.structure input.info k) n_retry)
      0 n_samples

collect-store :
    (result : ℕ → Result Error Generated) (value : ℕ → Generated) (n : ℕ) (is : List ℕ)
    (slots : List (Option Generated))
    → ((i : ℕ) → i < n → result i ≡ ok (value i))
    → All (λ i. i < n) is
    → collect result is slots ≡ ok (store value is slots)
unfolding collect store
collect-store result value n [] slots h b = refl
collect-store result value n (i ∷ is) slots h (less, b) =
    ap (λ r. r >>= λ v. collect result is (set_at i v slots)) (h i less)
    ∙ collect-store result value n is (set_at i (value i) slots) h b

module _ (llm : Llm) (queries : List (Json × Json)) (n_samples max_workers n_retry : ℕ)
    (arrivals : Arrivals) (inputs : ℕ → Input) where
  single_lem :
      (i : ℕ)
      → 0 < n_samples
      → IsInput queries i (inputs i)
      → IsComplete n_samples (arrivals.samples i)
      → optimize_single_query llm queries n_samples n_retry arrivals i
        ≡ ok (samples_in_order llm (inputs i) n_samples n_retry)
  unfolding optimize_single_query optimize_plan
  single_lem i some_samples input complete =
      rw (input.at, optimize_single_query)
        (rw input.has_structure (
          rw input.has_info (
            rw positive (
              ap ok (
                gather-tabulate n_samples
                  (λ k.
                    generate_single_sample llm.floats llm.extract
                      (llm.complete (inputs i).query (inputs i).structure (inputs i).info k)
                      n_retry)
                  (arrivals.samples i) complete.all_arrive)))))
    where
      positive : ltb 0 n_samples ≡ true
      positive = ground (arith, some_samples)

  -- If there are samples and workers, every plan has the keys that are read, and every query and every sample is completed once it is
  -- submitted, then a batch returns the samples of all queries in the order of the queries and samples,
  -- the same for every order of completion.
  pub optimize_plans_batch_lem :
      0 < n_samples
      → 0 < max_workers
      → ((i : ℕ) → i < length queries → IsInput queries i (inputs i))
      → IsComplete (length queries) arrivals.queries
      → ((i : ℕ) → IsComplete n_samples (arrivals.samples i))
      → optimize_plans_batch llm queries n_samples max_workers n_retry arrivals
        ≡ ok (tabulate (λ i. samples_in_order llm (inputs i) n_samples n_retry) 0 (length queries))
  unfolding optimize_plans_batch
  optimize_plans_batch_lem some_samples some_workers readable complete completes =
      ap (λ b. guard b value_error >>= λ _. run) positive
      ∙ collect-store (optimize_single_query llm queries n_samples n_retry arrivals)
          (λ i. samples_in_order llm (inputs i) n_samples n_retry) (length queries) arrivals.queries
          (nones (length queries))
          (λ i less. single_lem i some_samples (readable i less) (completes i)) complete.in_range
      ∙ ap ok (gathered (λ i. samples_in_order llm (inputs i) n_samples n_retry))
    where
      run : Result Error (List (Option Generated))
      run =
          collect (optimize_single_query llm queries n_samples n_retry arrivals) arrivals.queries
            (nones (length queries))

      positive : ltb 0 max_workers ≡ true
      positive = ground (arith, some_workers)

      gathered :
          (value : ℕ → Generated)
          → store value arrivals.queries (nones (length queries))
            ≡ tabulate value 0 (length queries)
      gathered value =
          (unfold gather in
            gather-tabulate (length queries) value arrivals.queries complete.all_arrive)

-- Attempt `k` is the first that succeeds.
pub record IsFirst (complete : Completion) (k : ℕ) (reply : Reply) : Type 0 where
  pub succeeds : complete k ≡ ok reply
  pub fails_before : (j : ℕ) → j < k → (exc : String) × (complete j ≡ err exc)

attempts_from :
    (complete : Completion) (k : ℕ) (reply : Reply)
    → IsFirst complete k reply
    → (attempt left : ℕ) (last : Option String) → attempt ≤ k
    → k < attempt + left
    → attempts complete attempt left last ≡ ok reply
unfolding attempts
attempts_from complete k reply first attempt zero last low high = absurd (omega (arith, low, high))
attempts_from complete k reply first attempt (suc left) last low high =
    elim (Bool-cases (ltb attempt k)) [
      | inl below ↦
          let less : attempt < k = ltb→lt attempt k below in
          let (exc, failed) = first.fails_before attempt less in
          let later =
            attempts_from complete k reply first (attempt + 1) left (some exc) (omega (arith, less))
              (omega (arith, high)) in
          rw (failed, attempts) later
      | inr beyond ↦
          let same : k ≡ attempt = ground (arith, beyond, low) in
          let succeeded : complete attempt ≡ ok reply = ap complete (sym same) ∙ first.succeeds in
          rw (succeeded, attempts) refl
    ]

attempts_first :
    (complete : Completion) (n_retry k : ℕ) (reply : Reply)
    → k ≤ n_retry
    → IsFirst complete k reply
    → attempts complete 0 (n_retry + 1) none ≡ ok reply
attempts_first complete n_retry k reply bound first =
    attempts_from complete k reply first 0 (n_retry + 1) none (omega arith) (omega (arith, bound))

-- The result for an answer, with the patches that were found in it or the exception of the search.
abbrev pub result_for : Floats → Reply → Result String Json → GenerationResult
result_for floats reply (ok patches) = reply_result floats reply patches
result_for floats reply (err exc) = failed_result exc

-- If an attempt succeeds within `n_retry` retries, then the sample's result is that of the first answer
-- that is given, with its patches, or with the exception of the search for them.
pub generate_single_sample_first :
    (floats : Floats) (extract : Json → Result String Json) (complete : Completion) (n_retry k : ℕ)
    (reply : Reply)
    → k ≤ n_retry
    → IsFirst complete k reply
    → generate_single_sample floats extract complete n_retry
      ≡ result_for floats reply (extract reply.content)
unfolding generate_single_sample
generate_single_sample_first floats extract complete n_retry k reply bound first =
    rw (attempts_first complete n_retry k reply bound first, generate_single_sample)
      (by_search (extract reply.content))
  where
    by_search :
        (found : Result String Json)
        → (elim found [
          | err exc ↦ failed_result exc
          | ok patches ↦ reply_result floats reply patches
        ])
          ≡ result_for floats reply found
    by_search (ok patches) = refl
    by_search (err exc) = refl

attempts_fail :
    (complete : Completion) (messages : ℕ → String) (attempt left : ℕ) (last : Option String)
    → ((j : ℕ) → j ≤ attempt + left → complete j ≡ err (messages j))
    → attempts complete attempt (suc left) last ≡ err (some (messages (attempt + left)))
unfolding attempts
attempts_fail complete messages attempt zero last fails =
    rw (fails attempt (omega arith), attempts) (ap (λ k. err (some (messages k))) (omega arith))
attempts_fail complete messages attempt (suc left) last fails =
    rw (fails attempt (omega arith), attempts)
      (attempts_fail complete messages (attempt + 1) left (some (messages attempt))
          (λ j bound. fails j (omega (arith, bound)))
        ∙ ap (λ k. err (some (messages k))) (omega arith))

-- If the first attempt and all of the `n_retry` retries raise, then the sample's result is a failure with
-- the text of the last exception.
pub generate_single_sample_fails :
    (floats : Floats) (extract : Json → Result String Json) (complete : Completion) (n_retry : ℕ)
    (messages : ℕ → String)
    → ((j : ℕ) → j ≤ n_retry → complete j ≡ err (messages j))
    → generate_single_sample floats extract complete n_retry ≡ failed_result (messages n_retry)
unfolding generate_single_sample
generate_single_sample_fails floats extract complete n_retry messages fails =
    rw (all_fail, generate_single_sample) refl
  where
    all_fail : attempts complete 0 (n_retry + 1) none ≡ err (some (messages n_retry))
    all_fail =
        ap (λ m. attempts complete 0 m none) {y = suc n_retry} (omega arith)
        ∙ attempts_fail complete messages 0 n_retry none (λ j bound. fails j (omega (arith, bound)))
        ∙ ap (λ k. err (some (messages k))) {y = n_retry} (omega arith)
