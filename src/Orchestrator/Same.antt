-- ===== src/Orchestrator/Same.antt =====
-- Steps that agree from some step on.
use llm_evolutionary_samplin.Prelude.{
  ℕ, zero, suc, ◌+◌, ◌<◌, Bool, or_raise, ◌≡◌, refl, ap, ◌∙◌, List, nat_eq, string_eq, Result, ok,
  err, ◌>>=◌, arith,
}
use llm_evolutionary_samplin.Prelude.Dict.{lookup, insert}
use llm_evolutionary_samplin.Error.{Error, file_not_found}
use llm_evolutionary_samplin.Samples.{QueryInfo, Sampling}
use llm_evolutionary_samplin.Bases.{SamplingStrategy}
use llm_evolutionary_samplin.NewSamples.{NewSampling}
use llm_evolutionary_samplin.Orchestrator.{
  run_step, selected_step, reused, or_run, accumulate, Files, Steps, Settings, remaining_steps,
}

-- The steps after the `n`-th are the same.
pub record AreSameAfter (n : ℕ) (steps steps' : Steps) : Type 0 where
  pub same_sample :
      (i m : ℕ) (strategy : SamplingStrategy) (state : List QueryInfo)
      → n < i
      → steps'.sample i m strategy state ≡ steps.sample i m strategy state
  pub same_evaluate :
      (i : ℕ) (new : List NewSampling) → n < i → steps'.evaluate i new ≡ steps.evaluate i new

bind_same_on {ℓ} :
    {A : Type ℓ} (r : Result Error A) (f g : A → Result Error Files)
    → ((x : A) → f x ≡ g x)
    → (r >>= f) ≡ (r >>= g)
bind_same_on (ok x) f g h = h x
bind_same_on (err e) f g h = refl

module _ (steps steps' : Steps) (n : ℕ) (after : AreSameAfter n steps steps') where
  run_step-same :
      (resume : Bool) (i m : ℕ) (strategy : SamplingStrategy) (files : Files)
      → n < i
      → run_step steps' resume i m strategy files ≡ run_step steps resume i m strategy files
  unfolding run_step
  run_step-same resume i m strategy files later =
      bind_same_on (or_raise files.final_sampling file_not_found) _ _ (λ state.
        ap
          (λ r. or_run (reused resume (lookup i files.sampled)) r >>= λ sampled.
            evaluates steps' sampled)
          (after.same_sample i m strategy state later)
        ∙ bind_same_on
            (or_run (reused resume (lookup i files.sampled)) (steps.sample i m strategy state))
            (evaluates steps') (evaluates steps)
            (λ sampled.
              ap (λ r. or_run (reused resume (lookup i files.evaluated)) r >>= accumulates sampled)
                (after.same_evaluate i sampled later)))
    where
      accumulates : List NewSampling → List Sampling → Result Error Files
      accumulates sampled evaluated = accumulate evaluated (record files {
        sampled = insert i sampled files.sampled;
        evaluated = insert i evaluated files.evaluated;
      })

      evaluates : Steps → List NewSampling → Result Error Files
      evaluates s sampled =
          or_run (reused resume (lookup i files.evaluated)) (s.evaluate i sampled)
          >>= accumulates sampled

  pub remaining_steps-same :
      (settings : Settings) (i left : ℕ) (files : Files)
      → n < i
      → remaining_steps steps' settings i left files ≡ remaining_steps steps settings i left files
  unfolding remaining_steps selected_step
  remaining_steps-same settings i zero files later = refl
  remaining_steps-same settings i (suc left) files later =
      ap (λ r. r >>= remaining_steps steps' settings (i + 1) left)
        (run_step-same settings.resume i _ _ files later)
      ∙ bind_same_on (selected_step steps settings i files)
          (remaining_steps steps' settings (i + 1) left)
          (remaining_steps steps settings (i + 1) left)
          (λ f. remaining_steps-same settings (i + 1) left f (omega (arith, later)))
