-- ===== src/Orchestrator/Progress.antt =====
-- What a step does to the files, and the loop over the steps in parts.
use llm_evolutionary_samplin.Prelude.{
  ℕ, zero, suc, ◌+◌, ◌≡◌, refl, ap, ◌∙◌, Bool, Option, none, some, List, [], ◌∷◌, nat_eq, ltb,
  if◌then◌else◌, Result, ok, err, ◌>>=◌, >>=-eq-ok, or_raise, arith, subst,
}
use llm_evolutionary_samplin.Prelude.Dict.{Dict, keys, lookup, insert}
use llm_evolutionary_samplin.Error.{Error, file_not_found}
use llm_evolutionary_samplin.Samples.{QueryInfo, Sampling, accumulate_samples}
use llm_evolutionary_samplin.Bases.{SamplingStrategy}
use llm_evolutionary_samplin.NewSamples.{NewSampling}
use llm_evolutionary_samplin.Orchestrator.{
  Files, Steps, Settings, maximum, accumulate, reused, or_run, run_step, selected_step,
  remaining_steps,
}

pub maximum-insert :
    {V : Type 0} (k : ℕ) (v : V) (d : Dict ℕ V)
    → maximum (keys (insert k v d)) ≡ (if ltb (maximum (keys d)) k then k else maximum (keys d))
unfolding maximum insert
maximum-insert k v [] = ground arith
maximum-insert k v ((j, w) ∷ d) = ground (arith, maximum-insert k v d)

or_raise-ok : {A : Type 0} (o : Option A) (e : Error) {a : A} → or_raise o e ≡ ok a → o ≡ some a
or_raise-ok none e h = cc h
or_raise-ok (some x) e h = cc h

-- The files before and behind step `i`.
pub record IsStep (i : ℕ) (files files' : Files) : Type 0 where
  pub before : List QueryInfo
  pub after : List QueryInfo
  pub samplings : List Sampling
  pub has_before : files.final_sampling ≡ some before
  pub has_after : files'.final_sampling ≡ some after
  pub accumulated : accumulate_samples samplings before ≡ ok after
  pub evaluated : files'.evaluated ≡ insert i samplings files.evaluated
  pub base : files'.base_sampling ≡ files.base_sampling

accumulate-IsStep :
    (i : ℕ) (sampled : Dict ℕ (List NewSampling)) (samplings : List Sampling) (files files' : Files)
    → accumulate samplings
        (record files { sampled = sampled; evaluated = insert i samplings files.evaluated })
      ≡ ok files'
    → IsStep i files files'
unfolding accumulate
accumulate-IsStep i sampled samplings files files' h =
    let (before, eb, h1) = >>=-eq-ok (or_raise files.final_sampling file_not_found) _ h in
    let (after, ea, h2) = >>=-eq-ok (accumulate_samples samplings before) _ h1 in
    let same : record files {
      sampled = sampled;
      evaluated = insert i samplings files.evaluated;
      final_sampling = some after;
    }
        ≡ files' =
      cc h2 in
    subst (IsStep i files) same (record {
      before = before;
      after = after;
      samplings = samplings;
      has_before = or_raise-ok files.final_sampling file_not_found eb;
      has_after = refl;
      accumulated = ea;
      evaluated = refl;
      base = refl;
    })

pub run_step-IsStep :
    (steps : Steps) (resume : Bool) (i n : ℕ) (strategy : SamplingStrategy) (files files' : Files)
    → run_step steps resume i n strategy files ≡ ok files'
    → IsStep i files files'
unfolding run_step
run_step-IsStep steps resume i n strategy files files' h =
    let (state, es, h1) = >>=-eq-ok (or_raise files.final_sampling file_not_found) _ h in
    let (sampled, _, h2) =
      >>=-eq-ok (or_run (reused resume (lookup i files.sampled)) (steps.sample i n strategy state))
        _ h1 in
    let (evaluated, _, h3) =
      >>=-eq-ok (or_run (reused resume (lookup i files.evaluated)) (steps.evaluate i sampled)) _
        h2 in
    accumulate-IsStep i (insert i sampled files.sampled) evaluated files files' h3

in_two :
    (r : Result Error Files) (f g k : Files → Result Error Files)
    → ((x : Files) → f x ≡ (g x >>= k))
    → (r >>= f) ≡ ((r >>= g) >>= k)
in_two (ok x) f g k h = h x
in_two (err e) f g k h = refl

module _ (steps : Steps) (settings : Settings) where
  -- The loop in two parts.
  pub remaining_steps-add :
      (i a b : ℕ) (files : Files)
      → remaining_steps steps settings i (a + b) files
        ≡ (remaining_steps steps settings i a files >>= remaining_steps steps settings (i + a) b)
  unfolding remaining_steps
  remaining_steps-add i zero b files =
      ap (λ n. remaining_steps steps settings i n files) (omega arith)
      ∙ ap (λ n. remaining_steps steps settings n b files) (omega arith)
  remaining_steps-add i (suc a) b files =
      let longer : suc a + b ≡ suc (a + b) = omega arith in
      ap (λ n. remaining_steps steps settings i n files) longer
      ∙ in_two (selected_step steps settings i files)
          (remaining_steps steps settings (i + 1) (a + b))
          (remaining_steps steps settings (i + 1) a) (remaining_steps steps settings (i + suc a) b)
          (λ f.
            remaining_steps-add (i + 1) a b f
            ∙ ap
                (λ n.
                  remaining_steps steps settings (i + 1) a f >>= remaining_steps steps settings n b)
                {y = i + suc a} (omega arith))

  -- A property that every step of the loop carries on.
  pub remaining_steps-carries :
      (P : ℕ → Files → Type 0)
      → ((i : ℕ) (files files' : Files)
          → P i files
          → IsStep (i + 1) files files'
          → P (i + 1) files')
      → (i left : ℕ) (files files' : Files) → P i files
      → remaining_steps steps settings (i + 1) left files ≡ ok files'
      → P (i + left) files'
  unfolding remaining_steps selected_step
  remaining_steps-carries P carry i zero files files' p h =
      let same : files ≡ files' = cc h in
      subst (λ f. P (i + 0) f) same (subst (λ n. P n files) (omega arith) p)
  remaining_steps-carries P carry i (suc left) files files' p h =
      let (next, step, rest) =
        >>=-eq-ok (selected_step steps settings (i + 1) files)
          (remaining_steps steps settings (i + 1 + 1) left) h in
      subst (λ n. P n files') (omega arith)
        (remaining_steps-carries P carry (i + 1) left next files'
          (carry i files next p (run_step-IsStep steps settings.resume (i + 1) _ _ files next step))
          rest)
