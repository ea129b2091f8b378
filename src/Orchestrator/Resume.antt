-- ===== src/Orchestrator/Resume.antt =====
-- A run that is resumed with more steps does what one run with all the steps does.
use llm_evolutionary_samplin.Prelude.{
  ℕ, ◌+◌, ◌-◌, ℤ, pos, ◌≡◌, refl, ap, sym, ◌∙◌, true, false, ◌||◌, none, some, List, [], ◌==◌,
  nat_eq, string_eq, ltb, if◌then◌else◌, Result, ok, err, ◌>>=◌, arith, subst,
}
use llm_evolutionary_samplin.Prelude.Dict.{keys}
use llm_evolutionary_samplin.Error.{Error}
use llm_evolutionary_samplin.Samples.{QueryInfo}
use llm_evolutionary_samplin.Orchestrator.{
  Files, Steps, Settings, maximum, max_completed, min_nat, rebuild_limit, rebuild, from_base,
  is_missing, start, remaining_steps, run_sampling_steps, is_top_up, top_up,
}
use llm_evolutionary_samplin.Orchestrator.Progress.{
  maximum-insert, IsStep, remaining_steps-add, remaining_steps-carries,
}
use llm_evolutionary_samplin.Orchestrator.Same.{AreSameAfter, remaining_steps-same}

-- No step has been run.
abbrev pub fresh : List QueryInfo → Files
fresh base = record { base_sampling = base; final_sampling = none; sampled = []; evaluated = [] }

-- The first `n` steps are completed.
pub record IsAt (n : ℕ) (files : Files) : Type 0 where
  pub completed : max_completed files ≡ n
  pub state : List QueryInfo
  pub saved : files.final_sampling ≡ some state

IsAt-step :
    (i : ℕ) (files files' : Files)
    → IsAt i files
    → IsStep (i + 1) files files'
    → IsAt (i + 1) files'
unfolding max_completed
IsAt-step i files files' at step = record {
  completed =
      ap (λ d. maximum (keys d)) step.evaluated
      ∙ maximum-insert (i + 1) step.samplings files.evaluated
      ∙ ground (arith, at.completed);
  state = step.after;
  saved = step.has_after;
}

-- A strategy without top-ups, resumed.
pub record IsPlain (settings : Settings) : Type 0 where
  pub resumes : settings.resume ≡ true
  pub plain : (settings.strategy == "best_of") ≡ false

pub bind_ok : (r : Result Error Files) → (r >>= λ f. ok f) ≡ r
bind_ok (ok f) = refl
bind_ok (err e) = refl

bind_same_files :
    (r : Result Error Files) (f g : Files → Result Error Files)
    → ((x : Files) → f x ≡ g x)
    → (r >>= f) ≡ (r >>= g)
bind_same_files (ok x) f g h = h x
bind_same_files (err e) f g h = refl

no_top_up : (settings : Settings) (n : ℤ) → IsPlain settings → is_top_up settings n ≡ false
no_top_up settings n p = rw p.plain refl

module _ (steps : Steps) (settings : Settings) (p : IsPlain settings) where
  -- Such a run starts, and goes through the remaining steps.
  pub plain_run :
      (n : ℕ) (files : Files)
      → run_sampling_steps steps settings (pos n) files ≡ (
          start true (pos n) files
          >>= remaining_steps steps settings
              (rebuild_limit (max_completed files) (pos n) + 1)
              (n - rebuild_limit (max_completed files) (pos n)))
  unfolding run_sampling_steps
  plain_run n files =
      let limit = rebuild_limit (max_completed files) (pos n) in
      let loop = remaining_steps steps settings (limit + 1) (n - limit) in
      ap
        (λ b. start b (pos n) files >>= λ s. loop s >>= λ d.
          if is_top_up settings (pos n)
          then top_up steps settings (max_completed files) d
          else ok d)
        p.resumes
      ∙ ap
          (λ b. start true (pos n) files >>= λ s.
            loop s >>= λ d. if b then top_up steps settings (max_completed files) d else ok d)
          (no_top_up settings (pos n) p)
      ∙ bind_same_files (start true (pos n) files) (λ s. loop s >>= λ d. ok d) loop
          (λ s. bind_ok (loop s))

  pub fresh_run :
      (n : ℕ) (base : List QueryInfo)
      → run_sampling_steps steps settings (pos n) (fresh base)
        ≡ remaining_steps steps settings 1 n (from_base (fresh base))
  unfolding max_completed maximum rebuild_limit start rebuild
  fresh_run n base =
      let none_yet : min_nat 0 n ≡ 0 = ground arith in
      plain_run n (fresh base)
      ∙ ap
          (λ m.
            (rebuild 1 m (from_base (fresh base))
              >>= remaining_steps steps settings (m + 1) (n - m)))
          none_yet
      ∙ ap (λ m. remaining_steps steps settings 1 m (from_base (fresh base))) {y = n} (omega arith)

  resumed_run :
      (n k : ℕ) (files : Files)
      → IsAt n files
      → run_sampling_steps steps settings (pos (n + k)) files
        ≡ remaining_steps steps settings (n + 1) k files
  unfolding rebuild_limit start
  resumed_run n k files at =
      let so_far : min_nat n (n + k) ≡ n = ground arith in
      let not_below : ltb (n + k) n ≡ false = ground arith in
      plain_run (n + k) files
      ∙ ap
          (λ c.
            (if is_missing files.final_sampling || ltb (n + k) c
              then rebuild 1 (min_nat c (n + k)) (from_base files)
              else ok files)
            >>= remaining_steps steps settings (min_nat c (n + k) + 1) (n + k - min_nat c (n + k)))
          at.completed
      ∙ ap
          (λ o.
            (if is_missing o || ltb (n + k) n
              then rebuild 1 (min_nat n (n + k)) (from_base files)
              else ok files)
            >>= remaining_steps steps settings (min_nat n (n + k) + 1) (n + k - min_nat n (n + k)))
          at.saved
      ∙ ap
          (λ b.
            (if b then rebuild 1 (min_nat n (n + k)) (from_base files) else ok files)
            >>= remaining_steps steps settings (min_nat n (n + k) + 1) (n + k - min_nat n (n + k)))
          not_below
      ∙ ap (λ m. remaining_steps steps settings (m + 1) (n + k - m) files) so_far
      ∙ ap (λ m. remaining_steps steps settings (n + 1) m files) {y = k} (omega arith)

  pub fresh_run-IsAt :
      (n : ℕ) (base : List QueryInfo) (files : Files)
      → run_sampling_steps steps settings (pos n) (fresh base) ≡ ok files
      → IsAt n files
  unfolding max_completed maximum
  fresh_run-IsAt n base files h =
      subst (λ m. IsAt m files) {y = n} (omega arith)
        (remaining_steps-carries steps settings IsAt IsAt-step 0 n (from_base (fresh base)) files
          (record { completed = refl; state = base; saved = refl }) (sym (fresh_run n base) ∙ h))

module _ (steps steps' : Steps) (n : ℕ) (after : AreSameAfter n steps steps') where
  -- If a run of `n` steps on fresh files returns, for a strategy without top-ups that is run with
  -- `resume`, then resuming it for `k` more steps gives what a single run of `n + k` steps gives, errors
  -- included, even if sampling and evaluation have changed for the first `n` steps, which are not called
  -- again.
  pub run_sampling_steps_resume :
      (settings : Settings)
      → IsPlain settings
      → (k : ℕ) (base : List QueryInfo) (files : Files)
      → run_sampling_steps steps settings (pos n) (fresh base) ≡ ok files
      → run_sampling_steps steps' settings (pos (n + k)) files
        ≡ run_sampling_steps steps settings (pos (n + k)) (fresh base)
  run_sampling_steps_resume settings p k base files h =
      let first : remaining_steps steps settings 1 n (from_base (fresh base)) ≡ ok files =
        sym (fresh_run steps settings p n base) ∙ h in
      resumed_run steps' settings p n k files (fresh_run-IsAt steps settings p n base files h)
      ∙ remaining_steps-same steps steps' n after settings (n + 1) k files (omega arith)
      ∙ sym (
          fresh_run steps settings p (n + k) base
          ∙ remaining_steps-add steps settings 1 n k (from_base (fresh base))
          ∙ ap (λ r. r >>= remaining_steps steps settings (1 + n) k) first
          ∙ ap (λ m. remaining_steps steps settings m k files) {y = n + 1} (omega arith))
