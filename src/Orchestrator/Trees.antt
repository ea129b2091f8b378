-- ===== src/Orchestrator/Trees.antt =====
-- Through all steps of a run the queries' plans stay trees.
use llm_evolutionary_samplin.Prelude.{
  ℕ, zero, suc, ◌+◌, ◌<◌, pos, ◌≡◌, refl, ap, sym, ◌∙◌, Option, none, some, List, nat_eq, ok,
  >>=-eq-ok, or_raise, arith, subst,
}
use llm_evolutionary_samplin.Prelude.Dict.{lookup, insert, lookup-insert}
use llm_evolutionary_samplin.Error.{Error, file_not_found}
use llm_evolutionary_samplin.Samples.{QueryInfo, Sampling, accumulate_samples}
use llm_evolutionary_samplin.Samples.Collected.{query_ids}
use llm_evolutionary_samplin.Bases.{SamplingStrategy}
use llm_evolutionary_samplin.NewSamples.{NewSampling, as_samplings}
use llm_evolutionary_samplin.NewSamples.Rooted.{AreRooted}
use llm_evolutionary_samplin.NewSamples.Trees.{IsState, accumulate_samples-IsState}
use llm_evolutionary_samplin.Orchestrator.{
  Files, Steps, Settings, accumulate, from_base, reused, or_run, run_step, selected_step,
  remaining_steps, run_sampling_steps,
}
use llm_evolutionary_samplin.Orchestrator.Resume.{fresh, IsPlain, fresh_run}

-- What the calls of the loop give: samples of the queries of the state, which an evaluation keeps.
pub record AreSound (steps : Steps) : Type 0 where
  pub sample_rooted :
      (i n : ℕ) (strategy : SamplingStrategy) (state : List QueryInfo) (new : List NewSampling)
      → IsState state
      → steps.sample i n strategy state ≡ ok new
      → AreRooted state (as_samplings new)
  pub evaluate_rooted :
      (i : ℕ) (state : List QueryInfo) (new : List NewSampling) (samplings : List Sampling)
      → AreRooted state (as_samplings new)
      → steps.evaluate i new ≡ ok samplings
      → AreRooted state samplings

-- The state behind `i` steps: its trees, and the ids of the queries of `base`.
record IsGoing (base : List QueryInfo) (i : ℕ) (files : Files) : Type 0 where
  state : List QueryInfo
  saved : files.final_sampling ≡ some state
  is_state : IsState state
  same_ids : query_ids state ≡ query_ids base
  unsampled : (j : ℕ) → i < j → lookup j files.sampled ≡ none
  unevaluated : (j : ℕ) → i < j → lookup j files.evaluated ≡ none

or_raise-some :
    {A : Type 0} (e : Error) {a b : A} (o : Option A) → o ≡ some b → or_raise o e ≡ ok a → b ≡ a
or_raise-some e none h k = cc h
or_raise-some e (some x) h k = cc (h, k)

module _ (steps : Steps) (settings : Settings) (sound : AreSound steps)
    (base : List QueryInfo) where
  accumulate-IsGoing :
      (i : ℕ) (files files' : Files) (new : List NewSampling) (samplings : List Sampling)
      → (g : IsGoing base i files) → AreRooted g.state samplings
      → accumulate samplings (record files {
        sampled = insert (i + 1) new files.sampled;
        evaluated = insert (i + 1) samplings files.evaluated;
      })
        ≡ ok files'
      → IsGoing base (i + 1) files'
  unfolding accumulate
  accumulate-IsGoing i files files' new samplings g rooted h =
      let (before, eb, h1) = >>=-eq-ok (or_raise files.final_sampling file_not_found) _ h in
      let (after, ea, h2) = >>=-eq-ok (accumulate_samples samplings before) _ h1 in
      let same_before : g.state ≡ before =
        or_raise-some file_not_found files.final_sampling g.saved eb in
      let (state', er, same_ids, is_state) =
        accumulate_samples-IsState samplings g.state g.is_state rooted in
      let same_after : state' ≡ after =
        cc (sym er ∙ ap (accumulate_samples samplings) same_before ∙ ea) in
      let same : record files {
        sampled = insert (i + 1) new files.sampled;
        evaluated = insert (i + 1) samplings files.evaluated;
        final_sampling = some after;
      }
          ≡ files' =
        cc h2 in
      subst (IsGoing base (i + 1)) same (record {
        state = after;
        saved = refl;
        is_state = subst IsState same_after is_state;
        same_ids = ap query_ids (sym same_after) ∙ same_ids ∙ g.same_ids;
        unsampled = λ j less.
            lookup-insert (i + 1) j new files.sampled
            ∙ ground (arith, less, g.unsampled j (omega (arith, less)));
        unevaluated = λ j less.
            lookup-insert (i + 1) j samplings files.evaluated
            ∙ ground (arith, less, g.unevaluated j (omega (arith, less)));
      })

  step-IsGoing :
      (i n : ℕ) (strategy : SamplingStrategy) (files files' : Files)
      → IsGoing base i files
      → run_step steps settings.resume (i + 1) n strategy files ≡ ok files'
      → IsGoing base (i + 1) files'
  unfolding run_step
  step-IsGoing i n strategy files files' g h =
      let resume = settings.resume in
      let (state, es, h1) = >>=-eq-ok (or_raise files.final_sampling file_not_found) _ h in
      let (new, en, h2) =
        >>=-eq-ok
          (or_run (reused resume (lookup (i + 1) files.sampled))
            (steps.sample (i + 1) n strategy state))
          _ h1 in
      let (samplings, ev, h3) =
        >>=-eq-ok
          (or_run (reused resume (lookup (i + 1) files.evaluated)) (steps.evaluate (i + 1) new)) _
          h2 in
      let same : g.state ≡ state = or_raise-some file_not_found files.final_sampling g.saved es in
      let sampled : steps.sample (i + 1) n strategy g.state ≡ ok new =
        ap (steps.sample (i + 1) n strategy) same
        ∙ sym (
            ap (λ o. or_run (reused resume o) (steps.sample (i + 1) n strategy state))
              (g.unsampled (i + 1) (omega arith)))
        ∙ en in
      let evaluated : steps.evaluate (i + 1) new ≡ ok samplings =
        sym (
          ap (λ o. or_run (reused resume o) (steps.evaluate (i + 1) new))
            (g.unevaluated (i + 1) (omega arith)))
        ∙ ev in
      accumulate-IsGoing i files files' new samplings g
        (sound.evaluate_rooted (i + 1) g.state new samplings
          (sound.sample_rooted (i + 1) n strategy g.state new g.is_state sampled) evaluated)
        h3

  remaining_steps-IsGoing :
      (i left : ℕ) (files files' : Files)
      → IsGoing base i files
      → remaining_steps steps settings (i + 1) left files ≡ ok files'
      → IsGoing base (i + left) files'
  unfolding remaining_steps selected_step
  remaining_steps-IsGoing i zero files files' g h =
      let same : files ≡ files' = cc h in
      subst (IsGoing base (i + 0)) same (subst (λ n. IsGoing base n files) (omega arith) g)
  remaining_steps-IsGoing i (suc left) files files' g h =
      let (next, step, rest) =
        >>=-eq-ok (selected_step steps settings (i + 1) files)
          (remaining_steps steps settings (i + 1 + 1) left) h in
      subst (λ n. IsGoing base n files') (omega arith)
        (remaining_steps-IsGoing (i + 1) left next files' (step-IsGoing i _ _ files next g step)
          rest)

  -- If what is sampled in a step has one entry for each query with parents among its plans, and an
  -- evaluation keeps this, and the prepared state is well formed, then a run of any number of steps on
  -- fresh files that returns, for a strategy without top-ups that is run with `resume`, ends with a
  -- well-formed state of the same queries.
  pub run_sampling_steps-IsState :
      IsPlain settings
      → IsState base
      → (n : ℕ) (files : Files) → run_sampling_steps steps settings (pos n) (fresh base) ≡ ok files
      → (state : List QueryInfo) × (files.final_sampling ≡ some state)
        × IsState state
        × (query_ids state ≡ query_ids base)
  unfolding lookup
  run_sampling_steps-IsState p is_state n files h =
      let g =
        remaining_steps-IsGoing 0 n (from_base (fresh base)) files
          (record {
            state = base;
            saved = refl;
            is_state = is_state;
            same_ids = refl;
            unsampled = λ j less. refl;
            unevaluated = λ j less. refl;
          })
          (sym (fresh_run steps settings p n base) ∙ h) in
      (g.state, g.saved, g.is_state, g.same_ids)
