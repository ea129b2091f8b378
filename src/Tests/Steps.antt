-- ===== src/Tests/Steps.antt =====
-- One step of a run that samples from the original plans.
use llm_evolutionary_samplin.Prelude.{
  pos, ◌≡◌, refl, true, none, some, List, [], ◌∷◌, Result, ok, err, nat_eq, All, subst,
}
use llm_evolutionary_samplin.Prelude.Dict.{lookup, insert}
use llm_evolutionary_samplin.Error.{Error, runtime_error}
use llm_evolutionary_samplin.Json.{null}
use llm_evolutionary_samplin.Json.Objects.{get_field, set_field}
use llm_evolutionary_samplin.Samples.{
  QueryInfo, Sampling, accumulate_samples, update_queries, update_query, accumulate_one, parents_in,
  parents_of, finalized_plans, id2metadata, new_sample_id, max_id, extend_plans,
}
use llm_evolutionary_samplin.Samples.Collected.{query_ids}
use llm_evolutionary_samplin.Samples.Tree.{IsTree}
use llm_evolutionary_samplin.Selection.{sampleid2sampleidx}
use llm_evolutionary_samplin.Bases.{Walk, original_base, get_base_plans_for_sampling}
use llm_evolutionary_samplin.Generation.{subscript}
use llm_evolutionary_samplin.NewSamples.{
  NewSampling, as_samples, as_samplings, apply_patches_to_plan, batch_of, queries_batch,
  new_sampled_plan, samples_of_base, next_samples, samples_of_query, final_samplings,
  generate_samplings, select_bases, sample_plans_from_file,
}
use llm_evolutionary_samplin.NewSamples.Rooted.{AreRooted, sample_plans_from_file-AreRooted}
use llm_evolutionary_samplin.NewSamples.Trees.{IsGood, IsState}
use llm_evolutionary_samplin.Orchestrator.{
  Files, Steps, Settings, run_sampling_steps, start, rebuild, rebuild_limit, max_completed, maximum,
  remaining_steps, selected_step, run_step, accumulate, select_strategy,
}
use llm_evolutionary_samplin.Orchestrator.Resume.{fresh, IsPlain}
use llm_evolutionary_samplin.Orchestrator.Trees.{AreSound, run_sampling_steps-IsState}
use llm_evolutionary_samplin.Tests.Samplings.{query, plans}
use llm_evolutionary_samplin.Tests.Choices.{numbers, root_base}
use llm_evolutionary_samplin.Tests.Batches.{
  unpatched, generated, optimize, structured, state, found, good_state,
}

abbrev ended {ℓ} : {A : Type ℓ} → Walk A → Result Error A
ended none = err runtime_error
ended (some r) = r

ended-ok :
    (w : Walk (List NewSampling)) (new : List NewSampling) → ended w ≡ ok new → w ≡ some (ok new)
ended-ok none new h = cc h
ended-ok (some r) new h = cc h

abbrev steps : Steps
steps = record {
  sample =
      λ i n strategy qs. ended (sample_plans_from_file numbers unpatched optimize null strategy qs);
  evaluate = λ i new. ok (as_samplings new);
}

trees : (qs : List QueryInfo) → All IsGood qs → All (λ q. IsTree q.sampled_plans) qs
trees [] h = tt
trees (q ∷ qs) (good, h) = (good.tree, trees qs h)

sound : AreSound steps
sound = record {
  sample_rooted = λ i n strategy qs new s h.
      sample_plans_from_file-AreRooted numbers unpatched optimize null strategy qs new
        (trees qs s.good)
        (ended-ok (sample_plans_from_file numbers unpatched optimize null strategy qs) new h);
  evaluate_rooted = λ i qs new samplings rooted h. kept qs new samplings rooted h;
}
  where
    kept :
        (qs : List QueryInfo) (new : List NewSampling) (samplings : List Sampling)
        → AreRooted qs (as_samplings new)
        → ◌≡◌ {A = Result Error (List Sampling)} (ok (as_samplings new)) (ok samplings)
        → AreRooted qs samplings
    kept qs new samplings rooted h =
        let same : as_samplings new ≡ samplings = cc h in subst (AreRooted qs) same rooted

abbrev settings : Settings
settings = record {
  strategy = "best";
  n_samples_per_step = 1;
  optimization_metric = "time";
  resume = true;
}

plain : IsPlain settings
plain = record { resumes = refl; plain = refl }

abbrev extended : List QueryInfo
extended =
    record (query (
      extend_plans (finalized_plans 2 (as_samples (new_sampled_plan root_base generated ∷ [])))
        (none ∷ []) plans)) { plan = structured }
    ∷ []

abbrev files : Files
files = record {
  base_sampling = state;
  final_sampling = some extended;
  sampled = (1, found) ∷ [];
  evaluated = (1, as_samplings found) ∷ [];
}

runs : run_sampling_steps steps settings (pos 1) (fresh state) ≡ ok files
unfolding run_sampling_steps start rebuild rebuild_limit max_completed maximum remaining_steps
    selected_step run_step accumulate select_strategy lookup insert accumulate_samples
    update_queries update_query accumulate_one parents_in parents_of finalized_plans id2metadata
    new_sample_id max_id extend_plans sample_plans_from_file generate_samplings select_bases
    queries_batch batch_of final_samplings samples_of_query next_samples samples_of_base
    apply_patches_to_plan subscript get_field set_field get_base_plans_for_sampling original_base
    sampleid2sampleidx new_sampled_plan
runs = refl

run_sampling_steps-IsState_example :
    (s : List QueryInfo) × (some extended ≡ some s) × IsState s × (query_ids s ≡ query_ids state)
run_sampling_steps-IsState_example =
    run_sampling_steps-IsState steps settings sound state plain good_state 1 files runs
