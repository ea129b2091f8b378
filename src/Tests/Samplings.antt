-- ===== src/Tests/Samplings.antt =====
-- Two samples added to a query that has one.
use llm_evolutionary_samplin.Prelude.{
  ◌≡◌, refl, Bool, true, false, none, some, List, [], ◌∷◌, ok, nat_eq,
}
use llm_evolutionary_samplin.Prelude.Dict.{lookup, insert}
use llm_evolutionary_samplin.Json.{null, str, arr, nil}
use llm_evolutionary_samplin.Samples.{
  SampleId, Response, PlanInfo, QueryInfo, Sample, Sampling, max_id, new_sample_id, id2metadata,
  finalized_plans, parents_of, parents_in, accumulate_one, extend_plans, update_query,
  update_queries, accumulate_samples,
}
use llm_evolutionary_samplin.Samples.Tree.{IsTree, extend_plans-IsTree}
use llm_evolutionary_samplin.Samples.Leaves.{
  HasExactLeaves, sample_parents, extend_plans-HasExactLeaves,
}
use llm_evolutionary_samplin.Samples.Extended.{AreExtended, accumulate_samples-AreExtended}

abbrev answer : Response
answer = record {
  model_response = null;
  reasoning_content = null;
  prompt_tokens = null;
  completion_tokens = null;
  total_tokens = null;
}

abbrev pub plan : SampleId → SampleId → (last leaf : Bool) → PlanInfo
plan i parent last leaf = record {
  plan_type = str "original";
  sample_id = i;
  parent_sample_id = parent;
  is_last = last;
  is_leaf = leaf;
  sampled_patches = arr nil;
  is_valid = true;
  error_message = null;
  evaluation_stats = null;
  response = none;
}

abbrev pub plans : List PlanInfo
plans = plan none none false false ∷ plan (some 1) none true true ∷ []

abbrev sample : SampleId → Sample
sample parent = record {
  parent_sample_id = parent;
  sampled_patches = arr nil;
  is_valid = true;
  error_message = null;
  evaluation_stats = null;
  response = answer;
}

abbrev samples : List Sample
samples = sample (some 1) ∷ sample none ∷ []

pub tree : IsTree plans
tree = record {
  root = plan none none false false;
  others = plan (some 1) none true true ∷ [];
  root_first = refl;
  root_id = refl;
  root_valid = refl;
  grown = (refl, refl, tt);
}

extend_plans-IsTree_example :
    IsTree (extend_plans (finalized_plans (new_sample_id plans) samples) (some 1 ∷ none ∷ []) plans)
extend_plans-IsTree_example =
    extend_plans-IsTree plans samples (some 1 ∷ none ∷ []) tree (refl, (refl, tt))

extend_plans-HasExactLeaves_example :
    HasExactLeaves
      (extend_plans (finalized_plans (new_sample_id plans) samples) (sample_parents samples) plans)
extend_plans-HasExactLeaves_example =
    extend_plans-HasExactLeaves plans samples tree (refl, (refl, tt)) (refl, (refl, tt))

abbrev pub query : List PlanInfo → QueryInfo
query ps = record {
  id = 7;
  query = null;
  plan = null;
  complexity = null;
  row_count = null;
  model = null;
  sampled_plans = ps;
}

abbrev pub sampling : Sampling
sampling = record { id = 7; sampled_plans = samples }

abbrev pub accumulated : List QueryInfo
accumulated = query (extend_plans (finalized_plans 2 samples) (some 1 ∷ none ∷ []) plans) ∷ []

runs : accumulate_samples (sampling ∷ []) (query plans ∷ []) ≡ ok accumulated
unfolding accumulate_samples update_queries update_query accumulate_one parents_in parents_of
    finalized_plans id2metadata new_sample_id max_id lookup insert
runs = refl

accumulate_samples-AreExtended_example : AreExtended (sampling ∷ []) (query plans ∷ []) accumulated
accumulate_samples-AreExtended_example =
    accumulate_samples-AreExtended (sampling ∷ []) (query plans ∷ []) accumulated (refl, tt)
      (refl, tt) runs
