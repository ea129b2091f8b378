-- ===== src/NewSamples.antt =====
-- `sample_plans_from_file` of src/sampling/sample_plans.py, on the contents of its files.
pub mod Rooted
pub mod Trees
use llm_evolutionary_samplin.Prelude.{
  ℕ, Bool, true, false, Option, none, some, List, [], ◌∷◌, ◌++◌, Result, ok, err, ◌>>=◌, or_raise,
  traverse, String,
}
use llm_evolutionary_samplin.Error.{Error, attribute_error, stop_iteration, type_error}
use llm_evolutionary_samplin.Json.{Json, null, str, obj}
use llm_evolutionary_samplin.Json.Objects.{set_field}
use llm_evolutionary_samplin.Metric.{Numbers}
use llm_evolutionary_samplin.Samples.{SampleId, QueryInfo, Response, Sample, Sampling}
use llm_evolutionary_samplin.Bases.{
  SamplingStrategy, BasePlan, Walk, and_then, get_base_plans_for_sampling,
}
use llm_evolutionary_samplin.Generation.{GenerationResult, Generated, subscript}

-- An entry of `sampled_plans`: the base's keys and what the model gave. The statistics are missing until
-- the sample is evaluated.
pub record NewSample : Type 0 where
  pub base : BasePlan
  pub sampled_patches : Json
  pub is_valid : Bool
  pub error_message : Json
  pub response : Response
  pub evaluation_stats : Json

pub record NewSampling : Type 0 where
  pub id : ℕ
  pub query : Json
  pub plan : Json
  pub model : Json
  pub sampled_plans : List NewSample

-- What `accumulate_samples` reads of them.
abbrev pub as_sample : NewSample → Sample
as_sample s = record {
  parent_sample_id = s.base.parent_sample_id;
  sampled_patches = s.sampled_patches;
  is_valid = s.is_valid;
  error_message = s.error_message;
  evaluation_stats = s.evaluation_stats;
  response = s.response;
}

abbrev pub as_samples : List NewSample → List Sample
as_samples [] = []
as_samples (s ∷ ss) = as_sample s ∷ as_samples ss

abbrev pub as_samplings : List NewSampling → List Sampling
as_samplings [] = []
as_samplings (s ∷ ss) =
    record { id = s.id; sampled_plans = as_samples s.sampled_plans } ∷ as_samplings ss

-- The queries with their bases: `sampling_results` before the generation.
pub record Selected : Type 0 where
  pub of_query : QueryInfo
  pub bases : List BasePlan

unfoldable pub select_bases : Numbers → SamplingStrategy → List QueryInfo → Walk (List Selected)
select_bases numbers strategy [] = some (ok [])
select_bases numbers strategy (q ∷ qs) =
    and_then (get_base_plans_for_sampling numbers q.sampled_plans strategy) (λ bases.
      and_then (select_bases numbers strategy qs)
        (λ rest. some (ok (record { of_query = q; bases = bases } ∷ rest))))

-- `JsonPatch(patches).apply(structure)`, or what it raises
abbrev pub Patcher : Type 0
Patcher = Json → List Json → Result Error Json

-- `new_plan[key] = value`
abbrev pub assign_key : Json → String → Json → Result Error Json
assign_key (obj fs) key v = ok (obj (set_field key v fs))
assign_key _ key v = err type_error

-- `apply_patches_to_plan` of src/sampling/utils.py
unfoldable pub apply_patches_to_plan : Patcher → Json → List Json → Result Error Json
apply_patches_to_plan patch original_plan patches = do
  structure ← subscript original_plan "structure"
  modified_structure ← patch structure patches
  assign_key original_plan "structure" modified_structure

unfoldable pub batch_of : Patcher → QueryInfo → List BasePlan → Result Error (List (Json × Json))
batch_of patch q [] = ok []
batch_of patch q (b ∷ bs) = do
  plan ← apply_patches_to_plan patch q.plan b.upstream_patches
  rest ← batch_of patch q bs
  ok ((q.query, plan) ∷ rest)

unfoldable pub queries_batch : Patcher → List Selected → Result Error (List (Json × Json))
queries_batch patch [] = ok []
queries_batch patch (s ∷ ss) = do
  first ← batch_of patch s.of_query s.bases
  rest ← queries_batch patch ss
  ok (first ++ rest)

abbrev pub error_of : Option String → Json
error_of none = null
error_of (some m) = str m

abbrev pub no_error : Option String → Bool
no_error none = true
no_error (some m) = false

unfoldable pub new_sampled_plan : BasePlan → GenerationResult → NewSample
new_sampled_plan b g = record {
  base = b;
  sampled_patches = g.sampled_patches;
  is_valid = no_error g.error_message;
  error_message = error_of g.error_message;
  response = record {
    model_response = g.model_response;
    reasoning_content = g.reasoning_content;
    prompt_tokens = g.prompt_tokens;
    completion_tokens = g.completion_tokens;
    total_tokens = g.total_tokens;
  };
  evaluation_stats = null;
}

-- The loop over the results of one base; a slot that was never filled is None.
unfoldable pub samples_of_base : BasePlan → Generated → Result Error (List NewSample)
samples_of_base b [] = ok []
samples_of_base b (none ∷ gs) = err attribute_error
samples_of_base b (some g ∷ gs) = do rest ← samples_of_base b gs; ok (new_sampled_plan b g ∷ rest)

-- `next(it)` and the loop over what it returns
unfoldable pub next_samples : BasePlan → Option Generated → Result Error (List NewSample)
next_samples b none = err type_error
next_samples b (some gs) = samples_of_base b gs

-- The loop over the bases of a query; it leaves the iterator behind their results.
unfoldable pub samples_of_query :
    List BasePlan
    → List (Option Generated)
    → Result Error (List NewSample × List (Option Generated))
samples_of_query [] it = ok ([], it)
samples_of_query (b ∷ bs) [] = err stop_iteration
samples_of_query (b ∷ bs) (g ∷ it) = do
  first ← next_samples b g
  (rest, it') ← samples_of_query bs it
  ok (first ++ rest, it')

unfoldable pub final_samplings :
    Json → List Selected → List (Option Generated) → Result Error (List NewSampling)
final_samplings model [] it = ok []
final_samplings model (s ∷ ss) it = do
  (samples, it') ← samples_of_query s.bases it
  rest ← final_samplings model ss it'
  ok (
      record {
        id = s.of_query.id;
        query = s.of_query.query;
        plan = s.of_query.plan;
        model = model;
        sampled_plans = samples;
      }
      ∷ rest)

unfoldable pub generate_samplings :
    Patcher
    → (List (Json × Json) → Result Error (List (Option Generated)))
    → Json
    → List Selected
    → Result Error (List NewSampling)
generate_samplings patch optimize model selected = do
  batch ← queries_batch patch selected
  all_generation_results ← optimize batch
  final_samplings model selected all_generation_results

-- `optimize` is `optimize_plans_batch` of the optimizer for `n_samples` samples.
unfoldable pub sample_plans_from_file :
    Numbers
    → Patcher
    → (List (Json × Json) → Result Error (List (Option Generated)))
    → Json
    → SamplingStrategy
    → List QueryInfo
    → Walk (List NewSampling)
sample_plans_from_file numbers patch optimize model strategy queries =
    and_then (select_bases numbers strategy queries)
      (λ selected. some (generate_samplings patch optimize model selected))
