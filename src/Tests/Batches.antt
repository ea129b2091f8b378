-- ===== src/Tests/Batches.antt =====
-- A model that answers at the second attempt, and a step of sampling on a small tree.
use llm_evolutionary_samplin.Prelude.{
  ℕ, zero, suc, ◌<◌, String, ◌≡◌, refl, arith, true, Option, none, some, List, [], ◌∷◌, Result, ok,
  err, nat_eq, contains,
}
use llm_evolutionary_samplin.Prelude.Dict.{lookup, insert}
use llm_evolutionary_samplin.Prelude.Gather.{tabulate}
use llm_evolutionary_samplin.Error.{Error}
use llm_evolutionary_samplin.Json.{Json, null, str, arr, obj, nil, end, field}
use llm_evolutionary_samplin.Json.Objects.{get_field, set_field}
use llm_evolutionary_samplin.Generation.{
  GenerationResult, Reply, Completion, generate_single_sample, failed_result, Llm, Arrivals,
  Generated, subscript, optimize_plans_batch,
}
use llm_evolutionary_samplin.Generation.Order.{
  IsComplete, Input, IsInput, IsFirst, samples_in_order, optimize_plans_batch_lem,
  generate_single_sample_first, generate_single_sample_fails, result_for,
}
use llm_evolutionary_samplin.Samples.{sample_id_eq, QueryInfo, accumulate_samples}
use llm_evolutionary_samplin.Samples.Collected.{query_ids}
use llm_evolutionary_samplin.Bases.{original_strategy, original_base, get_base_plans_for_sampling}
use llm_evolutionary_samplin.Selection.{sampleid2sampleidx}
use llm_evolutionary_samplin.NewSamples.{
  NewSampling, as_samplings, Patcher, apply_patches_to_plan, batch_of, queries_batch,
  new_sampled_plan, samples_of_base, next_samples, samples_of_query, final_samplings,
  generate_samplings, select_bases, sample_plans_from_file,
}
use llm_evolutionary_samplin.NewSamples.Rooted.{AreRooted, sample_plans_from_file-AreRooted}
use llm_evolutionary_samplin.NewSamples.Trees.{IsState, accumulate_samples-IsState}
use llm_evolutionary_samplin.Tests.Plans.{no_floats}
use llm_evolutionary_samplin.Tests.Samplings.{plans, tree, query}
use llm_evolutionary_samplin.Tests.Choices.{numbers, root_base}

abbrev reply : Reply
reply = record { content = str "patches"; reasoning = none; usage = none }

abbrev second : Completion
second zero = err "rate limit"
second (suc k) = ok reply

answers : IsFirst second 1 reply
answers = record { succeeds = refl; fails_before = before }
  where
    before : (j : ℕ) → j < 1 → (exc : String) × (second j ≡ err exc)
    before zero less = ("rate limit", refl)
    before (suc j) less = absurd (omega (arith, less))

generate_single_sample_first_example :
    generate_single_sample no_floats (λ j. ok j) second 3
    ≡ result_for no_floats reply (ok (str "patches"))
generate_single_sample_first_example =
    generate_single_sample_first no_floats (λ j. ok j) second 3 1 reply (omega arith) answers

abbrev never : Completion
never k = err "rate limit"

generate_single_sample_fails_example :
    generate_single_sample no_floats (λ j. ok j) never 3 ≡ failed_result "rate limit"
generate_single_sample_fails_example =
    generate_single_sample_fails no_floats (λ j. ok j) never 3 (λ k. "rate limit") (λ j bound. refl)

abbrev llm : Llm
llm = record {
  floats = no_floats;
  extract = λ j. ok j;
  complete = λ query structure info i. second;
}

abbrev pub structured : Json
structured = obj (field "structure" null (field "succinct_table_info" null end))

abbrev two_queries : List (Json × Json)
two_queries = (str "a", structured) ∷ (str "b", structured) ∷ []

abbrev backwards : Arrivals
backwards = record { queries = 1 ∷ 0 ∷ []; samples = λ i. 1 ∷ 0 ∷ [] }

abbrev input : String → Input
input q = record { query = str q; plan = structured; structure = null; info = null }

abbrev inputs : ℕ → Input
inputs zero = input "a"
inputs (suc i) = input "b"

has_inputs : (i : ℕ) → i < 2 → IsInput two_queries i (inputs i)
unfolding subscript get_field
has_inputs zero less = record { at = refl; has_structure = refl; has_info = refl }
has_inputs (suc zero) less = record { at = refl; has_structure = refl; has_info = refl }
has_inputs (suc (suc i)) less = absurd (omega (arith, less))

complete : IsComplete 2 (1 ∷ 0 ∷ [])
complete = record { all_arrive = arrive; in_range = (omega arith, (omega arith, tt)) }
  where
    arrive : (i : ℕ) → i < 2 → contains (1 ∷ 0 ∷ []) i ≡ true
    arrive zero less = refl
    arrive (suc zero) less = refl
    arrive (suc (suc i)) less = absurd (omega (arith, less))

optimize_plans_batch_lem_example :
    optimize_plans_batch llm two_queries 2 10 3 backwards
    ≡ ok (tabulate (λ i. samples_in_order llm (inputs i) 2 3) 0 2)
optimize_plans_batch_lem_example =
    optimize_plans_batch_lem llm two_queries 2 10 3 backwards inputs (omega arith) (omega arith)
      has_inputs complete (λ i. complete)

abbrev pub unpatched : Patcher
unpatched structure patches = ok structure

abbrev pub generated : GenerationResult
generated = record {
  model_response = null;
  reasoning_content = null;
  error_message = none;
  sampled_patches = arr nil;
  prompt_tokens = null;
  completion_tokens = null;
  total_tokens = null;
}

abbrev pub optimize : List (Json × Json) → Result Error (List (Option Generated))
optimize batch = ok (some (some generated ∷ []) ∷ [])

abbrev pub state : List QueryInfo
state = record (query plans) { plan = structured } ∷ []

abbrev pub found : List NewSampling
found =
    record {
      id = 7;
      query = null;
      plan = structured;
      model = null;
      sampled_plans = new_sampled_plan root_base generated ∷ [];
    }
    ∷ []

sampled :
    sample_plans_from_file numbers unpatched optimize null original_strategy state ≡ some (ok found)
unfolding sample_plans_from_file generate_samplings select_bases queries_batch batch_of
    final_samplings samples_of_query next_samples samples_of_base apply_patches_to_plan subscript
    get_field set_field get_base_plans_for_sampling original_base sampleid2sampleidx lookup insert
sampled = refl

rooted : AreRooted state (as_samplings found)
unfolding new_sampled_plan
rooted = (refl, (refl, tt), tt)

sample_plans_from_file-AreRooted_example : AreRooted state (as_samplings found)
sample_plans_from_file-AreRooted_example =
    sample_plans_from_file-AreRooted numbers unpatched optimize null original_strategy state found
      (tree, tt) sampled

pub good_state : IsState state
good_state = record {
  distinct = (refl, tt);
  good = (record { tree = tree; leaves = (refl, (refl, tt)) }, tt);
}

accumulate_samples-IsState_example :
    (state' : List QueryInfo) × (accumulate_samples (as_samplings found) state ≡ ok state')
    × (query_ids state' ≡ query_ids state)
    × IsState state'
accumulate_samples-IsState_example =
    accumulate_samples-IsState (as_samplings found) state good_state rooted
