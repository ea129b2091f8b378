-- ===== src/Generation.antt =====
-- src/sampling/gpt_plan_optimizer.py: patches for plans, from a language model that is called with
-- retries, many calls at once.
pub mod Order
use llm_evolutionary_samplin.Prelude.{
  ℕ, zero, suc, ◌+◌, ◌-◌, ◌*◌, ◌^◌, String, Bool, true, false, Option, none, some, List, [], ◌∷◌,
  if◌then◌else◌, length, get_elem?, Result, ok, err, ◌>>=◌, or_raise, guard, ltb,
}
use llm_evolutionary_samplin.Prelude.Gather.{set_at, nones, gather}
use llm_evolutionary_samplin.Error.{Error, key_error, type_error, index_error, value_error}
use llm_evolutionary_samplin.Json.{Json, null, str, obj}
use llm_evolutionary_samplin.Json.Objects.{get_field}
use llm_evolutionary_samplin.Json.Equality.{Floats}
use llm_evolutionary_samplin.Metric.{truthy}

pub record GenerationResult : Type 0 where
  pub model_response : Json
  pub reasoning_content : Json
  pub error_message : Option String
  pub sampled_patches : Json
  pub prompt_tokens : Json
  pub completion_tokens : Json
  pub total_tokens : Json

-- What the code reads of an answer; a missing attribute is `none`.
pub record Reply : Type 0 where
  pub content : Json
  pub reasoning : Option Json
  pub usage : Option (Json × Json × Json)

-- The language model's answer to an attempt, or the text of the exception.
abbrev pub Completion : Type 0
Completion = ℕ → Result String Reply

-- The loop over the attempts, from `attempt` on, with so many left; the last exception is raised.
unfoldable pub attempts : Completion → ℕ → ℕ → Option String → Result (Option String) Reply
attempts complete attempt zero last = err last
attempts complete attempt (suc left) last = elim (complete attempt) [
  | ok reply ↦ ok reply
  | err exc ↦ attempts complete (attempt + 1) left (some exc)
]

-- The seconds of sleep after a failed attempt, as a multiple of `retry_backoff_s`; none after the last.
unfoldable pub backoff : (n_retry attempt : ℕ) → ℕ
backoff n_retry attempt = if ltb attempt n_retry then 2 ^ attempt else 0

-- `v or ""`
abbrev pub or_empty : Floats → Json → Json
or_empty floats v = if truthy floats v then v else str ""

abbrev pub reasoning_of : Option Json → Json
reasoning_of none = str "<No reasoning content available>"
reasoning_of (some v) = v

abbrev pub tokens_of : Option (Json × Json × Json) → Json × Json × Json
tokens_of none = (null, null, null)
tokens_of (some t) = t

unfoldable pub failed_result : String → GenerationResult
failed_result message = record {
  model_response = str "";
  reasoning_content = str "";
  error_message = some message;
  sampled_patches = null;
  prompt_tokens = null;
  completion_tokens = null;
  total_tokens = null;
}

unfoldable pub reply_result : Floats → Reply → Json → GenerationResult
reply_result floats reply patches = record {
  model_response = or_empty floats reply.content;
  reasoning_content = or_empty floats (reasoning_of reply.reasoning);
  error_message = none;
  sampled_patches = patches;
  prompt_tokens = (tokens_of reply.usage).0;
  completion_tokens = (tokens_of reply.usage).1;
  total_tokens = (tokens_of reply.usage).2;
}

-- The AttributeError of reading an answer that was never given.
abbrev pub no_reply : String
no_reply = "'NoneType' object has no attribute 'choices'"

abbrev pub message_of : Option String → String
message_of none = no_reply
message_of (some m) = m

-- `generate_single_sample`; `extract` finds the patches in the answer's text, or raises.
unfoldable pub generate_single_sample :
    Floats → (Json → Result String Json) → Completion → ℕ → GenerationResult
generate_single_sample floats extract complete n_retry =
    elim (attempts complete 0 (n_retry + 1) none) [
      | err last ↦ failed_result (message_of last)
      | ok reply ↦ elim (extract reply.content) [
        | err exc ↦ failed_result exc
        | ok patches ↦ reply_result floats reply patches
      ]
    ]

-- `plan[key]`
unfoldable pub subscript : Json → String → Result Error Json
subscript (obj fs) key = or_raise (get_field key fs) key_error
subscript _ key = err type_error

-- The libraries and services that an optimizer uses: the model's answer to the attempts of a sample, for
-- a query, a structure and the table information.
pub record Llm : Type 0 where
  pub floats : Floats
  pub extract : Json → Result String Json
  pub complete : (query structure info : Json) → (sample_id : ℕ) → Completion

-- `optimize_plan`; the numbers of the samples in the order in which they are completed. An executor of no
-- workers is a ValueError.
unfoldable pub optimize_plan :
    Llm
    → Json
    → Json
    → (n_samples n_retry : ℕ) → List ℕ
    → Result Error (List (Option GenerationResult))
optimize_plan llm query plan n_samples n_retry arrivals = do
  structure ← subscript plan "structure"
  succinct_table_info ← subscript plan "succinct_table_info"
  _ ← guard (ltb 0 n_samples) value_error
  ok (
      gather n_samples
        (λ i.
          generate_single_sample llm.floats llm.extract
            (llm.complete query structure succinct_table_info i) n_retry)
        arrivals)

-- The orders in which an executor completes the queries of a batch, and the samples of each.
pub record Arrivals : Type 0 where
  pub queries : List ℕ
  pub samples : ℕ → List ℕ

abbrev pub Generated : Type 0
Generated = List (Option GenerationResult)

-- `optimize_single_query`
unfoldable pub optimize_single_query :
    Llm → List (Json × Json) → (n_samples n_retry : ℕ) → Arrivals → ℕ → Result Error Generated
optimize_single_query llm queries n_samples n_retry arrivals i = elim (get_elem? queries i) [
  | none ↦ err index_error
  | some (query, plan) ↦ optimize_plan llm query plan n_samples n_retry (arrivals.samples i)
]

-- The loop over the completed queries; `future.result()` raises what the query raised.
unfoldable pub collect :
    (ℕ → Result Error Generated)
    → List ℕ
    → List (Option Generated)
    → Result Error (List (Option Generated))
collect result [] slots = ok slots
collect result (i ∷ is) slots = do r ← result i; collect result is (set_at i r slots)

unfoldable pub optimize_plans_batch :
    Llm
    → List (Json × Json)
    → (n_samples max_workers n_retry : ℕ) → Arrivals
    → Result Error (List (Option Generated))
optimize_plans_batch llm queries n_samples max_workers n_retry arrivals = do
  _ ← guard (ltb 0 max_workers) value_error
  collect (optimize_single_query llm queries n_samples n_retry arrivals) arrivals.queries
      (nones (length queries))
