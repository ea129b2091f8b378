-- ===== src/Samples.antt =====
-- The tree of sampled plans that src/sampling/prepare_sampling.py starts and
-- src/sampling/accumulate_samples.py extends. The files that they read and write are arguments and results.
pub mod Tree
pub mod Leaves
pub mod Collected
pub mod Steps
pub mod Extended
use llm_evolutionary_samplin.Prelude.{
  ℕ, zero, suc, ◌+◌, Bool, true, false, not, ◌&&◌, ◌||◌, Option, none, some, List, [], ◌∷◌, ◌++◌,
  ◌==◌, Eq, nat_eq, nat_beq, ltb, leb, if◌then◌else◌, contains, length, map, Result, ok, err, ◌>>=◌,
  or_raise, for_each, ◌≡◌, ◌↔◌, arith,
}
use llm_evolutionary_samplin.Prelude.Dict.{Dict, lookup, insert}
use llm_evolutionary_samplin.Error.{Error, key_error}
use llm_evolutionary_samplin.Json.{Json, null, str, arr, nil}

-- The answer of the model that a plan was sampled from; the five keys are read by `get`.
pub record Response : Type 0 where
  pub model_response : Json
  pub reasoning_content : Json
  pub prompt_tokens : Json
  pub completion_tokens : Json
  pub total_tokens : Json

-- An id is `None` for the original plan, and the number that `accumulate_samples` gave it otherwise.
abbrev pub SampleId : Type 0
SampleId = Option ℕ

abbrev pub id_eq : SampleId → SampleId → Bool
id_eq none none = true
id_eq (some m) (some n) = nat_beq m n
id_eq none (some n) = false
id_eq (some m) none = false

pub id_eq_iff : (a b : SampleId) → (id_eq a b ≡ true) ↔ (a ≡ b)
id_eq_iff none none = ground arith
id_eq_iff (some m) (some n) = ground arith
id_eq_iff none (some n) = ground arith
id_eq_iff (some m) none = ground arith

instance abbrev pub sample_id_eq : Eq SampleId
sample_id_eq = record { beq = id_eq; beq_iff = id_eq_iff }

-- An entry of `sampled_plans` in the sampling state. The original plan has no response.
pub record PlanInfo : Type 0 where
  pub plan_type : Json
  pub sample_id : SampleId
  pub parent_sample_id : SampleId
  pub is_last : Bool
  pub is_leaf : Bool
  pub sampled_patches : Json
  pub is_valid : Bool
  pub error_message : Json
  pub evaluation_stats : Json
  pub response : Option Response

pub record QueryInfo : Type 0 where
  pub id : ℕ
  pub query : Json
  pub plan : Json
  pub complexity : Json
  pub row_count : Json
  pub model : Json
  pub sampled_plans : List PlanInfo

-- An entry of the curated dataset; statistics that are missing are `null`.
pub record Curated : Type 0 where
  pub id : ℕ
  pub query : Json
  pub plan : Json
  pub complexity : Json
  pub row_count : Json
  pub evaluation_stats : Json

unfoldable pub original_plan : Curated → PlanInfo
original_plan entry = record {
  plan_type = str "original";
  sample_id = none;
  parent_sample_id = none;
  is_last = true;
  is_leaf = true;
  sampled_patches = arr nil;
  is_valid = true;
  error_message = null;
  evaluation_stats = entry.evaluation_stats;
  response = none;
}

unfoldable pub prepare_entry : Json → Curated → QueryInfo
prepare_entry model entry = record {
  id = entry.id;
  query = entry.query;
  plan = entry.plan;
  complexity = entry.complexity;
  row_count = entry.row_count;
  model = model;
  sampled_plans = original_plan entry ∷ [];
}

unfoldable pub prepare_sampling : Json → List Curated → List QueryInfo
prepare_sampling model [] = []
prepare_sampling model (entry ∷ entries) =
    prepare_entry model entry ∷ prepare_sampling model entries

-- A sample of the latest step, after its evaluation.
pub record Sample : Type 0 where
  pub parent_sample_id : SampleId
  pub sampled_patches : Json
  pub is_valid : Bool
  pub error_message : Json
  pub evaluation_stats : Json
  pub response : Response

pub record Sampling : Type 0 where
  pub id : ℕ
  pub sampled_plans : List Sample

-- `max(ids, default=0)`, where a missing id counts as 0
unfoldable pub max_id : List PlanInfo → ℕ
max_id [] = 0
max_id (p ∷ ps) =
    let rest = max_id ps in
    elim p.sample_id [ none ↦ rest | some n ↦ if ltb rest n then n else rest ]

unfoldable pub new_sample_id : List PlanInfo → ℕ
new_sample_id plans = max_id plans + 1

-- `id2metadata`
unfoldable pub id2metadata : Dict ℕ ℕ → List QueryInfo → Dict ℕ ℕ
id2metadata metadata [] = metadata
id2metadata metadata (q ∷ qs) =
    id2metadata (insert q.id (new_sample_id q.sampled_plans) metadata) qs

unfoldable pub finalized_plan : ℕ → Sample → PlanInfo
finalized_plan n s = record {
  plan_type = str "optimized";
  sample_id = some n;
  parent_sample_id = s.parent_sample_id;
  is_last = true;
  is_leaf = true;
  sampled_patches = s.sampled_patches;
  is_valid = s.is_valid;
  error_message = s.error_message;
  evaluation_stats = s.evaluation_stats;
  response = some s.response;
}

-- The inner loop of the accumulation: new ids count up.
unfoldable pub finalized_plans : ℕ → List Sample → List PlanInfo
finalized_plans n [] = []
finalized_plans n (s ∷ ss) = finalized_plan n s ∷ finalized_plans (n + 1) ss

-- The keys that it adds to `leaf_parents`.
unfoldable pub parents_of : ℕ → List Sample → List (ℕ × SampleId)
parents_of id [] = []
parents_of id (s ∷ ss) = (id, s.parent_sample_id) ∷ parents_of id ss

-- `id2samples` and `leaf_parents`
pub record Accumulated : Type 0 where
  pub id2samples : Dict ℕ (List PlanInfo)
  pub leaf_parents : List (ℕ × SampleId)

unfoldable pub accumulate_one : Dict ℕ ℕ → Accumulated → Sampling → Result Error Accumulated
accumulate_one metadata acc sampling = do
  start ← or_raise (lookup sampling.id metadata) key_error
  ok (record {
    id2samples = insert sampling.id (finalized_plans start sampling.sampled_plans) acc.id2samples;
    leaf_parents = acc.leaf_parents ++ parents_of sampling.id sampling.sampled_plans;
  })

-- The second parts of the pairs that start with a query's id.
unfoldable pub parents_in : ℕ → List (ℕ × SampleId) → List SampleId
parents_in id [] = []
parents_in id ((j, p) ∷ ps) = let rest = parents_in id ps in if j == id then p ∷ rest else rest

-- The flags of a plan that was there before.
unfoldable pub update_flags : Bool → List SampleId → PlanInfo → PlanInfo
update_flags extended parents p = record p {
  is_last = p.is_last && not extended;
  is_leaf = p.is_leaf && not (contains parents p.sample_id);
}

unfoldable pub update_all : Bool → List SampleId → List PlanInfo → List PlanInfo
update_all extended parents [] = []
update_all extended parents (p ∷ ps) =
    update_flags extended parents p ∷ update_all extended parents ps

abbrev pub is_some_sample : List PlanInfo → Bool
is_some_sample [] = false
is_some_sample (p ∷ ps) = true

-- The body of the last loop.
unfoldable pub extend_plans : List PlanInfo → List SampleId → List PlanInfo → List PlanInfo
extend_plans new_samples parents plans =
    update_all (is_some_sample new_samples) parents plans ++ new_samples

abbrev pub samples_or_none : Option (List PlanInfo) → List PlanInfo
samples_or_none none = []
samples_or_none (some ps) = ps

unfoldable pub update_query : Accumulated → QueryInfo → QueryInfo
update_query acc q = record q {
  sampled_plans =
      extend_plans (samples_or_none (lookup q.id acc.id2samples)) (parents_in q.id acc.leaf_parents)
        q.sampled_plans;
}

unfoldable pub update_queries : Accumulated → List QueryInfo → List QueryInfo
update_queries acc [] = []
update_queries acc (q ∷ qs) = update_query acc q ∷ update_queries acc qs

unfoldable pub accumulate_samples : List Sampling → List QueryInfo → Result Error (List QueryInfo)
accumulate_samples sampled_data final_data = do
  acc ←
      for_each (accumulate_one (id2metadata [] final_data))
        (record { id2samples = []; leaf_parents = [] }) sampled_data
  ok (update_queries acc final_data)
