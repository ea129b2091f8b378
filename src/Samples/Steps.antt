-- ===== src/Samples/Steps.antt =====
-- `accumulate_samples` as a whole: what it does to each query.
use llm_evolutionary_samplin.Prelude.{
  ℕ, ◌≡◌, refl, ap, sym, ◌∙◌, false, Option, none, some, List, [], ◌∷◌, nat_eq, contains,
  IsDistinct, arith, ok, for_each, >>=-eq-ok, All, eq_refl,
}
use llm_evolutionary_samplin.Prelude.Dict.{Dict, lookup, insert, lookup-insert}
use llm_evolutionary_samplin.Samples.{
  QueryInfo, Sample, Sampling, Accumulated, new_sample_id, finalized_plans, parents_in,
  accumulate_one, id2metadata, extend_plans, samples_or_none, update_query, update_queries,
  accumulate_samples,
}
use llm_evolutionary_samplin.Samples.Collected.{
  sampling_ids, query_ids, samples_for, or_no_samples, extended_query, extended_queries, or_found,
  numbered, IsCollected, loop-IsCollected,
}

-- A query's entry holds its next free id.
id2metadata-keeps :
    (id : ℕ) (metadata : Dict ℕ ℕ) (qs : List QueryInfo)
    → contains (query_ids qs) id ≡ false
    → lookup id (id2metadata metadata qs) ≡ lookup id metadata
unfolding id2metadata
id2metadata-keeps id metadata [] h = refl
id2metadata-keeps id metadata (q ∷ qs) h =
    id2metadata-keeps id (insert q.id (new_sample_id q.sampled_plans) metadata) qs (ground arith)
    ∙ lookup-insert q.id id (new_sample_id q.sampled_plans) metadata
    ∙ ground arith

id2metadata_lem :
    (metadata : Dict ℕ ℕ) (q : QueryInfo) (qs : List QueryInfo)
    → contains (query_ids qs) q.id ≡ false
    → lookup q.id (id2metadata metadata (q ∷ qs)) ≡ some (new_sample_id q.sampled_plans)
unfolding id2metadata
id2metadata_lem metadata q qs h =
    id2metadata-keeps q.id (insert q.id (new_sample_id q.sampled_plans) metadata) qs h
    ∙ lookup-insert q.id q.id (new_sample_id q.sampled_plans) metadata
    ∙ rw (eq_refl q.id) refl

numbered_lem :
    (n : ℕ) (o : Option (List Sample))
    → samples_or_none (or_found (numbered n o) none) ≡ finalized_plans n (or_no_samples o)
unfolding finalized_plans
numbered_lem n none = refl
numbered_lem n (some ss) = refl

abbrev nothing : Accumulated
nothing = record { id2samples = []; leaf_parents = [] }

-- With the collected samples a query is extended as described.
query_extended :
    (sampled : List Sampling) (acc : Accumulated) (q : QueryInfo)
    → IsCollected q.id (new_sample_id q.sampled_plans) sampled nothing acc
    → update_query acc q ≡ extended_query sampled q
unfolding update_query lookup parents_in
query_extended sampled acc q c =
    ap
      (λ l. record q {
        sampled_plans = extend_plans l (parents_in q.id acc.leaf_parents) q.sampled_plans;
      })
      (ap samples_or_none c.plans
        ∙ numbered_lem (new_sample_id q.sampled_plans) (samples_for q.id sampled))
    ∙ ap
        (λ l. record q {
          sampled_plans =
              extend_plans
                (finalized_plans (new_sample_id q.sampled_plans)
                  (or_no_samples (samples_for q.id sampled)))
                l q.sampled_plans;
        })
        c.parents

queries_extended :
    (sampled : List Sampling) (acc : Accumulated) (qs : List QueryInfo)
    → All (λ q. IsCollected q.id (new_sample_id q.sampled_plans) sampled nothing acc) qs
    → update_queries acc qs ≡ extended_queries sampled qs
unfolding update_queries
queries_extended sampled acc [] h = refl
queries_extended sampled acc (q ∷ qs) (c, h) =
    ap (λ x. x ∷ update_queries acc qs) (query_extended sampled acc q c)
    ∙ ap (λ l. extended_query sampled q ∷ l) (queries_extended sampled acc qs h)

abbrev pub IsKnown : Dict ℕ ℕ → QueryInfo → Type 0
IsKnown metadata q = lookup q.id metadata ≡ some (new_sample_id q.sampled_plans)

pub All-IsKnown :
    (metadata : Dict ℕ ℕ) (qs : List QueryInfo)
    → IsDistinct (query_ids qs)
    → All (IsKnown (id2metadata metadata qs)) qs
unfolding id2metadata
All-IsKnown metadata [] h = tt
All-IsKnown metadata (q ∷ qs) (new, h) = (
  id2metadata_lem metadata q qs new,
  All-IsKnown (insert q.id (new_sample_id q.sampled_plans) metadata) qs h,
)

All-IsCollected :
    (metadata : Dict ℕ ℕ) (sampled : List Sampling) (acc : Accumulated) (qs : List QueryInfo)
    → IsDistinct (sampling_ids sampled)
    → for_each (accumulate_one metadata) nothing sampled ≡ ok acc
    → All (IsKnown metadata) qs
    → All (λ q. IsCollected q.id (new_sample_id q.sampled_plans) sampled nothing acc) qs
All-IsCollected metadata sampled acc [] d h known = tt
All-IsCollected metadata sampled acc (q ∷ qs) d h (k, known) = (
  loop-IsCollected metadata q.id (new_sample_id q.sampled_plans) sampled nothing acc k d h,
  All-IsCollected metadata sampled acc qs d h known,
)

-- If the queries of the sampling state have distinct ids, as have those of the new samples, and
-- `accumulate_samples` returns, then each query of the state has been extended by its own samples,
-- numbered from its own next free id, and by no others.
pub accumulate_samples_extends :
    (sampled : List Sampling) (state result : List QueryInfo)
    → IsDistinct (sampling_ids sampled)
    → IsDistinct (query_ids state)
    → accumulate_samples sampled state ≡ ok result
    → result ≡ extended_queries sampled state
unfolding accumulate_samples
accumulate_samples_extends sampled state result d d' h =
    let (acc, e, last) =
      >>=-eq-ok (for_each (accumulate_one (id2metadata [] state)) nothing sampled)
        (λ a. ok (update_queries a state)) h in
    let same : update_queries acc state ≡ result = cc last in
    sym same
    ∙ queries_extended sampled acc state
        (All-IsCollected (id2metadata [] state) sampled acc state d e (All-IsKnown [] state d'))
