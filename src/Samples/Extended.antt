-- ===== src/Samples/Extended.antt =====
-- What a step makes of a query's plans, described without the code that numbers and flags them.
use llm_evolutionary_samplin.Prelude.{
  ℕ, ◌+◌, ◌≡◌, refl, sym, Bool, true, false, not, ◌&&◌, some, List, [], ◌∷◌, ◌++◌, nat_eq, contains,
  All, IsDistinct, arith, ok, subst,
}
use llm_evolutionary_samplin.Samples.{
  SampleId, sample_id_eq, PlanInfo, QueryInfo, Sample, Sampling, new_sample_id, finalized_plan,
  finalized_plans, update_flags, update_all, extend_plans, is_some_sample, accumulate_samples,
}
use llm_evolutionary_samplin.Samples.Tree.{ids, IsBelow, IsBelow-suc, above_new, smaller_ids}
use llm_evolutionary_samplin.Samples.Leaves.{sample_parents}
use llm_evolutionary_samplin.Samples.Collected.{
  sampling_ids, query_ids, samples_for, or_no_samples, extended_query, extended_queries,
}
use llm_evolutionary_samplin.Samples.Steps.{accumulate_samples_extends}

-- A plan that was there before: it is no longer of the last step if there are samples, and no leaf if it
-- is the parent of one of them. All else stays.
pub record IsKept (samples : List Sample) (p p' : PlanInfo) : Type 0 where
  pub rest : p' ≡ record p { is_last = p'.is_last; is_leaf = p'.is_leaf }
  pub still_last : samples ≡ [] → p'.is_last ≡ p.is_last
  pub not_last : (s : Sample) (ss : List Sample) → samples ≡ s ∷ ss → p'.is_last ≡ false
  pub not_leaf : contains (sample_parents samples) p.sample_id ≡ true → p'.is_leaf ≡ false
  pub still_leaf : contains (sample_parents samples) p.sample_id ≡ false → p'.is_leaf ≡ p.is_leaf

abbrev pub AreKept : List Sample → List PlanInfo → List PlanInfo → Type 0
AreKept samples [] [] = Unit
AreKept samples (p ∷ ps) (p' ∷ ps') = IsKept samples p p' × AreKept samples ps ps'
AreKept samples [] (p' ∷ ps') = true ≡ false
AreKept samples (p ∷ ps) [] = true ≡ false

-- A plan that was made of a sample: it has an id of its own, and what the sample has.
pub record IsAdded (known : List SampleId) (s : Sample) (p : PlanInfo) : Type 0 where
  pub id : ℕ
  pub numbered : p.sample_id ≡ some id
  pub fresh : contains known p.sample_id ≡ false
  pub parent : p.parent_sample_id ≡ s.parent_sample_id
  pub patches : p.sampled_patches ≡ s.sampled_patches
  pub valid : p.is_valid ≡ s.is_valid
  pub message : p.error_message ≡ s.error_message
  pub stats : p.evaluation_stats ≡ s.evaluation_stats
  pub answer : p.response ≡ some s.response
  pub last : p.is_last ≡ true
  pub leaf : p.is_leaf ≡ true

-- The ids are new to the plans before, and to each other.
abbrev pub AreAdded : List SampleId → List Sample → List PlanInfo → Type 0
AreAdded known [] [] = Unit
AreAdded known (s ∷ ss) (p ∷ ps) = IsAdded known s p × AreAdded (p.sample_id ∷ known) ss ps
AreAdded known [] (p ∷ ps) = true ≡ false
AreAdded known (s ∷ ss) [] = true ≡ false

-- A query behind a step: the plans from before, and then those of its samples in their order.
pub record IsExtended (sampled : List Sampling) (q q' : QueryInfo) : Type 0 where
  pub old : List PlanInfo
  pub new : List PlanInfo
  pub rest : q' ≡ record q { sampled_plans = old ++ new }
  pub kept : AreKept (or_no_samples (samples_for q.id sampled)) q.sampled_plans old
  pub added : AreAdded (ids q.sampled_plans) (or_no_samples (samples_for q.id sampled)) new

abbrev pub AreExtended : List Sampling → List QueryInfo → List QueryInfo → Type 0
AreExtended sampled [] [] = Unit
AreExtended sampled (q ∷ qs) (q' ∷ qs') = IsExtended sampled q q' × AreExtended sampled qs qs'
AreExtended sampled [] (q' ∷ qs') = true ≡ false
AreExtended sampled (q ∷ qs) [] = true ≡ false

finalized-AreAdded :
    (n : ℕ) (known : List SampleId) (ss : List Sample)
    → All (IsBelow n) known
    → AreAdded known ss (finalized_plans n ss)
unfolding finalized_plans finalized_plan
finalized-AreAdded n known [] below = tt
finalized-AreAdded n known (s ∷ ss) below = (
  record {
    id = n;
    numbered = refl;
    fresh = above_new n known below;
    parent = refl;
    patches = refl;
    valid = refl;
    message = refl;
    stats = refl;
    answer = refl;
    last = refl;
    leaf = refl;
  },
  finalized-AreAdded (n + 1) (some n ∷ known) ss (omega arith, IsBelow-suc n known below),
)

-- `extended` says whether there are samples.
abbrev HasSamples : Bool → List Sample → Type 0
HasSamples extended [] = extended ≡ false
HasSamples extended (s ∷ ss) = extended ≡ true

update-IsKept :
    (extended : Bool) (samples : List Sample) (p : PlanInfo)
    → HasSamples extended samples
    → IsKept samples p (update_flags extended (sample_parents samples) p)
unfolding update_flags
update-IsKept extended samples p has = record {
  rest = refl;
  still_last = λ e. last_kept (subst (HasSamples extended) e has);
  not_last = λ s ss e. last_reset (subst (HasSamples extended) e has);
  not_leaf = λ e. ground (arith, e);
  still_leaf = λ e. ground (arith, e);
}
  where
    last_kept : extended ≡ false → (p.is_last && not extended) ≡ p.is_last
    last_kept e = ground (arith, e)

    last_reset : extended ≡ true → (p.is_last && not extended) ≡ false
    last_reset e = ground (arith, e)

update-AreKept :
    (extended : Bool) (samples : List Sample) (ps : List PlanInfo)
    → HasSamples extended samples
    → AreKept samples ps (update_all extended (sample_parents samples) ps)
unfolding update_all
update-AreKept extended samples [] has = tt
update-AreKept extended samples (p ∷ ps) has =
    (update-IsKept extended samples p has, update-AreKept extended samples ps has)

finalized-HasSamples :
    (n : ℕ) (ss : List Sample) → HasSamples (is_some_sample (finalized_plans n ss)) ss
unfolding finalized_plans
finalized-HasSamples n [] = refl
finalized-HasSamples n (s ∷ ss) = refl

extended_query-IsExtended :
    (sampled : List Sampling) (q : QueryInfo) → IsExtended sampled q (extended_query sampled q)
unfolding extend_plans
extended_query-IsExtended sampled q =
    let ss = or_no_samples (samples_for q.id sampled) in
    let n = new_sample_id q.sampled_plans in
    record {
      old = update_all (is_some_sample (finalized_plans n ss)) (sample_parents ss) q.sampled_plans;
      new = finalized_plans n ss;
      rest = refl;
      kept =
          update-AreKept (is_some_sample (finalized_plans n ss)) ss q.sampled_plans
            (finalized-HasSamples n ss);
      added = finalized-AreAdded n (ids q.sampled_plans) ss (smaller_ids q.sampled_plans);
    }

extended-AreExtended :
    (sampled : List Sampling) (qs : List QueryInfo)
    → AreExtended sampled qs (extended_queries sampled qs)
extended-AreExtended sampled [] = tt
extended-AreExtended sampled (q ∷ qs) =
    (extended_query-IsExtended sampled q, extended-AreExtended sampled qs)

-- If the queries of the sampling state have distinct ids, as have those of the new samples, and
-- `accumulate_samples` returns, then each query keeps its plans, with the flag `is_last` reset if it has
-- samples and `is_leaf` reset for their parents, and is extended by its own samples in their order, each
-- with an id that neither a plan from before nor another sample of the query has.
pub accumulate_samples-AreExtended :
    (sampled : List Sampling) (state result : List QueryInfo)
    → IsDistinct (sampling_ids sampled)
    → IsDistinct (query_ids state)
    → accumulate_samples sampled state ≡ ok result
    → AreExtended sampled state result
accumulate_samples-AreExtended sampled state result d d' h =
    subst (AreExtended sampled state) (sym (accumulate_samples_extends sampled state result d d' h))
      (extended-AreExtended sampled state)
