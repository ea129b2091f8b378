-- ===== src/NewSamples/Trees.antt =====
-- A step of sampling keeps every query's plans a tree: what `sample_plans_from_file` selects is what
-- `accumulate_samples` needs.
use llm_evolutionary_samplin.Prelude.{
  ℕ, ◌≡◌, refl, ap, sym, ◌∙◌, true, false, some, List, [], ◌∷◌, ◌++◌, ◌==◌, nat_eq, nat_beq_iff,
  if◌then◌else◌, ok, ◌>>=◌, or_raise, for_each, All, contains, IsDistinct, subst, arith,
}
use llm_evolutionary_samplin.Prelude.Dict.{Dict, lookup, insert}
use llm_evolutionary_samplin.Error.{key_error}
use llm_evolutionary_samplin.Samples.{
  sample_id_eq, QueryInfo, Sampling, Accumulated, new_sample_id, finalized_plans, id2metadata,
  accumulate_one, update_queries, accumulate_samples, parents_of,
}
use llm_evolutionary_samplin.Samples.Tree.{IsTree, extend_plans-IsTree}
use llm_evolutionary_samplin.Samples.Leaves.{
  sample_parents, HasExactLeaves, extend_plans-HasExactLeaves,
}
use llm_evolutionary_samplin.Samples.Collected.{
  sampling_ids, query_ids, samples_for, or_no_samples, extended_queries,
}
use llm_evolutionary_samplin.Samples.Steps.{IsKnown, All-IsKnown, accumulate_samples_extends}
use llm_evolutionary_samplin.NewSamples.Rooted.{HaveParents, AreRooted}

-- A query whose plans form a tree with exact leaf flags.
pub record IsGood (q : QueryInfo) : Type 0 where
  pub tree : IsTree q.sampled_plans
  pub leaves : HasExactLeaves q.sampled_plans

rooted_ids :
    (qs : List QueryInfo) (ss : List Sampling) → AreRooted qs ss → sampling_ids ss ≡ query_ids qs
rooted_ids [] [] h = refl
rooted_ids [] (s ∷ ss) h = cc h
rooted_ids (q ∷ qs) [] h = cc h
rooted_ids (q ∷ qs) (s ∷ ss) (e, p, h) =
    ap (λ i. i ∷ sampling_ids ss) e ∙ ap (λ l. q.id ∷ l) (rooted_ids qs ss h)

-- What the samples of a query satisfy.
abbrev Found : List Sampling → QueryInfo → Type 0
Found ss q = HaveParents q.sampled_plans (or_no_samples (samples_for q.id ss))

skip_other :
    (s : Sampling) (ss : List Sampling) (qs : List QueryInfo)
    → contains (query_ids qs) s.id ≡ false
    → All (Found ss) qs
    → All (Found (s ∷ ss)) qs
skip_other s ss [] d h = tt
skip_other s ss (q ∷ qs) d (f, h) =
    let other : (s.id == q.id) ≡ false = ground (arith, d) in
    (
      subst
          (λ b.
            HaveParents q.sampled_plans
              (or_no_samples (if b then some s.sampled_plans else samples_for q.id ss)))
          (sym other) f,
      skip_other s ss qs (ground (arith, d)) h,
    )

rooted-Found :
    (qs : List QueryInfo) (ss : List Sampling)
    → IsDistinct (query_ids qs)
    → AreRooted qs ss
    → All (Found ss) qs
rooted-Found [] [] d h = tt
rooted-Found [] (s ∷ ss) d h = cc
rooted-Found (q ∷ qs) [] d h = cc
rooted-Found (q ∷ qs) (s ∷ ss) (new, d) (e, p, h) =
    let same : (s.id == q.id) ≡ true = (nat_beq_iff s.id q.id).1 e in
    (
      subst
          (λ b.
            HaveParents q.sampled_plans
              (or_no_samples (if b then some s.sampled_plans else samples_for q.id ss)))
          (sym same) p,
      skip_other s ss qs (ap (contains (query_ids qs)) e ∙ new) (rooted-Found qs ss d h),
    )

extended-IsGood :
    (ss : List Sampling) (qs : List QueryInfo)
    → All IsGood qs
    → All (Found ss) qs
    → All IsGood (extended_queries ss qs)
extended-IsGood ss [] g f = tt
extended-IsGood ss (q ∷ qs) (good, g) (found, f) =
    let samples = or_no_samples (samples_for q.id ss) in
    (
      record {
        tree = extend_plans-IsTree q.sampled_plans samples (sample_parents samples) good.tree found;
        leaves = extend_plans-HasExactLeaves q.sampled_plans samples good.tree good.leaves found;
      },
      extended-IsGood ss qs g f,
    )

extended_ids :
    (ss : List Sampling) (qs : List QueryInfo) → query_ids (extended_queries ss qs) ≡ query_ids qs
extended_ids ss [] = refl
extended_ids ss (q ∷ qs) = ap (λ l. q.id ∷ l) (extended_ids ss qs)

-- Every sampling's query has a next free id.
every_known :
    (metadata : Dict ℕ ℕ) (qs : List QueryInfo) (ss : List Sampling) (acc : Accumulated)
    → AreRooted qs ss
    → All (IsKnown metadata) qs
    → (acc' : Accumulated) × (for_each (accumulate_one metadata) acc ss ≡ ok acc')
unfolding accumulate_one
every_known metadata [] [] acc r k = (acc, refl)
every_known metadata [] (s ∷ ss) acc r k = cc r
every_known metadata (q ∷ qs) [] acc r k = cc r
every_known metadata (q ∷ qs) (s ∷ ss) acc (e, p, r) (k, ks) =
    let n = new_sample_id q.sampled_plans in
    let known : lookup s.id metadata ≡ some n = ap (λ i. lookup i metadata) e ∙ k in
    let acc1 : Accumulated = record {
      id2samples = insert s.id (finalized_plans n s.sampled_plans) acc.id2samples;
      leaf_parents = acc.leaf_parents ++ parents_of s.id s.sampled_plans;
    } in
    let (acc', rest) = every_known metadata qs ss acc1 r ks in
    let one : accumulate_one metadata acc s ≡ ok acc1 =
      ap
        (λ o. or_raise o key_error >>= λ start. ok (record {
          id2samples = insert s.id (finalized_plans start s.sampled_plans) acc.id2samples;
          leaf_parents = acc.leaf_parents ++ parents_of s.id s.sampled_plans;
        }))
        known in
    (acc', ap (λ x. x >>= λ a. for_each (accumulate_one metadata) a ss) one ∙ rest)

-- The queries of the sampling state: with distinct ids, and good.
pub record IsState (qs : List QueryInfo) : Type 0 where
  pub distinct : IsDistinct (query_ids qs)
  pub good : All IsGood qs

queries_kept :
    (ss : List Sampling) (qs result : List QueryInfo)
    → IsState qs
    → All (Found ss) qs
    → result ≡ extended_queries ss qs
    → (query_ids result ≡ query_ids qs) × IsState result
queries_kept ss qs result s found same =
    let same_ids : query_ids result ≡ query_ids qs = ap query_ids same ∙ extended_ids ss qs in
    (
      same_ids,
      record {
        distinct = subst IsDistinct (sym same_ids) s.distinct;
        good = subst (All IsGood) (sym same) (extended-IsGood ss qs s.good found);
      },
    )

returned :
    (samplings : List Sampling) (state : List QueryInfo) (acc : Accumulated)
    → for_each
        (accumulate_one (id2metadata [] state))
        (record { id2samples = []; leaf_parents = [] })
        samplings
      ≡ ok acc
    → accumulate_samples samplings state ≡ ok (update_queries acc state)
unfolding accumulate_samples
returned samplings state acc h = ap (λ r. r >>= λ a. ok (update_queries a state)) h

-- If the queries of a sampling state have distinct ids and their plans form trees with exact leaf flags,
-- and there is one entry of samples for each query with parents among its plans, then
-- `accumulate_samples` returns, and in the state that it returns the queries have the same ids, and
-- their plans again form trees with exact leaf flags.
pub accumulate_samples-IsState :
    (samplings : List Sampling) (state : List QueryInfo)
    → IsState state
    → AreRooted state samplings
    → (state' : List QueryInfo) × (accumulate_samples samplings state ≡ ok state')
      × (query_ids state' ≡ query_ids state)
      × IsState state'
accumulate_samples-IsState samplings state s rooted =
    let (acc, loop) =
      every_known (id2metadata [] state) state samplings
        (record { id2samples = []; leaf_parents = [] }) rooted (All-IsKnown [] state s.distinct) in
    let same =
      accumulate_samples_extends samplings state (update_queries acc state)
        (subst IsDistinct (sym (rooted_ids state samplings rooted)) s.distinct) s.distinct
        (returned samplings state acc loop) in
    let kept =
      queries_kept samplings state (update_queries acc state) s
        (rooted-Found state samplings s.distinct rooted) same in
    (update_queries acc state, returned samplings state acc loop, kept.0, kept.1)
