-- ===== src/NewSamples/Rooted.antt =====
-- The samples of a step start from plans of their query's tree.
use llm_evolutionary_samplin.Prelude.{
  ◌≡◌, refl, ap, true, false, Option, none, some, List, [], ◌∷◌, ◌++◌, Result, ok, ◌>>=◌, >>=-eq-ok,
  All, All-append, contains, subst,
}
use llm_evolutionary_samplin.Error.{Error}
use llm_evolutionary_samplin.Json.{Json}
use llm_evolutionary_samplin.Metric.{Numbers}
use llm_evolutionary_samplin.Samples.{sample_id_eq, PlanInfo, QueryInfo, Sample, Sampling}
use llm_evolutionary_samplin.Samples.Tree.{ids, IsTree}
use llm_evolutionary_samplin.Bases.{SamplingStrategy, BasePlan, Walk, get_base_plans_for_sampling}
use llm_evolutionary_samplin.Bases.Parents.{
  IsRooted, and_then-eq-ok, get_base_plans_for_sampling-IsRooted,
}
use llm_evolutionary_samplin.Generation.{Generated}
use llm_evolutionary_samplin.NewSamples.{
  NewSample, NewSampling, as_samples, as_samplings, Selected, select_bases, Patcher, queries_batch,
  new_sampled_plan, samples_of_base, next_samples, samples_of_query, final_samplings,
  generate_samplings, sample_plans_from_file,
}

-- The parents of samples are plans.
abbrev pub HaveParents : List PlanInfo → List Sample → Type 0
HaveParents plans = All (λ s. contains (ids plans) s.parent_sample_id ≡ true)

-- One entry for each query, with its id and with parents among its plans.
abbrev pub AreRooted : List QueryInfo → List Sampling → Type 0
AreRooted [] [] = Unit
AreRooted (q ∷ qs) (s ∷ ss) =
    (s.id ≡ q.id) × HaveParents q.sampled_plans s.sampled_plans × AreRooted qs ss
AreRooted [] (s ∷ ss) = true ≡ false
AreRooted (q ∷ qs) [] = true ≡ false

-- The queries with bases among their plans.
abbrev AreSelected : List QueryInfo → List Selected → Type 0
AreSelected [] [] = Unit
AreSelected (q ∷ qs) (s ∷ ss) =
    (s.of_query ≡ q) × All (IsRooted q.sampled_plans) s.bases × AreSelected qs ss
AreSelected [] (s ∷ ss) = true ≡ false
AreSelected (q ∷ qs) [] = true ≡ false

select_bases-AreSelected :
    (numbers : Numbers) (strategy : SamplingStrategy) (qs : List QueryInfo)
    (selected : List Selected)
    → All (λ q. IsTree q.sampled_plans) qs
    → select_bases numbers strategy qs ≡ some (ok selected)
    → AreSelected qs selected
unfolding select_bases
select_bases-AreSelected numbers strategy [] selected trees h =
    let same : [] ≡ selected = cc h in subst (AreSelected []) same tt
select_bases-AreSelected numbers strategy (q ∷ qs) selected (tree, trees) h =
    let (bases, eb, h1) =
      and_then-eq-ok (get_base_plans_for_sampling numbers q.sampled_plans strategy) _ h in
    let (rest, er, h2) = and_then-eq-ok (select_bases numbers strategy qs) _ h1 in
    let same : record { of_query = q; bases = bases } ∷ rest ≡ selected = cc h2 in
    subst (AreSelected (q ∷ qs)) same (
      refl,
      get_base_plans_for_sampling-IsRooted numbers strategy q.sampled_plans bases tree eb,
      select_bases-AreSelected numbers strategy qs rest trees er,
    )

abbrev AreNew : List PlanInfo → List NewSample → Type 0
AreNew plans = All (λ s. contains (ids plans) s.base.parent_sample_id ≡ true)

module _ (plans : List PlanInfo) where
  samples_of_base-AreNew :
      (b : BasePlan) (g : Generated) (new : List NewSample)
      → IsRooted plans b
      → samples_of_base b g ≡ ok new
      → AreNew plans new
  unfolding samples_of_base new_sampled_plan
  samples_of_base-AreNew b [] new r h = let same : [] ≡ new = cc h in subst (AreNew plans) same tt
  samples_of_base-AreNew b (none ∷ gs) new r h = cc h
  samples_of_base-AreNew b (some g ∷ gs) new r h =
      let (rest, er, h1) =
        >>=-eq-ok (samples_of_base b gs) (λ rs. ok (new_sampled_plan b g ∷ rs)) h in
      let same : new_sampled_plan b g ∷ rest ≡ new = cc h1 in
      subst (AreNew plans) same (r, samples_of_base-AreNew b gs rest r er)

  next_samples-AreNew :
      (b : BasePlan) (g : Option Generated) (new : List NewSample)
      → IsRooted plans b
      → next_samples b g ≡ ok new
      → AreNew plans new
  unfolding next_samples
  next_samples-AreNew b none new r h = cc h
  next_samples-AreNew b (some gs) new r h = samples_of_base-AreNew b gs new r h

  samples_of_query-AreNew :
      (bs : List BasePlan) (it it' : List (Option Generated)) (new : List NewSample)
      → All (IsRooted plans) bs
      → samples_of_query bs it ≡ ok (new, it')
      → AreNew plans new
  unfolding samples_of_query
  samples_of_query-AreNew [] it it' new rs h =
      let same : [] ≡ new = cc h in subst (AreNew plans) same tt
  samples_of_query-AreNew (b ∷ bs) [] it' new rs h = cc h
  samples_of_query-AreNew (b ∷ bs) (g ∷ it) it' new (r, rs) h =
      let (first, ef, h1) = >>=-eq-ok (next_samples b g) _ h in
      let ((rest, it1), er, h2) =
        >>=-eq-ok (samples_of_query bs it) (λ p. ok (first ++ p.0, p.1)) h1 in
      let same : first ++ rest ≡ new = cc h2 in
      subst (AreNew plans) same (
        All-append (λ s. contains (ids plans) s.base.parent_sample_id ≡ true) first rest
          (next_samples-AreNew b g first r ef) (samples_of_query-AreNew bs it it1 rest rs er))

  HaveParents-as_samples :
      (new : List NewSample) → AreNew plans new → HaveParents plans (as_samples new)
  HaveParents-as_samples [] h = tt
  HaveParents-as_samples (s ∷ ss) (e, h) = (e, HaveParents-as_samples ss h)

final_samplings-AreRooted :
    (model : Json) (qs : List QueryInfo) (selected : List Selected) (it : List (Option Generated))
    (samplings : List NewSampling)
    → AreSelected qs selected
    → final_samplings model selected it ≡ ok samplings
    → AreRooted qs (as_samplings samplings)
unfolding final_samplings
final_samplings-AreRooted model [] [] it samplings a h =
    let same : [] ≡ samplings = cc h in subst (λ l. AreRooted [] (as_samplings l)) same tt
final_samplings-AreRooted model [] (s ∷ ss) it samplings a h = cc a
final_samplings-AreRooted model (q ∷ qs) [] it samplings a h = cc a
final_samplings-AreRooted model (q ∷ qs) (s ∷ ss) it samplings (eq, rooted, a) h =
    let ((new, it'), en, h1) = >>=-eq-ok (samples_of_query s.bases it) _ h in
    let (rest, er, h2) = >>=-eq-ok (final_samplings model ss it') _ h1 in
    let same : record {
      id = s.of_query.id;
      query = s.of_query.query;
      plan = s.of_query.plan;
      model = model;
      sampled_plans = new;
    }
          ∷ rest
        ≡ samplings =
      cc h2 in
    subst (λ l. AreRooted (q ∷ qs) (as_samplings l)) same
      (
        ap (λ x. x.id) eq,
        HaveParents-as_samples q.sampled_plans new
            (samples_of_query-AreNew q.sampled_plans s.bases it it' new rooted en),
        final_samplings-AreRooted model qs ss it' rest a er,
      )

some_result {ℓ} :
    {A : Type ℓ} (r : Result Error A) {a : A} → ◌≡◌ {A = Walk A} (some r) (some (ok a)) → r ≡ ok a
some_result r h = cc h

-- Whatever the model and the patching do: if `sample_plans_from_file` returns samples for queries whose
-- plans form trees, then it returns one entry for each query, with its id, and the parent of each of its
-- samples is a plan of that query's tree.
pub sample_plans_from_file-AreRooted :
    (numbers : Numbers) (patch : Patcher)
    (optimize : List (Json × Json) → Result Error (List (Option Generated))) (model : Json)
    (strategy : SamplingStrategy) (queries : List QueryInfo) (samplings : List NewSampling)
    → All (λ q. IsTree q.sampled_plans) queries
    → sample_plans_from_file numbers patch optimize model strategy queries ≡ some (ok samplings)
    → AreRooted queries (as_samplings samplings)
unfolding sample_plans_from_file generate_samplings
sample_plans_from_file-AreRooted numbers patch optimize model strategy queries samplings trees h =
    let (selected, es, h1) = and_then-eq-ok (select_bases numbers strategy queries) _ h in
    let done : (queries_batch patch selected >>= λ batch.
    optimize batch >>= final_samplings model selected)
        ≡ ok samplings =
      some_result (generate_samplings patch optimize model selected) h1 in
    let (batch, _, h2) = >>=-eq-ok (queries_batch patch selected) _ done in
    let (results, _, h3) = >>=-eq-ok (optimize batch) (final_samplings model selected) h2 in
    final_samplings-AreRooted model queries selected results samplings
      (select_bases-AreSelected numbers strategy queries selected trees es) h3
