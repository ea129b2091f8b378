-- ===== src/Samples/Collected.antt =====
-- What the first loop of `accumulate_samples` collects for one query.
use mathlib.Core.List.{append-nil}
use llm_evolutionary_samplin.Prelude.{
  ℕ, ◌≡◌, refl, ap, sym, ◌∙◌, true, false, Option, none, some, List, [], ◌∷◌, ◌++◌, ◌==◌, nat_eq,
  if◌then◌else◌, contains, IsDistinct, Bool-cases, Option-cases, inl, inr, arith, subst, Result, ok,
  err, for_each, >>=-eq-ok, beq→eq,
}
use llm_evolutionary_samplin.Prelude.Dict.{Dict, lookup, insert, lookup-insert}
use llm_evolutionary_samplin.Error.{Error, key_error}
use llm_evolutionary_samplin.Samples.{
  SampleId, PlanInfo, QueryInfo, Sample, Sampling, Accumulated, new_sample_id, finalized_plans,
  parents_of, parents_in, accumulate_one, extend_plans,
}
use llm_evolutionary_samplin.Samples.Leaves.{sample_parents}

abbrev pub sampling_ids : List Sampling → List ℕ
sampling_ids [] = []
sampling_ids (s ∷ ss) = s.id ∷ sampling_ids ss

abbrev pub query_ids : List QueryInfo → List ℕ
query_ids [] = []
query_ids (q ∷ qs) = q.id ∷ query_ids qs

-- The samples of one query.
abbrev pub samples_for : ℕ → List Sampling → Option (List Sample)
samples_for id [] = none
samples_for id (s ∷ ss) = if s.id == id then some s.sampled_plans else samples_for id ss

abbrev pub or_no_samples : Option (List Sample) → List Sample
or_no_samples none = []
or_no_samples (some ss) = ss

-- What a step does to a query: its samples, if there are any, are numbered from the next free id.
abbrev pub extended_query : List Sampling → QueryInfo → QueryInfo
extended_query sampled q =
    let samples = or_no_samples (samples_for q.id sampled) in
    record q {
      sampled_plans =
          extend_plans (finalized_plans (new_sample_id q.sampled_plans) samples)
            (sample_parents samples) q.sampled_plans;
    }

abbrev pub extended_queries : List Sampling → List QueryInfo → List QueryInfo
extended_queries sampled [] = []
extended_queries sampled (q ∷ qs) = extended_query sampled q ∷ extended_queries sampled qs

parents_in-append :
    (id : ℕ) (xs ys : List (ℕ × SampleId))
    → parents_in id (xs ++ ys) ≡ parents_in id xs ++ parents_in id ys
unfolding parents_in
parents_in-append id [] ys = refl
parents_in-append id ((j, p) ∷ xs) ys = ground (arith, parents_in-append id xs ys)

parents_in-parents_of :
    (id j : ℕ) (ss : List Sample)
    → parents_in id (parents_of j ss) ≡ (if j == id then sample_parents ss else [])
unfolding parents_in parents_of
parents_in-parents_of id j [] = ground arith
parents_in-parents_of id j (s ∷ ss) = ground (arith, parents_in-parents_of id j ss)

absent_samples :
    (id : ℕ) (ss : List Sampling) → contains (sampling_ids ss) id ≡ false → samples_for id ss ≡ none
absent_samples id [] h = refl
absent_samples id (s ∷ ss) h = ground (arith, absent_samples id ss)

abbrev pub or_found {ℓ} : {A : Type ℓ} → Option A → Option A → Option A
or_found none old = old
or_found (some a) old = some a

abbrev pub numbered : ℕ → Option (List Sample) → Option (List PlanInfo)
numbered n none = none
numbered n (some ss) = some (finalized_plans n ss)

-- The state behind the first loop, seen from one query.
pub record IsCollected (id n : ℕ) (sampled : List Sampling) (acc acc' : Accumulated) : Type 0 where
  pub plans :
      lookup id acc'.id2samples
      ≡ or_found (numbered n (samples_for id sampled)) (lookup id acc.id2samples)
  pub parents :
      parents_in id acc'.leaf_parents
      ≡ parents_in id acc.leaf_parents ++ sample_parents (or_no_samples (samples_for id sampled))

found_samples : Result Error Accumulated → Dict ℕ (List PlanInfo)
found_samples (ok acc) = acc.id2samples
found_samples (err e) = []

found_parents : Result Error Accumulated → List (ℕ × SampleId)
found_parents (ok acc) = acc.leaf_parents
found_parents (err e) = []

raised :
    {acc : Accumulated} {P : Type 0}
    → ◌≡◌ {A = Result Error Accumulated} (err key_error) (ok acc)
    → P
raised h = cc

made_lem :
    (metadata : Dict ℕ ℕ) (acc acc' : Accumulated) (s : Sampling) (start : ℕ)
    → lookup s.id metadata ≡ some start
    → ◌≡◌ {A = Result Error Accumulated}
        (ok (record {
          id2samples = insert s.id (finalized_plans start s.sampled_plans) acc.id2samples;
          leaf_parents = acc.leaf_parents ++ parents_of s.id s.sampled_plans;
        }))
        (ok acc')
    → (start : ℕ) × (lookup s.id metadata ≡ some start)
      × (acc'.id2samples ≡ insert s.id (finalized_plans start s.sampled_plans) acc.id2samples)
      × (acc'.leaf_parents ≡ acc.leaf_parents ++ parents_of s.id s.sampled_plans)
unfolding found_samples found_parents
made_lem metadata acc acc' s start e h =
    (start, e, ap found_samples (sym h), ap found_parents (sym h))

accumulate_one_lem :
    (metadata : Dict ℕ ℕ) (acc acc' : Accumulated) (s : Sampling)
    → accumulate_one metadata acc s ≡ ok acc'
    → (start : ℕ) × (lookup s.id metadata ≡ some start)
      × (acc'.id2samples ≡ insert s.id (finalized_plans start s.sampled_plans) acc.id2samples)
      × (acc'.leaf_parents ≡ acc.leaf_parents ++ parents_of s.id s.sampled_plans)
unfolding accumulate_one
accumulate_one_lem metadata acc acc' s h = elim (Option-cases (lookup s.id metadata)) [
  | inl e ↦ raised (rw e at h)
  | inr (start, e) ↦ made_lem metadata acc acc' s start e (rw e at h)
]

IsCollected-none : (id n : ℕ) (acc acc' : Accumulated) → acc ≡ acc' → IsCollected id n [] acc acc'
IsCollected-none id n acc acc' same = record {
  plans = ap (λ a. lookup id a.id2samples) (sym same);
  parents =
      ap (λ a. parents_in id a.leaf_parents) (sym same)
      ∙ sym (append-nil (parents_in id acc.leaf_parents));
}

-- One round of the loop, for the query whose samples it adds and for another.
module _ (id n start : ℕ) (s : Sampling) (ss : List Sampling) (acc acc1 acc' : Accumulated)
    (plans_of : acc1.id2samples
      ≡ insert s.id (finalized_plans start s.sampled_plans) acc.id2samples)
    (leaf_of : acc1.leaf_parents ≡ acc.leaf_parents ++ parents_of s.id s.sampled_plans)
    (later : IsCollected id n ss acc1 acc') where
  step_plans : lookup id acc1.id2samples ≡ (
      if s.id == id then some (finalized_plans start s.sampled_plans) else lookup id acc.id2samples)
  step_plans =
      ap (lookup id) plans_of
      ∙ lookup-insert s.id id (finalized_plans start s.sampled_plans) acc.id2samples

  step_parents :
      parents_in id acc1.leaf_parents
      ≡ parents_in id acc.leaf_parents
        ++ (if s.id == id then sample_parents s.sampled_plans else [])
  step_parents =
      ap (parents_in id) leaf_of
      ∙ parents_in-append id acc.leaf_parents (parents_of s.id s.sampled_plans)
      ∙ ap (λ l. parents_in id acc.leaf_parents ++ l)
          (parents_in-parents_of id s.id s.sampled_plans)

  IsCollected-same :
      (s.id == id) ≡ true
      → start ≡ n
      → samples_for id ss ≡ none
      → IsCollected id n (s ∷ ss) acc acc'
  IsCollected-same same free absent = record {
    plans =
        later.plans
        ∙ ap (λ o. or_found (numbered n o) (lookup id acc1.id2samples)) absent
        ∙ step_plans
        ∙ rw same (ap (λ k. some (finalized_plans k s.sampled_plans)) free);
    parents =
        later.parents
        ∙ ap (λ o. parents_in id acc1.leaf_parents ++ sample_parents (or_no_samples o)) absent
        ∙ append-nil (parents_in id acc1.leaf_parents)
        ∙ step_parents
        ∙ rw same refl;
  }

  IsCollected-other : (s.id == id) ≡ false → IsCollected id n (s ∷ ss) acc acc'
  IsCollected-other other =
      let chosen_other : (if s.id == id
            then some (finalized_plans start s.sampled_plans)
            else lookup id acc.id2samples)
          ≡ lookup id acc.id2samples =
        rw other refl in
      let no_parents : parents_in id acc.leaf_parents
            ++ (if s.id == id then sample_parents s.sampled_plans else [])
          ≡ parents_in id acc.leaf_parents =
        rw other (append-nil (parents_in id acc.leaf_parents)) in
      record {
        plans =
            later.plans
            ∙ ap (or_found (numbered n (samples_for id ss))) (step_plans ∙ chosen_other)
            ∙ rw other refl;
        parents =
            later.parents
            ∙ ap (λ l. l ++ sample_parents (or_no_samples (samples_for id ss)))
                (step_parents ∙ no_parents)
            ∙ rw other refl;
      }

pub loop-IsCollected :
    (metadata : Dict ℕ ℕ) (id n : ℕ) (sampled : List Sampling) (acc acc' : Accumulated)
    → lookup id metadata ≡ some n
    → IsDistinct (sampling_ids sampled)
    → for_each (accumulate_one metadata) acc sampled ≡ ok acc'
    → IsCollected id n sampled acc acc'
loop-IsCollected metadata id n [] acc acc' known distinct h = IsCollected-none id n acc acc' (cc h)
loop-IsCollected metadata id n (s ∷ ss) acc acc' known (new, distinct) h =
    let (acc1, e1, h1) =
      >>=-eq-ok (accumulate_one metadata acc s) (λ a. for_each (accumulate_one metadata) a ss) h in
    let (start, es, e2, e3) = accumulate_one_lem metadata acc acc1 s e1 in
    let later = loop-IsCollected metadata id n ss acc1 acc' known distinct h1 in
    elim (Bool-cases (s.id == id)) [
      | inl same ↦
          let one : s.id ≡ id = beq→eq s.id id same in
          IsCollected-same id n start s ss acc acc1 acc' e2 e3 later same
            (ground (arith, es, known, one))
            (absent_samples id ss (subst (λ k. contains (sampling_ids ss) k ≡ false) one new))
      | inr other ↦ IsCollected-other id n start s ss acc acc1 acc' e2 e3 later other
    ]
