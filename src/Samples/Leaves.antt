-- ===== src/Samples/Leaves.antt =====
-- The flags `is_leaf` and `is_last` of the sampled plans of a query.
use llm_evolutionary_samplin.Prelude.{
  ℕ, ◌+◌, ◌≡◌, refl, ap, sym, ◌∙◌, Bool, true, not, none, some, List, [], ◌∷◌, ◌++◌, nat_eq,
  contains, contains-append, contains-All, All, All-append, Option-cases, inl, inr, arith, subst,
}
use llm_evolutionary_samplin.Samples.{
  SampleId, sample_id_eq, PlanInfo, Sample, new_sample_id, finalized_plan, finalized_plans,
  update_flags, update_all, extend_plans, is_some_sample,
}
use llm_evolutionary_samplin.Samples.Tree.{
  ids, IsGrown, IsTree, seen, IsBelow, above_new, IsBelow-suc, next-IsBelow, parents_seen,
  contains-seen,
}

-- The parents that the samples name.
abbrev pub sample_parents : List Sample → List SampleId
sample_parents [] = []
sample_parents (s ∷ ss) = s.parent_sample_id ∷ sample_parents ss

-- The ids that are some plan's parent; the original plan has none.
abbrev pub child_parents : List PlanInfo → List SampleId
child_parents [] = []
child_parents (p ∷ ps) = elim p.sample_id [
  | none ↦ child_parents ps
  | some n ↦ p.parent_sample_id ∷ child_parents ps
]

-- `is_leaf` says of each of the plans that it is not among the given parents.
abbrev pub IsMarked : List SampleId → List PlanInfo → Type 0
IsMarked parents = All (λ p. p.is_leaf ≡ not (contains parents p.sample_id))

-- A plan is flagged as a leaf exactly if no plan was sampled from it.
abbrev pub HasExactLeaves : List PlanInfo → Type 0
HasExactLeaves plans = IsMarked (child_parents plans) plans

child_parents-append :
    (xs ys : List PlanInfo) → child_parents (xs ++ ys) ≡ child_parents xs ++ child_parents ys
child_parents-append [] ys = refl
child_parents-append (x ∷ xs) ys = elim (Option-cases x.sample_id) [
  | inl e ↦ rw e (child_parents-append xs ys)
  | inr (n, e) ↦ rw e (ap (λ l. x.parent_sample_id ∷ l) (child_parents-append xs ys))
]

child_parents_update :
    (extended : Bool) (parents : List SampleId) (xs : List PlanInfo)
    → child_parents (update_all extended parents xs) ≡ child_parents xs
unfolding update_all update_flags
child_parents_update extended parents [] = refl
child_parents_update extended parents (x ∷ xs) = elim (Option-cases x.sample_id) [
  | inl e ↦ rw e (child_parents_update extended parents xs)
  | inr (n, e) ↦ rw e (ap (λ l. x.parent_sample_id ∷ l) (child_parents_update extended parents xs))
]

child_parents-finalized :
    (n : ℕ) (ss : List Sample) → child_parents (finalized_plans n ss) ≡ sample_parents ss
unfolding finalized_plans finalized_plan
child_parents-finalized n [] = refl
child_parents-finalized n (s ∷ ss) =
    ap (λ l. s.parent_sample_id ∷ l) (child_parents-finalized (n + 1) ss)

update-IsMarked :
    (extended : Bool) (old parents : List SampleId) (xs : List PlanInfo)
    → IsMarked old xs
    → IsMarked (old ++ parents) (update_all extended parents xs)
unfolding update_all update_flags
update-IsMarked extended old parents [] h = tt
update-IsMarked extended old parents (x ∷ xs) (e, h) = (
  rw (e, contains-append old parents x.sample_id) (ground arith),
  update-IsMarked extended old parents xs h,
)

finalized-IsMarked :
    (n : ℕ) (parents : List SampleId) (ss : List Sample)
    → All (IsBelow n) parents
    → IsMarked parents (finalized_plans n ss)
unfolding finalized_plans finalized_plan
finalized-IsMarked n parents [] b = tt
finalized-IsMarked n parents (s ∷ ss) b = (
  rw (above_new n parents b) refl,
  finalized-IsMarked (n + 1) parents ss (IsBelow-suc n parents b),
)

-- Known ids are below the bound, so parents are.
samples-IsBelow :
    (n : ℕ) (known : List SampleId) (ss : List Sample)
    → All (IsBelow n) known
    → All (λ s. contains known s.parent_sample_id ≡ true) ss
    → All (IsBelow n) (sample_parents ss)
samples-IsBelow n known [] b h = tt
samples-IsBelow n known (s ∷ ss) b (c, h) =
    (contains-All (IsBelow n) known s.parent_sample_id b c, samples-IsBelow n known ss b h)

grown-IsBelow :
    (n : ℕ) (known : List SampleId) (xs : List PlanInfo)
    → All (IsBelow n) (seen known xs)
    → IsGrown known xs
    → All (IsBelow n) (child_parents xs)
grown-IsBelow n known [] b h = tt
grown-IsBelow n known (x ∷ xs) b (new, c, h) =
    let rest = grown-IsBelow n (x.sample_id ∷ known) xs b h in
    let found : contains (seen (x.sample_id ∷ known) xs) x.parent_sample_id ≡ true =
      contains-seen (x.sample_id ∷ known) xs x.parent_sample_id ∙ ground (arith, c) in
    elim (Option-cases x.sample_id) [
      | inl e ↦ rw e rest
      | inr (m, e) ↦ rw e (
        contains-All (IsBelow n) (seen (x.sample_id ∷ known) xs) x.parent_sample_id b found,
        rest,
      )
    ]

root_parents :
    (root : PlanInfo) (others : List PlanInfo)
    → root.sample_id ≡ none
    → child_parents (root ∷ others) ≡ child_parents others
root_parents root others e = rw e refl

root_leaves :
    (root : PlanInfo) (others : List PlanInfo) (samples : List Sample)
    → root.sample_id ≡ none
    → IsGrown (none ∷ []) others
    → HasExactLeaves (root ∷ others)
    → All (λ s. contains (ids (root ∷ others)) s.parent_sample_id ≡ true) samples
    → HasExactLeaves (
        extend_plans
          (finalized_plans (new_sample_id (root ∷ others)) samples)
          (sample_parents samples)
          (root ∷ others))
unfolding extend_plans
root_leaves root others samples e g exact h =
    let n = new_sample_id (root ∷ others) in
    let new_samples = finalized_plans n samples in
    let extended = is_some_sample new_samples in
    let parents = sample_parents samples in
    let old = child_parents (root ∷ others) in
    let bound = next-IsBelow root others in
    let same : child_parents (update_all extended parents (root ∷ others) ++ new_samples)
        ≡ old ++ parents =
      child_parents-append (update_all extended parents (root ∷ others)) new_samples
      ∙ ap (λ l. l ++ child_parents new_samples)
          (child_parents_update extended parents (root ∷ others))
      ∙ ap (λ l. old ++ l) (child_parents-finalized n samples) in
    let old_below : All (IsBelow n) old =
      subst (All (IsBelow n)) (sym (root_parents root others e))
        (grown-IsBelow n (none ∷ []) others bound g) in
    let all_below = All-append (IsBelow n) old parents old_below (
      samples-IsBelow n (seen (none ∷ []) others) samples bound
        (parents_seen root others samples e h)) in
    subst (λ l. IsMarked l (update_all extended parents (root ∷ others) ++ new_samples)) (sym same)
      (All-append (λ p. p.is_leaf ≡ not (contains (old ++ parents) p.sample_id))
        (update_all extended parents (root ∷ others)) new_samples
        (update-IsMarked extended old parents (root ∷ others) exact)
        (finalized-IsMarked n (old ++ parents) samples all_below))

-- If the plans of a query form a tree in which exactly the plans without a child are flagged as leaves,
-- and the parent of every new sample is in it, then after `accumulate_samples` has added the samples
-- again exactly the plans without a child are flagged as leaves.
pub extend_plans-HasExactLeaves :
    (plans : List PlanInfo) (samples : List Sample)
    → IsTree plans
    → HasExactLeaves plans
    → All (λ s. contains (ids plans) s.parent_sample_id ≡ true) samples
    → HasExactLeaves (
        extend_plans (finalized_plans (new_sample_id plans) samples) (sample_parents samples) plans)
extend_plans-HasExactLeaves plans samples tree exact h =
    subst
      (λ l.
        HasExactLeaves l
        → All (λ s. contains (ids l) s.parent_sample_id ≡ true) samples
        → HasExactLeaves
            (extend_plans (finalized_plans (new_sample_id l) samples) (sample_parents samples) l))
      (sym tree.root_first) (root_leaves tree.root tree.others samples tree.root_id tree.grown)
      exact h
