-- ===== src/Samples/Tree.antt =====
-- The sampled plans of a query form a tree, which an accumulation extends.
use llm_evolutionary_samplin.Prelude.{
  ℕ, ◌+◌, ◌<◌, ◌≡◌, refl, sym, ◌∙◌, Bool, true, false, ◌||◌, none, some, List, [], ◌∷◌, ◌++◌,
  nat_eq, ltb, if◌then◌else◌, contains, All, Option-cases, inl, inr, arith, subst,
}
use llm_evolutionary_samplin.Samples.{
  SampleId, sample_id_eq, PlanInfo, Sample, max_id, new_sample_id, finalized_plan, finalized_plans,
  update_flags, update_all, extend_plans, is_some_sample,
}

abbrev pub ids : List PlanInfo → List SampleId
ids [] = []
ids (p ∷ ps) = p.sample_id ∷ ids ps

-- Each plan has a new id and a parent among those before it.
abbrev pub IsGrown : List SampleId → List PlanInfo → Type 0
IsGrown known [] = Unit
IsGrown known (p ∷ ps) =
    (contains known p.sample_id ≡ false)
    × (contains known p.parent_sample_id ≡ true)
    × IsGrown (p.sample_id ∷ known) ps

-- The original plan is first and valid, and the others descend from it.
pub record IsTree (plans : List PlanInfo) : Type 0 where
  pub root : PlanInfo
  pub others : List PlanInfo
  pub root_first : plans ≡ root ∷ others
  pub root_id : root.sample_id ≡ none
  pub root_valid : root.is_valid ≡ true
  pub grown : IsGrown (none ∷ []) others

abbrev pub seen : List SampleId → List PlanInfo → List SampleId
seen known [] = known
seen known (p ∷ ps) = seen (p.sample_id ∷ known) ps

abbrev pub IsBelow : ℕ → SampleId → Type 0
IsBelow n none = Unit
IsBelow n (some m) = m < n

IsGrown-append :
    (known : List SampleId) (xs ys : List PlanInfo)
    → IsGrown known xs
    → IsGrown (seen known xs) ys
    → IsGrown known (xs ++ ys)
IsGrown-append known [] ys h k = k
IsGrown-append known (x ∷ xs) ys (a, b, h) k =
    (a, b, IsGrown-append (x.sample_id ∷ known) xs ys h k)

IsGrown-update :
    (known : List SampleId) (extended : Bool) (parents : List SampleId) (xs : List PlanInfo)
    → IsGrown known xs
    → IsGrown known (update_all extended parents xs)
unfolding update_all update_flags
IsGrown-update known extended parents [] h = tt
IsGrown-update known extended parents (x ∷ xs) (a, b, h) =
    (a, b, IsGrown-update (x.sample_id ∷ known) extended parents xs h)

seen_update :
    (known : List SampleId) (extended : Bool) (parents : List SampleId) (xs : List PlanInfo)
    → seen known (update_all extended parents xs) ≡ seen known xs
unfolding update_all update_flags
seen_update known extended parents [] = refl
seen_update known extended parents (x ∷ xs) = seen_update (x.sample_id ∷ known) extended parents xs

pub contains-seen :
    (known : List SampleId) (xs : List PlanInfo) (i : SampleId)
    → contains (seen known xs) i ≡ (contains known i || contains (ids xs) i)
contains-seen known [] i = ground arith
contains-seen known (x ∷ xs) i = contains-seen (x.sample_id ∷ known) xs i ∙ ground arith

pub IsBelow-suc :
    (n : ℕ) (known : List SampleId) → All (IsBelow n) known → All (IsBelow (n + 1)) known
IsBelow-suc n [] h = tt
IsBelow-suc n (none ∷ ks) (a, h) = (tt, IsBelow-suc n ks h)
IsBelow-suc n (some k ∷ ks) (a, h) = (omega (arith, a), IsBelow-suc n ks h)

-- An id at the bound or above is new.
pub above_new :
    (n : ℕ) (known : List SampleId) → All (IsBelow n) known → contains known (some n) ≡ false
above_new n [] h = refl
above_new n (none ∷ ks) (a, h) = above_new n ks h
above_new n (some k ∷ ks) (a, h) = ground (arith, a, above_new n ks h)

finalized-IsGrown :
    (n : ℕ) (known : List SampleId) (ss : List Sample)
    → All (IsBelow n) known
    → All (λ s. contains known s.parent_sample_id ≡ true) ss
    → IsGrown known (finalized_plans n ss)
unfolding finalized_plans finalized_plan
finalized-IsGrown n known [] b h = tt
finalized-IsGrown n known (s ∷ ss) b (c, h) = (
  above_new n known b,
  c,
  finalized-IsGrown (n + 1) (some n ∷ known) ss (omega arith, IsBelow-suc n known b) (still ss h),
)
  where
    still :
        (ts : List Sample)
        → All (λ t. contains known t.parent_sample_id ≡ true) ts
        → All (λ t. contains (some n ∷ known) t.parent_sample_id ≡ true) ts
    still [] k = tt
    still (t ∷ ts) (e, k) = (ground (arith, e), still ts k)

max_id-IsBelow :
    (m : ℕ) (x : PlanInfo) (xs : List PlanInfo) → max_id (x ∷ xs) < m → IsBelow m x.sample_id
unfolding max_id
max_id-IsBelow m x xs h = elim (Option-cases x.sample_id) [
  | inl e ↦ rw e tt
  | inr (n, e) ↦
      let largest : (if ltb (max_id xs) n then n else max_id xs) < m = rw e at h in
      rw e (ground arith)
]

max_id_tail : (m : ℕ) (x : PlanInfo) (xs : List PlanInfo) → max_id (x ∷ xs) < m → max_id xs < m
unfolding max_id
max_id_tail m x xs h = elim (Option-cases x.sample_id) [
  | inl e ↦ rw e at h
  | inr (n, e) ↦
      let largest : (if ltb (max_id xs) n then n else max_id xs) < m = rw e at h in ground arith
]

seen-IsBelow :
    (m : ℕ) (known : List SampleId) (xs : List PlanInfo)
    → All (IsBelow m) known
    → max_id xs < m
    → All (IsBelow m) (seen known xs)
unfolding max_id
seen-IsBelow m known [] b h = b
seen-IsBelow m known (x ∷ xs) b h =
    seen-IsBelow m (x.sample_id ∷ known) xs (max_id-IsBelow m x xs h, b) (max_id_tail m x xs h)

ids-IsBelow : (m : ℕ) (xs : List PlanInfo) → max_id xs < m → All (IsBelow m) (ids xs)
ids-IsBelow m [] h = tt
ids-IsBelow m (x ∷ xs) h = (max_id-IsBelow m x xs h, ids-IsBelow m xs (max_id_tail m x xs h))

-- All ids lie below the next one.
pub smaller_ids : (xs : List PlanInfo) → All (IsBelow (new_sample_id xs)) (ids xs)
smaller_ids xs = ids-IsBelow (new_sample_id xs) xs (unfold new_sample_id in omega arith)

-- A parent in the tree is known behind its last plan.
pub parents_seen :
    (root : PlanInfo) (others : List PlanInfo) (samples : List Sample)
    → root.sample_id ≡ none
    → All (λ s. contains (ids (root ∷ others)) s.parent_sample_id ≡ true) samples
    → All (λ s. contains (seen (none ∷ []) others) s.parent_sample_id ≡ true) samples
parents_seen root others [] e h = tt
parents_seen root others (s ∷ ss) e (c, h) =
    let known : contains (none ∷ ids others) s.parent_sample_id ≡ true = rw e at c in
    (
      contains-seen (none ∷ []) others s.parent_sample_id ∙ ground (arith, known),
      parents_seen root others ss e h,
    )

-- All ids of a tree lie below the next one.
pub next-IsBelow :
    (root : PlanInfo) (others : List PlanInfo)
    → All (IsBelow (new_sample_id (root ∷ others))) (seen (none ∷ []) others)
next-IsBelow root others =
    seen-IsBelow (new_sample_id (root ∷ others)) (none ∷ []) others (tt, tt)
      (max_id_tail (new_sample_id (root ∷ others)) root others
        (unfold new_sample_id in omega arith))

root_extended :
    (root : PlanInfo) (others : List PlanInfo) (samples : List Sample) (parents : List SampleId)
    → root.sample_id ≡ none
    → root.is_valid ≡ true
    → IsGrown (none ∷ []) others
    → All (λ s. contains (ids (root ∷ others)) s.parent_sample_id ≡ true) samples
    → IsTree (
        extend_plans
          (finalized_plans (new_sample_id (root ∷ others)) samples)
          parents
          (root ∷ others))
unfolding extend_plans update_all update_flags
root_extended root others samples parents e v g h =
    let n = new_sample_id (root ∷ others) in
    let new_samples = finalized_plans n samples in
    let extended = is_some_sample new_samples in
    let later : IsGrown (seen (none ∷ []) others) new_samples =
      finalized-IsGrown n (seen (none ∷ []) others) samples (next-IsBelow root others)
        (parents_seen root others samples e h) in
    record {
      root = update_flags extended parents root;
      others = update_all extended parents others ++ new_samples;
      root_first = refl;
      root_id = e;
      root_valid = v;
      grown =
          IsGrown-append (none ∷ []) (update_all extended parents others) new_samples
            (IsGrown-update (none ∷ []) extended parents others g)
            (subst (λ k. IsGrown k new_samples)
              (sym (seen_update (none ∷ []) extended parents others)) later);
    }

-- If the plans of a query form a tree, and the parent of every new sample is in it, then the plans of
-- the query still form a tree after `accumulate_samples` has numbered and added the samples.
pub extend_plans-IsTree :
    (plans : List PlanInfo) (samples : List Sample) (parents : List SampleId)
    → IsTree plans
    → All (λ s. contains (ids plans) s.parent_sample_id ≡ true) samples
    → IsTree (extend_plans (finalized_plans (new_sample_id plans) samples) parents plans)
extend_plans-IsTree plans samples parents tree h = rw tree.root_first (
    root_extended tree.root tree.others samples parents tree.root_id tree.root_valid tree.grown
      (rw tree.root_first at h))
