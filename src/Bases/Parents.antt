-- ===== src/Bases/Parents.antt =====
-- The parents that a strategy picks are plans of the tree.
use llm_evolutionary_samplin.Prelude.{
  ◌≡◌, refl, ap, sym, Bool, true, false, none, some, List, [], ◌∷◌, if◌then◌else◌, get_elem?,
  Result, ok, err, or_raise, >>=-eq-ok, All, contains, subst,
}
use llm_evolutionary_samplin.Prelude.Dict.{lookup}
use llm_evolutionary_samplin.Error.{Error, key_error}
use llm_evolutionary_samplin.Metric.{Numbers}
use llm_evolutionary_samplin.Samples.{sample_id_eq, PlanInfo}
use llm_evolutionary_samplin.Samples.Tree.{ids, IsTree}
use llm_evolutionary_samplin.Selection.{
  get_upstream_patches, get_upstream_evaluation_stats, sampleid2sampleidx,
}
use llm_evolutionary_samplin.Bases.{
  SamplingStrategy, BasePlan, is_original, start_plans, keep_valid, final_plans, Walk, and_then,
  base_plan, base_plans, original_base, get_base_plans_for_sampling,
}
use llm_evolutionary_samplin.Bases.Kept.{IsAt, IsAt-contains, chosen-IsAt}

-- The base's parent is a plan of the tree.
abbrev pub IsRooted : List PlanInfo → BasePlan → Type 0
IsRooted plans b = contains (ids plans) b.parent_sample_id ≡ true

pub and_then-eq-ok {ℓ κ} :
    {A : Type ℓ} {B : Type κ} (w : Walk A) (next : A → Walk B) {b : B}
    → and_then w next ≡ some (ok b)
    → (a : A) × (w ≡ some (ok a)) × (next a ≡ some (ok b))
and_then-eq-ok none next h = cc h
and_then-eq-ok (some (err e)) next h = cc h
and_then-eq-ok (some (ok a)) next h = (a, refl, h)

base_parent :
    (plans : List PlanInfo) (p : PlanInfo) (b : BasePlan)
    → base_plan plans p ≡ some (ok b)
    → p.sample_id ≡ b.parent_sample_id
unfolding base_plan
base_parent plans p b h =
    let (patches, _, h1) = and_then-eq-ok (get_upstream_patches plans false p) _ h in
    let (stats, _, h2) = and_then-eq-ok (get_upstream_evaluation_stats plans p) _ h1 in
    let same : record {
      parent_sample_id = p.sample_id;
      upstream_patches = patches;
      upstream_evaluation_stats = stats;
    }
        ≡ b =
      cc h2 in
    ap (λ x. x.parent_sample_id) same

bases-IsRooted :
    (plans chosen : List PlanInfo) (bases : List BasePlan)
    → base_plans plans chosen ≡ some (ok bases)
    → All (IsAt plans) chosen
    → All (IsRooted plans) bases
unfolding base_plans
bases-IsRooted plans [] bases h k =
    let same : [] ≡ bases = cc h in subst (All (IsRooted plans)) same tt
bases-IsRooted plans (p ∷ ps) bases h (at, k) =
    let (b, eb, h1) = and_then-eq-ok (base_plan plans p) _ h in
    let (bs, ebs, h2) = and_then-eq-ok (base_plans plans ps) (λ r. some (ok (b ∷ r))) h1 in
    let same : b ∷ bs ≡ bases = cc h2 in
    subst (All (IsRooted plans)) same (
      subst (λ i. contains (ids plans) i ≡ true) (base_parent plans p b eb)
          (IsAt-contains plans p at),
      bases-IsRooted plans ps bs ebs k,
    )

original-IsRooted :
    (plans : List PlanInfo) (bases : List BasePlan)
    → IsTree plans
    → original_base plans ≡ ok bases
    → All (IsRooted plans) bases
unfolding original_base
original-IsRooted plans bases tree h =
    let (idx, _, h1) =
      >>=-eq-ok (or_raise (lookup none (sampleid2sampleidx 0 [] plans)) key_error) _ h in
    let (root, _, h2) = >>=-eq-ok (or_raise (get_elem? plans idx) key_error) _ h1 in
    let same : record {
      parent_sample_id = none;
      upstream_patches = [];
      upstream_evaluation_stats = root.evaluation_stats;
    }
          ∷ []
        ≡ bases =
      cc h2 in
    subst (All (IsRooted plans)) same (root_known, tt)
  where
    root_known : contains (ids plans) none ≡ true
    root_known =
        subst (λ l. contains (ids l) none ≡ true) (sym tree.root_first)
          (subst (λ i. contains (i ∷ ids tree.others) none ≡ true) (sym tree.root_id) refl)

-- Whatever the strategy is: if `get_base_plans_for_sampling` returns bases for a tree, then the parent of
-- each is the id of a plan in it.
pub get_base_plans_for_sampling-IsRooted :
    (numbers : Numbers) (strategy : SamplingStrategy) (plans : List PlanInfo)
    (bases : List BasePlan)
    → IsTree plans
    → get_base_plans_for_sampling numbers plans strategy ≡ some (ok bases)
    → All (λ b. contains (ids plans) b.parent_sample_id ≡ true) bases
unfolding get_base_plans_for_sampling
get_base_plans_for_sampling-IsRooted numbers strategy plans bases tree h =
    by_start (is_original strategy.starting_selector) h
  where
    picked : Result Error (List PlanInfo)
    picked =
        final_plans numbers strategy
          (keep_valid strategy.from_valid_only (start_plans strategy.starting_selector plans))

    by_start :
        (b : Bool)
        → (if b then some (original_base plans) else and_then (some picked) (base_plans plans))
          ≡ some (ok bases)
        → All (IsRooted plans) bases
    by_start true e = original-IsRooted plans bases tree (cc e)
    by_start false e =
        let (chosen, c, e1) = and_then-eq-ok (some picked) (base_plans plans) e in
        bases-IsRooted plans chosen bases e1 (chosen-IsAt numbers strategy plans chosen (cc c))
