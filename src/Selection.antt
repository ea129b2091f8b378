-- ===== src/Selection.antt =====
-- The walks up the tree of sampled plans in src/sampling/sample_plans.py. The patches of a plan are a
-- list, or `None` where the model gave none.
pub mod Walks
pub mod Applied
pub mod Stats
use llm_evolutionary_samplin.Prelude.{
  ℕ, zero, suc, ◌+◌, Bool, true, false, ◌||◌, Option, none, some, List, [], ◌∷◌, ◌++◌,
  if◌then◌else◌, length, get_elem?, Result, ok, err, ◌>>=◌, or_raise,
}
use llm_evolutionary_samplin.Prelude.Dict.{Dict, lookup, insert}
use llm_evolutionary_samplin.Error.{Error, key_error, type_error, runtime_error}
use llm_evolutionary_samplin.Json.{Json, arr, items}
use llm_evolutionary_samplin.Samples.{SampleId, sample_id_eq, PlanInfo}

-- `{plan_info["sample_id"]: idx for idx, plan_info in enumerate(plans)}`, from index `k` on
unfoldable pub sampleid2sampleidx : ℕ → Dict SampleId ℕ → List PlanInfo → Dict SampleId ℕ
sampleid2sampleidx k index [] = index
sampleid2sampleidx k index (p ∷ ps) = sampleid2sampleidx (k + 1) (insert p.sample_id k index) ps

-- `plans[sampleid2sampleidx[plan_info["parent_sample_id"]]]`; an index of the dict is in range.
unfoldable pub parent_of : List PlanInfo → Dict SampleId ℕ → PlanInfo → Result Error PlanInfo
parent_of plans index p = do
  idx ← or_raise (lookup p.parent_sample_id index) key_error
  or_raise (get_elem? plans idx) key_error

-- What a plan adds to the stack.
unfoldable pub own_patches : Bool → PlanInfo → List Json
own_patches must p = if must || p.is_valid then p.sampled_patches ∷ [] else []

abbrev pub add_patches :
    List Json → Option (Result Error (List Json)) → Option (Result Error (List Json))
add_patches own none = none
add_patches own (some (err e)) = some (err e)
add_patches own (some (ok rest)) = some (ok (own ++ rest))

abbrev pub or_failed {ℓ} :
    {A : Type ℓ}
    → Result Error PlanInfo
    → (PlanInfo → Option (Result Error A))
    → Option (Result Error A)
or_failed (err e) next = some (err e)
or_failed (ok q) next = next q

-- The loop of `get_upstream_patches`; `none` is fuel that ran out.
unfoldable pub patch_stack :
    ℕ → List PlanInfo → Dict SampleId ℕ → Bool → PlanInfo → Option (Result Error (List Json))
patch_stack zero plans index must p = none
patch_stack (suc fuel) plans index must p =
    let rest =
      or_failed (parent_of plans index p)
        (λ q. add_patches (own_patches must p) (patch_stack fuel plans index false q)) in
    elim p.sample_id [ none ↦ some (ok []) | some n ↦ rest ]

-- `[patch for patches in reversed(stack) for patch in patches]`
unfoldable pub flat_patches : List Json → Result Error (List Json)
flat_patches [] = ok []
flat_patches (arr xs ∷ stack) = do later ← flat_patches stack; ok (later ++ items xs)
flat_patches (_ ∷ stack) = err type_error

abbrev pub flat_result : Option (Result Error (List Json)) → Option (Result Error (List Json))
flat_result none = none
flat_result (some (err e)) = some (err e)
flat_result (some (ok stack)) = some (flat_patches stack)

-- A walk enters no plan twice, so the number of plans is enough fuel.
unfoldable pub get_upstream_patches :
    List PlanInfo → Bool → PlanInfo → Option (Result Error (List Json))
get_upstream_patches plans must p =
    flat_result (patch_stack (suc (length plans)) plans (sampleid2sampleidx 0 [] plans) must p)

-- The loop of `get_upstream_evaluation_stats` and what follows it.
unfoldable pub root_stats : PlanInfo → Result Error Json
root_stats p = if p.is_valid then ok p.evaluation_stats else err runtime_error

unfoldable pub upstream_stats :
    ℕ → List PlanInfo → Dict SampleId ℕ → PlanInfo → Option (Result Error Json)
upstream_stats zero plans index p = none
upstream_stats (suc fuel) plans index p =
    let above = or_failed (parent_of plans index p) (upstream_stats fuel plans index) in
    elim p.sample_id [
      | none ↦ some (root_stats p)
      | some n ↦ if p.is_valid then some (ok p.evaluation_stats) else above
    ]

unfoldable pub get_upstream_evaluation_stats : List PlanInfo → PlanInfo → Option (Result Error Json)
get_upstream_evaluation_stats plans p =
    upstream_stats (suc (length plans)) plans (sampleid2sampleidx 0 [] plans) p
