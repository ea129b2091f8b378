-- ===== src/Tests/Selections.antt =====
-- The walk from a sample of a sample.
use llm_evolutionary_samplin.Prelude.{
  ℕ, zero, suc, ◌≡◌, refl, ap, sym, ◌∙◌, Bool, true, false, inl, inr, Option, none, some, ok, List,
  [], ◌∷◌, get_elem?,
}
use llm_evolutionary_samplin.Json.{Json, Items, null, str, arr, nil, cons}
use llm_evolutionary_samplin.Samples.{SampleId, PlanInfo}
use llm_evolutionary_samplin.Samples.Tree.{IsTree}
use llm_evolutionary_samplin.Selection.{get_upstream_patches, get_upstream_evaluation_stats}
use llm_evolutionary_samplin.Selection.Applied.{
  IsApplied, HasPatches, get_upstream_patches-IsApplied,
}
use llm_evolutionary_samplin.Selection.Stats.{IsNearest, get_upstream_evaluation_stats_ends}
use llm_evolutionary_samplin.Tests.Samplings.{plan, plans, tree}

-- A sample of a sample that is not valid.
abbrev with_patches : ℕ → SampleId → Bool → Json → PlanInfo
with_patches n parent valid patches = record (plan (some n) parent false false) {
  is_valid = valid;
  sampled_patches = patches;
}

abbrev last_plan : PlanInfo
last_plan = with_patches 3 (some 2) true (arr (cons (str "b") nil))

abbrev chain : List PlanInfo
chain =
    plan none none false false
    ∷ with_patches 1 none true (arr (cons (str "a") nil))
    ∷ with_patches 2 (some 1) false null
    ∷ last_plan
    ∷ []

chain-IsTree : IsTree chain
chain-IsTree = record {
  root = plan none none false false;
  others =
      with_patches 1 none true (arr (cons (str "a") nil))
      ∷ with_patches 2 (some 1) false null
      ∷ last_plan
      ∷ [];
  root_first = refl;
  root_id = refl;
  root_valid = refl;
  grown = (refl, refl, (refl, refl, (refl, refl, tt)));
}

has_list :
    (p q : PlanInfo) (xs : Items)
    → p.sampled_patches ≡ arr xs
    → some p ≡ some q
    → HasPatches false q
has_list p q xs patches same why = (xs, ap (λ o. patches_of o) (sym same) ∙ patches)
  where
    patches_of : Option PlanInfo → Json
    patches_of none = null
    patches_of (some p) = p.sampled_patches

not_valid : (q : PlanInfo) → some (with_patches 2 (some 1) false null) ≡ some q → HasPatches false q
not_valid q same (inl h) = cc h
not_valid q same (inr valid) = cc (sym valid, ap (λ o. valid_of o) same)
  where
    valid_of : Option PlanInfo → Bool
    valid_of none = true
    valid_of (some p) = p.is_valid

readable : (j : ℕ) (q : PlanInfo) → get_elem? chain j ≡ some q → HasPatches false q
readable zero q h = has_list (plan none none false false) q nil refl h
readable (suc zero) q h =
    has_list (with_patches 1 none true (arr (cons (str "a") nil))) q (cons (str "a") nil) refl h
readable (suc (suc zero)) q h = not_valid q h
readable (suc (suc (suc zero))) q h = has_list last_plan q (cons (str "b") nil) refl h
readable (suc (suc (suc (suc j)))) q h = cc h

get_upstream_patches-IsApplied_example :
    (patches : List Json) × (get_upstream_patches chain false last_plan ≡ some (ok patches))
    × IsApplied chain false last_plan patches
get_upstream_patches-IsApplied_example =
    get_upstream_patches-IsApplied chain false 3 last_plan chain-IsTree readable
      (λ why. (cons (str "b") nil, refl)) refl

get_upstream_evaluation_stats_ends_example :
    (r : PlanInfo) × (get_upstream_evaluation_stats plans (plan (some 1) none true true)
      ≡ some (ok r.evaluation_stats))
    × IsNearest plans r (plan (some 1) none true true)
get_upstream_evaluation_stats_ends_example =
    get_upstream_evaluation_stats_ends plans 1 (plan (some 1) none true true) tree refl
