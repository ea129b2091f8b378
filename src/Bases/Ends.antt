-- ===== src/Bases/Ends.antt =====
-- In a tree of plans the selection of base plans ends with a base for each plan that is picked.
use llm_evolutionary_samplin.Prelude.{
  ◌≡◌, refl, ap, sym, ◌∙◌, Bool, true, false, some, List, [], ◌∷◌, ◌++◌, if◌then◌else◌, ok, All,
  All-get_elem, All-append, subst, Bool-cases, inl, inr,
}
use llm_evolutionary_samplin.Json.{Json, arr, Items, items}
use llm_evolutionary_samplin.Metric.{Numbers}
use llm_evolutionary_samplin.Samples.{sample_id_eq, PlanInfo}
use llm_evolutionary_samplin.Samples.Tree.{IsTree}
use llm_evolutionary_samplin.Selection.{own_patches, flat_patches, get_upstream_evaluation_stats}
use llm_evolutionary_samplin.Selection.Walks.{IsUpstream, get_upstream_patches_ends}
use llm_evolutionary_samplin.Selection.Stats.{IsNearest, get_upstream_evaluation_stats_ends}
use llm_evolutionary_samplin.Bases.{
  SamplingStrategy, BasePlan, is_original, start_plans, keep_valid, final_plans, Walk, and_then,
  base_plan, base_plans, original_base, get_base_plans_for_sampling,
}
use llm_evolutionary_samplin.Bases.Kept.{IsAt, chosen-IsAt}

abbrev pub IsPatchList : Json → Type 0
IsPatchList v = (xs : Items) × (v ≡ arr xs)

-- Every valid plan has a list of patches.
abbrev pub HasPatchLists : List PlanInfo → Type 0
HasPatchLists = All (λ p. p.is_valid ≡ true → IsPatchList p.sampled_patches)

-- The base of a plan: its id, the patches of it and its ancestors, and the statistics of the nearest
-- valid one.
pub record IsBaseOf (plans : List PlanInfo) (p : PlanInfo) (b : BasePlan) : Type 0 where
  pub parent : b.parent_sample_id ≡ p.sample_id
  pub stack : List Json
  pub patches : flat_patches stack ≡ ok b.upstream_patches
  pub upstream : IsUpstream plans false p stack
  pub nearest : PlanInfo
  pub stats : b.upstream_evaluation_stats ≡ nearest.evaluation_stats
  pub is_nearest : IsNearest plans nearest p

abbrev pub AreBasesOf : List PlanInfo → List PlanInfo → List BasePlan → Type 0
AreBasesOf plans [] [] = Unit
AreBasesOf plans (p ∷ ps) (b ∷ bs) = IsBaseOf plans p b × AreBasesOf plans ps bs
AreBasesOf plans [] (b ∷ bs) = false ≡ true
AreBasesOf plans (p ∷ ps) [] = false ≡ true

flat_ends :
    (stack : List Json) → All IsPatchList stack → (ps : List Json) × (flat_patches stack ≡ ok ps)
unfolding flat_patches
flat_ends [] h = ([], refl)
flat_ends (v ∷ vs) ((xs, e), h) = let (ps, f) = flat_ends vs h in (ps ++ items xs, rw e (rw f refl))

own_lists :
    (plans : List PlanInfo) (p : PlanInfo)
    → HasPatchLists plans
    → IsAt plans p
    → All IsPatchList (own_patches false p)
unfolding own_patches
own_lists plans p lists (i, e) = elim (Bool-cases p.is_valid) [
  | inl v ↦
      let good =
        All-get_elem (λ q. q.is_valid ≡ true → IsPatchList q.sampled_patches) plans i p lists e v in
      subst (All IsPatchList) (sym (ap (λ b. if b then p.sampled_patches ∷ [] else []) v))
        (good, tt)
  | inr v ↦ subst (All IsPatchList) (sym (ap (λ b. if b then p.sampled_patches ∷ [] else []) v)) tt
]

upstream_lists :
    (plans : List PlanInfo)
    → HasPatchLists plans
    → {must : Bool} {p : PlanInfo} {stack : List Json} → All IsPatchList (own_patches must p)
    → IsUpstream plans must p stack
    → All IsPatchList stack
upstream_lists plans lists own (IsUpstream.at_root e) = tt
upstream_lists plans lists {must = must} {p = p} own
      (IsUpstream.from_parent n j q rest e at same up) =
    All-append IsPatchList (own_patches must p) rest own
      (upstream_lists plans lists (own_lists plans q lists (j, at)) up)

base_ends :
    (plans : List PlanInfo) (p : PlanInfo)
    → IsTree plans
    → HasPatchLists plans
    → IsAt plans p
    → (b : BasePlan) × (base_plan plans p ≡ some (ok b)) × IsBaseOf plans p b
unfolding base_plan
base_ends plans p tree lists (i, at) =
    let (stack, walked, upstream) = get_upstream_patches_ends plans false i p tree at in
    let (patches, flat) =
      flat_ends stack (upstream_lists plans lists (own_lists plans p lists (i, at)) upstream) in
    let (r, found, nearest) = get_upstream_evaluation_stats_ends plans i p tree at in
    (
      record {
        parent_sample_id = p.sample_id;
        upstream_patches = patches;
        upstream_evaluation_stats = r.evaluation_stats;
      },
      ap
            (λ w. and_then w (λ ps. and_then (get_upstream_evaluation_stats plans p) (λ st. some (
              ok (record {
                parent_sample_id = p.sample_id;
                upstream_patches = ps;
                upstream_evaluation_stats = st;
              })))))
            (walked ∙ ap some flat)
          ∙ ap
              (λ w. and_then w (λ st. some (
                ok (record {
                  parent_sample_id = p.sample_id;
                  upstream_patches = patches;
                  upstream_evaluation_stats = st;
                }))))
              found,
      record {
        parent = refl;
        stack = stack;
        patches = flat;
        upstream = upstream;
        nearest = r;
        stats = refl;
        is_nearest = nearest;
      },
    )

bases_end :
    (plans chosen : List PlanInfo)
    → IsTree plans
    → HasPatchLists plans
    → All (IsAt plans) chosen
    → (bs : List BasePlan) × (base_plans plans chosen ≡ some (ok bs)) × AreBasesOf plans chosen bs
unfolding base_plans
bases_end plans [] tree lists h = ([], refl, tt)
bases_end plans (p ∷ ps) tree lists (at, h) =
    let (b, eb, is_base) = base_ends plans p tree lists at in
    let (bs, ebs, are_bases) = bases_end plans ps tree lists h in
    (
      b ∷ bs,
      ap (λ w. and_then w (λ c. and_then (base_plans plans ps) (λ cs. some (ok (c ∷ cs))))) eb
          ∙ ap (λ w. and_then w (λ cs. some (ok (b ∷ cs)))) ebs,
      (is_base, are_bases),
    )

-- In a tree whose valid plans have lists of patches, and with a strategy that does not start from the
-- original plan: if the strategy picks some plans, then `get_base_plans_for_sampling` returns one base
-- for each of them, in their order, with the plan's id, the patches of the plan and its ancestors (those
-- that are valid), and the statistics of the nearest valid one.
pub get_base_plans_for_sampling_ends :
    (numbers : Numbers) (strategy : SamplingStrategy) (plans chosen : List PlanInfo)
    → IsTree plans
    → HasPatchLists plans
    → is_original strategy.starting_selector ≡ false
    → final_plans numbers strategy
        (keep_valid strategy.from_valid_only (start_plans strategy.starting_selector plans))
      ≡ ok chosen
    → (bases : List BasePlan) × (get_base_plans_for_sampling numbers plans strategy
        ≡ some (ok bases))
      × AreBasesOf plans chosen bases
unfolding get_base_plans_for_sampling
get_base_plans_for_sampling_ends numbers strategy plans chosen tree lists other picked =
    let (bases, e, are_bases) =
      bases_end plans chosen tree lists (chosen-IsAt numbers strategy plans chosen picked) in
    (
      bases,
      ap (λ b. if b then some (original_base plans) else rest) other
          ∙ ap (λ r. and_then (some r) (base_plans plans)) picked
          ∙ e,
      are_bases,
    )
  where
    rest : Walk (List BasePlan)
    rest =
        and_then
          (some (
            final_plans numbers strategy
              (keep_valid strategy.from_valid_only (start_plans strategy.starting_selector plans))))
          (base_plans plans)
