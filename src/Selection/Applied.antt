-- ===== src/Selection/Applied.antt =====
-- Which patches `get_upstream_patches` returns, and in which order.
use llm_evolutionary_samplin.Prelude.{
  ℕ, ◌≡◌, refl, ap, ◌∙◌, Bool, true, false, ◌||◌, ◌⊎◌, inl, inr, none, some, List, [], ◌∷◌, ◌++◌,
  get_elem?, ok, ◌>>=◌, Bool-cases, arith, if◌then◌else◌,
}
use llm_evolutionary_samplin.Json.{Json, Items, arr, items}
use llm_evolutionary_samplin.Samples.{PlanInfo}
use llm_evolutionary_samplin.Samples.Tree.{IsTree}
use llm_evolutionary_samplin.Selection.{own_patches, flat_patches, get_upstream_patches}
use llm_evolutionary_samplin.Selection.Walks.{IsUpstream, get_upstream_patches_ends}

-- The patches that lead to a plan: those of its ancestors, the oldest first, and then its own, without
-- the plans that are not valid, unless it is the plan itself and it must be applied. The original plan
-- has none.
pub data IsApplied (plans : List PlanInfo) : Bool → PlanInfo → List Json → Type 0 where
  at_root : {must : Bool} {p : PlanInfo} → p.sample_id ≡ none → IsApplied plans must p []
  applied :
      {must : Bool} {p : PlanInfo} (n : ℕ) (j : ℕ) (q : PlanInfo) (before : List Json) (xs : Items)
      → p.sample_id ≡ some n
      → get_elem? plans j ≡ some q
      → q.sample_id ≡ p.parent_sample_id
      → (must ≡ true) ⊎ (p.is_valid ≡ true)
      → p.sampled_patches ≡ arr xs
      → IsApplied plans false q before
      → IsApplied plans must p (before ++ items xs)
  skipped :
      {must : Bool} {p : PlanInfo} (n : ℕ) (j : ℕ) (q : PlanInfo) (before : List Json)
      → p.sample_id ≡ some n
      → get_elem? plans j ≡ some q
      → q.sample_id ≡ p.parent_sample_id
      → must ≡ false
      → p.is_valid ≡ false
      → IsApplied plans false q before
      → IsApplied plans must p before

-- A plan that is applied has a list of patches.
abbrev pub HasPatches : Bool → PlanInfo → Type 0
HasPatches must p =
    (must ≡ true) ⊎ (p.is_valid ≡ true) → (xs : Items) × (p.sampled_patches ≡ arr xs)

applied_or_skipped :
    (must : Bool) (p : PlanInfo)
    → ((must ≡ true) ⊎ (p.is_valid ≡ true)) ⊎ ((must ≡ false) × (p.is_valid ≡ false))
applied_or_skipped true p = inl (inl refl)
applied_or_skipped false p = elim (Bool-cases p.is_valid) [
  | inl valid ↦ inl (inr valid)
  | inr invalid ↦ inr (refl, invalid)
]

own_applied :
    (must : Bool) (p : PlanInfo)
    → (must ≡ true) ⊎ (p.is_valid ≡ true)
    → own_patches must p ≡ p.sampled_patches ∷ []
unfolding own_patches
own_applied must p (inl h) = ap (λ b. if b || p.is_valid then p.sampled_patches ∷ [] else []) h
own_applied must p (inr h) = ground (arith, h)

own_skipped :
    (must : Bool) (p : PlanInfo) → must ≡ false → p.is_valid ≡ false → own_patches must p ≡ []
unfolding own_patches
own_skipped must p h k = ground (arith, h, k)

module _ (plans : List PlanInfo)
    (readable : (j : ℕ) (q : PlanInfo) → get_elem? plans j ≡ some q → HasPatches false q) where
  upstream-IsApplied :
      (must : Bool) (p : PlanInfo) (stack : List Json)
      → IsUpstream plans must p stack
      → HasPatches must p
      → (patches : List Json) × (flat_patches stack ≡ ok patches) × IsApplied plans must p patches
  unfolding flat_patches
  upstream-IsApplied must p _ (IsUpstream.at_root e) own = ([], refl, IsApplied.at_root e)
  upstream-IsApplied must p _ (IsUpstream.from_parent n j q rest e at parent above) own =
      let (before, flat, is_applied) = upstream-IsApplied false q rest above (readable j q at) in
      elim (applied_or_skipped must p) [
        | inl why ↦
            let (xs, patches) = own why in
            (
              before ++ items xs,
              ap (λ o. flat_patches (o ++ rest)) (own_applied must p why)
                  ∙ ap (λ x. flat_patches (x ∷ rest)) patches
                  ∙ ap (λ r. r >>= λ later. ok (later ++ items xs)) flat,
              IsApplied.applied n j q before xs e at parent why patches is_applied,
            )
        | inr (must_not, invalid) ↦ (
          before,
          ap (λ o. flat_patches (o ++ rest)) (own_skipped must p must_not invalid) ∙ flat,
          IsApplied.skipped n j q before e at parent must_not invalid is_applied,
        )
      ]

-- In a tree in which the valid plans have lists of patches, and the plan itself does if
-- `must_apply_current_patches`, `get_upstream_patches` ends for every plan and returns the patches of its
-- valid ancestors, from the oldest on, and then its own if it is valid or they must be applied.
pub get_upstream_patches-IsApplied :
    (plans : List PlanInfo) (must : Bool) (i : ℕ) (p : PlanInfo)
    → IsTree plans
    → ((j : ℕ) (q : PlanInfo) → get_elem? plans j ≡ some q → HasPatches false q)
    → HasPatches must p
    → get_elem? plans i ≡ some p
    → (patches : List Json) × (get_upstream_patches plans must p ≡ some (ok patches))
      × IsApplied plans must p patches
get_upstream_patches-IsApplied plans must i p tree readable own at =
    let (stack, ends, upstream) = get_upstream_patches_ends plans must i p tree at in
    let (patches, flat, is_applied) = upstream-IsApplied plans readable must p stack upstream own in
    (patches, ends ∙ ap some flat, is_applied)
