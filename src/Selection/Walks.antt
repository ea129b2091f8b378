-- ===== src/Selection/Walks.antt =====
-- In a tree of plans every walk to the root ends, and passes the ancestors of the plan it starts at.
use llm_evolutionary_samplin.Prelude.{
  ℕ, zero, suc, ◌+◌, ◌<◌, ◌≡◌, ◌≢◌, refl, ap, sym, ◌∙◌, Bool, true, false, none, some, List, [],
  ◌∷◌, ◌++◌, ◌==◌, length, get_elem?, ok, contains, IsDistinct, Bool-cases, Option-cases, inl, inr,
  ◌⊎◌, arith, subst, beq→eq, eq_refl,
}
use llm_evolutionary_samplin.Prelude.Dict.{Dict, lookup, insert, lookup-insert}
use llm_evolutionary_samplin.Json.{Json}
use llm_evolutionary_samplin.Samples.{SampleId, sample_id_eq, id_eq_iff, PlanInfo}
use llm_evolutionary_samplin.Samples.Tree.{ids, IsGrown, IsTree}
use llm_evolutionary_samplin.Selection.{
  sampleid2sampleidx, parent_of, own_patches, patch_stack, get_upstream_patches, flat_patches,
  flat_result,
}

-- An id that was known is no new one.
pub known_absent :
    (known : List SampleId) (xs : List PlanInfo) (i : SampleId)
    → IsGrown known xs
    → contains known i ≡ true
    → contains (ids xs) i ≡ false
known_absent known [] i h c = refl
known_absent known (x ∷ xs) i (a, b, h) c =
    let later : contains (ids xs) i ≡ false =
      known_absent (x.sample_id ∷ known) xs i h (ground (arith, c)) in
    ground (arith, later, a, c, id_eq_iff x.sample_id i)

grown-IsDistinct :
    (known : List SampleId) (xs : List PlanInfo) → IsGrown known xs → IsDistinct (ids xs)
grown-IsDistinct known [] h = tt
grown-IsDistinct known (x ∷ xs) (a, b, h) = (
  known_absent (x.sample_id ∷ known) xs x.sample_id h (rw (eq_refl x.sample_id) refl),
  grown-IsDistinct (x.sample_id ∷ known) xs h,
)

index_keeps :
    (k : ℕ) (index : Dict SampleId ℕ) (ps : List PlanInfo) (i : SampleId)
    → contains (ids ps) i ≡ false
    → lookup i (sampleid2sampleidx k index ps) ≡ lookup i index
unfolding sampleid2sampleidx
index_keeps k index [] i h = refl
index_keeps k index (p ∷ ps) i h = elim (Bool-cases (p.sample_id == i)) [
  | inl same ↦ ground (arith, same)
  | inr other ↦
      index_keeps (k + 1) (insert p.sample_id k index) ps i (ground (arith, other))
      ∙ lookup-insert p.sample_id i k index
      ∙ rw other refl
]

-- The index of a plan with distinct ids is where it stands.
index_lem :
    (k : ℕ) (index : Dict SampleId ℕ) (ps : List PlanInfo) (j : ℕ) (q : PlanInfo)
    → IsDistinct (ids ps)
    → get_elem? ps j ≡ some q
    → lookup q.sample_id (sampleid2sampleidx k index ps) ≡ some (k + j)
unfolding sampleid2sampleidx
index_lem k index [] j q d h = cc h
index_lem k index (p ∷ ps) zero q (new, d) h =
    let one : p ≡ q = cc h in
    subst
      (λ x.
        lookup x.sample_id (sampleid2sampleidx (k + 1) (insert p.sample_id k index) ps)
        ≡ some (k + 0))
      one
      (index_keeps (k + 1) (insert p.sample_id k index) ps p.sample_id new
        ∙ lookup-insert p.sample_id p.sample_id k index
        ∙ rw (eq_refl p.sample_id) (ap some (omega arith)))
index_lem k index (p ∷ ps) (suc j) q (new, d) h =
    index_lem (k + 1) (insert p.sample_id k index) ps j q d h ∙ ap some (omega arith)

none_ne_some : {n : ℕ} → ◌≢◌ {A = SampleId} none (some n)
none_ne_some h = cc h

-- The parent of a plan is known, or stands before it.
abbrev HasParent : List SampleId → List PlanInfo → ℕ → PlanInfo → Type 0
HasParent known xs i p =
    (contains known p.parent_sample_id ≡ true)
    ⊎ ((j : ℕ) × (q : PlanInfo) × (j < i)
        × (get_elem? xs j ≡ some q)
        × (q.sample_id ≡ p.parent_sample_id))

grown-HasParent :
    (known : List SampleId) (xs : List PlanInfo) (i : ℕ) (p : PlanInfo)
    → IsGrown known xs
    → get_elem? xs i ≡ some p
    → HasParent known xs i p
grown-HasParent known [] i p g h = cc h
grown-HasParent known (x ∷ xs) zero p (a, b, g) h =
    let one : x ≡ p = cc h in inl (subst (λ y. contains known y.parent_sample_id ≡ true) one b)
grown-HasParent known (x ∷ xs) (suc i) p (a, b, g) h =
    elim (grown-HasParent (x.sample_id ∷ known) xs i p g h) [
      | inr (j, q, less, at, e) ↦ inr (suc j, q, omega (arith, less), at, e)
      | inl c ↦ elim (Bool-cases (x.sample_id == p.parent_sample_id)) [
        | inl same ↦ inr (0, x, omega arith, refl, beq→eq x.sample_id p.parent_sample_id same)
        | inr other ↦ inl (ground (arith, c, other))
      ]
    ]

-- The patches of a plan and its ancestors, the plan's own first; those of an ancestor count if it is
-- valid.
pub data IsUpstream (plans : List PlanInfo) : Bool → PlanInfo → List Json → Type 0 where
  at_root : {must : Bool} {p : PlanInfo} → p.sample_id ≡ none → IsUpstream plans must p []
  from_parent :
      {must : Bool} {p : PlanInfo} (n : ℕ) (j : ℕ) (q : PlanInfo) (rest : List Json)
      → p.sample_id ≡ some n
      → get_elem? plans j ≡ some q
      → q.sample_id ≡ p.parent_sample_id
      → IsUpstream plans false q rest
      → IsUpstream plans must p (own_patches must p ++ rest)

module _ (plans : List PlanInfo) (root : PlanInfo) (others : List PlanInfo)
    (shape : plans ≡ root ∷ others) (root_id : root.sample_id ≡ none)
    (grown : IsGrown (none ∷ []) others) where
  root_absent : contains (ids others) root.sample_id ≡ false
  root_absent =
      subst (λ i. contains (ids others) i ≡ false) (sym root_id)
        (known_absent (none ∷ []) others none grown refl)

  plans-IsDistinct : IsDistinct (ids plans)
  plans-IsDistinct =
      subst (λ l. IsDistinct (ids l)) (sym shape)
        (root_absent, grown-IsDistinct (none ∷ []) others grown)

  abbrev pub ParentBefore : ℕ → PlanInfo → Type 0
  ParentBefore i p =
      (j : ℕ) × (q : PlanInfo) × (j < i)
      × (get_elem? plans j ≡ some q)
      × (q.sample_id ≡ p.parent_sample_id)

  known_root : (i : SampleId) → contains {A = SampleId} (none ∷ []) i ≡ true → root.sample_id ≡ i
  known_root none c = root_id
  known_root (some n) c = cc c

  other_parent : (i : ℕ) (p : PlanInfo) → get_elem? others i ≡ some p → ParentBefore (suc i) p
  other_parent i p h = elim (grown-HasParent (none ∷ []) others i p grown h) [
    | inl c ↦ (0, root, omega arith, ap (λ l. get_elem? l 0) shape, known_root p.parent_sample_id c)
    | inr (j, q, less, at, e) ↦
        (suc j, q, omega (arith, less), ap (λ l. get_elem? l (suc j)) shape ∙ at, e)
  ]

  pub parent_before :
      (i n : ℕ) (p : PlanInfo)
      → get_elem? plans i ≡ some p
      → p.sample_id ≡ some n
      → ParentBefore i p
  parent_before zero n p h e =
      let one : root ≡ p = cc (sym (ap (λ l. get_elem? l 0) shape) ∙ h) in
      absurd (none_ne_some (sym root_id ∙ ap (λ x. x.sample_id) one ∙ e))
  parent_before (suc i) n p h e = other_parent i p (sym (ap (λ l. get_elem? l (suc i)) shape) ∙ h)

  pub parent_found :
      (j : ℕ) (p q : PlanInfo)
      → get_elem? plans j ≡ some q
      → q.sample_id ≡ p.parent_sample_id
      → parent_of plans (sampleid2sampleidx 0 [] plans) p ≡ ok q
  unfolding parent_of
  parent_found j p q at e =
      let found : lookup p.parent_sample_id (sampleid2sampleidx 0 [] plans) ≡ some j =
        ap (λ i. lookup i (sampleid2sampleidx 0 [] plans)) (sym e)
        ∙ index_lem 0 [] plans j q plans-IsDistinct at
        ∙ ap some (omega arith) in
      rw found (rw at refl)

  walk_ends :
      (fuel i : ℕ) (must : Bool) (p : PlanInfo)
      → i < fuel
      → get_elem? plans i ≡ some p
      → (stack : List Json) × (patch_stack fuel plans (sampleid2sampleidx 0 [] plans) must p
          ≡ some (ok stack))
        × IsUpstream plans must p stack
  unfolding patch_stack parent_of own_patches
  walk_ends zero i must p less at = absurd (omega (arith, less))
  walk_ends (suc fuel) i must p less at = elim (Option-cases p.sample_id) [
    | inl e ↦ ([], rw e refl, IsUpstream.at_root e)
    | inr (n, e) ↦
        let (j, q, before, at', same) = parent_before i n p at e in
        let (rest, walked, upstream) = walk_ends fuel j false q (omega (arith, before, less)) at' in
        (
          own_patches must p ++ rest,
          rw e (rw (parent_found j p q at' same) (rw walked refl)),
          IsUpstream.from_parent n j q rest e at' same upstream,
        )
  ]

pub in_range :
    (ps : List PlanInfo) (i : ℕ) (p : PlanInfo) → get_elem? ps i ≡ some p → i < suc (length ps)
in_range [] i p h = cc h
in_range (x ∷ xs) zero p h = omega arith
in_range (x ∷ xs) (suc i) p h = omega (arith, in_range xs i p h)

-- In a tree of plans `get_upstream_patches` ends for every plan, without a KeyError, and what it flattens
-- are the patches of the plan and its ancestors up to the original plan, without the plans that are not
-- valid (but with the plan's own if `must_apply_current_patches`).
pub get_upstream_patches_ends :
    (plans : List PlanInfo) (must : Bool) (i : ℕ) (p : PlanInfo)
    → IsTree plans
    → get_elem? plans i ≡ some p
    → (stack : List Json) × (get_upstream_patches plans must p ≡ some (flat_patches stack))
      × IsUpstream plans must p stack
unfolding get_upstream_patches
get_upstream_patches_ends plans must i p tree at =
    let (stack, walked, upstream) =
      walk_ends plans tree.root tree.others tree.root_first tree.root_id tree.grown
        (suc (length plans)) i must p (in_range plans i p at) at in
    (stack, ap flat_result walked, upstream)
