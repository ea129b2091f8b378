-- ===== src/Selection/Stats.antt =====
-- In a tree of plans the evaluation statistics above a plan are those of its nearest valid ancestor.
use llm_evolutionary_samplin.Prelude.{
  ℕ, zero, suc, ◌<◌, ◌≡◌, ◌≢◌, refl, ap, sym, ◌∙◌, Bool, true, false, Option, none, some, List, [],
  ◌∷◌, length, get_elem?, ok, contains, Bool-cases, Option-cases, inl, inr, arith, subst, eq_refl,
  if◌then◌else◌, Result,
}
use llm_evolutionary_samplin.Error.{Error}
use llm_evolutionary_samplin.Json.{Json}
use llm_evolutionary_samplin.Samples.{SampleId, sample_id_eq, PlanInfo}
use llm_evolutionary_samplin.Samples.Tree.{ids, IsGrown, IsTree}
use llm_evolutionary_samplin.Selection.{
  sampleid2sampleidx, parent_of, or_failed, root_stats, upstream_stats,
  get_upstream_evaluation_stats,
}
use llm_evolutionary_samplin.Selection.Walks.{known_absent, parent_before, parent_found, in_range}

-- The first valid plan on the way from a plan to the original one.
pub data IsNearest (plans : List PlanInfo) (r : PlanInfo) : PlanInfo → Type 0 where
  here : r.is_valid ≡ true → IsNearest plans r r
  above :
      {p : PlanInfo} (j : ℕ) (q : PlanInfo)
      → p.is_valid ≡ false
      → get_elem? plans j ≡ some q
      → q.sample_id ≡ p.parent_sample_id
      → IsNearest plans r q
      → IsNearest plans r p

true_ne_false : true ≢ false
true_ne_false h = cc h

pub contains-get_elem :
    (ps : List PlanInfo) (i : ℕ) (p : PlanInfo)
    → get_elem? ps i ≡ some p
    → contains (ids ps) p.sample_id ≡ true
contains-get_elem [] i p h = cc h
contains-get_elem (x ∷ xs) zero p h =
    let one : x ≡ p = cc h in
    subst (λ y. contains (ids (x ∷ xs)) y.sample_id ≡ true) one (rw (eq_refl x.sample_id) refl)
contains-get_elem (x ∷ xs) (suc i) p h = ground (arith, contains-get_elem xs i p h)

-- One round of the loop, at a plan that counts and at one that does not.
valid_step :
    (fuel : ℕ) (plans : List PlanInfo) (p : PlanInfo)
    → p.is_valid ≡ true
    → upstream_stats (suc fuel) plans (sampleid2sampleidx 0 [] plans) p
      ≡ some (ok p.evaluation_stats)
unfolding upstream_stats root_stats
valid_step fuel plans p v = elim (Option-cases p.sample_id) [
  | inl e ↦ rw e (rw v refl)
  | inr (n, e) ↦ rw e (rw v refl)
]

pick_above :
    (o : SampleId) (b : Bool) (n : ℕ) (x y z : Option (Result Error Json))
    → o ≡ some n
    → b ≡ false
    → elim o [ none ↦ x | some m ↦ if b then y else z ] ≡ z
pick_above o b n x y z e v = rw e (rw v refl)

invalid_step :
    (fuel n : ℕ) (plans : List PlanInfo) (p q r : PlanInfo)
    → p.is_valid ≡ false
    → p.sample_id ≡ some n
    → parent_of plans (sampleid2sampleidx 0 [] plans) p ≡ ok q
    → upstream_stats fuel plans (sampleid2sampleidx 0 [] plans) q ≡ some (ok r.evaluation_stats)
    → upstream_stats (suc fuel) plans (sampleid2sampleidx 0 [] plans) p
      ≡ some (ok r.evaluation_stats)
unfolding upstream_stats
invalid_step fuel n plans p q r v e found walked =
    pick_above p.sample_id p.is_valid n (some (root_stats p)) (some (ok p.evaluation_stats))
      (or_failed (parent_of plans (sampleid2sampleidx 0 [] plans) p)
        (upstream_stats fuel plans (sampleid2sampleidx 0 [] plans)))
      e v
    ∙ ap (λ o. or_failed o (upstream_stats fuel plans (sampleid2sampleidx 0 [] plans))) found
    ∙ walked

-- Only the original plan has no id, and it is valid.
module _ (plans : List PlanInfo) (root : PlanInfo) (others : List PlanInfo)
    (shape : plans ≡ root ∷ others) (root_id : root.sample_id ≡ none)
    (root_valid : root.is_valid ≡ true) (grown : IsGrown (none ∷ []) others) where
  unnamed_valid :
      (i : ℕ) (p : PlanInfo) → get_elem? plans i ≡ some p → p.sample_id ≡ none → p.is_valid ≡ true
  unnamed_valid zero p at e =
      let one : root ≡ p = cc (sym (ap (λ l. get_elem? l 0) shape) ∙ at) in
      subst (λ x. x.is_valid ≡ true) one root_valid
  unnamed_valid (suc i) p at e =
      let other : get_elem? others i ≡ some p = sym (ap (λ l. get_elem? l (suc i)) shape) ∙ at in
      absurd (
        true_ne_false (
          sym (contains-get_elem others i p other)
          ∙ ap (contains (ids others)) e
          ∙ known_absent (none ∷ []) others none grown refl))

  stats_end :
      (fuel i : ℕ) (p : PlanInfo)
      → i < fuel
      → get_elem? plans i ≡ some p
      → (r : PlanInfo) × (upstream_stats fuel plans (sampleid2sampleidx 0 [] plans) p
          ≡ some (ok r.evaluation_stats))
        × IsNearest plans r p
  stats_end zero i p less at = absurd (omega (arith, less))
  stats_end (suc fuel) i p less at = elim (Bool-cases p.is_valid) [
    | inl v ↦ (p, valid_step fuel plans p v, IsNearest.here v)
    | inr v ↦ elim (Option-cases p.sample_id) [
      | inl e ↦ absurd (true_ne_false (sym (unnamed_valid i p at e) ∙ v))
      | inr (n, e) ↦
          let (j, q, before, at', same) =
            parent_before plans root others shape root_id grown i n p at e in
          let (r, walked, nearest) = stats_end fuel j q (omega (arith, before, less)) at' in
          (
            r,
            invalid_step fuel n plans p q r v e
                (parent_found plans root others shape root_id grown j p q at' same) walked,
            IsNearest.above j q v at' same nearest,
          )
    ]
  ]

-- In a tree of plans `get_upstream_evaluation_stats` ends for every plan, raises nothing, and returns the
-- statistics of the first valid plan on the way to the original plan, the plan itself included.
pub get_upstream_evaluation_stats_ends :
    (plans : List PlanInfo) (i : ℕ) (p : PlanInfo)
    → IsTree plans
    → get_elem? plans i ≡ some p
    → (r : PlanInfo) × (get_upstream_evaluation_stats plans p ≡ some (ok r.evaluation_stats))
      × IsNearest plans r p
unfolding get_upstream_evaluation_stats
get_upstream_evaluation_stats_ends plans i p tree at =
    stats_end plans tree.root tree.others tree.root_first tree.root_id tree.root_valid tree.grown
      (suc (length plans)) i p (in_range plans i p at) at
