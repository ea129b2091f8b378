-- ===== src/Scans/Pairing.antt =====
-- The pairing of the ids of one signature, of plan_scaler.py.
use llm_evolutionary_samplin.Prelude.{
  ℤ, String, ◌≡◌, ◌≢◌, refl, ap, ◌∙◌, Bool, true, false, Option, none, some, List, [], ◌∷◌, int_eq,
  string_eq, contains, int_leb, arith,
}
use llm_evolutionary_samplin.Prelude.Dict.{Dict, lookup}
use llm_evolutionary_samplin.Prelude.Sort.{sort}
use llm_evolutionary_samplin.Scans.{group_by_sig, group_or_empty, sort_groups}
use llm_evolutionary_samplin.Scans.Groups.{ids_with, group-group_by_sig}

-- The group of a signature after the grouping and the sorting.
lookup-sort_groups :
    (sig : String) (g : Dict String (List ℤ))
    → group_or_empty (lookup sig (sort_groups g)) ≡ sort int_leb (group_or_empty (lookup sig g))
unfolding sort_groups lookup
lookup-sort_groups sig [] = unfold sort in refl
lookup-sort_groups sig ((s, ids) ∷ g) = ground (arith, lookup-sort_groups sig g)

abbrev pub groups : Dict ℤ String → Dict String (List ℤ)
groups sigs = sort_groups (group_by_sig [] sigs)

-- ids of `sig`, sorted
pub group-groups :
    (sig : String) (sigs : Dict ℤ String)
    → group_or_empty (lookup sig (groups sigs)) ≡ sort int_leb (ids_with sig sigs)
group-groups sig sigs =
    lookup-sort_groups sig (group_by_sig [] sigs)
    ∙ ap (sort int_leb) (group-group_by_sig sig [] sigs ∙ (unfold lookup in refl))

-- A mapping sends ids to ids of the same signature, never two to one. `done` are the signatures of the
-- ids that it maps.
pub record IsMatching (sf1 sf2 : Dict ℤ String) (done : List String) (m : Dict ℤ ℤ) : Type 0 where
  pub same :
      (a b : ℤ)
      → lookup a m ≡ some b
      → (s : String) × (lookup a sf1 ≡ some s) × (lookup b sf2 ≡ some s) × (contains done s ≡ true)
  pub injective : (a a' b : ℤ) → lookup a m ≡ some b → lookup a' m ≡ some b → a ≡ a'
  pub total :
      (a : ℤ) (s : String)
      → contains done s ≡ true
      → lookup a sf1 ≡ some s
      → (b : ℤ) × (lookup a m ≡ some b)

elim_none : {b : ℤ} → ◌≢◌ {A = Option ℤ} none (some b)
elim_none h = cc

elim_false : ◌≢◌ {A = Bool} false true
elim_false h = cc

pub nothing_IsMatching : (sf1 sf2 : Dict ℤ String) → IsMatching sf1 sf2 [] []
unfolding lookup
nothing_IsMatching sf1 sf2 = record {
  same = λ a b h. absurd (elim_none h);
  injective = λ a a' b h h'. cc;
  total = λ a s h l. absurd (elim_false h);
}
