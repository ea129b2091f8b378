-- ===== src/Bases/Best.antt =====
-- The best plan is one whose metric no candidate undercuts.
use llm_evolutionary_samplin.Prelude.{
  pos, String, ◌≡◌, refl, ap, sym, ◌∙◌, true, false, Option, none, some, ◌>>=◌, List, [], ◌∷◌, take,
  ok, >>=-eq-ok, All, subst, Bool-cases, inl, inr,
}
use llm_evolutionary_samplin.Prelude.Sort.{insert_sorted, sort, All-sort}
use llm_evolutionary_samplin.Json.{Json, null}
use llm_evolutionary_samplin.Metric.{Numbers, truthy, infinity, get_metric_value}
use llm_evolutionary_samplin.Samples.{PlanInfo}
use llm_evolutionary_samplin.Bases.{
  slice, or_infinity, rank_key, with_keys, plans_of, not_above, get_best_plan_infos,
}
use llm_evolutionary_samplin.Bases.Kept.{get_best_lem}

-- `<` orders the keys that satisfy `IsReal`, which leaves out a NaN.
pub record Orders (numbers : Numbers) (IsReal : Json → Type 0) : Type 0 where
  pub asymmetric :
      (a b : Json) → IsReal a → IsReal b → numbers.less a b ≡ true → numbers.less b a ≡ false
  pub transitive :
      (a b c : Json)
      → IsReal a
      → IsReal b
      → IsReal c
      → numbers.less b a ≡ false
      → numbers.less c b ≡ false
      → numbers.less c a ≡ false

-- The key of a plan: its metric value, or infinity if it has none or if it counts as false, as 0 does.
pub data IsKey (numbers : Numbers) (metric : String) (p : PlanInfo) : Json → Type 0 where
  valued :
      {v : Json}
      → get_metric_value numbers.floats p.evaluation_stats metric ≡ ok (some v)
      → truthy numbers.floats v ≡ true
      → IsKey numbers metric p v
  counted_false :
      {v : Json}
      → get_metric_value numbers.floats p.evaluation_stats metric ≡ ok (some v)
      → truthy numbers.floats v ≡ false
      → IsKey numbers metric p infinity
  missing :
      get_metric_value numbers.floats p.evaluation_stats metric ≡ ok none
      → IsKey numbers metric p infinity

module _ (numbers : Numbers) (metric : String) (p : PlanInfo) where
  value-IsKey :
      (value : Option Json) (key : Json)
      → get_metric_value numbers.floats p.evaluation_stats metric ≡ ok value
      → or_infinity numbers value ≡ key
      → IsKey numbers metric p key
  value-IsKey none key e h = subst (IsKey numbers metric p) h (IsKey.missing e)
  value-IsKey (some v) key e h = elim (Bool-cases (truthy numbers.floats v)) [
    | inl true_ ↦ subst (IsKey numbers metric p) (rw true_ at h) (IsKey.valued e true_)
    | inr false_ ↦ subst (IsKey numbers metric p) (rw false_ at h) (IsKey.counted_false e false_)
  ]

  stats-IsKey :
      (stats key : Json)
      → p.evaluation_stats ≡ stats
      → (elim stats [
        | null ↦ ok infinity
        | s ↦ get_metric_value numbers.floats s metric >>= λ value. ok (or_infinity numbers value)
      ])
        ≡ ok key
      → IsKey numbers metric p key
  unfolding get_metric_value truthy
  stats-IsKey null key e h =
      let same : infinity ≡ key = cc h in
      subst (IsKey numbers metric p) same
        (IsKey.missing (ap (λ s. get_metric_value numbers.floats s metric) e))
  stats-IsKey s key e h =
      let (value, ev, last) =
        >>=-eq-ok (get_metric_value numbers.floats s metric) (λ v. ok (or_infinity numbers v)) h in
      value-IsKey value key (ap (λ x. get_metric_value numbers.floats x metric) e ∙ ev) (cc last)

  rank_key-IsKey : (key : Json) → rank_key numbers metric p ≡ ok key → IsKey numbers metric p key
  unfolding rank_key
  rank_key-IsKey key h = stats-IsKey p.evaluation_stats key refl h

-- The first key is not above any of the others.
abbrev Keyed : Type 0
Keyed = Json × PlanInfo

module _ (numbers : Numbers) (IsReal : Json → Type 0) (orders : Orders numbers IsReal) where
  abbrev IsLeast : Json → List Keyed → Type 0
  IsLeast k = All (λ x. numbers.less x.0 k ≡ false)

  abbrev AreReal : List Keyed → Type 0
  AreReal = All (λ x. IsReal x.0)

  -- The head of a list is the least of another, which is empty if the list is.
  abbrev HeadLeast : List Keyed → List Keyed → Type 0
  HeadLeast xs [] = xs ≡ []
  HeadLeast xs (y ∷ ys) = IsReal y.0 × IsLeast y.0 xs

  above_all :
      (x y : Json) (zs : List Keyed)
      → IsReal x
      → IsReal y
      → AreReal zs
      → numbers.less y x ≡ false
      → IsLeast y zs
      → IsLeast x zs
  above_all x y [] rx ry rs h k = tt
  above_all x y (z ∷ zs) rx ry (rz, rs) h (e, k) =
      (orders.transitive x y z.0 rx ry rz h e, above_all x y zs rx ry rs h k)

  itself : (x : Json) → IsReal x → numbers.less x x ≡ false
  itself x r = elim (Bool-cases (numbers.less x x)) [
    | inl h ↦ orders.asymmetric x x r r h
    | inr h ↦ h
  ]

  head_least :
      (x : Keyed) (xs sorted : List Keyed)
      → IsReal x.0
      → AreReal xs
      → HeadLeast xs sorted
      → HeadLeast (x ∷ xs) (insert_sorted (not_above numbers) x sorted)
  unfolding insert_sorted
  head_least x xs [] r rs e = (r, (itself x.0 r, subst (IsLeast x.0) (sym e) tt))
  head_least x xs (y ∷ ys) r rs (ry, least) = elim (Bool-cases (numbers.less y.0 x.0)) [
    | inl below ↦ rw below (ry, (orders.asymmetric y.0 x.0 ry r below, least))
    | inr above ↦ rw above (r, (itself x.0 r, above_all x.0 y.0 xs r ry rs above least))
  ]

  sort_least : (xs : List Keyed) → AreReal xs → HeadLeast xs (sort (not_above numbers) xs)
  unfolding sort
  sort_least [] rs = refl
  sort_least (x ∷ xs) (r, rs) =
      head_least x xs (sort (not_above numbers) xs) r rs (sort_least xs rs)

  with_keys-least :
      (metric : String) (k : Json) (plans : List PlanInfo) (keyed : List Keyed)
      → with_keys numbers metric plans ≡ ok keyed
      → IsLeast k keyed
      → All (λ q. (key : Json) × IsKey numbers metric q key × (numbers.less key k ≡ false)) plans
  unfolding with_keys
  with_keys-least metric k [] keyed e h = tt
  with_keys-least metric k (p ∷ ps) keyed e h =
      let (key, ek, e1) = >>=-eq-ok (rank_key numbers metric p) _ e in
      let (rest, er, e2) = >>=-eq-ok (with_keys numbers metric ps) (λ r. ok ((key, p) ∷ r)) e1 in
      let same : keyed ≡ (key, p) ∷ rest = cc e2 in
      let both : IsLeast k ((key, p) ∷ rest) = subst (IsLeast k) same h in
      (
        (key, rank_key-IsKey numbers metric p key ek, both.0),
        with_keys-least metric k ps rest er both.1,
      )

  with_keys-real :
      (metric : String) (plans : List PlanInfo) (keyed : List Keyed)
      → with_keys numbers metric plans ≡ ok keyed
      → All (λ p. (key : Json) → IsKey numbers metric p key → IsReal key) plans
      → AreReal keyed
  unfolding with_keys
  with_keys-real metric [] keyed e real = let same : [] ≡ keyed = cc e in subst AreReal same tt
  with_keys-real metric (p ∷ ps) keyed e (real, reals) =
      let (key, ek, e1) = >>=-eq-ok (rank_key numbers metric p) _ e in
      let (rest, er, e2) = >>=-eq-ok (with_keys numbers metric ps) (λ r. ok ((key, p) ∷ r)) e1 in
      let same : (key, p) ∷ rest ≡ keyed = cc e2 in
      subst AreReal same
        (real key (rank_key-IsKey numbers metric p key ek), with_keys-real metric ps rest er reals)

  abbrev HasKey : String → Keyed → Type 0
  HasKey metric x = rank_key numbers metric x.1 ≡ ok x.0

  with_keys-HasKey :
      (metric : String) (plans : List PlanInfo) (keyed : List Keyed)
      → with_keys numbers metric plans ≡ ok keyed
      → All (HasKey metric) keyed
  unfolding with_keys
  with_keys-HasKey metric [] keyed e =
      let same : [] ≡ keyed = cc e in subst (All (HasKey metric)) same tt
  with_keys-HasKey metric (p ∷ ps) keyed e =
      let (key, ek, e1) = >>=-eq-ok (rank_key numbers metric p) _ e in
      let (rest, er, e2) = >>=-eq-ok (with_keys numbers metric ps) (λ r. ok ((key, p) ∷ r)) e1 in
      let same : (key, p) ∷ rest ≡ keyed = cc e2 in
      subst (All (HasKey metric)) same (ek, with_keys-HasKey metric ps rest er)

  with_keys-nil :
      (metric : String) (plans : List PlanInfo)
      → with_keys numbers metric plans ≡ ok []
      → plans ≡ []
  unfolding with_keys
  with_keys-nil metric [] e = refl
  with_keys-nil metric (p ∷ ps) e =
      let (key, ek, e1) = >>=-eq-ok (rank_key numbers metric p) _ e in
      let (rest, er, e2) = >>=-eq-ok (with_keys numbers metric ps) (λ r. ok ((key, p) ∷ r)) e1 in
      cc e2

  -- Nothing was picked, from nothing; or a plan with a key that no candidate's key is below.
  abbrev IsBest : String → List PlanInfo → List PlanInfo → Type 0
  IsBest metric plans [] = plans ≡ []
  IsBest metric plans (p ∷ []) =
      (k : Json) × IsKey numbers metric p k
      × All (λ q. (key : Json) × IsKey numbers metric q key × (numbers.less key k ≡ false)) plans
  IsBest metric plans (p ∷ q ∷ ps) = true ≡ false

  head-IsBest :
      (metric : String) (plans : List PlanInfo) (keyed sorted : List Keyed)
      → with_keys numbers metric plans ≡ ok keyed
      → All (HasKey metric) sorted
      → HeadLeast keyed sorted
      → IsBest metric plans (take 1 (plans_of sorted))
  head-IsBest metric plans keyed [] e hs h = with_keys-nil metric plans (e ∙ ap ok h)
  head-IsBest metric plans keyed (y ∷ ys) e (hk, hs) (r, least) = (
    y.0,
    rank_key-IsKey numbers metric y.1 y.0 hk,
    with_keys-least metric y.0 plans keyed e least,
  )

  -- If `<` orders the keys of the candidates, none of which is a NaN, then "best_1" picks at most one
  -- plan, it picks none only if there is no candidate, and no candidate has a key below that of the
  -- picked plan, where the key of a plan is its metric value if that is there and counts as true in
  -- Python, and infinity otherwise, so also for the value 0.
  pub get_best_plan_infos-IsBest :
      (metric : String) (plans best : List PlanInfo)
      → All (λ p. (key : Json) → IsKey numbers metric p key → IsReal key) plans
      → get_best_plan_infos numbers (some metric) (pos 1) plans ≡ ok best
      → IsBest metric plans best
  get_best_plan_infos-IsBest metric plans best real h =
      let (m, em, keyed, k, same) = get_best_lem numbers (some metric) (pos 1) plans best h in
      let one : m ≡ metric = cc em in
      let named : with_keys numbers metric plans ≡ ok keyed =
        subst (λ x. with_keys numbers x plans ≡ ok keyed) one k in
      subst (IsBest metric plans) (first_only (plans_of (sort (not_above numbers) keyed)) ∙ same) (
        head-IsBest metric plans keyed (sort (not_above numbers) keyed) named
          (All-sort (HasKey metric) (not_above numbers) keyed
            (with_keys-HasKey metric plans keyed named))
          (sort_least keyed (with_keys-real metric plans keyed named real)))
    where
      first_only : (ps : List PlanInfo) → take 1 ps ≡ slice (pos 1) ps
      first_only ps = unfold slice in refl
