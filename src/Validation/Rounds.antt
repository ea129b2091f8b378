-- ===== src/Validation/Rounds.antt =====
-- What the rounds of a validation's loop show if none of them ends it.
use llm_evolutionary_samplin.Prelude.{
  ℕ, zero, suc, ◌≡◌, refl, sym, Bool, true, false, Option, none, some, List, [], ◌∷◌, ◌==◌, nat_eq,
  Result, ok, ◌>>=◌, >>=-eq-ok, contains, IsDistinct, All, Bool-cases, beq→eq, inl, inr, arith,
  subst,
}
use llm_evolutionary_samplin.Json.{Json}
use llm_evolutionary_samplin.Validation.{
  Rejection, Stop, Seen, expect, baseline_arrives, candidate_arrives, arrives, compare_as_you_fetch,
  nothing_seen, non_deterministic, result_set_mismatch,
}

-- The candidate's run that is done first.
abbrev pub first_candidate : List ℕ → Option ℕ
first_candidate [] = none
first_candidate (zero ∷ is) = first_candidate is
first_candidate (suc k ∷ is) = some k

expect-ok :
    (matches : Bool) (rejection : Rejection) (seen seen' : Seen)
    → expect matches rejection seen ≡ ok seen'
    → (matches ≡ true) × (seen ≡ seen')
expect-ok true rejection seen seen' h = (refl, cc h)
expect-ok false rejection seen seen' h = cc h

All-at : (P : ℕ → Type 0) (i : ℕ) (is : List ℕ) → contains is i ≡ true → All P is → P i
All-at P i [] has h = cc has
All-at P i (j ∷ is) has (p, h) = elim (Bool-cases (j == i)) [
  | inl same ↦ subst P (beq→eq j i same) p
  | inr other ↦ All-at P i is (ground (arith, has, other)) h
]

abbrev pub primary_is : Option Json → Json → Seen
primary_is base primary = record { baseline_data = base; primary_cand_data = some primary }

abbrev pub baseline_is : Option Json → Seen
baseline_is base = record { baseline_data = base; primary_cand_data = none }

module _ (compare : Json → Json → Bool) (results : ℕ → Result Stop Json) where
  -- What a future brings for a baseline or a primary candidate that is known.
  Matches : (candidate baseline : Json) → ℕ → Type 0
  Matches candidate base zero =
      (data_ : Json) × (results 0 ≡ ok data_) × (compare data_ base ≡ true)
  Matches candidate base (suc k) =
      (data_ : Json) × (results (suc k) ≡ ok data_) × (compare candidate data_ ≡ true)

  -- A round of the loop that goes on.
  record IsRound (seen seen' : Seen) (i : ℕ) (is : List ℕ) : Type 0 where
    data_ : Json
    next : Seen
    run : results i ≡ ok data_
    step : arrives compare seen i data_ ≡ ok next
    rest : compare_as_you_fetch compare results next is ≡ ok seen'

  rounds :
      (seen seen' : Seen) (i : ℕ) (is : List ℕ)
      → compare_as_you_fetch compare results seen (i ∷ is) ≡ ok seen'
      → IsRound seen seen' i is
  unfolding compare_as_you_fetch
  rounds seen seen' i is h =
      let (data_, ed, h1) =
        >>=-eq-ok (results i)
          (λ d. arrives compare seen i d >>= λ s. compare_as_you_fetch compare results s is) h in
      let (next, e1, h2) =
        >>=-eq-ok (arrives compare seen i data_) (λ s. compare_as_you_fetch compare results s is)
          h1 in
      record { data_ = data_; next = next; run = ed; step = e1; rest = h2 }

  with_primary :
      (base : Option Json) (primary : Json) (is : List ℕ) (seen' : Seen)
      → compare_as_you_fetch compare results (primary_is base primary) is ≡ ok seen'
      → All (Matches primary primary) is
  unfolding arrives baseline_arrives candidate_arrives Matches
  with_primary base primary [] seen' h = tt
  with_primary base primary (zero ∷ is) seen' h =
      let r = rounds (primary_is base primary) seen' 0 is h in
      let (matches, same) =
        expect-ok (compare r.data_ primary) result_set_mismatch (primary_is base primary) r.next
          r.step in
      (
        (r.data_, r.run, matches),
        with_primary base primary is seen'
            (subst (λ s. compare_as_you_fetch compare results s is ≡ ok seen') (sym same) r.rest),
      )
  with_primary base primary (suc k ∷ is) seen' h =
      let r = rounds (primary_is base primary) seen' (suc k) is h in
      let (matches, same) =
        expect-ok (compare primary r.data_) non_deterministic (primary_is base primary) r.next
          r.step in
      (
        (r.data_, r.run, matches),
        with_primary base primary is seen'
            (subst (λ s. compare_as_you_fetch compare results s is ≡ ok seen') (sym same) r.rest),
      )

  -- What the candidate's other runs in a list bring.
  unfoldable pub Others : (first : ℕ) (primary : Json) → List ℕ → Type 0
  Others first primary is =
      (k : ℕ)
      → contains is (suc k) ≡ true
      → (k == first) ≡ false
      → (data_ : Json) × (results (suc k) ≡ ok data_) × (compare primary data_ ≡ true)

  rest_matched :
      (k : ℕ) (primary : Json) (is : List ℕ)
      → All (Matches primary primary) is
      → Others k primary (suc k ∷ is)
  unfolding Others Matches
  rest_matched k primary is matches j has other =
      All-at (Matches primary primary) (suc j) is (ground (arith, has, other)) matches

  -- Behind the baseline, without a second one.
  unfoldable pub WithBaseline : (base : Json) (first : ℕ) → List ℕ → Type 0
  WithBaseline base first is =
      (primary : Json) × (results (suc first) ≡ ok primary)
      × (compare base primary ≡ true)
      × Others first primary is

  with_baseline :
      (base : Json) (first : ℕ) (is : List ℕ) (seen' : Seen)
      → contains is 0 ≡ false
      → first_candidate is ≡ some first
      → compare_as_you_fetch compare results (baseline_is (some base)) is ≡ ok seen'
      → WithBaseline base first is
  unfolding arrives candidate_arrives WithBaseline
  with_baseline base first [] seen' once found h = cc found
  with_baseline base first (zero ∷ is) seen' once found h = cc once
  with_baseline base first (suc k ∷ is) seen' once found h =
      let r = rounds (baseline_is (some base)) seen' (suc k) is h in
      let (matches, same) =
        expect-ok (compare base r.data_) result_set_mismatch (primary_is none r.data_) r.next
          r.step in
      let later =
        with_primary none r.data_ is seen'
          (subst (λ s. compare_as_you_fetch compare results s is ≡ ok seen') (sym same) r.rest) in
      let one : k ≡ first = cc found in
      subst (λ f. WithBaseline base f (suc k ∷ is)) one
        (r.data_, r.run, matches, rest_matched k r.data_ is later)

  -- What all rounds together show, from the start.
  unfoldable pub FromStart : ℕ → List ℕ → Type 0
  FromStart first is = (base : Json) × (results 0 ≡ ok base) × WithBaseline base first is

  skip_baseline :
      (first : ℕ) (primary : Json) (is : List ℕ)
      → Others first primary is
      → Others first primary (zero ∷ is)
  unfolding Others
  skip_baseline first primary is others k has other = others k (ground (arith, has)) other

  pub from_start :
      (first : ℕ) (is : List ℕ) (seen' : Seen)
      → IsDistinct is
      → contains is 0 ≡ true
      → first_candidate is ≡ some first
      → compare_as_you_fetch compare results nothing_seen is ≡ ok seen'
      → FromStart first is
  unfolding arrives baseline_arrives candidate_arrives FromStart WithBaseline Matches
  from_start first [] seen' once has found h = cc has
  from_start first (zero ∷ is) seen' (once, _) has found h =
      let r = rounds nothing_seen seen' 0 is h in
      let same : baseline_is (some r.data_) ≡ r.next = cc r.step in
      let (primary, run, correct, others) =
        with_baseline r.data_ first is seen' once found
          (subst (λ s. compare_as_you_fetch compare results s is ≡ ok seen') (sym same) r.rest) in
      (r.data_, r.run, (primary, run, correct, skip_baseline first primary is others))
  from_start first (suc k ∷ is) seen' once has found h =
      let r = rounds nothing_seen seen' (suc k) is h in
      let same : primary_is none r.data_ ≡ r.next = cc r.step in
      let matches =
        with_primary none r.data_ is seen'
          (subst (λ s. compare_as_you_fetch compare results s is ≡ ok seen') (sym same) r.rest) in
      let (base, run, correct) =
        All-at (Matches r.data_ r.data_) 0 is (ground (arith, has)) matches in
      let one : k ≡ first = cc found in
      subst (λ f. FromStart f (suc k ∷ is)) one
        (base, run, (r.data_, r.run, correct, rest_matched k r.data_ is matches))
