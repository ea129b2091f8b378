-- ===== src/Prelude/Gather.antt =====
-- Results that arrive in any order and are stored by their number: `results = [None] * n`, then
-- `results[i] = r` for each arrival.
use Prim.Native.Nat.{ℕ, zero, suc, ◌+◌, ◌<◌}
use mathlib.Core.Path.{◌≡◌, refl, ap, sym, ◌∙◌}
use mathlib.Core.Bool.{Bool, true, false, ◌||◌}
use mathlib.Core.List.{List, [], ◌∷◌}
use mathlib.Core.Option.{Option, none, some}
use native.Mathlib.Omega.{arith}
use llm_evolutionary_samplin.Prelude.Tests.{◌==◌, nat_eq, if◌then◌else◌}
use llm_evolutionary_samplin.Prelude.Lists.{contains}

module _ {ℓ} {A : Type ℓ} where
  -- `results[i] = r`
  unfoldable pub set_at : ℕ → A → List (Option A) → List (Option A)
  set_at i r [] = []
  set_at zero r (x ∷ xs) = some r ∷ xs
  set_at (suc i) r (x ∷ xs) = x ∷ set_at i r xs

  -- `[None] * n`
  unfoldable pub nones : ℕ → List (Option A)
  nones zero = []
  nones (suc n) = none ∷ nones n

  unfoldable pub store : (ℕ → A) → List ℕ → List (Option A) → List (Option A)
  store result [] slots = slots
  store result (i ∷ is) slots = store result is (set_at i (result i) slots)

  -- The results by number, whatever the order in which the numbers arrive.
  unfoldable pub gather : ℕ → (ℕ → A) → List ℕ → List (Option A)
  gather n result arrivals = store result arrivals (nones n)

  -- The results in order.
  unfoldable pub tabulate : (ℕ → A) → ℕ → ℕ → List (Option A)
  tabulate result k zero = []
  tabulate result k (suc n) = some (result k) ∷ tabulate result (k + 1) n

  -- What storing amounts to, slot by slot, from slot `k` on.
  fill : (ℕ → A) → List ℕ → ℕ → List (Option A) → List (Option A)
  fill result is k [] = []
  fill result is k (x ∷ xs) =
      (if contains is k then some (result k) else x) ∷ fill result is (k + 1) xs

  fill_none : (result : ℕ → A) (k : ℕ) (xs : List (Option A)) → fill result [] k xs ≡ xs
  unfolding fill
  fill_none result k [] = refl
  fill_none result k (x ∷ xs) = ap (λ l. x ∷ l) (fill_none result (k + 1) xs)

  -- An arrival below the first slot changes nothing.
  fill_below :
      (result : ℕ → A) (i : ℕ) (is : List ℕ) (k : ℕ) (xs : List (Option A))
      → i < k
      → fill result (i ∷ is) k xs ≡ fill result is k xs
  unfolding fill
  fill_below result i is k [] less = refl
  fill_below result i is k (x ∷ xs) less =
      let rest = fill_below result i is (k + 1) xs (omega (arith, less)) in
      let other : (i == k) ≡ false = ground (arith, less) in
      ap
        (λ b. (if b || contains is k then some (result k) else x) ∷ fill result (i ∷ is) (k + 1) xs)
        other
      ∙ ap (λ l. (if contains is k then some (result k) else x) ∷ l) rest

  head_here :
      (b c : Bool) (v x : Option A) → b ≡ true → (if c then v else v) ≡ (if b || c then v else x)
  head_here b c v x h = ground arith

  head_beyond :
      (b c : Bool) (v x : Option A) → b ≡ false → (if c then v else x) ≡ (if b || c then v else x)
  head_beyond b c v x h = ground arith

  fill-set_at :
      (result : ℕ → A) (i j : ℕ) (is : List ℕ) (k : ℕ) (xs : List (Option A))
      → k + i ≡ j
      → fill result is k (set_at i (result j) xs) ≡ fill result (j ∷ is) k xs
  unfolding fill set_at
  fill-set_at result i j is k [] e = refl
  fill-set_at result zero j is k (x ∷ xs) e =
      let one : j ≡ k = omega (arith, e) in
      let found : (j == k) ≡ true = ground (arith, one) in
      ap
        (λ n.
          (if contains is k then some (result k) else some (result n)) ∷ fill result is (k + 1) xs)
        one
      ∙ ap (λ h. h ∷ fill result is (k + 1) xs)
          (head_here (j == k) (contains is k) (some (result k)) x found)
      ∙ ap (λ l. (if (j == k) || contains is k then some (result k) else x) ∷ l)
          (sym (fill_below result j is (k + 1) xs (omega (arith, one))))
  fill-set_at result (suc i) j is k (x ∷ xs) e =
      let beyond : (j == k) ≡ false = ground (arith, e) in
      ap (λ h. h ∷ fill result is (k + 1) (set_at i (result j) xs))
        (head_beyond (j == k) (contains is k) (some (result k)) x beyond)
      ∙ ap (λ l. (if (j == k) || contains is k then some (result k) else x) ∷ l)
          (fill-set_at result i j is (k + 1) xs (omega (arith, e)))

  store-fill :
      (result : ℕ → A) (is : List ℕ) (xs : List (Option A))
      → store result is xs ≡ fill result is 0 xs
  unfolding store
  store-fill result [] xs = sym (fill_none result 0 xs)
  store-fill result (i ∷ is) xs =
      store-fill result is (set_at i (result i) xs) ∙ fill-set_at result i i is 0 xs (omega arith)

  fill_all :
      (result : ℕ → A) (is : List ℕ) (k n : ℕ)
      → ((i : ℕ) → i < k + n → contains is i ≡ true)
      → fill result is k (nones n) ≡ tabulate result k n
  unfolding fill nones tabulate
  fill_all result is k zero h = refl
  fill_all result is k (suc n) h =
      ap (λ b. (if b then some (result k) else none) ∷ fill result is (k + 1) (nones n))
        (h k (omega arith))
      ∙ ap (λ l. some (result k) ∷ l)
          (fill_all result is (k + 1) n (λ i less. h i (omega (arith, less))))

  -- If every number arrives, then the results stand in order, whatever the order of the arrivals.
  pub gather-tabulate :
      (n : ℕ) (result : ℕ → A) (arrivals : List ℕ)
      → ((i : ℕ) → i < n → contains arrivals i ≡ true)
      → gather n result arrivals ≡ tabulate result 0 n
  unfolding gather
  gather-tabulate n result arrivals h =
      store-fill result arrivals (nones n)
      ∙ fill_all result arrivals 0 n (λ i less. h i (omega (arith, less)))
