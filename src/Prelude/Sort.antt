-- ===== src/Prelude/Sort.antt =====
-- `sorted`: a stable insertion sort by a Boolean order.
use mathlib.Core.Path.{◌≡◌, refl, ap, ◌∙◌}
use mathlib.Core.Bool.{Bool, false, ◌||◌}
use mathlib.Core.Logic.{inl, inr}
use mathlib.Core.List.{List, [], ◌∷◌}
use native.Mathlib.Omega.{arith}
use llm_evolutionary_samplin.Prelude.Tests.{Eq, ◌==◌, if◌then◌else◌, Bool-cases}
use llm_evolutionary_samplin.Prelude.Lists.{contains, IsDistinct, All}

module _ {ℓ} {A : Type ℓ} where
  -- `x` goes before the first element that is not below it.
  unfoldable pub insert_sorted : (A → A → Bool) → A → List A → List A
  insert_sorted le x [] = x ∷ []
  insert_sorted le x (y ∷ ys) = if le x y then x ∷ y ∷ ys else y ∷ insert_sorted le x ys

  unfoldable pub sort : (A → A → Bool) → List A → List A
  unfolding insert_sorted
  sort le [] = []
  sort le (x ∷ xs) = insert_sorted le x (sort le xs)

-- Sorting keeps the elements.
module _ {ℓ} {A : Type ℓ} ⦃e : Eq A⦄ where
  contains-insert_sorted :
      (le : A → A → Bool) (x : A) (ys : List A) (a : A)
      → contains (insert_sorted le x ys) a ≡ (x == a || contains ys a)
  unfolding insert_sorted
  contains-insert_sorted le x [] a = refl
  contains-insert_sorted le x (y ∷ ys) a = ground (arith, contains-insert_sorted le x ys a)

  pub contains-sort :
      (le : A → A → Bool) (xs : List A) (a : A) → contains (sort le xs) a ≡ contains xs a
  unfolding sort
  contains-sort le [] a = refl
  contains-sort le (x ∷ xs) a =
      contains-insert_sorted le x (sort le xs) a ∙ ap (λ b. x == a || b) (contains-sort le xs a)

  insert_sorted-IsDistinct :
      (le : A → A → Bool) (x : A) (ys : List A)
      → IsDistinct ys
      → contains ys x ≡ false
      → IsDistinct (insert_sorted le x ys)
  unfolding insert_sorted
  insert_sorted-IsDistinct le x [] d h = (refl, tt)
  insert_sorted-IsDistinct le x (y ∷ ys) d h = elim (Bool-cases (le x y)) [
    | inl below ↦ rw below (h, d)
    | inr beyond ↦ rw beyond (
      ground (arith, contains-insert_sorted le x ys y, d.0, e.beq_iff x y, e.beq_iff y x),
      insert_sorted-IsDistinct le x ys d.1 (ground arith),
    )
  ]

  pub sort-IsDistinct : (le : A → A → Bool) (xs : List A) → IsDistinct xs → IsDistinct (sort le xs)
  unfolding sort
  sort-IsDistinct le [] d = tt
  sort-IsDistinct le (x ∷ xs) d =
      insert_sorted-IsDistinct le x (sort le xs) (sort-IsDistinct le xs d.1)
        (contains-sort le xs x ∙ d.0)

module _ {ℓ κ} {A : Type ℓ} (P : A → Type κ) where
  All-insert_sorted :
      (le : A → A → Bool) (x : A) (xs : List A) → P x → All P xs → All P (insert_sorted le x xs)
  unfolding insert_sorted
  All-insert_sorted le x [] a h = (a, tt)
  All-insert_sorted le x (y ∷ ys) a (b, h) = elim (Bool-cases (le x y)) [
    | inl below ↦ rw below (a, (b, h))
    | inr beyond ↦ rw beyond (b, All-insert_sorted le x ys a h)
  ]

  pub All-sort : (le : A → A → Bool) (xs : List A) → All P xs → All P (sort le xs)
  unfolding sort
  All-sort le [] h = tt
  All-sort le (x ∷ xs) (a, h) = All-insert_sorted le x (sort le xs) a (All-sort le xs h)
