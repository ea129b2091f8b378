-- ===== src/Renumber/Laws.antt =====
-- `_assign_new_node_ids` as a whole: traversal, assignment, and the ids that it names.
use mathlib.Core.List.{append-nil}
use llm_evolutionary_samplin.Prelude.{
  ℕ, ℤ, pos, String, ◌≡◌, refl, ap, sym, ◌∙◌, Bool, true, false, not, some, List, [], ◌∷◌, ◌++◌,
  int_eq, int_beq_iff, contains, select, int_leb, arith, Bool-cases, inl, inr, eq_refl,
  contains-append, is_digit, str_ℤ,
}
use llm_evolutionary_samplin.Prelude.Text.RoundTrip.{
  is_digit-str_ℕ, parse_int-str_ℕ, parse_int-is_digit,
}
use llm_evolutionary_samplin.Prelude.Dict.{Dict, lookup, values}
use llm_evolutionary_samplin.Prelude.Sort.{sort, contains-sort}
use llm_evolutionary_samplin.Json.{Fields, end, field}
use llm_evolutionary_samplin.Refs.{internal_ids, key_id}
use llm_evolutionary_samplin.Graph.{topo_order_from_roots, traversal_order, texts}
use llm_evolutionary_samplin.Graph.Order.{traversal_order-exact}
use llm_evolutionary_samplin.Renumber.{ids_of, with_missing, assign_new_node_ids}
use llm_evolutionary_samplin.Renumber.Fresh.{
  new_ids, assign_each-separate, new_ids-only, new_ids-same, values-new_ids,
}

abbrev IsNatural : ℤ → Type 0
IsNatural i = (n : ℕ) × (i ≡ pos n)

key_id-IsNatural : (k : String) (i : ℤ) → contains (key_id k) i ≡ true → IsNatural i
key_id-IsNatural k i h = elim (Bool-cases (is_digit k)) [
  | inl digits ↦
      let (n, e) = parse_int-is_digit k digits in (n, ground (arith, int_beq_iff (pos n) i))
  | inr other ↦ absurd (ground arith)
]

internal_ids-IsNatural : (fs : Fields) (i : ℤ) → contains (internal_ids fs) i ≡ true → IsNatural i
unfolding internal_ids
internal_ids-IsNatural end i h = cc
internal_ids-IsNatural (field k v fs) i h = elim (Bool-cases (contains (key_id k) i)) [
  | inl here ↦ key_id-IsNatural k i here
  | inr later ↦
      internal_ids-IsNatural fs i (ground (arith, contains-append (key_id k) (internal_ids fs) i))
]

-- Writing natural ids as texts and reading them back changes nothing.
ids_of-texts :
    (order : List ℤ)
    → ((i : ℤ) → contains order i ≡ true → IsNatural i)
    → ids_of (texts order) ≡ order
unfolding ids_of
ids_of-texts [] natural = refl
ids_of-texts (x ∷ xs) natural =
    let (n, e) = natural x (ground (arith, eq_refl x)) in
    let ih = ids_of-texts xs (λ i h. natural i (ground arith)) in
    let read : key_id (str_ℤ (pos n)) ≡ pos n ∷ [] =
      unfold str_ℤ in rw (is_digit-str_ℕ n, parse_int-str_ℕ n) in
    ap (λ y. key_id (str_ℤ y) ++ ids_of (texts xs)) e
    ∙ ap (λ l. l ++ ids_of (texts xs)) read
    ∙ ap (λ l. pos n ∷ l) ih
    ∙ ap (λ y. y ∷ xs) (sym e)

select_nothing :
    (p : ℤ → Bool) (xs : List ℤ) → ((i : ℤ) → contains xs i ≡ true → p i ≡ false) → select p xs ≡ []
select_nothing p [] h = refl
select_nothing p (x ∷ xs) h =
    ground (arith, h x, eq_refl x, select_nothing p xs (λ i e. h i (ground arith)))

-- All ids are in the traversal, so nothing is appended to it.
with_missing-texts :
    (structure : Fields) (order : List ℤ)
    → ((i : ℤ) → contains order i ≡ contains (internal_ids structure) i)
    → with_missing (ids_of (texts order)) (sort int_leb (internal_ids structure)) ≡ order
unfolding with_missing
with_missing-texts structure order exact =
    let ids = internal_ids structure in
    let read : ids_of (texts order) ≡ order =
      ids_of-texts order (λ i h. internal_ids-IsNatural structure i (sym (exact i) ∙ h)) in
    rw read (
      rw
        (select_nothing (λ i. not (contains order i)) (sort int_leb ids)
          (λ i h. ground (arith, exact i, contains-sort int_leb ids i)))
        (append-nil order))

assign_ordered :
    (structure : Fields) (reserved order : List ℤ)
    → traversal_order structure ≡ some order
    → with_missing (ids_of (texts order)) (sort int_leb (internal_ids structure)) ≡ order
    → assign_new_node_ids structure reserved ≡ some (new_ids reserved order)
unfolding assign_new_node_ids topo_order_from_roots
assign_ordered structure reserved order e named = ground (arith, e, ap (new_ids reserved) named)

-- What is known of a new numbering of a structure's ids.
pub record IsRenumbering (structure : Fields) (reserved : List ℤ) (m : Dict ℤ ℤ) : Type 0 where
  pub total : (i : ℤ) → contains (internal_ids structure) i ≡ true → (v : ℤ) × (lookup i m ≡ some v)
  pub only : (i v : ℤ) → lookup i m ≡ some v → contains (internal_ids structure) i ≡ true
  pub apart : (i v : ℤ) → lookup i m ≡ some v → contains reserved v ≡ false
  pub values_apart : (v : ℤ) → contains (values m) v ≡ true → contains reserved v ≡ false
  pub injective : (a b v : ℤ) → lookup a m ≡ some v → lookup b m ≡ some v → a ≡ b

-- `_assign_new_node_ids` always returns a mapping. It has an image for exactly the ids of the structure's
-- nodes; no image is a reserved id; and different ids have different images.
pub assign_new_node_ids-IsRenumbering :
    (structure : Fields) (reserved : List ℤ)
    → (m : Dict ℤ ℤ) × (assign_new_node_ids structure reserved ≡ some m)
      × IsRenumbering structure reserved m
assign_new_node_ids-IsRenumbering structure reserved =
    let (order, e, distinct, exact) = traversal_order-exact structure in
    let ids = internal_ids structure in
    let (total, apart, injective) = assign_each-separate reserved order in
    (
      new_ids reserved order,
      assign_ordered structure reserved order e (with_missing-texts structure order exact),
      record {
        total = λ i h. total i (exact i ∙ h);
        only = λ i v l. sym (exact i) ∙ new_ids-only reserved order i v l;
        apart = apart;
        values_apart = values-new_ids reserved order;
        injective = injective;
      },
    )

-- If no id of the structure is reserved, then `_assign_new_node_ids` maps every id to itself.
pub assign_new_node_ids-same :
    (structure : Fields) (reserved : List ℤ) (m : Dict ℤ ℤ)
    → assign_new_node_ids structure reserved ≡ some m
    → ((i : ℤ) → contains (internal_ids structure) i ≡ true → contains reserved i ≡ false)
    → (i : ℤ) → contains (internal_ids structure) i ≡ true
    → lookup i m ≡ some i
assign_new_node_ids-same structure reserved m e out i h =
    let (order, t, distinct, exact) = traversal_order-exact structure in
    let one : new_ids reserved order ≡ m = cc (
      sym (assign_ordered structure reserved order t (with_missing-texts structure order exact))
      ∙ e) in
    ap (lookup i) (sym one)
    ∙ new_ids-same reserved order distinct (λ j k. out j (sym (exact j) ∙ k)) i (exact i ∙ h)
