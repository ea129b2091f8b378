-- ===== src/Json/Writes.antt =====
-- Writes to a field or an item of a container, repeated and undone.
use llm_evolutionary_samplin.Prelude.{
  ℕ, zero, suc, String, ◌≡◌, refl, ap, none, some, string_eq, arith, eq_refl,
}
use llm_evolutionary_samplin.Json.{Json, Items, nil, cons, Fields, end, field}
use llm_evolutionary_samplin.Json.Objects.{
  get_field, set_field, del_field, get_item, set_item, insert_item, count_items,
}

pub set_field_self :
    (k : String) (v : Json) (fs : Fields) → get_field k fs ≡ some v → set_field k v fs ≡ fs
unfolding get_field set_field
set_field_self k v end h = cc
set_field_self k v (field j w fs) h = ground (arith, set_field_self k v fs)

pub set-set_field :
    (k : String) (v w : Json) (fs : Fields) → set_field k v (set_field k w fs) ≡ set_field k v fs
unfolding set_field
set-set_field k v w end = rw eq_refl
set-set_field k v w (field j u fs) = ground (arith, set-set_field k v w fs)

-- A new key goes to the end, and its removal leaves what was there.
pub del-set_field :
    (k : String) (v : Json) (fs : Fields)
    → get_field k fs ≡ none
    → del_field k (set_field k v fs) ≡ fs
unfolding get_field set_field del_field
del-set_field k v end h = rw eq_refl
del-set_field k v (field j w fs) h = ground (arith, del-set_field k v fs)

pub set_item_self : (i : ℕ) (v : Json) (xs : Items) → get_item i xs ≡ some v → set_item i v xs ≡ xs
unfolding get_item set_item
set_item_self i v nil h = refl
set_item_self zero v (cons x xs) h = cc
set_item_self (suc i) v (cons x xs) h = ap (cons x) (set_item_self i v xs h)

pub set-set_item :
    (i : ℕ) (v w : Json) (xs : Items) → set_item i v (set_item i w xs) ≡ set_item i v xs
unfolding set_item
set-set_item i v w nil = refl
set-set_item zero v w (cons x xs) = refl
set-set_item (suc i) v w (cons x xs) = ap (cons x) (set-set_item i v w xs)

pub get-set_item_found :
    (i : ℕ) (v w : Json) (xs : Items)
    → get_item i xs ≡ some w
    → get_item i (set_item i v xs) ≡ some v
unfolding get_item set_item
get-set_item_found i v w nil h = cc
get-set_item_found zero v w (cons x xs) h = refl
get-set_item_found (suc i) v w (cons x xs) h = get-set_item_found i v w xs h

pub count-set_item :
    (i : ℕ) (v : Json) (xs : Items) → count_items (set_item i v xs) ≡ count_items xs
unfolding set_item
count-set_item i v nil = refl
count-set_item zero v (cons x xs) = refl
count-set_item (suc i) v (cons x xs) = ap suc (count-set_item i v xs)

pub count-insert_item :
    (i : ℕ) (v : Json) (xs : Items) → count_items (insert_item i v xs) ≡ suc (count_items xs)
unfolding insert_item
count-insert_item zero v xs = refl
count-insert_item (suc i) v nil = refl
count-insert_item (suc i) v (cons x xs) = ap suc (count-insert_item i v xs)
