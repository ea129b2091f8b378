-- ===== src/Json/Objects.antt =====
-- Python's operations on a `dict` and a `list`, as the program uses them on JSON values.
use llm_evolutionary_samplin.Prelude.{
  ℕ, zero, suc, ◌≤◌, ◌<◌, String, ◌≡◌, refl, ap, Bool, true, false, Option, none, some, ◌==◌,
  string_eq, if◌then◌else◌, arith,
}
use llm_evolutionary_samplin.Json.{Json, Items, nil, cons, Fields, end, field}

-- `d.get(k)`, `d[k]`
unfoldable pub get_field : String → Fields → Option Json
get_field k end = none
get_field k (field j v fs) = if j == k then some v else get_field k fs

-- `k in d`
abbrev pub is_some : Option Json → Bool
is_some none = false
is_some (some v) = true

unfoldable pub has_field : String → Fields → Bool
unfolding get_field
has_field k fs = is_some (get_field k fs)

-- `d[k] = v`
unfoldable pub set_field : String → Json → Fields → Fields
set_field k v end = field k v end
set_field k v (field j w fs) = if j == k then field j v fs else field j w (set_field k v fs)

-- `del d[k]`: a dict holds a key once
unfoldable pub del_field : String → Fields → Fields
del_field k end = end
del_field k (field j w fs) = if j == k then fs else field j w (del_field k fs)

abbrev pub count_fields : Fields → ℕ
count_fields end = 0
count_fields (field k v fs) = suc (count_fields fs)

abbrev pub count_items : Items → ℕ
count_items nil = 0
count_items (cons x xs) = suc (count_items xs)

-- `l[i]`
unfoldable pub get_item : ℕ → Items → Option Json
get_item i nil = none
get_item zero (cons x xs) = some x
get_item (suc i) (cons x xs) = get_item i xs

-- `l[i] = v`
unfoldable pub set_item : ℕ → Json → Items → Items
set_item i v nil = nil
set_item zero v (cons x xs) = cons v xs
set_item (suc i) v (cons x xs) = cons x (set_item i v xs)

-- `l.insert(i, v)`; at the length this is `l.append(v)`
unfoldable pub insert_item : ℕ → Json → Items → Items
insert_item zero v xs = cons v xs
insert_item (suc i) v nil = cons v nil
insert_item (suc i) v (cons x xs) = cons x (insert_item i v xs)

-- `l.pop(i)`
unfoldable pub pop_item : ℕ → Items → Items
pop_item i nil = nil
pop_item zero (cons x xs) = xs
pop_item (suc i) (cons x xs) = cons x (pop_item i xs)

-- A dict has a key at most once.
abbrev pub HasUniqueKeys : Fields → Type 0
HasUniqueKeys end = Unit
HasUniqueKeys (field k v fs) = (get_field k fs ≡ none) × HasUniqueKeys fs

pub get-set_field :
    (k j : String) (v : Json) (fs : Fields)
    → get_field j (set_field k v fs) ≡ (if k == j then some v else get_field j fs)
unfolding get_field set_field
get-set_field k j v end = refl
get-set_field k j v (field i w fs) = ground (
  arith,
  string_eq.beq_iff k j,
  string_eq.beq_iff i k,
  string_eq.beq_iff i j,
  get-set_field k j v fs,
)

pub get-del_field :
    (k j : String) (fs : Fields)
    → HasUniqueKeys fs
    → get_field j (del_field k fs) ≡ (if k == j then none else get_field j fs)
unfolding get_field del_field
get-del_field k j end h = ground arith
get-del_field k j (field i w fs) h = ground (
  arith,
  string_eq.beq_iff k j,
  string_eq.beq_iff i k,
  string_eq.beq_iff i j,
  get-del_field k j fs,
  h.0,
)

pub get-set_item_self :
    (i : ℕ) (v : Json) (xs : Items) → i < count_items xs → get_item i (set_item i v xs) ≡ some v
unfolding get_item set_item
get-set_item_self i v nil h = elim h [ ]
get-set_item_self zero v (cons x xs) h = refl
get-set_item_self (suc i) v (cons x xs) h = get-set_item_self i v xs (omega arith)

pub get-insert_item_self :
    (i : ℕ) (v : Json) (xs : Items) → i ≤ count_items xs → get_item i (insert_item i v xs) ≡ some v
unfolding get_item insert_item
get-insert_item_self zero v xs h = refl
get-insert_item_self (suc i) v nil h = absurd (omega arith)
get-insert_item_self (suc i) v (cons x xs) h = get-insert_item_self i v xs (omega arith)

pub pop-insert_item :
    (i : ℕ) (v : Json) (xs : Items) → i ≤ count_items xs → pop_item i (insert_item i v xs) ≡ xs
unfolding pop_item insert_item
pop-insert_item zero v xs h = refl
pop-insert_item (suc i) v nil h = absurd (omega arith)
pop-insert_item (suc i) v (cons x xs) h = ap (cons x) (pop-insert_item i v xs (omega arith))

pub get_item_below :
    (i : ℕ) (xs : Items) → i < count_items xs → (v : Json) × (get_item i xs ≡ some v)
unfolding get_item
get_item_below i nil h = elim h [ ]
get_item_below zero (cons x xs) h = (x, refl)
get_item_below (suc i) (cons x xs) h = get_item_below i xs (omega arith)
