-- ===== src/Pointer/Parent.antt =====
-- What the three operations do to the parent container, seen by a step with the same token.
use llm_evolutionary_samplin.Prelude.{
  ℕ, ◌≤◌, String, ◌≡◌, ◌≢◌, refl, ap, ◌∙◌, false, none, some, ok, ◌==◌, string_eq, arith,
  Option-cases, inl, inr, eq_refl, pos, negsuc, parse_int,
}
use llm_evolutionary_samplin.Json.{Json, null, bool, int, float, str, arr, obj, Items}
use llm_evolutionary_samplin.Json.Objects.{
  get_field, set_field, has_field, set_item, insert_item, count_items, get-set_field,
  get-insert_item_self, pop-insert_item,
}
use llm_evolutionary_samplin.Json.Writes.{
  set_field_self, set-set_field, del-set_field, set_item_self, set-set_item, get-set_item_found,
  count-set_item, count-insert_item,
}
use llm_evolutionary_samplin.Pointer.{Messages, step, index_of, add_to, remove_from, replace_in}
use llm_evolutionary_samplin.Pointer.Walk.{step-arr, arr-step, step-obj}

-- Where an `add` at an index went.
add_to-arr :
    (xs : Items) (tok : String) (v : Json) {p : Json}
    → add_to (arr xs) tok v ≡ ok p
    → tok ≢ "-"
    → (i : ℕ) × (parse_int tok ≡ some (pos i))
      × (i ≤ count_items xs)
      × (p ≡ arr (insert_item i v xs))
      × ((tok == "-") ≡ false)
unfolding add_to
add_to-arr xs tok v h nd = elim (Option-cases (parse_int tok)) [
  | inl bad ↦ ground (arith, string_eq.beq_iff tok "-")
  | inr (negsuc i, found) ↦ ground (arith, string_eq.beq_iff tok "-")
  | inr (pos i, found) ↦ (
    i,
    found,
    ground (arith, string_eq.beq_iff tok "-"),
    ground (arith, string_eq.beq_iff tok "-"),
    ground (arith, string_eq.beq_iff tok "-"),
  )
]

pub step-add_to :
    (m : Messages) (p : Json) (tok : String) (v : Json) {p' : Json}
    → add_to p tok v ≡ ok p'
    → tok ≢ "-"
    → step m p' tok ≡ ok v
step-add_to m null tok v h nd = unfold add_to in cc h
step-add_to m (bool b) tok v h nd = unfold add_to in cc h
step-add_to m (int n) tok v h nd = unfold add_to in cc h
step-add_to m (float b) tok v h nd = unfold add_to in cc h
step-add_to m (str s) tok v h nd = unfold add_to in cc h
step-add_to m (arr xs) tok v h nd =
    let (i, hp, hi, e, hd) = add_to-arr xs tok v h nd in
    rw e (
      arr-step m _ tok i v (unfold index_of in ground (arith, count-insert_item i v xs))
        (get-insert_item_self i v xs hi) hd)
step-add_to m (obj fs) tok v {p'} h nd =
    let e : p' ≡ obj (set_field tok v fs) = unfold add_to in cc h in
    rw e (unfold step in simp (get-set_field, eq_refl))

-- At an object the key is new. At a list an `add` always makes a new place.
abbrev pub IsNew : Json → String → Type 0
IsNew (obj fs) tok = get_field tok fs ≡ none
IsNew _ tok = Unit

pub remove-add_to :
    (p : Json) (tok : String) (v : Json) {p' : Json}
    → add_to p tok v ≡ ok p'
    → tok ≢ "-"
    → IsNew p tok
    → remove_from p' tok ≡ ok p
remove-add_to null tok v h nd new = unfold add_to in cc h
remove-add_to (bool b) tok v h nd new = unfold add_to in cc h
remove-add_to (int n) tok v h nd new = unfold add_to in cc h
remove-add_to (float b) tok v h nd new = unfold add_to in cc h
remove-add_to (str s) tok v h nd new = unfold add_to in cc h
remove-add_to (arr xs) tok v h nd new =
    let (i, hp, hi, e, hd) = add_to-arr xs tok v h nd in
    rw e (unfold remove_from in ground (arith, count-insert_item i v xs, pop-insert_item i v xs))
remove-add_to (obj fs) tok v {p'} h nd new =
    let e : p' ≡ obj (set_field tok v fs) = unfold add_to in cc h in
    rw e (
      unfold remove_from has_field in
      simp (get-set_field, eq_refl) (ap (λ f. ok (obj f)) (del-set_field tok v fs new)))

-- A replacement succeeds where a step does; it is found, and can be taken back.
pub replace_in-arr :
    (xs : Items) (tok : String) (v : Json) (i : ℕ)
    → index_of tok (count_items xs) ≡ some i
    → (tok == "-") ≡ false
    → replace_in (arr xs) tok v ≡ ok (arr (set_item i v xs))
unfolding replace_in index_of
replace_in-arr xs tok v i hi hd = ground arith

pub replace_in_found :
    (m : Messages) (p : Json) (tok : String) (v : Json) {w : Json}
    → step m p tok ≡ ok w
    → (p' : Json) × (replace_in p tok v ≡ ok p')
      × (step m p' tok ≡ ok v)
      × (replace_in p' tok w ≡ ok p)
replace_in_found m null tok v h = unfold step in cc h
replace_in_found m (bool b) tok v h = unfold step in cc h
replace_in_found m (int n) tok v h = unfold step in cc h
replace_in_found m (float b) tok v h = unfold step in cc h
replace_in_found m (str s) tok v h = unfold step in cc h
replace_in_found m (arr xs) tok v {w} h =
    let (i, hi, hn, hd) = step-arr m xs tok h in
    let hi' : index_of tok (count_items (set_item i v xs)) ≡ some i = rw count-set_item hi in
    (
      arr (set_item i v xs),
      replace_in-arr xs tok v i hi hd,
      arr-step m _ tok i v hi' (get-set_item_found i v w xs hn) hd,
      replace_in-arr _ tok w i hi' hd
          ∙ ap (λ l. ok (arr l)) (set-set_item i w v xs ∙ set_item_self i w xs hn),
    )
replace_in_found m (obj fs) tok v {w} h =
    let e = step-obj m fs tok h in
    (
      obj (set_field tok v fs),
      unfold replace_in in refl,
      unfold step in simp (get-set_field, eq_refl),
      unfold replace_in in
          ap (λ f. ok (obj f)) (set-set_field tok w v fs ∙ set_field_self tok w fs e),
    )
