-- ===== src/Pointer.antt =====
-- The JSON pointer functions of src/sampling/plan_scaler.py. A document is a value here: where the code
-- changes the parent container in place, `write_back` puts the changed parent at its address.
pub mod Walk
pub mod LastToken
pub mod Parent
pub mod Laws
use Prim.Native.Char.{Char, code}
use llm_evolutionary_samplin.Prelude.{
  ℕ, ℤ, pos, negsuc, String, Bool, true, false, ◌&&◌, Option, none, some, List, [], ◌∷◌, Result, ok,
  err, ◌>>=◌, or_raise, ◌==◌, string_eq, nat_eq, if◌then◌else◌, ltb, leb, parse_int, ◌≡◌, refl,
}
use llm_evolutionary_samplin.Error.{Error, Reason, plan_transfer, attribute_error}
use llm_evolutionary_samplin.Json.{Json, null, bool, int, float, str, arr, obj, Items, Fields}
use llm_evolutionary_samplin.Json.Objects.{
  get_field, set_field, del_field, has_field, get_item, set_item, insert_item, pop_item,
  count_items,
}

-- One `.replace("~d", by)`.
replace_tilde : ℕ → Char → String → String
replace_tilde d by String.[] = String.[]
replace_tilde d by (String.◌∷◌ c String.[]) = String.◌∷◌ c String.[]
replace_tilde d by (String.◌∷◌ c (String.◌∷◌ c' s)) =
    let replaced = String.◌∷◌ by (replace_tilde d by s) in
    let kept = String.◌∷◌ c (replace_tilde d by (String.◌∷◌ c' s)) in
    if code c == b'~' && code c' == d then replaced else kept

unfoldable pub json_pointer_unescape : String → String
unfolding replace_tilde
json_pointer_unescape token = replace_tilde b'0' "~" (replace_tilde b'1' "/" token)

cons_head : Char → List String → List String
cons_head c [] = []
cons_head c (t ∷ ts) = String.◌∷◌ c t ∷ ts

-- `s.split("/")`
split_slash : String → List String
unfolding cons_head
split_slash String.[] = "" ∷ []
split_slash (String.◌∷◌ c s) =
    let rest = split_slash s in if code c == b'/' then "" ∷ rest else cons_head c rest

unescape_all : List String → List String
unfolding json_pointer_unescape
unescape_all [] = []
unescape_all (p ∷ ps) = json_pointer_unescape p ∷ unescape_all ps

split_text : String → Result Error (List String)
unfolding split_slash unescape_all
split_text String.[] = ok []
split_text (String.◌∷◌ c s) =
    if code c == b'/'
    then ok (unescape_all (split_slash s))
    else err (plan_transfer Reason.invalid_json_pointer)

-- A pointer that is no string has no `startswith`.
unfoldable pub json_pointer_split : Json → Result Error (List String)
unfolding split_text
json_pointer_split (str s) = split_text s
json_pointer_split _ = err attribute_error

-- What a walk raises: the texts differ between the two walks.
pub record Messages : Type 0 where
  pub not_found : Reason
  pub dash : Reason
  pub bad_index : Reason
  pub out_of_bounds : Reason
  pub non_container : Reason

-- `idx < 0 or idx >= n`
abbrev pub index_below : ℤ → ℕ → Option ℕ
index_below (pos i) n = if ltb i n then some i else none
index_below (negsuc i) n = none

-- `idx < 0 or idx > n`
abbrev pub index_up_to : ℤ → ℕ → Option ℕ
index_up_to (pos i) n = if leb i n then some i else none
index_up_to (negsuc i) n = none

-- The list index that a token names, among `n` elements.
unfoldable pub index_of : String → ℕ → Option ℕ
index_of tok n = elim (parse_int tok) [ none ↦ none | some idx ↦ index_below idx n ]

unfoldable pub step : Messages → Json → String → Result Error Json
step m (obj fs) tok = or_raise (get_field tok fs) (plan_transfer m.not_found)
step m (arr xs) tok = if tok == "-" then err (plan_transfer m.dash) else do
  idx ← or_raise (parse_int tok) (plan_transfer m.bad_index)
  i ← or_raise (index_below idx (count_items xs)) (plan_transfer m.out_of_bounds)
  or_raise (get_item i xs) (plan_transfer m.out_of_bounds)
step m _ tok = err (plan_transfer m.non_container)

-- The `for tok in parts` loop.
unfoldable pub walk : Messages → Json → List String → Result Error Json
walk m cur [] = ok cur
walk m cur (tok ∷ toks) = do next ← step m cur tok; walk m next toks

abbrev pub resolving : Messages
resolving = record {
  not_found = Reason.path_not_found;
  dash = Reason.dash_in_middle;
  bad_index = Reason.invalid_list_index;
  out_of_bounds = Reason.list_index_oob;
  non_container = Reason.non_container;
}

abbrev pub getting : Messages
getting = record {
  not_found = Reason.get_path_not_found;
  dash = Reason.get_invalid_list_index;
  bad_index = Reason.get_invalid_list_index;
  out_of_bounds = Reason.get_list_index_oob;
  non_container = Reason.get_non_container;
}

-- A place in a document: the tokens that lead to the parent, the parent, and the last token.
pub record Place : Type 0 where
  pub address : List String
  pub parent : Json
  pub token : String

-- `parts[:-1]` and `parts[-1]`
unfoldable pub split_last : String → List String → List String × String
split_last t [] = ([], t)
split_last t (u ∷ us) = let rest = split_last u us in (t ∷ rest.0, rest.1)

unfoldable pub place_of : Json → List String → Result Error (Option Place)
place_of doc [] = ok none
place_of doc (t ∷ ts) =
    let (address, token) = split_last t ts in
    do
      parent ← walk resolving doc address
      ok (some (record { address = address; parent = parent; token = token }))

unfoldable pub json_pointer_resolve_parent : Json → Json → Result Error (Option Place)
json_pointer_resolve_parent doc ptr = do parts ← json_pointer_split ptr; place_of doc parts

unfoldable pub json_pointer_get : Json → Json → Result Error Json
json_pointer_get doc ptr = do parts ← json_pointer_split ptr; walk getting doc parts

-- The document after the object at an address was changed to `new` in place.
unfoldable pub write_back : Json → Json → List String → Json
write_back new doc [] = new
write_back new (obj fs) (tok ∷ toks) = elim (get_field tok fs) [
  | none ↦ obj fs
  | some child ↦ obj (set_field tok (write_back new child toks) fs)
]
write_back new (arr xs) (tok ∷ toks) = elim (index_of tok (count_items xs)) [
  | none ↦ arr xs
  | some i ↦ elim (get_item i xs) [
    | none ↦ arr xs
    | some child ↦ arr (set_item i (write_back new child toks) xs)
  ]
]
write_back new doc (tok ∷ toks) = doc

-- A pointer that is the empty string names the whole document.
abbrev pub is_root : Json → Bool
is_root (str s) = s == ""
is_root _ = false

-- What each operation does to the parent container.
unfoldable pub add_to : Json → String → Json → Result Error Json
add_to (obj fs) tok value = ok (obj (set_field tok value fs))
add_to (arr xs) tok value =
    if tok == "-" then ok (arr (insert_item (count_items xs) value xs)) else do
      idx ← or_raise (parse_int tok) (plan_transfer Reason.add_invalid_list_index)
      i ← or_raise (index_up_to idx (count_items xs)) (plan_transfer Reason.add_list_index_oob)
      ok (arr (insert_item i value xs))
add_to _ tok value = err (plan_transfer Reason.add_parent_non_container)

unfoldable pub remove_from : Json → String → Result Error Json
remove_from (obj fs) tok =
    if has_field tok fs
    then ok (obj (del_field tok fs))
    else err (plan_transfer Reason.remove_path_not_found)
remove_from (arr xs) tok =
    if tok == "-" then err (plan_transfer Reason.remove_invalid_list_index) else do
      idx ← or_raise (parse_int tok) (plan_transfer Reason.remove_invalid_list_index)
      i ← or_raise (index_below idx (count_items xs)) (plan_transfer Reason.remove_list_index_oob)
      ok (arr (pop_item i xs))
remove_from _ tok = err (plan_transfer Reason.remove_parent_non_container)

unfoldable pub replace_in : Json → String → Json → Result Error Json
replace_in (obj fs) tok value = ok (obj (set_field tok value fs))
replace_in (arr xs) tok value =
    if tok == "-" then err (plan_transfer Reason.replace_invalid_list_index) else do
      idx ← or_raise (parse_int tok) (plan_transfer Reason.replace_invalid_list_index)
      i ← or_raise (index_below idx (count_items xs)) (plan_transfer Reason.replace_list_index_oob)
      ok (arr (set_item i value xs))
replace_in _ tok value = err (plan_transfer Reason.replace_parent_non_container)

-- A change of the parent, seen from the document. No parent is no container.
unfoldable pub change_parent :
    Json → Option Place → Reason → (Json → String → Result Error Json) → Result Error Json
change_parent doc none reason change = err (plan_transfer reason)
change_parent doc (some place) reason change = do
  parent' ← change place.parent place.token
  ok (write_back parent' doc place.address)

unfoldable pub json_pointer_add : Json → Json → Json → Result Error Json
json_pointer_add doc ptr value = if is_root ptr then ok value else do
  place ← json_pointer_resolve_parent doc ptr
  change_parent doc place Reason.add_parent_non_container (λ p tok. add_to p tok value)

unfoldable pub json_pointer_remove : Json → Json → Result Error Json
json_pointer_remove doc ptr =
    if is_root ptr then err (plan_transfer Reason.remove_root_not_allowed) else do
      place ← json_pointer_resolve_parent doc ptr
      change_parent doc place Reason.remove_parent_non_container remove_from

-- The path must exist.
unfoldable pub json_pointer_replace : Json → Json → Json → Result Error Json
json_pointer_replace doc ptr value = if is_root ptr then ok value else do
  existing ← json_pointer_get doc ptr
  place ← json_pointer_resolve_parent doc ptr
  change_parent doc place Reason.replace_parent_non_container (λ p tok. replace_in p tok value)

split_runs : json_pointer_split (str "/a~1b/~01//c") ≡ ok ("a/b" ∷ "~1" ∷ "" ∷ "c" ∷ [])
unfolding json_pointer_split
split_runs = refl
