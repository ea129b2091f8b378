-- ===== src/Tests/Pointers.antt =====
-- Pointers and patches on a small document.
use llm_evolutionary_samplin.Prelude.{
  String, ◌≡◌, ◌≢◌, refl, [], ◌∷◌, ◌++◌, ok, err, some, inl, subst, parse_int, is_digit, string_eq,
}
use llm_evolutionary_samplin.Error.{Reason, plan_transfer}
use llm_evolutionary_samplin.Json.{Json, str, obj, arr, nil, cons, Fields, end, field}
use llm_evolutionary_samplin.Json.Objects.{
  get_field, has_field, set_field, del_field, get_item, set_item, pop_item,
}
use llm_evolutionary_samplin.Pointer.{
  json_pointer_unescape, json_pointer_split, index_of, step, walk, resolving, split_last, place_of,
  json_pointer_resolve_parent, json_pointer_get, write_back, add_to, remove_from, change_parent,
  json_pointer_add, json_pointer_remove, json_pointer_replace,
}
use llm_evolutionary_samplin.Pointer.Laws.{
  get-add, remove-add, replace-get, ReplaceWorks, replace-get_raises,
}
use llm_evolutionary_samplin.Pointer.Parent.{IsNew}
use llm_evolutionary_samplin.Patch.{apply_named}
use llm_evolutionary_samplin.Patch.Laws.{get-move_copy}
use llm_evolutionary_samplin.Tests.Plans.{no_floats, number}

abbrev doc : Json
doc = obj (field "a/b" (obj (field "x" (number 1) end)) (field "c" (arr (cons (number 5) nil)) end))

abbrev ptr : Json
ptr = str "/a~1b/y"

abbrev doc' : Json
doc' = obj (
    field "a/b" (obj (field "x" (number 1) (field "y" (number 2) end)))
      (field "c" (arr (cons (number 5) nil)) end))

ptr_split : json_pointer_split ptr ≡ ok (("a/b" ∷ []) ++ "y" ∷ [])
unfolding json_pointer_split json_pointer_unescape
ptr_split = refl

added : json_pointer_add doc ptr (number 2) ≡ ok doc'
unfolding json_pointer_add change_parent json_pointer_resolve_parent place_of json_pointer_split
    json_pointer_unescape split_last walk step add_to write_back get_field has_field set_field
added = refl

abbrev y : String
y = "y"

abbrev dash : String
dash = "-"

y_not_dash : y ≢ dash
y_not_dash e = cc e

get-add_example : json_pointer_get doc' ptr ≡ ok (number 2)
get-add_example = get-add ptr ("a/b" ∷ []) "y" ptr_split doc (number 2) y_not_dash added

y-IsNew : (p : Json) → walk resolving doc ("a/b" ∷ []) ≡ ok p → IsNew p "y"
unfolding walk step get_field
y-IsNew p h =
    let one : obj (field "x" (number 1) end) ≡ p = cc h in subst (λ q. IsNew q "y") one refl

remove-add_example : json_pointer_remove doc' ptr ≡ ok doc
remove-add_example =
    remove-add ptr ("a/b" ∷ []) "y" ptr_split doc (number 2) y_not_dash y-IsNew added

abbrev first_item : Json
first_item = str "/c/0"

got : json_pointer_get doc first_item ≡ ok (number 5)
unfolding json_pointer_get json_pointer_split json_pointer_unescape walk step index_of get_field
    get_item parse_int is_digit
got = refl

replace-get_example : ReplaceWorks doc first_item (number 7) (number 5)
replace-get_example = replace-get doc first_item (number 7) (number 5) got

not_got : json_pointer_get doc (str "/c/1") ≡ err (plan_transfer Reason.get_list_index_oob)
unfolding json_pointer_get json_pointer_split json_pointer_unescape walk step index_of get_field
    get_item parse_int is_digit
not_got = refl

replace-get_raises_example :
    json_pointer_replace doc (str "/c/1") (number 7) ≡ err (plan_transfer Reason.get_list_index_oob)
replace-get_raises_example =
    replace-get_raises doc (str "/c/1") (number 7) (plan_transfer Reason.get_list_index_oob) not_got

abbrev remove_x : Json
remove_x = obj (field "op" (str "remove") (field "path" (str "/a~1b/x") end))

abbrev move_op : Fields
move_op = field "op" (str "move") (field "from" (str "/c/0") (field "path" ptr end))

abbrev after_move : Json
after_move =
    obj (
      field "a/b" (obj (field "x" (number 1) (field "y" (number 5) end))) (field "c" (arr nil) end))

moved : apply_named no_floats 0 doc (str "move") ptr move_op ≡ ok after_move
unfolding apply_named json_pointer_get json_pointer_remove remove_from pop_item get_item index_of
    json_pointer_add change_parent json_pointer_resolve_parent place_of json_pointer_split
    json_pointer_unescape split_last walk step add_to write_back get_field has_field set_field
    set_item del_field parse_int is_digit
moved = refl

get-move_copy_example :
    (from : Json) × (w : Json) × (get_field "from" move_op ≡ some from)
    × (json_pointer_get doc from ≡ ok w)
    × (json_pointer_get after_move ptr ≡ ok w)
get-move_copy_example =
    get-move_copy no_floats 0 doc ptr move_op ("a/b" ∷ []) "y" ptr_split y_not_dash "move"
      (inl refl) moved
