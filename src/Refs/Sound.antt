-- ===== src/Refs/Sound.antt =====
-- What a validated structure guarantees, by a description of references that is independent of the walk.
use llm_evolutionary_samplin.Prelude.{
  ℤ, String, ◌≡◌, refl, ap, ◌∙◌, true, none, some, List, [], ◌∷◌, ◌++◌, ◌==◌, nat_eq, int_eq,
  int_beq_iff, string_eq, arith, Bool-cases, inl, inr, ◌⊎◌, contains, all, length, select, ok,
  contains-append, eq_refl, is_digit, >>=-eq-ok,
}
use llm_evolutionary_samplin.Json.{
  Json, null, bool, int, float, str, arr, obj, Items, nil, cons, Fields, end, field, items,
}
use llm_evolutionary_samplin.Json.Objects.{count_fields}
use llm_evolutionary_samplin.Refs.{
  is_scalar_key, is_list_key, is_intish, to_int, ints_of, direct_refs, refs_of, refs_in_items,
  refs_in_fields, plan_refs, or_else, tag, targets, some_list, internal_ids, bad_refs, is_dangling,
  validate_references, validate_node, validate_nodes, validate_structure_dict,
}

-- An object has the entry `k: v`; a list has the element `x`.
pub data FieldIn (k : String) (v : Json) : Fields → Type 0 where
  first : {fs : Fields} → FieldIn k v (field k v fs)
  later : {j : String} {w : Json} {fs : Fields} → FieldIn k v fs → FieldIn k v (field j w fs)

pub data ItemIn (x : Json) : Items → Type 0 where
  head : {xs : Items} → ItemIn x (cons x xs)
  tail : {y : Json} {xs : Items} → ItemIn x xs → ItemIn x (cons y xs)

-- `r` is referred to somewhere in a value: by an entry `input`, `left` or `right` that holds an id, by an
-- id in a list under `inputs` or `children`, or deeper.
pub data Refers (r : ℤ) : Json → Type 0 where
  by_scalar :
      {fs : Fields} (k : String) (v : Json)
      → FieldIn k v fs
      → is_scalar_key k ≡ true
      → is_intish v ≡ true
      → to_int v ≡ some r
      → Refers r (obj fs)
  by_list :
      {fs : Fields} (k : String) (xs : Items) (x : Json)
      → FieldIn k (arr xs) fs
      → is_list_key k ≡ true
      → all is_intish (items xs) ≡ true
      → ItemIn x xs
      → to_int x ≡ some r
      → Refers r (obj fs)
  deeper :
      {fs : Fields} (k : String) (v : Json)
      → FieldIn k v fs
      → direct_refs k v ≡ none
      → Refers r v
      → Refers r (obj fs)
  in_list : {xs : Items} (x : Json) → ItemIn x xs → Refers r x → Refers r (arr xs)

targets-append : (xs ys : List (String × ℤ)) → targets (xs ++ ys) ≡ targets xs ++ targets ys
targets-append [] ys = refl
targets-append ((k, r) ∷ xs) ys = ap (λ l. r ∷ l) (targets-append xs ys)

targets-tag : (k : String) (rs : List ℤ) → targets (tag k rs) ≡ rs
targets-tag k [] = refl
targets-tag k (r ∷ rs) = ap (λ l. r ∷ l) (targets-tag k rs)

abbrev Finds : ℤ → List (String × ℤ) → Type 0
Finds r refs = contains (targets refs) r ≡ true

Finds-left : (r : ℤ) (xs ys : List (String × ℤ)) → Finds r xs → Finds r (xs ++ ys)
Finds-left r xs ys h =
    ap (λ l. contains l r) (targets-append xs ys)
    ∙ contains-append (targets xs) (targets ys) r
    ∙ ground arith

Finds-right : (r : ℤ) (xs ys : List (String × ℤ)) → Finds r ys → Finds r (xs ++ ys)
Finds-right r xs ys h =
    ap (λ l. contains l r) (targets-append xs ys)
    ∙ contains-append (targets xs) (targets ys) r
    ∙ ground arith

-- What one entry contributes is found in the whole object.
in_fields :
    (r : ℤ) (k : String) (v : Json) (fs : Fields)
    → FieldIn k v fs
    → Finds r (or_else (direct_refs k v) k (refs_of v))
    → Finds r (refs_in_fields fs)
unfolding refs_in_fields
in_fields r k v end m h = elim m [ ]
in_fields r k v (field _ _ fs) first h = Finds-left r _ (refs_in_fields fs) h
in_fields r k v (field j w fs) (later m) h =
    Finds-right r (or_else (direct_refs j w) j (refs_of w)) (refs_in_fields fs)
      (in_fields r k v fs m h)

in_items :
    (r : ℤ) (x : Json) (xs : Items) → ItemIn x xs → Finds r (refs_of x) → Finds r (refs_in_items xs)
unfolding refs_in_items
in_items r x nil m h = elim m [ ]
in_items r x (cons _ xs) head h = Finds-left r (refs_of x) (refs_in_items xs) h
in_items r x (cons y xs) (tail m) h =
    Finds-right r (refs_of y) (refs_in_items xs) (in_items r x xs m h)

direct-scalar :
    (k : String) (v : Json) (r : ℤ)
    → is_scalar_key k ≡ true
    → is_intish v ≡ true
    → to_int v ≡ some r
    → direct_refs k v ≡ some (r ∷ [])
unfolding direct_refs
direct-scalar k (arr xs) r s i t = unfold is_intish in cc i
direct-scalar k null r s i t = unfold is_intish in cc i
direct-scalar k (bool b) r s i t = ground arith
direct-scalar k (int n) r s i t = ground arith
direct-scalar k (float b) r s i t = unfold is_intish in cc i
direct-scalar k (str c) r s i t = ground arith
direct-scalar k (obj fs) r s i t = unfold is_intish in cc i

direct-list :
    (k : String) (xs : Items)
    → is_list_key k ≡ true
    → all is_intish (items xs) ≡ true
    → direct_refs k (arr xs) ≡ some (ints_of (items xs))
unfolding direct_refs
direct-list k xs l i = ground arith

contains-ints_of :
    (x : Json) (r : ℤ) (xs : Items)
    → ItemIn x xs
    → to_int x ≡ some r
    → contains (ints_of (items xs)) r ≡ true
unfolding ints_of
contains-ints_of x r nil m t = elim m [ ]
contains-ints_of x r (cons _ xs) head t = ground (arith, t, eq_refl r)
contains-ints_of x r (cons y xs) (tail m) t =
    contains-append (some_list (to_int y)) (ints_of (items xs)) r
    ∙ ground (arith, contains-ints_of x r xs m t)

entry-Finds :
    (r : ℤ) (k : String) (v : Json) (rs : List ℤ)
    → direct_refs k v ≡ some rs
    → contains rs r ≡ true
    → Finds r (or_else (direct_refs k v) k (refs_of v))
entry-Finds r k v rs d h = rw d (rw targets-tag h)

-- The walk finds every reference.
Refers-found : {r : ℤ} {v : Json} → Refers r v → Finds r (refs_of v)
unfolding refs_of
Refers-found {r} (by_scalar {fs} k v m s i t) =
    in_fields r k v fs m
      (entry-Finds r k v (r ∷ []) (direct-scalar k v r s i t) (ground (arith, eq_refl r)))
Refers-found {r} (by_list {fs} k xs x m l i e t) = in_fields r k (arr xs) fs m (
    entry-Finds r k (arr xs) (ints_of (items xs)) (direct-list k xs l i)
      (contains-ints_of x r xs e t))
Refers-found {r} (deeper {fs} k v m d h) = in_fields r k v fs m (rw d (Refers-found h))
Refers-found {r} (in_list {xs} x e h) = in_items r x xs e (Refers-found h)

in_plan :
    (r : ℤ) (nid : String) (node : Json) (structure : Fields)
    → FieldIn nid node structure
    → Finds r (refs_of node)
    → Finds r (plan_refs structure)
unfolding plan_refs
in_plan r nid node end m h = elim m [ ]
in_plan r nid node (field _ _ fs) first h = Finds-left r _ (plan_refs fs) h
in_plan r nid node (field j w fs) (later m) h =
    Finds-right r (refs_of w) (plan_refs fs) (in_plan r nid node fs m h)

-- Nothing dangles if the list of dangling references is empty.
none_dangling :
    (internal scans : List ℤ) (refs : List (String × ℤ)) (r : ℤ)
    → length (select (is_dangling internal scans) refs) ≡ 0
    → Finds r refs
    → (contains internal r ≡ true) ⊎ (contains scans r ≡ true)
none_dangling internal scans [] r h f = cc
none_dangling internal scans ((k, s) ∷ refs) r h f = elim (Bool-cases (s == r)) [
  | inl same ↦ ground (arith, int_beq_iff s r)
  | inr other ↦ none_dangling internal scans refs r (ground arith) (rw other at f)
]

-- If `_validate_references` accepts a structure, then whatever is referred to in one of its nodes is the id
-- of a node of the structure or one of the given scan ids.
pub validate_references_sound :
    (stage : String) (structure : Fields) (scans : List ℤ)
    → validate_references stage structure scans ≡ ok tt
    → (nid : String) (node : Json) (r : ℤ) → FieldIn nid node structure
    → Refers r node
    → (contains (internal_ids structure) r ≡ true) ⊎ (contains scans r ≡ true)
unfolding validate_references bad_refs
validate_references_sound stage structure scans h nid node r m f =
    none_dangling (internal_ids structure) scans (plan_refs structure) r (ground arith)
      (in_plan r nid node structure m (Refers-found f))

-- A key is a decimal text, and its value an object with exactly one entry.
pub record IsNode (nid : String) (node : Json) : Type 0 where
  pub numeric : is_digit nid ≡ true
  pub operator : Fields
  pub is_object : node ≡ obj operator
  pub single : count_fields operator ≡ 1

validate_node-IsNode :
    (stage nid : String) (node : Json) → validate_node stage nid node ≡ ok tt → IsNode nid node
unfolding validate_node
validate_node-IsNode stage nid (obj fs) h = record {
  numeric = ground arith;
  operator = fs;
  is_object = refl;
  single = ground arith;
}
validate_node-IsNode stage nid null h = absurd (ground arith)
validate_node-IsNode stage nid (bool b) h = absurd (ground arith)
validate_node-IsNode stage nid (int n) h = absurd (ground arith)
validate_node-IsNode stage nid (float b) h = absurd (ground arith)
validate_node-IsNode stage nid (str s) h = absurd (ground arith)
validate_node-IsNode stage nid (arr xs) h = absurd (ground arith)

validate_nodes-IsNode :
    (stage : String) (fs : Fields)
    → validate_nodes stage fs ≡ ok tt
    → (nid : String) (node : Json) → FieldIn nid node fs
    → IsNode nid node
unfolding validate_nodes
validate_nodes-IsNode stage end h nid node m = elim m [ ]
validate_nodes-IsNode stage (field _ _ fs) h nid node first =
    let (u, e, _) = >>=-eq-ok (validate_node stage nid node) (λ _. validate_nodes stage fs) h in
    validate_node-IsNode stage nid node e
validate_nodes-IsNode stage (field k v fs) h nid node (later m) =
    let (u, _, e) = >>=-eq-ok (validate_node stage k v) (λ _. validate_nodes stage fs) h in
    validate_nodes-IsNode stage fs e nid node m

validate_obj_sound :
    (stage : String) (fs structure : Fields)
    → validate_structure_dict stage (obj fs) ≡ ok structure
    → (fs ≡ structure) × (validate_nodes stage fs ≡ ok tt)
unfolding validate_structure_dict
validate_obj_sound stage fs structure h =
    let (u, e, last) = >>=-eq-ok (validate_nodes stage fs) (λ _. ok fs) h in (cc last, e)

-- If `_validate_structure_dict` accepts an object, then every key is a decimal text and every value is an
-- object with exactly one entry.
pub validate_structure_dict-IsNode :
    (stage : String) (fs structure : Fields)
    → validate_structure_dict stage (obj fs) ≡ ok structure
    → (nid : String) (node : Json) → FieldIn nid node fs
    → IsNode nid node
validate_structure_dict-IsNode stage fs structure h =
    validate_nodes-IsNode stage fs (validate_obj_sound stage fs structure h).1
