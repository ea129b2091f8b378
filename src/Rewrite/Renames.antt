-- ===== src/Rewrite/Renames.antt =====
-- The references of a rewritten value are the renamed references of the value.
use llm_evolutionary_samplin.Prelude.{
  ℤ, String, ◌≡◌, refl, ap, sym, ◌∙◌, Bool, true, false, ◌&&◌, Option, none, some, List, [], ◌∷◌,
  ◌++◌, ◌==◌, string_eq, int_eq, if◌then◌else◌, arith, Bool-cases, Option-cases, inl, inr, ◌⊎◌,
  beq→eq, all,
}
use llm_evolutionary_samplin.Prelude.Dict.{Dict}
use llm_evolutionary_samplin.Json.{
  Json, null, bool, int, float, str, arr, obj, Items, nil, cons, Fields, end, field, items,
}
use llm_evolutionary_samplin.Refs.{
  is_scalar_key, is_list_key, is_intish, to_int, ints_of, direct_refs, refs_of, refs_in_items,
  refs_in_fields, or_else, tag, some_list,
}
use llm_evolutionary_samplin.Refs.Ints.{intish_to_int, other_to_int}
use llm_evolutionary_samplin.Rewrite.{
  renamed, int_or, map_ref, map_refs, rewrite_entry, rewrite_obj, rewrite_items, rewrite_fields,
}

-- No reference stands below a value that an `input`, `left` or `right` key holds and that is no id.
abbrev pub IsFlatAt : String → Json → Type 0
IsFlatAt k v = is_scalar_key k ≡ true → is_intish v ≡ false → refs_of v ≡ []

abbrev mutual
  pub IsFlat : Json → Type 0
  IsFlat (obj fs) = FieldsFlat fs
  IsFlat (arr xs) = ItemsFlat xs
  IsFlat null = Unit
  IsFlat (bool b) = Unit
  IsFlat (int n) = Unit
  IsFlat (float b) = Unit
  IsFlat (str s) = Unit

  pub ItemsFlat : Items → Type 0
  ItemsFlat nil = Unit
  ItemsFlat (cons x xs) = IsFlat x × ItemsFlat xs

  pub FieldsFlat : Fields → Type 0
  FieldsFlat end = Unit
  FieldsFlat (field k v fs) = IsFlatAt k v × IsFlat v × FieldsFlat fs

abbrev pub id_or : ℤ → Option ℤ → ℤ
id_or r none = r
id_or r (some n) = n

-- No key is in both sets.
scalar-ne-list : (k : String) → is_scalar_key k ≡ true → is_list_key k ≡ false
unfolding is_scalar_key is_list_key
scalar-ne-list k h = elim (Bool-cases (k == "input")) [
  | inl e ↦ rw (beq→eq k "input" e) refl
  | inr n ↦ elim (Bool-cases (k == "left")) [
    | inl e ↦ rw (beq→eq k "left" e) refl
    | inr m ↦ let e : (k == "right") ≡ true = ground arith in rw (beq→eq k "right" e) refl
  ]
]

choose_true : {b : Bool} (x y : Json) → b ≡ true → (if b then x else y) ≡ x
choose_true x y h = rw h

choose_false : {b : Bool} (x y : Json) → b ≡ false → (if b then x else y) ≡ y
choose_false x y h = rw h

module _ (internal scans : Dict ℤ ℤ) where
  -- The id that a reference has afterwards: the new id of the node or the scan, or the old one.
  abbrev pub rename : ℤ → ℤ
  rename r = id_or r (renamed internal scans r)

  abbrev pub rename_all : List ℤ → List ℤ
  rename_all [] = []
  rename_all (r ∷ rs) = rename r ∷ rename_all rs

  abbrev pub rename_refs : List (String × ℤ) → List (String × ℤ)
  rename_refs [] = []
  rename_refs ((k, r) ∷ rs) = (k, rename r) ∷ rename_refs rs

  abbrev rename_option : Option (List ℤ) → Option (List ℤ)
  rename_option none = none
  rename_option (some rs) = some (rename_all rs)

  rename_refs-append :
      (xs ys : List (String × ℤ)) → rename_refs (xs ++ ys) ≡ rename_refs xs ++ rename_refs ys
  rename_refs-append [] ys = refl
  rename_refs-append ((k, r) ∷ xs) ys = ap (λ l. (k, rename r) ∷ l) (rename_refs-append xs ys)

  rename_all-append : (xs ys : List ℤ) → rename_all (xs ++ ys) ≡ rename_all xs ++ rename_all ys
  rename_all-append [] ys = refl
  rename_all-append (r ∷ xs) ys = ap (λ l. rename r ∷ l) (rename_all-append xs ys)

  rename-tag : (k : String) (rs : List ℤ) → tag k (rename_all rs) ≡ rename_refs (tag k rs)
  rename-tag k [] = refl
  rename-tag k (r ∷ rs) = ap (λ l. (k, rename r) ∷ l) (rename-tag k rs)

  abbrev rename_one : Option ℤ → Option ℤ
  rename_one none = none
  rename_one (some r) = some (rename r)

  to_int-int_or :
      (v : Json) (r : ℤ) (o : Option ℤ) → to_int v ≡ some r → to_int (int_or v o) ≡ some (id_or r o)
  to_int-int_or v r none h = h
  to_int-int_or v r (some n) h = unfold to_int in refl

  map_ref_other : (v : Json) → to_int v ≡ none → map_ref internal scans v ≡ v
  unfolding map_ref
  map_ref_other v h = ground arith

  map_ref-some :
      (v : Json) (r : ℤ)
      → to_int v ≡ some r
      → map_ref internal scans v ≡ int_or v (renamed internal scans r)
  unfolding map_ref
  map_ref-some v r h = ground arith

  to_int-map_ref : (v : Json) → to_int (map_ref internal scans v) ≡ rename_one (to_int v)
  to_int-map_ref v = elim (Option-cases (to_int v)) [
    | inl absent ↦ ap to_int (map_ref_other v absent) ∙ absent ∙ ap rename_one (sym absent)
    | inr (r, found) ↦
        ap to_int (map_ref-some v r found)
        ∙ to_int-int_or v r (renamed internal scans r) found
        ∙ ap rename_one (sym found)
  ]

  is_intish-int_or : (v : Json) (o : Option ℤ) → is_intish v ≡ true → is_intish (int_or v o) ≡ true
  is_intish-int_or v none h = h
  is_intish-int_or v (some n) h = unfold is_intish in refl

  is_intish-map_ref : (v : Json) → is_intish (map_ref internal scans v) ≡ is_intish v
  is_intish-map_ref v = elim (Bool-cases (is_intish v)) [
    | inl yes_int ↦
        let (r, e) = intish_to_int v yes_int in
        ap is_intish (map_ref-some v r e)
        ∙ is_intish-int_or v (renamed internal scans r) yes_int
        ∙ sym yes_int
    | inr other ↦ ap is_intish (map_ref_other v (other_to_int v other))
  ]

  all-map_refs :
      (xs : Items) → all is_intish (items (map_refs internal scans xs)) ≡ all is_intish (items xs)
  unfolding map_refs
  all-map_refs nil = refl
  all-map_refs (cons x xs) = ground (arith, is_intish-map_ref x, all-map_refs xs)

  some_list-rename : (o : Option ℤ) → some_list (rename_one o) ≡ rename_all (some_list o)
  some_list-rename none = refl
  some_list-rename (some r) = refl

  ints_of-map_refs :
      (xs : Items) → ints_of (items (map_refs internal scans xs)) ≡ rename_all (ints_of (items xs))
  unfolding map_refs ints_of
  ints_of-map_refs nil = refl
  ints_of-map_refs (cons x xs) =
      ap (λ o. some_list o ++ ints_of (items (map_refs internal scans xs))) (to_int-map_ref x)
      ∙ ap (λ l. l ++ ints_of (items (map_refs internal scans xs))) (some_list-rename (to_int x))
      ∙ ap (λ l. rename_all (some_list (to_int x)) ++ l) (ints_of-map_refs xs)
      ∙ sym (rename_all-append (some_list (to_int x)) (ints_of (items xs)))

  is_intish-rewrite_obj : (v : Json) → is_intish (rewrite_obj internal scans v) ≡ is_intish v
  unfolding is_intish rewrite_obj
  is_intish-rewrite_obj null = refl
  is_intish-rewrite_obj _ = refl

  all-rewrite_items :
      (xs : Items)
      → all is_intish (items (rewrite_items internal scans xs)) ≡ all is_intish (items xs)
  unfolding rewrite_items
  all-rewrite_items nil = refl
  all-rewrite_items (cons x xs) = ground (arith, is_intish-rewrite_obj x, all-rewrite_items xs)

  -- The test for a single reference, which only a list escapes.
  abbrev scalar_refs : String → Json → Option (List ℤ)
  scalar_refs k v = if is_scalar_key k && is_intish v then some (some_list (to_int v)) else none

  scalar_none : (k : String) (v : Json) → is_scalar_key k ≡ false → scalar_refs k v ≡ none
  scalar_none k v h = ground arith

  direct-int_or :
      (k : String) (v : Json) (o : Option ℤ)
      → direct_refs k v ≡ scalar_refs k v
      → direct_refs k (int_or v o) ≡ scalar_refs k (int_or v o)
  direct-int_or k v none h = h
  direct-int_or k v (some n) h = unfold direct_refs in refl

  direct-map_ref :
      (k : String) (v : Json)
      → direct_refs k v ≡ scalar_refs k v
      → direct_refs k (map_ref internal scans v) ≡ scalar_refs k (map_ref internal scans v)
  direct-map_ref k v h = elim (Option-cases (to_int v)) [
    | inl absent ↦ rw (map_ref_other v absent) h
    | inr (r, found) ↦ rw (map_ref-some v r found) (direct-int_or k v (renamed internal scans r) h)
  ]

  scalar-map_ref :
      (k : String) (v : Json)
      → scalar_refs k (map_ref internal scans v) ≡ rename_option (scalar_refs k v)
  scalar-map_ref k v =
      ground (arith, is_intish-map_ref v, to_int-map_ref v, some_list-rename (to_int v))

  -- What an entry holds itself, before and after.
  direct-rewrite_other :
      (k : String) (v : Json)
      → ((w : Json)
          → rewrite_entry internal scans k v w
            ≡ (if is_scalar_key k then map_ref internal scans v else w))
      → direct_refs k v ≡ scalar_refs k v
      → direct_refs k (rewrite_obj internal scans v) ≡ scalar_refs k (rewrite_obj internal scans v)
      → direct_refs k (rewrite_entry internal scans k v (rewrite_obj internal scans v))
        ≡ rename_option (direct_refs k v)
  direct-rewrite_other k v entry here there = elim (Bool-cases (is_scalar_key k)) [
    | inl scalar ↦
        ap (direct_refs k) (entry (rewrite_obj internal scans v) ∙ rw scalar refl)
        ∙ direct-map_ref k v here
        ∙ scalar-map_ref k v
        ∙ ap rename_option (sym here)
    | inr other ↦
        ap (direct_refs k) (entry (rewrite_obj internal scans v) ∙ rw other refl)
        ∙ there
        ∙ scalar_none k (rewrite_obj internal scans v) other
        ∙ ap rename_option (sym (here ∙ scalar_none k v other))
  ]

  direct-rewrite_arr :
      (k : String) (xs : Items)
      → direct_refs k
          (rewrite_entry internal scans k (arr xs) (rewrite_obj internal scans (arr xs)))
        ≡ rename_option (direct_refs k (arr xs))
  unfolding direct_refs rewrite_entry rewrite_obj map_ref to_int
  direct-rewrite_arr k xs =
      ground (arith, all-map_refs xs, all-rewrite_items xs, ints_of-map_refs xs, scalar-ne-list k)

  abbrev rewritten : String → Json → Json
  rewritten k v = rewrite_entry internal scans k v (rewrite_obj internal scans v)

  direct-rewrite :
      (k : String) (v : Json) → direct_refs k (rewritten k v) ≡ rename_option (direct_refs k v)
  unfolding direct_refs rewrite_obj rewrite_entry
  direct-rewrite k (arr xs) = direct-rewrite_arr k xs
  direct-rewrite k null = direct-rewrite_other k null (λ w. refl) refl refl
  direct-rewrite k (bool b) = direct-rewrite_other k (bool b) (λ w. refl) refl refl
  direct-rewrite k (int n) = direct-rewrite_other k (int n) (λ w. refl) refl refl
  direct-rewrite k (float b) = direct-rewrite_other k (float b) (λ w. refl) refl refl
  direct-rewrite k (str s) = direct-rewrite_other k (str s) (λ w. refl) refl refl
  direct-rewrite k (obj fs) = direct-rewrite_other k (obj fs) (λ w. refl) refl refl

  -- Where the walk descends, either the key is scalar and the value is left as it is, or the value is
  -- rewritten below.
  shape_other :
      (k : String) (v : Json)
      → is_intish v ≡ false
      → ((w : Json)
          → rewrite_entry internal scans k v w
            ≡ (if is_scalar_key k then map_ref internal scans v else w))
      → ((is_scalar_key k ≡ true) × (is_intish v ≡ false) × (rewritten k v ≡ v))
        ⊎ (rewritten k v ≡ rewrite_obj internal scans v)
  shape_other k v plain entry = elim (Bool-cases (is_scalar_key k)) [
    | inl scalar ↦ inl (
      scalar,
      plain,
      entry (rewrite_obj internal scans v)
          ∙ choose_true _ _ scalar
          ∙ map_ref_other v (other_to_int v plain),
    )
    | inr other ↦ inr (entry (rewrite_obj internal scans v) ∙ choose_false _ _ other)
  ]

  intish_shape :
      (k : String) (v : Json)
      → is_intish v ≡ true
      → ((w : Json)
          → rewrite_entry internal scans k v w
            ≡ (if is_scalar_key k then map_ref internal scans v else w))
      → scalar_refs k v ≡ none
      → rewritten k v ≡ rewrite_obj internal scans v
  intish_shape k v num entry h = elim (Bool-cases (is_scalar_key k)) [
    | inl scalar ↦ absurd (ground arith)
    | inr other ↦ entry (rewrite_obj internal scans v) ∙ choose_false _ _ other
  ]

  entry_shape :
      (k : String) (v : Json)
      → direct_refs k v ≡ none
      → ((is_scalar_key k ≡ true) × (is_intish v ≡ false) × (rewritten k v ≡ v))
        ⊎ (rewritten k v ≡ rewrite_obj internal scans v)
  unfolding direct_refs rewrite_entry rewrite_obj
  entry_shape k (arr xs) h = elim (Bool-cases (is_scalar_key k)) [
    | inl scalar ↦ inl (
      scalar,
      unfold is_intish in refl,
      rw scalar (map_ref_other (arr xs) (unfold to_int in refl)),
    )
    | inr other ↦ inr (ground arith)
  ]
  entry_shape k null h = shape_other k null (unfold is_intish in refl) (λ w. refl)
  entry_shape k (bool b) h = inr (intish_shape k (bool b) (unfold is_intish in refl) (λ w. refl) h)
  entry_shape k (int n) h = inr (intish_shape k (int n) (unfold is_intish in refl) (λ w. refl) h)
  entry_shape k (float b) h = shape_other k (float b) (unfold is_intish in refl) (λ w. refl)
  entry_shape k (str s) h = elim (Bool-cases (is_intish (str s))) [
    | inl num ↦ inr (intish_shape k (str s) num (λ w. refl) h)
    | inr text ↦ shape_other k (str s) text (λ w. refl)
  ]
  entry_shape k (obj fs) h = shape_other k (obj fs) (unfold is_intish in refl) (λ w. refl)

  entry_refs :
      (k : String) (v : Json)
      → IsFlatAt k v
      → refs_of (rewrite_obj internal scans v) ≡ rename_refs (refs_of v)
      → or_else (direct_refs k (rewritten k v)) k (refs_of (rewritten k v))
        ≡ rename_refs (or_else (direct_refs k v) k (refs_of v))
  entry_refs k v flat ih = elim (Option-cases (direct_refs k v)) [
    | inr (rs, found) ↦ rw (direct-rewrite k v) (rw found (rename-tag k rs))
    | inl absent ↦ rw (direct-rewrite k v) (
        rw absent (elim (entry_shape k v absent) [
          | inl (scalar, other, same) ↦
              ap refs_of same ∙ flat scalar other ∙ ap rename_refs (sym (flat scalar other))
          | inr deeper ↦ ap refs_of deeper ∙ ih
        ]))
  ]

  mutual
    unfolding rewrite_obj refs_of

    flat_refs :
        (v : Json) → IsFlat v → refs_of (rewrite_obj internal scans v) ≡ rename_refs (refs_of v)
    flat_refs (obj fs) h = flat_field_refs fs h
    flat_refs (arr xs) h = flat_item_refs xs h
    flat_refs null h = refl
    flat_refs (bool b) h = refl
    flat_refs (int n) h = refl
    flat_refs (float b) h = refl
    flat_refs (str s) h = refl

    flat_item_refs :
        (xs : Items)
        → ItemsFlat xs
        → refs_in_items (rewrite_items internal scans xs) ≡ rename_refs (refs_in_items xs)
    flat_item_refs nil h = refl
    flat_item_refs (cons x xs) h =
        ap (λ l. l ++ refs_in_items (rewrite_items internal scans xs)) (flat_refs x h.0)
        ∙ ap (λ l. rename_refs (refs_of x) ++ l) (flat_item_refs xs h.1)
        ∙ sym (rename_refs-append (refs_of x) (refs_in_items xs))

    flat_field_refs :
        (fs : Fields)
        → FieldsFlat fs
        → refs_in_fields (rewrite_fields internal scans fs) ≡ rename_refs (refs_in_fields fs)
    flat_field_refs end h = refl
    flat_field_refs (field k v fs) h =
        ap (λ l. l ++ refs_in_fields (rewrite_fields internal scans fs))
          (entry_refs k v h.0 (flat_refs v h.1))
        ∙ ap (λ l. rename_refs (or_else (direct_refs k v) k (refs_of v)) ++ l)
            (flat_field_refs fs h.2)
        ∙ sym (rename_refs-append (or_else (direct_refs k v) k (refs_of v)) (refs_in_fields fs))

  -- Rewriting renames exactly the references: if no reference stands below a value that an `input`, `left`
  -- or `right` key holds and that is no id, then the references of the rewritten value are those of the
  -- value, each under its key, in the same order and with its new id.
  pub refs-rewrite_obj :
      (v : Json) → IsFlat v → refs_of (rewrite_obj internal scans v) ≡ rename_refs (refs_of v)
  refs-rewrite_obj v h = flat_refs v h
