-- ===== src/Rewrite/Keys.antt =====
-- The keys of a rewritten plan are texts of new ids.
use llm_evolutionary_samplin.Prelude.{
  ℤ, pos, negsuc, String, ◌≡◌, refl, ap, true, false, ◌||◌, some, [], ◌∷◌, ◌++◌, ◌==◌, int_eq,
  string_eq, int_beq_iff, arith, Bool-cases, Option-cases, inl, inr, contains, contains-append, ok,
  guard, or_raise, >>=-eq-ok, is_digit, parse_int, str_ℤ,
}
use llm_evolutionary_samplin.Prelude.Text.RoundTrip.{is_digit-str_ℕ, parse_int-str_ℕ}
use llm_evolutionary_samplin.Prelude.Dict.{Dict, lookup, values}
use llm_evolutionary_samplin.Error.{Reason, plan_transfer, value_error, key_error}
use llm_evolutionary_samplin.Json.{Json, Fields, end, field}
use llm_evolutionary_samplin.Json.Objects.{set_field}
use llm_evolutionary_samplin.Refs.{internal_ids, key_id}
use llm_evolutionary_samplin.Rewrite.{
  old_to_new_key, rewrite_obj, rewrite_node, rewrite_nodes, rewrite_plan_references,
}

-- A write adds at most the id of its key.
internal_ids-set_field :
    (k : String) (v : Json) (fs : Fields) (i : ℤ)
    → contains (internal_ids (set_field k v fs)) i ≡ true
    → (contains (key_id k) i || contains (internal_ids fs) i) ≡ true
unfolding internal_ids set_field
internal_ids-set_field k v end i h = ground (arith, contains-append (key_id k) [] i)
internal_ids-set_field k v (field j w fs) i h = elim (Bool-cases (j == k)) [
  | inl same ↦
      let h' : contains (key_id j ++ internal_ids fs) i ≡ true = rw same at h in ground arith
  | inr other ↦
      let h' : contains (key_id j ++ internal_ids (set_field k v fs)) i ≡ true = rw other at h in
      ground (
        arith,
        contains-append (key_id j) (internal_ids (set_field k v fs)) i,
        contains-append (key_id j) (internal_ids fs) i,
        internal_ids-set_field k v fs i,
      )
]

-- The text of an id names that id, if any.
key_id-str_ℤ : (n i : ℤ) → contains (key_id (str_ℤ n)) i ≡ true → n ≡ i
unfolding str_ℤ
key_id-str_ℤ (pos n) i h =
    ground (arith, is_digit-str_ℕ n, parse_int-str_ℕ n, int_beq_iff (pos n) i)
key_id-str_ℤ (negsuc n) i h = unfold is_digit in cc h

module _ (internal scans : Dict ℤ ℤ) where
  key_id-new_key :
      (m : Dict ℤ ℤ) (old_key new_key : String) (i : ℤ)
      → old_to_new_key internal scans m old_key ≡ some new_key
      → contains (key_id new_key) i ≡ true
      → contains (values m) i ≡ true
  unfolding old_to_new_key
  key_id-new_key [] old_key new_key i e h = cc
  key_id-new_key ((o, n) ∷ m) old_key new_key i e h =
      elim (Option-cases (old_to_new_key internal scans m old_key)) [
        | inr (s, found) ↦ ground (arith, key_id-new_key m old_key s i found)
        | inl absent ↦
            let e' : str_ℤ n ≡ new_key = ground arith in
            let same : n ≡ i = key_id-str_ℤ n i (rw e' h) in ground (arith, int_beq_iff n i)
      ]

  -- One node more.
  rewrite_node_ids :
      (stage : String) (plan plan' : Fields) (k : String) (node : Json) (i : ℤ)
      → rewrite_node internal scans stage plan k node ≡ ok plan'
      → contains (internal_ids plan') i ≡ true
      → (contains (values internal) i || contains (internal_ids plan) i) ≡ true
  unfolding rewrite_node
  rewrite_node_ids stage plan plan' k node i h c =
      let (_, _, h1) =
        >>=-eq-ok (guard (is_digit k) (plan_transfer (Reason.non_numeric_node_id stage k))) _ h in
      let (old, _, h2) = >>=-eq-ok (or_raise (parse_int k) value_error) _ h1 in
      let (found, _, h3) =
        >>=-eq-ok
          (or_raise (lookup old internal) (plan_transfer (Reason.missing_internal_id_map stage k)))
          _ h2 in
      let (new_key, e, last) =
        >>=-eq-ok (or_raise (old_to_new_key internal scans internal k) key_error)
          (λ n. ok (set_field n (rewrite_obj internal scans node) plan)) h3 in
      let same : plan' ≡ set_field new_key (rewrite_obj internal scans node) plan = cc last in
      let c' =
        internal_ids-set_field new_key (rewrite_obj internal scans node) plan i (rw same at c) in
      ground (arith, key_id-new_key internal k new_key i (ground arith))

  rewrite_nodes_ids :
      (stage : String) (plan plan' fs : Fields) (i : ℤ)
      → rewrite_nodes internal scans stage plan fs ≡ ok plan'
      → contains (internal_ids plan') i ≡ true
      → (contains (values internal) i || contains (internal_ids plan) i) ≡ true
  unfolding rewrite_nodes
  rewrite_nodes_ids stage plan plan' end i h c =
      let same : plan' ≡ plan = cc h in ground (arith, ap (λ p. contains (internal_ids p) i) same)
  rewrite_nodes_ids stage plan plan' (field k v fs) i h c =
      let (next, now, later) =
        >>=-eq-ok (rewrite_node internal scans stage plan k v)
          (λ p. rewrite_nodes internal scans stage p fs) h in
      ground (
        arith,
        rewrite_nodes_ids stage next plan' fs i later c,
        rewrite_node_ids stage plan next k v i now,
      )

  -- The node ids of a rewritten plan are new ids.
  pub rewrite_plan_references_ids :
      (plan plan' : Fields) (stage : String) (i : ℤ)
      → rewrite_plan_references internal scans plan stage ≡ ok plan'
      → contains (internal_ids plan') i ≡ true
      → contains (values internal) i ≡ true
  unfolding rewrite_plan_references
  rewrite_plan_references_ids plan plan' stage i h c =
      ground (arith, rewrite_nodes_ids stage end plan' plan i h c, no_ids i)
    where
      no_ids : (j : ℤ) → contains (internal_ids end) j ≡ false
      no_ids j = unfold internal_ids in refl
