-- ===== src/Renumber/Fresh.antt =====
-- The new ids of `_assign_new_node_ids` collide neither with the reserved ids nor with one another.
use llm_evolutionary_samplin.Prelude.{
  ℤ, ◌≡◌, ◌≢◌, refl, ◌∙◌, true, false, ◌||◌, some, List, [], ◌∷◌, ◌==◌, int_eq, int_beq_iff,
  if◌then◌else◌, contains, arith, Bool-cases, inl, inr, eq_refl, IsDistinct,
}
use llm_evolutionary_samplin.Prelude.Dict.{Dict, lookup, insert, values, lookup-insert}
use llm_evolutionary_samplin.Renumber.{Assigned, new_id, assign_one, assign_each}
use llm_evolutionary_samplin.Renumber.Separate.{
  new_id-fresh, assign_each-IsSeparate, start, start-IsSeparate, assign_each-total,
}

-- The new ids that the loop gives to a list of ids.
abbrev pub new_ids : List ℤ → List ℤ → Dict ℤ ℤ
new_ids reserved oids = (assign_each (start reserved) oids).mapping

-- Every id of the list gets a new id; no new id is reserved; and two different ids never share one.
pub assign_each-separate :
    (reserved oids : List ℤ)
    → ((k : ℤ) → contains oids k ≡ true → (w : ℤ) × (lookup k (new_ids reserved oids) ≡ some w))
      × ((k v : ℤ) → lookup k (new_ids reserved oids) ≡ some v → contains reserved v ≡ false)
      × ((a b v : ℤ)
          → lookup a (new_ids reserved oids) ≡ some v
          → lookup b (new_ids reserved oids) ≡ some v
          → a ≡ b)
assign_each-separate reserved oids =
    let h = assign_each-IsSeparate reserved (start reserved) oids (start-IsSeparate reserved) in
    (assign_each-total (start reserved) oids, h.images_new, h.injective)

-- Only the ids of the list get one.
assign_each-only :
    (s : Assigned) (oids : List ℤ) (k v : ℤ)
    → lookup k (assign_each s oids).mapping ≡ some v
    → contains oids k ≡ false
    → lookup k s.mapping ≡ some v
unfolding assign_each assign_one
assign_each-only s [] k v e out = e
assign_each-only s (oid ∷ oids) k v e out =
    let e' = assign_each-only (assign_one s oid) oids k v e (ground arith) in
    ground (arith, lookup-insert oid k (new_id s oid) s.mapping, int_beq_iff oid k)

lookup-nil : (k v : ℤ) → lookup k [] ≢ some v
unfolding lookup
lookup-nil k v e = cc

pub new_ids-only :
    (reserved oids : List ℤ) (k v : ℤ)
    → lookup k (new_ids reserved oids) ≡ some v
    → contains oids k ≡ true
new_ids-only reserved oids k v e = elim (Bool-cases (contains oids k)) [
  | inl inside ↦ inside
  | inr out ↦ absurd (lookup-nil k v (assign_each-only (start reserved) oids k v e out))
]

-- An id that is in neither the used ids nor the images is kept.
module _ (s : Assigned) (oid : ℤ) (free : contains s.used oid ≡ false)
    (unmapped : contains (values s.mapping) oid ≡ false) where
  new_id_free : new_id s oid ≡ oid
  unfolding new_id
  new_id_free = ground arith

values-insert :
    (k v i : ℤ) (d : Dict ℤ ℤ)
    → contains (values (insert k v d)) i ≡ true
    → (v == i || contains (values d) i) ≡ true
unfolding insert
values-insert k v i [] h = h
values-insert k v i ((j, w) ∷ d) h = ground (arith, values-insert k v i d)

-- If none of the listed ids is used, then each keeps its id.
assign_each-same :
    (s : Assigned) (oids : List ℤ)
    → IsDistinct oids
    → ((i : ℤ) → contains oids i ≡ true → contains s.used i ≡ false)
    → ((i : ℤ) → contains (values s.mapping) i ≡ true → contains s.used i ≡ true)
    → (k : ℤ)
    → lookup k (assign_each s oids).mapping
      ≡ (if contains oids k then some k else lookup k s.mapping)
unfolding assign_each assign_one
assign_each-same s [] d apart inside k = refl
assign_each-same s (oid ∷ oids) d apart inside k =
    let free : contains s.used oid ≡ false = apart oid (ground (arith, eq_refl oid)) in
    let same : new_id s oid ≡ oid = new_id_free s oid free (ground (arith, inside oid)) in
    let ih =
      assign_each-same (assign_one s oid) oids d.1
        (λ i h. ground (arith, apart i, same, int_beq_iff oid i, d.0))
        (λ i h. ground (arith, inside i, values-insert oid (new_id s oid) i s.mapping h)) k in
    ground (arith, ih, same, lookup-insert oid k (new_id s oid) s.mapping, int_beq_iff oid k, d.0)

pub new_ids-same :
    (reserved oids : List ℤ)
    → IsDistinct oids
    → ((i : ℤ) → contains oids i ≡ true → contains reserved i ≡ false)
    → (k : ℤ) → contains oids k ≡ true
    → lookup k (new_ids reserved oids) ≡ some k
new_ids-same reserved oids d apart k h =
    assign_each-same (start reserved) oids d apart (λ i e. cc) k ∙ rw h refl

-- Every written image is new, also one that a later write replaced.
record ImagesApart (reserved : List ℤ) (s : Assigned) : Type 0 where
  reserved_used : (i : ℤ) → contains reserved i ≡ true → contains s.used i ≡ true
  apart : (v : ℤ) → contains (values s.mapping) v ≡ true → contains reserved v ≡ false

assign_one-ImagesApart :
    (reserved : List ℤ) (s : Assigned) (oid : ℤ)
    → ImagesApart reserved s
    → ImagesApart reserved (assign_one s oid)
unfolding assign_one
assign_one-ImagesApart reserved s oid h = record {
  reserved_used = λ i r. ground (arith, h.reserved_used i r);
  apart = λ v e. ground (
    arith,
    h.apart v,
    h.reserved_used v,
    new_id-fresh s oid,
    int_beq_iff (new_id s oid) v,
    values-insert oid (new_id s oid) v s.mapping e,
  );
}

assign_each-ImagesApart :
    (reserved : List ℤ) (s : Assigned) (oids : List ℤ)
    → ImagesApart reserved s
    → ImagesApart reserved (assign_each s oids)
unfolding assign_each
assign_each-ImagesApart reserved s [] h = h
assign_each-ImagesApart reserved s (oid ∷ oids) h =
    assign_each-ImagesApart reserved (assign_one s oid) oids
      (assign_one-ImagesApart reserved s oid h)

pub values-new_ids :
    (reserved oids : List ℤ) (v : ℤ)
    → contains (values (new_ids reserved oids)) v ≡ true
    → contains reserved v ≡ false
values-new_ids reserved oids =
    (assign_each-ImagesApart reserved (start reserved) oids
      (record { reserved_used = λ i r. r; apart = λ v e. cc })).apart
