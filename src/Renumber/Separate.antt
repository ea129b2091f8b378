-- ===== src/Renumber/Separate.antt =====
-- The loop of `_assign_new_node_ids` keeps the new ids apart from each other and from the used ones.
use llm_evolutionary_samplin.Prelude.{
  ℕ, zero, suc, ◌+◌, ◌≤◌, ◌<◌, ℤ, pos, negsuc, ◌≡◌, refl, ◌∙◌, true, false, some, List, [], ◌∷◌,
  ◌==◌, int_eq, int_beq_iff, if◌then◌else◌, contains, int_leb, length, select, arith, Bool-cases,
  inl, inr, beq→eq, eq_refl,
}
use llm_evolutionary_samplin.Prelude.Dict.{lookup, insert, lookup-insert}
use llm_evolutionary_samplin.Renumber.{next_free, Assigned, new_id, assign_one, assign_each}

-- How many numbers of `used` are `x` or more.
above : ℕ → List ℤ → ℕ
above x used = length (select (int_leb (pos x)) used)

above-nil : (x : ℕ) → above x [] ≡ 0
unfolding above
above-nil x = refl

above-cons :
    (x : ℕ) (u : ℤ) (used : List ℤ)
    → above x (u ∷ used) ≡ (if int_leb (pos x) u then suc (above x used) else above x used)
unfolding above
above-cons x u used = ground arith

above-le : (x : ℕ) (used : List ℤ) → above (x + 1) used ≤ above x used
above-le x [] = omega (arith, above-nil x, above-nil (x + 1))
above-le x (pos n ∷ used) =
    ground (arith, above-le x used, above-cons x (pos n) used, above-cons (x + 1) (pos n) used)
above-le x (negsuc n ∷ used) =
    ground
      (arith, above-le x used, above-cons x (negsuc n) used, above-cons (x + 1) (negsuc n) used)

above-lt :
    (x : ℕ) (used : List ℤ) → contains used (pos x) ≡ true → above (x + 1) used < above x used
above-lt x [] h = cc
above-lt x (pos n ∷ used) h = ground (
  arith,
  above-le x used,
  above-lt x used,
  above-cons x (pos n) used,
  above-cons (x + 1) (pos n) used,
)
above-lt x (negsuc n ∷ used) h =
    ground
      (arith, above-lt x used, above-cons x (negsuc n) used, above-cons (x + 1) (negsuc n) used)

above-le-length : (x : ℕ) (used : List ℤ) → above x used ≤ length used
above-le-length x [] = omega (arith, above-nil x)
above-le-length x (u ∷ used) = ground (arith, above-le-length x used, above-cons x u used)

-- The loop ends at a number that is not used: each round leaves fewer used numbers above.
next_free_fresh :
    (fuel x : ℕ) (used : List ℤ)
    → above x used < fuel
    → contains used (pos (next_free fuel x used)) ≡ false
unfolding next_free
next_free_fresh zero x used h = elim h [ ]
next_free_fresh (suc fuel) x used h = elim (Bool-cases (contains used (pos x))) [
  | inl taken ↦ rw taken (next_free_fresh fuel (x + 1) used (omega (arith, above-lt x used taken)))
  | inr free ↦ rw free free
]

-- It skips no free number.
next_free_least :
    (fuel x y : ℕ) (used : List ℤ)
    → x ≤ y
    → y < next_free fuel x used
    → contains used (pos y) ≡ true
unfolding next_free
next_free_least zero x y used h k = absurd (omega arith)
next_free_least (suc fuel) x y used h k = elim (Bool-cases (contains used (pos x))) [
  | inl taken ↦ ground (arith, next_free_least fuel (x + 1) y used)
  | inr free ↦ ground arith
]

pub new_id-fresh : (s : Assigned) (oid : ℤ) → contains s.used (new_id s oid) ≡ false
unfolding new_id
new_id-fresh s oid =
    ground (arith, next_free_fresh (suc (length s.used)) 0 s.used, above-le-length 0 s.used)

-- What the loop keeps, for the ids that were reserved at its start.
pub record IsSeparate (reserved : List ℤ) (s : Assigned) : Type 0 where
  pub reserved_used : (i : ℤ) → contains reserved i ≡ true → contains s.used i ≡ true
  pub images_used : (k v : ℤ) → lookup k s.mapping ≡ some v → contains s.used v ≡ true
  pub images_new : (k v : ℤ) → lookup k s.mapping ≡ some v → contains reserved v ≡ false
  pub injective : (a b v : ℤ) → lookup a s.mapping ≡ some v → lookup b s.mapping ≡ some v → a ≡ b

module _ (reserved : List ℤ) (s : Assigned) (oid : ℤ) (h : IsSeparate reserved s) where
  assign_one-IsSeparate : IsSeparate reserved (assign_one s oid)
  unfolding assign_one
  assign_one-IsSeparate =
      let nid = new_id s oid in
      let fresh : contains s.used nid ≡ false = new_id-fresh s oid in
      let at : (k : ℤ)
          → lookup k (insert oid nid s.mapping)
            ≡ (if oid == k then some nid else lookup k s.mapping) =
        λ k. lookup-insert oid k nid s.mapping in
      record {
        reserved_used = λ i r. ground (arith, h.reserved_used i r);
        images_used = λ k v e. ground (arith, h.images_used k v, at k, int_beq_iff nid v);
        images_new = λ k v e. ground (arith, h.images_new k v, at k, h.reserved_used v);
        injective = λ a b v ea eb. ground (
          arith,
          at a,
          at b,
          h.injective a b v,
          h.images_used a v,
          h.images_used b v,
          int_beq_iff oid a,
          int_beq_iff oid b,
        );
      }

pub assign_each-IsSeparate :
    (reserved : List ℤ) (s : Assigned) (oids : List ℤ)
    → IsSeparate reserved s
    → IsSeparate reserved (assign_each s oids)
unfolding assign_each
assign_each-IsSeparate reserved s [] h = h
assign_each-IsSeparate reserved s (oid ∷ oids) h =
    assign_each-IsSeparate reserved (assign_one s oid) oids (assign_one-IsSeparate reserved s oid h)

abbrev pub start : List ℤ → Assigned
start reserved = record { used = reserved; mapping = [] }

pub start-IsSeparate : (reserved : List ℤ) → IsSeparate reserved (start reserved)
unfolding lookup
start-IsSeparate reserved = record {
  reserved_used = λ i r. r;
  images_used = λ k v e. cc;
  images_new = λ k v e. cc;
  injective = λ a b v e e'. cc;
}

-- An id that has an image keeps one, and each id of the list gets one.
assign_one-keeps :
    (s : Assigned) (oid k v : ℤ)
    → lookup k s.mapping ≡ some v
    → (w : ℤ) × (lookup k (assign_one s oid).mapping ≡ some w)
unfolding assign_one
assign_one-keeps s oid k v e = elim (Bool-cases (oid == k)) [
  | inl same ↦ (new_id s oid, lookup-insert oid k (new_id s oid) s.mapping ∙ rw same refl)
  | inr other ↦ (v, lookup-insert oid k (new_id s oid) s.mapping ∙ rw other e)
]

assign_one_self :
    (s : Assigned) (oid : ℤ) → lookup oid (assign_one s oid).mapping ≡ some (new_id s oid)
unfolding assign_one
assign_one_self s oid = rw lookup-insert (rw eq_refl)

assign_each-keeps :
    (s : Assigned) (oids : List ℤ) (k v : ℤ)
    → lookup k s.mapping ≡ some v
    → (w : ℤ) × (lookup k (assign_each s oids).mapping ≡ some w)
unfolding assign_each
assign_each-keeps s [] k v e = (v, e)
assign_each-keeps s (oid ∷ oids) k v e =
    let (w, e') = assign_one-keeps s oid k v e in assign_each-keeps (assign_one s oid) oids k w e'

pub assign_each-total :
    (s : Assigned) (oids : List ℤ) (k : ℤ)
    → contains oids k ≡ true
    → (w : ℤ) × (lookup k (assign_each s oids).mapping ≡ some w)
unfolding assign_each
assign_each-total s [] k h = cc
assign_each-total s (oid ∷ oids) k h = elim (Bool-cases (oid == k)) [
  | inl same ↦
      assign_each-keeps (assign_one s oid) oids k (new_id s oid)
        (rw (← beq→eq oid k same) (assign_one_self s oid))
  | inr other ↦ assign_each-total (assign_one s oid) oids k (rw other at h)
]
