-- ===== src/Scans/Groups.antt =====
-- The ids of one signature: how the grouping loop collects them, and how two groups are paired.
use mathlib.Core.List.{append-nil, append_assoc}
use llm_evolutionary_samplin.Prelude.{
  ◌≤◌, ℤ, String, ◌≡◌, refl, ap, sym, ◌∙◌, true, Option, none, some, List, [], ◌∷◌, ◌++◌, ◌==◌,
  int_eq, string_eq, int_beq_iff, if◌then◌else◌, contains, IsDistinct, length, arith, Bool-cases,
  Option-cases, inl, inr, beq→eq,
}
use llm_evolutionary_samplin.Prelude.Dict.{Dict, lookup, insert, keys, lookup-insert}
use llm_evolutionary_samplin.Scans.{add_to_group, group_by_sig, group_or_empty, pair_ids}

-- The ids that a signature map gives `sig`, in its order.
unfoldable pub ids_with : String → Dict ℤ String → List ℤ
ids_with sig [] = []
ids_with sig ((i, s) ∷ sigs) = if s == sig then i ∷ ids_with sig sigs else ids_with sig sigs

group-add :
    (sig s : String) (i : ℤ) (g : Dict String (List ℤ))
    → group_or_empty (lookup sig (add_to_group s i g)) ≡ (
        if s == sig then group_or_empty (lookup sig g) ++ i ∷ [] else group_or_empty (lookup sig g))
unfolding add_to_group
group-add sig s i g = rw lookup-insert (elim (Bool-cases (s == sig)) [
  | inl same ↦ rw same (ap (λ q. group_or_empty (lookup q g) ++ i ∷ []) (beq→eq s sig same))
  | inr other ↦ rw other refl
])

-- The grouping loop puts the ids of a signature behind those of its group.
pub group-group_by_sig :
    (sig : String) (g : Dict String (List ℤ)) (sigs : Dict ℤ String)
    → group_or_empty (lookup sig (group_by_sig g sigs))
      ≡ group_or_empty (lookup sig g) ++ ids_with sig sigs
unfolding group_by_sig ids_with
group-group_by_sig sig g [] = sym (append-nil _)
group-group_by_sig sig g ((i, s) ∷ sigs) =
    group-group_by_sig sig (add_to_group s i g) sigs
    ∙ ap (λ l. l ++ ids_with sig sigs) (group-add sig s i g)
    ∙ elim (Bool-cases (s == sig)) [
      | inl same ↦ rw same (append_assoc _ (i ∷ []) (ids_with sig sigs))
      | inr other ↦ rw other refl
    ]

-- With distinct keys a signature's ids are those that the map sends to it, each once.
ids_with-keys :
    (sig : String) (sigs : Dict ℤ String) (i : ℤ)
    → contains (ids_with sig sigs) i ≡ true
    → contains (keys sigs) i ≡ true
unfolding ids_with
ids_with-keys sig [] i h = cc
ids_with-keys sig ((j, s) ∷ sigs) i h = ground (arith, ids_with-keys sig sigs i)

pub ids_with-lookup :
    (sig : String) (sigs : Dict ℤ String) (i : ℤ)
    → IsDistinct (keys sigs)
    → contains (ids_with sig sigs) i ≡ true
    → lookup i sigs ≡ some sig
unfolding ids_with lookup
ids_with-lookup sig [] i d h = cc
ids_with-lookup sig ((j, s) ∷ sigs) i d h = ground (
  arith,
  ids_with-lookup sig sigs i d.1,
  d.0,
  ids_with-keys sig sigs i,
  int_beq_iff j i,
  string_eq.beq_iff s sig,
)

pub lookup-ids_with :
    (sig : String) (sigs : Dict ℤ String) (i : ℤ)
    → lookup i sigs ≡ some sig
    → contains (ids_with sig sigs) i ≡ true
unfolding ids_with lookup
lookup-ids_with sig [] i h = cc
lookup-ids_with sig ((j, s) ∷ sigs) i h =
    ground (arith, lookup-ids_with sig sigs i, string_eq.beq_iff s sig)

pub ids_with-IsDistinct :
    (sig : String) (sigs : Dict ℤ String) → IsDistinct (keys sigs) → IsDistinct (ids_with sig sigs)
unfolding ids_with
ids_with-IsDistinct sig [] d = tt
ids_with-IsDistinct sig ((j, s) ∷ sigs) d = elim (Bool-cases (s == sig)) [
  | inl same ↦
      rw same (ground (arith, d.0, ids_with-keys sig sigs j), ids_with-IsDistinct sig sigs d.1)
  | inr other ↦ rw other (ids_with-IsDistinct sig sigs d.1)
]

-- Two groups side by side.
unfoldable pub zip_ids : List ℤ → List ℤ → Dict ℤ ℤ
zip_ids [] bs = []
zip_ids (a ∷ more) [] = []
zip_ids (a ∷ more) (b ∷ bs) = (a, b) ∷ zip_ids more bs

abbrev pub or_later : Option ℤ → Option ℤ → Option ℤ
or_later (some b) later = some b
or_later none later = later

pub zip_ids-members :
    (xs bs : List ℤ) (a b : ℤ)
    → lookup a (zip_ids xs bs) ≡ some b
    → (contains xs a ≡ true) × (contains bs b ≡ true)
unfolding zip_ids lookup
zip_ids-members [] bs a b h = cc
zip_ids-members (x ∷ xs) [] a b h = cc
zip_ids-members (x ∷ xs) (y ∷ bs) a b h = ground (arith, zip_ids-members xs bs a b, int_beq_iff y b)

pub zip_ids-total :
    (xs bs : List ℤ) (a : ℤ)
    → length xs ≤ length bs
    → contains xs a ≡ true
    → (b : ℤ) × (lookup a (zip_ids xs bs) ≡ some b)
unfolding zip_ids lookup
zip_ids-total [] bs a len h = cc
zip_ids-total (x ∷ xs) [] a len h = absurd (omega arith)
zip_ids-total (x ∷ xs) (y ∷ bs) a len h = elim (Bool-cases (x == a)) [
  | inl same ↦ (y, rw same)
  | inr other ↦ let (b, e) = zip_ids-total xs bs a (omega arith) (rw other at h) in (b, rw other e)
]

pub zip_ids-injective :
    (xs bs : List ℤ) (a a' b : ℤ)
    → IsDistinct bs
    → lookup a (zip_ids xs bs) ≡ some b
    → lookup a' (zip_ids xs bs) ≡ some b
    → a ≡ a'
unfolding zip_ids lookup
zip_ids-injective [] bs a a' b d h h' = cc
zip_ids-injective (x ∷ xs) [] a a' b d h h' = cc
zip_ids-injective (x ∷ xs) (y ∷ bs) a a' b d h h' = ground (
  arith,
  zip_ids-injective xs bs a a' b d.1,
  zip_ids-members xs bs a b,
  zip_ids-members xs bs a' b,
  d.0,
  int_beq_iff x a,
  int_beq_iff x a',
  int_beq_iff y b,
)

-- The pairing loop writes exactly these pairs.
pub lookup-pair_ids :
    (xs bs : List ℤ) (m : Dict ℤ ℤ) (a : ℤ)
    → IsDistinct xs
    → lookup a (pair_ids xs bs m) ≡ or_later (lookup a (zip_ids xs bs)) (lookup a m)
unfolding pair_ids zip_ids lookup
lookup-pair_ids [] bs m a d = refl
lookup-pair_ids (x ∷ xs) [] m a d = refl
lookup-pair_ids (x ∷ xs) (y ∷ bs) m a d =
    lookup-pair_ids xs bs (insert x y m) a d.1 ∙ elim (Option-cases (lookup a (zip_ids xs bs))) [
      | inl absent ↦ ground (arith, absent, lookup-insert x a y m)
      | inr (b, found) ↦
          ground (arith, found, zip_ids-members xs bs a b found, d.0, int_beq_iff x a)
    ]
