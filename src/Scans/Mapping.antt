-- ===== src/Scans/Mapping.antt =====
-- The mapping of scan ids from one scale factor to the other.
use llm_evolutionary_samplin.Prelude.{
  ◌≤◌, ℤ, String, ◌≡◌, refl, ap, sym, ◌∙◌, subst, true, false, Option, none, some, List, [], ◌∷◌,
  ◌==◌, int_eq, string_eq, contains, IsDistinct, length, int_leb, arith, Bool-cases, Option-cases,
  inl, inr, ◌⊎◌, eq_refl, beq→eq, ok, ◌>>=◌, for_each, >>=-eq-ok, or_raise,
}
use llm_evolutionary_samplin.Prelude.Dict.{
  Dict, lookup, insert, keys, keys-of_lookup, insert-IsDistinct,
}
use llm_evolutionary_samplin.Prelude.Sort.{sort, contains-sort, sort-IsDistinct}
use llm_evolutionary_samplin.Error.{Reason, plan_transfer}
use llm_evolutionary_samplin.Json.{Json, Fields}
use llm_evolutionary_samplin.Json.Equality.{Floats}
use llm_evolutionary_samplin.Scans.{
  group_by_sig, group_or_empty, sort_groups, pair_ids, pair_group, match_signatures, add_to_group,
  add_signature, build_scan_signature_map, build_scan_id_mapping, table_info_entries, entry_id,
  entry_node, scan_normalized_signature,
}
use llm_evolutionary_samplin.Scans.Groups.{
  ids_with, ids_with-lookup, lookup-ids_with, ids_with-IsDistinct, zip_ids, zip_ids-members,
  zip_ids-total, zip_ids-injective, lookup-pair_ids, or_later,
}
use llm_evolutionary_samplin.Scans.Pairing.{groups, group-groups, IsMatching, nothing_IsMatching}

-- One round of the pairing loop.
module _ (sf1 sf2 : Dict ℤ String) (d1 : IsDistinct (keys sf1)) (d2 : IsDistinct (keys sf2))
    (done : List String) (m : Dict ℤ ℤ) (old : IsMatching sf1 sf2 done m) (sig : String)
    (new : contains done sig ≡ false) where
  abbrev xs : List ℤ
  xs = sort int_leb (ids_with sig sf1)

  abbrev ys : List ℤ
  ys = sort int_leb (ids_with sig sf2)

  xs_sig : (a : ℤ) → contains xs a ≡ true → lookup a sf1 ≡ some sig
  xs_sig a h = ids_with-lookup sig sf1 a d1 (sym (contains-sort int_leb (ids_with sig sf1) a) ∙ h)

  ys_sig : (b : ℤ) → contains ys b ≡ true → lookup b sf2 ≡ some sig
  ys_sig b h = ids_with-lookup sig sf2 b d2 (sym (contains-sort int_leb (ids_with sig sf2) b) ∙ h)

  sig_xs : (a : ℤ) → lookup a sf1 ≡ some sig → contains xs a ≡ true
  sig_xs a h = contains-sort int_leb (ids_with sig sf1) a ∙ lookup-ids_with sig sf1 a h

  lookup_pairs :
      (a : ℤ) → lookup a (pair_ids xs ys m) ≡ or_later (lookup a (zip_ids xs ys)) (lookup a m)
  lookup_pairs a =
      lookup-pair_ids xs ys m a (sort-IsDistinct int_leb _ (ids_with-IsDistinct sig sf1 d1))

  -- A pair comes from this round or from an earlier one.
  pair_cases :
      (a b : ℤ)
      → lookup a (pair_ids xs ys m) ≡ some b
      → (lookup a (zip_ids xs ys) ≡ some b) ⊎ (lookup a m ≡ some b)
  pair_cases a b h = ground (arith, lookup_pairs a)

  zip_sigs :
      (a b : ℤ)
      → lookup a (zip_ids xs ys) ≡ some b
      → (lookup a sf1 ≡ some sig) × (lookup b sf2 ≡ some sig)
  zip_sigs a b h = let (ha, hb) = zip_ids-members xs ys a b h in (xs_sig a ha, ys_sig b hb)

  same_round :
      (a b : ℤ)
      → lookup a (pair_ids xs ys m) ≡ some b
      → (s : String) × (lookup a sf1 ≡ some s)
        × (lookup b sf2 ≡ some s)
        × (contains (sig ∷ done) s ≡ true)
  same_round a b h = elim (pair_cases a b h) [
    | inl now ↦ let (ha, hb) = zip_sigs a b now in (sig, ha, hb, ground (arith, eq_refl sig))
    | inr before ↦ let (s, ha, hb, hd) = old.same a b before in (s, ha, hb, ground arith)
  ]

  -- An earlier image has an earlier signature.
  not_both : (a a' b : ℤ) → lookup a (zip_ids xs ys) ≡ some b → lookup a' m ≡ some b → ⊥
  not_both a a' b now before =
      let (ha, hb) = zip_sigs a b now in
      let (s, ha', hb', hd) = old.same a' b before in
      let e : sig ≡ s = cc in let hd' : contains done sig ≡ true = rw e hd in cc

  injective_round :
      (a a' b : ℤ)
      → lookup a (pair_ids xs ys m) ≡ some b
      → lookup a' (pair_ids xs ys m) ≡ some b
      → a ≡ a'
  injective_round a a' b h h' = elim (pair_cases a b h) [
    | inl now ↦ elim (pair_cases a' b h') [
      | inl now' ↦
          zip_ids-injective xs ys a a' b
            (sort-IsDistinct int_leb _ (ids_with-IsDistinct sig sf2 d2)) now now'
      | inr before' ↦ absurd (not_both a a' b now before')
    ]
    | inr before ↦ elim (pair_cases a' b h') [
      | inl now' ↦ absurd (not_both a' a b now' before)
      | inr before' ↦ old.injective a a' b before before'
    ]
  ]

  or_later-some : (o p : Option ℤ) (b : ℤ) → p ≡ some b → (c : ℤ) × (or_later o p ≡ some c)
  or_later-some none p b h = (b, h)
  or_later-some (some c) p b h = (c, refl)

  total_round :
      length xs ≤ length ys
      → (a : ℤ) (s : String) → contains (sig ∷ done) s ≡ true
      → lookup a sf1 ≡ some s
      → (b : ℤ) × (lookup a (pair_ids xs ys m) ≡ some b)
  total_round len a s hd ha = elim (Bool-cases (sig == s)) [
    | inl same ↦
        let e = beq→eq sig s same in
        let (b, found) = zip_ids-total xs ys a len (sig_xs a (rw e ha)) in
        (b, lookup_pairs a ∙ rw found refl)
    | inr other ↦
        let (b, found) = old.total a s (rw other at hd) ha in
        let (c, e) = or_later-some (lookup a (zip_ids xs ys)) (lookup a m) b found in
        (c, lookup_pairs a ∙ e)
  ]

  round_IsMatching : length xs ≤ length ys → IsMatching sf1 sf2 (sig ∷ done) (pair_ids xs ys m)
  round_IsMatching len = record {
    same = same_round;
    injective = injective_round;
    total = total_round len;
  }

-- A round that returns found enough ids, and paired them.
pair_group_lem :
    (g : Dict String (List ℤ)) (m m' : Dict ℤ ℤ) (sig : String) (xs ys : List ℤ)
    → group_or_empty (lookup sig g) ≡ ys
    → pair_group g m (sig, xs) ≡ ok m'
    → (length xs ≤ length ys) × (m' ≡ pair_ids xs ys m)
unfolding pair_group
pair_group_lem g m m' sig xs ys e h = ground arith

lookup-tail :
    (sig s : String) (ids js : List ℤ) (gs : Dict String (List ℤ))
    → contains (keys gs) sig ≡ false
    → lookup s gs ≡ some js
    → lookup s ((sig, ids) ∷ gs) ≡ some js
unfolding lookup
lookup-tail sig s ids js gs out l =
    ground (arith, keys-of_lookup s js gs l, string_eq.beq_iff sig s)

-- The loop over the groups of the first scale factor.
module _ (sf1 sf2 : Dict ℤ String) (d1 : IsDistinct (keys sf1)) (d2 : IsDistinct (keys sf2)) where
  loop_IsMatching :
      (gs : Dict String (List ℤ)) (done : List String) (m m' : Dict ℤ ℤ)
      → IsDistinct (keys gs)
      → ((s : String) → contains (keys gs) s ≡ true → contains done s ≡ false)
      → ((s : String) (ids : List ℤ) → lookup s gs ≡ some ids → ids ≡ sort int_leb (ids_with s sf1))
      → IsMatching sf1 sf2 done m
      → for_each (pair_group (groups sf2)) m gs ≡ ok m'
      → (done' : List String) × IsMatching sf1 sf2 done' m'
        × ((s : String) → contains (keys gs) s ≡ true → contains done' s ≡ true)
        × ((s : String) → contains done s ≡ true → contains done' s ≡ true)
  loop_IsMatching [] done m m' d apart right old h =
      (done, subst (IsMatching sf1 sf2 done) (cc h) old, λ s c. cc, λ s c. c)
  loop_IsMatching ((sig, ids) ∷ gs) done m m' d apart right old h =
      let (m1, now, later) =
        >>=-eq-ok (pair_group (groups sf2) m (sig, ids))
          (λ n. for_each (pair_group (groups sf2)) n gs) h in
      let e : ids ≡ sort int_leb (ids_with sig sf1) =
        right sig ids (unfold lookup in ground (arith, eq_refl sig)) in
      let (len, e1) = pair_group_lem (groups sf2) m m1 sig ids _ (group-groups sig sf2) now in
      let new : contains done sig ≡ false = apart sig (ground (arith, eq_refl sig)) in
      let step = round_IsMatching sf1 sf2 d1 d2 done m old sig new (rw e at len) in
      let (done', last, all, kept) =
        loop_IsMatching gs (sig ∷ done) m1 m' d.1
          (λ s k. ground (arith, apart s, d.0, string_eq.beq_iff sig s))
          (λ s js l. right s js (lookup-tail sig s ids js gs d.0 l))
          (subst (IsMatching sf1 sf2 (sig ∷ done))
            (sym (e1 ∙ ap (λ l. pair_ids l (sort int_leb (ids_with sig sf2)) m) e)) step)
          later in
      (done', last, λ s k. ground (arith, all s, kept s), λ s k. kept s (ground arith))

group_by_sig-IsDistinct :
    (g : Dict String (List ℤ)) (sigs : Dict ℤ String)
    → IsDistinct (keys g)
    → IsDistinct (keys (group_by_sig g sigs))
unfolding group_by_sig add_to_group
group_by_sig-IsDistinct g [] d = d
group_by_sig-IsDistinct g ((i, s) ∷ sigs) d =
    group_by_sig-IsDistinct (add_to_group s i g) sigs (insert-IsDistinct s _ g d)

keys-sort_groups : (g : Dict String (List ℤ)) → keys (sort_groups g) ≡ keys g
unfolding sort_groups
keys-sort_groups [] = refl
keys-sort_groups ((s, ids) ∷ g) = ap (λ l. s ∷ l) (keys-sort_groups g)

groups-right :
    (sigs : Dict ℤ String) (s : String) (ids : List ℤ)
    → lookup s (groups sigs) ≡ some ids
    → ids ≡ sort int_leb (ids_with s sigs)
groups-right sigs s ids l = ap group_or_empty (sym l) ∙ group-groups s sigs

-- Each signature of the map has a group.
groups-total :
    (sigs : Dict ℤ String) (a : ℤ) (s : String)
    → lookup a sigs ≡ some s
    → contains (keys (groups sigs)) s ≡ true
groups-total sigs a s h = elim (Option-cases (lookup s (groups sigs))) [
  | inl absent ↦
      let e : [] ≡ sort int_leb (ids_with s sigs) =
        ap group_or_empty (sym absent) ∙ group-groups s sigs in
      let inside : contains (sort int_leb (ids_with s sigs)) a ≡ true =
        contains-sort int_leb (ids_with s sigs) a ∙ lookup-ids_with s sigs a h in
      let nothing : contains {A = ℤ} [] a ≡ true = rw (← e) at inside in cc
  | inr (ids, found) ↦ keys-of_lookup s ids (groups sigs) found
]

-- Every id of the first map is mapped; an id is mapped only to one with the same signature in the second
-- map; no two ids are mapped to the same one.
pub record IsScanMapping (sf1 sf2 : Dict ℤ String) (m : Dict ℤ ℤ) : Type 0 where
  pub total : (a : ℤ) (s : String) → lookup a sf1 ≡ some s → (b : ℤ) × (lookup a m ≡ some b)
  pub same :
      (a b : ℤ)
      → lookup a m ≡ some b
      → (s : String) × (lookup a sf1 ≡ some s) × (lookup b sf2 ≡ some s)
  pub injective : (a a' b : ℤ) → lookup a m ≡ some b → lookup a' m ≡ some b → a ≡ a'

match_signatures_sound :
    (sf1 sf2 : Dict ℤ String) (m : Dict ℤ ℤ)
    → IsDistinct (keys sf1)
    → IsDistinct (keys sf2)
    → match_signatures sf1 sf2 ≡ ok m
    → IsScanMapping sf1 sf2 m
unfolding match_signatures
match_signatures_sound sf1 sf2 m d1 d2 h =
    let (done, matching, all, _) =
      loop_IsMatching sf1 sf2 d1 d2 (groups sf1) [] [] m
        (rw keys-sort_groups (group_by_sig-IsDistinct [] sf1 tt)) (λ s k. refl) (groups-right sf1)
        (nothing_IsMatching sf1 sf2) h in
    record {
      total = λ a s l. matching.total a s (all s (groups-total sf1 a s l)) l;
      same = λ a b l. let (s, la, lb, _) = matching.same a b l in (s, la, lb);
      injective = matching.injective;
    }

add_signature-IsDistinct :
    (floats : Floats) (sigs sigs' : Dict ℤ String) (entry : Fields)
    → IsDistinct (keys sigs)
    → add_signature floats sigs entry ≡ ok sigs'
    → IsDistinct (keys sigs')
unfolding add_signature
add_signature-IsDistinct floats sigs sigs' entry d h =
    let (sid, _, rest) =
      >>=-eq-ok (or_raise (entry_id floats entry) (plan_transfer Reason.entry_id_must_be_int)) _
        h in
    let (sig, _, last) =
      >>=-eq-ok (scan_normalized_signature floats (entry_node floats entry))
        (λ t. ok (insert sid t sigs)) rest in
    subst (λ (l : Dict ℤ String). IsDistinct (keys l)) (cc last) (insert-IsDistinct sid sig sigs d)

module _ (floats : Floats) where
  add_signatures-IsDistinct :
      (sigs sigs' : Dict ℤ String) (entries : List Fields)
      → IsDistinct (keys sigs)
      → for_each (add_signature floats) sigs entries ≡ ok sigs'
      → IsDistinct (keys sigs')
  add_signatures-IsDistinct sigs sigs' [] d h =
      subst (λ (l : Dict ℤ String). IsDistinct (keys l)) (cc h) d
  add_signatures-IsDistinct sigs sigs' (entry ∷ entries) d h =
      let (next, now, later) =
        >>=-eq-ok (add_signature floats sigs entry) (λ t. for_each (add_signature floats) t entries)
          h in
      add_signatures-IsDistinct next sigs' entries
        (add_signature-IsDistinct floats sigs next entry d now) later

  -- The keys of a signature map are distinct, as those of any dict.
  pub signature_map-IsDistinct :
      (info : Json) (sigs : Dict ℤ String)
      → build_scan_signature_map floats info ≡ ok sigs
      → IsDistinct (keys sigs)
  unfolding build_scan_signature_map
  signature_map-IsDistinct info sigs h =
      let (entries, _, later) =
        >>=-eq-ok (table_info_entries info) (λ es. for_each (add_signature floats) [] es) h in
      add_signatures-IsDistinct [] sigs entries tt later

  -- If `_build_scan_id_mapping` returns a mapping, then both signature maps were built; every scan id of
  -- the first scale factor is mapped; an id is mapped only to a scan id of the second scale factor that
  -- has the same signature; and no two ids are mapped to the same one.
  pub build_scan_id_mapping-IsScanMapping :
      (info1 info2 : Json) (m : Dict ℤ ℤ)
      → build_scan_id_mapping floats info1 info2 ≡ ok m
      → (sf1 : Dict ℤ String) × (sf2 : Dict ℤ String) × (build_scan_signature_map floats info1
          ≡ ok sf1)
        × (build_scan_signature_map floats info2 ≡ ok sf2)
        × IsScanMapping sf1 sf2 m
  unfolding build_scan_id_mapping
  build_scan_id_mapping-IsScanMapping info1 info2 m h =
      let (sf1, e1, rest) =
        >>=-eq-ok (build_scan_signature_map floats info1)
          (λ s1. build_scan_signature_map floats info2 >>= λ s2. match_signatures s1 s2) h in
      let (sf2, e2, matched) =
        >>=-eq-ok (build_scan_signature_map floats info2) (λ s2. match_signatures sf1 s2) rest in
      (
        sf1,
        sf2,
        e1,
        e2,
        match_signatures_sound sf1 sf2 m (signature_map-IsDistinct info1 sf1 e1)
            (signature_map-IsDistinct info2 sf2 e2) matched,
      )
