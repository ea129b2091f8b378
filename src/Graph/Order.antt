-- ===== src/Graph/Order.antt =====
-- The depth-first traversal never runs out of fuel, and visits every node exactly once.
use llm_evolutionary_samplin.Prelude.{
  ℕ, zero, suc, ℤ, ◌≡◌, refl, ap, sym, ◌∙◌, Bool, true, ◌||◌, some, List, [], ◌∷◌, ◌++◌, int_eq,
  int_beq_iff, contains, int_leb, length, select, arith, Bool-cases, Option-cases, inl, inr,
  eq_refl, IsDistinct, contains-append,
}
use llm_evolutionary_samplin.Prelude.Dict.{Dict, lookup, insert, keys, contains-keys-insert}
use llm_evolutionary_samplin.Prelude.Sort.{sort, contains-sort}
use llm_evolutionary_samplin.Json.{Json, obj, Fields, end, field}
use llm_evolutionary_samplin.Refs.{internal_ids, key_id}
use llm_evolutionary_samplin.Graph.{
  Visit, dfs, children_at, children_of, traversal_order, nodes_by_id, find_roots, insert_all,
  or_first,
}
use llm_evolutionary_samplin.Graph.Visits.{
  missing-le-length, missing-visit, Ran-refl, Ran-trans, Ran-leave, Returns, Works, Ran-missing,
  visit_each-Works,
}

select-contains :
    (ids xs : List ℤ) (i : ℤ) → contains (select (contains ids) xs) i ≡ true → contains ids i ≡ true
select-contains ids [] i h = cc
select-contains ids (x ∷ xs) i h = ground (arith, select-contains ids xs i, int_beq_iff x i)

children_of-known :
    (nodes : Dict ℤ Json) (node : Json) (i : ℤ)
    → contains (children_of nodes node) i ≡ true
    → contains (keys nodes) i ≡ true
unfolding children_of
children_of-known nodes (obj (field op conf end)) i h = select-contains (keys nodes) _ i h
children_of-known nodes _ i h = cc

children_at-known :
    (nodes : Dict ℤ Json) (nid i : ℤ)
    → contains (children_at nodes nid) i ≡ true
    → contains (keys nodes) i ≡ true
children_at-known nodes nid i h = elim (Option-cases (lookup nid nodes)) [
  | inl absent ↦ ground arith
  | inr (node, found) ↦ children_of-known nodes node i (ground arith)
]

dfs-Works : (nodes : Dict ℤ Json) (fuel : ℕ) → Works (keys nodes) fuel (dfs nodes fuel)
unfolding dfs Returns
dfs-Works nodes zero nid s known h = elim h [ ]
dfs-Works nodes (suc fuel) nid s known h = elim (Bool-cases (contains s.visited nid)) [
  | inl seen ↦ (s, rw seen, Ran-refl (keys nodes) s, seen)
  | inr new ↦
      let s' : Visit = record s { visited = nid ∷ s.visited } in
      let (t, e, a, all) =
        visit_each-Works (keys nodes) fuel (dfs nodes fuel) (dfs-Works nodes fuel)
          (children_at nodes nid) s' (children_at-known nodes nid)
          (omega (arith, missing-visit s.visited nid (keys nodes) known new)) in
      (
        record t { order = t.order ++ nid ∷ [] },
        rw (new, e),
        Ran-leave (keys nodes) s t nid known new a,
        ground (arith, a.visited nid, eq_refl nid),
      )
]

keys-insert_all :
    (ids : List ℤ) (v : Json) (nodes : Dict ℤ Json) (i : ℤ)
    → contains (keys (insert_all ids v nodes)) i ≡ (contains ids i || contains (keys nodes) i)
keys-insert_all [] v nodes i = refl
keys-insert_all (k ∷ ks) v nodes i =
    ground (arith, keys-insert_all ks v (insert k v nodes) i, contains-keys-insert k i v nodes)

keys-nodes_by_id :
    (nodes : Dict ℤ Json) (fs : Fields) (i : ℤ)
    → contains (keys (nodes_by_id nodes fs)) i
      ≡ (contains (internal_ids fs) i || contains (keys nodes) i)
unfolding nodes_by_id internal_ids
keys-nodes_by_id nodes end i = refl
keys-nodes_by_id nodes (field k v fs) i = ground (
  arith,
  keys-nodes_by_id (insert_all (key_id k) v nodes) fs i,
  keys-insert_all (key_id k) v nodes i,
  contains-append (key_id k) (internal_ids fs) i,
)

-- The keys of the dict of nodes are the ids of the structure.
nodes-internal_ids :
    (fs : Fields) (i : ℤ) → contains (keys (nodes_by_id [] fs)) i ≡ contains (internal_ids fs) i
nodes-internal_ids fs i = ground (arith, keys-nodes_by_id [] fs i)

select-subset :
    (p : ℤ → Bool) (xs : List ℤ) (i : ℤ) → contains (select p xs) i ≡ true → contains xs i ≡ true
select-subset p [] i h = cc
select-subset p (x ∷ xs) i h = ground (arith, select-subset p xs i)

or_first-subset :
    (ids rs : List ℤ) (i : ℤ)
    → (contains rs i ≡ true → contains ids i ≡ true)
    → contains (or_first ids rs) i ≡ true
    → contains ids i ≡ true
or_first-subset [] [] i sub h = h
or_first-subset (x ∷ xs) [] i sub h = ground arith
or_first-subset ids (r ∷ rs) i sub h = sub h

find_roots-subset :
    (fs : Fields) (i : ℤ) → contains (find_roots fs) i ≡ true → contains (internal_ids fs) i ≡ true
unfolding find_roots
find_roots-subset fs i h =
    sym (contains-sort int_leb (internal_ids fs) i)
    ∙ or_first-subset (sort int_leb (internal_ids fs)) _ i
        (select-subset _ (sort int_leb (internal_ids fs)) i) h

-- The depth-first traversal of a structure never runs out of its fuel, its order has no id twice, and the
-- ids in it are exactly the ids of the structure's nodes.
pub traversal_order-exact :
    (structure : Fields)
    → (order : List ℤ) × (traversal_order structure ≡ some order)
      × IsDistinct order
      × ((i : ℤ) → contains order i ≡ contains (internal_ids structure) i)
unfolding traversal_order
traversal_order-exact structure =
    let nodes = nodes_by_id [] structure in
    let ids = keys nodes in
    let fuel = suc (length ids) in
    let start : Visit = record { visited = []; order = [] } in
    let roots = sort int_leb (find_roots structure) in
    let known = λ (i : ℤ). nodes-internal_ids structure i in
    let (s, e, a, _) =
      visit_each-Works ids fuel (dfs nodes fuel) (dfs-Works nodes fuel) roots start
        (λ i h.
          known i
          ∙ find_roots-subset structure i
              (sym (contains-sort int_leb (find_roots structure) i) ∙ h))
        (omega (arith, missing-le-length [] ids)) in
    let (t, e', b, all) =
      visit_each-Works ids fuel (dfs nodes fuel) (dfs-Works nodes fuel) (sort int_leb ids) s
        (λ i h. sym (contains-sort int_leb ids i) ∙ h)
        (omega (arith, missing-le-length [] ids, Ran-missing ids start s a)) in
    let c = Ran-trans ids start s t a b in
    (
      t.order,
      ground (arith, e, e'),
      rw c.order c.distinct,
      λ i. ground (
        arith,
        ap (λ l. contains l i) c.order,
        c.visited i,
        c.inside i,
        all i,
        contains-sort int_leb ids i,
        known i,
      ),
    )
