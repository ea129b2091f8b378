-- ===== src/Graph.antt =====
-- The traversal of a plan, of src/sampling/plan_scaler.py: references between the nodes of a structure,
-- its roots, and a depth-first order.
pub mod Visits
pub mod Order
use llm_evolutionary_samplin.Prelude.{
  ℕ, zero, suc, ℤ, pos, String, Bool, true, false, ◌&&◌, ◌||◌, not, Option, none, some, List, [],
  ◌∷◌, ◌++◌, ◌==◌, int_eq, if◌then◌else◌, contains, int_leb, length, select, take, str_ℤ,
}
use llm_evolutionary_samplin.Prelude.Dict.{Dict, lookup, insert, keys}
use llm_evolutionary_samplin.Prelude.Sort.{sort}
use llm_evolutionary_samplin.Json.{Json, obj, Items, Fields, end, field}
use llm_evolutionary_samplin.Json.Objects.{count_fields}
use llm_evolutionary_samplin.Refs.{direct_refs, plan_refs, targets, internal_ids, key_id}

-- The references that name a node of the structure.
unfoldable pub find_internal_references : Fields → List ℤ
find_internal_references structure =
    select (contains (internal_ids structure)) (targets (plan_refs structure))

abbrev pub or_first : List ℤ → List ℤ → List ℤ
or_first ids [] = take 1 ids
or_first ids (r ∷ rs) = r ∷ rs

unfoldable pub find_roots : Fields → List ℤ
find_roots structure =
    let ids = sort int_leb (internal_ids structure) in
    let referenced = find_internal_references structure in
    or_first ids (select (λ i. not (contains referenced i)) ids)

-- The nodes by their numeric ids; a later key with the same number wins.
abbrev pub insert_all : List ℤ → Json → Dict ℤ Json → Dict ℤ Json
insert_all [] node nodes = nodes
insert_all (i ∷ is) node nodes = insert_all is node (insert i node nodes)

unfoldable pub nodes_by_id : Dict ℤ Json → Fields → Dict ℤ Json
nodes_by_id nodes end = nodes
nodes_by_id nodes (field k v fs) = nodes_by_id (insert_all (key_id k) v nodes) fs

abbrev pub ids_or_none : Option (List ℤ) → List ℤ
ids_or_none none = []
ids_or_none (some ids) = ids

-- `extract`: the references directly in an operator's configuration.
unfoldable pub extract : Fields → List ℤ
extract end = []
extract (field k v fs) = ids_or_none (direct_refs k v) ++ extract fs

abbrev pub operator_refs : Json → List ℤ
operator_refs (obj conf) = extract conf
operator_refs _ = []

-- `children_of`: only a dict of one operator has children.
unfoldable pub children_of : Dict ℤ Json → Json → List ℤ
children_of nodes (obj (field op conf end)) = select (contains (keys nodes)) (operator_refs conf)
children_of nodes _ = []

-- `visited` and `order`
pub record Visit : Type 0 where
  pub visited : List ℤ
  pub order : List ℤ

-- A loop of calls, each from the state that the last one left; `none` is fuel that ran out.
unfoldable pub visit_each : (ℤ → Visit → Option Visit) → List ℤ → Visit → Option Visit
visit_each visit [] s = some s
visit_each visit (c ∷ cs) s = elim (visit c s) [ none ↦ none | some s' ↦ visit_each visit cs s' ]

abbrev pub children_at : Dict ℤ Json → ℤ → List ℤ
children_at nodes nid = elim (lookup nid nodes) [ none ↦ [] | some node ↦ children_of nodes node ]

abbrev pub finish : ℤ → Option Visit → Option Visit
finish nid none = none
finish nid (some s) = some (record s { order = s.order ++ nid ∷ [] })

-- `dfs`; the fuel bounds the depth of the recursion.
unfoldable pub dfs : Dict ℤ Json → ℕ → ℤ → Visit → Option Visit
dfs nodes zero nid s = none
dfs nodes (suc fuel) nid s =
    let rest = finish nid (
      visit_each (dfs nodes fuel) (children_at nodes nid)
        (record s { visited = nid ∷ s.visited })) in
    if contains s.visited nid then some s else rest

-- The order as numbers. The recursion enters each node once, so one more than the number of nodes is
-- enough fuel.
unfoldable pub traversal_order : Fields → Option (List ℤ)
traversal_order structure =
    let nodes = nodes_by_id [] structure in
    let visit = dfs nodes (suc (length (keys nodes))) in
    elim (visit_each visit (sort int_leb (find_roots structure))
      (record { visited = []; order = [] })) [
        | none ↦ none
        | some s ↦ elim (visit_each visit (sort int_leb (keys nodes)) s) [
          | none ↦ none
          | some s' ↦ some s'.order
        ]
      ]

abbrev pub texts : List ℤ → List String
texts [] = []
texts (n ∷ ns) = str_ℤ n ∷ texts ns

-- `[str(n) for n in order]`
unfoldable pub topo_order_from_roots : Fields → Option (List String)
topo_order_from_roots structure = elim (traversal_order structure) [
  | none ↦ none
  | some order ↦ some (texts order)
]
