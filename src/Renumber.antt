-- ===== src/Renumber.antt =====
-- `_assign_new_node_ids` of src/sampling/plan_scaler.py.
pub mod Separate
pub mod Fresh
pub mod Laws
use llm_evolutionary_samplin.Prelude.{
  ℕ, zero, suc, ◌+◌, ℤ, pos, String, Bool, true, false, ◌&&◌, ◌||◌, not, Option, none, some, List,
  [], ◌∷◌, ◌++◌, ◌==◌, int_eq, if◌then◌else◌, contains, int_leb, length, select,
}
use llm_evolutionary_samplin.Prelude.Dict.{Dict, lookup, insert, keys, values}
use llm_evolutionary_samplin.Prelude.Sort.{sort}
use llm_evolutionary_samplin.Json.{Fields}
use llm_evolutionary_samplin.Refs.{internal_ids, key_id}
use llm_evolutionary_samplin.Graph.{topo_order_from_roots}

-- `while x in used: x += 1`, with fuel for the rounds
unfoldable pub next_free : ℕ → ℕ → List ℤ → ℕ
next_free zero x used = x
next_free (suc fuel) x used =
    let more = next_free fuel (x + 1) used in if contains used (pos x) then more else x

-- `used` and `mapping`
pub record Assigned : Type 0 where
  pub used : List ℤ
  pub mapping : Dict ℤ ℤ

-- A node keeps its id if that is free, and takes the least free one otherwise. The numbers from 0 on are
-- free at the latest behind the length of `used`.
unfoldable pub new_id : Assigned → ℤ → ℤ
new_id s oid =
    if not (contains s.used oid) && not (contains (values s.mapping) oid)
    then oid
    else pos (next_free (suc (length s.used)) 0 s.used)

unfoldable pub assign_one : Assigned → ℤ → Assigned
assign_one s oid =
    let nid = new_id s oid in record { used = nid ∷ s.used; mapping = insert oid nid s.mapping }

unfoldable pub assign_each : Assigned → List ℤ → Assigned
assign_each s [] = s
assign_each s (oid ∷ oids) = assign_each (assign_one s oid) oids

-- `[int(k) for k in traversal if k.isdigit()]`
unfoldable pub ids_of : List String → List ℤ
ids_of [] = []
ids_of (k ∷ ks) = key_id k ++ ids_of ks

-- `for oid in old_ids_sorted: if oid not in seen: traversal_ids.append(oid)`
unfoldable pub with_missing : List ℤ → List ℤ → List ℤ
with_missing traversal_ids old_ids_sorted =
    traversal_ids ++ select (λ oid. not (contains traversal_ids oid)) old_ids_sorted

-- `none` is fuel that ran out in the traversal.
unfoldable pub assign_new_node_ids : Fields → List ℤ → Option (Dict ℤ ℤ)
assign_new_node_ids structure reserved = elim (topo_order_from_roots structure) [
  | none ↦ none
  | some traversal ↦
      some
        (assign_each (record { used = reserved; mapping = [] })
          (with_missing (ids_of traversal) (sort int_leb (internal_ids structure)))).mapping
]
