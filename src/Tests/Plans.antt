-- ===== src/Tests/Plans.antt =====
-- Small documents: two scale factors with two tables each, and a join over them.
use llm_evolutionary_samplin.Prelude.{ℕ, pos, String, false, ◌==◌, nat_eq}
use llm_evolutionary_samplin.Json.{Json, int, str, arr, obj, nil, cons, Fields, end, field}
use llm_evolutionary_samplin.Json.Equality.{Floats}

-- No float occurs in these documents.
abbrev pub no_floats : Floats
no_floats = record { same = λ a b. a == b; same_int = λ a n. false; repr = λ a. "0.0" }

abbrev pub number : ℕ → Json
number n = int (pos n)

-- The scan of a table.
abbrev pub scan : String → Json
scan table = obj (field "parquetScan" (obj (field "predicate" (str table) end)) end)

abbrev pub entry : ℕ → String → Json
entry n table = obj (field "id" (number n) (field "node" (scan table) end))

abbrev pub sf1_info : Json
sf1_info = arr (cons (entry 10 "lineitem") (cons (entry 11 "orders") nil))

abbrev pub sf2_info : Json
sf2_info = arr (cons (entry 1 "orders") (cons (entry 2 "lineitem") nil))

abbrev pub node : String → Fields → Json
node op conf = obj (field op (obj conf) end)

abbrev pub join : ℕ → ℕ → Json
join l r = node "hashJoin" (field "left" (number l) (field "right" (number r) end))

abbrev pub limit : ℕ → Json
limit n = node "limit" (field "input" (number n) end)

-- A limit over a join of the two scans.
abbrev pub sf1_fields : Fields
sf1_fields = field "1" (limit 2) (field "2" (join 10 11) end)

abbrev pub sf1_base : Json
sf1_base = obj sf1_fields

-- The patch swaps the sides of the join.
abbrev pub swap_patch : Json
swap_patch = arr (
    cons
      (obj (
        field "op" (str "replace")
          (field "path" (str "/2/hashJoin/left") (field "value" (number 11) end))))
      (cons
        (obj (
          field "op" (str "replace")
            (field "path" (str "/2/hashJoin/right") (field "value" (number 10) end))))
        nil))
