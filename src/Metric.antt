-- ===== src/Metric.antt =====
-- `get_metric_value` of src/dbplanbench_utils.py, and the order of metric values by which plans are
-- ranked.
use Prim.Native.Char.{Char, code}
use Prim.Native.String.{String}
use llm_evolutionary_samplin.Prelude.{
  pos, Bool, true, false, not, Option, none, some, List, [], ◌∷◌, ◌==◌, nat_eq, int_eq,
  if◌then◌else◌, Result, ok, err,
}
use llm_evolutionary_samplin.Error.{Error, attribute_error}
use llm_evolutionary_samplin.Json.{Json, null, bool, int, float, str, arr, obj, nil, end}
use llm_evolutionary_samplin.Json.Objects.{get_field}
use llm_evolutionary_samplin.Json.Equality.{Floats}

-- What Python does with two numbers: `<`.
pub record Numbers : Type 0 where
  pub floats : Floats
  pub less : (a b : Json) → Bool

cons_head : Char → List String → List String
cons_head c [] = []
cons_head c (t ∷ ts) = String.◌∷◌ c t ∷ ts

-- `s.split(".")`
unfoldable pub split_dots : String → List String
unfolding cons_head
split_dots String.[] = "" ∷ []
split_dots (String.◌∷◌ c s) =
    let rest = split_dots s in if code c == b'.' then "" ∷ rest else cons_head c rest

-- `float("inf")`
abbrev pub infinity : Json
infinity = float 9218868437227405312

abbrev pub is_number : Json → Bool
is_number (int n) = true
is_number (float b) = true
is_number (bool b) = true
is_number _ = false

abbrev pub as_number : Json → Option Json
as_number v = if is_number v then some v else none

-- `bool(v)`
unfoldable pub truthy : Floats → Json → Bool
truthy floats null = false
truthy floats (bool b) = b
truthy floats (int n) = not (n == pos 0)
truthy floats (float b) = not (floats.same_int b (pos 0))
truthy floats (str s) = elim s [ String.[] ↦ false | String.◌∷◌ c t ↦ true ]
truthy floats (arr xs) = elim xs [ nil ↦ false | _ ↦ true ]
truthy floats (obj fs) = elim fs [ end ↦ false | _ ↦ true ]

abbrev pub field_of : String → Json → Option Json
field_of k (obj fs) = get_field k fs
field_of k _ = none

-- The loop over the parts of a dotted path.
unfoldable pub walk_path : List String → Json → Option Json
walk_path [] v = some v
walk_path (part ∷ parts) v = elim (field_of part v) [ none ↦ none | some w ↦ walk_path parts w ]

abbrev pub or_same : Json → Option Json → Json
or_same v none = v
or_same v (some w) = w

abbrev pub number_or_none : Option Json → Option Json
number_or_none none = none
number_or_none (some v) = as_number v

abbrev pub simple_metric : Json → String → Result Error (Option Json)
simple_metric (obj fs) path = ok (number_or_none (get_field path fs))
simple_metric _ path = err attribute_error

abbrev pub by_parts : Json → String → List String → Result Error (Option Json)
by_parts stats path [] = simple_metric stats path
by_parts stats path (p ∷ []) = simple_metric stats path
by_parts stats path (p ∷ q ∷ ps) =
    ok (number_or_none (walk_path (p ∷ q ∷ ps) (or_same stats (field_of "benchmark_stats" stats))))

unfoldable pub get_metric_value : Floats → Json → String → Result Error (Option Json)
get_metric_value floats stats path =
    if truthy floats stats then by_parts stats path (split_dots path) else ok none
