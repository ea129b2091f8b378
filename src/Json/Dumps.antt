-- ===== src/Json/Dumps.antt =====
-- `_json_dumps_canonical` of src/sampling/plan_scaler.py: `json.dumps` with sorted keys, no spaces and
-- characters written as they are.
use Prim.Native.Char.{Char, code}
use Prim.Native.String.{◌++◌, compare}
use text.Mathlib.Text.{is_le}
use llm_evolutionary_samplin.Prelude.{
  ℕ, ◌/◌, ◌%◌, String, Bool, true, false, List, [], ◌∷◌, if◌then◌else◌, ◌==◌, nat_eq, ltb, str_ℤ,
}
use llm_evolutionary_samplin.Prelude.Sort.{sort}
use llm_evolutionary_samplin.Json.{Json, Items, Fields}
use llm_evolutionary_samplin.Json.Equality.{Floats}

abbrev pub text_le : String → String → Bool
text_le s t = is_le (compare s t)

-- A hexadecimal digit.
hex_digit : ℕ → String
hex_digit n =
    if n == 0
    then "0"
    else if n == 1
    then "1"
    else if n == 2
    then "2"
    else if n == 3
    then "3"
    else if n == 4
    then "4"
    else if n == 5
    then "5"
    else if n == 6
    then "6"
    else if n == 7
    then "7"
    else if n == 8
    then "8"
    else if n == 9
    then "9"
    else if n == 10
    then "a"
    else if n == 11
    then "b"
    else if n == 12
    then "c"
    else if n == 13
    then "d"
    else if n == 14
    then "e"
    else "f"

-- One character inside quotes.
escape_char : Char → String
unfolding hex_digit
escape_char ch =
    let c = code ch in
    if c == b'"'
    then "\\\""
    else if c == b'\\'
    then "\\\\"
    else if c == 10
    then "\\n"
    else if c == 13
    then "\\r"
    else if c == 9
    then "\\t"
    else if c == 12
    then "\\f"
    else if c == 8
    then "\\b"
    else if ltb c 32
    then "\\u00" ++ (hex_digit (c / 16) ++ hex_digit (c % 16))
    else String.◌∷◌ ch String.[]

escape : String → String
unfolding escape_char
escape String.[] = String.[]
escape (String.◌∷◌ c s) = escape_char c ++ escape s

quote : String → String
unfolding escape
quote s = "\"" ++ (escape s ++ "\"")

-- The texts between commas.
join_commas : List String → String
join_commas [] = ""
join_commas (s ∷ []) = s
join_commas (s ∷ t ∷ ts) = s ++ ("," ++ join_commas (t ∷ ts))

-- The entries of an object, by key.
join_entries : List (String × String) → List String
unfolding quote
join_entries [] = []
join_entries ((k, v) ∷ es) = (quote k ++ (":" ++ v)) ∷ join_entries es

abbrev by_key : String × String → String × String → Bool
by_key a b = text_le a.0 b.0

dumps_obj : List (String × String) → String
unfolding join_entries join_commas sort
dumps_obj es = "{" ++ (join_commas (join_entries (sort by_key es)) ++ "}")

dumps_arr : List String → String
unfolding join_commas
dumps_arr ts = "[" ++ (join_commas ts ++ "]")

module _ (floats : Floats) where
  unfoldable mutual
    unfolding quote dumps_obj dumps_arr

    pub json_dumps_canonical : Json → String
    json_dumps_canonical Json.null = "null"
    json_dumps_canonical (Json.bool true) = "true"
    json_dumps_canonical (Json.bool false) = "false"
    json_dumps_canonical (Json.int n) = str_ℤ n
    json_dumps_canonical (Json.float b) = floats.repr b
    json_dumps_canonical (Json.str s) = quote s
    json_dumps_canonical (Json.arr xs) = dumps_arr (dumps_items xs)
    json_dumps_canonical (Json.obj fs) = dumps_obj (dumps_fields fs)

    pub dumps_items : Items → List String
    dumps_items Items.nil = []
    dumps_items (Items.cons x xs) = json_dumps_canonical x ∷ dumps_items xs

    pub dumps_fields : Fields → List (String × String)
    dumps_fields Fields.end = []
    dumps_fields (Fields.field k v fs) = (k, json_dumps_canonical v) ∷ dumps_fields fs
