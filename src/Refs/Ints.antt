-- ===== src/Refs/Ints.antt =====
-- `_is_intish` and `_to_int` agree: the ValueError of `_to_int` is never raised behind the test.
use llm_evolutionary_samplin.Prelude.{ℤ, pos, ◌≡◌, refl, true, false, none, some}
use llm_evolutionary_samplin.Prelude.Text.RoundTrip.{parse_int-is_digit}
use llm_evolutionary_samplin.Json.{Json, null, bool, int, float, str, arr, obj}
use llm_evolutionary_samplin.Json.Equality.{bool_int}
use llm_evolutionary_samplin.Refs.{is_intish, to_int}

pub intish_to_int : (v : Json) → is_intish v ≡ true → (r : ℤ) × (to_int v ≡ some r)
unfolding is_intish to_int
intish_to_int null h = cc
intish_to_int (bool b) h = (bool_int b, refl)
intish_to_int (int n) h = (n, refl)
intish_to_int (float b) h = cc
intish_to_int (str s) h = let (n, e) = parse_int-is_digit s h in (pos n, rw h e)
intish_to_int (arr xs) h = cc
intish_to_int (obj fs) h = cc

pub other_to_int : (v : Json) → is_intish v ≡ false → to_int v ≡ none
unfolding is_intish to_int
other_to_int null h = refl
other_to_int (bool b) h = cc
other_to_int (int n) h = cc
other_to_int (float b) h = refl
other_to_int (str s) h = rw h
other_to_int (arr xs) h = refl
other_to_int (obj fs) h = refl
