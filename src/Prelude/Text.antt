-- ===== src/Prelude/Text.antt =====
-- Texts, character by character: `isdigit`, `int` and `str`. Characters are classified as ASCII.
pub mod RoundTrip
use Prim.Native.Nat.{ℕ, zero, suc, ◌+◌, ◌-◌, ◌*◌, ◌/◌, ◌%◌, ◌≤◌, ◌<◌}
use Prim.Native.Char.{Char, code}
use Prim.Native.String.{String}
use mathlib.Core.Path.{◌≡◌, refl}
use mathlib.Core.Bool.{Bool, true, false, ◌&&◌, ◌||◌}
use mathlib.Core.Option.{Option, none, some}
use native.Mathlib.Omega.{arith}
use llm_evolutionary_samplin.Prelude.Tests.{if◌then◌else◌, leb, ltb, nat_beq}
use llm_evolutionary_samplin.Prelude.Int.{ℤ, pos, negsuc}

abbrev pub is_digit_code : ℕ → Bool
is_digit_code c = leb 48 c && leb c 57

abbrev pub is_space_code : ℕ → Bool
is_space_code c = (leb 9 c && leb c 13) || nat_beq c 32

all_digits : String → Bool
all_digits String.[] = true
all_digits (String.◌∷◌ c s) = is_digit_code (code c) && all_digits s

-- `s.isdigit()`
unfoldable pub is_digit : String → Bool
unfolding all_digits
is_digit String.[] = false
is_digit (String.◌∷◌ c s) = is_digit_code (code c) && all_digits s

all_spaces : String → Bool
all_spaces String.[] = true
all_spaces (String.◌∷◌ c s) = is_space_code (code c) && all_spaces s

-- The digits of `int(s)`: an underscore may stand between two of them, white space behind them.
scan_int : (after_digit : Bool) → ℕ → String → Option ℕ
scan_int after_digit acc String.[] = if after_digit then some acc else none
scan_int after_digit acc (String.◌∷◌ ch s) =
    let c = code ch in
    let digit = scan_int true (acc * 10 + (c - 48)) s in
    let underscore = scan_int false acc s in
    if is_digit_code c
    then digit
    else if after_digit && nat_beq c b'_'
    then underscore
    else if after_digit && is_space_code c && all_spaces s
    then some acc
    else none

negate : Option ℕ → Option ℤ
negate none = none
negate (some zero) = some (pos 0)
negate (some (suc n)) = some (negsuc n)

positive : Option ℕ → Option ℤ
positive none = none
positive (some n) = some (pos n)

-- `int(s)`; `none` is a `ValueError`.
unfoldable pub parse_int : String → Option ℤ
unfolding scan_int negate positive all_spaces
parse_int String.[] = none
parse_int (String.◌∷◌ ch s) =
    let c = code ch in
    let rest = parse_int s in
    if is_space_code c
    then rest
    else if nat_beq c b'-'
    then negate (scan_int false 0 s)
    else if nat_beq c b'+'
    then positive (scan_int false 0 s)
    else positive (scan_int false 0 (String.◌∷◌ ch s))

digit_char : ℕ → Char
digit_char zero = "0"
digit_char (suc zero) = "1"
digit_char (suc (suc zero)) = "2"
digit_char (suc (suc (suc zero))) = "3"
digit_char (suc (suc (suc (suc zero)))) = "4"
digit_char (suc (suc (suc (suc (suc zero))))) = "5"
digit_char (suc (suc (suc (suc (suc (suc zero)))))) = "6"
digit_char (suc (suc (suc (suc (suc (suc (suc zero))))))) = "7"
digit_char (suc (suc (suc (suc (suc (suc (suc (suc zero)))))))) = "8"
digit_char _ = "9"

-- The digits of `n` in front of `rest`. The fuel `suc n` is enough: each round divides by ten.
emit_digits : ℕ → ℕ → String → String
emit_digits zero n rest = rest
emit_digits (suc fuel) n rest =
    let more = emit_digits fuel (n / 10) (String.◌∷◌ (digit_char (n % 10)) rest) in
    if ltb n 10 then String.◌∷◌ (digit_char n) rest else more

-- `str(n)`
unfoldable pub str_ℕ : ℕ → String
unfolding emit_digits digit_char
str_ℕ n = emit_digits (suc n) n String.[]

unfoldable pub str_ℤ : ℤ → String
unfolding str_ℕ
str_ℤ (pos n) = str_ℕ n
str_ℤ (negsuc n) = String.◌∷◌ "-" (str_ℕ (suc n))

int_and_str : parse_int " -1_20 " ≡ some (negsuc 119)
unfolding parse_int
int_and_str = refl

str_runs : str_ℤ (negsuc 119) ≡ "-120"
unfolding str_ℤ
str_runs = refl
