-- ===== src/Prelude/Text/RoundTrip.antt =====
-- `int(str(n))` is `n`, and `str(n).isdigit()` holds of a natural number.
use Prim.Native.Nat.{ℕ, zero, suc, ◌+◌, ◌-◌, ◌*◌, ◌/◌, ◌%◌, ◌<◌}
use Prim.Native.Char.{Char, code}
use Prim.Native.String.{String}
use mathlib.Core.Path.{◌≡◌, refl, ap, ◌∙◌}
use mathlib.Core.Logic.{inl, inr}
use mathlib.Core.Bool.{Bool, true, false}
use mathlib.Core.Option.{some}
use native.Mathlib.Omega.{arith}
use llm_evolutionary_samplin.Prelude.Tests.{ltb, Bool-cases}
use llm_evolutionary_samplin.Prelude.Int.{ℤ, pos, negsuc}
use llm_evolutionary_samplin.Prelude.Text.{
  all_digits, is_digit, scan_int, negate, positive, parse_int, digit_char, emit_digits, str_ℕ,
  str_ℤ,
}

code-digit_char : (n : ℕ) → n < 10 → code (digit_char n) ≡ 48 + n
unfolding digit_char
code-digit_char zero h = refl
code-digit_char (suc zero) h = refl
code-digit_char (suc (suc zero)) h = refl
code-digit_char (suc (suc (suc zero))) h = refl
code-digit_char (suc (suc (suc (suc zero)))) h = refl
code-digit_char (suc (suc (suc (suc (suc zero))))) h = refl
code-digit_char (suc (suc (suc (suc (suc (suc zero)))))) h = refl
code-digit_char (suc (suc (suc (suc (suc (suc (suc zero))))))) h = refl
code-digit_char (suc (suc (suc (suc (suc (suc (suc (suc zero)))))))) h = refl
code-digit_char (suc (suc (suc (suc (suc (suc (suc (suc (suc zero))))))))) h = refl
code-digit_char (suc (suc (suc (suc (suc (suc (suc (suc (suc (suc n)))))))))) h =
    absurd (omega arith)

-- One digit more.
scan-digit :
    (b : Bool) (acc n : ℕ) (rest : String)
    → n < 10
    → scan_int b acc (String.◌∷◌ (digit_char n) rest) ≡ scan_int true (acc * 10 + n) rest
unfolding scan_int
scan-digit b acc n rest h = ground (arith, code-digit_char n h)

scan-emit_digits :
    (f n : ℕ) (b : Bool) (rest : String)
    → n < f
    → scan_int b 0 (emit_digits f n rest) ≡ scan_int true n rest
unfolding emit_digits
scan-emit_digits zero n b rest h = elim h [ ]
scan-emit_digits (suc f) n b rest h = elim (Bool-cases (ltb n 10)) [
  | inl small ↦
      rw small (scan-digit b 0 n rest (ground arith) ∙ ap (λ k. scan_int true k rest) (omega arith))
  | inr large ↦ rw large (
      scan-emit_digits f (n / 10) b _ (ground arith)
      ∙ scan-digit true (n / 10) (n % 10) rest (omega arith)
      ∙ ap (λ k. scan_int true k rest) (omega arith))
]

all_digits-emit_digits :
    (f n : ℕ) (rest : String)
    → n < f
    → all_digits rest ≡ true
    → is_digit (emit_digits f n rest) ≡ true
unfolding emit_digits is_digit
all_digits-emit_digits zero n rest h hr = elim h [ ]
all_digits-emit_digits (suc f) n rest h hr = elim (Bool-cases (ltb n 10)) [
  | inl small ↦ rw small (ground (arith, code-digit_char n))
  | inr large ↦ rw large (
      all_digits-emit_digits f (n / 10) _ (ground arith) (ground (arith, code-digit_char (n % 10))))
]

-- The text of a natural number is made of digits, and is not empty.
pub is_digit-str_ℕ : (n : ℕ) → is_digit (str_ℕ n) ≡ true
unfolding str_ℕ
is_digit-str_ℕ n =
    all_digits-emit_digits (suc n) n String.[] (omega arith) (unfold all_digits in refl)

-- On a text of digits `int` is the scan of them.
parse_int-digits : (s : String) → is_digit s ≡ true → parse_int s ≡ positive (scan_int false 0 s)
unfolding parse_int is_digit
parse_int-digits String.[] h = cc
parse_int-digits (String.◌∷◌ c s) h = ground arith

scan-str_ℕ : (n : ℕ) (b : Bool) → scan_int b 0 (str_ℕ n) ≡ some n
unfolding str_ℕ
scan-str_ℕ n b = scan-emit_digits (suc n) n b String.[] (omega arith) ∙ (unfold scan_int in refl)

pub parse_int-str_ℕ : (n : ℕ) → parse_int (str_ℕ n) ≡ some (pos n)
parse_int-str_ℕ n =
    parse_int-digits (str_ℕ n) (is_digit-str_ℕ n)
    ∙ ap positive (scan-str_ℕ n false)
    ∙ (unfold positive in refl)

minus-digits : (s : String) → parse_int (String.◌∷◌ "-" s) ≡ negate (scan_int false 0 s)
unfolding parse_int
minus-digits s = refl

-- Printing an integer by `str` and reading it by `int` gives the integer back.
pub parse_int-str_ℤ : (n : ℤ) → parse_int (str_ℤ n) ≡ some n
unfolding str_ℤ
parse_int-str_ℤ (pos n) = parse_int-str_ℕ n
parse_int-str_ℤ (negsuc n) =
    minus-digits (str_ℕ (suc n)) ∙ ap negate (scan-str_ℕ (suc n) false) ∙ (unfold negate in refl)

all_digits-scan :
    (s : String) (acc : ℕ) → all_digits s ≡ true → (n : ℕ) × (scan_int true acc s ≡ some n)
unfolding all_digits scan_int
all_digits-scan String.[] acc h = (acc, refl)
all_digits-scan (String.◌∷◌ c s) acc h =
    let (n, e) = all_digits-scan s (acc * 10 + (code c - 48)) (ground arith) in (n, ground arith)

-- A text of digits reads as a natural number.
pub parse_int-is_digit : (s : String) → is_digit s ≡ true → (n : ℕ) × (parse_int s ≡ some (pos n))
parse_int-is_digit String.[] h = unfold is_digit in cc h
parse_int-is_digit (String.◌∷◌ c s) h =
    let (n, e) = first_digit c s h in
    (n, parse_int-digits (String.◌∷◌ c s) h ∙ ap positive e ∙ (unfold positive in refl))
  where
    first_digit :
        (c : Char) (s : String)
        → is_digit (String.◌∷◌ c s) ≡ true
        → (n : ℕ) × (scan_int false 0 (String.◌∷◌ c s) ≡ some n)
    first_digit c s h =
        let (n, e) = all_digits-scan s (0 * 10 + (code c - 48)) (unfold is_digit in ground arith) in
        (n, unfold scan_int is_digit in ground arith)
