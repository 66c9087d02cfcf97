-- ===== src/Executor/Decimal.antt =====
-- Decimal numbers as bytes and as text: `%d` of fmt, and strconv.Atoi.
pub mod RoundTrip
pub mod Scan
use Prim.Native.String.{◌++◌ as text_append}
use lab_env.Common.{
  ℕ, zero, suc, ◌+◌, ◌-◌, ◌*◌, ◌/◌, ◌%◌, ◌^◌, String, Bool, true, false, Option, none, some, List,
  [], ◌∷◌, ltb, leb, ◌==◌, nat_eq, ◌&&◌, ◌||◌, map, if◌then◌else◌,
}
use lab_env.Common.Errors.{ℤ, pos, negsuc}
use lab_env.Common.Bytes.{Bytes}

-- The digits of a number in front of `out`; the fuel is more than the number.
pub digits_from : ℕ → ℕ → List ℕ → List ℕ
digits_from zero n out = out
digits_from (suc fuel) n out =
    let rest = digits_from fuel (n / 10) (n % 10 ∷ out) in if ltb n 10 then n ∷ out else rest

pub digits : ℕ → List ℕ
unfolding digits_from
digits n = digits_from (suc n) n []

-- `%d` as bytes.
unfoldable pub decimal : ℕ → Bytes
unfolding digits
decimal n = map (λ d. b'0' + d) (digits n)

digit_text : ℕ → String
digit_text zero = "0"
digit_text (suc zero) = "1"
digit_text (suc (suc zero)) = "2"
digit_text (suc (suc (suc zero))) = "3"
digit_text (suc (suc (suc (suc zero)))) = "4"
digit_text (suc (suc (suc (suc (suc zero))))) = "5"
digit_text (suc (suc (suc (suc (suc (suc zero)))))) = "6"
digit_text (suc (suc (suc (suc (suc (suc (suc zero))))))) = "7"
digit_text (suc (suc (suc (suc (suc (suc (suc (suc zero)))))))) = "8"
digit_text _ = "9"

join_digits : List ℕ → String
unfolding digit_text
join_digits [] = ""
join_digits (d ∷ ds) = text_append (digit_text d) (join_digits ds)

-- `%d` as a text.
unfoldable pub decimal_text : ℕ → String
unfolding digits join_digits
decimal_text n = join_digits (digits n)

is_digit : ℕ → Bool
is_digit c = leb b'0' c && leb c b'9'

-- The value of a run of digits behind the value read so far.
pub digits_value : Bytes → ℕ → Option ℕ
unfolding is_digit
digits_value [] n = some n
digits_value (c ∷ s) n =
    let rest = digits_value s (n * 10 + (c - b'0')) in if is_digit c then rest else none

unfoldable pub magnitude : Bytes → Option ℕ
unfolding digits_value
magnitude [] = none
magnitude (c ∷ s) = digits_value (c ∷ s) 0

abbrev pub max_int : ℕ
max_int = 2 ^ 63 - 1

in_range : Bool → Option ℕ → Option ℤ
in_range negative none = none
in_range false (some n) = if leb n max_int then some (pos n) else none
in_range true (some zero) = some (pos 0)
in_range true (some (suc n)) = if leb n max_int then some (negsuc n) else none

-- `strconv.Atoi`: an optional sign, at least one digit, and the range of a 64-bit `int`.
unfoldable pub atoi : Bytes → Option ℤ
unfolding in_range
atoi [] = none
atoi (c ∷ s) =
    if c == b'-'
    then in_range true (magnitude s)
    else if c == b'+'
    then in_range false (magnitude s)
    else in_range false (magnitude (c ∷ s))
