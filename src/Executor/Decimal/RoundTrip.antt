-- ===== src/Executor/Decimal/RoundTrip.antt =====
-- What `%d` prints, strconv.Atoi reads back.
use lab_env.Common.Bytes.{is_space}
use lab_env.Common.{
  ltb→lt, ◌∙◌, ℕ, zero, suc, ◌+◌, ◌*◌, ◌/◌, ◌%◌, ◌<◌, ◌≤◌, ◌≡◌, refl, some, List, [], ◌∷◌, ltb, map,
  arith, Bool-cases, inl, inr, All, false,
}
use lab_env.Common.Errors.{pos}
use lab_env.Executor.Decimal.{digits_from, digits, decimal, digits_value, atoi, magnitude, max_int}

abbrev bytes_of : List ℕ → List ℕ
bytes_of = map (λ d. b'0' + d)

digits_value-digit :
    (d v : ℕ) (rest : List ℕ)
    → d < 10
    → digits_value ((b'0' + d) ∷ rest) v ≡ digits_value rest (v * 10 + d)
unfolding digits_value
digits_value-digit d v rest h = ground arith

digits_value-digits_from :
    (fuel n : ℕ) (out : List ℕ)
    → n < fuel
    → digits_value (bytes_of (digits_from fuel n out)) 0 ≡ digits_value (bytes_of out) n
unfolding digits_from
digits_value-digits_from zero n out h = elim h [ ]
digits_value-digits_from (suc fuel) n out h = ground (
  arith,
  digits_value-digit n 0 (bytes_of out),
  digits_value-digit (n % 10) (n / 10) (bytes_of out),
  digits_value-digits_from fuel (n / 10) (n % 10 ∷ out),
)

digits_from-ne-nil :
    (fuel n : ℕ) (out : List ℕ)
    → n < fuel
    → (d : ℕ) × (ds : List ℕ) × (digits_from fuel n out ≡ d ∷ ds) × (d < 10)
unfolding digits_from
digits_from-ne-nil zero n out h = elim h [ ]
digits_from-ne-nil (suc fuel) n out h = elim (Bool-cases (ltb n 10)) [
  | inl small ↦ (n, out, rw small, ground arith)
  | inr large ↦ rw large (digits_from-ne-nil fuel (n / 10) (n % 10 ∷ out) (ground arith))
]

-- A digit is neither a sign nor white space.
pub decimal_head : (n : ℕ) → (d : ℕ) × (ds : List ℕ) × (decimal n ≡ (b'0' + d) ∷ ds) × (d < 10)
unfolding decimal digits
decimal_head n =
    let (d, ds, e, small) = digits_from-ne-nil (suc n) n [] (omega arith) in
    (d, bytes_of ds, rw e, small)

digits_value-nil : (n : ℕ) → digits_value [] n ≡ some n
unfolding digits_value
digits_value-nil n = refl

digits_value-decimal : (n : ℕ) → digits_value (decimal n) 0 ≡ some n
unfolding decimal
digits_value-decimal n = digits_value-digits_from (suc n) n [] (omega arith) ∙ digits_value-nil n

magnitude-decimal : (n : ℕ) → magnitude (decimal n) ≡ some n
unfolding magnitude
magnitude-decimal n =
    let (d, ds, e, small) = decimal_head n in rw e (rw e at (digits_value-decimal n))

-- Atoi reads what `%d` prints, for every number in the range of `int`.
pub atoi-decimal : (n : ℕ) → n ≤ max_int → atoi (decimal n) ≡ some (pos n)
unfolding atoi
atoi-decimal n h = let (d, ds, e, small) = decimal_head n in ground (arith, e, magnitude-decimal n)

digits_from-All :
    (fuel n : ℕ) (out : List ℕ) → All (λ d. d < 10) out → All (λ d. d < 10) (digits_from fuel n out)
unfolding digits_from
digits_from-All zero n out h = h
digits_from-All (suc fuel) n out h = elim (Bool-cases (ltb n 10)) [
  | inl small ↦ rw small (ltb→lt n 10 small, h)
  | inr large ↦ rw large (digits_from-All fuel (n / 10) (n % 10 ∷ out) (omega arith, h))
]

digit_not_space : (d : ℕ) → d < 10 → is_space (b'0' + d) ≡ false
unfolding is_space
digit_not_space d h = ground arith

bytes_of-All : (ds : List ℕ) → All (λ d. d < 10) ds → All (λ c. is_space c ≡ false) (bytes_of ds)
bytes_of-All [] h = tt
bytes_of-All (d ∷ ds) h = (digit_not_space d h.0, bytes_of-All ds h.1)

-- No byte of a decimal number is white space.
pub decimal-All : (n : ℕ) → All (λ c. is_space c ≡ false) (decimal n)
unfolding decimal digits
decimal-All n = bytes_of-All _ (digits_from-All (suc n) n [] tt)
