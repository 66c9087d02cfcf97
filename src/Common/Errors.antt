-- ===== src/Common/Errors.antt =====
-- Go's `error` values. What `fmt.Errorf` builds is kept as its format with its arguments, the
-- typed errors of the repository have a constructor each, and `os` stands for an error that the
-- operating system or the standard library returns. `time` is a time of the clock, in milliseconds,
-- that is printed in the format of RFC 3339. A file path among the arguments is left out
-- where the model has a single file of its kind.
use Prim.Native.Nat.{ℕ}
use Prim.Native.String.{String}
use mathlib.Core.List.{List}
use mathlib.Core.Path.{◌≡◌, refl}
use mathlib.Core.Logic.{◌⊎◌, inl, inr}

-- `int`; `negsuc n` is -(n + 1).
pub data ℤ : Type 0 where
  pos : ℕ → ℤ
  negsuc : ℕ → ℤ

mutual
  pub data Error : Type 0 where
    errorf : String → Args → Error
    os : String → Error
    lock_held : ℤ → Error
    state_file_not_found : Error
    state_file_corrupt : Error → Error
    invalid_state : String → Error

  pub data Args : Type 0 where
    nil : Args
    text : String → Args → Args
    number : ℕ → Args → Args
    time : ℕ → Args → Args
    texts : List String → Args → Args
    cause : Error → Args → Args
    bytes : List ℕ → Args → Args

-- A function with the results `(A, error)`.
pub data Result {ℓ} (A : Type ℓ) : Type ℓ where
  ok : A → Result A
  err : Error → Result A

-- `fmt.Errorf("…: %w", err)`
abbrev pub wrap : String → Error → Error
wrap format e = errorf format (cause e nil)

-- `errors.New`, or `fmt.Errorf` with no arguments
abbrev pub message : String → Error
message s = errorf s nil

pub Result-cases {ℓ} :
    {A : Type ℓ} (r : Result A) → ((a : A) × (r ≡ ok a)) ⊎ ((e : Error) × (r ≡ err e))
Result-cases (ok a) = inl (a, refl)
Result-cases (err e) = inr (e, refl)

pub ok-injective {ℓ} : {A : Type ℓ} {a b : A} → Path (Result A) (ok a) (ok b) → a ≡ b
ok-injective h = cc
