-- ===== src/Service/Telemetry/Stat.antt =====
-- service/telemetry/telemetry.go: reading /proc/self/stat, whatever the name of the process is.
use lab_env.Common.{
  ℕ, ◌*◌, ◌≤◌, ◌≡◌, refl, false, ◌∷◌, ◌++◌, All, length, ltb, some, nat_eq, ◌==◌, arith,
}
use lab_env.Common.Errors.{ℤ, ok}
use lab_env.Common.Bytes.{Bytes}
use lab_env.Common.Words.{mul64, div64}
use lab_env.Executor.Decimal.{decimal, max_int}
use lab_env.Executor.Decimal.RoundTrip.{atoi-decimal}
use lab_env.Service.Telemetry.{read_cpu_sample, ticks_ms, sample_of}
use lab_env.Service.Telemetry.Fields.{fields, after_last-append, get_elem?}

-- Ticks are converted to milliseconds without an overflow.
ticks_ms-pos : (n : ℕ) → n * 1000 ≤ max_int → ticks_ms (ℤ.pos n) ≡ ℤ.pos (n * 10)
unfolding mul64 div64
ticks_ms-pos n h = ground arith

-- From `pid (name) rest`, with any name, spaces and parentheses included, where no byte of `rest` is
-- a closing parenthesis and its fields 11 and 12 are the decimal numbers of ticks below the bound of
-- the conversion: the sample has ten times these numbers as milliseconds.
pub read_cpu_sample-fields :
    (at : ℕ) (front rest : Bytes) (utime stime : ℕ)
    → All (λ c. (c == b')') ≡ false) rest
    → ltb (length (fields rest)) 13 ≡ false
    → get_elem? (fields rest) 11 ≡ some (decimal utime)
    → get_elem? (fields rest) 12 ≡ some (decimal stime)
    → utime * 1000 ≤ max_int
    → stime * 1000 ≤ max_int
    → read_cpu_sample at (ok (front ++ b')' ∷ rest))
      ≡ ok (record { at = at; user_ms = ℤ.pos (utime * 10); system_ms = ℤ.pos (stime * 10) })
unfolding read_cpu_sample sample_of
read_cpu_sample-fields at front rest utime stime plain long u s hu hs =
    rw
      (
        after_last-append b')' front rest plain,
        long,
        u,
        s,
        atoi-decimal utime (omega arith),
        atoi-decimal stime (omega arith),
        ticks_ms-pos utime hu,
        ticks_ms-pos stime hs,
      )
      refl
