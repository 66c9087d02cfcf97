-- ===== src/Common/Words.antt =====
-- Signed 64-bit integers with their wrap-around, as residues below 2 ^ 64, and unsigned ones.
use lab_env.Common.Tests.{ltb, if◌then◌else◌}
use Prim.Native.Nat.{ℕ, suc, ◌+◌, ◌-◌, ◌*◌, ◌/◌, ◌%◌, ◌^◌}
use lab_env.Common.Errors.{ℤ}

abbrev pub word_mod : ℕ
word_mod = 2 ^ 64

abbrev pub residue : ℤ → ℕ
residue (ℤ.pos n) = n % word_mod
residue (ℤ.negsuc n) = word_mod - 1 - n % word_mod

-- The `int64` of a residue.
abbrev pub signed : ℕ → ℤ
signed r = if ltb r (2 ^ 63) then ℤ.pos r else ℤ.negsuc (word_mod - 1 - r)

unfoldable pub add64 : ℤ → ℤ → ℤ
add64 a b = signed ((residue a + residue b) % word_mod)

unfoldable pub sub64 : ℤ → ℤ → ℤ
sub64 a b = signed ((residue a + word_mod - residue b) % word_mod)

unfoldable pub mul64 : ℤ → ℤ → ℤ
mul64 a b = signed (residue a * residue b % word_mod)

-- The number -n.
abbrev negative : ℕ → ℤ
negative n = if ltb 0 n then ℤ.negsuc (n - 1) else ℤ.pos 0

-- Division by a positive constant rounds towards 0.
unfoldable pub div64 : ℤ → ℕ → ℤ
div64 (ℤ.pos n) k = ℤ.pos (n / k)
div64 (ℤ.negsuc n) k = negative (suc n / k)

-- `uint64` subtraction
unfoldable pub sub_unsigned : ℕ → ℕ → ℕ
sub_unsigned a b = (a + word_mod - b) % word_mod
