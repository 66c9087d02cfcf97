-- ===== src/Executor/Decimal/Scan.antt =====
-- A decimal number at the front of a text: `%d` of fmt.Sscanf.
use lab_env.Common.{not, ◌&&◌, ◌||◌, [], ◌∷◌, ◌==◌, nat_eq, if◌then◌else◌, leb, none, some}
use lab_env.Common.Errors.{ℤ}
use lab_env.Common.Bytes.{Bytes, is_space}
use lab_env.Executor.Decimal.{atoi}

-- The spaces that `fmt.Sscanf` skips in front of a number; a newline is none of them.
pub skip_blanks : Bytes → Bytes
skip_blanks [] = []
skip_blanks (c ∷ s) =
    let rest = skip_blanks s in if is_space c && not (c == 10) then rest else c ∷ s

-- The longest run of digits at the front.
pub digit_run : Bytes → Bytes
digit_run [] = []
digit_run (c ∷ s) = let rest = digit_run s in if leb b'0' c && leb c b'9' then c ∷ rest else []

-- The sign and the digits of `%d`; what follows them is left unread.
pub number_token : Bytes → Bytes
unfolding digit_run
number_token [] = []
number_token (c ∷ s) = if (c == b'-') || (c == b'+') then c ∷ digit_run s else digit_run (c ∷ s)

-- `fmt.Sscanf(value, "%d", &n)` from the number `last` in `n`, which stays where none can be read.
unfoldable pub scan_number : Bytes → ℤ → ℤ
unfolding skip_blanks number_token atoi
scan_number value last = elim (atoi (number_token (skip_blanks value))) [ none ↦ last | some n ↦ n ]
