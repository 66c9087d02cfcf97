-- ===== src/Service/Telemetry/Fields.antt =====
-- Go's strings.Fields, strings.Split at newlines and strings.LastIndex on byte strings.
use lab_env.Common.{
  ℕ, zero, suc, Option, none, some, List, [], ◌∷◌, ◌++◌, ◌==◌, nat_eq, if◌then◌else◌, false, ◌≡◌,
  refl, All, arith,
}
use lab_env.Common.Bytes.{Bytes, is_space, newline}

unfoldable pub get_elem? : {A : Type 0} → List A → ℕ → Option A
get_elem? [] i = none
get_elem? (a ∷ as_) zero = some a
get_elem? (a ∷ as_) (suc i) = get_elem? as_ i

flush : Bytes → List Bytes → List Bytes
flush [] words = words
flush (c ∷ word) words = (c ∷ word) ∷ words

-- The field that begins at the front, empty at a space, and the fields behind it.
split_fields : Bytes → Bytes × List Bytes
unfolding flush is_space
split_fields [] = ([], [])
split_fields (c ∷ s) =
    let (word, words) = split_fields s in
    if is_space c then ([], flush word words) else (c ∷ word, words)

-- `strings.Fields`
unfoldable pub fields : Bytes → List Bytes
unfolding split_fields flush
fields s = let (word, words) = split_fields s in flush word words

-- A byte in front of the first line.
prepend : ℕ → List Bytes → List Bytes
prepend c [] = (c ∷ []) ∷ []
prepend c (line ∷ rest) = (c ∷ line) ∷ rest

-- `strings.Split(s, "\n")`
unfoldable pub lines : Bytes → List Bytes
unfolding prepend
lines [] = [] ∷ []
lines (c ∷ s) = let rest = lines s in if c == newline then [] ∷ rest else prepend c rest

-- `s[strings.LastIndex(s, c)+1:]`, or none where the byte is not there.
unfoldable pub after_last : ℕ → Bytes → Option Bytes
after_last c [] = none
after_last c (d ∷ s) = elim (after_last c s) [
  | none ↦ if d == c then some s else none
  | some rest ↦ some rest
]

after_last_absent : (c : ℕ) (s : Bytes) → All (λ d. (d == c) ≡ false) s → after_last c s ≡ none
unfolding after_last
after_last_absent c [] h = refl
after_last_absent c (d ∷ s) h = rw (after_last_absent c s h.1, h.0)

-- Whatever stands in front, the part behind the last occurrence is found.
pub after_last-append :
    (c : ℕ) (before rest : Bytes)
    → All (λ d. (d == c) ≡ false) rest
    → after_last c (before ++ c ∷ rest) ≡ some rest
unfolding after_last
after_last-append c [] rest h = rw (after_last_absent c rest h) (ground arith)
after_last-append c (d ∷ before) rest h = rw (after_last-append c before rest h)
