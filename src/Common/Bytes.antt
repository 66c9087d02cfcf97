-- ===== src/Common/Bytes.antt =====
-- Byte strings, and what the program uses of Go's `strings` package on them.
use Prim.Native.Nat.{ℕ}
use Prim.Native.Char.{code}
use Prim.Native.String.{String}
use mathlib.Core.Bool.{Bool, true, false, ◌&&◌, ◌||◌}
use mathlib.Core.List.{List, [], ◌∷◌, ◌++◌, reverse, reverse-append, reverse-reverse}
use native.Mathlib.Omega.{arith}
use lab_env.Common.Tests.{◌==◌, leb, if◌then◌else◌, nat_eq, Bool-cases}
use mathlib.Core.Path.{◌≡◌, refl, sym, ap, ◌∙◌}
use mathlib.Core.Logic.{◌≢◌, inl, inr}
use lab_env.Common.Lists.{All, All-reverse, length, drop}

abbrev pub Bytes : Type 0
Bytes = List ℕ

-- The code points of a text, which are its bytes when it is ASCII.
abbrev pub codes : String → Bytes
codes String.[] = []
codes (String.◌∷◌ c s) = code c ∷ codes s

abbrev pub newline : ℕ
newline = 10

unfoldable pub bytes_eq : Bytes → Bytes → Bool
bytes_eq [] [] = true
bytes_eq (a ∷ s) (b ∷ t) = (a == b) && bytes_eq s t
bytes_eq _ _ = false

-- `strings.HasPrefix`
unfoldable pub has_prefix : Bytes → Bytes → Bool
has_prefix s [] = true
has_prefix [] (b ∷ t) = false
has_prefix (a ∷ s) (b ∷ t) = (a == b) && has_prefix s t

pub has_prefix-append : (t rest : Bytes) → has_prefix (t ++ rest) t ≡ true
unfolding has_prefix
has_prefix-append [] rest = refl
has_prefix-append (c ∷ t) rest = ground (arith, has_prefix-append t rest)

-- `strings.Contains`
unfoldable pub has_text : Bytes → Bytes → Bool
unfolding has_prefix
has_text [] t = has_prefix [] t
has_text (a ∷ s) t = has_prefix (a ∷ s) t || has_text s t

-- `strings.Replace(s, old, new, 1)`
unfoldable pub replace_first : Bytes → Bytes → Bytes → Bytes
unfolding has_prefix
replace_first [] old new = if has_prefix [] old then new else []
replace_first (a ∷ s) old new =
    let rest = replace_first s old new in
    if has_prefix (a ∷ s) old then new ++ drop (length old) (a ∷ s) else a ∷ rest

-- The white space of ASCII, as `unicode.IsSpace` has it.
unfoldable pub is_space : ℕ → Bool
is_space c = (c == 32) || (leb 9 c && leb c 13)

unfoldable pub trim_left : Bytes → Bytes
unfolding is_space
trim_left [] = []
trim_left (c ∷ s) = let rest = trim_left s in if is_space c then rest else c ∷ s

trim_left_head : (c : ℕ) (s : Bytes) → is_space c ≡ false → trim_left (c ∷ s) ≡ c ∷ s
unfolding trim_left
trim_left_head c s h = rw h

trim_left-newline : (s : Bytes) → trim_left (newline ∷ s) ≡ trim_left s
unfolding trim_left
trim_left-newline s = refl

trim_left_lem : (s : Bytes) → All (λ c. is_space c ≡ false) s → trim_left s ≡ s
unfolding trim_left
trim_left_lem [] h = refl
trim_left_lem (c ∷ s) h = rw h.0

-- `strings.TrimSpace`
unfoldable pub trim_space : Bytes → Bytes
trim_space s = reverse (trim_left (reverse (trim_left s)))

-- `TrimSpace` takes exactly a final newline off a text that holds no white space.
pub trim_space-newline :
    (s : Bytes) → All (λ c. is_space c ≡ false) s → s ≢ [] → trim_space (s ++ newline ∷ []) ≡ s
unfolding trim_space
trim_space-newline [] h ne = absurd (ne refl)
trim_space-newline (c ∷ s) h ne =
    rw
      (
        trim_left_head c (s ++ newline ∷ []) h.0,
        reverse-append (c ∷ s) (newline ∷ []),
        trim_left-newline (reverse (c ∷ s)),
        trim_left_lem (reverse (c ∷ s)) (All-reverse _ (c ∷ s) h),
      )
      (reverse-reverse (c ∷ s))

-- `strings.TrimLeft(s, "\n")`
unfoldable pub drop_newlines : Bytes → Bytes
drop_newlines [] = []
drop_newlines (c ∷ s) = let rest = drop_newlines s in if c == newline then rest else c ∷ s

-- `strings.TrimRight(s, "\n")`
unfoldable pub trim_newlines : Bytes → Bytes
unfolding drop_newlines
trim_newlines s = reverse (drop_newlines (reverse s))

-- The last part of `strings.Split(s, "\n")`; the argument `line` is the part being read.
unfoldable pub last_line : Bytes → Bytes → Bytes
last_line line [] = line
last_line line (c ∷ s) = last_line (if c == newline then [] else line ++ c ∷ []) s

pub drop_newlines-drop_newlines : (s : Bytes) → drop_newlines (drop_newlines s) ≡ drop_newlines s
unfolding drop_newlines
drop_newlines-drop_newlines [] = refl
drop_newlines-drop_newlines (c ∷ s) = ground (arith, drop_newlines-drop_newlines s)

-- What `TrimLeft` takes off stands in front.
drop_newlines_front : (s : Bytes) → (front : Bytes) × (s ≡ front ++ drop_newlines s)
unfolding drop_newlines
drop_newlines_front [] = ([], refl)
drop_newlines_front (c ∷ s) = elim (Bool-cases (c == newline)) [
  | inl e ↦ let (front, is) = drop_newlines_front s in (c ∷ front, rw e (ap (λ r. c ∷ r) is))
  | inr e ↦ ([], rw e refl)
]

-- What `TrimRight` takes off stands behind.
pub trim_newlines_back : (s : Bytes) → (back : Bytes) × (s ≡ trim_newlines s ++ back)
unfolding trim_newlines
trim_newlines_back s =
    let (front, is) = drop_newlines_front (reverse s) in
    (
      reverse front,
      sym (reverse-reverse s)
          ∙ (ap (λ r. reverse r) is ∙ reverse-append front (drop_newlines (reverse s))),
    )

reverse-newlines :
    (s : Bytes) → reverse (s ++ newline ∷ newline ∷ []) ≡ newline ∷ newline ∷ reverse s
reverse-newlines s = reverse-append s (newline ∷ newline ∷ [])

pub drop_newlines-newlines : (s : Bytes) → drop_newlines (newline ∷ newline ∷ s) ≡ drop_newlines s
unfolding drop_newlines
drop_newlines-newlines s = refl

-- Newlines behind a trimmed text are trimmed again.
pub trim_newlines-trim_newlines :
    (s : Bytes) → trim_newlines (trim_newlines s ++ newline ∷ newline ∷ []) ≡ trim_newlines s
unfolding trim_newlines
trim_newlines-trim_newlines s =
    let d = drop_newlines (reverse s) in
    ap (λ r. reverse (drop_newlines r)) (reverse-newlines (reverse d))
    ∙ (ap (λ r. reverse r) (drop_newlines-newlines (reverse (reverse d)))
        ∙ (ap (λ r. reverse (drop_newlines r)) (reverse-reverse d)
            ∙ ap (λ r. reverse r) (drop_newlines-drop_newlines (reverse s))))
