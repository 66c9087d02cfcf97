-- ===== src/Invariants/Texts.antt =====
-- Go's strings.Index, and where a text does not occur.
use mathlib.Core.Option
use mathlib.Core.Option.{some-injective}
use lab_env.Common.{
  ℕ, zero, suc, ◌≤◌, true, false, ◌≡◌, refl, Option, none, some, [], ◌∷◌, ◌++◌, if◌then◌else◌,
  length, take, drop, arith, All, ◌==◌, nat_eq, Bool-cases, Option-cases, inl, inr, append_assoc,
  take-append-drop,
}
use lab_env.Common.Bytes.{Bytes, has_prefix, newline}

-- `strings.Index(s, t)`
unfoldable pub index : Bytes → Bytes → Option ℕ
unfolding has_prefix
index [] t = if has_prefix [] t then some 0 else none
index (c ∷ s) t =
    let rest = index s t in if has_prefix (c ∷ s) t then some 0 else Option.map (λ i. suc i) rest

-- The text `t` begins nowhere in `p`, when `q` follows.
unfoldable pub Clear : Bytes → Bytes → Bytes → Type 0
Clear t [] q = Unit
Clear t (c ∷ p) q = (has_prefix (c ∷ (p ++ q)) t ≡ false) × Clear t p q

index_here : (t q : Bytes) → has_prefix q t ≡ true → index q t ≡ some 0
unfolding index
index_here t [] h = rw h
index_here t (c ∷ q) h = rw h

pub index-Clear :
    (t p q : Bytes) → Clear t p q → has_prefix q t ≡ true → index (p ++ q) t ≡ some (length p)
unfolding index Clear
index-Clear t [] q clear h = index_here t q h
index-Clear t (c ∷ p) q (here, clear) h = rw (here, index-Clear t p q clear h)

-- Before its first occurrence a text does not begin.
pub Clear-index :
    (t s : Bytes) (i j : ℕ) → index s t ≡ some j → i ≤ j → Clear t (take i s) (drop i s)
unfolding index Clear
Clear-index t s zero j h le = tt
Clear-index t [] (suc i) j h le = tt
Clear-index t (c ∷ s) (suc i) j h le = elim (Bool-cases (has_prefix (c ∷ s) t)) [
  | inl e ↦ let at_front = rw e at h in ground (arith, some-injective _ _ at_front)
  | inr e ↦ elim (Option-cases (index s t)) [
    | inl none_later ↦ let nowhere = rw (e, none_later) at h in cc
    | inr (k, is) ↦
        let later = some-injective _ _ (rw (e, is) at h) in
        (rw (take-append-drop i s) e, Clear-index t s i k is (omega arith))
  ]
]

pub Clear-append : (t p p' q : Bytes) → Clear t p (p' ++ q) → Clear t p' q → Clear t (p ++ p') q
unfolding Clear
Clear-append t [] p' q h h' = h'
Clear-append t (c ∷ p) p' q (here, h) h' =
    (rw (append_assoc p p' q) here, Clear-append t p p' q h h')

pub Clear-front : (t p p' q : Bytes) → Clear t (p ++ p') q → Clear t p (p' ++ q)
unfolding Clear
Clear-front t [] p' q h = tt
Clear-front t (c ∷ p) p' q (here, h) = (rw (← append_assoc p p' q) here, Clear-front t p p' q h)

-- A text without newlines does not reach over one.
reaches :
    (t p q r : Bytes)
    → All (λ c. (c == newline) ≡ false) t
    → has_prefix (p ++ newline ∷ r) t ≡ true
    → has_prefix (p ++ q) t ≡ true
unfolding has_prefix
reaches [] [] [] r plain h = refl
reaches [] [] (a ∷ q) r plain h = refl
reaches [] (c ∷ p) q r plain h = refl
reaches (b ∷ t) [] q r plain h = ground (arith, plain.0)
reaches (b ∷ t) (c ∷ p) q r plain h = ground (arith, reaches t p q r plain.1)

pub Clear-newline :
    (t p q r : Bytes) → All (λ c. (c == newline) ≡ false) t → Clear t p q → Clear t p (newline ∷ r)
unfolding Clear
Clear-newline t [] q r plain h = tt
Clear-newline t (c ∷ p) q r plain (here, h) = (
  elim (Bool-cases (has_prefix (c ∷ (p ++ newline ∷ r)) t)) [
    | inl e ↦ let found = reaches t (c ∷ p) q r plain e in cc
    | inr e ↦ e
  ],
  Clear-newline t p q r plain h,
)

-- What stands behind a newline that follows does not matter.
pub Clear-behind :
    (t p e q r : Bytes)
    → All (λ c. (c == newline) ≡ false) t
    → Clear t p (e ++ newline ∷ q)
    → Clear t p (e ++ newline ∷ r)
unfolding Clear
Clear-behind t [] e q r plain h = tt
Clear-behind t (c ∷ p) e q r plain (here, h) = (
  elim (Bool-cases (has_prefix (c ∷ (p ++ (e ++ newline ∷ r))) t)) [
    | inl found ↦
        let early =
          reaches t (c ∷ (p ++ e)) (newline ∷ q) r plain
            (rw (append_assoc p e (newline ∷ r)) found) in
        let again = rw (append_assoc p e (newline ∷ q)) at early in cc
    | inr e ↦ e
  ],
  Clear-behind t p e q r plain h,
)
