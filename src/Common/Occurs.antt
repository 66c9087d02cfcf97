-- ===== src/Common/Occurs.antt =====
-- Where a text stands in another.
use native.Mathlib.Omega.{arith}
use mathlib.Core.Path.{◌≡◌, refl, sym, ap, ◌∙◌, subst}
use mathlib.Core.Bool.{Bool, true, ◌||◌}
use mathlib.Core.Logic.{inl, inr}
use mathlib.Core.List.{[], ◌∷◌, ◌++◌, append_assoc}
use lab_env.Common.Tests.{Bool-cases, nat_eq}
use lab_env.Common.Bytes.{Bytes, has_prefix, has_prefix-append, has_text}

-- The text `t` stands somewhere in `s`.
abbrev pub Occurs : Bytes → Bytes → Type 0
Occurs t s = (before : Bytes) × (after : Bytes) × (s ≡ before ++ (t ++ after))

prefix_rest : (s t : Bytes) → has_prefix s t ≡ true → (rest : Bytes) × (s ≡ t ++ rest)
unfolding has_prefix
prefix_rest s [] h = (s, refl)
prefix_rest [] (b ∷ t) h = cc
prefix_rest (a ∷ s) (b ∷ t) h =
    let (rest, e) = prefix_rest s t (ground arith) in (rest, ground (arith, e))

or_right : (b c : Bool) → c ≡ true → (b || c) ≡ true
or_right b c h = ground arith

has_text_found : (s t : Bytes) → has_prefix s t ≡ true → has_text s t ≡ true
unfolding has_text
has_text_found [] t h = h
has_text_found (a ∷ s) t h = rw h

pub has_text-append : (before t after : Bytes) → has_text (before ++ (t ++ after)) t ≡ true
unfolding has_text
has_text-append [] t after = has_text_found (t ++ after) t (has_prefix-append t after)
has_text-append (c ∷ before) t after =
    or_right (has_prefix (c ∷ (before ++ (t ++ after))) t) _ (has_text-append before t after)

pub has_text-Occurs : (s t : Bytes) → has_text s t ≡ true → Occurs t s
unfolding has_text
has_text-Occurs [] t h = let (rest, e) = prefix_rest [] t h in ([], rest, e)
has_text-Occurs (a ∷ s) t h = elim (Bool-cases (has_prefix (a ∷ s) t)) [
  | inl found ↦ let (rest, e) = prefix_rest (a ∷ s) t found in ([], rest, e)
  | inr later ↦
      let (before, after, e) = has_text-Occurs s t (rw later at h) in
      (a ∷ before, after, ap (λ r. a ∷ r) e)
]

-- A text that is found is found in every text that holds the place.
pub has_text-around :
    (before s after t : Bytes) → has_text s t ≡ true → has_text (before ++ (s ++ after)) t ≡ true
has_text-around before s after t h =
    let (front, back, is) = has_text-Occurs s t h in
    subst (λ x. has_text x t ≡ true)
      (sym (
        ap (λ x. before ++ (x ++ after)) is
        ∙ (ap (λ x. before ++ x)
              (append_assoc front (t ++ back) after
                ∙ ap (λ x. front ++ x) (append_assoc t back after))
            ∙ sym (append_assoc before front (t ++ (back ++ after))))))
      (has_text-append (before ++ front) t (back ++ after))
