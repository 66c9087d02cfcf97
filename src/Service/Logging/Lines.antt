-- ===== src/Service/Logging/Lines.antt =====
-- service/logging/logging.go: the last line of a file that lines are appended to.
use lab_env.Common.{
  ◌≡◌, ◌⊎◌, ◌≢◌, refl, inl, inr, [], ◌∷◌, ◌++◌, ◌==◌, nat_eq, false, All, ap, sym, ◌∙◌,
  append_assoc, append-nil, All-reverse,
}
use mathlib.Core.List.{reverse, reverse-append, reverse-reverse}
use lab_env.Common.Bytes.{Bytes, newline, trim_newlines, drop_newlines, last_line}

-- A text without newlines.
abbrev pub Plain : Bytes → Type 0
Plain t = All (λ c. (c == newline) ≡ false) t

-- The file is empty, or its last byte is a newline.
abbrev pub Ended : Bytes → Type 0
Ended file = (file ≡ []) ⊎ ((front : Bytes) × (file ≡ front ++ newline ∷ []))

last_line-Plain : (t line : Bytes) → Plain t → last_line line t ≡ line ++ t
unfolding last_line
last_line-Plain [] line plain = sym (append-nil line)
last_line-Plain (c ∷ t) line (here, plain) =
    rw here (last_line-Plain t (line ++ c ∷ []) plain ∙ append_assoc line (c ∷ []) t)

last_line-newline : (front t line : Bytes) → last_line line (front ++ newline ∷ t) ≡ last_line [] t
unfolding last_line
last_line-newline [] t line = refl
last_line-newline (c ∷ front) t line = last_line-newline front t _

drop_newlines-newline : (s : Bytes) → drop_newlines (newline ∷ s) ≡ drop_newlines s
unfolding drop_newlines
drop_newlines-newline s = refl

drop_newlines-Plain : (t s : Bytes) → Plain t → t ≢ [] → drop_newlines (t ++ s) ≡ t ++ s
unfolding drop_newlines
drop_newlines-Plain [] s plain some_ = absurd (some_ refl)
drop_newlines-Plain (c ∷ t) s (here, plain) some_ = rw here refl

reverse_some : (t : Bytes) → t ≢ [] → reverse t ≢ []
reverse_some t some_ h = some_ (sym (reverse-reverse t) ∙ ap (λ r. reverse r) h)

trim_newlines-line :
    (file line : Bytes)
    → Plain line
    → line ≢ []
    → trim_newlines ((file ++ line) ++ newline ∷ []) ≡ file ++ line
unfolding trim_newlines
trim_newlines-line file line plain some_ =
    ap (λ r. reverse (drop_newlines r)) (reverse-append (file ++ line) (newline ∷ []))
    ∙ (ap (λ r. reverse r) (drop_newlines-newline (reverse (file ++ line)))
        ∙ (ap (λ r. reverse (drop_newlines r)) (reverse-append file line)
            ∙ (ap (λ r. reverse r)
                  (drop_newlines-Plain (reverse line) (reverse file) (All-reverse _ line plain)
                    (reverse_some line some_))
                ∙ (ap (λ r. reverse r) (sym (reverse-append file line))
                    ∙ reverse-reverse (file ++ line)))))

-- The last line of a file that a line was appended to is that line.
pub last_line-append :
    (file line : Bytes)
    → Ended file
    → Plain line
    → line ≢ []
    → last_line [] (trim_newlines (file ++ (line ++ newline ∷ []))) ≡ line
last_line-append file line ended plain some_ =
    ap (λ s. last_line [] (trim_newlines s)) (sym (append_assoc file line (newline ∷ [])))
    ∙ (ap (last_line []) (trim_newlines-line file line plain some_) ∙ elim ended [
      | inl e ↦ rw e (last_line-Plain line [] plain)
      | inr (front, e) ↦
          rw (e, append_assoc front (newline ∷ []) line)
            (last_line-newline front line [] ∙ last_line-Plain line [] plain)
    ])

-- A file that a line was appended to ends with a newline.
pub append-Ended : (file line : Bytes) → Ended (file ++ (line ++ newline ∷ []))
append-Ended file line = inr (file ++ line, sym (append_assoc file line (newline ∷ [])))
