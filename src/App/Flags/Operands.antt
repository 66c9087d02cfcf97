-- ===== src/App/Flags/Operands.antt =====
-- app.go: the arguments of `lab fault apply`, and the options with a value.
use lab_env.Common.{
  ap, Bool-cases, inl, inr, subst, sym, String, Bool, true, false, ◌||◌, List, [], ◌∷◌, ◌==◌,
  string_eq, if◌then◌else◌, ◌≡◌, contains, arith, refl, ◌∙◌,
}
use lab_env.App.Flags.{
  FaultApplyFlags, is_operand, scan_apply, scan_apply_all, parse_fault_apply_flags, option_value,
}

-- The first argument that does not begin with a dash.
abbrev pub first_operand : List String → String
first_operand [] = ""
first_operand (arg ∷ args) = let later = first_operand args in if is_operand arg then arg else later

-- The values behind the mentions of an option that have one behind them.
abbrev pub mentions : String → List String → List String
mentions name [] = []
mentions name (arg ∷ []) = []
mentions name (arg ∷ value ∷ rest) =
    let later = mentions name (value ∷ rest) in if arg == name then value ∷ later else later

-- What is taken of the values in their order.
abbrev pub taken : {A : Type 0} → (String → A → A) → List String → A → A
taken take [] found = found
taken take (value ∷ later) found = taken take later (take value found)

eq_of : (s t : String) → (s == t) ≡ true → s ≡ t
eq_of s t e = (string_eq.same_iff s t).0 e

operand-some : (arg : String) → is_operand arg ≡ true → (arg == "") ≡ false
unfolding is_operand
operand-some arg op = elim (Bool-cases (arg == "")) [
  | inl e ↦ absurd (ground (arith, subst (λ a. is_operand a ≡ true) (eq_of arg "" e) op))
  | inr e ↦ e
]

abbrev scanned : List String → String × FaultApplyFlags → String × FaultApplyFlags
scanned args (id, f) = (
  if id == "" then first_operand args else id,
  record { force = contains "--force" args || f.force; yes = contains "--yes" args || f.yes },
)

or_true : (b : Bool) → (b || true) ≡ true
or_true b = ground arith

or_false : (b : Bool) → (b || false) ≡ b
or_false b = ground arith

scanned_cons :
    (arg : String) (args : List String) (id : String) (f : FaultApplyFlags)
    → scanned args (scan_apply arg (id, f)) ≡ scanned (arg ∷ args) (id, f)
unfolding scan_apply
scanned_cons arg args id f = elim (Bool-cases (arg == "--force")) [
  | inl e ↦
      subst (λ a. scanned args (scan_apply a (id, f)) ≡ scanned (a ∷ args) (id, f))
        (sym (eq_of arg "--force" e))
        (ap
          (λ b. (
            if id == "" then first_operand args else id,
            record { force = b; yes = contains "--yes" args || f.yes },
          ))
          (or_true (contains "--force" args)))
  | inr a ↦ elim (Bool-cases (arg == "--yes")) [
    | inl e ↦
        subst (λ a. scanned args (scan_apply a (id, f)) ≡ scanned (a ∷ args) (id, f))
          (sym (eq_of arg "--yes" e))
          (ap
            (λ b. (
              if id == "" then first_operand args else id,
              record { force = contains "--force" args || f.force; yes = b },
            ))
            (or_true (contains "--yes" args)))
    | inr b ↦ elim (Bool-cases (id == "")) [
      | inl e ↦ elim (Bool-cases (is_operand arg)) [
        | inl op ↦ rw (a, b, e, op, operand-some arg op) refl
        | inr not_op ↦ rw (a, b, e, not_op, e) refl
      ]
      | inr c ↦ rw (a, b, c, c) refl
    ]
  ]
]

scan_apply_all_lem :
    (args : List String) (id : String) (f : FaultApplyFlags)
    → scan_apply_all args (id, f) ≡ scanned args (id, f)
unfolding scan_apply_all
scan_apply_all_lem [] id f = elim (Bool-cases (id == "")) [
  | inl e ↦ rw e (ap (λ i. (i, f)) (eq_of id "" e))
  | inr c ↦ rw c refl
]
scan_apply_all_lem (arg ∷ args) id f = scan_apply_all_lem args _ _ ∙ scanned_cons arg args id f

-- The flags of `lab fault apply` stand anywhere among its arguments, and its ID is the first of them
-- that does not begin with a dash.
pub parse_fault_apply_flags_lem :
    (args : List String)
    → parse_fault_apply_flags args ≡ (
      first_operand args,
      record { force = contains "--force" args; yes = contains "--yes" args },
    )
unfolding parse_fault_apply_flags
parse_fault_apply_flags_lem args =
    scan_apply_all_lem args "" (record { force = false; yes = false })
    ∙ ap (λ b. (first_operand args, b))
        (rw (or_false (contains "--force" args), or_false (contains "--yes" args)) refl)

-- The value of an option is taken from every mention of it, so that the last one counts.
pub option_value_lem :
    {A : Type 0} (name : String) (take : String → A → A) (args : List String) (found : A)
    → option_value name take args found ≡ taken take (mentions name args) found
unfolding option_value
option_value_lem name take [] found = refl
option_value_lem name take (arg ∷ []) found = refl
option_value_lem name take (arg ∷ value ∷ rest) found = elim (Bool-cases (arg == name)) [
  | inl e ↦ rw e (option_value_lem name take (value ∷ rest) (take value found))
  | inr e ↦ rw e (option_value_lem name take (value ∷ rest) found)
]
