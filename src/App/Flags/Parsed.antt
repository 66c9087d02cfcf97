-- ===== src/App/Flags/Parsed.antt =====
-- app.go: which flags a command line sets, wherever they stand among its arguments.
use lab_env.Common.{
  Bool-cases, inl, inr, subst, sym, String, Bool, true, false, not, ◌&&◌, ◌||◌, List, [], ◌∷◌, ◌++◌,
  ◌==◌, string_eq, if◌then◌else◌, ◌≡◌, contains, keep, arith, append_assoc, append-nil, refl, ◌∙◌,
}
use lab_env.Common.Errors.{ok, err, message}
use lab_env.App.Flags.{GlobalFlags, no_flags, scan, scan_all, parse_global_flags}

-- An argument that is no global flag.
abbrev pub is_command_word : String → Bool
is_command_word arg =
    not ((arg == "--json") || ((arg == "--quiet") || ((arg == "--verbose") || (arg == "--yes"))))

abbrev pub with_flags : List String → GlobalFlags → GlobalFlags
with_flags args f = record {
  json = contains "--json" args || f.json;
  quiet = contains "--quiet" args || f.quiet;
  verbose = contains "--verbose" args || f.verbose;
  yes = contains "--yes" args || f.yes;
}

eq_of : (s t : String) → (s == t) ≡ true → s ≡ t
eq_of s t e = (string_eq.same_iff s t).0 e

-- What one argument adds.
abbrev scanned : String → GlobalFlags × List String → GlobalFlags × List String
scanned arg (f, words) =
    (with_flags (arg ∷ []) f, if is_command_word arg then words ++ arg ∷ [] else words)

scan_lem :
    (arg : String) (f : GlobalFlags) (words : List String)
    → scan arg (f, words) ≡ scanned arg (f, words)
unfolding scan
scan_lem arg f words = elim (Bool-cases (arg == "--json")) [
  | inl e ↦ subst (λ a. scan a (f, words) ≡ scanned a (f, words)) (sym (eq_of arg "--json" e)) refl
  | inr a ↦ elim (Bool-cases (arg == "--quiet")) [
    | inl e ↦
        subst (λ a. scan a (f, words) ≡ scanned a (f, words)) (sym (eq_of arg "--quiet" e)) refl
    | inr b ↦ elim (Bool-cases (arg == "--verbose")) [
      | inl e ↦
          subst (λ a. scan a (f, words) ≡ scanned a (f, words)) (sym (eq_of arg "--verbose" e)) refl
      | inr c ↦ elim (Bool-cases (arg == "--yes")) [
        | inl e ↦
            subst (λ a. scan a (f, words) ≡ scanned a (f, words)) (sym (eq_of arg "--yes" e)) refl
        | inr d ↦ rw (a, b, c, d)
      ]
    ]
  ]
]

or_false : (b : Bool) → (b || false) ≡ b
or_false b = ground arith

or_shift :
    (here later before : Bool)
    → (later || ((here || false) || before)) ≡ ((here || later) || before)
or_shift here later before = ground arith

with_flags_cons :
    (arg : String) (args : List String) (f : GlobalFlags)
    → with_flags args (with_flags (arg ∷ []) f) ≡ with_flags (arg ∷ args) f
with_flags_cons arg args f = rw (
  or_shift (arg == "--json") (contains "--json" args) f.json,
  or_shift (arg == "--quiet") (contains "--quiet" args) f.quiet,
  or_shift (arg == "--verbose") (contains "--verbose" args) f.verbose,
  or_shift (arg == "--yes") (contains "--yes" args) f.yes,
)

append_if :
    (b : Bool) (arg : String) (words rest : List String)
    → (if b then words ++ arg ∷ [] else words) ++ rest ≡ words ++ (if b then arg ∷ rest else rest)
append_if true arg words rest = append_assoc words (arg ∷ []) rest
append_if false arg words rest = refl

scan_all_lem :
    (args : List String) (f : GlobalFlags) (words : List String)
    → scan_all args (f, words) ≡ (with_flags args f, words ++ keep is_command_word args)
unfolding scan_all
scan_all_lem [] f words = rw append-nil
scan_all_lem (arg ∷ args) f words = rw (scan_lem arg f words) (
    scan_all_lem args _ _
    ∙ rw (
      with_flags_cons arg args f,
      append_if (is_command_word arg) arg words (keep is_command_word args),
    ))

-- The flags of an accepted command line are those that stand anywhere among its arguments, the
-- remaining arguments are the others in their order, and a command line is refused exactly when it
-- has --quiet together with --json or --verbose.
pub parse_global_flags_lem :
    (args : List String)
    → parse_global_flags args ≡ (
        if contains "--json" args && contains "--quiet" args
        then err (message "--json and --quiet are mutually exclusive")
        else if contains "--verbose" args && contains "--quiet" args
        then err (message "--verbose and --quiet are mutually exclusive")
        else ok (
          record {
            json = contains "--json" args;
            quiet = contains "--quiet" args;
            verbose = contains "--verbose" args;
            yes = contains "--yes" args;
          },
          keep is_command_word args,
        ))
unfolding parse_global_flags
parse_global_flags_lem args = rw (
  scan_all_lem args no_flags [],
  or_false (contains "--json" args),
  or_false (contains "--quiet" args),
  or_false (contains "--verbose" args),
  or_false (contains "--yes" args),
)

-- What an accepted command line sets.
pub parse_global_flags-ok :
    (args : List String) (f : GlobalFlags) (words : List String)
    → parse_global_flags args ≡ ok (f, words)
    → (f.quiet ≡ contains "--quiet" args) × (f.json ≡ contains "--json" args)
parse_global_flags-ok args f words h = ground (arith, h, parse_global_flags_lem args)
