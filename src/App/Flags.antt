-- ===== src/App/Flags.antt =====
-- app.go: the arguments of the command line.
pub mod Parsed
pub mod Operands
use Prim.Native.Char.{code}
use Prim.Native.String.{◌++◌ as text_append}
use lab_env.Common.{
  String, Bool, true, false, not, ◌&&◌, ◌||◌, List, [], ◌∷◌, ◌++◌, ◌==◌, string_eq, nat_eq,
  if◌then◌else◌, leb, Option, none, some,
}
use lab_env.Common.Errors.{Error, Result, ok, err, message, ℤ}
use lab_env.Common.Bytes.{codes}
use lab_env.Executor.Decimal.Scan.{scan_number}

pub record GlobalFlags : Type 0 where
  pub json : Bool
  pub quiet : Bool
  pub verbose : Bool
  pub yes : Bool

pub record FaultApplyFlags : Type 0 where
  pub force : Bool
  pub yes : Bool

abbrev pub no_flags : GlobalFlags
no_flags = record { json = false; quiet = false; verbose = false; yes = false }

-- The `switch` on one argument: the flags and the remaining arguments after it.
pub scan : String → GlobalFlags × List String → GlobalFlags × List String
scan arg (flags, remaining) =
    if arg == "--json"
    then (record flags { json = true }, remaining)
    else if arg == "--quiet"
    then (record flags { quiet = true }, remaining)
    else if arg == "--verbose"
    then (record flags { verbose = true }, remaining)
    else if arg == "--yes"
    then (record flags { yes = true }, remaining)
    else (flags, remaining ++ arg ∷ [])

-- The loop over the arguments.
pub scan_all : List String → GlobalFlags × List String → GlobalFlags × List String
unfolding scan
scan_all [] seen = seen
scan_all (arg ∷ args) seen = scan_all args (scan arg seen)

pub accepted : GlobalFlags × List String → Result (GlobalFlags × List String)
accepted (flags, remaining) =
    if flags.json && flags.quiet
    then err (message "--json and --quiet are mutually exclusive")
    else if flags.verbose && flags.quiet
    then err (message "--verbose and --quiet are mutually exclusive")
    else ok (flags, remaining)

-- `parseGlobalFlags`
unfoldable pub parse_global_flags : List String → Result (GlobalFlags × List String)
unfolding scan_all accepted
parse_global_flags args = accepted (scan_all args (no_flags, []))

-- `len(arg) > 0 && arg[0] != '-'`
unfoldable pub is_operand : String → Bool
is_operand String.[] = false
is_operand (String.◌∷◌ c s) = not (code c == b'-')

pub scan_apply : String → String × FaultApplyFlags → String × FaultApplyFlags
unfolding is_operand
scan_apply arg (id, flags) =
    if arg == "--force"
    then (id, record flags { force = true })
    else if arg == "--yes"
    then (id, record flags { yes = true })
    else (if (id == "") && is_operand arg then arg else id, flags)

pub scan_apply_all : List String → String × FaultApplyFlags → String × FaultApplyFlags
unfolding scan_apply
scan_apply_all [] seen = seen
scan_apply_all (arg ∷ args) seen = scan_apply_all args (scan_apply arg seen)

-- `parseFaultApplyFlags`
unfoldable pub parse_fault_apply_flags : List String → String × FaultApplyFlags
unfolding scan_apply_all
parse_fault_apply_flags args = scan_apply_all args ("", record { force = false; yes = false })

-- The loop of `dispatchReset` and of `dispatchHistory`: the argument behind the last `name` that
-- has one behind it.
unfoldable pub option_value : {A : Type 0} → String → (String → A → A) → List String → A → A
option_value name take [] found = found
option_value name take (arg ∷ []) found = found
option_value name take (arg ∷ value ∷ rest) found =
    option_value name take (value ∷ rest) (if arg == name then take value found else found)

-- `fmt.Sscanf(args[i+1], "%d", &last)`
abbrev pub scan_last : String → ℤ → ℤ
scan_last value last = scan_number (codes value) last

-- The loop of `joinArgs` behind its first argument.
join_rest : String → List String → String
join_rest result [] = result
join_rest result (arg ∷ args) = join_rest (text_append (text_append result " ") arg) args

-- `joinArgs`
unfoldable pub join_args : List String → String
unfolding join_rest
join_args [] = ""
join_args (arg ∷ args) = join_rest arg args
