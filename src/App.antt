-- ===== src/App.antt =====
-- app.go: the whole `lab` command, from its arguments to what it prints and its exit code.
pub mod Flags
pub mod Meaning
pub mod Printed
pub mod Interrupt
pub mod Completed
use mathlib.Core.Option
use Prim.Native.String.{◌++◌ as text_append}
use lab_env.Common.{
  ℕ, zero, suc, String, Bool, true, false, ◌&&◌, ◌||◌, Option, none, some, List, [], ◌∷◌, ◌++◌, map,
  ◌==◌, string_eq, if◌then◌else◌,
}
use lab_env.Common.Errors.{Error, Result, ok, err, errorf, message, text, cause, nil, ℤ}
use lab_env.Executor.Audit.{AuditLogger, AuditEntry}
use lab_env.Executor.Machine.{Machine}
use lab_env.Cmd.{Env, World, CommandResult, Value, failed}
use lab_env.Cmd.Listing.{fault_list, fault_info}
use lab_env.Cmd.Fault.{fault_apply}
use lab_env.Cmd.Reset.{reset}
use lab_env.Cmd.Provision.{provision, history}
use lab_env.Cmd.Status
use lab_env.Cmd.Validate.{validate, validate_single}
use lab_env.Output.{Format, Renderer, Rendering, render}
use lab_env.Output.Lines.{Line, printf, println}
use Flags.{
  GlobalFlags, FaultApplyFlags, parse_global_flags, parse_fault_apply_flags, option_value,
  scan_last, join_args,
}

-- What the process leaves behind: its exit code, and what it printed.
pub record Exit (S : Type 0) : Type 0 where
  pub exit_code : ℕ
  pub stdout : List (Line S)
  pub stderr : List (Line S)

-- What the dispatch gives: a misuse that is reported at once, or the result of a command.
pub data Dispatched (S : Type 0) : Type 0 where
  misuse : List (Line S) → Dispatched S
  finished : CommandResult S → Dispatched S

-- The message of `printUsage`.
abbrev usage_text : String
usage_text =
    "lab — Lab Environment Control Plane\n\nUsage:\n  lab <command> [flags]\n\nCommands:\n  status                    Show current environment state\n  validate [--check <ID>]   Run conformance suite (observation only)\n  fault list                List all faults in the catalog\n  fault info <ID>           Show full fault entry\n  fault apply <ID>          Apply a fault (CONFORMANT → DEGRADED)\n  reset [--tier R1|R2|R3]   Reset environment to CONFORMANT\n  provision                 Provision or re-provision the environment\n  history [--last N]        Show state transition history\n\nGlobal flags:\n  --json      Emit JSON output\n  --quiet     Suppress all non-error output\n  --verbose   Emit executor operation trace\n  --yes       Suppress confirmation prompts\n\nRun 'lab fault list' to see available faults.\nRun 'lab fault info <ID>' for fault details."

-- The entries that are in the audit log.
abbrev log_entries : Option AuditLogger → List AuditEntry
log_entries none = []
log_entries (some l) = l.entries

-- `last` of `HistoryCmd.Run`: a number below 1 asks for all entries.
abbrev pub wanted : ℤ → ℕ
wanted (ℤ.pos n) = n
wanted (ℤ.negsuc n) = 0

module _ {S : Type 0} where
  -- `executor.NewAuditLogger(invocation)` on the log that is there.
  unfoldable pub with_logger : String → World S → World S
  with_logger invocation w = record w {
    machine = record w.machine {
      audit = some (record { command = invocation; entries = log_entries w.machine.audit });
    };
  }

  -- The result of a command as the result of the dispatch.
  pub ran : Option (CommandResult S × World S) → Option (Dispatched S × World S)
  ran none = none
  ran (some (c, w)) = some (finished c, w)

module _ {S : Type 0} (env : Env S) where
  pub fault_info_of : List String → CommandResult S
  fault_info_of [] = failed 2 (message "usage: lab fault info <ID>")
  fault_info_of (id ∷ rest) = fault_info S id

  pub fault_apply_of : Bool → List String → World S → Option (CommandResult S × World S)
  fault_apply_of confirmed [] w =
      some (failed 2 (message "usage: lab fault apply <ID> [--force] [--yes]"), w)
  fault_apply_of confirmed (arg ∷ args) w =
      let (id, flags) = parse_fault_apply_flags (arg ∷ args) in
      fault_apply env id flags.force (confirmed || flags.yes) w

  -- `dispatchFault`
  pub dispatch_fault : Bool → List String → World S → Option (CommandResult S × World S)
  unfolding fault_info_of fault_apply_of
  dispatch_fault confirmed [] w = some (failed 2 (message "usage: lab fault [list|info|apply]"), w)
  dispatch_fault confirmed (sub ∷ args) w =
      if sub == "list"
      then some (fault_list S, w)
      else if sub == "info"
      then some (fault_info_of args, w)
      else if sub == "apply"
      then fault_apply_of confirmed args w
      else some (
        failed 2 (errorf "unknown fault subcommand %q: use list, info, or apply" (text sub nil)),
        w,
      )

  -- `lab fault`; without a subcommand it is reported before the dispatch.
  pub fault_command : Bool → List String → World S → Option (Dispatched S × World S)
  unfolding ran dispatch_fault
  fault_command confirmed [] w =
      some (
        misuse (printf "error: 'lab fault' requires a subcommand: list, info, apply\n" nil ∷ []),
        w,
      )
  fault_command confirmed (sub ∷ args) w = ran (dispatch_fault confirmed (sub ∷ args) w)

  -- The tests on the arguments of `lab validate`.
  pub validate_command : List String → World S → CommandResult S × World S
  validate_command (flag ∷ id ∷ rest) w =
      if flag == "--check" then (validate_single env id w.machine, w) else validate env w
  validate_command _ w = validate env w

  -- `dispatchReset`
  pub dispatch_reset : List String → World S → Option (CommandResult S × World S)
  dispatch_reset args w = reset env (option_value "--tier" (λ v tier. v) args "") w

  -- `dispatchHistory`
  pub dispatch_history : List String → World S → CommandResult S
  dispatch_history args w =
      history S (wanted (option_value "--last" scan_last args (ℤ.pos 20))) w.disk

  -- The `switch` on the command.
  unfoldable pub dispatch : String → List String → Bool → World S → Option (Dispatched S × World S)
  unfolding ran fault_command validate_command dispatch_reset dispatch_history
  dispatch command args confirmed w =
      if command == "status"
      then ran (Status.status env w)
      else if command == "validate"
      then ran (some (validate_command args w))
      else if command == "fault"
      then fault_command confirmed args w
      else if command == "reset"
      then ran (dispatch_reset args w)
      else if command == "provision"
      then ran (provision env w)
      else if command == "history"
      then ran (some (dispatch_history args w, w))
      else some (
        misuse (
            printf "error: unknown command %q\n" (text command nil)
            ∷ printf "Run 'lab --help' for usage.\n" nil
            ∷ []),
        w,
      )

  pub shown : Renderer → Option (Value S) → Rendering S
  unfolding render
  shown r none = record { out = []; errors = [] }
  shown r (some v) = render r env.clock.finished v

  -- The rendering of a result: its error, or else its value.
  pub rendered : Renderer → Option Error → CommandResult S → Exit S
  unfolding shown
  rendered r (some e) c = record {
    exit_code = c.exit_code;
    stdout = [];
    stderr = printf "%v\n" (cause e nil) ∷ [];
  }
  rendered r none c =
      let p = shown r c.value in
      record { exit_code = c.exit_code; stdout = p.out; stderr = p.errors }

  pub exit_of : Renderer → Dispatched S → Exit S
  unfolding rendered
  exit_of r (misuse lines) = record { exit_code = 2; stdout = []; stderr = lines }
  exit_of r (finished c) = rendered r c.err c

  -- The warnings that a command has printed itself.
  abbrev pub notices : List Error → List (Line S)
  notices warnings = map (λ e. printf "%v\n" (cause e nil)) warnings

  -- What the process has printed in all: the warnings of its command, and then the result.
  pub exited : Renderer → Option (Dispatched S × World S) → Option (Exit S × World S)
  unfolding exit_of
  exited r none = none
  exited r (some (d, w)) =
      let x = exit_of r d in
      some (
        record {
          exit_code = x.exit_code;
          stdout = notices w.printed ++ x.stdout;
          stderr = notices w.warnings ++ x.stderr;
        },
        w,
      )

  abbrev pub renderer_of : GlobalFlags → Renderer
  renderer_of flags = record {
    format = if flags.json then Format.json else Format.human;
    quiet = flags.quiet;
  }

  abbrev pub usage : Exit S
  usage = record { exit_code = 0; stdout = println usage_text ∷ []; stderr = [] }

  -- `Run` behind the global flags.
  pub run_command : GlobalFlags → List String → World S → Option (Exit S × World S)
  unfolding exited dispatch with_logger
  run_command flags [] w = some (usage, w)
  run_command flags (command ∷ args) w =
      if (command == "--help") || (command == "-h")
      then some (usage, w)
      else exited (renderer_of flags) (
          dispatch command args flags.yes
            (with_logger (text_append "lab " (join_args (command ∷ args))) w))

  pub run_parsed : Result (GlobalFlags × List String) → World S → Option (Exit S × World S)
  unfolding run_command
  run_parsed (err e) w = some (
    record {
      exit_code = 2;
      stdout = [];
      stderr = printf "error: %v\n" (cause e nil) ∷ printf "Run 'lab --help' for usage.\n" nil ∷ [];
    },
    w,
  )
  run_parsed (ok (flags, remaining)) w = run_command flags remaining w

  -- A process that starts has printed nothing.
  abbrev pub silent : World S → World S
  silent w = record w { warnings = []; printed = [] }

  -- `App.Run`; `none` is a command that waits for the lock for ever.
  unfoldable pub run : List String → World S → Option (Exit S × World S)
  unfolding run_parsed
  run args w = run_parsed (parse_global_flags args) (silent w)
