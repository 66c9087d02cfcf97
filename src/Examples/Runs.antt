-- ===== src/Examples/Runs.antt =====
-- Runs of the whole command, and the interrupt handler beside a command.
use lab_env.Common.{String, ◌≡◌, ◌⊎◌, true, false, none, some, refl, [], ◌∷◌, List, Option}
use lab_env.Common.Errors.{ok}
use lab_env.State.{State, is_valid}
use lab_env.State.File.{File, ActiveFault}
use lab_env.State.Store
use lab_env.State.Store.Sound.{Sound}
use lab_env.Catalog.{by_id}
use lab_env.Catalog.StorageFaults.{apply_f004}
use lab_env.Conformance.Catalog.{check_by_id}
use lab_env.Common.Bytes.{trim_left}
use lab_env.Executor.Lock
use lab_env.Cmd.{World}
use lab_env.Cmd.Fault.{fault_apply}
use lab_env.Cmd.Steps.{Step, Steps, Steps-Sound}
use lab_env.App.{Exit, dispatch, run, usage, exited, renderer_of, ran, with_logger}
use lab_env.App.Flags.{
  GlobalFlags, is_operand, join_args, parse_global_flags, parse_fault_apply_flags,
}
use lab_env.App.Flags.Parsed.{parse_global_flags_lem}
use lab_env.App.Completed.{Exits, run-Exits}
use lab_env.App.Meaning.{Means, run-Means}
use lab_env.App.Printed.{PrintsResult, run-Disciplined}
use lab_env.App.Interrupt.{interrupt_with, interrupt_with-Sound, interrupt-fault_apply}
use lab_env.Examples.{Sys, env, conformant_world, file_of}
use lab_env.Examples.Commands.{applied, applied-returns, applied-succeeds, conformant-Sound}

abbrev words : List String
words = "--quiet" ∷ "fault" ∷ "apply" ∷ "F-004" ∷ "--yes" ∷ "--force" ∷ []

abbrev left : Option (Exit Sys × World Sys) → Exit Sys × World Sys
left none = (record { exit_code = 99; stdout = []; stderr = [] }, conformant_world)
left (some out) = out

abbrev quiet_run : Exit Sys × World Sys
quiet_run = left (run env words conformant_world)

quiet_run-returns : run env words conformant_world ≡ some quiet_run
unfolding run parse_global_flags parse_fault_apply_flags dispatch fault_apply by_id Lock.acquire
quiet_run-returns = refl

abbrev quiet_flags : GlobalFlags
quiet_flags = record { json = false; quiet = true; verbose = false; yes = true }

abbrev quiet_words : List String
quiet_words = "fault" ∷ "apply" ∷ "F-004" ∷ "--force" ∷ []

words-parsed : parse_global_flags words ≡ ok (quiet_flags, quiet_words)
words-parsed = parse_global_flags_lem words

run-Means_example :
    run env words conformant_world
    ≡ exited env (renderer_of env quiet_flags) (
        ran (
          fault_apply env "F-004" true true
            (with_logger "lab fault apply F-004 --force" conformant_world)))
unfolding is_operand join_args
run-Means_example =
    run-Means env words quiet_words quiet_flags conformant_world words-parsed
      (Means.apply_fault "F-004" ("--force" ∷ []))

run-Disciplined_example :
    PrintsResult env true false quiet_run.0 quiet_run.1 ⊎ (quiet_run.0 ≡ usage env)
run-Disciplined_example =
    run-Disciplined env words conformant_world {x = quiet_run.0} {w' = quiet_run.1}
      quiet_run-returns

parse_global_flags_lem_example :
    parse_global_flags ("--json" ∷ "status" ∷ "--yes" ∷ [])
    ≡ ok (record { json = true; quiet = false; verbose = false; yes = true }, "status" ∷ [])
parse_global_flags_lem_example = parse_global_flags_lem ("--json" ∷ "status" ∷ "--yes" ∷ [])

applied-Sound : Sound applied.1.disk
applied-Sound =
    Steps-Sound {w = conformant_world} {w' = applied.1}
      (Steps.next conformant_world applied.1 applied.1
        (Step.applies env "F-004" true true conformant_world applied.0 applied.1 applied-returns)
        (Steps.done applied.1))
      conformant-Sound

interrupt_with-Sound_example :
    Sound (interrupt_with env (Store.read conformant_world.disk) applied.1).1.disk
interrupt_with-Sound_example =
    interrupt_with-Sound env conformant_world applied.1 conformant-Sound applied-Sound

abbrev conformant_file : File
conformant_file = file_of State.conformant none

conformant-read : Store.read conformant_world.disk ≡ ok conformant_file
unfolding Store.read is_valid
conformant-read = refl

applied-refusals : applied.1.disk.refusals ≡ []
unfolding fault_apply by_id Lock.acquire Store.write Store.read apply_f004 check_by_id trim_left
applied-refusals = refl

abbrev forced_fault : ActiveFault
forced_fault = record { id = "F-004"; applied_at = env.clock.stamped; forced = true }

interrupt-fault_apply_example :
    ((f : File) × (Store.read applied.1.disk ≡ ok f) × (f.active_fault ≡ some forced_fault))
    × ((g : File) × (Store.read
            (interrupt_with env (Store.read conformant_world.disk) applied.1).1.disk
          ≡ ok g)
        × (g.active_fault ≡ none)
        × (g.state ≡ State.conformant)
        × (g.classification_valid ≡ false))
    × ((interrupt_with env (Store.read conformant_world.disk) applied.1).1.machine.sys
        ≡ applied.1.machine.sys)
interrupt-fault_apply_example =
    interrupt-fault_apply env "F-004" true conformant_world applied.1 conformant_file
      {c = applied.0} conformant-read refl applied-returns applied-succeeds applied-refusals

run-Exits_example : Exits (run env words conformant_world)
run-Exits_example = run-Exits env 0 refl refl words conformant_world
