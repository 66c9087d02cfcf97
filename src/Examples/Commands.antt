-- ===== src/Examples/Commands.antt =====
-- Runs of the commands on a concrete system.
use lab_env.Common.{true, false, ◌≡◌, none, some, refl, arith, inl}
use lab_env.Common.Errors.{ok}
use lab_env.State.{State, state_eq, is_valid}
use lab_env.State.File.{File}
use lab_env.State.Store
use lab_env.State.Store.Sound.{Sound}
use lab_env.Executor.Decimal.{decimal}
use lab_env.Executor.Lock
use lab_env.Catalog.{by_id}
use lab_env.Catalog.StorageFaults.{apply_f004}
use lab_env.Common.Bytes.{trim_left}
use lab_env.Conformance.Catalog.{check_by_id, catalog}
use lab_env.Cmd.{World, CommandResult}
use lab_env.Cmd.Fault.{fault_apply}
use lab_env.Cmd.Fault.Outcomes.{Outcome, fault_apply-Outcome}
use lab_env.Cmd.Fault.Guarded.{Rejected, fault_apply-Rejected, fault_apply-fault_apply}
use lab_env.Cmd.Steps.{Step, Steps, Steps-Sound}
use lab_env.Cmd.Reset.{reset, file_or_broken, chosen_tier}
use lab_env.Cmd.Reset.Outcomes
use lab_env.Cmd.Reset.Outcomes.{reset-Outcome}
use lab_env.Cmd.Status.{status as run_status}
use lab_env.Cmd.Report.{evidence}
use lab_env.Conformance.Runner.{lightweight_run}
use lab_env.Executor.Lock.{LockState, LockFile, pid_line}
use lab_env.Cmd.Status.Reconcile.{shown_state}
use lab_env.Cmd.Status.Recorded.{Records, status-Records-valid, status-Records-invalid}
use lab_env.Examples.{Sys, env, process, conformant_world, faulty_file, world_of, file_of, returned}

abbrev pub applied : CommandResult Sys × World Sys
applied = returned conformant_world (fault_apply env "F-004" true true conformant_world)

pub applied-returns : fault_apply env "F-004" true true conformant_world ≡ some applied
unfolding fault_apply by_id Lock.acquire
applied-returns = refl

pub applied-succeeds : applied.0.exit_code ≡ 0
unfolding fault_apply by_id Lock.acquire Store.write Store.read apply_f004 check_by_id trim_left
applied-succeeds = refl

fault_apply-Outcome_example : Outcome env "F-004" true true conformant_world applied
fault_apply-Outcome_example =
    fault_apply-Outcome env "F-004" true true conformant_world {out = applied} applied-returns

abbrev rejected : CommandResult Sys × World Sys
rejected =
    returned (world_of faulty_file) (fault_apply env "F-001" false true (world_of faulty_file))

rejected-returns : fault_apply env "F-001" false true (world_of faulty_file) ≡ some rejected
unfolding fault_apply by_id Lock.acquire
rejected-returns = refl

faulty-read : Store.read (world_of faulty_file).disk ≡ ok faulty_file
unfolding Store.read is_valid
faulty-read = refl

fault_apply-Rejected_example : Rejected env "F-001" true (world_of faulty_file) rejected
fault_apply-Rejected_example =
    fault_apply-Rejected env "F-001" true faulty_file (world_of faulty_file) {out = rejected}
      faulty-read (inl (ground arith)) rejected-returns

abbrev again : CommandResult Sys × World Sys
again = returned applied.1 (fault_apply env "F-001" false true applied.1)

again-returns : fault_apply env "F-001" false true applied.1 ≡ some again
unfolding fault_apply by_id Lock.acquire Lock.release Store.read apply_f004 Store.write check_by_id
    trim_left
again-returns = refl

fault_apply-fault_apply_example : Rejected env "F-001" true applied.1 again
fault_apply-fault_apply_example =
    fault_apply-fault_apply env "F-001" true "F-004" true conformant_world {out = applied}
      {out' = again} applied-returns applied-succeeds again-returns

abbrev was_reset : CommandResult Sys × World Sys
was_reset = returned (world_of faulty_file) (reset env "R2" (world_of faulty_file))

was_reset-returns : reset env "R2" (world_of faulty_file) ≡ some was_reset
unfolding reset Lock.acquire
was_reset-returns = refl

reset-Outcome_example :
    Outcomes.Outcome env
      (world_of faulty_file).locks
      "R2"
      faulty_file
      (world_of faulty_file)
      was_reset
unfolding Store.read file_or_broken chosen_tier
reset-Outcome_example =
    reset-Outcome env "R2" (world_of faulty_file) {out = was_reset} refl was_reset-returns

abbrev taken : LockState
taken = record {
  at_path = LockFile.contents (pid_line 42);
  lock = record { pid = 42; file = true };
}

-- The system is healthy, and the file says BROKEN.
abbrev broken_world : World Sys
broken_world = world_of (file_of State.broken none)

abbrev reconciled : CommandResult Sys × World Sys
reconciled = returned broken_world (run_status env broken_world)

broken-taken : Lock.acquire 2 process broken_world.locks ≡ some (none, taken)
unfolding Lock.acquire pid_line decimal
broken-taken = refl

broken-read : Store.read broken_world.disk ≡ ok (file_of State.broken none)
unfolding Store.read is_valid
broken-read = refl

reconciled-returns : run_status env broken_world ≡ some reconciled
unfolding run_status Lock.acquire Store.read evidence lightweight_run catalog
reconciled-returns = refl

status-Records-valid_example :
    Records
      (file_of State.broken none)
      (shown_state env (file_of State.broken none) broken_world)
      reconciled.1
status-Records-valid_example =
    status-Records-valid env (file_of State.broken none) broken_world {l = taken} broken-taken refl
      broken-read {out = reconciled} refl reconciled-returns

-- The same after an interruption.
abbrev stale_file : File
stale_file = record (file_of State.broken none) { classification_valid = false }

abbrev stale : CommandResult Sys × World Sys
stale = returned (world_of stale_file) (run_status env (world_of stale_file))

stale-read : Store.read (world_of stale_file).disk ≡ ok stale_file
unfolding Store.read is_valid
stale-read = refl

stale-returns : run_status env (world_of stale_file) ≡ some stale
unfolding run_status Lock.acquire Store.read evidence lightweight_run catalog
stale-returns = refl

status-Records-invalid_example : Records stale_file State.broken stale.1
status-Records-invalid_example =
    status-Records-invalid env stale_file (world_of stale_file) {l = taken} broken-taken refl
      stale-read {out = stale} refl stale-returns

pub conformant-Sound : Sound conformant_world.disk
unfolding Store.read is_valid
conformant-Sound = (refl, refl, omega arith)

Steps-Sound_example : Sound again.1.disk
Steps-Sound_example =
    Steps-Sound {w = conformant_world} {w' = again.1}
      (Steps.next conformant_world applied.1 again.1
        (Step.applies env "F-004" true true conformant_world applied.0 applied.1 applied-returns)
        (Steps.next applied.1 again.1 again.1
          (Step.applies env "F-001" false true applied.1 again.0 again.1 again-returns)
          (Steps.done again.1)))
      conformant-Sound
