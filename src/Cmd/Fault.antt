-- ===== src/Cmd/Fault.antt =====
-- cmd/fault.go: lab fault apply.
pub mod Preconditions
pub mod Outcomes
pub mod Guarded
pub mod Sound
use Prim.Native.String.{◌++◌ as text_append}
use lab_env.Common.{
  ℕ, String, Bool, true, false, not, ◌&&◌, Option, none, some, List, [], ◌∷◌, ◌++◌, length,
  contains, is_none, is_some, ◌==◌, string_eq, if◌then◌else◌, ltb,
}
use lab_env.Common.Errors.{Error, Result, ok, err, errorf, message, wrap, text, cause, nil}
use lab_env.Conformance.Check.{Check}
use lab_env.Conformance.Catalog.{check_by_id}
use lab_env.Conformance.Runner.{recovered}
use lab_env.State.{State, state_eq}
use lab_env.State.Texts.{state_text}
use lab_env.State.File.{File, ActiveFault}
use lab_env.State.Store
use lab_env.Executor.Audit.{log_error, log_transition}
use lab_env.Executor.Machine.{Machine}
use lab_env.Catalog.{by_id}
use lab_env.Catalog.Fault.{FaultDef, FaultImpl}
use lab_env.Cmd.{
  Env, World, CommandResult, Value, FaultApplyResult, failed, succeeded, audited, warned,
  store_write, with_lock,
}

-- A precondition that is not met: the result, and the error that is logged, if one is.
pub record Refusal : Type 0 where
  pub exit_code : ℕ
  pub reason : Error
  pub log : Option (String × Error)

abbrev pub or_else : {A : Type 0} → Option A → Option A → Option A
or_else none later = later
or_else (some a) later = some a

-- A check of the catalog is called directly here; none of them panics.
abbrev pub check_error : {S : Type 0} → Env S → Check (Machine S) → Machine S → Option Error
check_error env check m = recovered (check.execute env.observer m)

module _ {S : Type 0} (env : Env S) (id : String) (force confirmed : Bool) where
  -- Precondition 2: the state is CONFORMANT.
  pub state_guard : File → Option Refusal
  state_guard sf =
      if not force && not (sf.state == State.conformant)
      then some (record {
        exit_code = 3;
        reason =
            errorf
              "ErrPreconditionNotMet: current state is %s; lab fault apply requires CONFORMANT\n\nReset first:   lab reset\nThen apply:    lab fault apply %s\n\nTo override (not recommended):  lab fault apply %s --force"
              (text (state_text sf.state) (text id (text id nil)));
        log = some ("ErrPreconditionNotMet", message (state_text sf.state));
      })
      else none

  pub active_refusal : Option ActiveFault → Option Refusal
  active_refusal none = none
  active_refusal (some f) = some (record {
    exit_code = 3;
    reason =
        errorf
          "ErrFaultAlreadyActive: fault %s is currently active\n\nReset first:   lab reset\nThen apply:    lab fault apply %s"
          (text f.id (text id nil));
    log = some ("ErrFaultAlreadyActive", message f.id);
  })

  -- Precondition 3: no fault is active.
  pub active_guard : File → Option Refusal
  unfolding active_refusal
  active_guard sf = if not force then active_refusal sf.active_fault else none

  -- Precondition 4: the state is one that the fault declares.
  pub declared_guard : FaultDef → File → Option Refusal
  declared_guard def sf =
      if not force && not (contains sf.state def.preconditions)
      then some (record {
        exit_code = 3;
        reason =
            errorf "ErrFaultPreconditionFailed: state precondition not satisfied for fault %s"
              (text id nil);
        log = some ("ErrFaultPreconditionFailed", message "state precondition not met");
      })
      else none

  check_verdict : String → Option Error → Option Refusal → Option Refusal
  check_verdict check_id none later = later
  check_verdict check_id (some e) later = some (record {
    exit_code = 3;
    reason =
        errorf
          "ErrFaultPreconditionFailed: check %s must pass before applying fault %s\n\nEnsure the prerequisite condition is met, or use --force to bypass (not recommended)"
          (text check_id (text id nil));
    log = some ("ErrFaultPreconditionFailed", message check_id);
  })

  check_refusal : String → Option (Check (Machine S)) → Machine S → Option Refusal → Option Refusal
  unfolding check_verdict
  check_refusal check_id none m later = some (record {
    exit_code = 2;
    reason =
        errorf "internal error: fault %s declares unknown PreconditionCheck %q"
          (text id (text check_id nil));
    log = none;
  })
  check_refusal check_id (some check) m later =
      check_verdict check_id (check_error env check m) later

  -- The loop of precondition 5.
  pub checks_refusal : List String → Machine S → Option Refusal
  unfolding check_refusal
  checks_refusal [] m = none
  checks_refusal (check_id ∷ rest) m =
      check_refusal check_id (check_by_id env.json check_id) m (checks_refusal rest m)

  -- Precondition 5: the declared checks pass.
  pub checks_guard : FaultDef → Machine S → Option Refusal
  checks_guard def m =
      if not force && ltb 0 (length def.precondition_checks)
      then checks_refusal def.precondition_checks m
      else none

  -- Preconditions 2 to 5 in their order.
  unfoldable pub refusal : FaultDef → File → Machine S → Option Refusal
  unfolding state_guard active_guard declared_guard checks_guard
  refusal def sf m =
      or_else (state_guard sf)
        (or_else (active_guard sf) (or_else (declared_guard def sf) (checks_guard def m)))

  pub log_refusal : Option (String × Error) → World S → World S
  log_refusal none w = w
  log_refusal (some (name, detail)) w = audited (log_error env.clock.stamped name detail) w

  pub refused : Refusal → World S → CommandResult S × World S
  unfolding log_refusal
  refused r w = (failed r.exit_code r.reason, log_refusal r.log w)

  pub unconfirmed : FaultDef → CommandResult S
  unconfirmed def = succeeded 0 (
      Value.fault_apply (record {
        fault_id = id;
        applied = false;
        from_state = State.unset;
        to_state = State.unset;
        forced = false;
        aborted = true;
        abort_reason = some (
            errorf "fault %s requires confirmation; re-run with --yes to confirm:\n\n  Mutation: %s"
              (text id (text def.mutation_display nil)));
      }))

  verify_error : String → Option Error → World S → World S
  verify_error check_id (some e) w = w
  verify_error check_id none w =
      warned
        (errorf "warning: post‑apply check %s passed; fault %s may not be fully active"
          (text check_id (text id nil)))
        w

  pub verify_one : String → Option (Check (Machine S)) → World S → World S
  unfolding verify_error
  verify_one check_id none w = w
  verify_one check_id (some check) w = verify_error check_id (check_error env check w.machine) w

  -- The loop of the verification after `Apply`: a warning for each check that still passes.
  pub verify_applied : List String → World S → World S
  unfolding verify_one
  verify_applied [] w = w
  verify_applied (check_id ∷ rest) w =
      verify_applied rest (verify_one check_id (check_by_id env.json check_id) w)

  -- The file that records the applied fault.
  unfoldable pub degraded_file : File → File
  degraded_file sf =
      Store.append_history
        (record {
          ts = env.clock.stamped;
          from = sf.state;
          to = State.degraded;
          command = text_append "lab fault apply " id;
          fault = id;
          forced = force;
        })
        (record sf {
          state = State.degraded;
          classification_valid = true;
          active_fault = some (record { id = id; applied_at = env.clock.stamped; forced = force });
        })

  pub recorded : File → Option Error × World S → CommandResult S × World S
  recorded sf (some e, w) = (
    failed 4 (
        wrap "fault applied but state recording failed — run 'lab status' to re-establish state: %w"
          e),
    let w' = audited (log_error env.clock.stamped "StateRecordingFailed" e) w in
        record w' { disk = (Store.invalidate_classification w'.disk).1 },
  )
  recorded sf (none, w) = (
    succeeded 0 (
        Value.fault_apply (record {
          fault_id = id;
          applied = true;
          from_state = sf.state;
          to_state = State.degraded;
          forced = force;
          aborted = false;
          abort_reason = none;
        })),
    audited (log_transition env.clock.stamped sf.state State.degraded id) w,
  )

  pub after_apply : FaultDef → File → Result (Unit {0}) → World S → CommandResult S × World S
  unfolding verify_applied recorded degraded_file
  after_apply def sf (err e) w = (
    failed 1 (
        wrap
          "ErrApplyFailed: fault application failed: %w\n\nRun 'lab status' to determine current state."
          e),
    audited (log_error env.clock.stamped "ErrApplyFailed" e) w,
  )
  after_apply def sf (ok done) w =
      recorded sf
        (store_write (degraded_file sf) (verify_applied def.postcondition.failing_checks w))

  pub apply_fault : FaultImpl (Machine S) → File → World S → CommandResult S × World S
  unfolding after_apply
  apply_fault fault sf w =
      let (r, m) = fault.apply env.executor w.machine in
      after_apply fault.def sf r (record w { machine = m })

  -- From the preconditions on; the confirmation is asked for after the other preconditions.
  pub checked_apply :
      FaultImpl (Machine S) → File → Option Refusal → World S → CommandResult S × World S
  unfolding refused unconfirmed apply_fault
  checked_apply fault sf (some r) w = refused r w
  checked_apply fault sf none w =
      if fault.def.requires_confirmation && not confirmed
      then (unconfirmed fault.def, w)
      else apply_fault fault sf w

  pub with_file : FaultImpl (Machine S) → Result File → World S → CommandResult S × World S
  unfolding refusal checked_apply
  with_file fault (err e) w = (
    failed 1 (wrap "reading state file: %w" e),
    audited (log_error env.clock.stamped "ErrStateFileUnreadable" e) w,
  )
  with_file fault (ok sf) w = checked_apply fault sf (refusal fault.def sf w.machine) w

  unfoldable pub with_fault :
      Option (FaultImpl (Machine S)) → World S → Option (CommandResult S × World S)
  unfolding with_lock with_file
  with_fault none w = some (
    failed 2 (errorf "ErrUnknownFaultID: unknown fault ID %q — run 'lab fault list'" (text id nil)),
    audited (log_error env.clock.stamped "ErrUnknownFaultID" (message id)) w,
  )
  with_fault (some fault) w =
      with_lock env (λ w'. with_file fault (Store.read w'.disk) w')
        (λ e w'. (failed 1 e, audited (log_error env.clock.stamped "ErrLockHeld" e) w')) w

  -- `FaultApplyCmd.Run`
  unfoldable pub fault_apply : World S → Option (CommandResult S × World S)
  unfolding with_fault
  fault_apply w = with_fault (by_id id) w
