-- ===== src/Cmd/Completed.antt =====
-- cmd: where a lock file can be removed, every command returns, with one of the exit codes 0 to 4.
use lab_env.Common.{ℕ, suc, ◌≤◌, ◌≡◌, refl, String, Bool, true, false, Option, none, some, arith}
use lab_env.Common.Errors.{Error}
use lab_env.Conformance.Result.{SuiteResult, exit_code}
use lab_env.Conformance.Runner.{run}
use lab_env.State.File.{File}
use lab_env.State.Store
use lab_env.State.Detect.{DetectionResult}
use lab_env.Executor.Lock.{LockState}
use lab_env.Executor.Lock.Stale.{acquire_total}
use lab_env.Catalog.{by_id}
use lab_env.Catalog.Fault.{FaultImpl}
use lab_env.Executor.Machine.{Machine}
use lab_env.Cmd.{Env, World, CommandResult, with_lock, acquired}
use lab_env.Cmd.Locked.{Locked, with_lock-Locked}
use lab_env.Cmd.Fault.{with_fault, fault_apply}
use lab_env.Cmd.Fault.Outcomes.{fault_apply-Outcome}
use lab_env.Cmd.Reset.{reset_locked, reset}
use lab_env.Cmd.Provision.{provision_locked, provision}
use lab_env.Cmd.Status.{
  written, needs_write, reconciled, status_of, status, recovered_file, file_option,
}
use lab_env.Cmd.Status.Reconcile.{status-exit_code}
use lab_env.Cmd.Report.{detection}
use lab_env.Cmd.Validate.{suite_command, single_command, process_result, validate, validate_single}

-- The command returns.
abbrev pub Returns : {S : Type 0} → Option (CommandResult S × World S) → Type 0
Returns {S} o = (out : CommandResult S × World S) × (o ≡ some out)

-- The command returns, with an exit code of at most 4.
abbrev pub Completes : {S : Type 0} → Option (CommandResult S × World S) → Type 0
Completes {S} o = (out : CommandResult S × World S) × (o ≡ some out) × (out.0.exit_code ≤ 4)

module _ {S : Type 0} (env : Env S) where
  suite_command-exit_code : (sr : SuiteResult (Machine S)) → (suite_command env sr).exit_code ≤ 4
  unfolding suite_command exit_code
  suite_command-exit_code sr = ground arith

  pub validate-exit_code : (w : World S) → (validate env w).0.exit_code ≤ 4
  unfolding validate process_result
  validate-exit_code w =
      suite_command-exit_code (run env.observer w.machine env.clock.suite_at env.checks)

  pub validate_single-exit_code :
      (id : String) (m : Machine S) → (validate_single env id m).exit_code ≤ 4
  unfolding validate_single single_command suite_command exit_code
  validate_single-exit_code id m = ground arith

  provision_locked-exit_code : (w : World S) → (provision_locked env w).0.exit_code ≤ 4
  unfolding provision_locked
  provision_locked-exit_code w = ground arith

  reset_locked-exit_code : (tier : String) (w : World S) → (reset_locked env tier w).0.exit_code ≤ 4
  unfolding reset_locked
  reset_locked-exit_code tier w = ground arith

  acquired-Returns :
      (a : Option Error × LockState) (body : World S → CommandResult S × World S)
      (refuse : Error → World S → CommandResult S × World S) (w : World S)
      → Returns (acquired (some a) env.process body refuse w)
  unfolding acquired
  acquired-Returns (some e, l) body refuse w = (_, refl)
  acquired-Returns (none, l) body refuse w = (_, refl)

  Locked-exit_code :
      (body : World S → CommandResult S × World S)
      (refuse : Error → World S → CommandResult S × World S) (w : World S)
      {out : CommandResult S × World S}
      → ((w' : World S) → (body w').0.exit_code ≤ 4)
      → ((e : Error) (w' : World S) → (refuse e w').0.exit_code ≤ 4)
      → Locked env.process body refuse w out
      → out.0.exit_code ≤ 4
  Locked-exit_code body refuse w good good' (Locked.not_acquired e l fuel is) = good' e _
  Locked-exit_code body refuse w good good' (Locked.ran l) = good _

  module _ (more : ℕ) (enough : env.lock_fuel ≡ suc (suc more))
      (removes : env.process.removes ≡ true) where
    with_lock-Returns :
        (body : World S → CommandResult S × World S)
        (refuse : Error → World S → CommandResult S × World S) (w : World S)
        → Returns (with_lock env body refuse w)
    unfolding with_lock
    with_lock-Returns body refuse w =
        rw (enough, acquire_total more env.process w.locks removes)
          (acquired-Returns _ body refuse w)

    with_lock-Completes :
        (body : World S → CommandResult S × World S)
        (refuse : Error → World S → CommandResult S × World S) (w : World S)
        → ((w' : World S) → (body w').0.exit_code ≤ 4)
        → ((e : Error) (w' : World S) → (refuse e w').0.exit_code ≤ 4)
        → Completes (with_lock env body refuse w)
    with_lock-Completes body refuse w good good' =
        let (out, is) = with_lock-Returns body refuse w in
        (
          out,
          is,
          Locked-exit_code body refuse w {out = out} good good'
              (with_lock-Locked env body refuse w {out = out} is),
        )

    pub reset-Completes : (tier : String) (w : World S) → Completes (reset env tier w)
    unfolding reset
    reset-Completes tier w =
        with_lock-Completes _ _ w (reset_locked-exit_code tier) (λ e w'. omega arith)

    pub provision-Completes : (w : World S) → Completes (provision env w)
    unfolding provision
    provision-Completes w =
        with_lock-Completes _ _ w provision_locked-exit_code (λ e w'. omega arith)

    with_fault-Returns :
        (id : String) (force confirmed : Bool) (fault : Option (FaultImpl (Machine S)))
        (w : World S)
        → Returns (with_fault env id force confirmed fault w)
    unfolding with_fault
    with_fault-Returns id force confirmed none w = (_, refl)
    with_fault-Returns id force confirmed (some fault) w = with_lock-Returns _ _ w

    pub fault_apply-Completes :
        (id : String) (force confirmed : Bool) (w : World S)
        → Completes (fault_apply env id force confirmed w)
    unfolding fault_apply
    fault_apply-Completes id force confirmed w =
        let (out, is) = with_fault-Returns id force confirmed (by_id id) w in
        (out, is, (fault_apply-Outcome env id force confirmed w {out = out} is).3)

    written-Returns :
        (b : Bool) (sf : File) (det : DetectionResult) (w : World S)
        → Returns (written env b sf det w)
    unfolding written
    written-Returns false sf det w = (_, refl)
    written-Returns true sf det w = with_lock-Returns _ _ w

    reconciled-Returns :
        (sf : Option File) (det : DetectionResult) (w : World S) → Returns (reconciled env sf det w)
    unfolding reconciled
    reconciled-Returns none det w = (_, refl)
    reconciled-Returns (some sf) det w = written-Returns (needs_write env sf det) sf det w

    pub status-Completes : (w : World S) → Completes (status env w)
    unfolding status status_of
    status-Completes w =
        let sf = file_option (Store.read w.disk) in
        let det = detection env sf w.machine in
        let next = recovered_file env sf det w in
        let (out, is) = reconciled-Returns next.0 det next.1 in
        (out, is, rw (status-exit_code env w {out = out} is) (omega arith))
