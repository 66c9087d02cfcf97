-- ===== src/Cmd/Status.antt =====
-- cmd/status.go: lab status, the only command that reconciles the recorded state with the
-- observed one.
pub mod Reconcile
pub mod Recorded
pub mod Sound
use lab_env.Common.{
  ℕ, String, Bool, true, false, not, ◌&&◌, ◌||◌, Option, none, some, ◌==◌, if◌then◌else◌,
}
use lab_env.Common.Errors.{Error, Result, ok, err, wrap}
use lab_env.State.File.{File, fresh}
use lab_env.State.Store
use lab_env.State.Detect.{DetectionResult, is_unknown}
use lab_env.Executor.Audit.{log_reconciliation}
use lab_env.Executor.Machine.{Machine}
use lab_env.Cmd.{
  Env, World, CommandResult, Value, succeeded, audited, warned, store_write, with_lock,
}
use lab_env.Cmd.Report.{blank, detection, build_status_result}

abbrev pub file_option : Result File → Option File
file_option (err e) = none
file_option (ok sf) = some sf

module _ {S : Type 0} (env : Env S) where
  -- Step 5
  pub reported : Option File → DetectionResult → Machine S → CommandResult S
  unfolding is_unknown build_status_result
  reported sf det m =
      if is_unknown det
      then succeeded 5 (Value.status (record blank { unknown = true }))
      else succeeded 0 (Value.status (build_status_result env sf det.detected m))

  pub warn_unwritten : String → Option Error × World S → World S
  warn_unwritten context (none, w) = w
  warn_unwritten context (some e, w) = warned (wrap context e) w

  -- Step 3b: an unreadable state file is replaced by a fresh one of the detected state.
  pub recovered_file : Option File → DetectionResult → World S → Option File × World S
  unfolding warn_unwritten is_unknown fresh
  recovered_file (some sf) det w = (some sf, w)
  recovered_file none det w =
      let sf = fresh env.clock.stamped det.detected in
      if not (is_unknown det)
      then (
        some sf,
        warn_unwritten "warning: failed to write new state file: %v" (store_write sf w),
      )
      else (none, w)

  abbrev pub reconciled_file : File → DetectionResult → File
  reconciled_file sf det = record sf {
    state = det.detected;
    classification_valid = true;
    last_status_at = some env.clock.stamped;
  }

  abbrev pub revalidated_file : File → File
  revalidated_file sf = record sf {
    classification_valid = true;
    last_status_at = some env.clock.stamped;
  }

  -- Steps 4 and 4b, under the lock.
  pub reconcile : File → DetectionResult → World S → CommandResult S × World S
  unfolding reported warn_unwritten is_unknown
  reconcile sf det w =
      if det.reconciled
      then (
        reported (some (reconciled_file sf det)) det w.machine,
        warn_unwritten "warning: failed to write reconciled state: %v" (
            store_write (reconciled_file sf det)
              (audited (log_reconciliation env.clock.stamped det.prior_state det.detected) w)),
      )
      else if not sf.classification_valid && not (is_unknown det)
      then (
        reported (some (revalidated_file sf)) det w.machine,
        warn_unwritten "warning: failed to update classification validity: %v"
            (store_write (revalidated_file sf) w),
      )
      else (reported (some sf) det w.machine, w)

  -- `needsWrite`
  pub needs_write : File → DetectionResult → Bool
  unfolding is_unknown
  needs_write sf det = det.reconciled || (not sf.classification_valid && not (is_unknown det))

  -- `if needsWrite && sf != nil`: the failure to get the lock is a warning only.
  unfoldable pub written :
      Bool → File → DetectionResult → World S → Option (CommandResult S × World S)
  unfolding with_lock reconcile reported
  written false sf det w = some (reported (some sf) det w.machine, w)
  written true sf det w =
      with_lock env (reconcile sf det)
        (λ e w'. (
          reported (some sf) det w'.machine,
          warned (wrap "warning: could not acquire lock to reconcile state: %v" e) w',
        ))
        w

  -- Step 4
  unfoldable pub reconciled :
      Option File → DetectionResult → World S → Option (CommandResult S × World S)
  unfolding written needs_write reported
  reconciled none det w = some (reported none det w.machine, w)
  reconciled (some sf) det w = written (needs_write sf det) sf det w

  -- `Run` after the state file is read.
  unfoldable pub status_of : Option File → World S → Option (CommandResult S × World S)
  unfolding detection recovered_file reconciled
  status_of sf w =
      let det = detection env sf w.machine in
      let (sf', w') = recovered_file sf det w in reconciled sf' det w'

  -- `StatusCmd.Run`
  unfoldable pub status : World S → Option (CommandResult S × World S)
  unfolding status_of
  status w = status_of (file_option (Store.read w.disk)) w
