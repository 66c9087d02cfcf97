-- ===== src/Cmd/Status/Reconcile.antt =====
-- cmd/status.go: what `lab status` records.
use lab_env.Common.{
  true, [], if◌then◌else◌, ◌&&◌, Bool, false, not, ◌≡◌, Option, none, some, arith, refl,
}
use lab_env.Common.Errors.{wrap, ok}
use lab_env.Conformance.Result.{is_conformant}
use lab_env.State.{State, state_eq, is_valid}
use lab_env.State.File.{File}
use lab_env.State.Store
use lab_env.State.Store.Recovery.{stamped, read-write, write_accepted}
use lab_env.State.Detect.{DetectionResult, is_unknown, recorded_state, differs, recorded_fault}
use lab_env.State.Detect.Authority.{runtime_state, detect-runtime_state, detect-reconciled}
use lab_env.Executor.Machine.{Machine}
use lab_env.Executor.Lock
use lab_env.Executor.Lock.{LockState}
use lab_env.Cmd.{Env, World, CommandResult, warned, with_lock, acquired}
use lab_env.Cmd.Locked.{Locked, with_lock-Locked}
use lab_env.Cmd.Status.{
  status, status_of, file_option, recovered_file, warn_unwritten, written, needs_write, reconciled,
  reconcile, reported, reconciled_file, revalidated_file,
}
use lab_env.Cmd.Report.{detect_input, evidence, detection}

module _ {S : Type 0} (env : Env S) where
  -- The state that the running system and the recorded fault stand for.
  abbrev pub shown_state : File → World S → State
  shown_state sf w =
      runtime_state (is_conformant (evidence env w.machine).classification) sf.active_fault

  pub detection-known : (sf : Option File) (m : Machine S) → is_unknown (detection env sf m) ≡ false
  unfolding detection
  detection-known sf m = (detect-runtime_state (detect_input env sf m) refl).2

  pub detection-detected :
      (sf : File) (w : World S) → (detection env (some sf) w.machine).detected ≡ shown_state sf w
  unfolding detection recorded_fault
  detection-detected sf w = (detect-runtime_state (detect_input env (some sf) w.machine) refl).0

  pub detection-reconciled :
      (sf : File) (w : World S)
      → (detection env (some sf) w.machine).reconciled
        ≡ differs (recorded_state (some sf)) (detection env (some sf) w.machine).detected
  unfolding detection
  detection-reconciled sf w = detect-reconciled (detect_input env (some sf) w.machine)

  reported-exit_code :
      (sf : Option File) (det : DetectionResult) (m : Machine S)
      → is_unknown det ≡ false
      → (reported env sf det m).exit_code ≡ 0
  unfolding reported
  reported-exit_code sf det m known = rw known refl

  reconcile-exit_code :
      (sf : File) (det : DetectionResult) (w : World S)
      → is_unknown det ≡ false
      → (reconcile env sf det w).0.exit_code ≡ 0
  unfolding reconcile
  reconcile-exit_code sf det w known = ground (
    arith,
    reported-exit_code (some (reconciled_file env sf det)) det w.machine known,
    reported-exit_code (some (revalidated_file env sf)) det w.machine known,
    reported-exit_code (some sf) det w.machine known,
  )

  Locked-exit_code :
      (sf : File) (det : DetectionResult) (w : World S) {out : CommandResult S × World S}
      → is_unknown det ≡ false
      → Locked env.process
          (reconcile env sf det)
          (λ e w'. (
            reported env (some sf) det w'.machine,
            warned (wrap "warning: could not acquire lock to reconcile state: %v" e) w',
          ))
          w
          out
      → out.0.exit_code ≡ 0
  Locked-exit_code sf det w known (Locked.not_acquired e l fuel is) =
      reported-exit_code (some sf) det w.machine known
  Locked-exit_code sf det w known (Locked.ran l) =
      reconcile-exit_code sf det (record w { locks = l }) known

  pub written-exit_code :
      (b : Bool) (sf : File) (det : DetectionResult) (w : World S) {out : CommandResult S × World S}
      → is_unknown det ≡ false
      → written env b sf det w ≡ some out
      → out.0.exit_code ≡ 0
  unfolding written
  written-exit_code false sf det w known h =
      ground (arith, reported-exit_code (some sf) det w.machine known)
  written-exit_code true sf det w {out = o} known h =
      Locked-exit_code sf det w {out = o} known (with_lock-Locked env _ _ w {out = o} h)

  reconciled-exit_code :
      (sf : Option File) (det : DetectionResult) (w : World S) {out : CommandResult S × World S}
      → is_unknown det ≡ false
      → reconciled env sf det w ≡ some out
      → out.0.exit_code ≡ 0
  unfolding reconciled
  reconciled-exit_code none det w known h =
      ground (arith, reported-exit_code none det w.machine known)
  reconciled-exit_code (some sf) det w {out = o} known h =
      written-exit_code (needs_write env sf det) sf det w {out = o} known h

  -- `lab status` always exits 0: its exit code 5 for an unknown state is never returned, since the
  -- lightweight run decides the state by itself.
  pub status-exit_code :
      (w : World S) {out : CommandResult S × World S}
      → status env w ≡ some out
      → out.0.exit_code ≡ 0
  unfolding status status_of
  status-exit_code w {out = o} h =
      let sf = file_option (Store.read w.disk) in
      let det = detection env sf w.machine in
      let next = recovered_file env sf det w in
      reconciled-exit_code next.0 det next.1 {out = o} (detection-known sf w.machine) h

  pub written-lem :
      (b : Bool) (sf : File) (det : DetectionResult) (w : World S) {l : LockState}
      {out : CommandResult S × World S}
      → Lock.acquire env.lock_fuel env.process w.locks ≡ some (none, l)
      → w.disk.refusals ≡ []
      → is_valid sf.state ≡ true
      → is_valid det.detected ≡ true
      → Store.read w.disk ≡ ok sf
      → written env (needs_write env sf det) sf det w ≡ some out
      → Store.read out.1.disk
        ≡ ok (
            if det.reconciled
            then stamped (reconciled_file env sf det)
            else if not sf.classification_valid && not (is_unknown det)
            then stamped (revalidated_file env sf)
            else sf)
  unfolding written needs_write with_lock acquired reconcile warn_unwritten
  written-lem b sf det w {l = l} {out = o} taken accepted valid valid' is h = ground (
    arith,
    taken,
    write_accepted (reconciled_file env sf det) w.disk accepted,
    write_accepted (revalidated_file env sf) w.disk accepted,
    (read-write (reconciled_file env sf det) w.disk),
    read-write (revalidated_file env sf) w.disk,
  )
