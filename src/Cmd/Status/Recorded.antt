-- ===== src/Cmd/Status/Recorded.antt =====
-- cmd/status.go: the state that stands in the file after `lab status`.
use lab_env.Common.{
  subst, true, false, [], if◌then◌else◌, ◌&&◌, Bool, not, ◌≡◌, Option, none, some, arith, ◌==◌, ◌∙◌,
  ap, Bool-cases, inl, inr,
}
use lab_env.Common.Errors.{ok}
use lab_env.State.{State, state_eq, state_beq_iff, is_valid}
use lab_env.State.File.{File, ActiveFault}
use lab_env.State.Store
use lab_env.State.Store.Recovery.{stamped, valid_of_read}
use lab_env.State.Detect.{DetectionResult, is_unknown, recorded_state}
use lab_env.State.Detect.Authority.{runtime_state}
use lab_env.Executor.Lock
use lab_env.Executor.Lock.{LockState}
use lab_env.Cmd.{Env, World, CommandResult}
use lab_env.Cmd.Status.{
  status, status_of, file_option, recovered_file, reconciled, reconciled_file, revalidated_file,
}
use lab_env.Cmd.Report.{detection}
use lab_env.Cmd.Status.Reconcile.{
  shown_state, written-lem, detection-known, detection-detected, detection-reconciled,
}

pub runtime_state-is_valid :
    (healthy : Bool) (fault : Option ActiveFault) → is_valid (runtime_state healthy fault) ≡ true
unfolding is_valid
runtime_state-is_valid healthy fault = ground arith

is_valid-set : (s : State) → is_valid s ≡ true → (s == State.unset) ≡ false
unfolding is_valid
is_valid-set s h = ground arith

-- The state file reads back with this state and a valid classification, and with the fault and the
-- history of the one before.
pub record Records {S : Type 0} (before : File) (s : State) (w : World S) : Type 0 where
  pub after : File
  pub reads : Store.read w.disk ≡ ok after
  pub records : after.state ≡ s
  pub is_trusted : after.classification_valid ≡ true
  pub keeps_fault : after.active_fault ≡ before.active_fault
  pub keeps_history : after.history ≡ before.history

module _ {S : Type 0} (env : Env S) (sf : File) (w : World S) {l : LockState}
    (taken : Lock.acquire env.lock_fuel env.process w.locks ≡ some (none, l))
    (accepted : w.disk.refusals ≡ []) (is : Store.read w.disk ≡ ok sf) where
  abbrev det : DetectionResult
  det = detection env (some sf) w.machine

  abbrev written_file : Bool → File
  written_file reconciled =
      if reconciled
      then stamped (reconciled_file env sf det)
      else if not sf.classification_valid && not (is_unknown det)
      then stamped (revalidated_file env sf)
      else sf

  det-is_valid : is_valid det.detected ≡ true
  det-is_valid = ap is_valid (detection-detected env sf w) ∙ runtime_state-is_valid _ _

  read-status_of :
      {out : CommandResult S × World S}
      → status_of env (some sf) w ≡ some out
      → Store.read out.1.disk ≡ ok (written_file det.reconciled)
  unfolding status_of recovered_file reconciled
  read-status_of {out = o} h =
      written-lem env true sf det w {l = l} {out = o} taken accepted (valid_of_read w.disk sf is)
        det-is_valid is h

  read-status :
      {out : CommandResult S × World S}
      → status env w ≡ some out
      → Store.read out.1.disk ≡ ok (written_file det.reconciled)
  unfolding status
  read-status {out = o} h =
      read-status_of {out = o} (subst (λ r. status_of env (file_option r) w ≡ some o) is h)

  written_file-kept :
      (b : Bool)
      → ((written_file b).active_fault ≡ sf.active_fault)
        × ((written_file b).history ≡ sf.history)
        × ((written_file b).classification_valid ≡ true)
  written_file-kept b = ground (arith, detection-known env (some sf) w.machine)

  recorded-detected :
      sf.classification_valid ≡ true → det.reconciled ≡ false → sf.state ≡ det.detected
  unfolding recorded_state
  recorded-detected valid same = ground (
    arith,
    detection-reconciled env sf w,
    state_beq_iff sf.state det.detected,
    is_valid-set sf.state (valid_of_read w.disk sf is),
  )

  -- A recorded state that is valid is replaced by the state that the running system and the
  -- recorded fault stand for, where the lock is free and the write is not refused; the fault and
  -- the history stay.
  pub status-Records-valid :
      {out : CommandResult S × World S}
      → sf.classification_valid ≡ true
      → status env w ≡ some out
      → Records sf (shown_state env sf w) out.1
  status-Records-valid {out = o} valid h =
      let (fault, history, validity) = written_file-kept det.reconciled in
      let state : (written_file det.reconciled).state ≡ shown_state env sf w =
        elim (Bool-cases det.reconciled) [
          | inl e ↦ rw e (detection-detected env sf w)
          | inr e ↦ rw (e, valid) (recorded-detected valid e ∙ detection-detected env sf w)
        ] in
      record {
        after = written_file det.reconciled;
        reads = read-status {out = o} h;
        records = state;
        is_trusted = validity;
        keeps_fault = fault;
        keeps_history = history;
      }

  -- After an interruption, which has invalidated the classification, the recorded state is made
  -- valid again as it is, whatever the running system shows.
  pub status-Records-invalid :
      {out : CommandResult S × World S}
      → sf.classification_valid ≡ false
      → status env w ≡ some out
      → Records sf sf.state out.1
  unfolding recorded_state
  status-Records-invalid {out = o} invalid h =
      let (fault, history, validity) = written_file-kept det.reconciled in
      let state : (written_file det.reconciled).state ≡ sf.state =
        ground (
          arith,
          invalid,
          detection-reconciled env sf w,
          detection-known env (some sf) w.machine,
        ) in
      record {
        after = written_file det.reconciled;
        reads = read-status {out = o} h;
        records = state;
        is_trusted = validity;
        keeps_fault = fault;
        keeps_history = history;
      }
