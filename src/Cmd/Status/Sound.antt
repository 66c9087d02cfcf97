-- ===== src/Cmd/Status/Sound.antt =====
-- cmd/status.go: lab status keeps the state file well-formed.
use mathlib.Core.Option.{some-injective}
use lab_env.Common.{
  ℕ, String, Bool, true, false, not, ◌&&◌, ◌≡◌, Option, none, some, refl, arith, Bool-cases, inl,
  inr, subst, is_some, ◌==◌, ap, ◌∙◌,
}
use lab_env.Common.Errors.{Error, Result, ok, err}
use lab_env.Conformance.Result.{is_conformant}
use lab_env.State.{State, is_valid, state_eq}
use lab_env.State.File.{File, ActiveFault, fresh}
use lab_env.State.Store
use lab_env.State.Store.Sound.{Sound, SoundRead, WellFormed, write-Sound}
use lab_env.State.Detect.{DetectionResult, is_unknown, recorded_fault}
use lab_env.State.Detect.Authority.{runtime_state, detect-runtime_state}
use lab_env.Executor.Machine.{Machine}
use lab_env.Cmd.{Env, World, CommandResult, store_write}
use lab_env.Cmd.Locked.{with_lock-Locked, Locked-disk}
use lab_env.Cmd.Status.{
  status, status_of, file_option, recovered_file, reconciled, reconcile, written, needs_write,
  reconciled_file, revalidated_file, warn_unwritten,
}
use lab_env.Cmd.Report.{detect_input, detection, evidence}
use lab_env.Cmd.Status.Reconcile.{detection-known}
use lab_env.Cmd.Status.Recorded.{runtime_state-is_valid}

runtime_state-degraded :
    (healthy : Bool) (fault : Option ActiveFault)
    → (runtime_state healthy fault == State.degraded) ≡ is_some fault
runtime_state-degraded healthy fault = ground arith

module _ {S : Type 0} (env : Env S) where
  warn_unwritten-disk :
      (context : String) (e : Option Error) (w : World S)
      → (warn_unwritten env context (e, w)).disk ≡ w.disk
  unfolding warn_unwritten
  warn_unwritten-disk context none w = refl
  warn_unwritten-disk context (some e) w = refl

  store_write-Sound :
      (context : String) (f : File) (w : World S)
      → WellFormed f
      → Sound w.disk
      → Sound (warn_unwritten env context (store_write f w)).disk
  store_write-Sound context f w well sound =
      rw (warn_unwritten-disk context (store_write f w).0 (store_write f w).1)
        (write-Sound f w.disk well sound)

  -- The detected state agrees with the recorded fault.
  abbrev pub Agrees : Option ActiveFault → DetectionResult → Type 0
  Agrees fault det =
      (is_valid det.detected ≡ true) × ((det.detected == State.degraded) ≡ is_some fault)

  reconcile-Sound :
      (sf : File) (det : DetectionResult) (w : World S)
      → WellFormed sf
      → Agrees sf.active_fault det
      → Sound w.disk
      → Sound (reconcile env sf det w).1.disk
  unfolding reconcile
  reconcile-Sound sf det w well agrees sound = elim (Bool-cases det.reconciled) [
    | inl e ↦
        rw e (store_write-Sound _ (reconciled_file env sf det) _ (agrees.0, agrees.1, well.2) sound)
    | inr e ↦ elim (Bool-cases (not sf.classification_valid && not (is_unknown det))) [
      | inl e' ↦ rw (e, e') (store_write-Sound _ (revalidated_file env sf) w well sound)
      | inr e' ↦ rw (e, e') sound
    ]
  ]

  written-Sound :
      (b : Bool) (sf : File) (det : DetectionResult) (w : World S) {out : CommandResult S × World S}
      → WellFormed sf
      → Agrees sf.active_fault det
      → Sound w.disk
      → written env b sf det w ≡ some out
      → Sound out.1.disk
  unfolding written
  written-Sound false sf det w well agrees sound h =
      subst (λ o. Sound o.1.disk) (some-injective _ _ h) sound
  written-Sound true sf det w {out = o} well agrees sound h =
      Locked-disk Sound env.process _ _ w {out = o} (λ w'. reconcile-Sound sf det w' well agrees)
        (λ e w' s. s) sound (with_lock-Locked env _ _ w {out = o} h)

  detection-Agrees :
      (sf : Option File) (m : Machine S) → Agrees (recorded_fault sf) (detection env sf m)
  unfolding detection
  detection-Agrees sf m =
      let detected = (detect-runtime_state (detect_input env sf m) refl).0 in
      let healthy = is_conformant (evidence env m).classification in
      (
        ap is_valid detected ∙ runtime_state-is_valid healthy (recorded_fault sf),
        ap (λ s. s == State.degraded) detected ∙ runtime_state-degraded healthy (recorded_fault sf),
      )

  fresh-WellFormed :
      (now : ℕ) (det : DetectionResult) → Agrees none det → WellFormed (fresh now det.detected)
  unfolding fresh
  fresh-WellFormed now det agrees = (agrees.0, agrees.1, omega arith)

  fresh-Agrees :
      (now : ℕ) (det : DetectionResult)
      → Agrees none det
      → Agrees (fresh now det.detected).active_fault det
  unfolding fresh
  fresh-Agrees now det agrees = agrees

  recovered_file-known :
      (det : DetectionResult) (w : World S)
      → is_unknown det ≡ false
      → recovered_file env none det w ≡ (
        some (fresh env.clock.stamped det.detected),
        warn_unwritten env "warning: failed to write new state file: %v"
            (store_write (fresh env.clock.stamped det.detected) w),
      )
  unfolding recovered_file
  recovered_file-known det w known = rw known refl

  unread-Sound :
      (w : World S) {out : CommandResult S × World S}
      → Sound w.disk
      → status_of env none w ≡ some out
      → Sound out.1.disk
  unfolding status_of reconciled
  unread-Sound w {out = o} sound h =
      let det = detection env none w.machine in
      let sf = fresh env.clock.stamped det.detected in
      let agrees = detection-Agrees none w.machine in
      let well = fresh-WellFormed env.clock.stamped det agrees in
      let w' =
        warn_unwritten env "warning: failed to write new state file: %v" (store_write sf w) in
      written-Sound (needs_write env sf det) sf det w' {out = o} well
        (fresh-Agrees env.clock.stamped det agrees) (store_write-Sound _ sf w well sound)
        (subst (λ p. reconciled env p.0 det p.1 ≡ some o)
          (recovered_file-known det w (detection-known env none w.machine)) h)

  status_of-Sound :
      (r : Result File) (w : World S) {out : CommandResult S × World S}
      → SoundRead r
      → Sound w.disk
      → status_of env (file_option r) w ≡ some out
      → Sound out.1.disk
  unfolding status_of recovered_file reconciled recorded_fault fresh
  status_of-Sound (ok sf) w {out = o} well sound h =
      let det = detection env (some sf) w.machine in
      written-Sound (needs_write env sf det) sf det w {out = o} well
        (detection-Agrees (some sf) w.machine) sound h
  status_of-Sound (err e) w {out = o} well sound h = unread-Sound w {out = o} sound h

  pub status-Sound :
      (w : World S) {out : CommandResult S × World S}
      → Sound w.disk
      → status env w ≡ some out
      → Sound out.1.disk
  unfolding status
  status-Sound w {out = o} sound h = status_of-Sound (Store.read w.disk) w {out = o} sound sound h
