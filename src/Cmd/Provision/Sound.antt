-- ===== src/Cmd/Provision/Sound.antt =====
-- cmd/reset_provision_history.go: lab provision keeps the state file well-formed.
use lab_env.Common.{◌≡◌, some, refl, Bool-cases, inl, inr}
use lab_env.Common.Errors.{Result, ok, err}
use lab_env.Conformance.Result.{SuiteResult, is_conformant}
use lab_env.Conformance.Runner.{run}
use lab_env.State.{is_valid}
use lab_env.State.File.{fresh}
use lab_env.State.Store.Sound.{Sound, WellFormed, write-Sound, append_history-WellFormed}
use lab_env.Executor.Machine.{Machine}
use lab_env.Cmd.{Env, World, CommandResult}
use lab_env.Cmd.Locked.{with_lock-Locked, Locked-disk}
use lab_env.Cmd.Provision.{provision, provision_locked, after_bootstrap, provisioned_file}

module _ {S : Type 0} (env : Env S) where
  provisioned_file-WellFormed :
      (sr : SuiteResult (Machine S)) → WellFormed (provisioned_file env sr)
  unfolding provisioned_file is_valid fresh
  provisioned_file-WellFormed sr = elim (Bool-cases (is_conformant sr.classification)) [
    | inl e ↦ append_history-WellFormed _ _ (rw e refl) (rw e refl)
    | inr e ↦ append_history-WellFormed _ _ (rw e refl) (rw e refl)
  ]

  after_bootstrap-Sound :
      (r : Result (Unit {0})) (w : World S) → Sound w.disk → Sound (after_bootstrap env r w).1.disk
  unfolding after_bootstrap
  after_bootstrap-Sound (err e) w sound = sound
  after_bootstrap-Sound (ok done) w sound =
      let sr = run env.observer w.machine env.clock.suite_at env.checks in
      write-Sound (provisioned_file env sr) w.disk (provisioned_file-WellFormed sr) sound

  provision_locked-Sound : (w : World S) → Sound w.disk → Sound (provision_locked env w).1.disk
  unfolding provision_locked
  provision_locked-Sound w sound = after_bootstrap-Sound _ _ sound

  pub provision-Sound :
      (w : World S) {out : CommandResult S × World S}
      → Sound w.disk
      → provision env w ≡ some out
      → Sound out.1.disk
  unfolding provision
  provision-Sound w {out = o} sound h =
      Locked-disk Sound env.process _ _ w {out = o} provision_locked-Sound (λ e w' s. s) sound
        (with_lock-Locked env _ _ w {out = o} h)
