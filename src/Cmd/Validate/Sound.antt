-- ===== src/Cmd/Validate/Sound.antt =====
-- cmd/validate.go: lab validate keeps the state file well-formed.
use lab_env.Common.{◌≡◌, refl, some, none, Option}
use lab_env.Common.Errors.{Error, Result, ok, err}
use lab_env.Conformance.Result.{SuiteResult}
use lab_env.Conformance.Runner.{run}
use lab_env.State.File.{File}
use lab_env.State.Store
use lab_env.State.Store.Sound.{Sound, SoundRead, write-Sound}
use lab_env.Executor.Machine.{Machine}
use lab_env.Cmd.{Env, World, store_write}
use lab_env.Cmd.Validate.{
  validate, process_result, record_observation, record_read, warn_unrecorded, observed_file,
}

module _ {S : Type 0} (env : Env S) where
  pub warn_unrecorded-disk :
      (e : Option Error) (w : World S) → (warn_unrecorded env (e, w)).disk ≡ w.disk
  unfolding warn_unrecorded
  warn_unrecorded-disk none w = refl
  warn_unrecorded-disk (some e) w = refl

  record_read-Sound :
      (sr : SuiteResult (Machine S)) (r : Result File) (w : World S)
      → SoundRead r
      → Sound w.disk
      → Sound (record_read env sr r w).disk
  unfolding record_read observed_file
  record_read-Sound sr (err e) w well sound = sound
  record_read-Sound sr (ok sf) w well sound =
      rw
        (warn_unrecorded-disk (store_write (observed_file env sr sf) w).0
          (store_write (observed_file env sr sf) w).1)
        (write-Sound (observed_file env sr sf) w.disk well sound)

  pub validate-Sound : (w : World S) → Sound w.disk → Sound (validate env w).1.disk
  unfolding validate process_result record_observation
  validate-Sound w sound =
      record_read-Sound (run env.observer w.machine env.clock.suite_at env.checks)
        (Store.read w.disk) w sound sound
