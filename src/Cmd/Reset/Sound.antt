-- ===== src/Cmd/Reset/Sound.antt =====
-- cmd/reset.go: lab reset keeps the state file well-formed.
use lab_env.Common.{String, ◌&&◌, ◌≡◌, some, refl, Bool-cases, inl, inr, is_none, ◌==◌}
use lab_env.Common.Errors.{Result, ok, err}
use lab_env.Conformance.Result.{SuiteResult, is_conformant}
use lab_env.Conformance.Runner.{run}
use lab_env.State.{State, is_valid, state_eq}
use lab_env.State.File.{File}
use lab_env.State.Store
use lab_env.State.Store.Sound.{Sound, WellFormed, write-Sound, append_history-WellFormed}
use lab_env.Executor.Machine.{Machine}
use lab_env.Cmd.{Env, World, CommandResult}
use lab_env.Cmd.Locked.{with_lock-Locked, Locked-disk}
use lab_env.Cmd.Reset.{
  reset, reset_locked, reset_from, reset_operations, after_tier, validated, reset_file,
  execute_tier, file_or_broken, chosen_tier,
}

module _ {S : Type 0} (env : Env S) where
  reset_file-WellFormed :
      (tier : String) (sf : File) (sr : SuiteResult (Machine S))
      → WellFormed (reset_file env tier sf sr)
  unfolding reset_file is_valid
  reset_file-WellFormed tier sf sr = elim (Bool-cases (is_conformant sr.classification)) [
    | inl e ↦ append_history-WellFormed _ _ (rw e refl) (rw e refl)
    | inr e ↦ append_history-WellFormed _ _ (rw e refl) (rw e refl)
  ]

  after_tier-Sound :
      (tier : String) (sf : File) (r : Result (Unit {0})) (w : World S)
      → Sound w.disk
      → Sound (after_tier env tier sf r w).1.disk
  unfolding after_tier validated
  after_tier-Sound tier sf (err e) w sound = sound
  after_tier-Sound tier sf (ok done) w sound =
      let sr = run env.observer w.machine env.clock.suite_at env.checks in
      write-Sound (reset_file env tier sf sr) w.disk (reset_file-WellFormed tier sf sr) sound

  reset_from-Sound :
      (tier : String) (sf : File) (w : World S)
      → Sound w.disk
      → Sound (reset_from env tier sf w).1.disk
  unfolding reset_from reset_operations
  reset_from-Sound tier sf w sound =
      let sr = run env.observer w.machine env.clock.suite_at env.checks in
      elim (Bool-cases (
        (sf.state == State.conformant && is_none sf.active_fault)
        && is_conformant sr.classification)) [
          | inl e ↦ rw e sound
          | inr e ↦
              let (r, m) = execute_tier env.executor tier sf w.machine in
              rw e (after_tier-Sound tier sf r (record w { machine = m }) sound)
        ]

  pub reset-Sound :
      (tier : String) (w : World S) {out : CommandResult S × World S}
      → Sound w.disk
      → reset env tier w ≡ some out
      → Sound out.1.disk
  unfolding reset reset_locked
  reset-Sound tier w {out = o} sound h =
      Locked-disk Sound env.process _ _ w {out = o}
        (λ w'.
          let sf = file_or_broken env (Store.read w'.disk) in
          reset_from-Sound (chosen_tier env tier sf) sf w')
        (λ e w' s. s) sound (with_lock-Locked env _ _ w {out = o} h)
