-- ===== src/Cmd/Reset/Outcomes.antt =====
-- cmd/reset.go: what lab reset leaves behind.
use lab_env.Common.{
  ℕ, if◌then◌else◌, String, true, ◌&&◌, ◌≡◌, ◌⊎◌, none, some, [], refl, arith, Bool-cases, inl, inr,
  is_none, ◌==◌,
}
use lab_env.Common.Errors.{Error, Result, ok, err}
use lab_env.Executor.Lock
use lab_env.Executor.Lock.{LockState}
use lab_env.Conformance.Result.{SuiteResult, is_conformant}
use lab_env.Conformance.Runner.{run}
use lab_env.State.{state_beq_iff, State, is_valid, state_eq}
use lab_env.State.File.{File}
use lab_env.State.Store
use lab_env.State.Store.Recovery.{stamped, read-write, write_accepted}
use lab_env.Executor.Machine.{Machine}
use lab_env.Cmd.{Env, World, CommandResult, failed}
use lab_env.Cmd.Locked.{Locked, with_lock-Locked}
use lab_env.Cmd.Reset.{
  reset, reset_locked, reset_from, reset_operations, after_tier, validated, reset_file,
  execute_tier, file_or_broken, chosen_tier, suite_state,
}

module _ {S : Type 0} (env : Env S) where
  reset_file-is_valid :
      (tier : String) (sf : File) (sr : SuiteResult (Machine S))
      → is_valid (reset_file env tier sf sr).state ≡ true
  unfolding reset_file Store.append_history is_valid
  reset_file-is_valid tier sf sr = ground arith

  -- The suite as it runs on a machine.
  abbrev pub suite : Machine S → SuiteResult (Machine S)
  suite m = run env.observer m env.clock.suite_at env.checks

  -- Nothing was done: the environment was recorded and seen as conformant, without a fault.
  abbrev pub Unneeded : File → World S → CommandResult S × World S → Type 0
  Unneeded sf w (c, w') =
      (c.exit_code ≡ 0)
      × (w'.machine ≡ w.machine)
      × (w'.disk ≡ w.disk)
      × (sf.state ≡ State.conformant)
      × (sf.active_fault ≡ none)
      × (is_conformant (suite w.machine).classification ≡ true)

  -- The lock was refused.
  abbrev pub LockRefused : LockState → Type 0
  LockRefused before =
      (fuel : ℕ) × (e : Error) × (l : LockState) × (Lock.acquire fuel env.process before
        ≡ some (some e, l))

  -- The operations of the tier failed.
  abbrev pub TierFailed : String → File → World S → Type 0
  TierFailed tier sf w = (e : Error) × ((execute_tier env.executor tier sf w.machine).0 ≡ err e)

  -- The lock was refused or the operations failed, and the state file is as it was.
  abbrev pub Failed : LockState → String → File → World S → CommandResult S × World S → Type 0
  Failed before tier sf w (c, w') =
      (c.exit_code ≡ 1) × (w'.disk ≡ w.disk) × (LockRefused before ⊎ TierFailed tier sf w)

  -- The recorded state is the one that the suite shows after the operations, which end in `m`; no
  -- fault is recorded, and the exit code tells the two states apart.
  abbrev pub Done : Machine S → CommandResult S × World S → Type 0
  Done m (c, w') =
      (f : File) × (Store.read w'.disk ≡ ok f)
      × (f.state ≡ suite_state env (suite m))
      × (f.active_fault ≡ none)
      × (f.classification_valid ≡ true)
      × (c.exit_code ≡ (if is_conformant (suite m).classification then 0 else 1))
      × (w'.machine.sys ≡ m.sys)

  reset_file-fields :
      (tier : String) (sf : File) (sr : SuiteResult (Machine S))
      → let f = reset_file env tier sf sr in
        (f.state ≡ suite_state env sr) × (f.active_fault ≡ none) × (f.classification_valid ≡ true)
  unfolding reset_file Store.append_history
  reset_file-fields tier sf sr = (refl, refl, refl)

  after_tier-Done :
      (tier : String) (sf : File) (done : Unit {0}) (w : World S)
      → w.disk.refusals ≡ []
      → Done w.machine (after_tier env tier sf (ok done) w)
  unfolding after_tier validated
  after_tier-Done tier sf done w accepted =
      let f = reset_file env tier sf (suite w.machine) in
      let (state, fault, valid) = reset_file-fields tier sf (suite w.machine) in
      let back =
        (read-write f w.disk).0 (write_accepted f w.disk accepted)
          (reset_file-is_valid tier sf (suite w.machine)) in
      (stamped f, back, state, fault, valid, ground arith, refl)

  abbrev pub Outcome : LockState → String → File → World S → CommandResult S × World S → Type 0
  Outcome before tier sf w out =
      Unneeded sf w out
      ⊎ Failed before tier sf w out
      ⊎ Done (execute_tier env.executor tier sf w.machine).1 out

  after_tier-Outcome :
      (before : LockState) (tier : String) (sf : File) (r : Result (Unit {0})) (m : Machine S)
      (w : World S)
      → w.disk.refusals ≡ []
      → (execute_tier env.executor tier sf w.machine).0 ≡ r
      → let out = after_tier env tier sf r (record w { machine = m }) in
        Failed before tier sf w out ⊎ Done m out
  unfolding after_tier
  after_tier-Outcome before tier sf (ok done) m w accepted is =
      inr (after_tier-Done tier sf done (record w { machine = m }) accepted)
  after_tier-Outcome before tier sf (err e) m w accepted is = inl (refl, refl, inr (e, is))

  reset_from-Outcome :
      (before : LockState) (tier : String) (sf : File) (w : World S)
      → w.disk.refusals ≡ []
      → Outcome before tier sf w (reset_from env tier sf w)
  unfolding reset_from reset_operations
  reset_from-Outcome before tier sf w accepted =
      elim (Bool-cases (
        (sf.state == State.conformant && is_none sf.active_fault)
        && is_conformant (suite w.machine).classification)) [
          | inl e ↦ rw e (
              inl (
                refl,
                refl,
                refl,
                ground (arith, e, state_beq_iff sf.state State.conformant),
                ground (arith, e),
                ground (arith, e),
              ))
          | inr e ↦
              let (r, m) = execute_tier env.executor tier sf w.machine in
              rw e (inr (after_tier-Outcome before tier sf r m w accepted refl))
        ]

  Locked-Outcome :
      (tier : String) (w : World S) {out : CommandResult S × World S}
      → w.disk.refusals ≡ []
      → Locked env.process (reset_locked env tier) (λ e w'. (failed 1 e, w')) w out
      → let sf = file_or_broken env (Store.read w.disk) in
        Outcome w.locks (chosen_tier env tier sf) sf w out
  unfolding reset_locked
  Locked-Outcome tier w accepted (Locked.not_acquired e l fuel is) =
      inr (inl (refl, refl, inl (fuel, e, l, is)))
  Locked-Outcome tier w accepted (Locked.ran l) =
      let sf = file_or_broken env (Store.read w.disk) in
      reset_from-Outcome w.locks (chosen_tier env tier sf) sf (record w { locks = l }) accepted

  pub reset-Outcome :
      (tier : String) (w : World S) {out : CommandResult S × World S}
      → w.disk.refusals ≡ []
      → reset env tier w ≡ some out
      → let sf = file_or_broken env (Store.read w.disk) in
        Outcome w.locks (chosen_tier env tier sf) sf w out
  unfolding reset
  reset-Outcome tier w {out = o} accepted h =
      Locked-Outcome tier w {out = o} accepted (with_lock-Locked env _ _ w {out = o} h)
