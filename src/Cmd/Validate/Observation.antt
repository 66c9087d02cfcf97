-- ===== src/Cmd/Validate/Observation.antt =====
-- cmd/validate.go: lab validate observes.
use lab_env.Common.{
  length, ◌≡◌, ◌⊎◌, inl, inr, refl, some, none, Option, true, Option-cases, arith, if◌then◌else◌,
  ◌∙◌, ap,
}
use lab_env.Common.Errors.{Error, Result, ok, err}
use lab_env.Conformance.Result.{SuiteResult, is_conformant, exit_code}
use lab_env.Conformance.Result.Counts.{classify_tallies}
use lab_env.Conformance.Runner.{run, unclassified, run_checks}
use lab_env.State.{is_valid}
use lab_env.State.File.{File}
use lab_env.State.Store
use lab_env.State.Store.Recovery.{read-write, stamped, valid_of_read}
use lab_env.Executor.Machine.{Machine}
use lab_env.Cmd.{Env, World, store_write}
use lab_env.Cmd.Validate.{
  validate, process_result, record_observation, record_read, warn_unrecorded, observed_file,
  suite_command,
}
use lab_env.Cmd.Validate.Sound.{warn_unrecorded-disk}

module _ {S : Type 0} (env : Env S) where
  abbrev pub suite : World S → SuiteResult (Machine S)
  suite w = run env.observer w.machine env.clock.suite_at env.checks

  -- The file that was read, with the observation and no other change.
  abbrev pub with_observation : SuiteResult (Machine S) → File → File
  with_observation sr sf = record {
    spec_version = sf.spec_version;
    state = sf.state;
    classification_valid = sf.classification_valid;
    active_fault = sf.active_fault;
    last_validate = some (record {
      at = sr.at;
      passed = sr.passed;
      total = sr.total;
      failing_checks = sr.failing_blocking_ids;
    });
    last_reset = sf.last_reset;
    last_provision = sf.last_provision;
    last_status_at = sf.last_status_at;
    history = sf.history;
  }

  -- What reads back: what was there, or the same file with the observation in it.
  abbrev pub Observed : Result File → SuiteResult (Machine S) → World S → Type 0
  Observed r sr w' =
      (Store.read w'.disk ≡ r)
      ⊎ ((sf : File) × (r ≡ ok sf) × (Store.read w'.disk ≡ ok (stamped (with_observation sr sf))))

  observed_file-state :
      (sr : SuiteResult (Machine S)) (sf : File) → (observed_file env sr sf).state ≡ sf.state
  unfolding observed_file
  observed_file-state sr sf = refl

  record_read-Observed :
      (sr : SuiteResult (Machine S)) (r : Result File) (w : World S)
      → Store.read w.disk ≡ r
      → Observed r sr (record_read env sr r w)
  unfolding record_read observed_file
  record_read-Observed sr (err e) w is = inl is
  record_read-Observed sr (ok sf) w is =
      let f = observed_file env sr sf in
      let same = ap Store.read (warn_unrecorded-disk env (store_write f w).0 (store_write f w).1) in
      elim (Option-cases (Store.write f w.disk).0) [
        | inl e ↦ inr (
          sf,
          refl,
          same
              ∙ (read-write f w.disk).0 e
                  (ap is_valid (observed_file-state sr sf) ∙ valid_of_read w.disk sf is),
        )
        | inr (x, e) ↦ inl (same ∙ (read-write f w.disk).1 (ground (arith, e)) ∙ is)
      ]

  warn_unrecorded-machine :
      (e : Option Error) (w : World S) → (warn_unrecorded env (e, w)).machine ≡ w.machine
  unfolding warn_unrecorded
  warn_unrecorded-machine none w = refl
  warn_unrecorded-machine (some e) w = refl

  record_read-machine :
      (sr : SuiteResult (Machine S)) (r : Result File) (w : World S)
      → (record_read env sr r w).machine ≡ w.machine
  unfolding record_read
  record_read-machine sr (err e) w = refl
  record_read-machine sr (ok sf) w =
      warn_unrecorded-machine (store_write (observed_file env sr sf) w).0
        (store_write (observed_file env sr sf) w).1

  suite-exit_code :
      (w : World S)
      → exit_code (suite w) ≡ (if is_conformant (suite w).classification then 0 else 1)
  unfolding run exit_code
  suite-exit_code w = ground (
    arith,
    classify_tallies (
        unclassified env.clock.suite_at (length env.checks)
          (run_checks env.observer w.machine env.checks true)),
  )

  -- A full validation leaves the system as it is; the state file reads back as it was, or with the
  -- observation as its last validation and nothing else changed, its state included; the exit code
  -- is 0 exactly for a conformant suite.
  pub validate-Observed :
      (w : World S)
      → let (c, w') = validate env w in
        (w'.machine.sys ≡ w.machine.sys)
        × Observed (Store.read w.disk) (suite w) w'
        × (c.exit_code ≡ (if is_conformant (suite w).classification then 0 else 1))
  unfolding validate process_result record_observation suite_command
  validate-Observed w = (
    ap (λ m. m.sys) (record_read-machine (suite w) (Store.read w.disk) w),
    record_read-Observed (suite w) (Store.read w.disk) w refl,
    suite-exit_code w,
  )
