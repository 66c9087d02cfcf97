-- ===== src/Cmd/Provision.antt =====
-- cmd/reset_provision_history.go: lab provision and lab history.
pub mod Sound
pub mod Selected
use lab_env.Common.{
  ℕ, ◌-◌, false, ◌&&◌, Option, some, List, [], ◌∷◌, length, drop, ltb, if◌then◌else◌,
}
use mathlib.Core.List.{reverse}
use lab_env.Common.Errors.{Result, ok, err, errorf, texts, nil, wrap}
use lab_env.Config.{bootstrap_script}
use lab_env.Conformance.Result.{SuiteResult, is_conformant}
use lab_env.Conformance.Runner.{run}
use lab_env.State.{State}
use lab_env.State.File.{File, HistoryEntry, fresh}
use lab_env.State.Store
use lab_env.Executor.{Op}
use lab_env.Executor.Machine.{Machine}
use lab_env.Cmd.{Env, World, CommandResult, Value, failed, succeeded, store_write, with_lock}

module _ {S : Type 0} (env : Env S) where
  abbrev pub provisioned_state : SuiteResult (Machine S) → State
  provisioned_state sr = if is_conformant sr.classification then State.conformant else State.broken

  -- The file that a provisioning writes; the failing checks are not put into it.
  unfoldable pub provisioned_file : SuiteResult (Machine S) → File
  unfolding fresh
  provisioned_file sr =
      Store.append_history
        (record {
          ts = env.clock.stamped;
          from = State.unprovisioned;
          to = provisioned_state sr;
          command = "lab provision";
          fault = "";
          forced = false;
        })
        (record (fresh env.clock.stamped (provisioned_state sr)) {
          last_provision = some (record { at = env.clock.stamped; result = provisioned_state sr });
          last_validate =
              some
                (record { at = sr.at; passed = sr.passed; total = sr.total; failing_checks = [] });
        })

  pub provision_result : SuiteResult (Machine S) → CommandResult S
  provision_result sr =
      if is_conformant sr.classification
      then succeeded 0 (
          Value.provision (record {
            to_state = provisioned_state sr;
            validation = record { at = sr.at; passed = sr.passed; total = sr.total };
            duration_ms = env.clock.finished - env.clock.started;
          }))
      else failed 1 (
          errorf "ErrPostProvisionValidationFailed: provision completed but validation failed: %v"
            (texts sr.failing_blocking_ids nil))

  pub after_bootstrap : Result (Unit {0}) → World S → CommandResult S × World S
  unfolding provisioned_file provision_result
  after_bootstrap (err e) w = (failed 1 (wrap "ErrProvisionStepFailed: bootstrap: %w" e), w)
  after_bootstrap (ok done) w =
      let sr = run env.observer w.machine env.clock.suite_at env.checks in
      let (dropped, w') = store_write (provisioned_file sr) w in (provision_result sr, w')

  unfoldable pub provision_locked : World S → CommandResult S × World S
  unfolding after_bootstrap
  provision_locked w =
      let (r, m) =
        env.executor.perform (Op.run_mutation "bash" (bootstrap_script ∷ [])) w.machine in
      after_bootstrap r (record w { machine = m })

  -- `ProvisionCmd.Run`
  unfoldable pub provision : World S → Option (CommandResult S × World S)
  unfolding with_lock provision_locked
  provision w = with_lock env provision_locked (λ e w'. (failed 1 e, w')) w

-- The last entries that `lab history` selects; `last` is 0 for all of them.
unfoldable pub selected : ℕ → List HistoryEntry → List HistoryEntry
selected last entries =
    if ltb 0 last && ltb last (length entries)
    then drop (length entries - last) entries
    else entries

history_of : {S : Type 0} → ℕ → Result File → CommandResult S
unfolding selected
history_of last (err e) = failed 1 (wrap "ErrStateFileUnreadable: %w" e)
history_of last (ok sf) = succeeded 0 (
    Value.history
      (record { entries = reverse (selected last sf.history); total = length sf.history }))

-- `HistoryCmd.Run`
unfoldable pub history : (S : Type 0) → ℕ → Store.Disk → CommandResult S
unfolding history_of
history S last d = history_of last (Store.read d)
