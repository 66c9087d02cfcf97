-- ===== src/Cmd/Reset.antt =====
-- cmd/reset.go: lab reset.
pub mod Tiers
pub mod Outcomes
pub mod Sound
use Prim.Native.String.{◌++◌ as text_append}
use lab_env.Common.{
  ℕ, ◌-◌, String, Bool, true, false, not, ◌&&◌, Option, none, some, List, [], ◌∷◌, is_none, ◌==◌,
  string_eq, if◌then◌else◌,
}
use lab_env.Common.Errors.{Error, Args, Result, ok, err, errorf, texts, text, cause, nil, wrap}
use lab_env.Config.{app_service_name, bootstrap_script, r2_restore_files, r2_restore_modes}
use lab_env.Conformance.Result.{SuiteResult, is_conformant}
use lab_env.Conformance.Runner.{run}
use lab_env.State.{State, state_eq}
use lab_env.State.File.{File, ActiveFault, fresh}
use lab_env.State.Store
use lab_env.Executor.{Op, Executor}
use lab_env.Executor.Exec.{Exec, pure, ◌>>=◌, ◌>>◌, call, attempt, wrapped, continue}
use lab_env.Executor.Audit.{log_error, log_transition}
use lab_env.Executor.Machine.{Machine}
use lab_env.Catalog.{by_id}
use lab_env.Catalog.Fault.{FaultImpl}
use lab_env.Cmd.{
  Env, World, CommandResult, Value, ResetResult, failed, succeeded, audited, store_write, with_lock,
}

module _ {S : Type 0} where
  pub declared_tier : Option (FaultImpl S) → String
  declared_tier none = "R2"
  declared_tier (some f) = f.def.reset_tier

pub fault_tier : (S : Type 0) → Option ActiveFault → String
unfolding declared_tier
fault_tier S none = "R2"
fault_tier S (some a) = declared_tier (by_id {S = S} a.id)

-- `selectTier`
unfoldable pub select_tier : (S : Type 0) → File → String
unfolding fault_tier
select_tier S sf = fault_tier S sf.active_fault

-- The texts of an operation's context, with the path in it.
pub path_error : String → String → Result (Unit {0}) → Result (Unit {0})
path_error format path (ok done) = ok done
path_error format path (err e) = err (errorf format (text path (cause e nil)))

module _ {S : Type 0} (x : Executor S) where
  pub at_path : String → String → Op → Exec S (Unit {0})
  unfolding path_error
  at_path format path op s = let (r, s') = x.perform op s in (path_error format path r, s')

  -- The loop over `R2RestoreFiles`.
  pub restore_files : List String → Exec S (Unit {0})
  unfolding at_path
  restore_files [] s = (ok tt, s)
  restore_files (path ∷ rest) s =
      let more = λ (done : Unit {0}). restore_files rest in
      (at_path "R2 restore %s: %w" path (Op.restore_file path) >>= more) s

  -- The loop over `R2RestoreModes`.
  pub restore_modes : List (String × ℕ) → Exec S (Unit {0})
  unfolding at_path
  restore_modes [] s = (ok tt, s)
  restore_modes ((path, mode) ∷ rest) s =
      let more = λ (done : Unit {0}). restore_modes rest in
      (at_path "R2 chmod %s: %w" path (Op.chmod path mode) >>= more) s

  pub tier_r1 : Exec S (Unit {0})
  tier_r1 = do
    attempt x (Op.systemctl "reset-failed" app_service_name)
    wrapped "R1 app restart: %w" (call x (Op.systemctl "restart" app_service_name))
    wrapped "R1 nginx reload: %w" (call x Op.nginx_reload)

  pub tier_r2 : Exec S (Unit {0})
  unfolding restore_files restore_modes
  tier_r2 = do
    restore_files r2_restore_files
    restore_modes r2_restore_modes
    wrapped "R2 daemon-reload: %w" (call x (Op.systemctl "daemon-reload" ""))
    attempt x (Op.systemctl "reset-failed" app_service_name)
    wrapped "R2 app restart: %w" (call x (Op.systemctl "restart" app_service_name))
    wrapped "R2 nginx reload: %w" (call x Op.nginx_reload)

  pub tier_r3 : Exec S (Unit {0})
  tier_r3 = wrapped "R3 bootstrap: %w" (call x (Op.run_mutation "bash" (bootstrap_script ∷ [])))

  -- The `switch` on the tier.
  pub run_tier : String → Exec S (Unit {0})
  unfolding tier_r1 tier_r2 tier_r3
  run_tier tier =
      if tier == "R1"
      then tier_r1
      else if tier == "R2"
      then tier_r2
      else if tier == "R3"
      then tier_r3
      else (λ s. (err (errorf "unknown reset tier %q: must be R1, R2, or R3" (text tier nil)), s))

  recover_error : String → Result (Unit {0}) → Result (Unit {0})
  recover_error id (ok done) = ok done
  recover_error id (err e) = err (errorf "fault %s Recover: %w" (text id (cause e nil)))

  recover_impl : Option (FaultImpl S) → Exec S (Unit {0})
  unfolding recover_error
  recover_impl none s = (ok tt, s)
  recover_impl (some f) s =
      if f.def.is_reversible
      then (let (r, s') = f.recover x s in (recover_error f.def.id r, s'))
      else (ok tt, s)

  -- The call of `Recover` for an active fault that is reversible.
  pub recover_active : Option ActiveFault → Exec S (Unit {0})
  unfolding recover_impl
  recover_active none s = (ok tt, s)
  recover_active (some a) s = recover_impl (by_id a.id) s

  -- `executeTier`
  unfoldable pub execute_tier : String → File → Exec S (Unit {0})
  unfolding recover_active run_tier
  execute_tier tier sf = do recover_active sf.active_fault; run_tier tier

pub cleared_fault : Option ActiveFault → String
cleared_fault none = ""
cleared_fault (some a) = a.id

module _ {S : Type 0} (env : Env S) where
  -- The state that a suite run stands for after a reset.
  abbrev pub suite_state : SuiteResult (Machine S) → State
  suite_state sr = if is_conformant sr.classification then State.conformant else State.broken

  -- The file that records a reset.
  unfoldable pub reset_file : String → File → SuiteResult (Machine S) → File
  unfolding cleared_fault
  reset_file tier sf sr =
      Store.append_history
        (record {
          ts = env.clock.stamped;
          from = sf.state;
          to = suite_state sr;
          command = text_append "lab reset --tier " tier;
          fault = cleared_fault sf.active_fault;
          forced = false;
        })
        (record sf {
          state = suite_state sr;
          classification_valid = true;
          active_fault = none;
          last_reset = some (record {
            at = env.clock.stamped;
            tier = tier;
            from_state = sf.state;
            fault_cleared = cleared_fault sf.active_fault;
          });
          last_validate = some (record {
            at = sr.at;
            passed = sr.passed;
            total = sr.total;
            failing_checks = sr.failing_blocking_ids;
          });
        })

  pub reset_value : String → File → String → State → SuiteResult (Machine S) → Value S
  reset_value tier sf fault_cleared to sr = Value.reset (record {
    tier = tier;
    from_state = sf.state;
    to_state = to;
    fault_cleared = fault_cleared;
    validation_ran = true;
    suite = sr;
    duration_ms = env.clock.finished - env.clock.started;
  })

  -- After the operations: the suite, the state file (the error of its write is dropped), the audit
  -- entry and the result.
  pub validated : String → File → SuiteResult (Machine S) → World S → CommandResult S × World S
  unfolding reset_file reset_value cleared_fault
  validated tier sf sr w =
      let cleared = cleared_fault sf.active_fault in
      let (dropped, w') = store_write (reset_file tier sf sr) w in
      let value = reset_value tier sf cleared (suite_state sr) sr in
      let reason =
        errorf "ErrPostResetValidationFailed: reset completed but validation failed: %v"
          (texts sr.failing_blocking_ids nil) in
      (
        if is_conformant sr.classification
            then succeeded 0 value
            else record { value = some value; exit_code = 1; err = some reason },
        audited (log_transition env.clock.stamped sf.state (suite_state sr) cleared) w',
      )

  pub after_tier : String → File → Result (Unit {0}) → World S → CommandResult S × World S
  unfolding validated
  after_tier tier sf (err e) w = (
    failed 1 (wrap "ErrResetOperationFailed: %w" e),
    audited (log_error env.clock.stamped "ErrResetOperationFailed" e) w,
  )
  after_tier tier sf (ok done) w =
      validated tier sf (run env.observer w.machine env.clock.suite_at env.checks) w

  pub reset_operations : String → File → World S → CommandResult S × World S
  unfolding after_tier
  reset_operations tier sf w =
      let (r, m) = execute_tier env.executor tier sf w.machine in
      after_tier tier sf r (record w { machine = m })

  -- The early return for an environment that is recorded and validated as conformant. A run of the
  -- suite has no effect, so that the conjunction stands for the nested `if`.
  pub reset_from : String → File → World S → CommandResult S × World S
  unfolding reset_operations reset_value
  reset_from tier sf w =
      let sr = run env.observer w.machine env.clock.suite_at env.checks in
      if (sf.state == State.conformant && is_none sf.active_fault)
        && is_conformant sr.classification
      then (succeeded 0 (reset_value tier sf "" State.conformant sr), w)
      else reset_operations tier sf w

  -- An unreadable state file counts as a fresh one that is BROKEN.
  unfoldable pub file_or_broken : Result File → File
  file_or_broken (ok sf) = sf
  file_or_broken (err e) = fresh env.clock.stamped State.broken

  -- `if tier == "" { tier = selectTier(sf) }`
  unfoldable pub chosen_tier : String → File → String
  chosen_tier tier sf = if tier == "" then select_tier (Machine S) sf else tier

  unfoldable pub reset_locked : String → World S → CommandResult S × World S
  unfolding reset_from file_or_broken chosen_tier select_tier
  reset_locked tier w =
      let sf = file_or_broken (Store.read w.disk) in reset_from (chosen_tier tier sf) sf w

  -- `ResetCmd.Run`
  unfoldable pub reset : String → World S → Option (CommandResult S × World S)
  unfolding with_lock reset_locked
  reset tier w = with_lock env (reset_locked tier) (λ e w'. (failed 1 e, w')) w
