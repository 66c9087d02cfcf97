-- ===== src/Cmd/Validate.antt =====
-- cmd/validate.go: lab validate, and output/model.go: the conversion of a suite result.
pub mod Sound
pub mod Observation
use Prim.Native.String.{◌++◌ as text_append}
use lab_env.Executor.Decimal.{decimal_text}
use lab_env.Common.{String, Option, none, some, [], ◌∷◌, map}
use lab_env.Common.Errors.{Error, Result, ok, err, wrap}
use lab_env.Conformance.Check.{CheckResult, severity_text}
use lab_env.Conformance.Result.{SuiteResult, classification_text, classify, exit_code}
use lab_env.Conformance.Runner.{run, run_single, unclassified}
use lab_env.State.File.{File}
use lab_env.State.Store
use lab_env.Executor.Audit.{log_op}
use lab_env.Executor.Machine.{Machine}
use lab_env.Cmd.{
  Env, World, CommandResult, Value, ValidateResult, CheckResultItem, failed, audited, noticed,
  store_write,
}

abbrev pub result_item : {S : Type 0} → CheckResult S → CheckResultItem
result_item r = record {
  id = r.check.id;
  assertion = r.check.assertion;
  passed = r.passed;
  severity = severity_text r.check.severity;
  dependent = r.dependent;
  error = r.err;
}

-- `FromSuiteResult`
unfoldable pub from_suite_result : {S : Type 0} → SuiteResult S → ValidateResult
unfolding classification_text
from_suite_result sr = record {
  at = sr.at;
  checks = map result_item sr.results;
  passed = sr.passed;
  total = sr.total;
  classification = classification_text sr.classification;
  failing_checks = sr.failing_blocking_ids;
}

module _ {S : Type 0} (env : Env S) where
  -- The file with the observation in it.
  unfoldable pub observed_file : SuiteResult (Machine S) → File → File
  observed_file sr sf = record sf {
    last_validate = some (record {
      at = sr.at;
      passed = sr.passed;
      total = sr.total;
      failing_checks = sr.failing_blocking_ids;
    });
  }

  -- The warning goes to stdout, by `fmt.Printf`.
  pub warn_unrecorded : Option Error × World S → World S
  warn_unrecorded (none, w) = w
  warn_unrecorded (some e, w) =
      noticed (wrap "warning: failed to record validation observation: %v" e) w

  pub record_read : SuiteResult (Machine S) → Result File → World S → World S
  unfolding observed_file warn_unrecorded
  record_read sr (err e) w = w
  record_read sr (ok sf) w = warn_unrecorded (store_write (observed_file sr sf) w)

  -- `recordObservation`
  unfoldable pub record_observation : SuiteResult (Machine S) → World S → World S
  unfolding record_read
  record_observation sr w = record_read sr (Store.read w.disk) w

  -- `fmt.Sprintf("%d/%d checks passed", sr.Passed, sr.Total)`
  abbrev counts_text : SuiteResult (Machine S) → String
  counts_text sr =
      text_append (decimal_text sr.passed)
        (text_append "/" (text_append (decimal_text sr.total) " checks passed"))

  unfoldable pub suite_command : SuiteResult (Machine S) → CommandResult S
  unfolding from_suite_result exit_code
  suite_command sr = record {
    value = some (Value.validate (from_suite_result sr));
    exit_code = exit_code sr;
    err = none;
  }

  -- `processResult`
  unfoldable pub process_result : SuiteResult (Machine S) → World S → CommandResult S × World S
  unfolding suite_command record_observation
  process_result sr w = (
    suite_command sr,
    audited (log_op env.clock.stamped "ValidateFullSuite" (counts_text sr) 0 (exit_code sr) none)
        (record_observation sr w),
  )

  -- `ValidateCmd.Run`
  unfoldable pub validate : World S → CommandResult S × World S
  unfolding process_result
  validate w = process_result (run env.observer w.machine env.clock.suite_at env.checks) w

  unfoldable pub single_command : Result (CheckResult (Machine S)) → CommandResult S
  unfolding suite_command classify
  single_command (err e) = failed 2 (wrap "ErrUnknownCheckID: %w" e)
  single_command (ok res) = suite_command (classify (unclassified env.clock.suite_at 1 (res ∷ [])))

  -- `ValidateCmd.RunSingle`: it writes neither the state file nor the audit log.
  unfoldable pub validate_single : String → Machine S → CommandResult S
  unfolding single_command run_single
  validate_single check_id m = single_command (run_single env.observer m env.checks check_id)
