-- ===== src/Conformance/Runner.antt =====
-- internal/conformance/runner.go: runs the checks in their order through an observer.
pub mod Masking
use lab_env.Common.{
  ℕ, String, Bool, true, false, not, ◌&&◌, Option, none, some, List, [], ◌∷◌, ◌++◌, length,
  contains, find_first, keep, map, is_none, ◌==◌, if◌then◌else◌, Comparable, string_eq,
}
use lab_env.Common.Errors.{Error, Result, ok, err, errorf, text, nil}
use lab_env.Conformance.Observer.{Observer}
use lab_env.Conformance.Check.{Check, CheckResult, Outcome, is_endpoint}
use lab_env.Conformance.Result.{Classification, SuiteResult, classify}

-- The `SuiteResult` before `Classify`.
abbrev pub unclassified : {S : Type 0} → ℕ → ℕ → List (CheckResult S) → SuiteResult S
unclassified at total results = record {
  at = at;
  results = results;
  classification = Classification.conformant;
  passed = 0;
  total = total;
  failing_blocking_ids = [];
  failing_degraded_ids = [];
}

-- The deferred `recover`: a panic becomes the error of the check.
abbrev pub recovered : Outcome → Option Error
recovered (Outcome.returns e) = e
recovered (Outcome.panics rec) = some (errorf "check panicked: %v" (text rec nil))

module _ {S : Type 0} (o : Observer S) (s : S) where
  -- `runOne`
  unfoldable pub run_one : Check S → Bool → CheckResult S
  run_one check s001_passed =
      let e = recovered (check.execute o s) in
      record {
        check = check;
        passed = is_none e;
        err = e;
        dependent = is_endpoint check.category && not s001_passed;
      }

  -- The loop of `Run`; the last argument is `s001Passed`.
  unfoldable pub run_checks : List (Check S) → Bool → List (CheckResult S)
  unfolding run_one
  run_checks [] s001_passed = []
  run_checks (check ∷ rest) s001_passed =
      let res = run_one check s001_passed in
      res ∷ run_checks rest (if (check.id == "S-001") && not res.passed then false else s001_passed)

  -- `Run`
  unfoldable pub run : ℕ → List (Check S) → SuiteResult S
  unfolding run_checks
  run at checks = classify (unclassified at (length checks) (run_checks checks true))

  run_found : String → Option (Check S) → Result (CheckResult S)
  unfolding run_one
  run_found id none = err (errorf "unknown check ID: %q" (text id nil))
  run_found id (some check) = ok (run_one check true)

  -- `RunSingle`
  unfoldable pub run_single : List (Check S) → String → Result (CheckResult S)
  unfolding run_found
  run_single checks id = run_found id (find_first (λ c. c.id == id) checks)

  -- `RunIDs`
  unfoldable pub run_ids : List (Check S) → List String → List (CheckResult S)
  unfolding run_one
  run_ids [] ids = []
  run_ids (check ∷ rest) ids =
      let later = run_ids rest ids in
      if contains check.id ids then run_one check true ∷ later else later

  -- `LightweightRun`
  unfoldable pub lightweight_run : ℕ → List (Check S) → SuiteResult S
  unfolding run_ids
  lightweight_run at checks =
      let results = run_ids checks ("P-001" ∷ "P-002" ∷ "S-003" ∷ "E-001" ∷ []) in
      classify (unclassified at (length results) results)
