-- ===== src/Conformance/Result.antt =====
-- internal/conformance/result.go: the result of a suite run, and its classification.
pub mod Counts
use lab_env.Common.{
  ℕ, suc, String, Bool, true, false, Option, none, some, List, [], ◌∷◌, ◌++◌, ltb, length, contains,
  find_first, ◌==◌, if◌then◌else◌, ◌||◌, Comparable, string_eq,
}
use lab_env.Conformance.Check.{Severity, Check, CheckResult}

pub data Classification : Type 0 where
  conformant degraded_conformant non_conformant : Classification

-- `Classification.IsConformant`
abbrev pub is_conformant : Classification → Bool
is_conformant Classification.conformant = true
is_conformant Classification.degraded_conformant = true
is_conformant Classification.non_conformant = false

-- `Classification.String`
unfoldable pub classification_text : Classification → String
classification_text Classification.conformant = "CONFORMANT"
classification_text Classification.degraded_conformant = "CONFORMANT (degraded)"
classification_text Classification.non_conformant = "NON-CONFORMANT"

pub record SuiteResult (S : Type 0) : Type 0 where
  pub at : ℕ
  pub results : List (CheckResult S)
  pub classification : Classification
  pub passed : ℕ
  pub total : ℕ
  pub failing_blocking_ids : List String
  pub failing_degraded_ids : List String

module _ {S : Type 0} where
  -- The `switch` on the severity of a failed check.
  pub add_failure : Severity → String → SuiteResult S → SuiteResult S
  add_failure Severity.blocking id r = record r {
    failing_blocking_ids = r.failing_blocking_ids ++ id ∷ [];
  }
  add_failure Severity.degraded id r = record r {
    failing_degraded_ids = r.failing_degraded_ids ++ id ∷ [];
  }

  -- The body of the loop of `Classify`.
  pub count_result : CheckResult S → SuiteResult S → SuiteResult S
  unfolding add_failure
  count_result res r =
      if res.passed
      then record r { passed = suc r.passed }
      else if res.dependent
      then r
      else add_failure res.check.severity res.check.id r

  pub count_results : List (CheckResult S) → SuiteResult S → SuiteResult S
  unfolding count_result
  count_results [] r = r
  count_results (res ∷ rest) r = count_results rest (count_result res r)

  -- The `switch` that sets the classification.
  pub classification_of : SuiteResult S → Classification
  classification_of r =
      if ltb 0 (length r.failing_blocking_ids)
      then Classification.non_conformant
      else if ltb 0 (length r.failing_degraded_ids)
      then Classification.degraded_conformant
      else Classification.conformant

  -- `Classify`
  unfoldable pub classify : SuiteResult S → SuiteResult S
  unfolding count_results classification_of
  classify r =
      let cleared = record r { passed = 0; failing_blocking_ids = []; failing_degraded_ids = [] } in
      let counted = count_results r.results cleared in
      record counted { classification = classification_of counted }

  -- `ExitCode`
  unfoldable pub exit_code : SuiteResult S → ℕ
  exit_code r = if ltb 0 (length r.failing_blocking_ids) then 1 else 0

  -- `CheckByID` on a result
  unfoldable pub result_by_id : String → SuiteResult S → Option (CheckResult S)
  result_by_id id r = find_first (λ res. res.check.id == id) r.results

  -- `HasFailingCheck`
  unfoldable pub has_failing_check : String → SuiteResult S → Bool
  has_failing_check id r = contains id r.failing_blocking_ids || contains id r.failing_degraded_ids
