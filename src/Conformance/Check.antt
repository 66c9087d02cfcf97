-- ===== src/Conformance/Check.antt =====
-- internal/conformance/check.go: a check, and the outcome of running it.
use lab_env.Common.{String, Bool, Option}
use lab_env.Common.Errors.{Error}
use lab_env.Conformance.Observer.{Observer}

pub data Severity : Type 0 where
  blocking degraded : Severity

pub data Category : Type 0 where
  system_state process endpoint filesystem log : Category

pub data CheckLayer : Type 0 where
  behavioral structural operational : CheckLayer

-- What a call of `Execute` does: it returns its error, or it panics.
pub data Outcome : Type 0 where
  returns : Option Error → Outcome
  panics : String → Outcome

pub record Check (S : Type 0) : Type 0 where
  pub id : String
  pub category : Category
  pub layer : CheckLayer
  pub severity : Severity
  pub assertion : String
  pub failure_meaning : String
  pub observable_command : String
  pub execute : Observer S → S → Outcome

pub record CheckResult (S : Type 0) : Type 0 where
  pub check : Check S
  pub passed : Bool
  pub err : Option Error
  pub dependent : Bool

abbrev pub is_endpoint : Category → Bool
is_endpoint Category.endpoint = Bool.true
is_endpoint _ = Bool.false

abbrev pub is_blocking : Severity → Bool
is_blocking Severity.blocking = Bool.true
is_blocking Severity.degraded = Bool.false

-- `Severity.String`
pub severity_text : Severity → String
severity_text Severity.blocking = "blocking"
severity_text Severity.degraded = "degraded"
