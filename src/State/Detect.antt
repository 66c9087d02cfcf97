-- ===== src/State/Detect.antt =====
-- internal/state/detect.go: which state the evidence shows.
pub mod Authority
use lab_env.Common.{
  ℕ, Bool, true, false, not, ◌&&◌, Option, none, some, ltb, length, is_none, ◌==◌, if◌then◌else◌,
  ◌||◌,
}
use lab_env.Common.Errors.{
  Error, Args, errorf, os, lock_held, invalid_state, state_file_not_found, state_file_corrupt, nil,
  text, number, time, texts, cause, bytes,
}
use lab_env.Conformance.Result.{SuiteResult, is_conformant}
use lab_env.State.{State, state_eq}
use lab_env.State.File.{File, ActiveFault}

pub data DetectionConfidence : Type 0 where
  runtime conformance state_file unknown : DetectionConfidence

pub record DetectionResult : Type 0 where
  pub detected : State
  pub confidence : DetectionConfidence
  pub reconciled : Bool
  pub prior_state : State

pub record DetectInput (S : Type 0) : Type 0 where
  pub state_file : Option File
  pub suite_result : Option (SuiteResult S)
  pub lightweight_result : Option (SuiteResult S)

-- The `if recorded != ""` in front of each comparison.
abbrev pub differs : State → State → Bool
differs recorded detected =
    if not (recorded == State.unset) then not (recorded == detected) else false

abbrev pub resolved : DetectionConfidence → State → Bool → State → DetectionResult
resolved confidence detected reconciled recorded = record {
  detected = detected;
  confidence = confidence;
  reconciled = reconciled;
  prior_state = recorded;
}

-- Steps 1 and 2 of `Detect`: the recorded state, which an invalidated classification empties.
unfoldable pub recorded_state : Option File → State
recorded_state none = State.unset
recorded_state (some f) = if not f.classification_valid then State.unset else f.state

unfoldable pub recorded_fault : Option File → Option ActiveFault
recorded_fault none = none
recorded_fault (some f) = f.active_fault

from_recorded : State → DetectionResult
from_recorded recorded =
    if not (recorded == State.unset)
    then resolved DetectionConfidence.state_file recorded false State.unset
    else resolved DetectionConfidence.unknown State.unset false State.unset

module _ {S : Type 0} where
  -- `reconcileFromRuntime`
  pub reconcile_from_runtime : SuiteResult S → Option ActiveFault → State → DetectionResult
  reconcile_from_runtime lr active_fault recorded =
      let seen = λ (detected : State).
        resolved DetectionConfidence.runtime detected (differs recorded detected) recorded in
      if is_conformant lr.classification
      then (if not (is_none active_fault) then seen State.degraded else seen State.conformant)
      else if not (is_none active_fault)
      then seen State.degraded
      else seen State.broken

  -- `reconcileFromSuite`
  pub reconcile_from_suite : SuiteResult S → Option ActiveFault → State → DetectionResult
  reconcile_from_suite sr active_fault recorded =
      let suite_conformant = is_conformant sr.classification in
      let seen = λ (detected : State) (reconciled : Bool).
        resolved DetectionConfidence.conformance detected reconciled recorded in
      let detected = if recorded == State.unset then State.conformant else recorded in
      if suite_conformant && recorded == State.degraded
      then seen State.conformant (not (recorded == State.unset))
      else if not suite_conformant && recorded == State.conformant
      then seen State.broken (not (recorded == State.unset))
      else if not suite_conformant && is_none active_fault
      then seen State.broken (differs recorded State.broken)
      else if ltb 0 (length sr.failing_blocking_ids)
      then seen State.broken (differs recorded State.broken)
      else if is_none active_fault && recorded == State.degraded
      then seen State.conformant true
      else seen detected (differs recorded detected)

  from_suite : Option (SuiteResult S) → Option ActiveFault → State → DetectionResult
  unfolding reconcile_from_suite from_recorded
  from_suite none active_fault recorded = from_recorded recorded
  from_suite (some sr) active_fault recorded = reconcile_from_suite sr active_fault recorded

  from_evidence :
      Option (SuiteResult S) → Option (SuiteResult S) → Option ActiveFault → State → DetectionResult
  unfolding reconcile_from_runtime from_suite
  from_evidence (some lr) suite active_fault recorded =
      reconcile_from_runtime lr active_fault recorded
  from_evidence none suite active_fault recorded = from_suite suite active_fault recorded

  -- `Detect`
  unfoldable pub detect : DetectInput S → DetectionResult
  unfolding from_evidence recorded_state recorded_fault
  detect input =
      from_evidence input.lightweight_result input.suite_result (recorded_fault input.state_file)
        (recorded_state input.state_file)

abbrev is_unknown_confidence : DetectionConfidence → Bool
is_unknown_confidence DetectionConfidence.unknown = true
is_unknown_confidence _ = false

-- `IsUnknown`
unfoldable pub is_unknown : DetectionResult → Bool
is_unknown r = is_unknown_confidence r.confidence || r.detected == State.unset

-- `StateFileError`: `errors.As` follows the errors that a format wraps.
unfoldable mutual
  pub state_file_error : Error → Bool
  state_file_error (errorf format args) = state_file_args args
  state_file_error state_file_not_found = true
  state_file_error (state_file_corrupt e) = true
  state_file_error (os e) = false
  state_file_error (lock_held pid) = false
  state_file_error (invalid_state s) = false

  pub state_file_args : Args → Bool
  state_file_args nil = false
  state_file_args (text s args) = state_file_args args
  state_file_args (number n args) = state_file_args args
  state_file_args (time t args) = state_file_args args
  state_file_args (texts l args) = state_file_args args
  state_file_args (cause e args) = state_file_error e || state_file_args args
  state_file_args (bytes b args) = state_file_args args
