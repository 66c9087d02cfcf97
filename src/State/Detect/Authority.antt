-- ===== src/State/Detect/Authority.antt =====
-- internal/state/detect.go: which evidence decides, and when the record is to be reconciled.
use lab_env.Common.{
  ◌≡◌, Bool, true, false, not, ◌&&◌, ◌||◌, Option, none, some, is_none, ◌==◌, if◌then◌else◌, arith,
}
use lab_env.Conformance.Result.{exit_code, SuiteResult, is_conformant, classify, exit_code}
use lab_env.Conformance.Result.Counts.{classify_tallies}
use lab_env.State.{state_beq_refl, State, state_eq}
use lab_env.State.File.{ActiveFault}
use lab_env.State.Detect.{
  DetectInput, DetectionConfidence, detect, is_unknown, recorded_state, recorded_fault,
  reconcile_from_suite, differs,
}

-- The state that the runtime evidence alone stands for.
abbrev pub runtime_state : Bool → Option ActiveFault → State
runtime_state healthy (some f) = State.degraded
runtime_state true none = State.conformant
runtime_state false none = State.broken

module _ {S : Type 0} (input : DetectInput S) where
  -- With a lightweight result the detected state is a function of its health and of the recorded
  -- fault: no recorded state, valid or not, and no suite result changes it, and it is never
  -- unknown.
  pub detect-runtime_state :
      {lr : SuiteResult S}
      → input.lightweight_result ≡ some lr
      → ((detect input).detected
          ≡ runtime_state (is_conformant lr.classification) (recorded_fault input.state_file))
        × ((detect input).confidence ≡ DetectionConfidence.runtime)
        × (is_unknown (detect input) ≡ false)
  unfolding detect is_unknown
  detect-runtime_state h = ground arith

  -- On every path a reconciliation is asked for exactly when a trusted recorded state exists and
  -- differs from the detected one, which is trusted exactly when the file's classification is
  -- valid.
  pub detect-reconciled :
      (detect input).reconciled ≡ differs (recorded_state input.state_file) (detect input).detected
  unfolding detect
  detect-reconciled = ground (arith, state_beq_refl (recorded_state input.state_file))

  -- The classification fails exactly when there is neither a result nor a trusted recorded state.
  pub detect-is_unknown : is_unknown (detect input) ≡ (
      is_none input.lightweight_result
      && (is_none input.suite_result && recorded_state input.state_file == State.unset))
  unfolding detect is_unknown
  detect-is_unknown = ground arith

-- A classified suite result overrides the record: a suite that is not conformant gives BROKEN
-- whatever is recorded; one that is conformant gives CONFORMANT for a recorded DEGRADED or for no
-- record, and any other recorded state stays.
pub reconcile_from_suite-classify :
    {S : Type 0} (r : SuiteResult S) (fault : Option ActiveFault) (recorded : State)
    → (reconcile_from_suite (classify r) fault recorded).detected ≡ (
        if not (is_conformant (classify r).classification)
        then State.broken
        else if recorded == State.degraded || recorded == State.unset
        then State.conformant
        else recorded)
unfolding reconcile_from_suite exit_code
reconcile_from_suite-classify r fault recorded = ground (arith, classify_tallies r)
