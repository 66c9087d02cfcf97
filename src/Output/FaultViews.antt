-- ===== src/Output/FaultViews.antt =====
-- internal/output/render.go: the views of the fault commands and of lab reset.
use lab_env.Common.{
  String, not, Option, none, some, List, [], ◌∷◌, ◌++◌, ◌==◌, string_eq, if◌then◌else◌, map,
}
use lab_env.Common.Errors.{Error, Args, nil, text, number, cause}
use lab_env.State.Texts.{state_text}
use lab_env.Cmd.{FaultListResult, FaultSummary, FaultInfoResult, FaultApplyResult, ResetResult}
use lab_env.Output.Lines.{
  Line, printf, println, blank_line, rule, repeat, joined_by_comma, bool_text,
}

reason_args : Option Error → Args
reason_args none = text "" nil
reason_args (some e) = cause e nil

module _ {S : Type 0} where
  fault_line : FaultSummary → Line S
  unfolding joined_by_comma
  fault_line f =
      printf "%-6s %-13s %-20s %s\n"
        (text f.id (text f.layer (text (joined_by_comma f.domain) (text f.symptom nil))))

  -- `renderFaultList`
  unfoldable pub render_fault_list : FaultListResult → List (Line S)
  unfolding fault_line repeat
  render_fault_list v =
      printf "Fault Catalog  (%d faults)\n" (number v.total nil)
      ∷ rule
      ∷ printf "%-6s %-13s %-20s %s\n"
          (text "ID" (text "Layer" (text "Domain" (text "Symptom" nil))))
      ∷ rule
      ∷ (map fault_line v.faults
          ++ rule
            ∷ println "Apply a fault:   lab fault apply <ID>"
            ∷ println "Fault details:   lab fault info <ID>"
            ∷ [])

  -- `renderFaultInfo`
  unfoldable pub render_fault_info : FaultInfoResult → List (Line S)
  unfolding joined_by_comma repeat
  render_fault_info v =
      printf "Fault %s — %s\n" (text v.id (text v.symptom nil))
      ∷ rule
      ∷ printf "Layer:      %s\n" (text v.layer nil)
      ∷ printf "Domain:     %s\n" (text (joined_by_comma v.domain) nil)
      ∷ printf "Reset tier: %s\n" (text v.reset_tier nil)
      ∷ blank_line
      ∷ printf "Mutation:\n  %s\n\n" (text v.mutation_display nil)
      ∷ printf "Symptom:\n  %s\n\n" (text v.symptom nil)
      ∷ printf "Authoritative signal:\n  %s\n\n" (text v.authoritative_signal nil)
      ∷ printf "Observable:\n  %s\n\n" (text v.observable nil)
      ∷ printf "Reset action:\n  %s\n\n" (text v.reset_action nil)
      ∷ printf "Confirmation required: %v\n" (text (bool_text v.requires_confirmation) nil)
      ∷ printf "Reversible:           %v\n" (text (bool_text v.is_reversible) nil)
      ∷ []

  -- `renderFaultApply`
  unfoldable pub render_fault_apply : FaultApplyResult → List (Line S)
  unfolding reason_args
  render_fault_apply v =
      if v.aborted
      then printf "Aborted: %s\n" (reason_args v.abort_reason) ∷ []
      else if not v.applied
      then []
      else printf "State: %s → %s\n"
          (text (state_text v.from_state) (text (state_text v.to_state) nil))
        ∷ printf "Active fault: %s\n" (text v.fault_id nil)
        ∷ blank_line
        ∷ println "Reset when done:  lab reset"
        ∷ []

  -- A line that is printed only if a fault was cleared.
  abbrev if_cleared : String → Line S → List (Line S)
  if_cleared fault line = if not (fault == "") then line ∷ [] else []

  -- `renderReset`; the suite of a reset result is never nil.
  unfoldable pub render_reset : ResetResult S → List (Line S)
  render_reset v =
      printf "Resetting environment (tier %s)...\n\n" (text v.tier nil)
      ∷ (if_cleared v.fault_cleared (printf "  Fault cleared: %s\n" (text v.fault_cleared nil))
          ++ (printf "  [%d/%d] conformance suite\n\n"
                (number v.suite.passed (number v.suite.total nil))
              ∷ printf "State: %s → %s\n"
                  (text (state_text v.from_state) (text (state_text v.to_state) nil))
              ∷ (if_cleared v.fault_cleared (println "Active fault: none")
                  ++ printf "Reset duration: %dms\n" (number v.duration_ms nil) ∷ [])))
