-- ===== src/Output/Views.antt =====
-- internal/output/render.go: the views of lab status, lab validate and lab history.
use Prim.Native.String.{◌++◌ as text_append}
use lab_env.Common.{
  ℕ, ◌-◌, ◌/◌, String, Bool, not, Option, none, some, List, [], ◌∷◌, ◌++◌, ◌==◌, nat_eq,
  if◌then◌else◌, ltb, length, map,
}
use lab_env.Common.Errors.{Error, Args, nil, text, number, time, cause}
use lab_env.State.Texts.{state_text}
use lab_env.State.File.{HistoryEntry}
use lab_env.Executor.Decimal.{decimal_text}
use lab_env.Cmd.{
  StatusResult, ValidateResult, CheckResultItem, HistoryResult, FaultRef, PortInfo, ValidateSummary,
  ResetSummary,
}
use lab_env.Output.Lines.{Line, printf, println, blank_line, sep, rule, repeat}

-- `humanTime` at the time `now`, as an argument before others. A time of the future gives a
-- negative number of seconds, rounded towards 0.
unfoldable pub human_time : ℕ → ℕ → Args → Args
human_time now t rest =
    if ltb now t
    then text
        (if ltb (t - now) 1000
          then "0s ago"
          else text_append "-" (text_append (decimal_text ((t - now) / 1000)) "s ago"))
        rest
    else if ltb (now - t) 60000
    then text (text_append (decimal_text ((now - t) / 1000)) "s ago") rest
    else if ltb (now - t) 3600000
    then text (text_append (decimal_text ((now - t) / 60000)) "m ago") rest
    else time t rest

error_args : Option Error → Args
error_args none = text "" nil
error_args (some e) = cause e nil

module _ {S : Type 0} where
  active_fault_line : ℕ → Option FaultRef → Line S
  unfolding human_time
  active_fault_line now none = println "Active fault:  none"
  active_fault_line now (some f) =
      printf "Active fault:  %s (applied %s)\n" (text f.id (human_time now f.applied_at nil))

  last_validate_lines : Option ValidateSummary → List (Line S)
  last_validate_lines none = []
  last_validate_lines (some v) =
      printf "Last validate: %s (%d/%d)\n" (time v.at (number v.passed (number v.total nil))) ∷ []

  last_reset_lines : Option ResetSummary → List (Line S)
  last_reset_lines none = []
  last_reset_lines (some r) = printf "Last reset:    %s (%s)\n" (time r.at (text r.tier nil)) ∷ []

  -- The result of `lab status` has no pid of a service.
  service_line : String × Bool → Line S
  service_line (name, active) =
      printf "  %-14s %s\n" (text name (text (if active then "● active" else "✗ inactive") nil))

  port_line : PortInfo → Line S
  port_line p = printf "  %-22s %s\n" (text p.addr (text p.owner nil))

  endpoint_line : String × ℕ → Line S
  endpoint_line (url, code) =
      printf "  %s %-36s %d\n"
        (text (if not (code == 200) then "✗" else "✓") (text url (number code nil)))

  -- `renderStatus`; Go does not fix the order of the services and of the endpoints.
  unfoldable pub render_status : ℕ → StatusResult → List (Line S)
  unfolding active_fault_line last_validate_lines last_reset_lines service_line port_line
      endpoint_line
  render_status now v =
      println "Lab Environment Status"
      ∷ println sep
      ∷ (if v.unknown
          then println "State:  UNKNOWN (classification failed — run lab validate)" ∷ []
          else printf "State:         %s\n" (text (state_text v.state) nil)
            ∷ active_fault_line now v.active_fault
            ∷ (last_validate_lines v.last_validate
                ++ (last_reset_lines v.last_reset
                    ++ (blank_line
                        ∷ println "Services"
                        ∷ (map service_line v.services
                            ++ (blank_line
                                ∷ println "Ports"
                                ∷ (map port_line v.ports
                                    ++ (blank_line
                                        ∷ println "Endpoints"
                                        ∷ (map endpoint_line v.endpoints
                                            ++ println sep ∷ [])))))))))

  -- `formatCheckLine`, printed by Fprintln.
  unfoldable pub check_line : CheckResultItem → Line S
  unfolding error_args
  check_line c =
      if c.passed
      then printf "  [PASS] %-6s %s\n" (text c.id (text c.assertion nil))
      else if c.dependent
      then printf "  [SKIP] %-6s %s (dependent)\n" (text c.id (text c.assertion nil))
      else printf "  [FAIL] %-6s %s — %s\n" (text c.id (text c.assertion (error_args c.error)))

  -- `renderValidate`
  unfoldable pub render_validate : ValidateResult → List (Line S)
  unfolding check_line
  render_validate v =
      printf "Running conformance suite (%d checks)...\n\n" (number v.total nil)
      ∷ (map check_line v.checks
          ++ blank_line
            ∷ printf "%s  %d/%d checks passed\n"
                (text v.classification (number v.passed (number v.total nil)))
            ∷ [])

  history_line : HistoryEntry → Line S
  history_line e =
      printf "%-21s %-15s %-15s %s\n"
        (time e.ts (text (state_text e.from) (text (state_text e.to) (text e.command nil))))

  -- `renderHistory`
  unfoldable pub render_history : HistoryResult → List (Line S)
  unfolding history_line repeat
  render_history v =
      printf "State Transition History (last %d)\n" (number (length v.entries) nil)
      ∷ rule
      ∷ printf "%-21s %-15s %-15s %s\n"
          (text "Timestamp" (text "From" (text "To" (text "Command" nil))))
      ∷ rule
      ∷ (map history_line v.entries ++ rule ∷ [])
