-- ===== src/Cmd/Report.antt =====
-- cmd/status.go: the evidence that lab status collects, and the result that it reports.
use lab_env.Common.{
  ℕ, String, Bool, false, not, ◌&&◌, Option, none, some, List, [], ◌∷◌, ◌++◌, ◌==◌, nat_eq,
  string_eq, if◌then◌else◌,
}
use lab_env.Common.Errors.{Result, ok, err}
use lab_env.Config.{app_bind_addr, nginx_http_addr, nginx_https_addr}
use lab_env.Conformance.Observer.{EndpointStatus}
use lab_env.Conformance.Check.{Check, CheckResult}
use lab_env.Conformance.Catalog.{check_by_id}
use lab_env.Conformance.Result.{SuiteResult, classify}
use lab_env.Conformance.Runner.{lightweight_run}
use lab_env.State.{State}
use lab_env.State.File.{File, ActiveFault, ValidateRecord, ResetRecord}
use lab_env.State.Detect.{DetectInput, DetectionResult, detect}
use lab_env.Executor.Machine.{Machine}
use lab_env.Cmd.{Env, StatusResult, FaultRef, ValidateSummary, ResetSummary}

abbrev root_url : String
root_url = "http://localhost/"

abbrev health_url : String
health_url = "http://localhost/health"

abbrev is_failure : Result EndpointStatus → Bool
is_failure (err e) = false
is_failure (ok st) = not (st.status_code == 200)

fault_ref : Option ActiveFault → Option FaultRef
fault_ref none = none
fault_ref (some a) = some (record { id = a.id; applied_at = a.applied_at })

validate_summary : Option ValidateRecord → Option ValidateSummary
validate_summary none = none
validate_summary (some v) = some (record { at = v.at; passed = v.passed; total = v.total })

reset_summary : Option ResetRecord → Option ResetSummary
reset_summary none = none
reset_summary (some r) = some (record { at = r.at; tier = r.tier })

endpoint_codes : String → Result EndpointStatus → List (String × ℕ)
endpoint_codes url (err e) = []
endpoint_codes url (ok st) = (url, st.status_code) ∷ []

abbrev pub blank : StatusResult
blank = record {
  state = State.unset;
  active_fault = none;
  services = [];
  ports = [];
  endpoints = [];
  last_validate = none;
  last_reset = none;
  reconciled = false;
  unknown = false;
  classification_valid = false;
}

with_file : Option File → StatusResult → StatusResult
unfolding fault_ref validate_summary reset_summary
with_file none r = r
with_file (some sf) r = record r {
  active_fault = fault_ref sf.active_fault;
  classification_valid = sf.classification_valid;
  last_validate = validate_summary sf.last_validate;
  last_reset = reset_summary sf.last_reset;
}

module _ {S : Type 0} where
  -- The `switch` on a result of the lightweight run.
  add_result : CheckResult S → StatusResult → StatusResult
  add_result res r =
      if res.check.id == "P-001"
      then record r { services = r.services ++ ("app.service", res.passed) ∷ [] }
      else if res.check.id == "S-003"
      then record r { services = r.services ++ ("nginx", res.passed) ∷ [] }
      else if (res.check.id == "P-002") && res.passed
      then record r { ports = r.ports ++ record { addr = app_bind_addr; owner = "app" } ∷ [] }
      else r

  add_results : List (CheckResult S) → StatusResult → StatusResult
  unfolding add_result
  add_results [] r = r
  add_results (res ∷ rest) r = add_results rest (add_result res r)

  add_root_failure : Option (Check S) → SuiteResult S → SuiteResult S
  unfolding classify
  add_root_failure none sr = sr
  add_root_failure (some check) sr = classify (record sr {
    results =
        sr.results ++ record { check = check; passed = false; err = none; dependent = false } ∷ [];
  })

module _ {S : Type 0} (env : Env S) where
  -- Steps 2 and 2b: the lightweight run, with a failed E-002 when `GET /` answers another status
  -- than 200.
  unfoldable pub evidence : Machine S → SuiteResult (Machine S)
  unfolding add_root_failure
  evidence m =
      let sr = lightweight_run env.observer m env.clock.suite_at env.checks in
      if is_failure (env.observer.check_endpoint root_url false m)
      then add_root_failure (check_by_id env.json "E-002") sr
      else sr

  abbrev pub detect_input : Option File → Machine S → DetectInput (Machine S)
  detect_input sf m = record {
    state_file = sf;
    suite_result = none;
    lightweight_result = some (evidence m);
  }

  -- Step 3: what `Detect` makes of the state file and the evidence.
  unfoldable pub detection : Option File → Machine S → DetectionResult
  unfolding detect
  detection sf m = detect (detect_input sf m)

  -- `buildStatusResult`
  unfoldable pub build_status_result : Option File → State → Machine S → StatusResult
  unfolding with_file add_results endpoint_codes
  build_status_result sf detected m =
      let r = add_results (evidence m).results (with_file sf (record blank { state = detected })) in
      record r {
        endpoints =
            endpoint_codes health_url (env.observer.check_endpoint health_url false m)
            ++ endpoint_codes root_url (env.observer.check_endpoint root_url false m);
        ports =
            r.ports
            ++ record { addr = nginx_http_addr; owner = "nginx" }
              ∷ record { addr = nginx_https_addr; owner = "nginx (TLS)" }
              ∷ [];
      }
