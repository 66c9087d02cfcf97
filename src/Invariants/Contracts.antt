-- ===== src/Invariants/Contracts.antt =====
-- internal/invariants/spec_index.go: the mapping of the documents to their implementations, the contracts.
use lab_env.Common.{true, List, [], ◌∷◌}
use lab_env.Invariants.Mapping.{SpecMapping, mapped}

-- The sections of control-plane-contract.md.
unfoldable pub control_plane_contract : List SpecMapping
control_plane_contract =
    mapped "control-plane-contract.md" "§3" "Global Contract"
      ("app.go" ∷ "internal/output/render.go" ∷ "internal/executor/lock.go" ∷ [])
      ("internal/executor/lock_test.go" ∷ "internal/executor/lock_stale_system_process_test.go"
        ∷ "internal/output/render_test.go" ∷ [])
    ∷ mapped "control-plane-contract.md" "§4.1" "lab status" ("cmd/status.go" ∷ [])
        ("cmd/status_test.go" ∷ [])
    ∷ mapped "control-plane-contract.md" "§4.2" "lab validate" ("cmd/validate.go" ∷ [])
        ("cmd/validate_test.go" ∷ [])
    ∷ mapped "control-plane-contract.md" "§4.3" "lab fault list" ("cmd/fault.go" ∷ [])
        ("cmd/fault_test.go" ∷ [])
    ∷ mapped "control-plane-contract.md" "§4.4" "lab fault info" ("cmd/fault.go" ∷ [])
        ("cmd/fault_test.go" ∷ [])
    ∷ mapped "control-plane-contract.md" "§4.5" "lab fault apply" ("cmd/fault.go" ∷ [])
        ("cmd/fault_test.go" ∷ "cmd/interrupt_test.go" ∷ "cmd/live_fault_matrix_test.go" ∷ [])
    ∷ mapped "control-plane-contract.md" "§4.6" "lab reset" ("cmd/reset.go" ∷ [])
        ("cmd/live_fault_matrix_test.go" ∷ [])
    ∷ mapped "control-plane-contract.md" "§4.7" "lab provision"
        ("cmd/reset_provision_history.go" ∷ []) []
    ∷ mapped "control-plane-contract.md" "§4.8" "lab history"
        ("cmd/reset_provision_history.go" ∷ []) []
    ∷ mapped "control-plane-contract.md" "§5" "Executor Behavioral Contract"
        ("internal/executor/executor.go" ∷ "internal/executor/real.go" ∷ [])
        ("internal/executor/audit_test.go" ∷ "internal/executor/trace_test.go"
          ∷ "internal/executor/embed_test.go" ∷ "internal/executor/restore_test.go" ∷ [])
    ∷ mapped "control-plane-contract.md" "§6" "State File Contract" ("internal/state/store.go" ∷ [])
        ("internal/state/store_test.go" ∷ "internal/state/store_edge_cases_test.go" ∷ [])
    ∷ mapped "control-plane-contract.md" "§7" "Audit Log Contract"
        ("internal/executor/audit.go" ∷ [])
        ("internal/executor/audit_test.go" ∷ "internal/executor/mutation_failure_test.go" ∷ [])
    ∷ mapped "control-plane-contract.md" "§8" "Error Catalog"
        ("cmd/fault.go" ∷ "internal/executor/lock.go" ∷ []) ("cmd/fault_test.go" ∷ [])
    ∷ record (mapped "control-plane-contract.md" "§9" "Conformance with Semantic Models" [] []) {
      cross_ref = true;
    }
    ∷ []

-- The sections of canonical-enviornment-lab.md.
unfoldable pub canonical_environment : List SpecMapping
canonical_environment =
    record (mapped "canonical-enviornment-lab.md" "§2" "Canonical Environment Contract"
      ("internal/config/config.go" ∷ []) ("internal/executor/embed_test.go" ∷ [])) {
        constraints =
            "constants (internal/config/config.go) + provisioning (scripts/bootstrap.sh) + verification (conformance checks)";
      }
    ∷ mapped "canonical-enviornment-lab.md" "§3" "Go Service Interface Contract"
        ("service/main.go" ∷ "service/server/server.go" ∷ "service/logging/logging.go"
          ∷ "service/signals/signals.go" ∷ [])
        ("service/server/server_test.go" ∷ "service/server/server_edge_cases_test.go"
          ∷ "service/signals/signals_test.go" ∷ "service/logging/logging_test.go" ∷ [])
    ∷ record (mapped "canonical-enviornment-lab.md" "§4" "Canonical Artifact Contents"
        ("internal/config/app.service" ∷ "internal/config/config.yaml"
          ∷ "internal/config/nginx.conf" ∷ "internal/config/logrotate.conf"
          ∷ "service/config/config.go" ∷ [])
        ("internal/executor/embed_test.go" ∷ "service/config/config_test.go" ∷ [])) {
          constraints =
              "embedded content (internal/config/*) + parser enforcement (service/config/config.go) + R2 restore (internal/executor/canonical_files.go)";
        }
    ∷ record (mapped "canonical-enviornment-lab.md" "§5" "Provisioning Contract"
        ("scripts/bootstrap.sh" ∷ []) ("cmd/live_fault_matrix_test.go" ∷ [])) {
          constraints =
              "script (scripts/bootstrap.sh) + idempotency strategy (docs/provisioning-blueprint.md) + final gate (lab validate)";
        }
    ∷ mapped "canonical-enviornment-lab.md" "§8" "State Control"
        ("cmd/reset.go" ∷ "scripts/reset.sh" ∷ []) ("cmd/live_fault_matrix_test.go" ∷ [])
    ∷ []
