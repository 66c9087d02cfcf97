-- ===== src/Invariants/Models.antt =====
-- internal/invariants/spec_index.go: the mapping of the documents to their implementations, the models.
use lab_env.Common.{true, List, [], ◌∷◌}
use lab_env.Invariants.Mapping.{SpecMapping, mapped}

-- The sections of conformance-model.md.
unfoldable pub conformance_model : List SpecMapping
conformance_model =
    mapped "conformance-model.md" "§3" "Check Catalog"
      ("internal/conformance/check.go" ∷ "internal/conformance/catalog.go" ∷ [])
      ("internal/conformance/runner_test.go" ∷ "internal/catalog/catalog_test.go" ∷ [])
    ∷ mapped "conformance-model.md" "§4" "Validation Semantics"
        ("internal/conformance/result.go" ∷ "internal/conformance/runner.go" ∷ [])
        ("internal/conformance/runner_test.go" ∷ "internal/conformance/runner_edge_cases_test.go"
          ∷ [])
    ∷ mapped "conformance-model.md" "§4.7" "Validation Output Schema"
        ("internal/output/model.go" ∷ "internal/output/render.go" ∷ [])
        ("internal/output/golden_test.go" ∷ "internal/output/render_test.go" ∷ [])
    ∷ record (mapped "conformance-model.md" "§5" "Model Completeness Condition" []
        ("internal/invariants/invariants_test.go" ∷ [])) { test_only = true }
    ∷ []

-- The sections of system-state-model.md.
unfoldable pub system_state_model : List SpecMapping
system_state_model =
    mapped "system-state-model.md" "§2" "State Definitions" ("internal/state/state.go" ∷ [])
      ("internal/state/state_test.go" ∷ [])
    ∷ mapped "system-state-model.md" "§3" "Transition Model"
        ("cmd/fault.go" ∷ "cmd/reset.go" ∷ "internal/state/store.go" ∷ "internal/state/state.go"
          ∷ [])
        ("cmd/fault_test.go" ∷ "cmd/interrupt_test.go" ∷ "internal/state/state_test.go" ∷ [])
    ∷ mapped "system-state-model.md" "§4" "State Detection"
        ("internal/state/detect.go" ∷ "cmd/status.go" ∷ [])
        ("internal/state/detect_test.go" ∷ "internal/state/store_test.go" ∷ "cmd/status_test.go"
          ∷ [])
    ∷ mapped "system-state-model.md" "§5" "Constraint Graph"
        ("internal/state/state.go" ∷ "internal/state/store.go" ∷ [])
        ("internal/state/state_test.go" ∷ "internal/state/store_test.go"
          ∷ "internal/invariants/invariants_test.go" ∷ [])
    ∷ []

-- The sections of fault-model.md.
unfoldable pub fault_model : List SpecMapping
fault_model =
    mapped "fault-model.md" "§3" "Fault Schema" ("internal/catalog/fault.go" ∷ [])
      ("internal/catalog/catalog_test.go" ∷ "internal/catalog/content_integrity_test.go" ∷ [])
    ∷ mapped "fault-model.md" "§4" "Mutation Rules"
        ("cmd/fault.go" ∷ "internal/catalog/faults.go" ∷ "internal/executor/executor.go" ∷ [])
        ("cmd/fault_test.go" ∷ "internal/executor/trace_test.go" ∷ "internal/executor/embed_test.go"
          ∷ [])
    ∷ mapped "fault-model.md" "§5" "Pre/Post Conditions"
        ("cmd/fault.go" ∷ "internal/conformance/catalog.go" ∷ [])
        ("cmd/fault_test.go" ∷ "internal/invariants/invariants_test.go" ∷ [])
    ∷ mapped "fault-model.md" "§6" "Reversibility Semantics"
        ("internal/catalog/faults.go" ∷ "cmd/reset.go" ∷ [])
        ("internal/catalog/catalog_test.go" ∷ "internal/catalog/content_integrity_test.go" ∷ [])
    ∷ mapped "fault-model.md" "§7" "Fault Catalog" ("internal/catalog/faults.go" ∷ []) (
        "internal/catalog/catalog_test.go" ∷ "internal/catalog/content_integrity_test.go"
        ∷ "internal/invariants/invariants_test.go" ∷ [])
    ∷ record (mapped "fault-model.md" "§10" "Baseline Network Behaviours" []
        ("internal/invariants/invariants_test.go" ∷ [])) { test_only = true }
    ∷ []
