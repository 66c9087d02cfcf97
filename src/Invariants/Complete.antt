-- ===== src/Invariants/Complete.antt =====
-- internal/invariants/spec_index.go: what the generated section shows of the index.
use lab_env.Common.{
  ℕ, ◌<◌, String, true, ◌≡◌, refl, some, none, sym, ◌∙◌, contains, all_pass, string_eq,
}
use lab_env.Common.Errors.{Result, ok, err}
use lab_env.Common.Bytes.{Bytes}
use lab_env.Invariants.{
  begin_guard, end_guard, section_body, spec_index, doc_order, generate_markdown, regenerate,
  written, generate_spec_index,
}
use lab_env.Invariants.Models.{conformance_model, system_state_model, fault_model}
use lab_env.Invariants.Contracts.{control_plane_contract, canonical_environment}
use lab_env.Invariants.Texts.{index}
use lab_env.Invariants.Regenerated.{Closed, regenerate-regenerate}

spec_index-Closed : Closed (section_body spec_index)
unfolding index begin_guard end_guard section_body spec_index
spec_index-Closed = refl

-- A write that is not refused writes what was generated.
written-accepted : (path : String) (r : Result Bytes) → written path none r ≡ r
unfolding written
written-accepted path (err e) = refl
written-accepted path (ok content) = refl

-- Every mapping of the index belongs to a document whose table is generated.
spec_index-doc_order : all_pass (λ m. contains m.spec.doc doc_order) spec_index ≡ true
unfolding spec_index conformance_model system_state_model fault_model control_plane_contract
    canonical_environment
spec_index-doc_order = refl

-- Regenerating the specification index twice gives the document that one run gives, where the
-- document has its two guards in their order and no write is refused, whatever stands before, between
-- and behind them.
pub generate_spec_index-twice :
    (path : String) (content content' : Bytes) (i j : ℕ)
    → index content begin_guard ≡ some i
    → index content end_guard ≡ some j
    → i < j
    → generate_spec_index path (ok content) none ≡ ok content'
    → generate_spec_index path (ok content') none ≡ ok content'
unfolding generate_spec_index generate_markdown
generate_spec_index-twice path content content' i j bi ej lt h =
    written-accepted path (regenerate generate_markdown content')
    ∙ regenerate-regenerate (section_body spec_index) content content' i j spec_index-Closed bi ej
        lt (sym (written-accepted path (regenerate generate_markdown content)) ∙ h)
