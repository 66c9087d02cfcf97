-- ===== src/Output.antt =====
-- internal/output/render.go: the renderer. A printed line is kept as its format and arguments.
pub mod Lines
pub mod Views
pub mod FaultViews
use lab_env.Common.{ℕ, Bool, true, false, List, [], ◌∷◌, if◌then◌else◌, length, ◌==◌, nat_eq}
use lab_env.Common.Errors.{message, cause, nil}
use lab_env.Cmd.{Value}
use Lines.{Line, printf, encoded}
use Views.{render_status, render_validate, render_history}
use FaultViews.{render_fault_list, render_fault_info, render_fault_apply, render_reset}

pub data Format : Type 0 where
  human json : Format

pub record Renderer : Type 0 where
  pub format : Format
  pub quiet : Bool

-- The lines on stdout and on stderr.
pub record Rendering (S : Type 0) : Type 0 where
  pub out : List (Line S)
  pub errors : List (Line S)

module _ {S : Type 0} where
  -- `renderHuman`; a provision result has no view and is encoded as JSON.
  unfoldable pub render_human : ℕ → Value S → List (Line S)
  unfolding render_status render_validate render_history render_fault_list render_fault_info
      render_fault_apply render_reset
  render_human now (Value.status v) = render_status now v
  render_human now (Value.validate v) = render_validate v
  render_human now (Value.fault_list v) = render_fault_list v
  render_human now (Value.fault_info v) = render_fault_info v
  render_human now (Value.fault_apply v) = render_fault_apply v
  render_human now (Value.reset v) = render_reset v
  render_human now (Value.history v) = render_history v
  render_human now (Value.provision v) = encoded (Value.provision v) ∷ []

  -- Whether encoding/json encodes a value: it has no encoding for a function, and the results of a
  -- suite hold their checks with the function `Execute`.
  abbrev pub encodes : Value S → Bool
  encodes (Value.reset v) = length v.suite.results == 0
  encodes _ = true

  abbrev pub encoding_error : Line S
  encoding_error =
      printf "error encoding JSON output: %v\n"
        (cause (message "json: unsupported type: func(conformance.Observer) error") nil)

  -- What an encoder prints that succeeds or fails; one that fails prints nothing of the value.
  abbrev pub json_lines : Bool → Value S → Rendering S
  json_lines true v = record { out = encoded v ∷ []; errors = [] }
  json_lines false v = record { out = []; errors = encoding_error ∷ [] }

  -- `renderJSON`
  abbrev pub render_json : Value S → Rendering S
  render_json v = json_lines (encodes v) v

  formatted : Format → ℕ → Value S → Rendering S
  unfolding render_human
  formatted Format.human now v = record { out = render_human now v; errors = [] }
  formatted Format.json now v = render_json v

  -- `Render` at the time `now`.
  unfoldable pub render : Renderer → ℕ → Value S → Rendering S
  unfolding formatted
  render r now v = if r.quiet then record { out = []; errors = [] } else formatted r.format now v
