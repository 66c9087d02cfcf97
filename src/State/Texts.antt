-- ===== src/State/Texts.antt =====
-- internal/state/state.go: the texts of the states, as state.json has them.
use lab_env.Common.{String, ◌==◌, string_eq, if◌then◌else◌}
use lab_env.State.{State}

-- `String`
unfoldable pub state_text : State → String
state_text State.unset = ""
state_text State.unprovisioned = "UNPROVISIONED"
state_text State.provisioned = "PROVISIONED"
state_text State.conformant = "CONFORMANT"
state_text State.degraded = "DEGRADED"
state_text State.broken = "BROKEN"
state_text State.recovering = "RECOVERING"
state_text (State.other s) = s

-- The state that a text of state.json is read as.
unfoldable pub state_of_text : String → State
state_of_text s =
    if s == ""
    then State.unset
    else if s == "UNPROVISIONED"
    then State.unprovisioned
    else if s == "PROVISIONED"
    then State.provisioned
    else if s == "CONFORMANT"
    then State.conformant
    else if s == "DEGRADED"
    then State.degraded
    else if s == "BROKEN"
    then State.broken
    else if s == "RECOVERING"
    then State.recovering
    else State.other s
