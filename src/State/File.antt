-- ===== src/State/File.antt =====
-- internal/state/store.go: the schema of state.json. A `time.Time` is a number.
use lab_env.Common.{ℕ, String, Bool, true, Option, none, some, List, []}
use lab_env.State.{State}

pub record ActiveFault : Type 0 where
  pub id : String
  pub applied_at : ℕ
  pub forced : Bool

pub record ValidateRecord : Type 0 where
  pub at : ℕ
  pub passed : ℕ
  pub total : ℕ
  pub failing_checks : List String

pub record ResetRecord : Type 0 where
  pub at : ℕ
  pub tier : String
  pub from_state : State
  pub fault_cleared : String

-- `result` is the text of the state that the provisioning ended in.
pub record ProvisionRecord : Type 0 where
  pub at : ℕ
  pub result : State

pub record HistoryEntry : Type 0 where
  pub ts : ℕ
  pub from : State
  pub to : State
  pub command : String
  pub fault : String
  pub forced : Bool

pub record File : Type 0 where
  pub spec_version : String
  pub state : State
  pub classification_valid : Bool
  pub active_fault : Option ActiveFault
  pub last_validate : Option ValidateRecord
  pub last_reset : Option ResetRecord
  pub last_provision : Option ProvisionRecord
  pub last_status_at : Option ℕ
  pub history : List HistoryEntry

abbrev pub spec_version_text : String
spec_version_text = "1.0.0"

-- `Fresh`; `now` is what the clock shows.
unfoldable pub fresh : ℕ → State → File
fresh now st = record {
  spec_version = spec_version_text;
  state = st;
  classification_valid = true;
  active_fault = none;
  last_validate = none;
  last_reset = none;
  last_provision = none;
  last_status_at = some now;
  history = [];
}
