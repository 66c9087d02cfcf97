-- ===== src/Cmd.antt =====
-- cmd: what the commands share: their dependencies, the world that they change, their result, and
-- the mutation lock around them. `S` is the state of the system under control.
pub mod Fault
pub mod Listing
pub mod Reset
pub mod Report
pub mod Status
pub mod Validate
pub mod Provision
pub mod Locked
pub mod Steps
pub mod Completed
use lab_env.Common.{ℕ, Bool, String, Option, none, some, List, [], ◌∷◌, ◌++◌}
use lab_env.Common.Errors.{Error}
use lab_env.Conformance.Observer.{Observer}
use lab_env.Conformance.Check.{Check}
use lab_env.Conformance.Catalog.Outcomes.{Json}
use lab_env.Conformance.Result.{SuiteResult}
use lab_env.State.{State}
use lab_env.State.File.{File, HistoryEntry}
use lab_env.State.Store
use lab_env.State.Store.{Disk}
use lab_env.Executor.{Executor}
use lab_env.Executor.Audit.{AuditLogger}
use lab_env.Executor.Machine.{Machine, logged}
use lab_env.Executor.Lock
use lab_env.Executor.Lock.{LockState, Process}

-- What the clock shows at the points where a command reads it.
pub record Clock : Type 0 where
  pub started : ℕ
  pub suite_at : ℕ
  pub stamped : ℕ
  pub finished : ℕ

-- The dependencies that the composition root hands to a command, with the clock, and how many
-- nested calls of `Acquire` are followed.
pub record Env (S : Type 0) : Type 0 where
  pub observer : Observer (Machine S)
  pub executor : Executor (Machine S)
  pub json : Json
  pub checks : List (Check (Machine S))
  pub process : Process
  pub lock_fuel : ℕ
  pub clock : Clock

pub record World (S : Type 0) : Type 0 where
  pub machine : Machine S
  pub disk : Disk
  pub locks : LockState
  pub warnings : List Error
  pub printed : List Error

pub record FaultSummary : Type 0 where
  pub id : String
  pub layer : String
  pub domain : List String
  pub symptom : String

pub record FaultListResult : Type 0 where
  pub faults : List FaultSummary
  pub total : ℕ

pub record FaultInfoResult : Type 0 where
  pub id : String
  pub layer : String
  pub domain : List String
  pub reset_tier : String
  pub requires_confirmation : Bool
  pub is_reversible : Bool
  pub mutation_display : String
  pub symptom : String
  pub authoritative_signal : String
  pub observable : String
  pub reset_action : String

pub record FaultApplyResult : Type 0 where
  pub fault_id : String
  pub applied : Bool
  pub from_state : State
  pub to_state : State
  pub forced : Bool
  pub aborted : Bool
  pub abort_reason : Option Error

pub record ResetResult (S : Type 0) : Type 0 where
  pub tier : String
  pub from_state : State
  pub to_state : State
  pub fault_cleared : String
  pub validation_ran : Bool
  pub suite : SuiteResult (Machine S)
  pub duration_ms : ℕ

pub record ValidateSummary : Type 0 where
  pub at : ℕ
  pub passed : ℕ
  pub total : ℕ

pub record ProvisionResult : Type 0 where
  pub to_state : State
  pub validation : ValidateSummary
  pub duration_ms : ℕ

-- The entries of `lab history` have the fields of the recorded ones.
pub record HistoryResult : Type 0 where
  pub entries : List HistoryEntry
  pub total : ℕ

pub record CheckResultItem : Type 0 where
  pub id : String
  pub assertion : String
  pub passed : Bool
  pub severity : String
  pub dependent : Bool
  pub error : Option Error

pub record ValidateResult : Type 0 where
  pub at : ℕ
  pub checks : List CheckResultItem
  pub passed : ℕ
  pub total : ℕ
  pub classification : String
  pub failing_checks : List String

pub record FaultRef : Type 0 where
  pub id : String
  pub applied_at : ℕ

pub record PortInfo : Type 0 where
  pub addr : String
  pub owner : String

pub record ResetSummary : Type 0 where
  pub at : ℕ
  pub tier : String

-- The maps of the source are association lists, in the order of their assignments.
pub record StatusResult : Type 0 where
  pub state : State
  pub active_fault : Option FaultRef
  pub services : List (String × Bool)
  pub ports : List PortInfo
  pub endpoints : List (String × ℕ)
  pub last_validate : Option ValidateSummary
  pub last_reset : Option ResetSummary
  pub reconciled : Bool
  pub unknown : Bool
  pub classification_valid : Bool

-- The result types that a command puts into `CommandResult.Value`.
pub data Value (S : Type 0) : Type 0 where
  status : StatusResult → Value S
  validate : ValidateResult → Value S
  fault_list : FaultListResult → Value S
  fault_info : FaultInfoResult → Value S
  fault_apply : FaultApplyResult → Value S
  reset : ResetResult S → Value S
  provision : ProvisionResult → Value S
  history : HistoryResult → Value S

pub record CommandResult (S : Type 0) : Type 0 where
  pub value : Option (Value S)
  pub exit_code : ℕ
  pub err : Option Error

module _ {S : Type 0} where
  -- A result with an error and no value.
  abbrev pub failed : ℕ → Error → CommandResult S
  failed code e = record { value = none; exit_code = code; err = some e }

  -- A result with a value and no error.
  abbrev pub succeeded : ℕ → Value S → CommandResult S
  succeeded code v = record { value = some v; exit_code = code; err = none }

  -- A call of the audit logger.
  abbrev pub audited : (AuditLogger → AuditLogger) → World S → World S
  audited f w = record w { machine = logged f w.machine }

  -- A warning that is printed on stderr.
  abbrev pub warned : Error → World S → World S
  warned e w = record w { warnings = w.warnings ++ e ∷ [] }

  -- A warning that is printed on stdout.
  abbrev pub noticed : Error → World S → World S
  noticed e w = record w { printed = w.printed ++ e ∷ [] }

  -- `store.Write`: its error, and the world after it.
  abbrev pub store_write : File → World S → Option Error × World S
  store_write f w = let (e, d) = Store.write f w.disk in (e, record w { disk = d })

  -- `lock.Release`
  abbrev pub unlocked : Process → World S → World S
  unlocked p w = record w { locks = Lock.release p w.locks }

  pub acquired :
      Option (Option Error × LockState)
      → Process
      → (World S → CommandResult S × World S)
      → (Error → World S → CommandResult S × World S)
      → World S
      → Option (CommandResult S × World S)
  acquired none p body refuse w = none
  acquired (some (some e, l)) p body refuse w = some (refuse e (record w { locks = l }))
  acquired (some (none, l)) p body refuse w =
      let (result, w') = body (record w { locks = l }) in some (result, unlocked p w')

  -- `if err := lock.Acquire(); err != nil { … }; defer lock.Release()` around the rest of a
  -- command. `none` is an `Acquire` that does not return.
  unfoldable pub with_lock :
      Env S
      → (World S → CommandResult S × World S)
      → (Error → World S → CommandResult S × World S)
      → World S
      → Option (CommandResult S × World S)
  unfolding acquired
  with_lock env body refuse w =
      acquired (Lock.acquire env.lock_fuel env.process w.locks) env.process body refuse w
