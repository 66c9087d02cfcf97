-- ===== src/Catalog/Fault.antt =====
-- internal/catalog/fault.go: the static definition of a fault, and its implementation.
use lab_env.Common.{String, Bool, List}
use lab_env.State.{State}
use lab_env.Executor.{Executor}
use lab_env.Executor.Exec.{Exec}

pub record PostconditionSpec : Type 0 where
  pub behavioral : String
  pub failing_checks : List String
  pub passing_checks : List String

pub record FaultDef : Type 0 where
  pub id : String
  pub layer : String
  pub domain : List String
  pub requires_confirmation : Bool
  pub is_reversible : Bool
  pub reset_tier : String
  pub preconditions : List State
  pub precondition_checks : List String
  pub postcondition : PostconditionSpec
  pub symptom : String
  pub authoritative_signal : String
  pub observable : String
  pub mutation_display : String
  pub reset_action : String

pub record FaultImpl (S : Type 0) : Type 0 where
  pub def : FaultDef
  pub apply : Executor S → Exec S (Unit {0})
  pub recover : Executor S → Exec S (Unit {0})
