-- ===== src/Conformance/Observer.antt =====
-- internal/conformance/observer.go: the read-only view of the system. `S` is the system's state,
-- which no observation changes.
use lab_env.Common.{ℕ, String, Bool, List}
use lab_env.Common.Errors.{Result}
use lab_env.Common.Bytes.{Bytes}

pub record ProcessStatus : Type 0 where
  pub running : Bool
  pub pid : ℕ
  pub user : String

pub record PortStatus : Type 0 where
  pub listening : Bool
  pub addr : String

pub record EndpointStatus : Type 0 where
  pub status_code : ℕ
  pub reachable : Bool
  pub body : Bytes

-- What the checks read of `fs.FileInfo`.
pub record FileInfo : Type 0 where
  pub size : ℕ

pub record Observer (S : Type 0) : Type 0 where
  pub stat : String → S → Result FileInfo
  pub read_file : String → S → Result Bytes
  pub check_process : String → String → S → Result ProcessStatus
  pub check_port : String → S → Result PortStatus
  pub check_endpoint : String → Bool → S → Result EndpointStatus
  pub resolve_host : String → S → Result String
  pub service_active : String → S → Result Bool
  pub service_enabled : String → S → Result Bool
  pub run_command : String → List String → S → Result Bytes
