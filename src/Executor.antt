-- ===== src/Executor.antt =====
-- internal/executor: the mutation authority. A method of the interface is a constructor of `Op`,
-- and an executor is an observer with a function that performs an operation.
pub mod Exec
pub mod Audit
pub mod Machine
pub mod Decimal
pub mod Lock
pub mod Real
pub mod Observe
use lab_env.Common.{ℕ, String, List}
use lab_env.Common.Errors.{Result}
use lab_env.Common.Bytes.{Bytes}
use lab_env.Conformance.Observer.{Observer}

pub data Op : Type 0 where
  write_file : String → Bytes → ℕ → String → String → Op
  chmod : String → ℕ → Op
  chown : String → String → String → Op
  remove : String → Op
  mkdir_all : String → ℕ → String → String → Op
  systemctl : String → String → Op
  nginx_reload : Op
  restore_file : String → Op
  run_mutation : String → List String → Op

pub record Executor (S : Type 0) : Type 0 where
  pub observer : Observer S
  pub perform : Op → S → Result (Unit {0}) × S
