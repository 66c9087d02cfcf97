-- ===== src/Executor/Machine.antt =====
-- The system together with the audit log: the executor and the commands share one logger.
use lab_env.Common.{Option}
use lab_env.Executor.Audit.{AuditLogger}
use mathlib.Core.Option

pub record Machine (S : Type 0) : Type 0 where
  pub sys : S
  pub audit : Option AuditLogger

-- `if c.audit != nil { … }`
abbrev pub logged : {S : Type 0} → (AuditLogger → AuditLogger) → Machine S → Machine S
logged f m = record m { audit = Option.map f m.audit }
