-- ===== src/Executor/Audit.antt =====
-- internal/executor/audit.go: the entries of the append-only audit log.
use Prim.Native.String.{◌++◌ as text_append}
use lab_env.Common.{ℕ, String, Option, none, some, List, ◌++◌, ◌∷◌, [], Bool, if◌then◌else◌}
use lab_env.Common.Errors.{Error}
use lab_env.State.{State}
use lab_env.State.Texts.{state_text}

pub data EntryType : Type 0 where
  executor_op state_transition validation_run reconciliation interrupt error : EntryType

pub record AuditEntry : Type 0 where
  pub ts : ℕ
  pub entry_type : EntryType
  pub command : String
  pub fault_id : String
  pub op : String
  pub op_args : String
  pub exit_code : Option ℕ
  pub duration_ms : ℕ
  pub error : Option Error

-- The log; `none` is a nil logger, which records nothing.
pub record AuditLogger : Type 0 where
  pub command : String
  pub entries : List AuditEntry

-- `fmt.Sprintf("%s → %s", from, to)`
abbrev pub arrow : State → State → String
arrow from to = text_append (state_text from) (text_append " → " (state_text to))

-- `append`: a write that fails is reported on stderr and stops nothing; the model's log is the
-- sequence of the entries that were handed to it.
unfoldable pub append : AuditEntry → AuditLogger → AuditLogger
append entry l = record l { entries = l.entries ++ entry ∷ [] }

plain : ℕ → AuditLogger → EntryType → AuditEntry
plain now l entry_type = record {
  ts = now;
  entry_type = entry_type;
  command = l.command;
  fault_id = "";
  op = "";
  op_args = "";
  exit_code = none;
  duration_ms = 0;
  error = none;
}

module _ (now : ℕ) where
  -- `LogOp`
  unfoldable pub log_op : String → String → ℕ → ℕ → Option Error → AuditLogger → AuditLogger
  unfolding append plain
  log_op op args duration_ms exit_code e l =
      let entry = plain now l EntryType.executor_op in
      append
        (record entry {
          op = op;
          op_args = args;
          exit_code = some exit_code;
          duration_ms = duration_ms;
          error = e;
        })
        l

  -- `LogTransition`
  unfoldable pub log_transition : State → State → String → AuditLogger → AuditLogger
  unfolding append plain
  log_transition from to fault_id l =
      let entry = plain now l EntryType.state_transition in
      append (record entry { fault_id = fault_id; op = arrow from to }) l

  -- `LogReconciliation`
  unfoldable pub log_reconciliation : State → State → AuditLogger → AuditLogger
  unfolding append plain
  log_reconciliation from to l =
      let entry = plain now l EntryType.reconciliation in
      append (record entry { op = arrow from to }) l

  -- `LogInterrupt`
  unfoldable pub log_interrupt : String → Bool → AuditLogger → AuditLogger
  unfolding append plain
  log_interrupt op grace_period_exceeded l =
      let entry = plain now l EntryType.interrupt in
      append
        (record entry {
          op = op;
          op_args =
              if grace_period_exceeded
              then "signal received; grace period exceeded; operation abandoned"
              else "signal received";
        })
        l

  -- `LogError`
  unfoldable pub log_error : String → Error → AuditLogger → AuditLogger
  unfolding append plain
  log_error name detail l =
      let entry = plain now l EntryType.error in
      append (record entry { op = name; error = some detail }) l
