-- ===== src/Executor/Real/Audited.antt =====
-- internal/executor/real.go: what the audit log has of an operation, and which files can be restored.
use lab_env.Common.{
  ℕ, String, Bool, true, false, ◌≡◌, ◌≢◌, ◌⊎◌, inl, inr, Option, none, some, [], ◌∷◌, ◌++◌,
  all_pass, is_some, refl, arith,
}
use lab_env.Common.Errors.{Result, ok, err}
use lab_env.Config.{r2_restore_files}
use lab_env.Executor.{Op}
use lab_env.Executor.Audit.{EntryType, AuditEntry, AuditLogger, log_op}
use lab_env.Executor.Machine.{Machine, logged}
use lab_env.Executor.Real.{
  reload, System, CanonicalFile, Embedded, canonical, perform_real, operate, write_file,
  reload_checked, restore, error_of, code_of,
}

-- The operations that can end without an entry.
abbrev pub may_be_silent : Op → Bool
may_be_silent Op.nginx_reload = true
may_be_silent (Op.restore_file path) = true
may_be_silent _ = false

-- One entry was appended, and it has the error and the exit code of the operation.
pub record Entered {S : Type 0} (l : AuditLogger) (out : Result (Unit {0}) × Machine S)
    : Type 0 where
  pub entry : AuditEntry
  pub appended : out.1.audit ≡ some (record l { entries = l.entries ++ entry ∷ [] })
  pub has_error : entry.error ≡ error_of out.0
  pub has_code : entry.exit_code ≡ some (code_of out.0)

-- No entry was appended, and the operation failed.
pub record Silent {S : Type 0} (l : AuditLogger) (out : Result (Unit {0}) × Machine S)
    : Type 0 where
  pub unchanged : out.1.audit ≡ some l
  pub failed : error_of out.0 ≢ none

module _ {S : Type 0} (x : System S) (files : Embedded) (now elapsed : ℕ) where
  -- The entry of an operation.
  abbrev entry_of : String → String → Result (Unit {0}) → AuditLogger → AuditEntry
  entry_of name args r l = record {
    ts = now;
    entry_type = EntryType.executor_op;
    command = l.command;
    fault_id = "";
    op = name;
    op_args = args;
    exit_code = some (code_of r);
    duration_ms = elapsed;
    error = error_of r;
  }

  log_op-Entered :
      (name args : String) (r : Result (Unit {0})) (m : Machine S) (l : AuditLogger)
      → m.audit ≡ some l
      → Entered l (r, logged (log_op now name args elapsed (code_of r) (error_of r)) m)
  unfolding log_op
  log_op-Entered name args r m l h = record {
    entry = entry_of name args r l;
    appended = rw h refl;
    has_error = refl;
    has_code = refl;
  }

  -- An operation that is not silent where it may not be.
  abbrev pub Logged : Op → AuditLogger → Result (Unit {0}) × Machine S → Type 0
  Logged op l out = Entered l out ⊎ ((may_be_silent op ≡ true) × Silent l out)

  reload_checked-Logged :
      (r : Result (Unit {0})) (m : Machine S) (l : AuditLogger)
      → m.audit ≡ some l
      → Logged Op.nginx_reload l (reload_checked x files now elapsed r m)
  unfolding reload_checked operate
  reload_checked-Logged (ok done) m l h = inl (log_op-Entered _ _ _ _ l h)
  reload_checked-Logged (err e) m l h =
      inr (refl, record { unchanged = h; failed = λ e'. ground (arith, e') })

  restore-Logged :
      (path : String) (f : Option CanonicalFile) (m : Machine S) (l : AuditLogger)
      → m.audit ≡ some l
      → Logged (Op.restore_file path) l (restore x files now elapsed path f m)
  unfolding restore write_file operate
  restore-Logged path none m l h =
      inr (refl, record { unchanged = h; failed = λ e'. ground (arith, e') })
  restore-Logged path (some f) m l h = inl (log_op-Entered _ _ _ _ l h)

  pub perform_real-Logged :
      (op : Op) (m : Machine S) (l : AuditLogger)
      → m.audit ≡ some l
      → Logged op l (perform_real x files now elapsed op m)
  unfolding perform_real reload write_file operate
  perform_real-Logged (Op.write_file path bytes mode owner group) m l h =
      inl (log_op-Entered _ _ _ _ l h)
  perform_real-Logged (Op.chmod path mode) m l h = inl (log_op-Entered _ _ _ _ l h)
  perform_real-Logged (Op.chown path owner group) m l h = inl (log_op-Entered _ _ _ _ l h)
  perform_real-Logged (Op.remove path) m l h = inl (log_op-Entered _ _ _ _ l h)
  perform_real-Logged (Op.mkdir_all path mode owner group) m l h = inl (log_op-Entered _ _ _ _ l h)
  perform_real-Logged (Op.systemctl action unit) m l h = inl (log_op-Entered _ _ _ _ l h)
  perform_real-Logged Op.nginx_reload m l h = reload_checked-Logged _ _ l h
  perform_real-Logged (Op.restore_file path) m l h =
      restore-Logged path (canonical files path) m l h
  perform_real-Logged (Op.run_mutation cmd args) m l h = inl (log_op-Entered _ _ _ _ l h)

-- Each file that the tier R2 restores has canonical content.
pub canonical-r2_restore_files :
    (files : Embedded) → all_pass (λ path. is_some (canonical files path)) r2_restore_files ≡ true
unfolding canonical
canonical-r2_restore_files files = refl
