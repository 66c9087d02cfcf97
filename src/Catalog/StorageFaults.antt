-- ===== src/Catalog/StorageFaults.antt =====
-- internal/catalog/faults.go: the faults of the state directory and the log.
use Prim.Native.String.{◌++◌ as text_append}
use lab_env.Executor.Decimal.{decimal_text}
use lab_env.Common.{ℕ, zero, suc, ◌+◌, true, false, [], ◌∷◌}
use lab_env.Common.Errors.{Result, ok, err, errorf, number, cause, nil}
use lab_env.Config.{log_path, state_dir, mode_state_dir, service_user, service_group}
use lab_env.State.{State}
use lab_env.Executor.{Op, Executor}
use lab_env.Executor.Exec.{Exec, ◌>>=◌, call}
use lab_env.Catalog.Fault.{FaultDef, FaultImpl}

-- The wrapped error of one round of the loop.
inode_error : ℕ → Result (Unit {0}) → Result (Unit {0})
inode_error i (ok done) = ok done
inode_error i (err e) =
    err (errorf "creating inode exhaustion file %d: %w" (number i (cause e nil)))

write_marker : {S : Type 0} → Executor S → ℕ → Exec S (Unit {0})
unfolding inode_error
write_marker x i s =
    let path = text_append state_dir (text_append "/file_" (decimal_text i)) in
    let (r, s') = x.perform (Op.write_file path [] 0o644 service_user service_group) s in
    (inode_error i r, s')

-- The loop `for i := 1; i <= 100000; i++`, with the rounds that are left and `i`.
pub exhaust_inodes : {S : Type 0} → Executor S → ℕ → ℕ → Exec S (Unit {0})
unfolding write_marker
exhaust_inodes x zero i s = (ok tt, s)
exhaust_inodes x (suc rounds) i s =
    let more = λ (done : Unit {0}). exhaust_inodes x rounds (i + 1) in (write_marker x i >>= more) s

-- The static part of F-004.
unfoldable pub def_f004 : FaultDef
def_f004 = record {
  id = "F-004";
  layer = "permissions";
  domain = "linux" ∷ "os" ∷ [];
  requires_confirmation = false;
  is_reversible = true;
  reset_tier = "R2";
  preconditions = State.conformant ∷ [];
  precondition_checks = [];
  postcondition = record {
    behavioral =
        "/health returns 200 (service is alive); / returns 500 (state write fails). Health/ready split is the diagnostic signal.";
    failing_checks = "E-002" ∷ "F-004" ∷ [];
    passing_checks = "S-001" ∷ "E-001" ∷ "E-003" ∷ [];
  };
  symptom = "/health returns 200; / returns 500; app continues running";
  authoritative_signal = "app.log";
  observable =
      "curl localhost/health → 200; curl localhost/ → 500; tail -5 /var/log/app/app.log shows \"level\":\"error\",\"msg\":\"state write failed\"";
  mutation_display = "sudo chmod 000 /var/lib/app/";
  reset_action = "sudo chmod 755 /var/lib/app/";
}

unfoldable pub apply_f004 : {S : Type 0} → Executor S → Exec S (Unit {0})
apply_f004 x = call x (Op.chmod state_dir 0)

unfoldable pub recover_f004 : {S : Type 0} → Executor S → Exec S (Unit {0})
recover_f004 x = call x (Op.chmod state_dir mode_state_dir)

-- F-004
unfoldable pub fault_f004 : {S : Type 0} → FaultImpl S
unfolding def_f004
fault_f004 = record { def = def_f004; apply = apply_f004; recover = recover_f004 }

-- The static part of F-010.
unfoldable pub def_f010 : FaultDef
def_f010 = record {
  id = "F-010";
  layer = "filesystem";
  domain = "linux" ∷ "os" ∷ [];
  requires_confirmation = false;
  is_reversible = true;
  reset_tier = "R1";
  preconditions = State.conformant ∷ [];
  precondition_checks = "P-001" ∷ [];
  postcondition = record {
    behavioral =
        "App is alive and serving requests. Log file is unlinked (link count 0) but inode held open by the app process.";
    failing_checks = "L-001" ∷ "L-002" ∷ "L-003" ∷ [];
    passing_checks = "S-001" ∷ "P-001" ∷ "P-002" ∷ "E-001" ∷ "E-002" ∷ [];
  };
  symptom = "app.log does not exist on disk; app continues running; disk space held by open fd";
  authoritative_signal = "lsof -p $(pgrep server)";
  observable =
      "ls /var/log/app/ shows no app.log; lsof +L1 shows app process holding deleted file descriptor; curl localhost/health → 200";
  mutation_display = "sudo rm /var/log/app/app.log (while service is running)";
  reset_action = "sudo systemctl restart app (recreates the log file on startup)";
}

unfoldable pub apply_f010 : {S : Type 0} → Executor S → Exec S (Unit {0})
apply_f010 x = call x (Op.remove log_path)

unfoldable pub recover_f010 : {S : Type 0} → Executor S → Exec S (Unit {0})
recover_f010 x = call x (Op.systemctl "restart" "app.service")

-- F-010
unfoldable pub fault_f010 : {S : Type 0} → FaultImpl S
unfolding def_f010
fault_f010 = record { def = def_f010; apply = apply_f010; recover = recover_f010 }

-- The static part of F-018.
unfoldable pub def_f018 : FaultDef
def_f018 = record {
  id = "F-018";
  layer = "filesystem";
  domain = "linux" ∷ "os" ∷ [];
  requires_confirmation = false;
  is_reversible = true;
  reset_tier = "R2";
  preconditions = State.conformant ∷ [];
  precondition_checks = [];
  postcondition = record {
    behavioral =
        "App is running but / fails (cannot create the state file touch). /health continues to return 200. Demonstrates the inode/block distinction.";
    failing_checks = "E-002" ∷ "F-004" ∷ [];
    passing_checks = "S-001" ∷ "E-001" ∷ "E-003" ∷ [];
  };
  symptom =
      "Filesystem reports inode exhaustion; new files cannot be created despite available disk blocks";
  authoritative_signal = "df -i";
  observable =
      "df -i /var/lib/app shows inode usage near 100%; touch /var/lib/app/test → No space left on device despite df -h showing available blocks; app / endpoint returns 500";
  mutation_display = "for i in $(seq 1 100000); do sudo touch /var/lib/app/file_$i; done";
  reset_action = "sudo rm /var/lib/app/file_*";
}

unfoldable pub apply_f018 : {S : Type 0} → Executor S → Exec S (Unit {0})
apply_f018 x = exhaust_inodes x 100000 1

unfoldable pub recover_f018 : {S : Type 0} → Executor S → Exec S (Unit {0})
recover_f018 x = call x (Op.run_mutation "sh" ("-c" ∷ "rm -f /var/lib/app/file_*" ∷ []))

-- F-018
unfoldable pub fault_f018 : {S : Type 0} → FaultImpl S
unfolding def_f018
fault_f018 = record { def = def_f018; apply = apply_f018; recover = recover_f018 }

-- The static part of F-019.
unfoldable pub def_f019 : FaultDef
def_f019 = record {
  id = "F-019";
  layer = "filesystem";
  domain = "linux" ∷ "os" ∷ [];
  requires_confirmation = false;
  is_reversible = true;
  reset_tier = "R2";
  preconditions = State.conformant ∷ [];
  precondition_checks = [];
  postcondition = record {
    behavioral =
        "The loopback mount is full. GET / returns 500 because state file writes fail. GET /health returns 200.";
    failing_checks = "E-002" ∷ "F-004" ∷ [];
    passing_checks = "S-001" ∷ "E-001" ∷ "E-003" ∷ [];
  };
  symptom =
      "df -h /var/lib/app shows 100% usage. curl http://localhost/ → 500. curl http://localhost/health → 200.";
  authoritative_signal = "df -h /var/lib/app";
  observable =
      "df -h /var/lib/app — 100%% usage; curl -s localhost/ → {\"status\":\"error\",\"msg\":\"state write failed\"}; curl -s localhost/health → {\"status\":\"ok\"}";
  mutation_display = "dd if=/dev/zero of=/var/lib/app/fill bs=1M count=100";
  reset_action = "rm /var/lib/app/fill";
}

unfoldable pub apply_f019 : {S : Type 0} → Executor S → Exec S (Unit {0})
apply_f019 x =
    call x
      (Op.run_mutation "dd" ("if=/dev/zero" ∷ "of=/var/lib/app/fill" ∷ "bs=1M" ∷ "count=100" ∷ []))

unfoldable pub recover_f019 : {S : Type 0} → Executor S → Exec S (Unit {0})
recover_f019 x = call x (Op.run_mutation "rm" ("-f" ∷ "/var/lib/app/fill" ∷ []))

-- F-019
unfoldable pub fault_f019 : {S : Type 0} → FaultImpl S
unfolding def_f019
fault_f019 = record { def = def_f019; apply = apply_f019; recover = recover_f019 }
