-- ===== src/Catalog/ChaosFaults.antt =====
-- internal/catalog/faults.go: the faults that the service injects into itself.
use lab_env.Common.{true, false, [], ◌∷◌}
use lab_env.Common.Bytes.{codes}
use lab_env.Config.{chaos_env_path, service_user, service_group}
use lab_env.State.{State}
use lab_env.Executor.{Op, Executor}
use lab_env.Executor.Exec.{Exec, ◌>>◌, call, wrapped}
use lab_env.Catalog.Fault.{FaultDef, FaultImpl}

-- The static part of F-008.
unfoldable pub def_f008 : FaultDef
def_f008 = record {
  id = "F-008";
  layer = "process";
  domain = "linux" ∷ "os" ∷ [];
  requires_confirmation = true;
  is_reversible = false;
  reset_tier = "R3";
  preconditions = State.conformant ∷ [];
  precondition_checks = [];
  postcondition = record {
    behavioral =
        "App appears healthy to all endpoint checks during fault. The fault only manifests at shutdown — systemctl stop hangs 90 seconds.";
    failing_checks = [];
    passing_checks = "S-001" ∷ "E-001" ∷ "E-002" ∷ [];
  };
  symptom =
      "systemctl stop app hangs 90 seconds (SIGTERM ignored); app serves requests normally during wait";
  authoritative_signal = "systemctl status app showing stop-sigterm → stop-sigkill transition";
  observable =
      "time sudo systemctl stop app takes ~90 seconds; journalctl shows Sent signal SIGTERM followed by Sent signal SIGKILL 90s later";
  mutation_display = "Rebuild binary with FAULT_IGNORE_SIGTERM=true flag enabled; redeploy.";
  reset_action = "Rebuild binary without fault flag; redeploy. Run: lab reset --tier R3";
}

unfoldable pub apply_f008 : {S : Type 0} → Executor S → Exec S (Unit {0})
apply_f008 x = do
  wrapped "writing chaos.env: %w" (
      call x (
        Op.write_file chaos_env_path (codes "CHAOS_IGNORE_SIGTERM=1\n") 0o644 service_user
          service_group))
  call x (Op.systemctl "restart" "app.service")

unfoldable pub recover_f008 : {S : Type 0} → Executor S → Exec S (Unit {0})
recover_f008 x = do
  wrapped "clearing chaos.env: %w"
      (call x (Op.write_file chaos_env_path ([]) 0o644 service_user service_group))
  call x (Op.systemctl "restart" "app.service")

-- F-008
unfoldable pub fault_f008 : {S : Type 0} → FaultImpl S
unfolding def_f008
fault_f008 = record { def = def_f008; apply = apply_f008; recover = recover_f008 }

-- The static part of F-014.
unfoldable pub def_f014 : FaultDef
def_f014 = record {
  id = "F-014";
  layer = "process";
  domain = "linux" ∷ "os" ∷ [];
  requires_confirmation = true;
  is_reversible = false;
  reset_tier = "R3";
  preconditions = State.conformant ∷ [];
  precondition_checks = [];
  postcondition = record {
    behavioral =
        "App serves all endpoints correctly. Zombie accumulation is a resource leak (PID table slots) not an immediate behavioral failure.";
    failing_checks = [];
    passing_checks = [];
  };
  symptom = "ps aux shows growing count of Z-state processes parented to the app";
  authoritative_signal = "ps -eo pid,ppid,stat,comm | grep Z";
  observable =
      "Zombie count increases with each / request; pstree -p $(pgrep server) shows zombie children";
  mutation_display = "Rebuild binary with FAULT_ZOMBIE_CHILDREN=true flag enabled; redeploy.";
  reset_action = "Rebuild binary without fault flag; redeploy. Run: lab reset --tier R3";
}

unfoldable pub apply_f014 : {S : Type 0} → Executor S → Exec S (Unit {0})
apply_f014 x = do
  wrapped "F-014 Apply: writing chaos.env: %w" (
      call x (
        Op.write_file chaos_env_path (codes "CHAOS_ZOMBIE_CHILDREN=1\n") 0o644 service_user
          service_group))
  call x (Op.systemctl "restart" "app.service")

unfoldable pub recover_f014 : {S : Type 0} → Executor S → Exec S (Unit {0})
recover_f014 x = do
  wrapped "clearing chaos.env: %w"
      (call x (Op.write_file chaos_env_path ([]) 0o644 service_user service_group))
  call x (Op.systemctl "restart" "app.service")

-- F-014
unfoldable pub fault_f014 : {S : Type 0} → FaultImpl S
unfolding def_f014
fault_f014 = record { def = def_f014; apply = apply_f014; recover = recover_f014 }

-- The static part of F-020.
unfoldable pub def_f020 : FaultDef
def_f020 = record {
  id = "F-020";
  layer = "service";
  domain = "linux" ∷ "networking" ∷ [];
  requires_confirmation = false;
  is_reversible = true;
  reset_tier = "R2";
  preconditions = State.conformant ∷ [];
  precondition_checks = [];
  postcondition = record {
    behavioral =
        "All requests (except /health) are delayed by 400ms. /health responds immediately.";
    failing_checks = [];
    passing_checks = "S-001" ∷ "E-001" ∷ "E-003" ∷ [];
  };
  symptom =
      "Requests take at least 400ms. /health returns immediately. Telemetry shows chaos_active=true with chaos_modes=[\"latency\"].";
  authoritative_signal = "telemetry.json chaos_modes + curl timing";
  observable =
      "time curl -s http://localhost/ > /dev/null — takes ≥400ms; time curl -s http://localhost/health > /dev/null — takes <50ms";
  mutation_display = "Set CHAOS_LATENCY_MS=400 in /etc/app/chaos.env and restart the service";
  reset_action = "Clear /etc/app/chaos.env and restart the service";
}

unfoldable pub apply_f020 : {S : Type 0} → Executor S → Exec S (Unit {0})
apply_f020 x = do
  wrapped "writing chaos.env: %w" (
      call x (
        Op.write_file chaos_env_path (codes "CHAOS_LATENCY_MS=400\n") 0o644 service_user
          service_group))
  call x (Op.systemctl "restart" "app.service")

unfoldable pub recover_f020 : {S : Type 0} → Executor S → Exec S (Unit {0})
recover_f020 x = do
  wrapped "clearing chaos.env: %w"
      (call x (Op.write_file chaos_env_path ([]) 0o644 service_user service_group))
  call x (Op.systemctl "restart" "app.service")

-- F-020
unfoldable pub fault_f020 : {S : Type 0} → FaultImpl S
unfolding def_f020
fault_f020 = record { def = def_f020; apply = apply_f020; recover = recover_f020 }
