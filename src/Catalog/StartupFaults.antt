-- ===== src/Catalog/StartupFaults.antt =====
-- internal/catalog/faults.go: the faults of the files the service needs to start.
use lab_env.Common.{true, false, [], ◌∷◌}
use lab_env.Config.{
  config_path, log_path, binary_path, mode_config, mode_binary, mode_log_file, service_user,
  service_group,
}
use lab_env.State.{State}
use lab_env.Executor.{Op, Executor}
use lab_env.Executor.Exec.{Exec, ◌>>◌, call, attempt}
use lab_env.Catalog.Fault.{FaultDef, FaultImpl}

-- The static part of F-001.
unfoldable pub def_f001 : FaultDef
def_f001 = record {
  id = "F-001";
  layer = "filesystem";
  domain = "linux" ∷ "os" ∷ [];
  requires_confirmation = false;
  is_reversible = true;
  reset_tier = "R2";
  preconditions = State.conformant ∷ [];
  precondition_checks = [];
  postcondition = record {
    behavioral =
        "App cannot start because config is missing. Restart loop with connection refused.";
    failing_checks = "S-001" ∷ "E-001" ∷ "E-002" ∷ "E-003" ∷ "E-004" ∷ "E-005" ∷ [];
    passing_checks = "F-003" ∷ "F-007" ∷ [];
  };
  symptom = "Service enters restart loop; curl localhost/health fails (connection refused)";
  authoritative_signal = "journald — journalctl -u app.service";
  observable =
      "journalctl -u app.service -n 20 shows repeated start failures with config-not-found error; curl localhost/health → connection refused";
  mutation_display = "sudo rm /etc/app/config.yaml";
  reset_action =
      "sudo cp config/config.yaml /etc/app/config.yaml && sudo chown appuser:appuser /etc/app/config.yaml && sudo chmod 640 /etc/app/config.yaml && sudo systemctl restart app";
}

unfoldable pub apply_f001 : {S : Type 0} → Executor S → Exec S (Unit {0})
apply_f001 x = call x (Op.remove config_path)

unfoldable pub recover_f001 : {S : Type 0} → Executor S → Exec S (Unit {0})
recover_f001 x = call x (Op.restore_file config_path)

-- F-001
unfoldable pub fault_f001 : {S : Type 0} → FaultImpl S
unfolding def_f001
fault_f001 = record { def = def_f001; apply = apply_f001; recover = recover_f001 }

-- The static part of F-003.
unfoldable pub def_f003 : FaultDef
def_f003 = record {
  id = "F-003";
  layer = "permissions";
  domain = "linux" ∷ "security" ∷ [];
  requires_confirmation = false;
  is_reversible = true;
  reset_tier = "R2";
  preconditions = State.conformant ∷ [];
  precondition_checks = [];
  postcondition = record {
    behavioral =
        "App cannot read config (permission denied). Same observable symptoms as F-001 but structural check F-002 mode bits distinguish the cause.";
    failing_checks = "S-001" ∷ "E-001" ∷ "E-002" ∷ "E-003" ∷ "E-004" ∷ "E-005" ∷ [];
    passing_checks = "F-002" ∷ "F-007" ∷ [];
  };
  symptom = "Service enters restart loop; journald shows permission denied reading config";
  authoritative_signal = "journald";
  observable =
      "journalctl -u app.service -n 10 shows permission denied error; stat /etc/app/config.yaml shows mode 000";
  mutation_display = "sudo chmod 000 /etc/app/config.yaml";
  reset_action = "sudo chmod 640 /etc/app/config.yaml && sudo systemctl restart app";
}

unfoldable pub apply_f003 : {S : Type 0} → Executor S → Exec S (Unit {0})
apply_f003 x = call x (Op.chmod config_path 0)

unfoldable pub recover_f003 : {S : Type 0} → Executor S → Exec S (Unit {0})
recover_f003 x = do
  call x (Op.chmod config_path mode_config)
  attempt x (Op.systemctl "reset-failed" "app")
  call x (Op.systemctl "restart" "app.service")

-- F-003
unfoldable pub fault_f003 : {S : Type 0} → FaultImpl S
unfolding def_f003
fault_f003 = record { def = def_f003; apply = apply_f003; recover = recover_f003 }

-- The static part of F-005.
unfoldable pub def_f005 : FaultDef
def_f005 = record {
  id = "F-005";
  layer = "permissions";
  domain = "linux" ∷ [];
  requires_confirmation = false;
  is_reversible = true;
  reset_tier = "R2";
  preconditions = State.conformant ∷ [];
  precondition_checks = [];
  postcondition = record {
    behavioral =
        "systemd cannot execute the binary (execute bit removed). Restart loop with exec failure.";
    failing_checks = "S-001" ∷ "E-001" ∷ "E-002" ∷ "E-003" ∷ "E-004" ∷ "E-005" ∷ "F-001" ∷ [];
    passing_checks = "F-002" ∷ "F-007" ∷ [];
  };
  symptom = "Service fails to start; systemctl status app shows exec failure";
  authoritative_signal = "journald";
  observable =
      "journalctl -u app.service -n 5 shows exec format error or permission denied; ls -la /opt/app/server shows 640";
  mutation_display = "sudo chmod 640 /opt/app/server";
  reset_action = "sudo chmod 750 /opt/app/server && sudo systemctl restart app";
}

unfoldable pub apply_f005 : {S : Type 0} → Executor S → Exec S (Unit {0})
apply_f005 x = call x (Op.chmod binary_path 0o640)

unfoldable pub recover_f005 : {S : Type 0} → Executor S → Exec S (Unit {0})
recover_f005 x = do
  call x (Op.chmod binary_path mode_binary)
  call x (Op.systemctl "restart" "app.service")

-- F-005
unfoldable pub fault_f005 : {S : Type 0} → FaultImpl S
unfolding def_f005
fault_f005 = record { def = def_f005; apply = apply_f005; recover = recover_f005 }

-- The static part of F-009.
unfoldable pub def_f009 : FaultDef
def_f009 = record {
  id = "F-009";
  layer = "permissions";
  domain = "linux" ∷ "os" ∷ [];
  requires_confirmation = false;
  is_reversible = true;
  reset_tier = "R2";
  preconditions = State.conformant ∷ [];
  precondition_checks = [];
  postcondition = record {
    behavioral =
        "App cannot open its log file at startup (mode 000). Startup fails before binding.";
    failing_checks =
        "S-001" ∷ "E-001" ∷ "E-002" ∷ "E-003" ∷ "E-004" ∷ "E-005" ∷ "L-001" ∷ "L-002" ∷ "L-003"
        ∷ "F-003" ∷ [];
    passing_checks = "F-002" ∷ [];
  };
  symptom = "Service fails to start; journald shows log file permission denied";
  authoritative_signal = "journald";
  observable =
      "journalctl -u app.service -n 5 shows log file permission denied; stat /var/log/app/app.log shows mode 000";
  mutation_display = "sudo chmod 000 /var/log/app/app.log";
  reset_action =
      "sudo chmod 640 /var/log/app/app.log && sudo chown appuser:appuser /var/log/app/app.log && sudo systemctl restart app";
}

unfoldable pub apply_f009 : {S : Type 0} → Executor S → Exec S (Unit {0})
apply_f009 x = call x (Op.chmod log_path 0)

unfoldable pub recover_f009 : {S : Type 0} → Executor S → Exec S (Unit {0})
recover_f009 x = do
  call x (Op.chmod log_path mode_log_file)
  call x (Op.chown log_path service_user service_group)
  call x (Op.systemctl "restart" "app.service")

-- F-009
unfoldable pub fault_f009 : {S : Type 0} → FaultImpl S
unfolding def_f009
fault_f009 = record { def = def_f009; apply = apply_f009; recover = recover_f009 }
