-- ===== src/Catalog/UnitFaults.antt =====
-- internal/catalog/faults.go: the faults of the unit file and the environment.
use lab_env.Common.{true, false, [], ◌∷◌}
use lab_env.Common.Bytes.{codes, replace_first}
use lab_env.Config.{unit_file_path, mode_unit_file, root_user, root_group}
use lab_env.State.{State}
use lab_env.Executor.{Op, Executor}
use lab_env.Executor.Exec.{Exec, ◌>>=◌, ◌>>◌, call, read_file, wrapped}
use lab_env.Catalog.Fault.{FaultDef, FaultImpl}

-- The static part of F-006.
unfoldable pub def_f006 : FaultDef
def_f006 = record {
  id = "F-006";
  layer = "service";
  domain = "linux" ∷ "os" ∷ [];
  requires_confirmation = false;
  is_reversible = true;
  reset_tier = "R2";
  preconditions = State.conformant ∷ [];
  precondition_checks = [];
  postcondition = record {
    behavioral =
        "App startup validation fails on the environment variable check. journald message explicitly identifies APP_ENV as missing.";
    failing_checks = "S-001" ∷ "E-001" ∷ "E-002" ∷ "E-003" ∷ "E-004" ∷ "E-005" ∷ [];
    passing_checks = "F-002" ∷ [];
  };
  symptom = "Service fails to start; journald shows missing APP_ENV error";
  authoritative_signal = "journald";
  observable =
      "journalctl -u app.service -n 10 shows missing APP_ENV error; systemctl show app --property=Environment shows no APP_ENV";
  mutation_display =
      "Remove Environment=APP_ENV=prod line from /etc/systemd/system/app.service; sudo systemctl daemon-reload && sudo systemctl restart app";
  reset_action =
      "Restore canonical unit file; sudo systemctl daemon-reload && sudo systemctl restart app";
}

unfoldable pub apply_f006 : {S : Type 0} → Executor S → Exec S (Unit {0})
apply_f006 x = do
  contents ← wrapped "reading unit file: %w" (read_file x unit_file_path)
  let modified = replace_first contents (codes "Environment=APP_ENV=prod\n") []
  call x (Op.write_file unit_file_path modified mode_unit_file root_user root_group)
  call x (Op.systemctl "daemon-reload" "")
  call x (Op.systemctl "restart" "app.service")

unfoldable pub recover_f006 : {S : Type 0} → Executor S → Exec S (Unit {0})
recover_f006 x = do
  call x (Op.restore_file unit_file_path)
  call x (Op.systemctl "daemon-reload" "")
  call x (Op.systemctl "restart" "app.service")

-- F-006
unfoldable pub fault_f006 : {S : Type 0} → FaultImpl S
unfolding def_f006
fault_f006 = record { def = def_f006; apply = apply_f006; recover = recover_f006 }

-- The static part of F-013.
unfoldable pub def_f013 : FaultDef
def_f013 = record {
  id = "F-013";
  layer = "service";
  domain = "linux" ∷ [];
  requires_confirmation = false;
  is_reversible = true;
  reset_tier = "R2";
  preconditions = State.conformant ∷ [];
  precondition_checks = [];
  postcondition = record {
    behavioral =
        "Service is enabled (desired state) but not active (runtime state). Demonstrates the critical distinction between systemd desired state and runtime state.";
    failing_checks = "S-001" ∷ "E-001" ∷ "E-002" ∷ "E-003" ∷ "E-004" ∷ "E-005" ∷ [];
    passing_checks = "S-002" ∷ [];
  };
  symptom =
      "systemctl is-enabled app → enabled; systemctl is-active app → failed; service will not start";
  authoritative_signal = "journald + systemctl status app";
  observable =
      "systemctl status app shows failed state and exec error; systemctl is-enabled app → enabled (desired ≠ actual)";
  mutation_display =
      "Replace ExecStart=/opt/app/server with ExecStart=/opt/app/DOESNOTEXIST in unit file; sudo systemctl daemon-reload";
  reset_action =
      "Restore canonical unit file; sudo systemctl daemon-reload && sudo systemctl start app";
}

unfoldable pub apply_f013 : {S : Type 0} → Executor S → Exec S (Unit {0})
apply_f013 x = do
  contents ← wrapped "reading unit file: %w" (read_file x unit_file_path)
  let modified =
      replace_first contents (codes "ExecStart=/opt/app/server")
        (codes "ExecStart=/opt/app/DOESNOTEXIST")
  call x (Op.write_file unit_file_path modified mode_unit_file root_user root_group)
  call x (Op.systemctl "daemon-reload" "")

unfoldable pub recover_f013 : {S : Type 0} → Executor S → Exec S (Unit {0})
recover_f013 x = do
  call x (Op.restore_file unit_file_path)
  call x (Op.systemctl "daemon-reload" "")
  call x (Op.systemctl "start" "app")

-- F-013
unfoldable pub fault_f013 : {S : Type 0} → FaultImpl S
unfolding def_f013
fault_f013 = record { def = def_f013; apply = apply_f013; recover = recover_f013 }

-- The static part of F-017.
unfoldable pub def_f017 : FaultDef
def_f017 = record {
  id = "F-017";
  layer = "service";
  domain = "linux" ∷ "os" ∷ [];
  requires_confirmation = false;
  is_reversible = true;
  reset_tier = "R2";
  preconditions = State.conformant ∷ [];
  precondition_checks = [];
  postcondition = record {
    behavioral =
        "Service does not start. journald error message distinguishes from F-006 — in F-006, the unit file lacks the directive; in F-017, the directive is present but overridden by the system-level environment.";
    failing_checks = "S-001" ∷ "E-001" ∷ "E-002" ∷ "E-003" ∷ "E-004" ∷ "E-005" ∷ [];
    passing_checks = "F-002" ∷ "F-001" ∷ [];
  };
  symptom = "Service fails to start; journald shows APP_ENV is empty or missing error";
  authoritative_signal = "journald";
  observable =
      "journalctl -u app.service -n 5 shows empty APP_ENV error; systemctl show app --property=Environment shows APP_ENV= (empty)";
  mutation_display = "sudo systemctl set-environment APP_ENV=; sudo systemctl restart app";
  reset_action = "sudo systemctl unset-environment APP_ENV && sudo systemctl restart app";
}

unfoldable pub apply_f017 : {S : Type 0} → Executor S → Exec S (Unit {0})
apply_f017 x = do
  wrapped "setting empty APP_ENV: %w"
      (call x (Op.run_mutation "systemctl" ("set-environment" ∷ "APP_ENV=" ∷ [])))
  call x (Op.systemctl "restart" "app.service")

unfoldable pub recover_f017 : {S : Type 0} → Executor S → Exec S (Unit {0})
recover_f017 x = do
  wrapped "unsetting APP_ENV: %w"
      (call x (Op.run_mutation "systemctl" ("unset-environment" ∷ "APP_ENV" ∷ [])))
  call x (Op.systemctl "restart" "app.service")

-- F-017
unfoldable pub fault_f017 : {S : Type 0} → FaultImpl S
unfolding def_f017
fault_f017 = record { def = def_f017; apply = apply_f017; recover = recover_f017 }
