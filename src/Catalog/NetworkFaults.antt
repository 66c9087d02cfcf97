-- ===== src/Catalog/NetworkFaults.antt =====
-- internal/catalog/faults.go: the faults of ports, proxy and firewall.
use lab_env.Common.{true, false, [], ◌∷◌, ◌++◌}
use lab_env.Common.Bytes.{codes, replace_first}
use lab_env.Config.{
  config_path, nginx_config_path, mode_config, mode_nginx_config, service_user, service_group,
  root_user, root_group, app_bind_addr,
}
use lab_env.State.{State}
use lab_env.Executor.{Op, Executor}
use lab_env.Executor.Exec.{Exec, ◌>>=◌, ◌>>◌, call, attempt, read_file, wrapped}
use lab_env.Catalog.Fault.{FaultDef, FaultImpl}

-- The static part of F-002.
unfoldable pub def_f002 : FaultDef
def_f002 = record {
  id = "F-002";
  layer = "config/socket";
  domain = "linux" ∷ "networking" ∷ [];
  requires_confirmation = false;
  is_reversible = true;
  reset_tier = "R2";
  preconditions = State.conformant ∷ [];
  precondition_checks = [];
  postcondition = record {
    behavioral =
        "App is running and healthy from its own perspective (reachable directly on 9090) but unreachable via nginx (which expects 8080).";
    failing_checks = "P-002" ∷ "E-001" ∷ "E-002" ∷ "E-003" ∷ "E-004" ∷ "E-005" ∷ [];
    passing_checks = "S-001" ∷ "P-001" ∷ "F-002" ∷ [];
  };
  symptom = "nginx returns 502; app process is running and believes it is healthy";
  authoritative_signal = "ss -ltnp + nginx error log";
  observable =
      "ss -ltnp | grep 9090 shows app on wrong port; curl -I localhost → 502 with X-Proxy: nginx; curl 127.0.0.1:9090/health → 200 (direct)";
  mutation_display =
      "Change server.addr in /etc/app/config.yaml from 127.0.0.1:8080 to 127.0.0.1:9090; sudo systemctl restart app";
  reset_action = "Restore canonical config.yaml, restart app";
}

unfoldable pub apply_f002 : {S : Type 0} → Executor S → Exec S (Unit {0})
apply_f002 x = do
  contents ← wrapped "reading config: %w" (read_file x config_path)
  let modified = replace_first contents (codes app_bind_addr) (codes "127.0.0.1:9090")
  wrapped "writing config: %w"
      (call x (Op.write_file config_path modified mode_config service_user service_group))
  call x (Op.systemctl "restart" "app.service")

unfoldable pub recover_f002 : {S : Type 0} → Executor S → Exec S (Unit {0})
recover_f002 x = do
  call x (Op.restore_file config_path)
  call x (Op.systemctl "restart" "app.service")

-- F-002
unfoldable pub fault_f002 : {S : Type 0} → FaultImpl S
unfolding def_f002
fault_f002 = record { def = def_f002; apply = apply_f002; recover = recover_f002 }

-- The static part of F-007.
unfoldable pub def_f007 : FaultDef
def_f007 = record {
  id = "F-007";
  layer = "proxy/config";
  domain = "linux" ∷ "networking" ∷ [];
  requires_confirmation = false;
  is_reversible = true;
  reset_tier = "R2";
  preconditions = State.conformant ∷ [];
  precondition_checks = [];
  postcondition = record {
    behavioral =
        "App is healthy on 8080. nginx is misconfigured to upstream port 9090. Distinguishable from F-002 because P-002 passes (app on correct port).";
    failing_checks = "E-001" ∷ "E-002" ∷ "E-003" ∷ "E-004" ∷ "E-005" ∷ [];
    passing_checks = "S-001" ∷ "P-001" ∷ "P-002" ∷ [];
  };
  symptom = "nginx returns 502; app is running correctly on 8080";
  authoritative_signal = "nginx error log + ss -ltnp";
  observable =
      "ss -ltnp | grep 8080 shows app running correctly; curl -I localhost → 502; curl 127.0.0.1:8080/health → 200 (direct)";
  mutation_display =
      "Change upstream app_backend server from 127.0.0.1:8080 to 127.0.0.1:9090 in /etc/nginx/sites-enabled/app; sudo nginx -s reload";
  reset_action = "Restore canonical nginx config; sudo nginx -s reload";
}

unfoldable pub apply_f007 : {S : Type 0} → Executor S → Exec S (Unit {0})
apply_f007 x = do
  contents ← wrapped "reading nginx config: %w" (read_file x nginx_config_path)
  let modified =
      replace_first contents (codes "server 127.0.0.1:8080;") (codes "server 127.0.0.1:9090;")
  call x (Op.write_file nginx_config_path modified mode_nginx_config root_user root_group)
  call x Op.nginx_reload

unfoldable pub recover_f007 : {S : Type 0} → Executor S → Exec S (Unit {0})
recover_f007 x = do call x (Op.restore_file nginx_config_path); call x Op.nginx_reload

-- F-007
unfoldable pub fault_f007 : {S : Type 0} → FaultImpl S
unfolding def_f007
fault_f007 = record { def = def_f007; apply = apply_f007; recover = recover_f007 }

-- The static part of F-015.
unfoldable pub def_f015 : FaultDef
def_f015 = record {
  id = "F-015";
  layer = "proxy";
  domain = "linux" ∷ "networking" ∷ [];
  requires_confirmation = false;
  is_reversible = true;
  reset_tier = "R2";
  preconditions = State.conformant ∷ [];
  precondition_checks = [];
  postcondition = record {
    behavioral =
        "Endpoints continue to work (old config persists). Only F-005 (nginx config syntax) fails.";
    failing_checks = "F-005" ∷ [];
    passing_checks = "S-003" ∷ "P-003" ∷ "P-004" ∷ "E-001" ∷ "E-002" ∷ [];
  };
  symptom = "nginx reload fails; existing nginx worker processes continue with old config";
  authoritative_signal = "nginx -t output";
  observable =
      "sudo nginx -t shows configuration error; sudo nginx -s reload returns error; curl localhost/health → 200 (old config still active)";
  mutation_display =
      "Add invalid directive 'invalid_directive on;' to /etc/nginx/sites-enabled/app; attempt sudo nginx -s reload";
  reset_action = "Restore canonical nginx config; sudo nginx -s reload";
}

unfoldable pub apply_f015 : {S : Type 0} → Executor S → Exec S (Unit {0})
apply_f015 x = do
  contents ← wrapped "reading nginx config: %w" (read_file x nginx_config_path)
  call x (
      Op.write_file nginx_config_path (contents ++ codes "\ninvalid_directive on;\n")
        mode_nginx_config root_user root_group)
  attempt x Op.nginx_reload

unfoldable pub recover_f015 : {S : Type 0} → Executor S → Exec S (Unit {0})
recover_f015 x = do call x (Op.restore_file nginx_config_path); call x Op.nginx_reload

-- F-015
unfoldable pub fault_f015 : {S : Type 0} → FaultImpl S
unfolding def_f015
fault_f015 = record { def = def_f015; apply = apply_f015; recover = recover_f015 }

-- The static part of F-016.
unfoldable pub def_f016 : FaultDef
def_f016 = record {
  id = "F-016";
  layer = "socket/config";
  domain = "linux" ∷ "networking" ∷ "security" ∷ [];
  requires_confirmation = false;
  is_reversible = true;
  reset_tier = "R2";
  preconditions = State.conformant ∷ [];
  precondition_checks = [];
  postcondition = record {
    behavioral =
        "All nginx-proxied endpoints continue to work. App is additionally exposed directly on all interfaces. P-002 check for 127.0.0.1:8080 fails (app is on 0.0.0.0:8080 instead).";
    failing_checks = "P-002" ∷ [];
    passing_checks = "S-001" ∷ "E-001" ∷ "E-002" ∷ "E-003" ∷ "E-004" ∷ [];
  };
  symptom = "App is accessible directly on port 8080 from any interface, bypassing nginx";
  authoritative_signal = "ss -ltnp";
  observable =
      "ss -ltnp | grep 8080 shows 0.0.0.0:8080 instead of 127.0.0.1:8080; direct access bypasses nginx (X-Proxy: nginx header absent)";
  mutation_display =
      "Change server.addr in /etc/app/config.yaml from 127.0.0.1:8080 to 0.0.0.0:8080; sudo systemctl restart app";
  reset_action = "Restore canonical config.yaml; sudo systemctl restart app";
}

unfoldable pub apply_f016 : {S : Type 0} → Executor S → Exec S (Unit {0})
apply_f016 x = do
  contents ← wrapped "reading config: %w" (read_file x config_path)
  let modified = replace_first contents (codes "127.0.0.1:8080") (codes "0.0.0.0:8080")
  call x (Op.write_file config_path modified mode_config service_user service_group)
  call x (Op.systemctl "restart" "app.service")

unfoldable pub recover_f016 : {S : Type 0} → Executor S → Exec S (Unit {0})
recover_f016 x = do
  call x (Op.restore_file config_path)
  call x (Op.systemctl "restart" "app.service")

-- F-016
unfoldable pub fault_f016 : {S : Type 0} → FaultImpl S
unfolding def_f016
fault_f016 = record { def = def_f016; apply = apply_f016; recover = recover_f016 }

-- The static part of F-021.
unfoldable pub def_f021 : FaultDef
def_f021 = record {
  id = "F-021";
  layer = "network";
  domain = "linux" ∷ "networking" ∷ [];
  requires_confirmation = false;
  is_reversible = true;
  reset_tier = "R2";
  preconditions = State.conformant ∷ [];
  precondition_checks = [];
  postcondition = record {
    behavioral =
        "nginx cannot reach the app. All proxied endpoints return 502. Direct access to the app on 127.0.0.1:8080 still works.";
    failing_checks = "E-001" ∷ "E-002" ∷ "E-003" ∷ "E-004" ∷ "E-005" ∷ [];
    passing_checks = "S-001" ∷ "P-001" ∷ "P-002" ∷ [];
  };
  symptom =
      "curl http://localhost/ returns 502. curl http://127.0.0.1:8080/health returns 200. nft list chain shows a drop rule.";
  authoritative_signal = "nft list chain inet lab_filter LAB-FAULT + curl";
  observable =
      "nft list chain inet lab_filter LAB-FAULT — shows drop rule; curl -I localhost → 502; curl 127.0.0.1:8080/health → 200";
  mutation_display = "nft add rule inet lab_filter LAB-FAULT tcp dport 8080 drop";
  reset_action = "nft flush chain inet lab_filter LAB-FAULT";
}

unfoldable pub apply_f021 : {S : Type 0} → Executor S → Exec S (Unit {0})
apply_f021 x = call x (
    Op.run_mutation "nft" (
      "add" ∷ "rule" ∷ "inet" ∷ "lab_filter" ∷ "LAB-FAULT" ∷ "iif" ∷ "enp0s8" ∷ "tcp" ∷ "dport"
      ∷ "8080" ∷ "drop" ∷ []))

unfoldable pub recover_f021 : {S : Type 0} → Executor S → Exec S (Unit {0})
recover_f021 x =
    call x (Op.run_mutation "nft" ("flush" ∷ "chain" ∷ "inet" ∷ "lab_filter" ∷ "LAB-FAULT" ∷ []))

-- F-021
unfoldable pub fault_f021 : {S : Type 0} → FaultImpl S
unfolding def_f021
fault_f021 = record { def = def_f021; apply = apply_f021; recover = recover_f021 }
