-- ===== src/Config.antt =====
-- internal/config/config.go: the canonical paths, modes, owners, services and addresses.
use lab_env.Common.{ℕ, String, List, [], ◌∷◌}

abbrev pub bootstrap_script : String
bootstrap_script = "/opt/lab-env/scripts/bootstrap.sh"

abbrev pub binary_path : String
binary_path = "/opt/app/server"

abbrev pub binary_name : String
binary_name = "server"

abbrev pub config_path : String
config_path = "/etc/app/config.yaml"

abbrev pub chaos_env_path : String
chaos_env_path = "/etc/app/chaos.env"

abbrev pub log_dir : String
log_dir = "/var/log/app"

abbrev pub log_path : String
log_path = "/var/log/app/app.log"

abbrev pub state_dir : String
state_dir = "/var/lib/app"

abbrev pub unit_file_path : String
unit_file_path = "/etc/systemd/system/app.service"

abbrev pub nginx_config_path : String
nginx_config_path = "/etc/nginx/sites-enabled/app"

abbrev pub tls_cert_path : String
tls_cert_path = "/etc/nginx/tls/app.local.crt"

-- A file mode, `fs.FileMode`.
abbrev pub mode_binary : ℕ
mode_binary = 0o750

abbrev pub mode_config : ℕ
mode_config = 0o640

abbrev pub mode_log_dir : ℕ
mode_log_dir = 0o755

abbrev pub mode_log_file : ℕ
mode_log_file = 0o640

abbrev pub mode_state_dir : ℕ
mode_state_dir = 0o755

abbrev pub mode_unit_file : ℕ
mode_unit_file = 0o644

abbrev pub mode_nginx_config : ℕ
mode_nginx_config = 0o644

abbrev pub service_user : String
service_user = "appuser"

abbrev pub service_group : String
service_group = "appuser"

abbrev pub root_user : String
root_user = "root"

abbrev pub root_group : String
root_group = "root"

abbrev pub app_service_name : String
app_service_name = "app.service"

abbrev pub nginx_service_name : String
nginx_service_name = "nginx"

abbrev pub app_bind_addr : String
app_bind_addr = "127.0.0.1:8080"

abbrev pub nginx_http_addr : String
nginx_http_addr = "0.0.0.0:80"

abbrev pub nginx_https_addr : String
nginx_https_addr = "0.0.0.0:443"

abbrev pub app_local_hostname : String
app_local_hostname = "app.local"

-- `R2RestoreFiles`
abbrev pub r2_restore_files : List String
r2_restore_files = config_path ∷ unit_file_path ∷ nginx_config_path ∷ []

-- `R2RestoreModes`
abbrev pub r2_restore_modes : List (String × ℕ)
r2_restore_modes =
    (binary_path, mode_binary)
    ∷ (config_path, mode_config)
    ∷ (state_dir, mode_state_dir)
    ∷ (log_dir, mode_log_dir)
    ∷ []
