-- ===== src/Conformance/Catalog/Files.antt =====
-- internal/conformance/catalog.go: the F-series and the L-series.
use lab_env.Common.{[], ◌∷◌, nat_eq, string_eq}
use lab_env.Config.{
  app_local_hostname, binary_path, config_path, log_dir, state_dir, tls_cert_path, log_path,
}
use lab_env.Conformance.Check.{Category, CheckLayer, Severity, Check}
use lab_env.Conformance.Catalog.Outcomes.{
  Json, check_file_owner_mode, command_outcome, resolve_outcome, size_outcome, last_line_outcome,
  startup_outcome,
}

-- F-001
unfoldable pub check_f001 : {S : Type 0} → Check S
unfolding check_file_owner_mode
check_f001 = record {
  id = "F-001";
  category = Category.filesystem;
  layer = CheckLayer.structural;
  severity = Severity.blocking;
  assertion = "/opt/app/server exists, owned appuser:appuser, mode 750";
  failure_meaning = "Binary missing, wrong ownership, or not executable";
  observable_command = "stat -c '%U:%G %a' /opt/app/server | grep -q 'appuser:appuser 750'";
  execute = λ o s. check_file_owner_mode o s binary_path "appuser:appuser 750";
}

-- F-002
unfoldable pub check_f002 : {S : Type 0} → Check S
unfolding check_file_owner_mode
check_f002 = record {
  id = "F-002";
  category = Category.filesystem;
  layer = CheckLayer.structural;
  severity = Severity.blocking;
  assertion = "/etc/app/config.yaml exists, owned appuser:appuser, mode 640";
  failure_meaning = "Config missing, wrong ownership, or unreadable by appuser";
  observable_command = "stat -c '%U:%G %a' /etc/app/config.yaml | grep -q 'appuser:appuser 640'";
  execute = λ o s. check_file_owner_mode o s config_path "appuser:appuser 640";
}

-- F-003
unfoldable pub check_f003 : {S : Type 0} → Check S
unfolding check_file_owner_mode
check_f003 = record {
  id = "F-003";
  category = Category.filesystem;
  layer = CheckLayer.structural;
  severity = Severity.blocking;
  assertion = "/var/log/app/ exists, owned appuser:appuser, mode 755";
  failure_meaning = "Log directory missing or wrong permissions";
  observable_command = "stat -c '%U:%G %a' /var/log/app | grep -q 'appuser:appuser 755'";
  execute = λ o s. check_file_owner_mode o s log_dir "appuser:appuser 755";
}

-- F-004
unfoldable pub check_f004 : {S : Type 0} → Check S
unfolding check_file_owner_mode
check_f004 = record {
  id = "F-004";
  category = Category.filesystem;
  layer = CheckLayer.structural;
  severity = Severity.blocking;
  assertion = "/var/lib/app/ exists, owned appuser:appuser, mode 755";
  failure_meaning = "State directory missing or wrong permissions — / will return 500";
  observable_command = "stat -c '%U:%G %a' /var/lib/app | grep -q 'appuser:appuser 755'";
  execute = λ o s. check_file_owner_mode o s state_dir "appuser:appuser 755";
}

-- F-005
unfoldable pub check_f005 : {S : Type 0} → Check S
unfolding command_outcome
check_f005 = record {
  id = "F-005";
  category = Category.filesystem;
  layer = CheckLayer.structural;
  severity = Severity.blocking;
  assertion = "nginx configuration passes syntax check";
  failure_meaning = "nginx config has syntax error; nginx will not reload";
  observable_command = "nginx -t 2>/dev/null";
  execute = λ o s.
      command_outcome (o.run_command "nginx" ("-t" ∷ []) s) "nginx config syntax check failed: %w";
}

-- F-006
unfoldable pub check_f006 : {S : Type 0} → Check S
unfolding command_outcome
check_f006 = record {
  id = "F-006";
  category = Category.filesystem;
  layer = CheckLayer.structural;
  severity = Severity.degraded;
  assertion = "TLS certificate exists and has not expired";
  failure_meaning = "HTTPS will fail; certificate requires renewal";
  observable_command = "openssl x509 -checkend 0 -noout -in /etc/nginx/tls/app.local.crt";
  execute = λ o s.
      command_outcome
        (o.run_command "openssl"
          ("x509" ∷ "-checkend" ∷ "0" ∷ "-noout" ∷ "-in" ∷ tls_cert_path ∷ []) s)
        "TLS certificate expired or missing: %w";
}

-- F-007
unfoldable pub check_f007 : {S : Type 0} → Check S
unfolding resolve_outcome
check_f007 = record {
  id = "F-007";
  category = Category.filesystem;
  layer = CheckLayer.structural;
  severity = Severity.blocking;
  assertion = "app.local resolves to 127.0.0.1";
  failure_meaning = "TLS hostname resolution broken; HTTPS problems will be misattributed";
  observable_command = "getent hosts app.local | grep -q '127.0.0.1'";
  execute = λ o s. resolve_outcome (o.resolve_host app_local_hostname s);
}

-- L-001
unfoldable pub check_l001 : {S : Type 0} → Check S
unfolding size_outcome
check_l001 = record {
  id = "L-001";
  category = Category.log;
  layer = CheckLayer.operational;
  severity = Severity.degraded;
  assertion = "/var/log/app/app.log exists and is non-empty";
  failure_meaning = "No log output — app may not be logging, or log file was deleted";
  observable_command = "test -s /var/log/app/app.log";
  execute = λ o s. size_outcome (o.stat log_path s);
}

-- L-002
unfoldable pub check_l002 : {S : Type 0} → Json → Check S
unfolding last_line_outcome
check_l002 j = record {
  id = "L-002";
  category = Category.log;
  layer = CheckLayer.operational;
  severity = Severity.degraded;
  assertion = "Last line of app.log is valid JSON";
  failure_meaning = "Log is corrupted or format has changed";
  observable_command = "tail -1 /var/log/app/app.log | jq . > /dev/null 2>&1";
  execute = λ o s. last_line_outcome j (o.read_file log_path s);
}

-- L-003
unfoldable pub check_l003 : {S : Type 0} → Check S
unfolding startup_outcome
check_l003 = record {
  id = "L-003";
  category = Category.log;
  layer = CheckLayer.operational;
  severity = Severity.degraded;
  assertion = "app.log contains a startup entry";
  failure_meaning = "App started but startup log was not produced — logging failure";
  observable_command = "grep -q '\"msg\":\"server started\"' /var/log/app/app.log";
  execute = λ o s. startup_outcome (o.read_file log_path s);
}
