-- ===== src/Conformance/Catalog/Services.antt =====
-- internal/conformance/catalog.go: the S-series and the P-series.
use lab_env.Common.{nat_eq, string_eq}
use lab_env.Config.{
  app_service_name, nginx_service_name, binary_name, service_user, app_bind_addr, nginx_http_addr,
  nginx_https_addr,
}
use lab_env.Conformance.Check.{Category, CheckLayer, Severity, Check}
use lab_env.Conformance.Catalog.Outcomes.{flag_outcome, process_outcome, port_outcome}

-- S-001
unfoldable pub check_s001 : {S : Type 0} → Check S
unfolding flag_outcome
check_s001 = record {
  id = "S-001";
  category = Category.system_state;
  layer = CheckLayer.structural;
  severity = Severity.blocking;
  assertion = "app.service is active";
  failure_meaning = "App process is not running";
  observable_command = "systemctl is-active app.service --quiet";
  execute = λ o s.
      flag_outcome (o.service_active app_service_name s) "checking app.service: %w"
        "app.service is not active";
}

-- S-002
unfoldable pub check_s002 : {S : Type 0} → Check S
unfolding flag_outcome
check_s002 = record {
  id = "S-002";
  category = Category.system_state;
  layer = CheckLayer.structural;
  severity = Severity.blocking;
  assertion = "app.service is enabled";
  failure_meaning = "App will not start on reboot";
  observable_command = "systemctl is-enabled app.service --quiet";
  execute = λ o s.
      flag_outcome (o.service_enabled app_service_name s) "checking app.service enablement: %w"
        "app.service is not enabled";
}

-- S-003
unfoldable pub check_s003 : {S : Type 0} → Check S
unfolding flag_outcome
check_s003 = record {
  id = "S-003";
  category = Category.system_state;
  layer = CheckLayer.structural;
  severity = Severity.blocking;
  assertion = "nginx is active";
  failure_meaning = "Proxy is not running; no traffic reaches app";
  observable_command = "systemctl is-active nginx --quiet";
  execute = λ o s.
      flag_outcome (o.service_active nginx_service_name s) "checking nginx state: %w"
        "nginx is not active";
}

-- S-004
unfoldable pub check_s004 : {S : Type 0} → Check S
unfolding flag_outcome
check_s004 = record {
  id = "S-004";
  category = Category.system_state;
  layer = CheckLayer.structural;
  severity = Severity.blocking;
  assertion = "nginx is enabled";
  failure_meaning = "nginx will not start on reboot";
  observable_command = "systemctl is-enabled nginx --quiet";
  execute = λ o s.
      flag_outcome (o.service_enabled nginx_service_name s) "checking nginx enablement: %w"
        "nginx is not enabled";
}

-- P-001
unfoldable pub check_p001 : {S : Type 0} → Check S
unfolding process_outcome
check_p001 = record {
  id = "P-001";
  category = Category.process;
  layer = CheckLayer.behavioral;
  severity = Severity.blocking;
  assertion = "App process runs as appuser";
  failure_meaning = "Service is running with wrong identity — security violation";
  observable_command = "pgrep -u appuser server > /dev/null";
  execute = λ o s. process_outcome (o.check_process binary_name service_user s);
}

-- P-002
unfoldable pub check_p002 : {S : Type 0} → Check S
unfolding port_outcome
check_p002 = record {
  id = "P-002";
  category = Category.process;
  layer = CheckLayer.behavioral;
  severity = Severity.blocking;
  assertion = "App listens on 127.0.0.1:8080";
  failure_meaning = "App bound to wrong address or port; nginx upstream unreachable";
  observable_command = "ss -ltnp | grep -q '127.0.0.1:8080'";
  execute =
      λ o s. port_outcome (o.check_port app_bind_addr s) "checking port 8080: %w" app_bind_addr;
}

-- P-003
unfoldable pub check_p003 : {S : Type 0} → Check S
unfolding port_outcome
check_p003 = record {
  id = "P-003";
  category = Category.process;
  layer = CheckLayer.behavioral;
  severity = Severity.blocking;
  assertion = "nginx listens on 0.0.0.0:80";
  failure_meaning = "No HTTP traffic can reach the system";
  observable_command = "ss -ltnp | grep -q '0.0.0.0:80'";
  execute =
      λ o s. port_outcome (o.check_port nginx_http_addr s) "checking port 80: %w" nginx_http_addr;
}

-- P-004
unfoldable pub check_p004 : {S : Type 0} → Check S
unfolding port_outcome
check_p004 = record {
  id = "P-004";
  category = Category.process;
  layer = CheckLayer.behavioral;
  severity = Severity.blocking;
  assertion = "nginx listens on 0.0.0.0:443";
  failure_meaning = "No HTTPS traffic can reach the system";
  observable_command = "ss -ltnp | grep -q '0.0.0.0:443'";
  execute = λ o s.
      port_outcome (o.check_port nginx_https_addr s) "checking port 443: %w" nginx_https_addr;
}
