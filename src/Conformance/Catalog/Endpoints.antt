-- ===== src/Conformance/Catalog/Endpoints.antt =====
-- internal/conformance/catalog.go: the E-series and the H-series.
use lab_env.Common.{true, false, [], ◌∷◌, nat_eq, string_eq}
use lab_env.Conformance.Check.{Category, CheckLayer, Severity, Check}
use lab_env.Conformance.Catalog.Outcomes.{
  Json, status_outcome, health_body_outcome, proxy_header_outcome, tls_outcome, headers_outcome,
  reset_outcome,
}

-- E-001
unfoldable pub check_e001 : {S : Type 0} → Check S
unfolding status_outcome
check_e001 = record {
  id = "E-001";
  category = Category.endpoint;
  layer = CheckLayer.behavioral;
  severity = Severity.blocking;
  assertion = "GET /health returns HTTP 200";
  failure_meaning = "App is not serving health checks; process may be running but not functional";
  observable_command = "curl -sf http://localhost/health > /dev/null";
  execute = λ o s.
      status_outcome (o.check_endpoint "http://localhost/health" false s) "reaching /health: %w"
        "/health returned %d, want 200";
}

-- E-002
unfoldable pub check_e002 : {S : Type 0} → Check S
unfolding status_outcome
check_e002 = record {
  id = "E-002";
  category = Category.endpoint;
  layer = CheckLayer.behavioral;
  severity = Severity.blocking;
  assertion = "GET / returns HTTP 200";
  failure_meaning = "Primary request path is failing";
  observable_command = "curl -sf http://localhost/ > /dev/null";
  execute = λ o s.
      status_outcome (o.check_endpoint "http://localhost/" false s) "reaching /: %w"
        "/ returned %d, want 200";
}

-- E-003
unfoldable pub check_e003 : {S : Type 0} → Json → Check S
unfolding health_body_outcome
check_e003 j = record {
  id = "E-003";
  category = Category.endpoint;
  layer = CheckLayer.behavioral;
  severity = Severity.blocking;
  assertion = "/health body contains \"status\":\"ok\"";
  failure_meaning = "App is responding but not confirming config loaded";
  observable_command = "curl -s http://localhost/health | jq -e '.status == \"ok\"' > /dev/null";
  execute = λ o s. health_body_outcome j (o.check_endpoint "http://localhost/health" false s);
}

-- E-004
unfoldable pub check_e004 : {S : Type 0} → Check S
unfolding proxy_header_outcome
check_e004 = record {
  id = "E-004";
  category = Category.endpoint;
  layer = CheckLayer.behavioral;
  severity = Severity.blocking;
  assertion = "Response includes X-Proxy: nginx header";
  failure_meaning =
      "nginx is not proxying — traffic reaching app directly or response from wrong source";
  observable_command = "curl -sI http://localhost/ | grep -q 'X-Proxy: nginx'";
  execute = λ o s. proxy_header_outcome (o.run_command "curl" ("-sI" ∷ "http://localhost/" ∷ []) s);
}

-- E-005
unfoldable pub check_e005 : {S : Type 0} → Check S
unfolding tls_outcome
check_e005 = record {
  id = "E-005";
  category = Category.endpoint;
  layer = CheckLayer.behavioral;
  severity = Severity.blocking;
  assertion = "GET https://app.local/health returns 200 (skip verify)";
  failure_meaning = "TLS listener or upstream not functioning";
  observable_command = "curl -skf https://app.local/health > /dev/null";
  execute = λ o s. tls_outcome (o.check_endpoint "https://app.local/health" true s);
}

-- H-001
unfoldable pub check_h001 : {S : Type 0} → Check S
unfolding headers_outcome
check_h001 = record {
  id = "H-001";
  category = Category.endpoint;
  layer = CheckLayer.behavioral;
  severity = Severity.blocking;
  assertion = "/headers returns proxy headers";
  failure_meaning = "Proxy headers not propagated; nginx may be bypassed";
  observable_command = "curl -s http://localhost/headers";
  execute = λ o s. headers_outcome (o.check_endpoint "http://localhost/headers" false s);
}

-- H-002
unfoldable pub check_h002 : {S : Type 0} → Check S
unfolding reset_outcome
check_h002 = record {
  id = "H-002";
  category = Category.endpoint;
  layer = CheckLayer.behavioral;
  severity = Severity.blocking;
  assertion = "/reset causes TCP connection reset";
  failure_meaning = "TCP RST not sent; SO_LINGER may not be configured";
  observable_command = "curl -s http://localhost/reset; test $? -eq 56";
  execute = λ o s. reset_outcome (o.check_endpoint "http://localhost/reset" false s);
}
