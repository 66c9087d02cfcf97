-- ===== src/Examples/Requests.antt =====
-- Requests to the service under chaos, and a configuration.
use lab_env.Common.{
  take, ltb, nat_eq, string_eq, ◌==◌, ◌↔◌, if◌then◌else◌, ℕ, String, true, false, ◌≡◌, none, some,
  [], refl,
}
use lab_env.Common.Errors.{ok, message}
use lab_env.Common.Bytes.{Bytes, codes}
use lab_env.Service.Config.{Yaml, Config, load_chaos, load}
use lab_env.Conformance.Catalog.Outcomes.{passes}
use lab_env.Conformance.Catalog.Endpoints.{check_e001, check_e002}
use lab_env.Executor.Observe.{Probe, real_observer}
use lab_env.Service.Server.Diagnosed.{serve_http-diagnoses}
use lab_env.Service.Server.Bodies.{error_body, health_body}
use lab_env.Service.Server.{Route, Request, ServiceState, serve_http}
use lab_env.Service.Server.Counted.{serve_http-counted}

abbrev pub getenv : String → Bytes
getenv name = codes "yes"

abbrev pub yaml : Yaml
yaml = record { decode = λ text. ok (record { addr = []; app_env = codes "dev" }) }

abbrev pub config : Config
config = record {
  server = record { addr = codes "127.0.0.1:8080" };
  app_env = codes "dev";
  chaos = load_chaos getenv;
}

pub config-loaded : load yaml getenv (ok []) ≡ ok config
unfolding load
config-loaded = refl

abbrev idle : ServiceState
idle = record {
  requests_total = 0;
  errors_total = 0;
  unhealthy = false;
  log = [];
  slept_ms = 0;
  zombies = 0;
}

abbrev request : Route → ℕ → Request
request route drop_percent = record {
  route = route;
  latency_ms = 400;
  drop_percent = drop_percent;
  zombie_children = false;
  app_env = codes "dev";
  header = λ name. [];
  random = 7;
  touch_error = some (message "permission denied");
  hijacker = true;
  hijack_error = none;
}

serve_http-counted_example : (serve_http (request Route.root 50) idle).1.requests_total ≡ 1
serve_http-counted_example = (serve_http-counted (request Route.root 50) idle).0 refl

-- The client gets what the two requests answer; the state file cannot be touched.
abbrev client : Probe (Unit {0})
client = record {
  stat = λ path s. ok (record { size = 1 });
  read_file = λ path s. ok [];
  start = λ cmd args s. record { stdout = []; stderr = []; error = none };
  get = λ url skip s.
      if url == "http://localhost/health"
      then ok
          (record { status_code = 200; chunk = λ bound. take bound (health_body (codes "dev")) })
      else ok (record { status_code = 500; chunk = λ bound. take bound error_body });
  lookup_host = λ name s. ok [];
}

serve_http-diagnoses_example :
    (check_e001.execute (real_observer client) tt ≡ passes)
    × ((check_e002.execute (real_observer client) tt ≡ passes)
        ↔ (((request Route.root 0).touch_error ≡ none) × (ltb 7 0 ≡ false)))
unfolding serve_http
serve_http-diagnoses_example =
    serve_http-diagnoses client tt (request Route.health 100) (request Route.root 0) idle idle refl
      refl (_, refl, refl, refl) (_, refl, refl, refl)
