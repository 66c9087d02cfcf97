-- ===== src/Service/Server/Counted.antt =====
-- service/chaos/chaos.go and service/server/server.go: which requests and errors are counted, and
-- what the liveness probe survives.
use lab_env.Common.{suc, Bool, true, false, ◌≡◌, arith, leb, nat_eq, if◌then◌else◌, ◌+◌, is_some}
use lab_env.Service.Server.Bodies.{health_body, root_body, error_body}
use lab_env.Service.Server.{Route, Answer, Request, ServiceState, serve_http, handle}

-- The answer is a server error.
abbrev pub is_server_error : Answer → Bool
is_server_error (Answer.answered n body) = leb 500 n
is_server_error _ = false

abbrev pub is_allowed : Route → Bool
is_allowed Route.not_allowed = false
is_allowed Route.health_not_allowed = false
is_allowed _ = true

handle-counted :
    (route : Route) (r : Request) (s : ServiceState)
    → (is_allowed route ≡ true → (handle route r s).1.requests_total ≡ suc s.requests_total)
      × (r.hijacker ≡ true
          → (handle route r s).1.errors_total
            ≡ (if is_server_error (handle route r s).0 then suc s.errors_total else s.errors_total))
unfolding handle
handle-counted route r s = ground arith

-- Through the middleware and the routes, with any chaos: a request of an allowed method is counted
-- exactly once, dropped or handled; and where connections can be hijacked an error is counted
-- exactly for an answer of 500 and above.
pub serve_http-counted :
    (r : Request) (s : ServiceState)
    → let (answer, s') = serve_http r s in
      (is_allowed r.route ≡ true → s'.requests_total ≡ suc s.requests_total)
      × (r.hijacker ≡ true
          → s'.errors_total
            ≡ (if is_server_error answer then suc s.errors_total else s.errors_total))
unfolding serve_http
serve_http-counted r s = ground (
  arith,
  handle-counted r.route r s,
  handle-counted r.route r (record s { slept_ms = s.slept_ms + r.latency_ms }),
)

-- The liveness probe answers 200 at once, whatever chaos is configured and whether or not the
-- state directory can be written, and changes nothing but the count of requests.
pub serve_http_health :
    (r : Request) (s : ServiceState)
    → r.route ≡ Route.health
    → serve_http r s ≡ (
      Answer.answered 200 (health_body r.app_env),
      record s { requests_total = suc s.requests_total },
    )
unfolding serve_http
serve_http_health r s h = ground arith

-- A request to the root that is not dropped answers 500 and sets the status to unhealthy exactly
-- when the state file cannot be touched.
pub serve_http_root :
    (r : Request) (s : ServiceState)
    → r.route ≡ Route.root
    → r.drop_percent ≡ 0
    → s.unhealthy ≡ false
    → ((serve_http r s).1.unhealthy ≡ is_some r.touch_error)
      × ((serve_http r s).0 ≡ (
          if is_some r.touch_error
          then Answer.answered 500 error_body
          else Answer.answered 200 (root_body r.app_env)))
unfolding serve_http
serve_http_root r s h no_drop healthy = ground arith
