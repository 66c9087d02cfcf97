-- ===== src/Service/Server.antt =====
-- service/chaos/chaos.go and service/server/server.go: a request through the chaos middleware, the
-- routes and their handlers.
pub mod Bodies
pub mod Counted
pub mod Diagnosed
use lab_env.Common.{
  ℕ, ◌+◌, suc, String, Bool, true, false, not, ◌&&◌, Option, none, some, List, [], ◌∷◌, ◌++◌, ltb,
  if◌then◌else◌, is_some,
}
use lab_env.Common.Errors.{Error, ℤ}
use lab_env.Common.Bytes.{Bytes}
use lab_env.Service.Logging.{Level}
use Bodies.{
  health_body, root_body, error_body, slow_body, headers_body, no_hijack_body, not_allowed_body,
  drop_body,
}

-- The handlers; `not_allowed` is a method that no pattern of the mux takes, which on the path
-- /health is `health_not_allowed`.
pub data Route : Type 0 where
  health slow headers reset root not_allowed health_not_allowed : Route

-- What a handler answers: a status code with a body, or a connection that it reset.
pub data Answer : Type 0 where
  answered : ℕ → Bytes → Answer
  connection_reset : Answer
  nothing : Answer

-- What the handlers change: the counters of telemetry.Metrics, the status that was set, the log,
-- the milliseconds that were slept, and the children that nobody waits for.
pub record ServiceState : Type 0 where
  pub requests_total : ℕ
  pub errors_total : ℕ
  pub unhealthy : Bool
  pub log : List (Level × String)
  pub slept_ms : ℕ
  pub zombies : ℕ

-- What is configured (a loaded configuration has no negative number), the headers of the request,
-- and what the environment answers to it: the random number below 100, the error of the touch of the
-- state file, whether the connection can be hijacked, and the error of the hijacking.
pub record Request : Type 0 where
  pub route : Route
  pub latency_ms : ℕ
  pub drop_percent : ℕ
  pub zombie_children : Bool
  pub app_env : Bytes
  pub header : String → Bytes
  pub random : ℕ
  pub touch_error : Option Error
  pub hijacker : Bool
  pub hijack_error : Option Error

-- `r.URL.Path == "/health"`
abbrev pub is_health : Route → Bool
is_health Route.health = true
is_health Route.health_not_allowed = true
is_health _ = false

-- `RequestsTotal.Add(1)`
abbrev pub counted : ServiceState → ServiceState
counted s = record s { requests_total = suc s.requests_total }

abbrev pub slept : ℕ → ServiceState → ServiceState
slept ms s = record s { slept_ms = s.slept_ms + ms }

touched : Bytes → Option Error → ServiceState → Answer × ServiceState
touched app_env none s = (Answer.answered 200 (root_body app_env), s)
touched app_env (some e) s = (
  Answer.answered 500 error_body,
  record s {
    errors_total = suc s.errors_total;
    unhealthy = true;
    log = s.log ++ (Level.error, "state write failed") ∷ [];
  },
)

-- `handleRoot`
pub handle_root : Request → ServiceState → Answer × ServiceState
unfolding touched
handle_root r s =
    let spawned = record s { zombies = if r.zombie_children then suc s.zombies else s.zombies } in
    touched r.app_env r.touch_error (counted spawned)

-- `handleReset`
pub handle_reset : Request → ServiceState → Answer × ServiceState
handle_reset r s =
    if not r.hijacker
    then (Answer.answered 500 no_hijack_body, counted s)
    else (if is_some r.hijack_error then Answer.nothing else Answer.connection_reset, counted s)

-- The handler of a route; the mux itself answers a method that is not allowed.
pub handle : Route → Request → ServiceState → Answer × ServiceState
unfolding handle_root handle_reset
handle Route.health r s = (Answer.answered 200 (health_body r.app_env), counted s)
handle Route.slow r s = (Answer.answered 200 slow_body, slept 5000 (counted s))
handle Route.headers r s = (Answer.answered 200 (headers_body r.header), counted s)
handle Route.reset r s = handle_reset r s
handle Route.root r s = handle_root r s
handle Route.not_allowed r s = (Answer.answered 405 not_allowed_body, s)
handle Route.health_not_allowed r s = (Answer.answered 405 not_allowed_body, s)

-- A dropped request.
dropped : ServiceState → Answer × ServiceState
dropped s = (
  Answer.answered 503 drop_body,
  record s {
    log = s.log ++ (Level.warn, "chaos drop") ∷ [];
    requests_total = suc s.requests_total;
    errors_total = suc s.errors_total;
  },
)

-- `Handler.ServeHTTP`, with the mux as the next handler.
unfoldable pub serve_http : Request → ServiceState → Answer × ServiceState
unfolding dropped handle
serve_http r s =
    if (ltb 0 r.drop_percent && not (is_health r.route)) && ltb r.random r.drop_percent
    then dropped s
    else if ltb 0 r.latency_ms && not (is_health r.route)
    then handle r.route r (slept r.latency_ms s)
    else handle r.route r s
