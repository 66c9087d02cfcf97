-- ===== src/Service/Main.antt =====
-- service/main.go: the life of the service, from its start to its exit. What is logged is kept as
-- the level and the message; the HTTP server is the sequence of events that it meets.
pub mod Rules
pub mod Announced
pub mod Ready
pub mod Stopped
pub mod Running
pub mod Up
pub mod Drained
pub mod Ended
use lab_env.Common.{
  ℕ, String, Bool, true, false, not, Option, none, some, List, [], ◌∷◌, ◌++◌, if◌then◌else◌,
}
use lab_env.Common.Errors.{Error, Result, ok, err, wrap}
use lab_env.Common.Bytes.{Bytes}
use lab_env.Service.Config.{Yaml, Config, load, is_active}
use lab_env.Service.Logging.{Level}
use lab_env.Service.Signals.{
  Host, set_status, init, create_loading, write_pid, create_healthy, remove_loading, begin_shutdown,
  remove_pid,
}

-- The process: the signal files, its log, what it wrote on stderr, and whether the goroutine of the
-- telemetry runs.
pub record Service : Type 0 where
  pub host : Host
  pub log : List (Level × String)
  pub stderr : List Error
  pub collecting : Bool

-- What the process finds at its start: its environment, what reading its configuration file gives,
-- the errors of opening the log and of the probe of the state directory, and its pid.
pub record Boot : Type 0 where
  pub yaml : Yaml
  pub getenv : String → Bytes
  pub config_text : Result Bytes
  pub open_log_error : Option Error
  pub probe_error : Option Error
  pub self : ℕ

-- A part of `main`: `os.Exit`, or the way on.
pub data Progress (A : Type 0) : Type 0 where
  exits : ℕ → Progress A
  goes : A → Progress A

abbrev pub Main : Type 0 → Type 0
Main A = Service → Progress A × Service

module _ {A B : Type 0} where
  pub onward : Progress A → (A → Main B) → Main B
  onward (exits code) f s = (exits code, s)
  onward (goes a) f s = f a s

  infixl 5 ◌>>=◌ ◌>>◌
  unfoldable pub ◌>>=◌ : Main A → (A → Main B) → Main B
  unfolding onward
  ◌>>=◌ m f s = let (p, s') = m s in onward p f s'

  abbrev pub ◌>>◌ : Main A → Main B → Main B
  m >> n = m >>= λ _. n

-- A call of the logger.
abbrev pub logs : Level → String → Service → Service
logs level msg s = record s { log = s.log ++ (level, msg) ∷ [] }

-- The signal files after a call.
abbrev pub on_host : Host → Service → Service
on_host h s = record s { host = h }

-- What is done with an error: stderr and exit 1, an entry and exit 1, or a warning.
pub data Failing : Type 0 where
  to_stderr to_log to_warning : String → Failing

pub failing : Failing → Error → Main (Unit {0})
failing (Failing.to_stderr context) e s =
    (exits 1, record s { stderr = s.stderr ++ wrap context e ∷ [] })
failing (Failing.to_log msg) e s = (exits 1, logs Level.error msg s)
failing (Failing.to_warning msg) e s = (goes tt, logs Level.warn msg s)

pub checked : Failing → Option Error → Main (Unit {0})
unfolding failing
checked how none s = (goes tt, s)
checked how (some e) s = failing how e s

-- `if err := op(); err != nil { … }`
pub attempt : Failing → (Host → Option Error × Host) → Main (Unit {0})
unfolding checked
attempt how op s = let (e, h) = op s.host in checked how e (on_host h s)

pub loaded : Result Config → Main Config
loaded (err e) s = (exits 1, record s { stderr = s.stderr ++ wrap "config.Load failed: %w" e ∷ [] })
loaded (ok cfg) s = (goes cfg, s)

pub log_at : Level → String → Main (Unit {0})
log_at level msg s = (goes tt, logs level msg s)

-- `probeStateDir`
pub probe_state_dir : Option Error → Main (Unit {0})
probe_state_dir none s = (goes tt, s)
probe_state_dir (some e) s =
    let s' = logs Level.warn "state directory not writable at startup" s in
    let (dropped, h) = set_status "Unhealthy" s'.host in (goes tt, on_host h s')

-- `go collector.Run(telCtx)`
pub start_telemetry : Main (Unit {0})
start_telemetry s = (goes tt, record s { collecting = true })

-- `if test { … }`
pub when : Bool → Main (Unit {0}) → Main (Unit {0})
when true m s = m s
when false m s = (goes tt, s)

-- The status of a service with active chaos.
pub degrade : Main (Unit {0})
degrade s =
    let (dropped, h) = set_status "Degraded" s.host in
    (goes tt, logs Level.warn "chaos modes active" (on_host h s))

-- The chaos that is announced once the service is up.
pub announce_chaos : Config → Main (Unit {0})
unfolding when log_at degrade
announce_chaos cfg = do
  when cfg.chaos.oom_trigger
      (log_at Level.warn "chaos oom started — process will be terminated by OOM killer")
  when cfg.chaos.oom_trigger
      (log_at Level.info "OOM chaos triggered — process will be killed by cgroup MemoryMax")
  when cfg.chaos.zombie_children
      (log_at Level.warn "Zombie children enabled — each GET / will leak a zombie process")
  when (is_active cfg.chaos) degrade

module _ (b : Boot) where
  -- Steps 3 to 14 of the start.
  pub launch : Main Config
  unfolding attempt loaded log_at probe_state_dir start_telemetry announce_chaos
  launch = do
    attempt (Failing.to_stderr "signals.CreateLoading failed: %w") create_loading
    cfg ← loaded (load b.yaml b.getenv b.config_text)
    checked (Failing.to_stderr "opening log file failed: %w") b.open_log_error
    log_at Level.info "server started"
    attempt (Failing.to_log "writing PID file") (write_pid b.self)
    probe_state_dir b.probe_error
    start_telemetry
    attempt (Failing.to_log "creating healthy marker") create_healthy
    attempt (Failing.to_warning "removing loading marker") remove_loading
    attempt (Failing.to_warning "setting status=Running") (set_status "Running")
    announce_chaos cfg
    (λ s. (goes cfg, s))

  -- `main` up to the wait for a signal.
  pub start : Main Config
  unfolding attempt launch
  start = attempt (Failing.to_stderr "signals.Init failed: %w") init >> launch

-- What the running process meets: a request to the root whose touch of the state file fails, a
-- signal, or an unexpected end of the HTTP server.
pub data Event : Type 0 where
  touch_failed sigterm sigint server_failed : Event

-- The events that end the wait.
pub stops : Config → Event → Bool
stops cfg Event.touch_failed = false
stops cfg Event.sigterm = not cfg.chaos.ignore_sigterm
stops cfg Event.sigint = true
stops cfg Event.server_failed = true

-- What a request does to the signal files.
pub handled : Event → Service → Service
handled Event.touch_failed s =
    let (dropped, h) = set_status "Unhealthy" s.host in
    on_host h (logs Level.error "state write failed" s)
handled _ s = s

-- The first entry after the wait.
pub received : Event → Service → Service
received Event.server_failed s = logs Level.error "HTTP server exited unexpectedly" s
received _ s = logs Level.info "shutdown signal received" s

pub drained : Option Error → Service → Service
drained none s = s
drained (some e) s = logs Level.warn "shutdown did not complete cleanly" s

-- The signals that end the process at once after `signal.Reset`; one that is ignored stays so.
pub kills : Config → Event → Bool
kills cfg Event.sigterm = not cfg.chaos.ignore_sigterm
kills cfg Event.sigint = true
kills cfg _ = false

-- The events during the shutdown of the HTTP server, and whether one ends the process: requests are
-- still handled, and an end of the HTTP server is not read any more.
pub draining : Config → List Event → Service → Bool × Service
unfolding kills handled
draining cfg [] s = (false, s)
draining cfg (e ∷ events) s =
    let rest = draining cfg events (handled e s) in if kills cfg e then (true, s) else rest

-- The process after some events: it still waits, it has returned with exit code 0, or a signal has
-- ended it.
pub data Life : Type 0 where
  waiting : Life
  ended : Life
  killed : Life

-- The end of the shutdown, where the process lives to see it.
pub finish : Option Error → Bool × Service → Life × Service
unfolding drained
finish drain (true, s) = (killed, s)
finish drain (false, s) =
    let s' = drained drain s in
    (ended, logs Level.info "shutdown complete" (on_host (remove_pid s'.host) s'))

-- The graceful shutdown; `drain` is the error of the shutdown of the HTTP server, and the events are
-- those behind `signal.Reset`.
pub shut_down : Config → Option Error → List Event → Service → Life × Service
unfolding draining finish
shut_down cfg drain events s =
    let s1 = logs Level.info "graceful shutdown started" (on_host (begin_shutdown s.host) s) in
    finish drain (draining cfg events (record s1 { collecting = false }))

pub serve : Config → Option Error → List Event → Service → Life × Service
unfolding stops handled received shut_down
serve cfg drain [] s = (waiting, s)
serve cfg drain (e ∷ events) s =
    let rest = serve cfg drain events (handled e s) in
    if stops cfg e then shut_down cfg drain events (received e s) else rest

-- What is logged between the start and the wait.
pub configure_signals : Config → Main (Unit {0})
unfolding when log_at
configure_signals cfg = do
  when cfg.chaos.ignore_sigterm
      (log_at Level.warn "SIGTERM ignored (CHAOS_IGNORE_SIGTERM=1) — process will require SIGKILL")
  log_at Level.info "listening"

-- The wait and the shutdown as a part of `main`.
pub await : Option Error → List Event → Config → Main Life
unfolding serve
await drain events cfg s = let (life, s') = serve cfg drain events s in (goes life, s')

-- `main`
unfoldable pub main : Boot → Option Error → List Event → Main Life
unfolding start configure_signals await
main b drain events = do cfg ← start b; configure_signals cfg; await drain events cfg
