-- ===== src/Service/Main/Drained.antt =====
-- service/main.go: the wait for an event that stops the service, and the shutdown with the events
-- that fall into it.
use lab_env.Common.{
  ℕ, Bool-cases, inl, inr, subst, sym, ◌≡◌, ap, ◌∙◌, drop, refl, none, some, Option, List, [], ◌∷◌,
  ◌++◌, Bool, true, false, not, ◌||◌, arith, if◌then◌else◌,
}
use lab_env.Common.Errors.{Error}
use lab_env.Service.Config.{Config}
use lab_env.Service.Logging.{Level}
use lab_env.Service.Signals.{Host, SignalFile, begin_shutdown, with_content}
use lab_env.Service.Signals.Placed.{remove_file-accepted}
use lab_env.Service.Main.Running.{Named}
use lab_env.Service.Main.{
  Service, Event, Life, waiting, ended, killed, stops, kills, handled, received, draining, finish,
  shut_down, serve,
}
use lab_env.Service.Main.Announced.{pid_text}
use lab_env.Service.Main.Stopped.{
  shutting_down, set_status-accepted, begin_shutdown-dir, remove_pid_lem,
}

-- The events that end the wait, by whether SIGTERM is masked: an interrupt, an end of the HTTP
-- server, or a SIGTERM that is not masked.
abbrev pub ends_wait : Bool → Event → Bool
ends_wait masked Event.touch_failed = false
ends_wait masked Event.sigterm = not masked
ends_wait masked Event.sigint = true
ends_wait masked Event.server_failed = true

-- The signals that end a process without handlers, by whether SIGTERM is ignored.
abbrev pub ends_process : Bool → Event → Bool
ends_process masked Event.touch_failed = false
ends_process masked Event.sigterm = not masked
ends_process masked Event.sigint = true
ends_process masked Event.server_failed = false

abbrev pub any_stops : Bool → List Event → Bool
any_stops masked [] = false
any_stops masked (e ∷ events) = ends_wait masked e || any_stops masked events

-- The events behind the first one that stops the service.
abbrev pub after_stop : Bool → List Event → List Event
after_stop masked [] = []
after_stop masked (e ∷ events) =
    let later = after_stop masked events in if ends_wait masked e then events else later

abbrev pub any_kills : Bool → List Event → Bool
any_kills masked [] = false
any_kills masked (e ∷ events) = ends_process masked e || any_kills masked events

-- A request whose touch of the state file fails.
abbrev pub is_failure : Event → Bool
is_failure Event.touch_failed = true
is_failure _ = false

abbrev pub any_fails : List Event → Bool
any_fails [] = false
any_fails (e ∷ events) = is_failure e || any_fails events

-- The signal files of a service that shuts down.
abbrev Leaving : ℕ → Host → Type 0
Leaving self h = Named self h × (h.dir.healthy ≡ none)

-- How the life of a service goes on, by what it meets and by what it meets in its shutdown.
abbrev pub Lives : Bool → ℕ → List Event → Life → Host → Type 0
Lives masked self events life h =
    let late = after_stop masked events in
    (any_stops masked events ≡ false → life ≡ waiting)
    × (any_stops masked events ≡ true
        → any_kills masked late ≡ false
        → (life ≡ ended)
          × (h.dir.healthy ≡ none)
          × (h.dir.pid ≡ none)
          × (any_fails late ≡ false → h.dir.status ≡ some shutting_down))
    × (any_stops masked events ≡ true
        → any_kills masked late ≡ true
        → (life ≡ killed) × (h.dir.healthy ≡ none) × (h.dir.pid ≡ some (pid_text self)))

stops_lem : (cfg : Config) (e : Event) → stops cfg e ≡ ends_wait cfg.chaos.ignore_sigterm e
unfolding stops
stops_lem cfg e = ground arith

kills_lem : (cfg : Config) (e : Event) → kills cfg e ≡ ends_process cfg.chaos.ignore_sigterm e
unfolding kills
kills_lem cfg e = ground arith

module _ (self : ℕ) where
  handled-Named : (e : Event) (s : Service) → Named self s.host → Named self (handled e s).host
  unfolding handled
  handled-Named Event.touch_failed s ((free, may), named) =
      rw (set_status-accepted "Unhealthy" s.host free) ((ap (drop 1) free, may), named)
  handled-Named Event.sigterm s h = h
  handled-Named Event.sigint s h = h
  handled-Named Event.server_failed s h = h

  handled-Leaving :
      (e : Event) (s : Service)
      → Leaving self s.host
      → Leaving self (handled e s).host
        × (is_failure e ≡ false → (handled e s).host.dir.status ≡ s.host.dir.status)
  unfolding handled
  handled-Leaving Event.touch_failed s (((free, may), named), gone) =
      rw (set_status-accepted "Unhealthy" s.host free)
        ((((ap (drop 1) free, may), named), gone), λ h. cc)
  handled-Leaving Event.sigterm s h = (h, λ e. refl)
  handled-Leaving Event.sigint s h = (h, λ e. refl)
  handled-Leaving Event.server_failed s h = (h, λ e. refl)

  draining_lem :
      (cfg : Config) (events : List Event) (s : Service)
      → Leaving self s.host
      → let (dead, s') = draining cfg events s in
        Leaving self s'.host
        × (any_fails events ≡ false → s'.host.dir.status ≡ s.host.dir.status)
        × (dead ≡ any_kills cfg.chaos.ignore_sigterm events)
  unfolding draining
  draining_lem cfg [] s h = (h, λ e. refl, refl)
  draining_lem cfg (e ∷ events) s h = elim (Bool-cases (ends_process cfg.chaos.ignore_sigterm e)) [
    | inl k ↦ rw (kills_lem cfg e, k) (h, λ e. refl, refl)
    | inr n ↦
        let (h', same) = handled-Leaving e s h in
        let (leaving, kept, dead) = draining_lem cfg events (handled e s) h' in
        rw (kills_lem cfg e, n)
          (leaving, λ f. kept (ground (arith, f)) ∙ same (ground (arith, f)), dead)
  ]

  -- The files after the shutdown, by whether the process was killed in it.
  finish_lem :
      (drain : Option Error) (dead : Bool) (s : Service)
      → Leaving self s.host
      → let (life, s') = finish drain (dead, s) in
        (dead ≡ false
          → (life ≡ ended)
            × (s'.host.dir.healthy ≡ none)
            × (s'.host.dir.pid ≡ none)
            × (s'.host.dir.status ≡ s.host.dir.status))
        × (dead ≡ true → (life ≡ killed) × (s' ≡ s))
  unfolding finish with_content
  finish_lem drain true s h = (λ e. cc, λ e. (refl, refl))
  finish_lem none false s (((free, may), named), gone) =
      rw (remove_pid_lem s.host, remove_file-accepted SignalFile.pid_file s.host may)
        (λ e. (refl, gone, refl, refl), λ e. cc)
  finish_lem (some x) false s (((free, may), named), gone) =
      rw (remove_pid_lem s.host, remove_file-accepted SignalFile.pid_file s.host may)
        (λ e. (refl, gone, refl, refl), λ e. cc)

  received-host : (e : Event) (s : Service) → (received e s).host ≡ s.host
  unfolding received
  received-host Event.server_failed s = refl
  received-host _ s = refl

  shut_down_lem :
      (cfg : Config) (drain : Option Error) (events : List Event) (s : Service)
      → Named self s.host
      → let (life, s') = shut_down cfg drain events s in
        (any_kills cfg.chaos.ignore_sigterm events ≡ false
          → (life ≡ ended)
            × (s'.host.dir.healthy ≡ none)
            × (s'.host.dir.pid ≡ none)
            × (any_fails events ≡ false → s'.host.dir.status ≡ some shutting_down))
        × (any_kills cfg.chaos.ignore_sigterm events ≡ true
            → (life ≡ killed)
              × (s'.host.dir.healthy ≡ none)
              × (s'.host.dir.pid ≡ some (pid_text self)))
  unfolding shut_down
  shut_down_lem cfg drain events s (free, named) =
      let (is, may, free') = begin_shutdown-dir s.host free in
      let leaving : Leaving self (begin_shutdown s.host) =
        (((free', may), ap (λ d. d.pid) is ∙ named), ap (λ d. d.healthy) is) in
      let shown : (begin_shutdown s.host).dir.status ≡ some shutting_down = ap (λ d. d.status) is in
      let s2 = record s {
        host = begin_shutdown s.host;
        log = s.log ++ (Level.info, "graceful shutdown started") ∷ [];
        collecting = false;
      } in
      let ((named', gone), kept, dead) = draining_lem cfg events s2 leaving in
      let s3 : Service = (draining cfg events s2).1 in
      let (returns, dies) = finish_lem drain (draining cfg events s2).0 s3 (named', gone) in
      (
        λ alive. let (a, b, c, d) = returns (dead ∙ alive) in (a, b, c, λ f. d ∙ (kept f ∙ shown)),
        λ shot.
            let (a, same) = dies (dead ∙ shot) in
            (
              a,
              ap (λ (x : Service). x.host.dir.healthy) same ∙ gone,
              ap (λ (x : Service). x.host.dir.pid) same ∙ named'.1,
            ),
      )

  -- A running service waits until it meets an event that stops it: an interrupt, an end of the HTTP
  -- server, or, unless the chaos mode masks it, a SIGTERM.
  pub serve-Lives :
      (cfg : Config) (drain : Option Error) (events : List Event) (s : Service)
      → Named self s.host
      → let (life, s') = serve cfg drain events s in
        Lives cfg.chaos.ignore_sigterm self events life s'.host
  unfolding serve
  serve-Lives cfg drain [] s h = (λ e. refl, λ e. cc, λ e. cc)
  serve-Lives cfg drain (e ∷ events) s h =
      elim (Bool-cases (ends_wait cfg.chaos.ignore_sigterm e)) [
        | inl stop ↦
            let (returns, dies) =
              shut_down_lem cfg drain events (received e s)
                (subst (Named self) (sym (received-host e s)) h) in
            rw (stops_lem cfg e, stop) (λ h. cc, λ h. returns, λ h. dies)
        | inr on ↦
            rw (stops_lem cfg e, on)
              (serve-Lives cfg drain events (handled e s) (handled-Named e s h))
      ]
