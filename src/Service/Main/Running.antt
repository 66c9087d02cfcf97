-- ===== src/Service/Main/Running.antt =====
-- service/main.go: where the start ends when the operating system refuses nothing.
use lab_env.Common.{
  ℕ, String, Bool, true, false, ◌≡◌, refl, inl, inr, none, some, Option, [], ◌∷◌, ◌++◌, ap, drop,
  if◌then◌else◌,
}
use lab_env.Common.Errors.{Error}
use lab_env.Common.Bytes.{Bytes, codes, newline}
use lab_env.Service.Config.{Config, is_active}
use lab_env.Service.Logging.{Level}
use lab_env.Service.Signals.{
  Host, SignalFile, create_loading, write_pid, create_healthy, remove_loading, set_status,
  with_content, write_atomic,
}
use lab_env.Service.Signals.Placed.{write_atomic-accepted, remove_file-allowed, after_write}
use lab_env.Service.Main.{Service, probe_state_dir, announce_chaos, degrade, when, log_at}
use lab_env.Service.Main.Rules.{Ends, went, bind-Ends, Does, when-Ends}
use lab_env.Service.Main.Announced.{pid_text}
use lab_env.Service.Main.Stopped.{Free, set_status-accepted}

-- The service does not exit here.
abbrev pub Never : Host → Type 0
Never h = ⊥

-- The signal files so far, from the pid file to the removed loading marker.
abbrev pub Named : ℕ → Host → Type 0
Named self h = Free h × (h.dir.pid ≡ some (pid_text self))

abbrev pub Marked : ℕ → Host → Type 0
Marked self h = Named self h × (h.dir.healthy ≡ some [])

abbrev pub Settled : ℕ → Host → Type 0
Settled self h = Marked self h × (h.dir.loading ≡ none)

abbrev status_text : String → Bytes
status_text status = codes status ++ newline ∷ []

-- A status behind the other files.
abbrev pub Up : ℕ → String → Host → Type 0
Up self status h = Settled self h × (h.dir.status ≡ some (status_text status))

-- A write that is not refused.
accepted-Does :
    (Before After : Host → Type 0) (f : SignalFile) (bytes : Bytes)
    → ((h : Host) → Before h → Free h)
    → ((h : Host) → Before h → After (after_write (with_content f (some bytes) h.dir) h))
    → Does Before After Never (write_atomic f bytes)
accepted-Does Before After f bytes free good h before =
    let e = write_atomic-accepted f bytes h (free h before).0 in
    inl (rw e refl, rw e (good h before))

still-Free : (h : Host) → Free h → (drop 1 h.refusals ≡ []) × (h.removals ≡ [])
still-Free h (free, may) = (ap (drop 1) free, may)

may_remove : (h : Host) → Free h → (h.refusals ≡ []) × (drop 1 h.removals ≡ [])
may_remove h (free, may) = (free, ap (drop 1) may)

-- The status of a service that is up.
abbrev pub up_status : Config → String
up_status cfg = if is_active cfg.chaos then "Degraded" else "Running"

module _ (self : ℕ) where
  pub create_loading-Does : Does Free Free Never create_loading
  unfolding create_loading with_content
  create_loading-Does =
      accepted-Does Free Free SignalFile.loading_file [] (λ h free. free)
        (λ h free. still-Free h free)

  pub write_pid-Does : Does Free (Named self) Never (write_pid self)
  unfolding write_pid with_content
  write_pid-Does =
      accepted-Does Free (Named self) SignalFile.pid_file (pid_text self) (λ h free. free)
        (λ h free. (still-Free h free, refl))

  pub create_healthy-Does : Does (Named self) (Marked self) Never create_healthy
  unfolding create_healthy with_content
  create_healthy-Does =
      accepted-Does (Named self) (Marked self) SignalFile.healthy_file [] (λ h (free, mine). free)
        (λ h (free, mine). ((still-Free h free, mine), refl))

  pub remove_loading-Does : Does (Marked self) (Settled self) Never remove_loading
  unfolding remove_loading with_content
  remove_loading-Does h ((free, mine), up) =
      elim (remove_file-allowed SignalFile.loading_file h free.1) [
        | inl e ↦ inl (rw e refl, rw e (((may_remove h free, mine), up), refl))
        | inr (e, gone) ↦ inl (rw e refl, rw e (((may_remove h free, mine), up), gone))
      ]

  pub set_status-Does :
      (status : String) → Does (Settled self) (Up self status) Never (set_status status)
  unfolding set_status with_content
  set_status-Does status =
      accepted-Does (Settled self) (Up self status) SignalFile.status_file (status_text status)
        (λ h (((free, mine), up), gone). free)
        (λ h (((free, mine), up), gone). ((((still-Free h free, mine), up), gone), refl))

  pub probe-Ends :
      (e : Option Error) (s : Service)
      → Named self s.host
      → Ends (λ u. Named self) Never (probe_state_dir e s)
  unfolding probe_state_dir
  probe-Ends none s named = went tt s named
  probe-Ends (some e) s (free, mine) =
      went tt _ (rw (set_status-accepted "Unhealthy" s.host free.0) (still-Free s.host free, mine))

  degrade-Ends :
      (s : Service) → Settled self s.host → Ends (λ u. Up self "Degraded") Never (degrade s)
  unfolding degrade
  degrade-Ends s (((free, mine), up), gone) = went tt _ (
      rw (set_status-accepted "Degraded" s.host free.0)
        ((((still-Free s.host free, mine), up), gone), refl))

  -- A line of the log that may be written.
  logged-Ends :
      (status : String) (test : Bool) (level : Level) (msg : String) (s : Service)
      → Up self status s.host
      → Ends (λ u. Up self status) Never (when test (log_at level msg) s)
  unfolding log_at
  logged-Ends status test level msg s up =
      when-Ends (Up self status) Never test (log_at level msg) s up (went tt _ up)

  degraded-Ends :
      (test : Bool) (s : Service)
      → Up self "Running" s.host
      → Ends (λ u. Up self (if test then "Degraded" else "Running")) Never (when test degrade s)
  unfolding when
  degraded-Ends true s (settled, running) = degrade-Ends s settled
  degraded-Ends false s up = went tt s up

  pub announce-Ends :
      (cfg : Config) (s : Service)
      → Up self "Running" s.host
      → Ends (λ u. Up self (up_status cfg)) Never (announce_chaos cfg s)
  unfolding announce_chaos
  announce-Ends cfg s up =
      bind-Ends (λ u. Up self "Running") (λ u. Up self (up_status cfg)) Never _ _ s
        (logged-Ends "Running" cfg.chaos.oom_trigger _ _ s up)
        (λ u s1 up1.
          bind-Ends (λ u. Up self "Running") (λ u. Up self (up_status cfg)) Never _ _ s1
            (logged-Ends "Running" cfg.chaos.oom_trigger _ _ s1 up1)
            (λ u s2 up2.
              bind-Ends (λ u. Up self "Running") (λ u. Up self (up_status cfg)) Never _ _ s2
                (logged-Ends "Running" cfg.chaos.zombie_children _ _ s2 up2)
                (λ u s3 up3. degraded-Ends (is_active cfg.chaos) s3 up3)))
