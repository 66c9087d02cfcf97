-- ===== src/Service/Main/Announced.antt =====
-- service/main.go: what the steps of the start do to the announcement of the service.
use lab_env.Common.{
  ℕ, String, Bool, ◌≡◌, ◌⊎◌, refl, inl, inr, none, some, Option, [], ◌∷◌, ◌++◌, All,
}
use lab_env.Common.Errors.{Error}
use lab_env.Common.Bytes.{Bytes, newline}
use lab_env.Executor.Decimal.{decimal}
use lab_env.Service.Config.{Config}
use lab_env.Service.Logging.{Level}
use lab_env.Service.Signals.{
  Host, SignalDir, SignalFile, create_loading, write_pid, create_healthy, remove_loading,
  set_status, with_content,
}
use lab_env.Service.Signals.Placed.{remove_file-cases}
use lab_env.Service.Main.{
  Service, Main, Failing, failing, attempt, log_at, probe_state_dir, degrade, when, ◌>>◌,
  announce_chaos,
}
use lab_env.Service.Main.Rules.{Ends, went, bind-Ends, Does, attempt-Ends, write-Does, when-Ends}

-- The text of the pid file.
abbrev pub pid_text : ℕ → Bytes
pid_text self = decimal self ++ newline ∷ []

-- The service is announced only under its own pid.
abbrev pub Announced : ℕ → SignalDir → Type 0
Announced self d = (d.healthy ≡ none) ⊎ (d.pid ≡ some (pid_text self))

-- Not announced, and never announced before.
abbrev pub Silent : ℕ → Host → Type 0
Silent self h = (h.dir.healthy ≡ none) × All (Announced self) h.seen

-- The pid file names the process.
abbrev pub Named : ℕ → Host → Type 0
Named self h = (h.dir.pid ≡ some (pid_text self)) × Silent self h

-- Announced, under its own pid.
abbrev pub Live : ℕ → Host → Type 0
Live self h =
    (h.dir.healthy ≡ some []) × (h.dir.pid ≡ some (pid_text self)) × All (Announced self) h.seen

module _ (self : ℕ) where
  pub create_loading-Does : Does (Silent self) (Silent self) (Silent self) create_loading
  unfolding create_loading with_content
  create_loading-Does =
      write-Does (Silent self) (Silent self) (Silent self) SignalFile.loading_file []
        (λ h (quiet, past). (quiet, (inl quiet, past)))
        (λ h (quiet, past). (quiet, (inl quiet, past)))

  pub write_pid-Does : Does (Silent self) (Named self) (Silent self) (write_pid self)
  unfolding write_pid with_content
  write_pid-Does =
      write-Does (Silent self) (Named self) (Silent self) SignalFile.pid_file (pid_text self)
        (λ h (quiet, past). (refl, (quiet, (inl quiet, past))))
        (λ h (quiet, past). (quiet, (inl quiet, past)))

  pub create_healthy-Does : Does (Named self) (Live self) (Silent self) create_healthy
  unfolding create_healthy with_content
  create_healthy-Does =
      write-Does (Named self) (Live self) (Silent self) SignalFile.healthy_file []
        (λ h (mine, (quiet, past)). (refl, mine, (inr mine, past)))
        (λ h (mine, (quiet, past)). (quiet, (inl quiet, past)))

  pub set_status-Named :
      (status : String) → Does (Named self) (Named self) (Named self) (set_status status)
  unfolding set_status with_content
  set_status-Named status =
      write-Does (Named self) (Named self) (Named self) SignalFile.status_file _
        (λ h (mine, (quiet, past)). (mine, (quiet, (inl quiet, past))))
        (λ h (mine, (quiet, past)). (mine, (quiet, (inl quiet, past))))

  pub set_status-Live :
      (status : String) → Does (Live self) (Live self) (Live self) (set_status status)
  unfolding set_status with_content
  set_status-Live status =
      write-Does (Live self) (Live self) (Live self) SignalFile.status_file _
        (λ h (up, mine, past). (up, mine, (inr mine, past)))
        (λ h (up, mine, past). (up, mine, (inr mine, past)))

  pub remove_loading-Does : Does (Live self) (Live self) (Live self) remove_loading
  unfolding remove_loading with_content
  remove_loading-Does h (up, mine, past) = elim (remove_file-cases SignalFile.loading_file h) [
    | inl e ↦ inl (rw e refl, rw e (up, mine, (inr mine, past)))
    | inr (inl (e, gone)) ↦ inl (rw e refl, rw e (up, mine, past))
    | inr (inr (x, e, not)) ↦ inr (x, rw e refl, rw e (up, mine, past))
  ]

-- A step that leaves the signal files alone, or that only warns.
module _ (self : ℕ) where
  pub probe-Ends :
      (e : Option Error) (s : Service)
      → Named self s.host
      → Ends (λ u. Named self) (Silent self) (probe_state_dir e s)
  unfolding probe_state_dir
  probe-Ends none s named = went tt s named
  probe-Ends (some e) s named = elim (set_status-Named self "Unhealthy" s.host named) [
    | inl (e, h) ↦ went tt _ h
    | inr (x, e, h) ↦ went tt _ h
  ]

  pub warned-Ends :
      (op : Host → Option Error × Host) (msg : String) (s : Service)
      → Does (Live self) (Live self) (Live self) op
      → Live self s.host
      → Ends (λ u. Live self) (Silent self) (attempt (Failing.to_warning msg) op s)
  unfolding failing
  warned-Ends op msg s does live =
      attempt-Ends (Live self) (Live self) (Live self) (Silent self) op (Failing.to_warning msg) s
        does (λ e s' h. went tt _ h) live

  degrade-Live : (s : Service) → Live self s.host → Ends (λ u. Live self) (Silent self) (degrade s)
  unfolding degrade
  degrade-Live s live = elim (set_status-Live self "Degraded" s.host live) [
    | inl (e, h) ↦ went tt _ h
    | inr (x, e, h) ↦ went tt _ h
  ]

  -- Parts that keep the service announced, one after the other.
  Live-then :
      (m n : Main (Unit {0})) (s : Service)
      → ((s : Service) → Live self s.host → Ends (λ u. Live self) (Silent self) (m s))
      → ((s : Service) → Live self s.host → Ends (λ u. Live self) (Silent self) (n s))
      → Live self s.host
      → Ends (λ u. Live self) (Silent self) ((m >> n) s)
  Live-then m n s first second live =
      bind-Ends (λ u. Live self) (λ u. Live self) (Silent self) m (λ _. n) s (first s live)
        (λ u s' h. second s' h)

  Live-when :
      (test : Bool) (m : Main (Unit {0})) (s : Service)
      → ((s : Service) → Live self s.host → Ends (λ u. Live self) (Silent self) (m s))
      → Live self s.host
      → Ends (λ u. Live self) (Silent self) (when test m s)
  Live-when test m s keeps live = when-Ends (Live self) (Silent self) test m s live (keeps s live)

  log-Live :
      (level : Level) (msg : String) (s : Service)
      → Live self s.host
      → Ends (λ u. Live self) (Silent self) (log_at level msg s)
  unfolding log_at
  log-Live level msg s live = went tt _ live

  pub announce-Live :
      (cfg : Config) (s : Service)
      → Live self s.host
      → Ends (λ u. Live self) (Silent self) (announce_chaos cfg s)
  unfolding announce_chaos
  announce-Live cfg s =
      Live-then _ _ s (λ s. Live-when _ _ s (log-Live _ _))
        (λ s.
          Live-then _ _ s (λ s. Live-when _ _ s (log-Live _ _))
            (λ s.
              Live-then _ _ s (λ s. Live-when _ _ s (log-Live _ _))
                (λ s. Live-when _ _ s degrade-Live)))
