-- ===== src/Service/Main/Ended.antt =====
-- service/main.go: the life of the service as a whole.
use lab_env.Common.{ℕ, ◌≡◌, refl, none, Option, List, ap, drop, ◌∙◌, inl, subst, sym}
use lab_env.Common.Errors.{Error, ok}
use lab_env.Service.Config.{Config, load}
use lab_env.Service.Signals.{Host, SignalFile, init, remove_file, set_status}
use lab_env.Service.Signals.Placed.{remove_file-kept}
use lab_env.Service.Main.{Service, Boot, Event, ◌>>◌, configure_signals, await, start, main, log_at}
use lab_env.Service.Main.Rules.{Ends, went, bind-Ends, exit-Ends, Does, when-Ends}
use lab_env.Service.Main.Stopped.{Free, set_status-accepted}
use lab_env.Service.Main.Drained.{Lives, serve-Lives}
use lab_env.Service.Main.Running.{Never, Named}
use lab_env.Service.Main.Up.{Started, launch-Started}

remove_file-Free : (f : SignalFile) (h : Host) → Free h → Free (remove_file f h).1
remove_file-Free f h (free, may) =
    let (kept, dropped) = remove_file-kept f h in (kept ∙ free, dropped ∙ ap (drop 1) may)

init_lem :
    (h : Host)
    → init h
      ≡ set_status "Starting"
          (remove_file SignalFile.healthy_file (remove_file SignalFile.loading_file h).1).1
unfolding init
init_lem h = refl

init-Does : Does Free Free Never init
init-Does h free =
    let h1 = (remove_file SignalFile.loading_file h).1 in
    let h2 = (remove_file SignalFile.healthy_file h1).1 in
    let (free2, may2) =
      remove_file-Free SignalFile.healthy_file h1
        (remove_file-Free SignalFile.loading_file h free) in
    rw (init_lem h, set_status-accepted "Starting" h2 free2) (inl (refl, (ap (drop 1) free2, may2)))

await-Lives :
    (self : ℕ) (drain : Option Error) (events : List Event) (cfg : Config) (s : Service)
    → Named self s.host
    → Ends (Lives cfg.chaos.ignore_sigterm self events) Never (await drain events cfg s)
unfolding await
await-Lives self drain events cfg s named = went _ _ (serve-Lives self cfg drain events s named)

configured-Named :
    (self : ℕ) (cfg : Config) (s : Service)
    → Named self s.host
    → Ends (λ (u : Unit {0}). Named self) Never (configure_signals cfg s)
unfolding configure_signals log_at
configured-Named self cfg s named =
    bind-Ends (λ u. Named self) (λ u. Named self) Never _ _ s
      (when-Ends (Named self) Never cfg.chaos.ignore_sigterm _ s named (went tt _ named))
      (λ u s1 named1. went tt _ named1)

module _ (b : Boot) (cfg : Config) where
  started :
      (s : Service)
      → Free s.host
      → load b.yaml b.getenv b.config_text ≡ ok cfg
      → b.open_log_error ≡ none
      → Ends (Started b cfg) Never (start b s)
  unfolding start
  started s free is opened =
      bind-Ends (λ u. Free) (Started b cfg) Never _ _ s
        (exit-Ends Free Free Never init "signals.Init failed: %w" s init-Does free).0
        (λ u s1 free1. launch-Started b cfg s1 free1 is opened)

  -- The whole of `main`, from signal files of any content: where the operating system refuses
  -- nothing, the configuration loads and the log opens, it does not exit by itself. It waits as long
  -- as it meets nothing but requests and, with the chaos mode that masks it, SIGTERM. After an
  -- interrupt, an end of the HTTP server or an unmasked SIGTERM there is no healthy marker any more:
  -- if no such signal falls into the shutdown, it returns without a pid file, and with the status
  -- ShuttingDown unless a request fails in the shutdown; if one does, the process is killed and
  -- leaves its pid file.
  pub main-Lives :
      (drain : Option Error) (events : List Event) (s : Service)
      → Free s.host
      → load b.yaml b.getenv b.config_text ≡ ok cfg
      → b.open_log_error ≡ none
      → Ends (Lives cfg.chaos.ignore_sigterm b.self events) Never (main b drain events s)
  unfolding main
  main-Lives drain events s free is opened =
      bind-Ends (Started b cfg) (Lives cfg.chaos.ignore_sigterm b.self events) Never _ _ s
        (started s free is opened)
        (λ c s1 (up, same).
          let named1 = up.0.0.0 in
          subst
            (λ c.
              Ends (Lives cfg.chaos.ignore_sigterm b.self events) Never
                ((configure_signals c >> await drain events c) s1))
            (sym same)
            (bind-Ends (λ u. Named b.self) (Lives cfg.chaos.ignore_sigterm b.self events) Never _ _
              s1 (configured-Named b.self cfg s1 named1)
              (λ u s2 named2. await-Lives b.self drain events cfg s2 named2)))
