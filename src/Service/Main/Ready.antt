-- ===== src/Service/Main/Ready.antt =====
-- service/main.go: what another process can conclude from the signal files during the start.
use lab_env.Common.{String, ◌≡◌, refl, none, some, Option}
use lab_env.Common.Errors.{Error, Result, ok, err}
use lab_env.Service.Config.{Config, load}
use lab_env.Service.Signals.{create_loading, write_pid, create_healthy, remove_loading, set_status}
use lab_env.Service.Main.{
  Service, Boot, goes, Failing, failing, checked, attempt, loaded, ◌>>◌, announce_chaos, launch,
}
use lab_env.Service.Main.Rules.{Ends, stopped, went, bind-Ends, exit-Ends}
use lab_env.Service.Main.Announced.{
  Silent, Named, Live, create_loading-Does, write_pid-Does, create_healthy-Does, set_status-Live,
  remove_loading-Does, probe-Ends, warned-Ends, announce-Live,
}

module _ (b : Boot) where
  -- The configuration was loaded.
  abbrev Configured : Config → Type 0
  Configured cfg = load b.yaml b.getenv b.config_text ≡ ok cfg

  loaded-Ends :
      (r : Result Config) (s : Service)
      → load b.yaml b.getenv b.config_text ≡ r
      → Silent b.self s.host
      → Ends (λ cfg h. Silent b.self h × Configured cfg) (Silent b.self) (loaded r s)
  unfolding loaded
  loaded-Ends (err e) s is silent = stopped 1 _ silent
  loaded-Ends (ok cfg) s is silent = went cfg s (silent, is)

  opened-Ends :
      (how : String) (e : Option Error) (s : Service)
      → Silent b.self s.host
      → Ends (λ u. Silent b.self) (Silent b.self) (checked (Failing.to_stderr how) e s)
  unfolding checked failing
  opened-Ends how none s silent = went tt s silent
  opened-Ends how (some e) s silent = stopped 1 _ silent

  -- The steps behind the healthy marker.
  settled-Ends :
      (cfg : Config) (s : Service)
      → Configured cfg
      → Live b.self s.host
      → Ends
          (λ cfg h. Live b.self h × Configured cfg)
          (Silent b.self)
          ((attempt (Failing.to_warning "removing loading marker") remove_loading
              >> (attempt (Failing.to_warning "setting status=Running") (set_status "Running")
                  >> (announce_chaos cfg >> (λ s. (goes cfg, s)))))
            s)
  settled-Ends cfg s is live =
      bind-Ends (λ u. Live b.self) _ (Silent b.self) _ _ s
        (warned-Ends b.self _ _ s (remove_loading-Does b.self) live)
        (λ u s1 live1.
          bind-Ends (λ u. Live b.self) _ (Silent b.self) _ _ s1
            (warned-Ends b.self _ _ s1 (set_status-Live b.self "Running") live1)
            (λ u s2 live2.
              bind-Ends (λ u. Live b.self) _ (Silent b.self) _ _ s2
                (announce-Live b.self cfg s2 live2) (λ u s3 live3. went cfg s3 (live3, is))))

  -- Steps 3 to 14 of the start, which follow Init, from signal files without a healthy marker and
  -- with no earlier moment at which one stood beside another pid, with whatever write or removal
  -- refused: where the start succeeds, the configuration was loaded, the healthy marker is there and
  -- the pid file names this process; where it exits, there is no healthy marker; and at no moment on
  -- the way does a healthy marker stand beside another pid.
  pub launch-Live :
      (s : Service)
      → Silent b.self s.host
      → Ends
          (λ cfg h. Live b.self h × (load b.yaml b.getenv b.config_text ≡ ok cfg))
          (Silent b.self)
          (launch b s)
  unfolding launch failing
  launch-Live s silent =
      bind-Ends (λ u. Silent b.self) _ (Silent b.self) _ _ s
        (exit-Ends (Silent b.self) (Silent b.self) (Silent b.self) create_loading
          "signals.CreateLoading failed: %w" s (create_loading-Does b.self) silent).0
        (λ u s1 quiet1.
          bind-Ends (λ cfg h. Silent b.self h × Configured cfg) _ (Silent b.self) _ _ s1
            (loaded-Ends _ s1 refl quiet1)
            (λ cfg s2 (quiet2, is).
              bind-Ends (λ u. Silent b.self) _ (Silent b.self) _ _ s2
                (opened-Ends _ b.open_log_error s2 quiet2)
                (λ u s3 quiet3.
                  bind-Ends (λ u. Silent b.self) _ (Silent b.self) _ _ s3 (went tt _ quiet3)
                    (λ u s4 quiet4.
                      bind-Ends (λ u. Named b.self) _ (Silent b.self) _ _ s4
                        (exit-Ends (Silent b.self) (Named b.self) (Silent b.self) (write_pid b.self)
                          "writing PID file" s4 (write_pid-Does b.self) quiet4).1
                        (λ u s5 named5.
                          bind-Ends (λ u. Named b.self) _ (Silent b.self) _ _ s5
                            (probe-Ends b.self b.probe_error s5 named5)
                            (λ u s6 named6.
                              bind-Ends (λ u. Named b.self) _ (Silent b.self) _ _ s6
                                (went tt _ named6)
                                (λ u s7 named7.
                                  bind-Ends (λ u. Live b.self) _ (Silent b.self) _ _ s7
                                    (exit-Ends (Named b.self) (Live b.self) (Silent b.self)
                                      create_healthy "creating healthy marker" s7
                                      (create_healthy-Does b.self) named7).1
                                    (λ u s8 live8. settled-Ends cfg s8 is live8))))))))
