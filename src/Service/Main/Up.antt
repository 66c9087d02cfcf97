-- ===== src/Service/Main/Up.antt =====
-- service/main.go: the end of a start in which nothing is refused.
use lab_env.Common.{String, ◌≡◌, refl, none, Option, subst}
use lab_env.Common.Errors.{Error, ok}
use lab_env.Service.Config.{Config, load}
use lab_env.Service.Signals.{
  Host, create_loading, write_pid, create_healthy, remove_loading, set_status,
}
use lab_env.Service.Main.{
  Service, Boot, Failing, failing, checked, attempt, loaded, launch, announce_chaos, goes, ◌>>◌,
}
use lab_env.Service.Main.Rules.{Ends, went, bind-Ends, attempt-Ends, exit-Ends, Does}
use lab_env.Service.Main.Stopped.{Free}
use lab_env.Service.Main.Running.{
  Never, Named, Marked, Settled, Up, up_status, create_loading-Does, write_pid-Does,
  create_healthy-Does, remove_loading-Does, set_status-Does, probe-Ends, announce-Ends,
}

-- An operation that does not fail.
sure-Ends :
    (Before After : Host → Type 0) (op : Host → Option Error × Host) (msg : String) (s : Service)
    → Does Before After Never op
    → Before s.host
    → Ends (λ (u : Unit {0}). After) Never (attempt (Failing.to_warning msg) op s)
unfolding failing
sure-Ends Before After op msg s does before =
    attempt-Ends Before After Never Never op (Failing.to_warning msg) s does (λ e s' h. absurd h)
      before

module _ (b : Boot) (cfg : Config) where
  -- What is found at the end of the start.
  abbrev pub Started : Config → Host → Type 0
  Started c h = Up b.self (up_status cfg) h × (c ≡ cfg)

  loaded-Ends :
      (s : Service)
      → load b.yaml b.getenv b.config_text ≡ ok cfg
      → Free s.host
      → Ends (λ c h. Free h × (c ≡ cfg)) Never (loaded (load b.yaml b.getenv b.config_text) s)
  unfolding loaded
  loaded-Ends s is free = rw is (went cfg s (free, refl))

  opened-Ends :
      (how : Failing) (s : Service)
      → b.open_log_error ≡ none
      → Free s.host
      → Ends (λ u. Free) Never (checked how b.open_log_error s)
  unfolding checked
  opened-Ends how s opened free = rw opened (went tt s free)

  -- The steps behind the healthy marker.
  settled :
      (c : Config) (s : Service)
      → c ≡ cfg
      → Marked b.self s.host
      → Ends Started Never (
          (attempt (Failing.to_warning "removing loading marker") remove_loading
              >> (attempt (Failing.to_warning "setting status=Running") (set_status "Running")
                  >> (announce_chaos c >> (λ s. (goes c, s)))))
            s)
  settled c s same marked =
      bind-Ends (λ u. Settled b.self) Started Never _ _ s
        (sure-Ends (Marked b.self) (Settled b.self) remove_loading _ s (remove_loading-Does b.self)
          marked)
        (λ u s1 settled1.
          bind-Ends (λ u. Up b.self "Running") Started Never _ _ s1
            (sure-Ends (Settled b.self) (Up b.self "Running") (set_status "Running") _ s1
              (set_status-Does b.self "Running") settled1)
            (λ u s2 up2.
              bind-Ends (λ u. Up b.self (up_status c)) Started Never _ _ s2
                (announce-Ends b.self c s2 up2)
                (λ u s3 up3.
                  went c s3 (subst (λ c. Up b.self (up_status c) s3.host) same up3, same))))

  -- Where the operating system refuses nothing, the configuration loads and the log opens, the start
  -- does not exit: it ends with the pid file of this process, the healthy marker, no loading marker,
  -- and the status Degraded if a chaos mode is active and else Running, also where the probe has
  -- found a state directory that cannot be written.
  pub launch-Started :
      (s : Service)
      → Free s.host
      → load b.yaml b.getenv b.config_text ≡ ok cfg
      → b.open_log_error ≡ none
      → Ends Started Never (launch b s)
  unfolding launch
  launch-Started s free is opened =
      bind-Ends (λ u. Free) Started Never _ _ s
        (exit-Ends Free Free Never create_loading "signals.CreateLoading failed: %w" s
          (create_loading-Does b.self) free).0
        (λ u s1 free1.
          bind-Ends (λ c h. Free h × (c ≡ cfg)) Started Never _ _ s1 (loaded-Ends s1 is free1)
            (λ c s2 (free2, same).
              bind-Ends (λ u. Free) Started Never _ _ s2
                (opened-Ends (Failing.to_stderr "opening log file failed: %w") s2 opened free2)
                (λ u s3 free3.
                  bind-Ends (λ u. Free) Started Never _ _ s3 (went tt _ free3)
                    (λ u s4 free4.
                      bind-Ends (λ u. Named b.self) Started Never _ _ s4
                        (exit-Ends Free (Named b.self) Never (write_pid b.self) "writing PID file"
                          s4 (write_pid-Does b.self) free4).1
                        (λ u s5 named5.
                          bind-Ends (λ u. Named b.self) Started Never _ _ s5
                            (probe-Ends b.self b.probe_error s5 named5)
                            (λ u s6 named6.
                              bind-Ends (λ u. Named b.self) Started Never _ _ s6 (went tt _ named6)
                                (λ u s7 named7.
                                  bind-Ends (λ u. Marked b.self) Started Never _ _ s7
                                    (exit-Ends (Named b.self) (Marked b.self) Never create_healthy
                                      "creating healthy marker" s7 (create_healthy-Does b.self)
                                      named7).1
                                    (λ u s8 marked8. settled c s8 same marked8))))))))
