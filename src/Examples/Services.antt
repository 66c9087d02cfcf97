-- ===== src/Examples/Services.antt =====
-- A life of the service, its telemetry, and the observer of the control plane on concrete inputs.
use lab_env.Common.{
  ℕ, ◌≡◌, false, none, some, refl, [], All, ltb, length, ◌==◌, nat_eq, ◌∷◌, List, arith,
}
use lab_env.Common.Errors.{ok, message, ℤ}
use lab_env.Common.Bytes.{Bytes, codes}
use lab_env.AtomicFile.{TempFile}
use lab_env.Executor.Decimal.{decimal}
use lab_env.Service.Config.{load}
use lab_env.Service.Signals.{Host}
use lab_env.Service.Main.{Service, Boot, Event, launch, main}
use lab_env.Service.Main.Rules.{Ends}
use lab_env.Service.Main.Announced.{Silent, Live}
use lab_env.Service.Main.Ready.{launch-Live}
use lab_env.Service.Main.Running.{Never}
use lab_env.Service.Main.Up.{Started, launch-Started}
use lab_env.Service.Main.Drained.{Lives}
use lab_env.Service.Main.Ended.{main-Lives}
use lab_env.Service.Telemetry.{
  FloatOps, Collector, Reading, Signal, tick, cancelled, reads, panics, read_cpu_sample, run,
}
use lab_env.Service.Telemetry.Fields.{fields, get_elem?}
use lab_env.Service.Telemetry.Stat.{read_cpu_sample-fields}
use lab_env.Service.Telemetry.Published.{Shows, run-Shows}
use lab_env.Examples.Requests.{getenv, yaml, config, config-loaded}

-- The files of a service that was killed: its pid, and the loading marker.
abbrev host : Host
host = record {
  dir = record { pid = some (codes "41\n"); healthy = none; loading = some []; status = none };
  seen = [];
  refusals = [];
  removals = [];
}

abbrev service : Service
service = record { host = host; log = []; stderr = []; collecting = false }

-- The state directory cannot be written.
abbrev boot : Boot
boot = record {
  yaml = yaml;
  getenv = getenv;
  config_text = ok [];
  open_log_error = none;
  probe_error = some (message "permission denied");
  self = 42;
}

host-Silent : Silent 42 host
host-Silent = (refl, tt)

launch-Live_example :
    Ends
      (λ cfg h. Live 42 h × (load yaml getenv (ok []) ≡ ok cfg))
      (Silent 42)
      (launch boot service)
launch-Live_example = launch-Live boot service host-Silent

launch-Started_example : Ends (Started boot config) Never (launch boot service)
launch-Started_example = launch-Started boot config service (refl, refl) config-loaded refl

abbrev events : List Event
events = Event.touch_failed ∷ Event.sigterm ∷ Event.sigint ∷ Event.touch_failed ∷ []

main-Lives_example :
    Ends (Lives config.chaos.ignore_sigterm 42 events) Never (main boot none events service)
main-Lives_example = main-Lives boot config none events service (refl, refl) config-loaded refl

-- Whole numbers in place of floating point.
abbrev floats : FloatOps
floats = record {
  Float = ℤ;
  of_int = λ n. n;
  mul = λ a b. a;
  div = λ a b. a;
  parse = λ text. some (ℤ.pos 1);
}

abbrev reading : ℕ → ℕ → Reading
reading now requests = record {
  now = now;
  stat = ok (codes "42 (app) S");
  status = ok (codes "Name:\tapp");
  fds = ok 5;
  statfs = ok (record { blocks = 100; bfree = 25; files = 10; ffree = 9 });
  requests_total = requests;
  errors_total = 0;
  chaos_active = false;
  chaos_modes = [];
}

abbrev collector : Collector ℤ
collector = record {
  start_time = 0;
  pid = 42;
  prev_sample = none;
  file = record { target = none; temp = TempFile.missing; torn = none };
  refusals = [];
  log = [];
}

-- The second tick panics.
abbrev ticks : List (Signal floats)
ticks =
    tick (reads (reading 2 7))
    ∷ tick (panics "nil pointer" none)
    ∷ cancelled
    ∷ tick (reads (reading 3 9))
    ∷ []

run-Shows_example :
    Shows collector (some (reading 2 7)) (run floats (reads (reading 1 0)) ticks collector)
run-Shows_example = run-Shows floats (reads (reading 1 0)) ticks collector refl

-- The line of a process whose name has a closing parenthesis and a space.
abbrev front : Bytes
front = codes "42 (a) b"

abbrev stat_rest : Bytes
stat_rest = codes " S 1 42 42 0 -1 4194304 100 0 0 0 250 30 0 0\n"

stat_rest-fields :
    (get_elem? (fields stat_rest) 11 ≡ some (decimal 250))
    × (get_elem? (fields stat_rest) 12 ≡ some (decimal 30))
unfolding fields get_elem? decimal
stat_rest-fields = (refl, refl)

stat_rest-plain : All (λ c. (c == b')') ≡ false) stat_rest
stat_rest-plain = ground arith

stat_rest-long : ltb (length (fields stat_rest)) 13 ≡ false
unfolding fields
stat_rest-long = refl

read_cpu_sample-fields_example :
    read_cpu_sample 5 (ok (codes "42 (a) b) S 1 42 42 0 -1 4194304 100 0 0 0 250 30 0 0\n"))
    ≡ ok (record { at = 5; user_ms = ℤ.pos 2500; system_ms = ℤ.pos 300 })
read_cpu_sample-fields_example =
    read_cpu_sample-fields 5 front stat_rest 250 30 stat_rest-plain stat_rest-long
      stat_rest-fields.0 stat_rest-fields.1 (omega arith) (omega arith)
