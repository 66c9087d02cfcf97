-- ===== src/Examples/Operations.antt =====
-- The executor on a system that records the commands it starts; the syntax check of nginx fails.
use lab_env.Common.{String, some, List, [], ◌∷◌, ◌++◌, refl, string_eq, if◌then◌else◌, contains}
use lab_env.Common.Errors.{ok, err, message}
use lab_env.Common.Bytes.{codes}
use lab_env.Executor.{Op}
use lab_env.Executor.Exec.{Exec}
use lab_env.Executor.Audit.{AuditLogger}
use lab_env.Executor.Machine.{Machine}
use lab_env.Executor.Real.{System, Embedded, perform_real}
use lab_env.Executor.Real.Audited.{Logged, perform_real-Logged}

abbrev done : Exec (List String) (Unit {0})
done s = (ok tt, s)

abbrev system : System (List String)
system = record {
  dir = λ path. "/";
  mkdir_all = λ path mode. done;
  create_temp = λ dir s. (ok "/tmp-1", s);
  write = λ path bytes. done;
  sync = λ path. done;
  close = λ path. done;
  chmod = λ path mode. done;
  rename = λ from to. done;
  remove = λ path. done;
  sudo =
      λ cmd args s. (if contains "-t" args then err (message "syntax") else ok tt, s ++ cmd ∷ []);
}

abbrev embedded : Embedded
embedded = record { app_config = codes "a"; unit_file = codes "b"; nginx_config = codes "c" }

abbrev logger : AuditLogger
logger = record { command = "lab reset"; entries = [] }

abbrev logging : Machine (List String)
logging = record { sys = []; audit = some logger }

perform_real-Logged_example :
    Logged system embedded 1 2 Op.nginx_reload logger
      (perform_real system embedded 1 2 Op.nginx_reload logging)
perform_real-Logged_example =
    perform_real-Logged system embedded 1 2 Op.nginx_reload logging logger refl
