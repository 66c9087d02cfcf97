-- ===== src/Examples.antt =====
-- A small concrete system for the tests: its state is the list of the operations that were
-- performed on it, every operation succeeds, and every observation is a healthy one.
pub mod Commands
pub mod Locks
pub mod Files
pub mod Checks
pub mod Operations
pub mod Requests
pub mod Runs
pub mod Services
pub mod Documents
pub mod Logs
use lab_env.Common.{ℕ, true, false, String, Option, none, some, List, [], ◌∷◌, ◌++◌}
use lab_env.Common.Errors.{Result, ok, Error, message}
use lab_env.Common.Bytes.{codes}
use lab_env.AtomicFile.{TempFile}
use lab_env.Conformance.Observer.{Observer}
use lab_env.Conformance.Catalog.{catalog}
use lab_env.Conformance.Catalog.Outcomes.{Json}
use lab_env.State.{State}
use lab_env.State.File.{File, ActiveFault, spec_version_text}
use lab_env.State.Store.{Content, Disk}
use lab_env.Executor.{Op, Executor}
use lab_env.Executor.Machine.{Machine}
use lab_env.Executor.Lock.{LockFile, LockState, Process, new_lock}
use lab_env.Cmd.{Env, World, CommandResult}

abbrev pub Sys : Type 0
Sys = List Op

abbrev pub observer : Observer (Machine Sys)
observer = record {
  stat = λ path s. ok (record { size = 1 });
  read_file = λ path s. ok (codes "data");
  check_process = λ name user s. ok (record { running = true; pid = 7; user = user });
  check_port = λ addr s. ok (record { listening = true; addr = addr });
  check_endpoint =
      λ url skip s. ok (record { status_code = 200; reachable = true; body = codes "{}" });
  resolve_host = λ host s. ok "127.0.0.1";
  service_active = λ name s. ok true;
  service_enabled = λ name s. ok true;
  run_command = λ name args s. ok (codes "data");
}

abbrev pub executor : Executor (Machine Sys)
executor = record {
  observer = observer;
  perform = λ op m. (ok tt, record m { sys = m.sys ++ op ∷ [] });
}

abbrev pub json : Json
json = record { status = λ b. ok "ok"; value = λ b. none }

abbrev pub process : Process
process = record {
  self = 42;
  running = λ pid. false;
  mkdir_error = none;
  create_error = none;
  removes = true;
  room = 20;
}

abbrev pub env : Env Sys
env = record {
  observer = observer;
  executor = executor;
  json = json;
  checks = catalog json;
  process = process;
  lock_fuel = 2;
  clock = record { started = 1; suite_at = 2; stamped = 3; finished = 4 };
}

abbrev pub file_of : State → Option ActiveFault → File
file_of s fault = record {
  spec_version = spec_version_text;
  state = s;
  classification_valid = true;
  active_fault = fault;
  last_validate = none;
  last_reset = none;
  last_provision = none;
  last_status_at = none;
  history = [];
}

abbrev pub disk_of : File → Disk
disk_of f = record {
  files = record {
    target = Content.json f;
    temp = TempFile.missing;
    torn = Content.malformed (message "unexpected end of JSON input");
  };
  refusals = [];
}

abbrev pub world_of : File → World Sys
world_of f = record {
  machine = record { sys = []; audit = none };
  disk = disk_of f;
  locks = record { at_path = LockFile.absent; lock = new_lock };
  warnings = [];
  printed = [];
}

abbrev pub conformant_world : World Sys
conformant_world = world_of (file_of State.conformant none)

abbrev pub faulty_file : File
faulty_file =
    file_of State.degraded (some (record { id = "F-004"; applied_at = 1; forced = false }))

-- What a command returns.
abbrev pub returned :
    World Sys → Option (CommandResult Sys × World Sys) → CommandResult Sys × World Sys
returned w none =
    (record { value = none; exit_code = 0; err = some (message "does not return") }, w)
returned w (some out) = out
