-- ===== src/Service/Signals.antt =====
-- service/signals/signals.go: the signal files of the service, which the control plane reads.
pub mod Placed
use lab_env.Common.{ℕ, String, Bool, true, false, Option, none, some, List, [], ◌∷◌, ◌++◌, drop}
use lab_env.Common.Errors.{Error, errorf, cause, nil, text}
use lab_env.Common.Bytes.{Bytes, codes, newline}
use lab_env.AtomicFile.{Stage, TempFile, Refusals, no_refusal, signal_stages, replace_file}
use lab_env.Executor.Decimal.{decimal}

-- The files of the directory; `none` is a file that is not there.
pub record SignalDir : Type 0 where
  pub pid : Option Bytes
  pub healthy : Option Bytes
  pub loading : Option Bytes
  pub status : Option Bytes

pub data SignalFile : Type 0 where
  pid_file healthy_file loading_file status_file : SignalFile

-- The directory, every state of it that another process can meet, the last one first, and what the
-- operating system will refuse: stages of the coming writes, and the coming removals.
pub record Host : Type 0 where
  pub dir : SignalDir
  pub seen : List SignalDir
  pub refusals : List Refusals
  pub removals : List (Option Error)

unfoldable pub content : SignalFile → SignalDir → Option Bytes
content SignalFile.pid_file d = d.pid
content SignalFile.healthy_file d = d.healthy
content SignalFile.loading_file d = d.loading
content SignalFile.status_file d = d.status

unfoldable pub with_content : SignalFile → Option Bytes → SignalDir → SignalDir
with_content SignalFile.pid_file c d = record d { pid = c }
with_content SignalFile.healthy_file c d = record d { healthy = c }
with_content SignalFile.loading_file c d = record d { loading = c }
with_content SignalFile.status_file c d = record d { status = c }

stage_message : Stage → String
stage_message Stage.create_temp = "creating temp file for %s: %w"
stage_message Stage.write = "writing temp file for %s: %w"
stage_message Stage.close = "closing temp file for %s: %w"
stage_message Stage.chmod = "chmod temp file for %s: %w"
stage_message Stage.rename = "renaming temp file to %s: %w"
stage_message _ = ""

abbrev file_path : SignalFile → String
file_path SignalFile.pid_file = "/run/app/app.pid"
file_path SignalFile.healthy_file = "/run/app/healthy"
file_path SignalFile.loading_file = "/run/app/loading"
file_path SignalFile.status_file = "/run/app/status"

pub atomic_error : SignalFile → Option (Stage × Error) → Option Error
unfolding stage_message
atomic_error f none = none
atomic_error f (some (stage, e)) =
    some (errorf (stage_message stage) (text (file_path f) (cause e nil)))

pub next_refusals : List Refusals → Refusals
next_refusals [] = no_refusal
next_refusals (r ∷ rest) = r

-- A directory that another process can meet.
abbrev pub moved : SignalDir → Host → Host
moved d h = record h { dir = d; seen = d ∷ h.seen }

-- `writeAtomic`: the error, and the host after it.
pub write_atomic : SignalFile → Bytes → Host → Option Error × Host
unfolding atomic_error next_refusals content with_content
write_atomic f bytes h =
    let run =
      replace_file (next_refusals h.refusals) signal_stages (some bytes)
        (record { target = content f h.dir; temp = TempFile.missing; torn = some [] }) [] in
    (
      atomic_error f run.error,
      moved (with_content f run.files.target h.dir) (record h { refusals = drop 1 h.refusals }),
    )

-- What `os.Remove` returns.
pub data Removal : Type 0 where
  removed not_exist : Removal
  refused : Error → Removal

pub next_removal : List (Option Error) → Option Error
next_removal [] = none
next_removal (r ∷ rest) = r

pub removal : SignalFile → Option Error → Option Bytes → Host → Removal × Host
unfolding with_content
removal f r none h = (Removal.not_exist, h)
removal f (some e) (some c) h = (Removal.refused e, h)
removal f none (some c) h = (Removal.removed, moved (with_content f none h.dir) h)

-- `os.Remove` of a signal file.
pub remove_file : SignalFile → Host → Removal × Host
unfolding removal next_removal content
remove_file f h =
    removal f (next_removal h.removals) (content f h.dir)
      (record h { removals = drop 1 h.removals })

-- `SetStatus`
unfoldable pub set_status : String → Host → Option Error × Host
unfolding write_atomic
set_status status h = write_atomic SignalFile.status_file (codes status ++ newline ∷ []) h

-- `Init`; the errors of the two removals are dropped.
unfoldable pub init : Host → Option Error × Host
unfolding remove_file set_status
init h =
    let (a, h1) = remove_file SignalFile.loading_file h in
    let (b, h2) = remove_file SignalFile.healthy_file h1 in set_status "Starting" h2

-- `CreateLoading`
unfoldable pub create_loading : Host → Option Error × Host
unfolding write_atomic
create_loading h = write_atomic SignalFile.loading_file [] h

-- `WritePID` of the process `self`.
unfoldable pub write_pid : ℕ → Host → Option Error × Host
unfolding write_atomic
write_pid self h = write_atomic SignalFile.pid_file (decimal self ++ newline ∷ []) h

-- `CreateHealthy`
unfoldable pub create_healthy : Host → Option Error × Host
unfolding write_atomic
create_healthy h = write_atomic SignalFile.healthy_file [] h

abbrev removal_error : Removal → Option Error
removal_error Removal.removed = none
removal_error Removal.not_exist = none
removal_error (Removal.refused e) = some e

-- `RemoveLoading`
unfoldable pub remove_loading : Host → Option Error × Host
unfolding remove_file
remove_loading h = let (r, h') = remove_file SignalFile.loading_file h in (removal_error r, h')

-- `BeginShutdown`; both errors are dropped.
unfoldable pub begin_shutdown : Host → Host
unfolding set_status remove_file
begin_shutdown h =
    let (a, h1) = set_status "ShuttingDown" h in
    let (b, h2) = remove_file SignalFile.healthy_file h1 in h2

-- `RemovePID`
unfoldable pub remove_pid : Host → Host
unfolding remove_file
remove_pid h = (remove_file SignalFile.pid_file h).1
