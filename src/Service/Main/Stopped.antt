-- ===== src/Service/Main/Stopped.antt =====
-- service/main.go: the end of the service.
use lab_env.Common.{◌≡◌, ap, ◌∙◌, drop, String, refl, none, some, [], ◌∷◌, ◌++◌}
use lab_env.Common.Bytes.{Bytes, codes, newline}
use lab_env.Service.Signals.{
  Host, begin_shutdown, remove_pid, set_status, SignalFile, with_content, remove_file,
}
use lab_env.Service.Signals.Placed.{
  write_atomic-accepted, remove_file-accepted, remove_file-kept, after_write,
}

-- The operating system refuses nothing.
abbrev pub Free : Host → Type 0
Free h = (h.refusals ≡ []) × (h.removals ≡ [])

abbrev pub shutting_down : Bytes
shutting_down = codes "ShuttingDown" ++ newline ∷ []

pub set_status-accepted :
    (status : String) (h : Host)
    → h.refusals ≡ []
    → set_status status h
      ≡ (none, after_write (record h.dir { status = some (codes status ++ newline ∷ []) }) h)
unfolding set_status with_content
set_status-accepted status h free =
    write_atomic-accepted SignalFile.status_file (codes status ++ newline ∷ []) h free

begin_shutdown_lem :
    (h : Host)
    → begin_shutdown h ≡ (remove_file SignalFile.healthy_file (set_status "ShuttingDown" h).1).1
unfolding begin_shutdown
begin_shutdown_lem h = refl

pub remove_pid_lem : (h : Host) → remove_pid h ≡ (remove_file SignalFile.pid_file h).1
unfolding remove_pid
remove_pid_lem h = refl

pub begin_shutdown-dir :
    (h : Host)
    → Free h
    → ((begin_shutdown h).dir ≡ record h.dir { healthy = none; status = some shutting_down })
      × ((begin_shutdown h).removals ≡ [])
      × ((begin_shutdown h).refusals ≡ [])
unfolding with_content
begin_shutdown-dir h (free, may) =
    let stamped = record h.dir { status = some shutting_down } in
    rw (begin_shutdown_lem h, set_status-accepted "ShuttingDown" h free)
      (
        remove_file-accepted SignalFile.healthy_file (after_write stamped h) may,
        (remove_file-kept SignalFile.healthy_file (after_write stamped h)).1 ∙ ap (drop 1) may,
        (remove_file-kept SignalFile.healthy_file (after_write stamped h)).0 ∙ ap (drop 1) free,
      )
