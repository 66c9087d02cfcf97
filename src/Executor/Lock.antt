-- ===== src/Executor/Lock.antt =====
-- internal/executor/lock.go: the advisory mutation lock.
pub mod Exclusion
pub mod Stale
use mathlib.Core.Option
use lab_env.Common.{
  is_some, ℕ, zero, suc, Bool, true, false, Option, none, some, ◌∷◌, [], ◌++◌, take, ◌==◌, nat_eq,
  ◌&&◌, is_none, if◌then◌else◌,
}
use lab_env.Common.Errors.{Error, ℤ, lock_held, wrap}
use lab_env.Common.Bytes.{Bytes, newline, trim_space}
use lab_env.Executor.Decimal.{decimal, atoi}

-- What stands at the lock's path.
pub data LockFile : Type 0 where
  absent : LockFile
  unreadable : Error → LockFile
  contents : Bytes → LockFile

-- `Lock` without its path: the pid that holds it (0 at first), and whether its file is open.
pub record Lock : Type 0 where
  pub pid : ℕ
  pub file : Bool

abbrev pub new_lock : Lock
new_lock = record { pid = 0; file = false }

-- The process that runs the code and its system: its pid, the pids that `kill(pid, 0)` finds, and
-- the answers of the operating system to `MkdirAll`, to the creation of a file that is absent, and
-- to `Remove`, and how many bytes of the pid's line the disk takes.
pub record Process : Type 0 where
  pub self : ℕ
  pub running : ℤ → Bool
  pub mkdir_error : Option Error
  pub create_error : Option Error
  pub removes : Bool
  pub room : ℕ

-- The lock file and this process's lock.
pub record LockState : Type 0 where
  pub at_path : LockFile
  pub lock : Lock

-- The line of the holder.
unfoldable pub pid_line : ℕ → Bytes
pid_line pid = decimal pid ++ newline ∷ []

-- What `fmt.Fprintf(f, "%d\n", pid)` leaves in the new file; its error is dropped.
abbrev pub signed : Process → Bytes
signed p = take p.room (pid_line p.self)

-- `os.Remove(l.path)`, its error dropped.
abbrev pub removed : Process → LockFile → LockFile
removed p at_path = if p.removes then LockFile.absent else at_path

live_pid : Process → Option ℤ → Option ℤ
live_pid p none = none
live_pid p (some pid) = if p.running pid then some pid else none

-- The pid of a running process that the file names; none if the file is stale, cannot be read, or
-- is malformed.
unfoldable pub live_holder : Process → LockFile → Option ℤ
unfolding live_pid
live_holder p LockFile.absent = none
live_holder p (LockFile.unreadable e) = none
live_holder p (LockFile.contents b) = live_pid p (atoi (trim_space b))

-- The exclusive creation of a file that is absent.
create : Option Error → Process → LockState → Option Error × LockState
create (some e) p s = (some (wrap "acquiring lock: %w" e), s)
create none p s = (
  none,
  record { at_path = LockFile.contents (signed p); lock = record { pid = p.self; file = true } },
)

-- What `Acquire` does where a file exists: it fails on a live holder, and else removes the file
-- and calls itself, which is `again`.
contend :
    Option ℤ → Option (Option Error × LockState) → LockState → Option (Option Error × LockState)
contend (some pid) again s = some (some (lock_held pid), s)
contend none again s = again

abbrev is_absent : LockFile → Bool
is_absent LockFile.absent = true
is_absent _ = false

-- `Acquire`. The recursive calls of the code take one fuel each; `none` is a recursion that has
-- not ended.
unfoldable pub acquire : ℕ → Process → LockState → Option (Option Error × LockState)
unfolding create contend
acquire zero p s = none
acquire (suc fuel) p s =
    let again = acquire fuel p (record s { at_path = removed p s.at_path }) in
    if is_some p.mkdir_error
    then some (Option.map (wrap "creating lock directory: %w") p.mkdir_error, s)
    else if is_absent s.at_path
    then some (create p.create_error p s)
    else contend (live_holder p s.at_path) again s

-- `Release`
unfoldable pub release : Process → LockState → LockState
release p s =
    if s.lock.pid == p.self
    then record { at_path = removed p s.at_path; lock = record { pid = 0; file = false } }
    else record s { lock = record s.lock { file = false } }

-- `Held`
unfoldable pub held : Process → Lock → Bool
held p l = (l.pid == p.self) && l.file
