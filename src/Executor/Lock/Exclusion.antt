-- ===== src/Executor/Lock/Exclusion.antt =====
-- internal/executor/lock.go: while a running process holds the lock, no other process gets it.
use lab_env.Common.{zero, ℕ, suc, ◌≤◌, ◌≡◌, ◌≢◌, none, some, true, false, arith, [], ◌<◌}
use lab_env.Common.Errors.{pos, lock_held}
use lab_env.Common.Bytes.{trim_space-newline}
use lab_env.Executor.Decimal.{decimal, max_int}
use lab_env.Executor.Decimal.RoundTrip.{atoi-decimal, decimal-All, decimal_head}
use lab_env.Executor.Lock.{
  LockFile, Lock, LockState, Process, acquire, release, held, live_holder, live_pid, pid_line,
  removed, signed,
}

decimal-ne-nil : (n : ℕ) → decimal n ≢ []
decimal-ne-nil n e = let (d, ds, head, small) = decimal_head n in cc

-- A file with the line of a running process names that process.
pub live_holder-pid_line :
    (p : Process) (pid : ℕ)
    → pid ≤ max_int
    → p.running (pos pid) ≡ true
    → live_holder p (LockFile.contents (pid_line pid)) ≡ some (pos pid)
unfolding live_holder pid_line
live_holder-pid_line p pid h r = rw (
  trim_space-newline (decimal pid) (decimal-All pid) (decimal-ne-nil pid),
  atoi-decimal pid h,
  live_pid,
  r,
)

-- A successful call leaves what the disk took of the caller's line in the file, and holds the lock.
pub acquire_success :
    (fuel : ℕ) (p : Process) (s : LockState) {s' : LockState}
    → acquire fuel p s ≡ some (none, s')
    → s' ≡ record {
      at_path = LockFile.contents (signed p);
      lock = record { pid = p.self; file = true };
    }
unfolding acquire
acquire_success zero p s h = cc
acquire_success (suc fuel) p s {s' = t} h =
    ground (arith, acquire_success fuel p (record s { at_path = removed p s.at_path }) {s' = t})

-- After a process has taken the lock, however often it had to clear a stale file, and where the
-- disk took its whole line: as long as its pid is running, every other process is refused with that
-- pid, and changes nothing.
pub acquire-excludes :
    (fuel more : ℕ) (p q : Process) (s s' : LockState) (l : Lock)
    → acquire fuel p s ≡ some (none, s')
    → signed p ≡ pid_line p.self
    → p.self ≤ max_int
    → q.running (pos p.self) ≡ true
    → q.mkdir_error ≡ none
    → let seen : LockState = record { at_path = s'.at_path; lock = l } in
      acquire (suc more) q seen ≡ some (some (lock_held (pos p.self)), seen)
unfolding acquire
acquire-excludes fuel more p q s s' l taken whole small alive made =
    ground (arith, acquire_success fuel p s taken, live_holder-pid_line q p.self small alive)

-- Release undoes a successful call: the lock is not held any more, and where the file can be
-- removed it is gone, so that another process takes the lock at its first try.
pub acquire-release :
    (fuel more : ℕ) (p q : Process) (s s' : LockState) (l : Lock)
    → acquire fuel p s ≡ some (none, s')
    → p.removes ≡ true
    → 0 < p.self
    → q.mkdir_error ≡ none
    → q.create_error ≡ none
    → (held p s'.lock ≡ true)
      × (held p (release p s').lock ≡ false)
      × ((release p s').at_path ≡ LockFile.absent)
      × (acquire (suc more) q (record { at_path = (release p s').at_path; lock = l })
          ≡ some (
            none,
            record {
              at_path = LockFile.contents (signed q);
              lock = record { pid = q.self; file = true };
            },
          ))
unfolding acquire release held
acquire-release fuel more p q s s' l taken removes positive made created =
    ground (arith, acquire_success fuel p s taken)
