-- ===== src/Examples/Locks.antt =====
-- Two processes at one lock file, and the conversion of a pid.
use lab_env.Common.{true, false, ◌≡◌, none, some, refl, arith}
use lab_env.Common.Errors.{pos, lock_held}
use lab_env.Common.Bytes.{codes, trim_space, trim_left}
use lab_env.Executor.Decimal.{decimal, atoi}
use lab_env.Executor.Lock.{
  acquire, release, held, live_holder, pid_line, signed, LockFile, LockState, Process, new_lock,
}
use lab_env.Executor.Lock.Exclusion.{acquire-excludes, acquire-release}
use lab_env.Executor.Lock.Stale.{acquire_total, acquire_diverges, acquire_unwritten, verdict}
use lab_env.Examples.{process}

abbrev free : LockState
free = record { at_path = LockFile.absent; lock = new_lock }

abbrev taken : LockState
taken = record {
  at_path = LockFile.contents (pid_line 42);
  lock = record { pid = 42; file = true };
}

-- A second process, for which pid 42 is running.
abbrev other : Process
other = record process { self = 43; running = λ pid. true }

-- A process that may not remove the lock file.
abbrev unprivileged : Process
unprivileged = record process { removes = false }

-- A lock file that was created and not written yet.
abbrev unwritten : LockState
unwritten = record { at_path = LockFile.contents (codes ""); lock = new_lock }

taken-by-42 : acquire 2 process free ≡ some (none, taken)
unfolding acquire pid_line decimal
taken-by-42 = refl

process-signed : signed process ≡ pid_line process.self
unfolding pid_line decimal
process-signed = refl

unwritten-stale : live_holder unprivileged (LockFile.contents (codes "")) ≡ none
unfolding live_holder atoi trim_space trim_left
unwritten-stale = refl

acquire-excludes_example :
    acquire 1 other (record { at_path = taken.at_path; lock = new_lock })
    ≡ some (some (lock_held (pos 42)), record { at_path = taken.at_path; lock = new_lock })
acquire-excludes_example =
    acquire-excludes 2 0 process other free taken new_lock taken-by-42 process-signed (omega arith)
      refl refl

acquire-release_example :
    (held process taken.lock ≡ true)
    × (held process (release process taken).lock ≡ false)
    × ((release process taken).at_path ≡ LockFile.absent)
    × (acquire 1 other (record { at_path = (release process taken).at_path; lock = new_lock })
        ≡ some (
          none,
          record {
            at_path = LockFile.contents (signed other);
            lock = record { pid = 43; file = true };
          },
        ))
acquire-release_example =
    acquire-release 2 0 process other free taken new_lock taken-by-42 refl (omega arith) refl refl

acquire_total_example :
    acquire 2 other taken ≡ some (verdict none (live_holder other taken.at_path) none other taken)
acquire_total_example = acquire_total 0 other taken refl

acquire_diverges_example : acquire 5 unprivileged unwritten ≡ none
acquire_diverges_example =
    acquire_diverges 5 unprivileged unwritten refl refl (λ e. ground (arith, e)) unwritten-stale

-- A process on a full disk, and what it leaves.
abbrev unrecorded : Process
unrecorded = record process { room = 0 }

abbrev unsigned : LockState
unsigned = record {
  at_path = LockFile.contents (codes "");
  lock = record { pid = 42; file = true };
}

unsigned-taken : acquire 2 unrecorded free ≡ some (none, unsigned)
unfolding acquire pid_line
unsigned-taken = refl

acquire_unwritten_example :
    (acquire 2 other (record { at_path = unsigned.at_path; lock = new_lock })
      ≡ some (
        none,
        record {
          at_path = LockFile.contents (signed other);
          lock = record { pid = 43; file = true };
        },
      ))
    × (held unrecorded unsigned.lock ≡ true)
    × (held other (record { pid = 43; file = true }) ≡ true)
acquire_unwritten_example =
    acquire_unwritten 2 0 unrecorded other free unsigned new_lock unsigned-taken refl refl refl refl
