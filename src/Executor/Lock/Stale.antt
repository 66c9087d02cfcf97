-- ===== src/Executor/Lock/Stale.antt =====
-- internal/executor/lock.go: lock files that no running process stands behind.
use lab_env.Common.{ℕ, zero, suc, ◌≡◌, ◌≢◌, Option, none, some, true, false, arith, refl}
use lab_env.Common.Errors.{lock_held, Error, wrap, ℤ}
use lab_env.Common.Bytes.{trim_space, trim_left}
use lab_env.Executor.Decimal.{atoi}
use lab_env.Executor.Lock.{LockFile, LockState, Lock, Process, acquire, live_holder, signed, held}
use lab_env.Executor.Lock.Exclusion.{acquire_success}

live_holder-absent : (p : Process) → live_holder p LockFile.absent ≡ none
unfolding live_holder
live_holder-absent p = refl

-- What a call of `Acquire` comes to, without its recursion: the error of the directory, the live
-- holder, the error of the creation, or the lock.
abbrev pub verdict :
    Option Error → Option ℤ → Option Error → Process → LockState → Option Error × LockState
verdict (some e) holder created p s = (some (wrap "creating lock directory: %w" e), s)
verdict none (some pid) created p s = (some (lock_held pid), s)
verdict none none (some e) p s =
    (some (wrap "acquiring lock: %w" e), record s { at_path = LockFile.absent })
verdict none none none p s = (
  none,
  record { at_path = LockFile.contents (signed p); lock = record { pid = p.self; file = true } },
)

pub acquire_total :
    (more : ℕ) (p : Process) (s : LockState)
    → p.removes ≡ true
    → acquire (suc (suc more)) p s
      ≡ some (verdict p.mkdir_error (live_holder p s.at_path) p.create_error p s)
unfolding acquire
acquire_total more p s removes = ground (arith, live_holder-absent p)

-- A file that exists, names no running process and cannot be removed makes `Acquire` call itself
-- for ever.
pub acquire_diverges :
    (fuel : ℕ) (p : Process) (s : LockState)
    → p.removes ≡ false
    → p.mkdir_error ≡ none
    → s.at_path ≢ LockFile.absent
    → live_holder p s.at_path ≡ none
    → acquire fuel p s ≡ none
unfolding acquire
acquire_diverges zero p s kept made exists stale = refl
acquire_diverges (suc fuel) p s kept made exists stale =
    ground (arith, acquire_diverges fuel p s kept made exists stale)

live_holder-unsigned :
    (p q : Process) → p.room ≡ 0 → live_holder q (LockFile.contents (signed p)) ≡ none
unfolding live_holder atoi trim_space trim_left
live_holder-unsigned p q full = rw full refl

-- On a full disk the pid is not written, and the error of that is dropped: the process holds the
-- lock, and while it does, and whether or not it runs, any other process takes the lock too, and
-- both hold it.
pub acquire_unwritten :
    (fuel more : ℕ) (p q : Process) (s s' : LockState) (l : Lock)
    → acquire fuel p s ≡ some (none, s')
    → p.room ≡ 0
    → q.removes ≡ true
    → q.mkdir_error ≡ none
    → q.create_error ≡ none
    → let taken : LockState = record {
      at_path = LockFile.contents (signed q);
      lock = record { pid = q.self; file = true };
    } in
      (acquire (suc (suc more)) q (record { at_path = s'.at_path; lock = l }) ≡ some (none, taken))
      × (held p s'.lock ≡ true)
      × (held q taken.lock ≡ true)
unfolding acquire live_holder held
acquire_unwritten fuel more p q s s' l taken full removes made created =
    ground (arith, acquire_success fuel p s taken, live_holder-unsigned p q full)
