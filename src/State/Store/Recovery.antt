-- ===== src/State/Store/Recovery.antt =====
-- internal/state/store.go: what a reader of state.json has after a write, successful or not.
use lab_env.Common.{[], inl, inr, ◌⊎◌, ◌≡◌, ◌≢◌, true, none, arith, false, []}
use lab_env.Common.Errors.{Result-cases, ok, Error, err}
use lab_env.State.{is_valid}
use lab_env.State.File.{File, spec_version_text}
use lab_env.State.Store.{Disk, read, write, invalidate_classification}

-- The file as `Write` stamps it.
abbrev pub stamped : File → File
stamped f = record f { spec_version = spec_version_text }

-- A write that reports no error is read back as it was stamped, if its state is one of the six; a
-- write that reports an error, at whatever stage, leaves what a reader gets as it was.
pub read-write :
    (f : File) (d : Disk)
    → (((write f d).0 ≡ none) → is_valid f.state ≡ true → read (write f d).1 ≡ ok (stamped f))
      × ((write f d).0 ≢ none → read (write f d).1 ≡ read d)
unfolding read write
read-write f d = ground arith

pub valid_of_read : (d : Disk) (f : File) → read d ≡ ok f → is_valid f.state ≡ true
unfolding read
valid_of_read d f e = ground arith

pub read-cases : (d : Disk) → ((f : File) × (read d ≡ ok f)) ⊎ ((e : Error) × (read d ≡ err e))
read-cases d = Result-cases (read d)

-- Invalidating a readable state file, when its write succeeds, clears the validity flag and leaves
-- the state, the fault and the history; an unreadable file or a failed write changes nothing that
-- a reader gets, and is reported.
pub read-invalidate_classification :
    (d : Disk)
    → ((f : File)
        → read d ≡ ok f
        → (invalidate_classification d).0 ≡ none
        → read (invalidate_classification d).1
          ≡ ok (stamped (record f { classification_valid = false })))
      × ((invalidate_classification d).0 ≢ none → read (invalidate_classification d).1 ≡ read d)
      × ((e : Error) → read d ≡ err e → (invalidate_classification d).0 ≢ none)
unfolding invalidate_classification
read-invalidate_classification d = (
  λ f e.
      ground (arith, valid_of_read d f e, read-write (record f { classification_valid = false }) d),
  elim (read-cases d) [
    | inl (f, e) ↦ ground (arith, read-write (record f { classification_valid = false }) d)
    | inr (x, e) ↦ ground arith
  ],
  λ x e. ground arith,
)

-- Where the operating system refuses nothing, a write succeeds.
pub write_accepted : (f : File) (d : Disk) → d.refusals ≡ [] → (write f d).0 ≡ none
unfolding write
write_accepted f d h = ground arith
