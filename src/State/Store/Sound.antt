-- ===== src/State/Store/Sound.antt =====
-- internal/state: what every state file that a command writes has, and that a write keeps it.
use lab_env.Common.{
  true, ◌≡◌, ◌≤◌, length, is_some, ◌==◌, arith, Option-cases, inl, inr, subst, sym, false,
}
use lab_env.Common.Errors.{Result, ok, err, state_file_not_found}
use lab_env.State.{State, state_eq, is_valid}
use lab_env.State.File.{File, HistoryEntry}
use lab_env.State.Store.{
  Disk, read, write, invalidate_read, invalidate_classification, append_history,
  history_max_entries,
}
use lab_env.State.Store.Recovery.{read-write}
use lab_env.State.Store.History.{append_history_fifo}

-- The state is one of the six, an active fault is recorded exactly in the state DEGRADED, and the
-- history is bounded.
abbrev pub WellFormed : File → Type 0
WellFormed f =
    (is_valid f.state ≡ true)
    × ((f.state == State.degraded) ≡ is_some f.active_fault)
    × (length f.history ≤ history_max_entries)

abbrev pub SoundRead : Result File → Type 0
SoundRead (ok f) = WellFormed f
SoundRead (err e) = e ≡ state_file_not_found

-- The state file is missing, or it is well-formed.
abbrev pub Sound : Disk → Type 0
Sound d = SoundRead (read d)

pub write-Sound : (f : File) (d : Disk) → WellFormed f → Sound d → Sound (write f d).1
write-Sound f d well sound = elim (Option-cases (write f d).0) [
  | inl e ↦ subst SoundRead (sym ((read-write f d).0 e well.0)) well
  | inr (x, e) ↦ subst SoundRead (sym ((read-write f d).1 (ground (arith, e)))) sound
]

pub append_history-WellFormed :
    (entry : HistoryEntry) (f : File)
    → is_valid f.state ≡ true
    → (f.state == State.degraded) ≡ is_some f.active_fault
    → WellFormed (append_history entry f)
unfolding append_history
append_history-WellFormed entry f valid fault = (valid, fault, (append_history_fifo entry f).1)

-- Whatever sound file was read, and whatever was written since.
pub invalidate_read-Sound :
    (r : Result File) (d : Disk) → SoundRead r → Sound d → Sound (invalidate_read r d).1
unfolding invalidate_read
invalidate_read-Sound (err e) d was sound = sound
invalidate_read-Sound (ok f) d was sound =
    write-Sound (record f { classification_valid = false }) d was sound

pub invalidate_classification-Sound : (d : Disk) → Sound d → Sound (invalidate_classification d).1
unfolding invalidate_classification
invalidate_classification-Sound d sound = invalidate_read-Sound (read d) d sound sound
