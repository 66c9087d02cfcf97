-- ===== src/Examples/Files.antt =====
-- Writes of the state file, and its history.
use lab_env.Common.{ℕ, true, false, ◌≡◌, none, some, refl, [], ◌∷◌, arith, All}
use lab_env.Common.Errors.{ok, message}
use lab_env.AtomicFile.{
  Stage, TempFile, Files, Refusals, store_stages, executor_stages, signal_stages, replace_file,
}
use lab_env.AtomicFile.Crash.{Whole, replace_file-Whole}
use lab_env.State.{State, is_valid}
use lab_env.State.File.{HistoryEntry}
use lab_env.State.Store.{read, write, append_history}
use lab_env.State.Store.Recovery.{read-write, stamped}
use lab_env.State.Store.History.{append_history_fifo}
use lab_env.Examples.{disk_of, faulty_file, file_of}

-- The disk is full when the temporary file is written.
abbrev full_disk : Refusals
full_disk Stage.write = some (message "no space left on device")
full_disk _ = none

abbrev number_file : Files ℕ
number_file = record { target = 1; temp = TempFile.missing; torn = 0 }

replace_file-Whole_example :
    All (Whole 1 2) (replace_file full_disk store_stages 2 number_file []).seen
    × All (Whole 1 2) (replace_file full_disk executor_stages 2 number_file []).seen
    × All (Whole 1 2) (replace_file full_disk signal_stages 2 number_file []).seen
replace_file-Whole_example = replace_file-Whole full_disk 2 number_file refl

conformant-write : (write (file_of State.conformant none) (disk_of faulty_file)).0 ≡ none
unfolding write
conformant-write = refl

conformant-is_valid : is_valid State.conformant ≡ true
unfolding is_valid
conformant-is_valid = refl

read-write_example :
    read (write (file_of State.conformant none) (disk_of faulty_file)).1
    ≡ ok (stamped (file_of State.conformant none))
read-write_example =
    (read-write (file_of State.conformant none) (disk_of faulty_file)).0 conformant-write
      conformant-is_valid

abbrev entry : HistoryEntry
entry = record {
  ts = 1;
  from = State.broken;
  to = State.conformant;
  command = "lab reset --tier R2";
  fault = "";
  forced = false;
}

append_history_fifo_example : (append_history entry faulty_file).history ≡ entry ∷ []
append_history_fifo_example = (append_history_fifo entry faulty_file).2 (omega arith)
