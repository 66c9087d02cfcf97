-- ===== src/AtomicFile/Crash.antt =====
-- What a reader of the final path can see while a file is replaced, also when the writer is
-- stopped at any point.
use lab_env.Common.{◌≡◌, ◌⊎◌, none, [], All, arith, ◌≢◌}
use lab_env.AtomicFile.{
  Stage, TempFile, Files, Refusals, replace_file, store_stages, executor_stages, signal_stages,
  stage_failure,
}

-- The final path shows the old content or the new one.
abbrev pub Whole : {C : Type 0} → C → C → Files C → Type 0
Whole old new fs = (fs.target ≡ old) ⊎ (fs.target ≡ new)

-- A crash or another process at any moment of a write of the state file, of a file of the executor
-- or of a signal file, whatever stage is refused: the final path shows the complete old content or
-- the complete new one, never a file that has got a part of its bytes.
pub replace_file-Whole :
    {C : Type 0} (refuses : Refusals) (new : C) (fs : Files C)
    → fs.temp ≡ TempFile.missing
    → All (Whole fs.target new) (replace_file refuses store_stages new fs []).seen
      × All (Whole fs.target new) (replace_file refuses executor_stages new fs []).seen
      × All (Whole fs.target new) (replace_file refuses signal_stages new fs []).seen
unfolding replace_file
replace_file-Whole refuses new fs fresh = ground arith

pub stage_failure-target :
    {C : Type 0} (stage : Stage) (fs : Files C) → (stage_failure stage fs).target ≡ fs.target
unfolding stage_failure
stage_failure-target stage fs = ground arith

-- A write of the state file that succeeds shows the new content and leaves no temporary file; one
-- that fails, at any stage, shows what was there before and leaves no temporary file.
pub replace_file_outcome :
    {C : Type 0} (refuses : Refusals) (new : C) (fs : Files C)
    → fs.temp ≡ TempFile.missing
    → let r = replace_file refuses store_stages new fs [] in
      (r.files.temp ≡ TempFile.missing)
      × ((r.error ≡ none) → r.files.target ≡ new)
      × ((r.error ≢ none) → r.files.target ≡ fs.target)
unfolding replace_file
replace_file_outcome refuses new fs = ground arith
