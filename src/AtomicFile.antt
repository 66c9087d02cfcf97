-- ===== src/AtomicFile.antt =====
-- Replacing a file by writing a temporary one beside it and renaming it: the pattern of
-- `Store.Write` (internal/state/store.go), `Real.atomicWrite` (internal/executor/real.go) and
-- `writeAtomic` (service/signals/signals.go), each with its own list of stages. `C` is what a file
-- can hold, `target` what the final path shows to a reader.
pub mod Crash
use lab_env.Common.{String, Option, none, some, List, [], ◌∷◌, Bool, true, false}
use lab_env.Common.Errors.{Error}

pub data Stage : Type 0 where
  make_dir create_temp write sync close chmod chown rename : Stage

pub data TempFile (C : Type 0) : Type 0 where
  missing empty partial : TempFile C
  full : C → TempFile C

-- `torn` is what a reader meets in a file that has not got all of its bytes.
pub record Files (C : Type 0) : Type 0 where
  pub target : C
  pub temp : TempFile C
  pub torn : C

-- Which stages of a write the operating system refuses.
abbrev pub Refusals : Type 0
Refusals = Stage → Option Error

abbrev pub no_refusal : Refusals
no_refusal stage = none

-- What a write shows: its error with the stage, the files at the end, and every state of the files
-- that another process can meet on the way, the last one first.
pub record Run (C : Type 0) : Type 0 where
  pub error : Option (Stage × Error)
  pub files : Files C
  pub seen : List (Files C)

module _ {C : Type 0} where
  -- The final path after a rename: the temporary file is there as far as it was written.
  abbrev pub renamed : TempFile C → Files C → C
  renamed TempFile.missing fs = fs.target
  renamed TempFile.empty fs = fs.torn
  renamed TempFile.partial fs = fs.torn
  renamed (TempFile.full c) fs = c

  -- The effect of a stage that succeeds.
  pub stage_effect : Stage → C → Files C → Files C
  stage_effect Stage.create_temp c fs = record fs { temp = TempFile.empty }
  stage_effect Stage.write c fs = record fs { temp = TempFile.full c }
  stage_effect Stage.rename c fs = record fs {
    target = renamed fs.temp fs;
    temp = TempFile.missing;
  }
  stage_effect _ c fs = fs

  -- The effect of a stage that fails: a write may leave a part of its bytes.
  pub stage_failure : Stage → Files C → Files C
  stage_failure Stage.write fs = record fs { temp = TempFile.partial }
  stage_failure _ fs = fs

  -- The deferred `os.Remove(tmpPath)` of a failed write; before `CreateTemp` there is none.
  pub cleanup : Files C → Files C
  cleanup fs = record fs { temp = TempFile.missing }

  -- A stage with the rest of the write, which is made only if the stage succeeds.
  pub run_stage : Option Error → Stage → Run C → Files C → List (Files C) → Run C
  unfolding stage_failure cleanup
  run_stage none stage next fs seen = next
  run_stage (some e) stage next fs seen =
      let stopped = stage_failure stage fs in
      record {
        error = some (stage, e);
        files = cleanup stopped;
        seen = cleanup stopped ∷ stopped ∷ seen;
      }

  -- The stages in their order, until one fails.
  unfoldable pub replace_file : Refusals → List Stage → C → Files C → List (Files C) → Run C
  unfolding run_stage stage_effect
  replace_file refuses [] c fs seen = record { error = none; files = fs; seen = seen }
  replace_file refuses (stage ∷ rest) c fs seen =
      let fs' = stage_effect stage c fs in
      run_stage (refuses stage) stage (replace_file refuses rest c fs' (fs' ∷ seen)) fs seen

-- The stages of `Store.Write`.
abbrev pub store_stages : List Stage
store_stages =
    Stage.make_dir ∷ Stage.create_temp ∷ Stage.write ∷ Stage.sync ∷ Stage.close ∷ Stage.chmod
    ∷ Stage.rename ∷ []

-- The stages of `Real.atomicWrite` with an owner.
abbrev pub executor_stages : List Stage
executor_stages =
    Stage.make_dir ∷ Stage.create_temp ∷ Stage.write ∷ Stage.sync ∷ Stage.close ∷ Stage.chmod
    ∷ Stage.chown ∷ Stage.rename ∷ []

-- The stages of the service's `writeAtomic`.
abbrev pub signal_stages : List Stage
signal_stages = Stage.create_temp ∷ Stage.write ∷ Stage.close ∷ Stage.chmod ∷ Stage.rename ∷ []
