-- ===== src/State/Store.antt =====
-- internal/state/store.go: reading and replacing state.json.
pub mod History
pub mod Recovery
pub mod Sound
use lab_env.Common.{
  ℕ, suc, ◌-◌, ◌<◌, String, Bool, true, false, Option, none, some, List, [], ◌∷◌, ◌++◌, length,
  drop, ltb, if◌then◌else◌,
}
use lab_env.Common.Errors.{
  Error, Result, ok, err, wrap, state_file_not_found, state_file_corrupt, invalid_state,
}
use lab_env.AtomicFile
use lab_env.AtomicFile.{Stage, Files, Refusals, no_refusal, store_stages, replace_file}
use lab_env.State.{State, is_valid}
use lab_env.State.Texts.{state_text}
use lab_env.State.File.{File, HistoryEntry, spec_version_text}

abbrev pub history_max_entries : ℕ
history_max_entries = 50

-- What the path of the state file holds. encoding/json stands between its bytes and `json`: a
-- document is the record that it encodes.
pub data Content : Type 0 where
  absent : Content
  unreadable : Error → Content
  malformed : Error → Content
  json : File → Content

-- The state file with its temporary file, and which stages the coming writes are refused.
pub record Disk : Type 0 where
  pub files : Files Content
  pub refusals : List Refusals

checked : File → Result File
unfolding is_valid state_text
checked f =
    if is_valid f.state then ok f else err (state_file_corrupt (invalid_state (state_text f.state)))

parse : Content → Result File
unfolding checked
parse Content.absent = err state_file_not_found
parse (Content.unreadable e) = err (wrap "reading state file %s: %w" e)
parse (Content.malformed e) = err (state_file_corrupt e)
parse (Content.json f) = checked f

-- `Read`
unfoldable pub read : Disk → Result File
unfolding parse
read d = parse d.files.target

-- The message of a refused stage of `Write`.
stage_message : Stage → String
stage_message Stage.make_dir = "creating state directory %s: %w"
stage_message Stage.create_temp = "creating temp state file: %w"
stage_message Stage.write = "writing temp state file: %w"
stage_message Stage.sync = "syncing temp state file: %w"
stage_message Stage.close = "closing temp state file: %w"
stage_message Stage.chmod = "setting temp state file permissions: %w"
stage_message Stage.rename = "renaming state file: %w"
stage_message Stage.chown = ""

write_error : Option (Stage × Error) → Option Error
unfolding stage_message
write_error none = none
write_error (some (stage, e)) = some (wrap (stage_message stage) e)

next_refusals : List Refusals → Refusals
next_refusals [] = no_refusal
next_refusals (r ∷ rest) = r

-- `Write`: the error, and the disk after it.
unfoldable pub write : File → Disk → Option Error × Disk
unfolding write_error next_refusals replace_file
write f d =
    let stamped = record f { spec_version = spec_version_text } in
    let run =
      replace_file (next_refusals d.refusals) store_stages (Content.json stamped) d.files [] in
    (write_error run.error, record { files = run.files; refusals = drop 1 d.refusals })

unfoldable pub invalidate_read : Result File → Disk → Option Error × Disk
invalidate_read (err e) d = (some (wrap "reading state file for invalidation: %w" e), d)
invalidate_read (ok f) d = write (record f { classification_valid = false }) d

-- `InvalidateClassification`
unfoldable pub invalidate_classification : Disk → Option Error × Disk
unfolding invalidate_read
invalidate_classification d = invalidate_read (read d) d

-- The `if` of `AppendHistory`.
unfoldable pub trim_history : List HistoryEntry → List HistoryEntry
trim_history entries =
    if ltb history_max_entries (length entries)
    then drop (length entries - history_max_entries) entries
    else entries

-- `AppendHistory`
unfoldable pub append_history : HistoryEntry → File → File
unfolding trim_history
append_history entry f = record f { history = trim_history (f.history ++ entry ∷ []) }
