-- ===== src/State/Store/History.antt =====
-- internal/state/store.go: the history is a bounded queue, oldest entry first.
use lab_env.Common.{
  ◌-◌, ◌≤◌, ◌<◌, ◌≡◌, List, [], ◌∷◌, ◌++◌, length, take, take-append-drop, length-append,
  length-drop, arith, refl,
}
use lab_env.State.File.{File, HistoryEntry}
use lab_env.State.Store.{append_history, trim_history, history_max_entries}

-- The entries that an appended entry pushes out.
abbrev pub pushed_out : List HistoryEntry → List HistoryEntry
pushed_out entries = take (length entries - history_max_entries) entries

pub trim_history_lem :
    (entries : List HistoryEntry)
    → (pushed_out entries ++ trim_history entries ≡ entries)
      × (length (trim_history entries) ≤ history_max_entries)
unfolding trim_history
trim_history_lem entries = ground (
  arith,
  take-append-drop (length entries - 50) entries,
  length-drop (length entries - 50) entries,
)

trim_history_short :
    (entries : List HistoryEntry)
    → length entries ≤ history_max_entries
    → trim_history entries ≡ entries
unfolding trim_history
trim_history_short entries h = ground arith

-- The history with the new entry is cut at the front only: what is pushed out, followed by what is
-- kept, is the old history with the new entry behind it; at most 50 entries are kept, and below
-- that bound nothing is pushed out. Nothing else of the file changes.
pub append_history_fifo :
    (entry : HistoryEntry) (f : File)
    → let kept = (append_history entry f).history in
      (pushed_out (f.history ++ entry ∷ []) ++ kept ≡ f.history ++ entry ∷ [])
      × (length kept ≤ history_max_entries)
      × (length f.history < history_max_entries → kept ≡ f.history ++ entry ∷ [])
      × (append_history entry f ≡ record f { history = kept })
unfolding append_history
append_history_fifo entry f =
    let trimmed = trim_history_lem (f.history ++ entry ∷ []) in
    (
      trimmed.0,
      trimmed.1,
      λ room. trim_history_short _ (omega (arith, length-append f.history (entry ∷ []))),
      refl,
    )
