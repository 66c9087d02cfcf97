-- ===== src/Cmd/Provision/Selected.antt =====
-- cmd/reset_provision_history.go: which entries lab history shows.
use lab_env.Common.{
  ◌&&◌, ltb, if◌then◌else◌, ℕ, ◌-◌, ◌≡◌, ◌≤◌, ◌<◌, List, [], ◌++◌, length, take, arith,
  take-append-drop, length-drop,
}
use lab_env.State.File.{HistoryEntry}
use lab_env.Cmd.Provision.{selected}

-- The entries that are left out.
abbrev pub older : ℕ → List HistoryEntry → List HistoryEntry
older last entries =
    if ltb 0 last && ltb last (length entries) then take (length entries - last) entries else []

-- The entries that are shown are the most recent ones: the older ones, followed by them, are the
-- whole history. With a positive number there are as many as asked for, as far as the history goes;
-- with 0 all are shown.
pub selected_lem :
    (last : ℕ) (entries : List HistoryEntry)
    → (older last entries ++ selected last entries ≡ entries)
      × (0 < last → last ≤ length entries → length (selected last entries) ≡ last)
      × (length entries ≤ last → selected last entries ≡ entries)
      × (selected 0 entries ≡ entries)
unfolding selected
selected_lem last entries = ground (
  arith,
  take-append-drop (length entries - last) entries,
  length-drop (length entries - last) entries,
)
