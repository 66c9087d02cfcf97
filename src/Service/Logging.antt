-- ===== src/Service/Logging.antt =====
-- service/logging/logging.go: the entries of the service's log, and the file that they go to.
pub mod Lines
pub mod Checked
use lab_env.Common.{
  ℕ, take, String, Option, none, some, List, [], ◌∷◌, ◌++◌, ◌==◌, string_eq, if◌then◌else◌, drop,
}
use lab_env.Common.Errors.{Error, Result, ok, err}
use lab_env.Common.Bytes.{Bytes, codes, newline}

pub data Level : Type 0 where
  info warn error : Level

abbrev level_text : Level → String
level_text Level.info = "info"
level_text Level.warn = "warn"
level_text Level.error = "error"

-- A key or a value: a string, or another value with its `fmt.Sprint`.
pub data Item : Type 0 where
  string other : String → Item

-- `entry[key] = value` on the map of an entry.
unfoldable pub assign : String → Item → List (String × Item) → List (String × Item)
assign k v [] = (k, v) ∷ []
assign k v ((j, w) ∷ entry) = if j == k then (k, v) ∷ entry else (j, w) ∷ assign k v entry

abbrev key_text : Item → String
key_text (Item.string s) = s
key_text (Item.other s) = s

-- The loop over the pairs, and the value that is left without a pair.
pub assign_pairs : List Item → List (String × Item) → List (String × Item)
unfolding assign
assign_pairs [] entry = entry
assign_pairs (v ∷ []) entry = assign "_unpaired" v entry
assign_pairs (k ∷ v ∷ rest) entry = assign_pairs rest (assign (key_text k) v entry)

-- `buildEntry` at the time with the text `ts`.
unfoldable pub build_entry : String → Level → String → List Item → List (String × Item)
unfolding assign_pairs
build_entry ts level msg kvs = assign_pairs kvs (
    ("ts", Item.string ts)
    ∷ ("level", Item.string (level_text level))
    ∷ ("msg", Item.string msg)
    ∷ [])

-- What the logger uses of encoding/json and of fmt: the text of an entry, and `%q` of a text and of
-- an error.
pub record Encoder : Type 0 where
  pub marshal : List (String × Item) → Result Bytes
  pub quote : String → Bytes
  pub quote_error : Error → Bytes

-- One call of the logger: the text of its time, and its arguments.
pub record Call : Type 0 where
  pub ts : String
  pub level : Level
  pub msg : String
  pub kvs : List Item

-- The log file, and which of the coming writes fail: `none` is a write that succeeds, `some n` one
-- that fails when `n` bytes have been written.
pub record Logger : Type 0 where
  pub file : Bytes
  pub failures : List (Option ℕ)

-- The bytes of an entry.
unfoldable pub line_of : Encoder → Call → Result Bytes → Bytes
line_of x c (ok line) = line ++ newline ∷ []
line_of x c (err e) =
    codes "{\"ts\":"
    ++ (x.quote c.ts
        ++ (codes ",\"level\":\"error\",\"msg\":\"log marshal failed\",\"error\":"
            ++ (x.quote_error e ++ codes "}\n")))

-- One Write, its error dropped: what a failed one has written stays in the file.
unfoldable pub appended : Bytes → List (Option ℕ) → Bytes → Bytes
appended line [] file = file ++ line
appended line (none ∷ rest) file = file ++ line
appended line (some n ∷ rest) file = file ++ take n line

-- `write`, of Info, Warn and Error.
unfoldable pub write : Encoder → Call → Logger → Logger
unfolding line_of appended build_entry
write x c l = record {
  file =
      appended (line_of x c (x.marshal (build_entry c.ts c.level c.msg c.kvs))) l.failures l.file;
  failures = drop 1 l.failures;
}

unfoldable pub write_all : Encoder → List Call → Logger → Logger
unfolding write
write_all x [] l = l
write_all x (c ∷ calls) l = write_all x calls (write x c l)
