-- ===== src/Service/Logging/Checked.antt =====
-- service/logging/logging.go and internal/conformance/catalog.go: what the log checks of the control
-- plane find in the log of the service.
use lab_env.Common.{
  ℕ, zero, suc, All, ◌⊎◌, drop, ap, append-nil, String, ◌≡◌, ◌≢◌, refl, true, none, some, Option,
  List, [], ◌∷◌, ◌++◌, length, arith, subst, sym, nat_eq, string_eq, ◌==◌, ◌≤◌, if◌then◌else◌,
  length-append,
}
use lab_env.Common.Errors.{ok}
use lab_env.Common.Bytes.{Bytes, codes, newline, has_text}
use lab_env.Common.Occurs.{has_text-around}
use lab_env.Conformance.Observer.{Observer, FileInfo}
use lab_env.Conformance.Catalog.Outcomes.{
  Json, passes, size_outcome, last_line_outcome, startup_outcome, log_line_outcome,
}
use lab_env.Conformance.Catalog.Files.{check_l001, check_l002, check_l003}
use lab_env.Config.{log_path}
use lab_env.Service.Logging.{
  Encoder, Call, Logger, Level, Item, line_of, appended, write, write_all, build_entry,
}
use lab_env.Service.Logging.Lines.{Plain, Ended, last_line-append, append-Ended}

-- The call that main makes at the start.
abbrev pub startup : String → Item → Item → Item → Call
startup ts addr app_env chaos = record {
  ts = ts;
  level = Level.info;
  msg = "server started";
  kvs =
      Item.string "addr"
      ∷ addr
      ∷ Item.string "app_env"
      ∷ app_env
      ∷ Item.string "chaos_active"
      ∷ chaos
      ∷ [];
}

abbrev pub startup_text : Bytes
startup_text = codes "\"msg\":\"server started\""

-- The text of an entry is one line that holds a JSON value.
abbrev pub Valid : Json → Bytes → Type 0
Valid j line = Plain line × (line ≢ []) × (j.value line ≡ none)

-- What an entry has for a key.
abbrev pub find : String → List (String × Item) → Option Item
find key [] = none
find key ((k, v) ∷ entry) = if k == key then some v else find key entry

-- A write that succeeds, or that fails before its first byte.
abbrev pub Clean : Option ℕ → Type 0
Clean failure = (failure ≡ none) ⊎ (failure ≡ some 0)

-- A log whose last line is a JSON value, and that has the entry of the start.
abbrev Logged : Json → Bytes → Type 0
Logged j file =
    (front : Bytes) × (line : Bytes) × (file ≡ front ++ (line ++ newline ∷ []))
    × Ended front
    × Valid j line
    × (has_text file startup_text ≡ true)

later-Clean : (failures : List (Option ℕ)) → All Clean failures → All Clean (drop 1 failures)
later-Clean [] clean = tt
later-Clean (f ∷ failures) (clean, later) = later

module _ (x : Encoder) (j : Json) where
  -- A log after one more line.
  line-Logged :
      (line : Bytes) (file : Bytes)
      → Valid j line
      → Logged j file
      → Logged j (file ++ (line ++ newline ∷ []))
  line-Logged line file valid (front, last, is, ended, old, found) = (
    file,
    line,
    refl,
    rw is (append-Ended front last),
    valid,
    has_text-around [] file (line ++ newline ∷ []) startup_text found,
  )

  appended-Logged :
      (line : Bytes) (failures : List (Option ℕ)) (file : Bytes)
      → All Clean failures
      → Valid j line
      → Logged j file
      → Logged j (appended (line ++ newline ∷ []) failures file)
  unfolding appended
  appended-Logged line [] file clean valid logged = line-Logged line file valid logged
  appended-Logged line (none ∷ rest) file clean valid logged = line-Logged line file valid logged
  appended-Logged line (some zero ∷ rest) file clean valid logged =
      subst (Logged j) (sym (append-nil file)) logged
  appended-Logged line (some (suc n) ∷ rest) file (clean, later) valid logged =
      absurd (ground (arith, clean))

  line_passes : (line : Bytes) → line ≢ [] → j.value line ≡ none → log_line_outcome j line ≡ passes
  unfolding log_line_outcome
  line_passes [] some_ valid = absurd (some_ refl)
  line_passes (c ∷ line) some_ valid = rw valid refl

  length-line : (front line : Bytes) → 1 ≤ length (front ++ (line ++ newline ∷ []))
  length-line front line =
      omega (arith, length-append front (line ++ newline ∷ []), length-append line (newline ∷ []))

  Logged-checks :
      {S : Type 0} (o : Observer S) (sys : S) (file : Bytes) (info : FileInfo)
      → o.read_file log_path sys ≡ ok file
      → o.stat log_path sys ≡ ok info
      → info.size ≡ length file
      → Logged j file
      → (check_l001.execute o sys ≡ passes)
        × ((check_l002 j).execute o sys ≡ passes)
        × (check_l003.execute o sys ≡ passes)
  unfolding check_l001 check_l002 check_l003 size_outcome last_line_outcome startup_outcome
  Logged-checks o sys file info read stat size
        (front, line, is, ended, (plain, some_, valid), found) =
      let long = subst (λ f. 1 ≤ length f) (sym is) (length-line front line) in
      rw (read, stat)
        (
          ground (arith, size, long),
          rw (is, last_line-append front line ended plain some_) (line_passes line some_ valid),
          rw found refl,
        )

  module _
      (marshals : (entry : List (String × Item))
        → (line : Bytes) × (x.marshal entry ≡ ok line) × Valid j line) where
    write-Logged :
        (c : Call) (l : Logger)
        → All Clean l.failures
        → Logged j l.file
        → Logged j (write x c l).file
    unfolding write line_of
    write-Logged c l clean logged =
        let (line, is, valid) = marshals (build_entry c.ts c.level c.msg c.kvs) in
        rw is (appended-Logged line l.failures l.file clean valid logged)

    write_all-Logged :
        (calls : List Call) (l : Logger)
        → All Clean l.failures
        → Logged j l.file
        → Logged j (write_all x calls l).file
    unfolding write_all write
    write_all-Logged [] l clean logged = logged
    write_all-Logged (c ∷ calls) l clean logged =
        write_all-Logged calls (write x c l) (later-Clean l.failures clean)
          (write-Logged c l clean logged)

    -- The entry of the start in a log that was empty or ended with a newline.
    startup-Logged :
        (ts : String) (addr app_env chaos : Item) (l : Logger) (later : List (Option ℕ))
        → ((entry : List (String × Item)) (line : Bytes)
            → find "msg" entry ≡ some (Item.string "server started")
            → x.marshal entry ≡ ok line
            → has_text line startup_text ≡ true)
        → Ended l.file
        → l.failures ≡ none ∷ later
        → Logged j (write x (startup ts addr app_env chaos) l).file
    unfolding write line_of appended build_entry
    startup-Logged ts addr app_env chaos l later shows ended next =
        let entry : List (String × Item) =
          ("ts", Item.string ts)
          ∷ ("level", Item.string "info")
          ∷ ("msg", Item.string "server started")
          ∷ ("addr", addr)
          ∷ ("app_env", app_env)
          ∷ ("chaos_active", chaos)
          ∷ [] in
        let (line, is, valid) = marshals entry in
        rw (is, next)
          (
            l.file,
            line,
            refl,
            ended,
            valid,
            has_text-around l.file line (newline ∷ []) startup_text (shows entry line refl is),
          )

    -- Where encoding/json gives one line of JSON for every entry, with the message of the start as a
    -- field of its own, and the log was empty or ended with a newline and takes the entry of the
    -- start: whatever is logged afterwards, and whichever of these later writes fail before their first
    -- byte, an observer of the log finds L-001, L-002 and L-003 passing.
    pub write_all-checks :
        {S : Type 0} (o : Observer S) (sys : S) (info : FileInfo) (ts : String)
        (addr app_env chaos : Item) (calls : List Call) (l : Logger) (later : List (Option ℕ))
        → ((entry : List (String × Item)) (line : Bytes)
            → find "msg" entry ≡ some (Item.string "server started")
            → x.marshal entry ≡ ok line
            → has_text line startup_text ≡ true)
        → Ended l.file
        → l.failures ≡ none ∷ later
        → All Clean later
        → o.read_file log_path sys ≡ ok (write_all x (startup ts addr app_env chaos ∷ calls) l).file
        → o.stat log_path sys ≡ ok info
        → info.size ≡ length (write_all x (startup ts addr app_env chaos ∷ calls) l).file
        → (check_l001.execute o sys ≡ passes)
          × ((check_l002 j).execute o sys ≡ passes)
          × (check_l003.execute o sys ≡ passes)
    unfolding write_all write
    write_all-checks o sys info ts addr app_env chaos calls l later shows ended next clean read stat
          size =
        Logged-checks o sys (write_all x (startup ts addr app_env chaos ∷ calls) l).file info read
          stat size
          (write_all-Logged calls (write x (startup ts addr app_env chaos) l)
            (subst (All Clean) (ap (drop 1) (sym next)) clean)
            (startup-Logged ts addr app_env chaos l later shows ended next))
