-- ===== src/Service/Telemetry/Published.antt =====
-- service/telemetry/telemetry.go: what the telemetry file shows.
use lab_env.Common.{◌≡◌, refl, List, [], ◌∷◌, Option, none, some, String}
use lab_env.AtomicFile.{replace_file}
use lab_env.Service.Telemetry.{
  FloatOps, Collector, Reading, Snapshot, Attempt, reads, panics, Signal, tick, cancelled, write,
  safe_write, loop, run, snapshot, next_refusals, CpuSample,
}

-- The reading after one more write, if there is one: a write that panics has none.
abbrev pub read_by : {x : FloatOps} → Attempt x → Option Reading → Option Reading
read_by (reads r) last = some r
read_by (panics msg sample) last = last

-- The reading of the last tick that did not panic before the first cancellation.
abbrev pub last_reading : {x : FloatOps} → List (Signal x) → Option Reading → Option Reading
last_reading [] last = last
last_reading (cancelled ∷ signals) last = last
last_reading (tick a ∷ signals) last = last_reading signals (read_by a last)

-- The file shows a snapshot of the reading, or where there is none what it showed before.
abbrev pub Shows : {F : Type 0} → Collector F → Option Reading → Collector F → Type 0
Shows before none c = c.file.target ≡ before.file.target
Shows {F} before (some r) c =
    (s : Snapshot F) × (c.file.target ≡ some s)
    × (s.ts ≡ r.now)
    × (s.requests_total ≡ r.requests_total)
    × (s.errors_total ≡ r.errors_total)
    × (s.chaos_active ≡ r.chaos_active)
    × (s.chaos_modes ≡ r.chaos_modes)

module _ (x : FloatOps) (before : Collector x.Float) where
  write-Shows :
      (r : Reading) (c : Collector x.Float)
      → c.refusals ≡ []
      → Shows before (some r) (write x r c) × ((write x r c).refusals ≡ [])
  unfolding write snapshot next_refusals replace_file
  write-Shows r c free = rw free ((_, refl, refl, refl, refl, refl, refl), refl)

  kept-Shows :
      (last : Option Reading) (msg : String) (sample : Option CpuSample) (c : Collector x.Float)
      → Shows before last c
      → Shows before last (safe_write x (panics msg sample) c)
  unfolding safe_write
  kept-Shows none msg sample c shown = shown
  kept-Shows (some r) msg sample c shown = shown

  safe_write-Shows :
      (a : Attempt x) (last : Option Reading) (c : Collector x.Float)
      → c.refusals ≡ []
      → Shows before last c
      → Shows before (read_by a last) (safe_write x a c) × ((safe_write x a c).refusals ≡ [])
  unfolding safe_write
  safe_write-Shows (reads r) last c free shown = write-Shows r c free
  safe_write-Shows (panics msg sample) last c free shown =
      (kept-Shows last msg sample c shown, free)

  loop-Shows :
      (signals : List (Signal x)) (last : Option Reading) (c : Collector x.Float)
      → c.refusals ≡ []
      → Shows before last c
      → Shows before (last_reading signals last) (loop x signals c)
  unfolding loop
  loop-Shows [] last c free shown = shown
  loop-Shows (cancelled ∷ signals) last c free shown = shown
  loop-Shows (tick a ∷ signals) last c free shown =
      let (shows, free') = safe_write-Shows a last c free shown in
      loop-Shows signals (read_by a last) (safe_write x a c) free' shows

-- Where no write is refused, the telemetry file shows the counters and the chaos mode of the last
-- write before the first cancellation that did not panic, and what it showed at the start where
-- every one did: a panic does not stop the goroutine, and what comes after the cancellation changes
-- nothing.
pub run-Shows :
    (x : FloatOps) (first : Attempt x) (signals : List (Signal x)) (c : Collector x.Float)
    → c.refusals ≡ []
    → Shows c (last_reading signals (read_by first none)) (run x first signals c)
unfolding run
run-Shows x first signals c free =
    let (shows, free') = safe_write-Shows x c first none c free refl in
    loop-Shows x c signals (read_by first none) (safe_write x first c) free' shows
