-- ===== src/Service/Telemetry.antt =====
-- service/telemetry/telemetry.go: the readings of the process, and the goroutine that publishes
-- them. `Float` stands for float64, whose arithmetic is not modelled.
pub mod Fields
pub mod Stat
pub mod Published
use Prim.Native.String.{◌++◌ as text_append}
use lab_env.Common.{
  ℕ, ◌+◌, ◌-◌, ◌/◌, String, Bool, true, false, not, Option, none, some, List, [], ◌∷◌, ◌++◌, ◌==◌,
  nat_eq, if◌then◌else◌, ltb, leb, length, drop,
}
use lab_env.Common.Errors.{Error, Result, ok, err, message, os, ℤ}
use lab_env.Common.Bytes.{Bytes, codes, has_prefix}
use lab_env.Common.Words.{add64, sub64, mul64, div64, sub_unsigned}
use lab_env.AtomicFile.{Files, TempFile, Refusals, no_refusal, signal_stages, replace_file}
use lab_env.Executor.Decimal.{atoi}
use Fields.{fields, lines, after_last, get_elem?}

pub record FloatOps : Type 1 where
  pub Float : Type 0
  pub of_int : ℤ → Float
  pub mul : Float → Float → Float
  pub div : Float → Float → Float
  pub parse : Bytes → Option Float

-- Times are in nanoseconds.
pub record CpuSample : Type 0 where
  pub at : ℕ
  pub user_ms : ℤ
  pub system_ms : ℤ

-- `ticks * 1000 / clkTck`
abbrev pub ticks_ms : ℤ → ℤ
ticks_ms ticks = div64 (mul64 ticks (ℤ.pos 1000)) 100

sample_at : ℕ → Option ℤ → Option ℤ → Result CpuSample
sample_at at (some utime) (some stime) =
    ok (record { at = at; user_ms = ticks_ms utime; system_ms = ticks_ms stime })
sample_at at _ _ = err (os "strconv.ParseInt")

pub sample_of : ℕ → Option Bytes → Option Bytes → Result CpuSample
unfolding sample_at
sample_of at (some u) (some s) = sample_at at (atoi u) (atoi s)
sample_of at _ _ = err (message "insufficient fields in /proc/self/stat")

sample_fields : ℕ → List Bytes → Result CpuSample
unfolding sample_of
sample_fields at fs =
    if ltb (length fs) 13
    then err (message "insufficient fields in /proc/self/stat")
    else sample_of at (get_elem? fs 11) (get_elem? fs 12)

sample_rest : ℕ → Option Bytes → Result CpuSample
unfolding sample_fields
sample_rest at none = err (message "malformed /proc/self/stat")
sample_rest at (some rest) = sample_fields at (fields rest)

-- `readCPUSample` of what reading /proc/self/stat gives.
unfoldable pub read_cpu_sample : ℕ → Result Bytes → Result CpuSample
unfolding sample_rest
read_cpu_sample at (err e) = err e
read_cpu_sample at (ok text) = sample_rest at (after_last b')' text)

-- What `syscall.Statfs` reports.
pub record Statfs : Type 0 where
  pub blocks : ℕ
  pub bfree : ℕ
  pub files : ℕ
  pub ffree : ℕ

-- What one write of the telemetry reads: the clock, /proc, the counters and the chaos mode.
pub record Reading : Type 0 where
  pub now : ℕ
  pub stat : Result Bytes
  pub status : Result Bytes
  pub fds : Result ℕ
  pub statfs : Result Statfs
  pub requests_total : ℕ
  pub errors_total : ℕ
  pub chaos_active : Bool
  pub chaos_modes : List String

-- `Snapshot`; the time stamp is the time itself.
pub record Snapshot (Float : Type 0) : Type 0 where
  pub ts : ℕ
  pub pid : ℕ
  pub uptime_seconds : ℕ
  pub cpu_percent : Float
  pub memory_rss_mb : Float
  pub open_fds : ℕ
  pub disk_usage_percent : Float
  pub inode_usage_percent : Float
  pub requests_total : ℕ
  pub errors_total : ℕ
  pub chaos_active : Bool
  pub chaos_modes : List String

-- The collector, with its telemetry file, the refusals of its coming writes, and what it logged.
pub record Collector (Float : Type 0) : Type 0 where
  pub start_time : ℕ
  pub pid : ℕ
  pub prev_sample : Option CpuSample
  pub file : Files (Option (Snapshot Float))
  pub refusals : List Refusals
  pub log : List String

module _ (x : FloatOps) where
  open x use {Float, of_int, mul, div, parse}

  abbrev zero_float : Float
  zero_float = of_int (ℤ.pos 0)

  -- The share of `elapsed` milliseconds that the processor time is.
  delta : CpuSample → CpuSample → Float
  delta current prev =
      let elapsed = (current.at - prev.at) / 1000000 in
      let cpu_ms =
        add64 (sub64 current.user_ms prev.user_ms) (sub64 current.system_ms prev.system_ms) in
      if elapsed == 0
      then zero_float
      else mul (div (of_int cpu_ms) (of_int (ℤ.pos elapsed))) (of_int (ℤ.pos 100))

  since_previous : CpuSample → Option CpuSample → Float
  unfolding delta
  since_previous current none = zero_float
  since_previous current (some prev) = delta current prev

  cpu_percent_of : Result CpuSample → Option CpuSample → Float × Option CpuSample
  unfolding since_previous
  cpu_percent_of (err e) prev = (zero_float, prev)
  cpu_percent_of (ok current) prev = (since_previous current prev, some current)

  -- `cpuPercent`, with the sample that it stores.
  unfoldable pub cpu_percent : ℕ → Result Bytes → Option CpuSample → Float × Option CpuSample
  unfolding cpu_percent_of read_cpu_sample
  cpu_percent now stat prev = cpu_percent_of (read_cpu_sample now stat) prev

  kilobytes : List Bytes → Option Float
  kilobytes (label ∷ kb ∷ rest) = elim (parse kb) [
    | none ↦ none
    | some f ↦ some (div f (of_int (ℤ.pos 1024)))
  ]
  kilobytes _ = none

  rss_line : Bytes → Option Float
  unfolding kilobytes
  rss_line line = if has_prefix line (codes "VmRSS:") then kilobytes (fields line) else none

  rss_lines : List Bytes → Float
  unfolding rss_line
  rss_lines [] = zero_float
  rss_lines (line ∷ rest) =
      let later = rss_lines rest in elim (rss_line line) [ none ↦ later | some mb ↦ mb ]

  -- `memoryRSSMB` of what reading /proc/self/status gives.
  unfoldable pub memory_rss_mb : Result Bytes → Float
  unfolding rss_lines lines
  memory_rss_mb (err e) = zero_float
  memory_rss_mb (ok text) = rss_lines (lines text)

  abbrev open_fd_count : Result ℕ → ℕ
  open_fd_count (err e) = 0
  open_fd_count (ok n) = n

  -- `(total - free) / total * 100`, or 0 for a total of 0.
  usage : ℕ → ℕ → Float
  usage total free =
      if ltb 0 total
      then mul (div (of_int (ℤ.pos (sub_unsigned total free))) (of_int (ℤ.pos total)))
          (of_int (ℤ.pos 100))
      else zero_float

  -- `filesystemUsage`
  unfoldable pub filesystem_usage : Result Statfs → Float × Float
  unfolding usage
  filesystem_usage (err e) = (zero_float, zero_float)
  filesystem_usage (ok s) = (usage s.blocks s.bfree, usage s.files s.ffree)

  next_refusals : List Refusals → Refusals
  next_refusals [] = no_refusal
  next_refusals (r ∷ rest) = r

  -- The snapshot of a reading, and the sample that is kept for the next one.
  unfoldable pub snapshot : Reading → Collector Float → Snapshot Float × Option CpuSample
  unfolding cpu_percent memory_rss_mb filesystem_usage
  snapshot r c =
      let (cpu, sample) = cpu_percent r.now r.stat c.prev_sample in
      let (disk, inodes) = filesystem_usage r.statfs in
      (
        record {
          ts = r.now;
          pid = c.pid;
          uptime_seconds = (r.now - c.start_time) / 1000000000;
          cpu_percent = cpu;
          memory_rss_mb = memory_rss_mb r.status;
          open_fds = open_fd_count r.fds;
          disk_usage_percent = disk;
          inode_usage_percent = inodes;
          requests_total = r.requests_total;
          errors_total = r.errors_total;
          chaos_active = r.chaos_active;
          chaos_modes = r.chaos_modes;
        },
        sample,
      )

  -- `write`; the error of the atomic write is dropped.
  unfoldable pub write : Reading → Collector Float → Collector Float
  unfolding snapshot next_refusals
  write r c =
      let (snap, sample) = snapshot r c in
      let run = replace_file (next_refusals c.refusals) signal_stages (some snap) c.file [] in
      record c { prev_sample = sample; file = run.files; refusals = drop 1 c.refusals }

  -- What a write meets: its readings, or a panic of one of them, with the sample that is stored by
  -- then.
  pub data Attempt : Type 0 where
    reads : Reading → Attempt
    panics : String → Option CpuSample → Attempt

  -- `safeWrite`
  unfoldable pub safe_write : Attempt → Collector Float → Collector Float
  unfolding write
  safe_write (reads r) c = write r c
  safe_write (panics msg sample) c = record c {
    prev_sample = sample;
    log = c.log ++ text_append "telemetry write panic: " msg ∷ [];
  }

  -- What the goroutine meets: a tick of its clock, or the cancellation.
  pub data Signal : Type 0 where
    tick : Attempt → Signal
    cancelled : Signal

  -- The loop of `Run`.
  pub loop : List Signal → Collector Float → Collector Float
  unfolding safe_write
  loop [] c = c
  loop (cancelled ∷ signals) c = c
  loop (tick a ∷ signals) c = loop signals (safe_write a c)

  -- `Run`: a first write at once.
  unfoldable pub run : Attempt → List Signal → Collector Float → Collector Float
  unfolding loop safe_write
  run first signals c = loop signals (safe_write first c)
