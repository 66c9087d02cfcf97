-- ===== src/Executor/Observe.antt =====
-- internal/executor/real.go: the observing half, over the commands and the calls that it makes.
pub mod Ports
use lab_env.Common.{
  ℕ, String, Bool, true, false, not, Option, none, some, List, [], ◌∷◌, ◌++◌, ◌==◌, string_eq,
  nat_eq, if◌then◌else◌, take, ltb, length,
}
use lab_env.Common.Errors.{
  Error, Result, ok, err, errorf, message, cause, bytes, text, nil, wrap, ℤ,
}
use lab_env.Common.Bytes.{Bytes, codes, trim_space, has_text, newline}
use lab_env.Conformance.Observer.{Observer, ProcessStatus, PortStatus, EndpointStatus, FileInfo}
use lab_env.Executor.Decimal.Scan.{scan_number}

-- What a command that was run leaves: its output, and the error of its end.
pub record Finished : Type 0 where
  pub stdout : Bytes
  pub stderr : Bytes
  pub error : Option Error

-- What an HTTP request answers; `chunk` is what one Read of the body gives for a bound.
pub record Response : Type 0 where
  pub status_code : ℕ
  pub chunk : ℕ → Bytes

-- What the operating system and the network answer, in a state of the system.
pub record Probe (S : Type 0) : Type 0 where
  pub stat : String → S → Result FileInfo
  pub read_file : String → S → Result Bytes
  pub start : String → List String → S → Finished
  pub get : String → Bool → S → Result Response
  pub lookup_host : String → S → Result (List String)

raw_result : Option Error → Finished → Result Bytes
raw_result none f = ok f.stdout
raw_result (some e) f =
    if ltb 0 (length f.stderr)
    then err (errorf "%w: %s" (cause e (bytes (trim_space f.stderr) nil)))
    else err e

abbrev is_ok : {A : Type 0} → Result A → Bool
is_ok (ok a) = true
is_ok (err e) = false

-- `strings.Split(s, "\n")[0]`
pub first_line : Bytes → Bytes
first_line [] = []
first_line (c ∷ s) = let rest = first_line s in if c == newline then [] else c ∷ rest

-- The pid that was read; a number below 1 is no running process.
process_status : String → ℤ → ProcessStatus
process_status user (ℤ.pos n) = record { running = ltb 0 n; pid = n; user = user }
process_status user (ℤ.negsuc n) = record { running = false; pid = 0; user = user }

pub listed_process : String → Result Bytes → Result ProcessStatus
unfolding first_line process_status trim_space
listed_process user (err e) = ok (record { running = false; pid = 0; user = "" })
listed_process user (ok out) =
    ok (process_status user (scan_number (first_line (trim_space out)) (ℤ.pos 0)))

pub listed_port : String → Result Bytes → Result PortStatus
listed_port addr (err e) = err (wrap "running ss: %w" e)
listed_port addr (ok out) = ok (record { listening = has_text out (codes addr); addr = addr })

endpoint : Result Response → Result EndpointStatus
endpoint (err e) = ok (record { status_code = 0; reachable = false; body = [] })
endpoint (ok r) =
    ok (record { status_code = r.status_code; reachable = true; body = take 4096 (r.chunk 4096) })

first_address : String → Result (List String) → Result String
first_address name (err e) = err (errorf "resolving %q: %w" (text name (cause e nil)))
first_address name (ok []) = err (errorf "no addresses for %q" (text name nil))
first_address name (ok (a ∷ rest)) = ok a

module _ {S : Type 0} (p : Probe S) where
  -- `runRaw`
  unfoldable pub run_raw : String → List String → S → Result Bytes
  unfolding raw_result
  run_raw cmd args s = let f = p.start cmd args s in raw_result f.error f

  -- `CheckProcess`
  unfoldable pub check_process : String → String → S → Result ProcessStatus
  unfolding listed_process run_raw
  check_process name user s =
      let args = "-x" ∷ name ∷ [] in
      listed_process user
        (run_raw "pgrep" (if not (user == "") then "-u" ∷ user ∷ args else args) s)

  -- `CheckPort`
  unfoldable pub check_port : String → S → Result PortStatus
  unfolding listed_port run_raw
  check_port addr s = listed_port addr (run_raw "ss" ("-ltnp" ∷ []) s)

  -- The observing methods of `Real`.
  unfoldable pub real_observer : Observer S
  unfolding check_process check_port endpoint first_address run_raw
  real_observer = record {
    stat = p.stat;
    read_file = p.read_file;
    check_process = check_process;
    check_port = check_port;
    check_endpoint = λ url skip s. endpoint (p.get url skip s);
    resolve_host = λ name s. first_address name (p.lookup_host name s);
    service_active =
        λ unit s. ok (is_ok (run_raw "systemctl" ("is-active" ∷ "--quiet" ∷ unit ∷ []) s));
    service_enabled =
        λ unit s. ok (is_ok (run_raw "systemctl" ("is-enabled" ∷ "--quiet" ∷ unit ∷ []) s));
    run_command = run_raw;
  }
