-- ===== src/Service/Config.antt =====
-- service/config/config.go: the service's configuration, from its file and from the environment.
-- Texts are lists of code points. `Yaml` stands for gopkg.in/yaml.v3.
pub mod Loaded
use lab_env.Common.{
  ℕ, ◌+◌, String, Bool, true, false, not, ◌&&◌, ◌||◌, Option, none, some, List, [], ◌∷◌, ◌++◌, ◌==◌,
  nat_eq, if◌then◌else◌, ltb, leb, keep, map,
}
use lab_env.Common.Errors.{ℤ, Error, Result, ok, err, wrap}
use lab_env.Common.Bytes.{Bytes, codes, trim_space, bytes_eq}
use lab_env.Executor.Decimal.{atoi}

-- What the decoder makes of a document whose keys are all known.
pub record Document : Type 0 where
  pub addr : Bytes
  pub app_env : Bytes

pub record Yaml : Type 0 where
  pub decode : Bytes → Result Document

pub record ServerConfig : Type 0 where
  pub addr : Bytes

pub record ChaosConfig : Type 0 where
  pub latency_ms : ℤ
  pub drop_percent : ℤ
  pub oom_trigger : Bool
  pub ignore_sigterm : Bool
  pub zombie_children : Bool

pub record Config : Type 0 where
  pub server : ServerConfig
  pub app_env : Bytes
  pub chaos : ChaosConfig

-- `n > 0`
abbrev pub is_positive : ℤ → Bool
is_positive (ℤ.pos n) = ltb 0 n
is_positive (ℤ.negsuc n) = false

-- `n >= 0 && n <= 100`
abbrev pub is_percent : ℤ → Bool
is_percent (ℤ.pos n) = leb n 100
is_percent (ℤ.negsuc n) = false

-- `IsActive`
unfoldable pub is_active : ChaosConfig → Bool
is_active c =
    is_positive c.latency_ms || (is_positive c.drop_percent || (c.oom_trigger || c.ignore_sigterm))

-- `if test { modes = append(modes, name) }`
abbrev pub mode_if : Bool → String → List String → List String
mode_if test name modes = if test then modes ++ name ∷ [] else modes

-- `ActiveModes`
unfoldable pub active_modes : ChaosConfig → List String
active_modes c = mode_if c.ignore_sigterm "nosigterm" (
    mode_if c.oom_trigger "oom" (
      mode_if (is_positive c.drop_percent) "drop"
        (mode_if (is_positive c.latency_ms) "latency" [])))

-- `strings.ToLower` on ASCII
abbrev pub lower : ℕ → ℕ
lower c = if leb 65 c && leb c 90 then c + 32 else c

-- `parseBool`
unfoldable pub parse_bool : Bytes → Bool
unfolding trim_space bytes_eq
parse_bool s =
    let t = map lower (trim_space s) in
    bytes_eq t (codes "1") || (bytes_eq t (codes "true") || bytes_eq t (codes "yes"))

-- A number of the environment that passes a test, or 0.
abbrev pub accepted : (ℤ → Bool) → Option ℤ → ℤ
accepted test none = ℤ.pos 0
accepted test (some n) = if test n then n else ℤ.pos 0

-- `loadChaos`; `getenv` is `os.Getenv`. An empty text is no number for Atoi.
unfoldable pub load_chaos : (String → Bytes) → ChaosConfig
unfolding parse_bool atoi
load_chaos getenv = record {
  latency_ms = accepted is_positive (atoi (getenv "CHAOS_LATENCY_MS"));
  drop_percent = accepted is_percent (atoi (getenv "CHAOS_DROP_PERCENT"));
  oom_trigger = parse_bool (getenv "CHAOS_OOM_TRIGGER");
  ignore_sigterm = parse_bool (getenv "CHAOS_IGNORE_SIGTERM");
  zombie_children = parse_bool (getenv "CHAOS_ZOMBIE_CHILDREN");
}

-- `r >= 0x20 && r != 0x7F`
abbrev pub is_printable : ℕ → Bool
is_printable r = leb 32 r && not (r == 127)

-- `SanitizeEnvString`
unfoldable pub sanitize_env_string : Bytes → Bytes
sanitize_env_string s = keep is_printable s

-- `if s == "" { s = default }`
abbrev pub or_default : Bytes → Bytes → Bytes
or_default default [] = default
or_default default (c ∷ s) = c ∷ s

pub configured : (String → Bytes) → Result Document → Result Config
unfolding load_chaos sanitize_env_string
configured getenv (err e) = err (wrap "parsing config %s: %w" e)
configured getenv (ok d) = ok (record {
  server = record { addr = or_default (codes "127.0.0.1:8080") d.addr };
  app_env = sanitize_env_string (or_default (codes "prod") d.app_env);
  chaos = load_chaos getenv;
})

-- `Load`; the first argument is what `os.ReadFile` returns.
unfoldable pub load : Yaml → (String → Bytes) → Result Bytes → Result Config
unfolding configured
load yaml getenv (err e) = err (wrap "reading config %s: %w" e)
load yaml getenv (ok text) = configured getenv (yaml.decode text)
