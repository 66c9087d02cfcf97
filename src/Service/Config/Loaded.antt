-- ===== src/Service/Config/Loaded.antt =====
-- service/config/config.go: what holds of every loaded configuration.
use lab_env.Common.{
  subst, ℕ, String, Bool, true, false, not, ◌≡◌, ◌≢◌, List, [], ◌∷◌, all_pass, keep, arith, refl,
  nat_eq,
}
use lab_env.Common.Errors.{ℤ, Result, ok, err, ok-injective}
use lab_env.Common.Bytes.{Bytes, codes}
use lab_env.Service.Config.{
  Document, Yaml, Config, ChaosConfig, is_percent, is_active, active_modes, load_chaos,
  is_printable, sanitize_env_string, load, configured, or_default,
}

abbrev pub is_nil : {A : Type 0} → List A → Bool
is_nil [] = true
is_nil (x ∷ xs) = false

-- The chaos mode counts as active exactly when the list of the active modes is not empty.
pub is_active-active_modes : (c : ChaosConfig) → is_active c ≡ not (is_nil (active_modes c))
unfolding is_active active_modes
is_active-active_modes c = ground arith

keep-all_pass : (s : Bytes) → all_pass is_printable (keep is_printable s) ≡ true
keep-all_pass [] = refl
keep-all_pass (c ∷ s) = ground (arith, keep-all_pass s)

keep-printable : (s : Bytes) → all_pass is_printable s ≡ true → keep is_printable s ≡ s
keep-printable [] h = refl
keep-printable (c ∷ s) h = ground (arith, keep-printable s)

-- A sanitized text has no control character, sanitizing it again changes nothing, and a text
-- without control characters stays as it is.
pub sanitize_env_string_lem :
    (s : Bytes)
    → (all_pass is_printable (sanitize_env_string s) ≡ true)
      × (sanitize_env_string (sanitize_env_string s) ≡ sanitize_env_string s)
      × (all_pass is_printable s ≡ true → sanitize_env_string s ≡ s)
unfolding sanitize_env_string
sanitize_env_string_lem s =
    (keep-all_pass s, keep-printable (keep is_printable s) (keep-all_pass s), keep-printable s)

-- A number that is not negative and not above the bound.
abbrev pub is_natural : ℤ → Bool
is_natural (ℤ.pos n) = true
is_natural (ℤ.negsuc n) = false

-- Whatever stands in the environment, well-formed or not: the latency is not negative, and the
-- percentage of dropped requests is between 0 and 100.
pub load_chaos-bounds :
    (getenv : String → Bytes)
    → (is_natural (load_chaos getenv).latency_ms ≡ true)
      × (is_percent (load_chaos getenv).drop_percent ≡ true)
unfolding load_chaos
load_chaos-bounds getenv = ground arith

-- Every value has an address, a text without control characters, and the environment's chaos mode.
abbrev pub Usable : (String → Bytes) → Config → Type 0
Usable getenv c =
    (c.server.addr ≢ []) × (all_pass is_printable c.app_env ≡ true) × (c.chaos ≡ load_chaos getenv)

or_default-filled : (d : ℕ) (default s : Bytes) → or_default (d ∷ default) s ≢ []
or_default-filled d default [] e = cc
or_default-filled d default (c ∷ s) e = cc

configured-Usable :
    (getenv : String → Bytes) (r : Result Document) {c : Config}
    → configured getenv r ≡ ok c
    → Usable getenv c
unfolding configured
configured-Usable getenv (err e) h = cc
configured-Usable getenv (ok d) h = subst (Usable getenv) (ok-injective h) (
  or_default-filled 49 _ d.addr,
  (sanitize_env_string_lem (or_default (codes "prod") d.app_env)).0,
  refl,
)

-- A configuration that is loaded has a bind address and an app_env without control characters,
-- whatever the file says, and the chaos mode of the environment.
pub load-Usable :
    (yaml : Yaml) (getenv : String → Bytes) (file : Result Bytes) {c : Config}
    → load yaml getenv file ≡ ok c
    → Usable getenv c
unfolding load
load-Usable yaml getenv (err e) h = cc
load-Usable yaml getenv (ok text) {c = t} h = configured-Usable getenv (yaml.decode text) {c = t} h
