-- ===== src/Service/Main/Rules.antt =====
-- service/main.go: rules for what holds of the signal files after a part of `main`.
use lab_env.Common.{String, ℕ, Bool, true, false, ◌≡◌, ◌⊎◌, refl, inl, inr, none, some, Option}
use lab_env.Common.Errors.{Error}
use lab_env.Common.Bytes.{Bytes}
use lab_env.Service.Signals.{Host, SignalFile, with_content, write_atomic}
use lab_env.Service.Signals.Placed.{write_atomic-cases, after_write}
use lab_env.Service.Main.{
  Service, Progress, exits, goes, Main, onward, ◌>>=◌, Failing, failing, checked, attempt, on_host,
  when,
}

-- What holds when a part of `main` ends by going on or by exiting.
pub data Ends {A : Type 0} (Post : A → Host → Type 0) (Stop : Host → Type 0)
    : Progress A × Service → Type 0 where
  stopped : (code : ℕ) (s : Service) → Stop s.host → Ends Post Stop (exits code, s)
  went : (a : A) (s : Service) → Post a s.host → Ends Post Stop (goes a, s)

module _ {A B : Type 0} where
  onward-Ends :
      (Mid : A → Host → Type 0) (Post : B → Host → Type 0) (Stop : Host → Type 0)
      {r : Progress A × Service} (f : A → Main B)
      → Ends Mid Stop r
      → ((a : A) (s : Service) → Mid a s.host → Ends Post Stop (f a s))
      → Ends Post Stop (onward r.0 f r.1)
  unfolding onward
  onward-Ends Mid Post Stop f (stopped code s h) next = stopped code s h
  onward-Ends Mid Post Stop f (went a s h) next = next a s h

  pub bind-Ends :
      (Mid : A → Host → Type 0) (Post : B → Host → Type 0) (Stop : Host → Type 0) (m : Main A)
      (f : A → Main B) (s : Service)
      → Ends Mid Stop (m s)
      → ((a : A) (s' : Service) → Mid a s'.host → Ends Post Stop (f a s'))
      → Ends Post Stop ((m >>= f) s)
  unfolding ◌>>=◌
  bind-Ends Mid Post Stop m f s h next = onward-Ends Mid Post Stop {r = m s} f h next

-- An operation on the signal files: what holds after it without an error and with one.
abbrev pub Does :
    (Host → Type 0) → (Host → Type 0) → (Host → Type 0) → (Host → Option Error × Host) → Type 0
Does Before After Failed op =
    (h : Host)
    → Before h
    → (((op h).0 ≡ none) × After (op h).1) ⊎ ((e : Error) × ((op h).0 ≡ some e) × Failed (op h).1)

pub attempt-Ends :
    (Before After Failed Stop : Host → Type 0) (op : Host → Option Error × Host) (how : Failing)
    (s : Service)
    → Does Before After Failed op
    → ((e : Error) (s' : Service)
        → Failed s'.host
        → Ends (λ (u : Unit {0}). After) Stop (failing how e s'))
    → Before s.host
    → Ends (λ (u : Unit {0}). After) Stop (attempt how op s)
unfolding attempt checked
attempt-Ends Before After Failed Stop op how s does fails before = elim (does s.host before) [
  | inl (e, h) ↦ rw e (went tt _ h)
  | inr (x, e, h) ↦ rw e (fails x (on_host (op s.host).1 s) h)
]

pub write-Does :
    (Before After Failed : Host → Type 0) (f : SignalFile) (bytes : Bytes)
    → ((h : Host) → Before h → After (after_write (with_content f (some bytes) h.dir) h))
    → ((h : Host) → Before h → Failed (after_write h.dir h))
    → Does Before After Failed (write_atomic f bytes)
write-Does Before After Failed f bytes good bad h before = elim (write_atomic-cases f bytes h) [
  | inl e ↦ inl (rw e refl, rw e (good h before))
  | inr (x, e) ↦ inr (x, rw e refl, rw e (bad h before))
]

pub when-Ends :
    (Inv Stop : Host → Type 0) (test : Bool) (m : Main (Unit {0})) (s : Service)
    → Inv s.host
    → Ends (λ (u : Unit {0}). Inv) Stop (m s)
    → Ends (λ (u : Unit {0}). Inv) Stop (when test m s)
unfolding when
when-Ends Inv Stop true m s inv h = h
when-Ends Inv Stop false m s inv h = went tt s inv

-- An operation whose error ends the process.
pub exit-Ends :
    (Before After Stop : Host → Type 0) (op : Host → Option Error × Host) (msg : String)
    (s : Service)
    → Does Before After Stop op
    → Before s.host
    → Ends (λ (u : Unit {0}). After) Stop (attempt (Failing.to_stderr msg) op s)
      × Ends (λ (u : Unit {0}). After) Stop (attempt (Failing.to_log msg) op s)
unfolding failing
exit-Ends Before After Stop op msg s does before = (
  attempt-Ends Before After Stop Stop op (Failing.to_stderr msg) s does (λ e s' h. stopped 1 _ h)
      before,
  attempt-Ends Before After Stop Stop op (Failing.to_log msg) s does (λ e s' h. stopped 1 _ h)
      before,
)
