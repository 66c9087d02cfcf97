-- ===== src/State.antt =====
-- internal/state/state.go: the six states of the environment. Go's `State` is a string: the model
-- has a constructor for each text that the code names, `unset` for "" and `other` for the rest.
pub mod File
pub mod Store
pub mod Detect
pub mod Texts
use text.Mathlib.TextEquality.{eq_iff}
use lab_env.Common.{
  not, String, Bool, true, false, List, [], ◌∷◌, ◌≡◌, ◌↔◌, Comparable, ◌==◌, contains, string_eq,
  arith, refl, ap, if◌then◌else◌,
}

pub data State : Type 0 where
  unset unprovisioned provisioned conformant degraded broken recovering : State
  other : String → State

-- `s == t`
abbrev pub state_beq : State → State → Bool
state_beq State.unset State.unset = true
state_beq State.unprovisioned State.unprovisioned = true
state_beq State.provisioned State.provisioned = true
state_beq State.conformant State.conformant = true
state_beq State.degraded State.degraded = true
state_beq State.broken State.broken = true
state_beq State.recovering State.recovering = true
state_beq (State.other a) (State.other b) = a == b
state_beq _ _ = false

pub state_beq_iff : (s t : State) → (state_beq s t ≡ true) ↔ (s ≡ t)
state_beq_iff (State.other a) (State.other b) = ground (arith, eq_iff a b)
state_beq_iff s t = ground arith

pub state_beq_refl : (s : State) → state_beq s s ≡ true
state_beq_refl s = (state_beq_iff s s).1 refl

instance abbrev pub state_eq : Comparable State
state_eq = record { same = state_beq; same_iff = state_beq_iff }

-- `All`
unfoldable pub all : List State
all =
    State.unprovisioned ∷ State.provisioned ∷ State.conformant ∷ State.degraded ∷ State.broken
    ∷ State.recovering ∷ []

-- `IsValid`
unfoldable pub is_valid : State → Bool
unfolding all
is_valid s = contains s all

-- `IsOperational`
unfoldable pub is_operational : State → Bool
unfolding is_valid
is_operational s = is_valid s

-- `RequiresActiveFault`
unfoldable pub requires_active_fault : State → Bool
requires_active_fault s = s == State.degraded

-- `ForbidsActiveFault`
unfoldable pub forbids_active_fault : State → Bool
forbids_active_fault s = not (s == State.degraded)

-- `CanApplyFault`
unfoldable pub can_apply_fault : State → Bool → Bool
can_apply_fault s force = if force then not (s == State.recovering) else s == State.conformant

-- `CanReset`
unfoldable pub can_reset : State → Bool
can_reset s = true
