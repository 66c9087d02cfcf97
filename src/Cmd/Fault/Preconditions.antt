-- ===== src/Cmd/Fault/Preconditions.antt =====
-- cmd/fault.go: what the precondition checks of `lab fault apply` let through.
use lab_env.Common.{
  String, Bool, true, false, ◌≡◌, ◌↔◌, Option, none, some, List, [], ◌∷◌, All, contains, is_none,
  arith, ltb, length, if◌then◌else◌, refl,
}
use lab_env.Conformance.Check.{Check}
use lab_env.Conformance.Catalog.{check_by_id}
use lab_env.State.{State, state_eq, state_beq_iff}
use lab_env.State.File.{File}
use lab_env.Executor.Machine.{Machine}
use lab_env.Catalog.Fault.{FaultDef}
use lab_env.Cmd.{Env}
use lab_env.Cmd.Fault.{refusal, checks_guard, checks_refusal, check_error}

module _ {S : Type 0} (env : Env S) (id : String) where
  abbrev passes : Option (Check (Machine S)) → Machine S → Bool
  passes none m = false
  passes (some check) m = is_none (check_error env check m)

  -- The named check exists and passes.
  abbrev pub Passing : Machine S → String → Type 0
  Passing m check_id = passes (check_by_id {S = Machine S} env.json check_id) m ≡ true

  checks_refusal-Passing :
      (force confirmed : Bool) (ids : List String) (m : Machine S)
      → (checks_refusal env id force confirmed ids m ≡ none) ↔ All (Passing m) ids
  unfolding checks_refusal
  checks_refusal-Passing force confirmed [] m = (λ _. tt, λ _. refl)
  checks_refusal-Passing force confirmed (check_id ∷ rest) m =
      ground (arith, checks_refusal-Passing force confirmed rest m)

  guarded_checks :
      (confirmed : Bool) (ids : List String) (m : Machine S)
      → ((if ltb 0 (length ids) then checks_refusal env id false confirmed ids m else none) ≡ none)
        ↔ All (Passing m) ids
  guarded_checks confirmed [] m = (λ _. tt, λ _. refl)
  guarded_checks confirmed (check_id ∷ rest) m =
      ground (arith, checks_refusal-Passing false confirmed (check_id ∷ rest) m)

  checks_guard-Passing :
      (confirmed : Bool) (def : FaultDef) (m : Machine S)
      → (checks_guard env id false confirmed def m ≡ none) ↔ All (Passing m) def.precondition_checks
  unfolding checks_guard
  checks_guard-Passing confirmed def m = guarded_checks confirmed def.precondition_checks m

  -- With --force nothing is refused.
  pub refusal_forced :
      (confirmed : Bool) (def : FaultDef) (sf : File) (m : Machine S)
      → refusal env id true confirmed def sf m ≡ none
  unfolding refusal
  refusal_forced confirmed def sf m = refl

  -- Without --force the preconditions let a fault through exactly when the recorded state is
  -- CONFORMANT and one that the fault declares, no fault is recorded as active, and every declared
  -- check exists and passes.
  pub refusal_unforced :
      (confirmed : Bool) (def : FaultDef) (sf : File) (m : Machine S)
      → (refusal env id false confirmed def sf m ≡ none) ↔ (
          (sf.state ≡ State.conformant)
          × (sf.active_fault ≡ none)
          × (contains sf.state def.preconditions ≡ true)
          × All (Passing m) def.precondition_checks)
  unfolding refusal
  refusal_unforced confirmed def sf m =
      ground (arith, state_beq_iff sf.state State.conformant, checks_guard-Passing confirmed def m)
