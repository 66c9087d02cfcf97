-- ===== src/Cmd/Fault/Guarded.antt =====
-- cmd/fault.go: without --force at most one fault is active.
use mathlib.Core.Option.{some-injective}
use lab_env.Common.{
  String, Bool, false, ◌≡◌, ◌≢◌, ◌⊎◌, Option, none, some, arith, Option-cases, inl, inr, subst, sym,
}
use lab_env.Common.Errors.{ok-injective, Result, ok, err}
use lab_env.State.{State}
use lab_env.State.File.{File}
use lab_env.State.Store
use lab_env.State.Store.Recovery.{stamped}
use lab_env.Executor.Machine.{Machine}
use lab_env.Executor.Audit.{log_error}
use lab_env.Catalog.{by_id}
use lab_env.Catalog.Fault.{FaultImpl}
use lab_env.Cmd.{Env, World, CommandResult, failed, audited}
use lab_env.Cmd.Locked.{Locked, with_lock-Locked}
use lab_env.Cmd.Fault.{refusal, checked_apply, fault_apply, with_file, with_fault, true}
use lab_env.Cmd.Fault.Preconditions.{refusal_unforced}
use lab_env.Cmd.Fault.Outcomes.{
  Untouched, refused-Untouched, refusal_code, fault_apply-Outcome, with_fault_recorded,
}

-- The recorded state forbids another fault.
abbrev pub Occupied : File → Type 0
Occupied sf = (sf.state ≢ State.conformant) ⊎ (sf.active_fault ≢ none)

module _ {S : Type 0} (env : Env S) (id : String) (confirmed : Bool) where
  -- Nothing is touched, and the command reports a failure.
  abbrev pub Rejected : World S → CommandResult S × World S → Type 0
  Rejected w (c, w') = Untouched env id false confirmed w w' × (c.exit_code ≢ 0)

  refusal-Occupied :
      (fault : FaultImpl (Machine S)) (sf : File) (m : Machine S)
      → Occupied sf
      → refusal env id false confirmed fault.def sf m ≢ none
  refusal-Occupied fault sf m occupied e =
      let (state, no_fault, declared, checks) =
        (refusal_unforced env id confirmed fault.def sf m).0 e in
      ground arith

  checked_apply-Rejected :
      (fault : FaultImpl (Machine S)) (sf : File) (w : World S)
      → Occupied sf
      → Rejected w (
          checked_apply env id false confirmed fault sf
            (refusal env id false confirmed fault.def sf w.machine)
            w)
  unfolding checked_apply
  checked_apply-Rejected fault sf w occupied =
      elim (Option-cases (refusal env id false confirmed fault.def sf w.machine)) [
        | inl e ↦ ground (arith, refusal-Occupied fault sf w.machine occupied e)
        | inr (r, e) ↦ rw e (
            ground (
              arith,
              refused-Untouched env id false confirmed r w,
              refusal_code env id false confirmed fault.def sf w.machine {r = r} e,
            ))
      ]

  with_file-Rejected :
      (fault : FaultImpl (Machine S)) (sf : File) (r : Result File) (w : World S)
      → r ≡ ok sf
      → Occupied sf
      → Rejected w (with_file env id false confirmed fault r w)
  unfolding with_file
  with_file-Rejected fault sf (err e) w h occupied = ground arith
  with_file-Rejected fault sf (ok sf') w h occupied =
      checked_apply-Rejected fault sf' w (subst Occupied (sym (ok-injective h)) occupied)

  Locked-Rejected :
      (fault : FaultImpl (Machine S)) (sf : File) (w : World S) {out : CommandResult S × World S}
      → Store.read w.disk ≡ ok sf
      → Occupied sf
      → Locked env.process
          (λ w'. with_file env id false confirmed fault (Store.read w'.disk) w')
          (λ e w'. (failed 1 e, audited (log_error env.clock.stamped "ErrLockHeld" e) w'))
          w
          out
      → Rejected w out
  Locked-Rejected fault sf w is occupied (Locked.not_acquired e l fuel refused_by) = ground arith
  Locked-Rejected fault sf w is occupied (Locked.ran l) =
      with_file-Rejected fault sf (Store.read w.disk) (record w { locks = l }) is occupied

  with_fault-Rejected :
      (fault : Option (FaultImpl (Machine S))) (sf : File) (w : World S)
      {out : CommandResult S × World S}
      → Store.read w.disk ≡ ok sf
      → Occupied sf
      → with_fault env id false confirmed fault w ≡ some out
      → Rejected w out
  unfolding with_fault
  with_fault-Rejected none sf w is occupied h =
      subst (Rejected w) (some-injective _ _ h) (ground arith)
  with_fault-Rejected (some fault) sf w {out = o} is occupied h =
      Locked-Rejected fault sf w {out = o} is occupied (with_lock-Locked env _ _ w {out = o} h)

  -- While the state file records another state than CONFORMANT, or an active fault, `lab fault
  -- apply` without --force fails, whatever fault is named, and leaves the system and the state file
  -- as they were.
  pub fault_apply-Rejected :
      (sf : File) (w : World S) {out : CommandResult S × World S}
      → Store.read w.disk ≡ ok sf
      → Occupied sf
      → fault_apply env id false confirmed w ≡ some out
      → Rejected w out
  unfolding fault_apply
  fault_apply-Rejected sf w {out = o} is occupied h =
      with_fault-Rejected (by_id id) sf w {out = o} is occupied h

  -- After a fault is applied, with or without --force, applying a fault without --force fails and
  -- leaves the system and the state file as they were.
  pub fault_apply-fault_apply :
      (id' : String) (force : Bool) (w : World S) {out out' : CommandResult S × World S}
      → fault_apply env id' force true w ≡ some out
      → out.0.exit_code ≡ 0
      → fault_apply env id false confirmed out.1 ≡ some out'
      → Rejected out.1 out'
  fault_apply-fault_apply id' force w {out = o} {out' = o'} first success second =
      elim ((fault_apply-Outcome env id' force true w {out = o} first).2 success) [
        | inl aborted ↦ ground (arith, aborted.0)
        | inr (sf, before, after) ↦
            fault_apply-Rejected (stamped (with_fault_recorded env id' force true sf)) o.1
              {out = o'} after (inl (λ e. cc)) second
      ]
