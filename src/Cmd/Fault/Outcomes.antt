-- ===== src/Cmd/Fault/Outcomes.antt =====
-- cmd/fault.go: what each exit code of `lab fault apply` says of the system and of the state file.
use lab_env.Common.Errors.{err}
use lab_env.Cmd.{failed, audited}
use lab_env.Cmd.Locked.{Locked, with_lock-Locked}
use mathlib.Core.Option.{some-injective}
use lab_env.Executor.Audit.{log_error}
use lab_env.Catalog.{by_id}
use lab_env.Cmd.Fault.{fault_apply, with_fault}
use Prim.Native.String.{◌++◌ as text_append}
use lab_env.Common.{
  ltb, drop, length, ◌++◌, ◌-◌, ap, subst, refl, ◌&&◌, String, Bool, true, ◌≡◌, ◌≢◌, ◌⊎◌, Option,
  none, some, List, [], ◌∷◌, arith, Option-cases, inl, inr, refl, ◌≤◌, ◌∙◌, Bool-cases,
}
use lab_env.Common.Errors.{Result, ok}
use lab_env.State.{State, is_valid}
use lab_env.State.File.{File, HistoryEntry}
use lab_env.State.Store
use lab_env.State.Store.{Disk}
use lab_env.State.Store.Recovery.{read-write, stamped}
use lab_env.Executor.Machine.{Machine}
use lab_env.Catalog.Fault.{FaultDef, FaultImpl}
use lab_env.Cmd.{Env, World, CommandResult, Check}
use lab_env.Cmd.Fault.{
  refusal, degraded_file, after_apply, verify_applied, refused, checks_refusal, Refusal,
  check_by_id, verify_one, check_error, apply_fault, checked_apply, false, with_file, not,
}

module _ {S : Type 0} (env : Env S) (id : String) (force confirmed : Bool) where
  verify_one-kept :
      (check_id : String) (check : Option (Check (Machine S))) (w : World S)
      → let w' = verify_one env id force confirmed check_id check w in
        (w'.machine ≡ w.machine) × (w'.disk ≡ w.disk)
  unfolding verify_one
  verify_one-kept check_id none w = (refl, refl)
  verify_one-kept check_id (some check) w = elim (Option-cases (check_error env check w.machine)) [
    | inl e ↦ rw e (refl, refl)
    | inr (x, e) ↦ rw e (refl, refl)
  ]

  -- The warnings of the verification are printed, nothing else.
  pub verify_applied-kept :
      (ids : List String) (w : World S)
      → let w' = verify_applied env id force confirmed ids w in
        (w'.machine ≡ w.machine) × (w'.disk ≡ w.disk)
  unfolding verify_applied
  verify_applied-kept [] w = (refl, refl)
  verify_applied-kept (check_id ∷ rest) w =
      let check = check_by_id {S = Machine S} env.json check_id in
      let one = verify_one-kept check_id check w in
      let more = verify_applied-kept rest (verify_one env id force confirmed check_id check w) in
      (more.0 ∙ one.0, more.1 ∙ one.1)

  -- The history entry of an applied fault.
  abbrev pub entry : File → HistoryEntry
  entry sf = record {
    ts = env.clock.stamped;
    from = sf.state;
    to = State.degraded;
    command = text_append "lab fault apply " id;
    fault = id;
    forced = force;
  }

  -- The file with the fault in it: the stamps of the other commands are kept, and the history holds
  -- the last 50 entries.
  abbrev pub with_fault_recorded : File → File
  with_fault_recorded sf = record {
    spec_version = sf.spec_version;
    state = State.degraded;
    classification_valid = true;
    active_fault = some (record { id = id; applied_at = env.clock.stamped; forced = force });
    last_validate = sf.last_validate;
    last_reset = sf.last_reset;
    last_provision = sf.last_provision;
    last_status_at = sf.last_status_at;
    history = drop (length (sf.history ++ entry sf ∷ []) - 50) (sf.history ++ entry sf ∷ []);
  }

  last_fifty :
      (entries : List HistoryEntry)
      → Store.trim_history entries ≡ drop (length entries - 50) entries
  unfolding Store.trim_history
  last_fifty entries = elim (Bool-cases (ltb 50 (length entries))) [
    | inl e ↦ ground (arith, e)
    | inr e ↦ let none_more : length entries - 50 ≡ 0 = ground (arith, e) in rw (none_more, e) refl
  ]

  degraded_file-recorded :
      (sf : File) → degraded_file env id force confirmed sf ≡ with_fault_recorded sf
  unfolding degraded_file Store.append_history
  degraded_file-recorded sf =
      ap (λ h. record (with_fault_recorded sf) { history = h })
        (last_fifty (sf.history ++ entry sf ∷ []))

  degraded_file-is_valid :
      (sf : File) → is_valid (degraded_file env id force confirmed sf).state ≡ true
  unfolding degraded_file Store.append_history is_valid
  degraded_file-is_valid sf = refl

  checks_refusal_code :
      (ids : List String) (m : Machine S) {r : Refusal}
      → checks_refusal env id force confirmed ids m ≡ some r
      → (r.exit_code ≡ 2) ⊎ (r.exit_code ≡ 3)
  unfolding checks_refusal
  checks_refusal_code [] m h = cc
  checks_refusal_code (check_id ∷ rest) m {r = t} h =
      ground (arith, checks_refusal_code rest m {r = t})

  pub refusal_code :
      (def : FaultDef) (sf : File) (m : Machine S) {r : Refusal}
      → refusal env id force confirmed def sf m ≡ some r
      → (r.exit_code ≡ 2) ⊎ (r.exit_code ≡ 3)
  unfolding refusal
  refusal_code def sf m {r = t} h =
      ground (arith, checks_refusal_code def.precondition_checks m {r = t})

  after_apply-outcome :
      (def : FaultDef) (sf : File) (r : Result (Unit {0})) (w : World S)
      → let (c, w') = after_apply env id force confirmed def sf r w in
        (c.exit_code ≢ 2)
        × (c.exit_code ≢ 3)
        × (c.exit_code ≡ 1 → w'.disk ≡ w.disk)
        × (c.exit_code ≡ 0 → Store.read w'.disk ≡ ok (stamped (with_fault_recorded sf)))
        × (c.exit_code ≤ 4)
  unfolding after_apply
  after_apply-outcome def sf r w = ground (
    arith,
    read-write (degraded_file env id force confirmed sf)
        (verify_applied env id force confirmed def.postcondition.failing_checks w).disk,
    degraded_file-is_valid sf,
    degraded_file-recorded sf,
  )

  -- Neither the system nor the state file is another one; the audit log may have grown.
  abbrev pub Untouched : World S → World S → Type 0
  Untouched w w' = (w'.machine.sys ≡ w.machine.sys) × (w'.disk ≡ w.disk)

  pub refused-Untouched :
      (r : Refusal) (w : World S)
      → ((refused env id force confirmed r w).0.exit_code ≡ r.exit_code)
        × Untouched w (refused env id force confirmed r w).1
  unfolding refused
  refused-Untouched r w = ground arith

  -- The confirmation that the fault requires was not given, and nothing was done.
  abbrev pub Aborted : World S → World S → Type 0
  Aborted w w' = (confirmed ≡ false) × Untouched w w'

  -- The fault is recorded in the file that was read before.
  abbrev pub Recorded : World S → World S → Type 0
  Recorded w w' =
      (sf : File) × (Store.read w.disk ≡ ok sf)
      × (Store.read w'.disk ≡ ok (stamped (with_fault_recorded sf)))

  -- What the command has done, by its exit code.
  abbrev pub Outcome : World S → CommandResult S × World S → Type 0
  Outcome w (c, w') =
      ((c.exit_code ≡ 2) ⊎ (c.exit_code ≡ 3) → Untouched w w')
      × (c.exit_code ≡ 1 → w'.disk ≡ w.disk)
      × (c.exit_code ≡ 0 → Aborted w w' ⊎ Recorded w w')
      × (c.exit_code ≤ 4)

  apply_fault-Outcome :
      (fault : FaultImpl (Machine S)) (sf : File) (w : World S)
      → let (c, w') = apply_fault env id force confirmed fault sf w in
        (c.exit_code ≢ 2)
        × (c.exit_code ≢ 3)
        × (c.exit_code ≡ 1 → w'.disk ≡ w.disk)
        × (c.exit_code ≡ 0 → Store.read w'.disk ≡ ok (stamped (with_fault_recorded sf)))
        × (c.exit_code ≤ 4)
  unfolding apply_fault
  apply_fault-Outcome fault sf w =
      let (r, m) = fault.apply env.executor w.machine in
      after_apply-outcome fault.def sf r (record w { machine = m })

  checked_apply-Outcome :
      (fault : FaultImpl (Machine S)) (sf : File) (r : Option Refusal) (w : World S)
      → Store.read w.disk ≡ ok sf
      → ((x : Refusal) → r ≡ some x → (x.exit_code ≡ 2) ⊎ (x.exit_code ≡ 3))
      → Outcome w (checked_apply env id force confirmed fault sf r w)
  unfolding checked_apply
  checked_apply-Outcome fault sf (some r) w is code =
      ground (arith, refused-Untouched r w, code r refl)
  checked_apply-Outcome fault sf none w is code =
      elim (Bool-cases (fault.def.requires_confirmation && not confirmed)) [
        | inl e ↦ rw e (ground (arith, e))
        | inr e ↦ rw e (ground (arith, is, apply_fault-Outcome fault sf w))
      ]

  with_file-Outcome :
      (fault : FaultImpl (Machine S)) (r : Result File) (w : World S)
      → Store.read w.disk ≡ r
      → Outcome w (with_file env id force confirmed fault r w)
  unfolding with_file
  with_file-Outcome fault (err e) w is = ground arith
  with_file-Outcome fault (ok sf) w is =
      checked_apply-Outcome fault sf (refusal env id force confirmed fault.def sf w.machine) w is
        (λ x. refusal_code fault.def sf w.machine {r = x})

  Locked-Outcome :
      (fault : FaultImpl (Machine S)) (w : World S) {out : CommandResult S × World S}
      → Locked env.process
          (λ w'. with_file env id force confirmed fault (Store.read w'.disk) w')
          (λ e w'. (failed 1 e, audited (log_error env.clock.stamped "ErrLockHeld" e) w'))
          w
          out
      → Outcome w out
  Locked-Outcome fault w (Locked.not_acquired e l fuel refused_by) = ground arith
  Locked-Outcome fault w (Locked.ran l) =
      with_file-Outcome fault (Store.read w.disk) (record w { locks = l }) refl

  with_fault-Outcome :
      (fault : Option (FaultImpl (Machine S))) (w : World S) {out : CommandResult S × World S}
      → with_fault env id force confirmed fault w ≡ some out
      → Outcome w out
  unfolding with_fault
  with_fault-Outcome none w h = subst (Outcome w) (some-injective _ _ h) (ground arith)
  with_fault-Outcome (some fault) w {out = o} h =
      Locked-Outcome fault w {out = o} (with_lock-Locked env _ _ w {out = o} h)

  -- When `lab fault apply` returns: exit 2 and 3 leave the system and the state file as they were;
  -- exit 1 leaves the state file; exit 0 means that nothing was done for lack of a confirmation,
  -- or that the file that reads back is the one that was read with the state DEGRADED and valid, the
  -- fault with its time and whether it was forced, and a history entry of the change behind the
  -- others, of which the last 50 are kept. There is no exit code above 4.
  pub fault_apply-Outcome :
      (w : World S) {out : CommandResult S × World S}
      → fault_apply env id force confirmed w ≡ some out
      → Outcome w out
  unfolding fault_apply
  fault_apply-Outcome w {out = o} h = with_fault-Outcome (by_id id) w {out = o} h
