-- ===== src/Cmd/Fault/Sound.antt =====
-- cmd/fault.go: lab fault apply keeps the state file well-formed.
use mathlib.Core.Option.{some-injective}
use lab_env.Common.{
  String, Bool, not, ◌&&◌, ◌≡◌, Option, none, some, subst, refl, Bool-cases, inl, inr, sym,
}
use lab_env.Common.Errors.{Error, Result, ok, err}
use lab_env.State.{is_valid}
use lab_env.State.File.{File}
use lab_env.State.Store
use lab_env.State.Store.{Disk}
use lab_env.State.Store.Sound.{
  Sound, WellFormed, write-Sound, append_history-WellFormed, invalidate_classification-Sound,
}
use lab_env.Executor.Machine.{Machine}
use lab_env.Catalog.{by_id}
use lab_env.Catalog.Fault.{FaultImpl, FaultDef}
use lab_env.Cmd.{Env, World, CommandResult, store_write}
use lab_env.Cmd.Locked.{with_lock-Locked, Locked-disk}
use lab_env.Cmd.Fault.{
  fault_apply, with_fault, with_file, checked_apply, apply_fault, after_apply, recorded,
  degraded_file, refusal, Refusal, verify_applied,
}
use lab_env.Cmd.Fault.Outcomes.{verify_applied-kept, refused-Untouched}

module _ {S : Type 0} (env : Env S) (id : String) (force confirmed : Bool) where
  degraded_file-WellFormed : (sf : File) → WellFormed (degraded_file env id force confirmed sf)
  unfolding degraded_file is_valid
  degraded_file-WellFormed sf = append_history-WellFormed _ _ refl refl

  recorded-Sound :
      (sf : File) (e : Option Error) (w : World S)
      → Sound w.disk
      → Sound (recorded env id force confirmed sf (e, w)).1.disk
  unfolding recorded
  recorded-Sound sf none w sound = sound
  recorded-Sound sf (some e) w sound = invalidate_classification-Sound w.disk sound

  after_apply-Sound :
      (def : FaultDef) (sf : File) (r : Result (Unit {0})) (w : World S)
      → Sound w.disk
      → Sound (after_apply env id force confirmed def sf r w).1.disk
  unfolding after_apply
  after_apply-Sound def sf (err e) w sound = sound
  after_apply-Sound def sf (ok done) w sound =
      let v = verify_applied env id force confirmed def.postcondition.failing_checks w in
      let f = degraded_file env id force confirmed sf in
      let sound' : Sound v.disk =
        subst Sound
          (sym (verify_applied-kept env id force confirmed def.postcondition.failing_checks w).1)
          sound in
      recorded-Sound sf (store_write f v).0 (store_write f v).1
        (write-Sound f v.disk (degraded_file-WellFormed sf) sound')

  checked_apply-Sound :
      (fault : FaultImpl (Machine S)) (sf : File) (r : Option Refusal) (w : World S)
      → Sound w.disk
      → Sound (checked_apply env id force confirmed fault sf r w).1.disk
  unfolding checked_apply apply_fault
  checked_apply-Sound fault sf (some r) w sound =
      subst Sound (sym (refused-Untouched env id force confirmed r w).1.1) sound
  checked_apply-Sound fault sf none w sound =
      elim (Bool-cases (fault.def.requires_confirmation && not confirmed)) [
        | inl e ↦ rw e sound
        | inr e ↦
            let (r, m) = fault.apply env.executor w.machine in
            rw e (after_apply-Sound fault.def sf r (record w { machine = m }) sound)
      ]

  with_file-Sound :
      (fault : FaultImpl (Machine S)) (r : Result File) (w : World S)
      → Sound w.disk
      → Sound (with_file env id force confirmed fault r w).1.disk
  unfolding with_file
  with_file-Sound fault (err e) w sound = sound
  with_file-Sound fault (ok sf) w sound =
      checked_apply-Sound fault sf (refusal env id force confirmed fault.def sf w.machine) w sound

  with_fault-Sound :
      (fault : Option (FaultImpl (Machine S))) (w : World S) {out : CommandResult S × World S}
      → Sound w.disk
      → with_fault env id force confirmed fault w ≡ some out
      → Sound out.1.disk
  unfolding with_fault
  with_fault-Sound none w sound h = subst (λ o. Sound o.1.disk) (some-injective _ _ h) sound
  with_fault-Sound (some fault) w {out = o} sound h =
      Locked-disk Sound env.process _ _ w {out = o}
        (λ w'. with_file-Sound fault (Store.read w'.disk) w') (λ e w' s. s) sound
        (with_lock-Locked env _ _ w {out = o} h)

  pub fault_apply-Sound :
      (w : World S) {out : CommandResult S × World S}
      → Sound w.disk
      → fault_apply env id force confirmed w ≡ some out
      → Sound out.1.disk
  unfolding fault_apply
  fault_apply-Sound w {out = o} sound h = with_fault-Sound (by_id id) w {out = o} sound h
