-- ===== src/Cmd/Locked.antt =====
-- cmd: what a command under the mutation lock has done when it returns.
use mathlib.Core.Option.{some-injective}
use lab_env.Common.{ℕ, refl, subst, ◌≡◌, Option, none, some}
use lab_env.Common.Errors.{Error}
use lab_env.Executor.Lock
use lab_env.Executor.Lock.{LockState, Process}
use lab_env.State.Store.{Disk}
use lab_env.Cmd.{Env, World, CommandResult, with_lock, unlocked, acquired}

module _ {S : Type 0} where
  -- It was refused the lock, or it ran its body and released the lock.
  pub data Locked (p : Process) (body : World S → CommandResult S × World S)
      (refuse : Error → World S → CommandResult S × World S) (w : World S)
      : CommandResult S × World S → Type 0 where
    not_acquired :
        (e : Error) (l : LockState) (fuel : ℕ)
        → Lock.acquire fuel p w.locks ≡ some (some e, l)
        → Locked p body refuse w (refuse e (record w { locks = l }))
    ran :
        (l : LockState)
        → Locked p body refuse w
            ((body (record w { locks = l })).0, unlocked p (body (record w { locks = l })).1)

  acquired-Locked :
      (a : Option (Option Error × LockState)) (p : Process) (fuel : ℕ)
      (body : World S → CommandResult S × World S)
      (refuse : Error → World S → CommandResult S × World S) (w : World S)
      {out : CommandResult S × World S}
      → Lock.acquire fuel p w.locks ≡ a
      → acquired a p body refuse w ≡ some out
      → Locked p body refuse w out
  unfolding acquired
  acquired-Locked none p fuel body refuse w is h = cc
  acquired-Locked (some (some e, l)) p fuel body refuse w is h =
      subst (Locked p body refuse w) (some-injective _ _ h) (Locked.not_acquired e l fuel is)
  acquired-Locked (some (none, l)) p fuel body refuse w is h =
      subst (Locked p body refuse w) (some-injective _ _ h) (Locked.ran l)

  pub with_lock-Locked :
      (env : Env S) (body : World S → CommandResult S × World S)
      (refuse : Error → World S → CommandResult S × World S) (w : World S)
      {out : CommandResult S × World S}
      → with_lock env body refuse w ≡ some out
      → Locked env.process body refuse w out
  unfolding with_lock
  with_lock-Locked env body refuse w {out = o} h =
      acquired-Locked (Lock.acquire env.lock_fuel env.process w.locks) env.process env.lock_fuel
        body refuse w {out = o} refl h

  -- What the body and the refusal keep of the state file holds after the command.
  pub Locked-disk :
      (P : Disk → Type 0) (p : Process) (body : World S → CommandResult S × World S)
      (refuse : Error → World S → CommandResult S × World S) (w : World S)
      {out : CommandResult S × World S}
      → ((w' : World S) → P w'.disk → P (body w').1.disk)
      → ((e : Error) (w' : World S) → P w'.disk → P (refuse e w').1.disk)
      → P w.disk
      → Locked p body refuse w out
      → P out.1.disk
  Locked-disk P p body refuse w kept kept' h (Locked.not_acquired e l fuel is) =
      kept' e (record w { locks = l }) h
  Locked-disk P p body refuse w kept kept' h (Locked.ran l) = kept (record w { locks = l }) h
