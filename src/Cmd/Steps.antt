-- ===== src/Cmd/Steps.antt =====
-- cmd: sequences of commands, by any processes, on a system that changes in between.
use lab_env.Common.{String, Bool, ◌≡◌, some, List}
use lab_env.AtomicFile.{Refusals}
use lab_env.State.Store
use lab_env.State.Store.Sound.{Sound, invalidate_classification-Sound}
use lab_env.Executor.Machine.{Machine}
use lab_env.Executor.Lock.{LockState}
use lab_env.Cmd.{Env, World, CommandResult}
use lab_env.Cmd.Fault.{fault_apply}
use lab_env.Cmd.Fault.Sound.{fault_apply-Sound}
use lab_env.Cmd.Reset.{reset}
use lab_env.Cmd.Reset.Sound.{reset-Sound}
use lab_env.Cmd.Provision.{provision}
use lab_env.Cmd.Provision.Sound.{provision-Sound}
use lab_env.Cmd.Validate.{validate}
use lab_env.Cmd.Validate.Sound.{validate-Sound}
use lab_env.Cmd.Status
use lab_env.Cmd.Status.Sound.{status-Sound}

-- One step: a command that returns, the invalidation that an interrupted command makes, or a change
-- of the system, of the lock file and of what the operating system will refuse.
pub data Step {S : Type 0} : World S → World S → Type 0 where
  applies :
      (env : Env S) (id : String) (force confirmed : Bool) (w : World S) (c : CommandResult S)
      (w' : World S)
      → fault_apply env id force confirmed w ≡ some (c, w')
      → Step w w'
  resets :
      (env : Env S) (tier : String) (w : World S) (c : CommandResult S) (w' : World S)
      → reset env tier w ≡ some (c, w')
      → Step w w'
  provisions :
      (env : Env S) (w : World S) (c : CommandResult S) (w' : World S)
      → provision env w ≡ some (c, w')
      → Step w w'
  reports :
      (env : Env S) (w : World S) (c : CommandResult S) (w' : World S)
      → Status.status env w ≡ some (c, w')
      → Step w w'
  validates : (env : Env S) (w : World S) → Step w (validate env w).1
  interrupted :
      (w : World S) → Step w (record w { disk = (Store.invalidate_classification w.disk).1 })
  changes :
      (m : Machine S) (l : LockState) (r : List Refusals) (w : World S)
      → Step w (record w { machine = m; locks = l; disk = record w.disk { refusals = r } })

pub data Steps {S : Type 0} : World S → World S → Type 0 where
  done : (w : World S) → Steps w w
  next : (w w' w'' : World S) → Step w w' → Steps w' w'' → Steps w w''

read_refusals : (r : List Refusals) (d : Store.Disk) → Sound d → Sound (record d { refusals = r })
unfolding Store.read
read_refusals r d sound = sound

module _ {S : Type 0} where
  Step-Sound : {w w' : World S} → Step w w' → Sound w.disk → Sound w'.disk
  Step-Sound (Step.applies env id force confirmed w c w' h) sound =
      fault_apply-Sound env id force confirmed w {out = (c, w')} sound h
  Step-Sound (Step.resets env tier w c w' h) sound = reset-Sound env tier w {out = (c, w')} sound h
  Step-Sound (Step.provisions env w c w' h) sound = provision-Sound env w {out = (c, w')} sound h
  Step-Sound (Step.reports env w c w' h) sound = status-Sound env w {out = (c, w')} sound h
  Step-Sound (Step.validates env w) sound = validate-Sound env w sound
  Step-Sound (Step.interrupted w) sound = invalidate_classification-Sound w.disk sound
  Step-Sound (Step.changes m l r w) sound = read_refusals r w.disk sound

  -- From a missing or well-formed state file, whatever commands are run in whatever order, forced
  -- or not, successful or not, interrupted or not, and whatever happens to the system between them:
  -- the state file is missing or well-formed. It never becomes corrupt, a fault is recorded exactly
  -- in the state DEGRADED, and the history has at most 50 entries.
  pub Steps-Sound : {w w' : World S} → Steps w w' → Sound w.disk → Sound w'.disk
  Steps-Sound (Steps.done w) sound = sound
  Steps-Sound (Steps.next w w' w'' step rest) sound = Steps-Sound rest (Step-Sound step sound)
