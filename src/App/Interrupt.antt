-- ===== src/App/Interrupt.antt =====
-- app.go: the goroutine that waits for SIGINT and SIGTERM, beside a command that goes on.
use lab_env.Common.{ℕ, String, Bool, true, inl, inr, arith, false, ◌≡◌, refl, none, some, []}
use lab_env.Common.Errors.{Result, ok}
use lab_env.State.File.{File}
use lab_env.State.Store
use lab_env.State.Store.Recovery.{stamped, read-write, write_accepted, valid_of_read}
use lab_env.State.Store.Sound.{Sound, invalidate_read-Sound}
use lab_env.Executor.Audit.{log_interrupt}
use lab_env.Cmd.{Env, World, CommandResult, audited}
use lab_env.Cmd.Fault.{fault_apply}
use lab_env.Cmd.Fault.Outcomes.{fault_apply-Outcome, with_fault_recorded}

module _ {S : Type 0} (env : Env S) where
  -- What the handler does with what `InvalidateClassification` has read of the state file, 30
  -- seconds after the signal: the write, the entry, and the exit code.
  unfoldable pub interrupt_with : Result File → World S → ℕ × World S
  interrupt_with read w = (
    4,
    audited (log_interrupt env.clock.stamped "Systemctl" false)
        (record w { disk = (Store.invalidate_read read w.disk).1 }),
  )

  -- The handler, where no command writes between its read and its write.
  unfoldable pub interrupt : World S → ℕ × World S
  unfolding interrupt_with
  interrupt w = interrupt_with (Store.read w.disk) w

  -- Also where commands have written between the read and the write of the handler: a state file
  -- that was well-formed or missing is so afterwards.
  pub interrupt_with-Sound :
      (w w' : World S)
      → Sound w.disk
      → Sound w'.disk
      → Sound (interrupt_with (Store.read w.disk) w').1.disk
  unfolding interrupt_with
  interrupt_with-Sound w w' before sound =
      invalidate_read-Sound (Store.read w.disk) w'.disk before sound

  -- The handler takes no lock: where a confirmed fault is applied (exit 0) between its read and its
  -- write, on a state file without a fault, and its write is not refused, then the state file that
  -- named the fault before the write names none afterwards; it shows the earlier state,
  -- unclassified, while the system keeps what the fault has done to it.
  pub interrupt-fault_apply :
      (id : String) (force : Bool) (w w' : World S) (sf : File) {c : CommandResult S}
      → Store.read w.disk ≡ ok sf
      → sf.active_fault ≡ none
      → fault_apply env id force true w ≡ some (c, w')
      → c.exit_code ≡ 0
      → w'.disk.refusals ≡ []
      → let after = (interrupt_with (Store.read w.disk) w').1 in
        ((f : File) × (Store.read w'.disk ≡ ok f)
          × (f.active_fault
              ≡ some (record { id = id; applied_at = env.clock.stamped; forced = force })))
        × ((g : File) × (Store.read after.disk ≡ ok g)
            × (g.active_fault ≡ none)
            × (g.state ≡ sf.state)
            × (g.classification_valid ≡ false))
        × (after.machine.sys ≡ w'.machine.sys)
  unfolding interrupt_with Store.invalidate_read
  interrupt-fault_apply id force w w' sf {c = c} is free applied success accepted =
      let f = record sf { classification_valid = false } in
      (
        elim ((fault_apply-Outcome env id force true w {out = (c, w')} applied).2 success) [
          | inl aborted ↦ absurd (ground (arith, aborted.0))
          | inr (sf', before, after) ↦
              (stamped (with_fault_recorded env id force true sf'), after, refl)
        ],
        (
          stamped f,
          rw is (
              (read-write f w'.disk).0 (write_accepted f w'.disk accepted)
                (valid_of_read w.disk sf is)),
          free,
          refl,
          refl,
        ),
        refl,
      )
