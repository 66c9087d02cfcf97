-- ===== src/App/Completed.antt =====
-- app.go: a run of the process returns, with one of the exit codes 0 to 4.
use lab_env.Common.{
  Bool-cases, inl, inr, ℕ, suc, ◌≤◌, ◌≡◌, refl, String, Bool, true, false, Option, none, some, List,
  [], ◌∷◌, arith, ◌||◌, if◌then◌else◌, ◌==◌, string_eq,
}
use lab_env.Common.Errors.{Error, Result, ok, err}
use lab_env.Catalog.{def_by_id}
use lab_env.Catalog.Fault.{FaultDef}
use lab_env.Cmd.{Env, World, CommandResult}
use lab_env.Cmd.Listing.{fault_list, fault_info, info_found}
use lab_env.Cmd.Provision.{history}
use lab_env.Cmd.Completed.{
  Completes, validate-exit_code, validate_single-exit_code, reset-Completes, provision-Completes,
  fault_apply-Completes, status-Completes,
}
use lab_env.App.{
  Exit, Dispatched, misuse, finished, ran, rendered, exit_of, exited, fault_info_of, fault_apply_of,
  dispatch_fault, fault_command, validate_command, dispatch_reset, dispatch_history, dispatch,
  run_command, run_parsed, run, silent,
}
use lab_env.App.Flags.{GlobalFlags, parse_global_flags}
use lab_env.Output.{Renderer}

-- The dispatch returns: a misuse, or a result with an exit code of at most 4.
abbrev Answers : {S : Type 0} → Option (Dispatched S × World S) → Type 0
Answers none = ⊥
Answers (some (misuse lines, w)) = Unit {0}
Answers (some (finished c, w)) = c.exit_code ≤ 4

-- The run returns, with an exit code of at most 4.
abbrev pub Exits : {S : Type 0} → Option (Exit S × World S) → Type 0
Exits {S} o = (x : Exit S) × (w : World S) × (o ≡ some (x, w)) × (x.exit_code ≤ 4)

module _ {S : Type 0} where
  Answers-if :
      (b : Bool) (p q : Option (Dispatched S × World S))
      → Answers p
      → Answers q
      → Answers (if b then p else q)
  Answers-if true p q hp hq = hp
  Answers-if false p q hp hq = hq

  Completes-if :
      (b : Bool) (p q : Option (CommandResult S × World S))
      → Completes p
      → Completes q
      → Completes (if b then p else q)
  Completes-if true p q hp hq = hp
  Completes-if false p q hp hq = hq

  ran-Answers : (o : Option (CommandResult S × World S)) → Completes o → Answers (ran o)
  unfolding ran
  ran-Answers o (out, is, low) = rw is low

  -- A command that returns at once.
  at_once : (c : CommandResult S) (w : World S) → c.exit_code ≤ 4 → Completes (some (c, w))
  at_once c w low = ((c, w), refl, low)

info_found-exit_code :
    (S : Type 0) (id : String) (o : Option FaultDef) → (info_found {S = S} id o).exit_code ≤ 4
unfolding info_found
info_found-exit_code S id none = omega arith
info_found-exit_code S id (some f) = omega arith

fault_info-exit_code : (S : Type 0) (id : String) → (fault_info S id).exit_code ≤ 4
unfolding fault_info
fault_info-exit_code S id = info_found-exit_code S id (def_by_id S id)

module _ {S : Type 0} (env : Env S) where
  fault_list-exit_code : (fault_list S).exit_code ≤ 4
  unfolding fault_list
  fault_list-exit_code = omega arith

  fault_info_of-exit_code : (args : List String) → (fault_info_of env args).exit_code ≤ 4
  unfolding fault_info_of
  fault_info_of-exit_code [] = omega arith
  fault_info_of-exit_code (id ∷ rest) = fault_info-exit_code S id

  history-exit_code :
      (args : List String) (w : World S) → (dispatch_history env args w).exit_code ≤ 4
  unfolding dispatch_history history
  history-exit_code args w = ground arith

  validate_command-exit_code :
      (args : List String) (w : World S) → (validate_command env args w).0.exit_code ≤ 4
  unfolding validate_command
  validate_command-exit_code [] w = validate-exit_code env w
  validate_command-exit_code (flag ∷ []) w = validate-exit_code env w
  validate_command-exit_code (flag ∷ id ∷ rest) w =
      ground (arith, validate-exit_code env w, validate_single-exit_code env id w.machine)

  rendered-exit_code :
      (r : Renderer) (e : Option Error) (c : CommandResult S)
      → (rendered env r e c).exit_code ≡ c.exit_code
  unfolding rendered
  rendered-exit_code r none c = refl
  rendered-exit_code r (some e) c = refl

  exited-Exits :
      (r : Renderer) (o : Option (Dispatched S × World S)) → Answers o → Exits (exited env r o)
  unfolding exited exit_of
  exited-Exits r none h = absurd h
  exited-Exits r (some (misuse lines, w)) h = (_, _, refl, omega arith)
  exited-Exits r (some (finished c, w)) h = (_, _, refl, rw (rendered-exit_code r c.err c) h)

  module _ (more : ℕ) (enough : env.lock_fuel ≡ suc (suc more))
      (removes : env.process.removes ≡ true) where
    fault_apply_of-Completes :
        (confirmed : Bool) (args : List String) (w : World S)
        → Completes (fault_apply_of env confirmed args w)
    unfolding fault_apply_of
    fault_apply_of-Completes confirmed [] w = at_once _ w (omega arith)
    fault_apply_of-Completes confirmed (arg ∷ args) w =
        fault_apply-Completes env more enough removes _ _ _ w

    fault_command-Answers :
        (confirmed : Bool) (args : List String) (w : World S)
        → Answers (fault_command env confirmed args w)
    unfolding fault_command dispatch_fault
    fault_command-Answers confirmed [] w = tt
    fault_command-Answers confirmed (sub ∷ args) w = ran-Answers _ (
        Completes-if (sub == "list") _ _ (at_once _ w fault_list-exit_code) (
          Completes-if (sub == "info") _ _ (at_once _ w (fault_info_of-exit_code args)) (
            Completes-if (sub == "apply") _ _ (fault_apply_of-Completes confirmed args w)
              (at_once _ w (omega arith)))))

    dispatch-Answers :
        (command : String) (args : List String) (confirmed : Bool) (w : World S)
        → Answers (dispatch env command args confirmed w)
    unfolding dispatch dispatch_reset
    dispatch-Answers command args confirmed w =
        Answers-if (command == "status") _ _
          (ran-Answers _ (status-Completes env more enough removes w))
          (Answers-if (command == "validate") _ _
            (ran-Answers (some (validate_command env args w))
              (_, refl, validate_command-exit_code args w))
            (Answers-if (command == "fault") _ _ (fault_command-Answers confirmed args w) (
              Answers-if (command == "reset") _ _
                (ran-Answers _ (reset-Completes env more enough removes _ w))
                (Answers-if (command == "provision") _ _
                  (ran-Answers _ (provision-Completes env more enough removes w))
                  (Answers-if (command == "history") _ _ (history-exit_code args w) tt)))))

    run_command-Exits :
        (flags : GlobalFlags) (args : List String) (w : World S)
        → Exits (run_command env flags args w)
    unfolding run_command
    run_command-Exits flags [] w = (_, _, refl, omega arith)
    run_command-Exits flags (command ∷ args) w =
        elim (Bool-cases ((command == "--help") || (command == "-h"))) [
          | inl e ↦ rw e (_, _, refl, omega arith)
          | inr e ↦ rw e (exited-Exits _ _ (dispatch-Answers command args flags.yes _))
        ]

    run_parsed-Exits :
        (r : Result (GlobalFlags × List String)) (w : World S) → Exits (run_parsed env r w)
    unfolding run_parsed
    run_parsed-Exits (err e) w = (_, _, refl, omega arith)
    run_parsed-Exits (ok (flags, words)) w = run_command-Exits flags words w

    -- Where a lock file can be removed, a run of the process returns, whatever its arguments, the
    -- state file, the lock file and the system are, and its exit code is one of 0 to 4; two calls of
    -- Acquire are enough for that.
    pub run-Exits : (args : List String) (w : World S) → Exits (run env args w)
    unfolding run
    run-Exits args w = run_parsed-Exits (parse_global_flags args) (silent env w)
