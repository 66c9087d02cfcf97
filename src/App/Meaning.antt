-- ===== src/App/Meaning.antt =====
-- app.go: what the words of a command line mean.
use Prim.Native.String.{◌++◌ as text_append}
use lab_env.Common.{
  Bool-cases, inl, inr, String, Bool, ◌≡◌, ◌≢◌, refl, ◌∙◌, ap, Option, some, List, [], ◌∷◌,
  contains, ◌||◌, string_eq, ◌==◌,
}
use lab_env.Common.Errors.{ok, ℤ}
use lab_env.Cmd.{Env, World, CommandResult}
use lab_env.Cmd.Listing.{fault_list, fault_info}
use lab_env.Cmd.Fault.{fault_apply}
use lab_env.Cmd.Reset.{reset}
use lab_env.Cmd.Provision.{provision, history}
use lab_env.Cmd.Status
use lab_env.Cmd.Validate.{validate, validate_single}
use lab_env.App.{
  wanted, with_logger, ran, exited, renderer_of, silent, dispatch, dispatch_history, dispatch_reset,
  fault_command, dispatch_fault, fault_apply_of, fault_info_of, validate_command, run_command,
  run_parsed, run,
}
use lab_env.App.Flags.{GlobalFlags, parse_global_flags, join_args, scan_last}
use lab_env.App.Flags.Operands.{
  first_operand, mentions, taken, parse_fault_apply_flags_lem, option_value_lem,
}

-- The commands of `lab`: what each command line stands for, with --yes among the global flags or
-- not.
pub data Means {S : Type 0} (env : Env S) (confirmed : Bool)
    : List String → (World S → Option (CommandResult S × World S)) → Type 0 where
  status : (rest : List String) → Means env confirmed ("status" ∷ rest) (Status.status env)
  validate_all :
      (rest : List String)
      → ((id : String) (more : List String) → rest ≢ "--check" ∷ id ∷ more)
      → Means env confirmed ("validate" ∷ rest) (λ w. some (validate env w))
  validate_one :
      (id : String) (rest : List String)
      → Means env confirmed
          ("validate" ∷ "--check" ∷ id ∷ rest)
          (λ w. some (validate_single env id w.machine, w))
  list_faults :
      (rest : List String)
      → Means env confirmed ("fault" ∷ "list" ∷ rest) (λ w. some (fault_list S, w))
  show_fault :
      (id : String) (rest : List String)
      → Means env confirmed ("fault" ∷ "info" ∷ id ∷ rest) (λ w. some (fault_info S id, w))
  apply_fault :
      (arg : String) (rest : List String)
      → Means env confirmed ("fault" ∷ "apply" ∷ arg ∷ rest) (
          fault_apply env
            (first_operand (arg ∷ rest))
            (contains "--force" (arg ∷ rest))
            (confirmed || contains "--yes" (arg ∷ rest)))
  resets :
      (rest : List String)
      → Means env confirmed
          ("reset" ∷ rest)
          (reset env (taken (λ tier before. tier) (mentions "--tier" rest) ""))
  provisions : (rest : List String) → Means env confirmed ("provision" ∷ rest) (provision env)
  shows_history :
      (rest : List String)
      → Means env confirmed ("history" ∷ rest) (λ w.
        some (history S (wanted (taken scan_last (mentions "--last" rest) (ℤ.pos 20))) w.disk, w))

module _ {S : Type 0} (env : Env S) where
  fault_apply_of_lem :
      (confirmed : Bool) (arg : String) (rest : List String) (w : World S)
      → fault_apply_of env confirmed (arg ∷ rest) w
        ≡ fault_apply env
            (first_operand (arg ∷ rest))
            (contains "--force" (arg ∷ rest))
            (confirmed || contains "--yes" (arg ∷ rest))
            w
  unfolding fault_apply_of
  fault_apply_of_lem confirmed arg rest w = rw (parse_fault_apply_flags_lem (arg ∷ rest)) refl

  run_command-Means :
      (flags : GlobalFlags) (words : List String) (w : World S)
      {meaning : World S → Option (CommandResult S × World S)}
      → Means env flags.yes words meaning
      → run_command env flags words w
        ≡ exited env
            (renderer_of env flags)
            (ran (meaning (with_logger (text_append "lab " (join_args words)) w)))
  unfolding run_command dispatch dispatch_history dispatch_reset fault_command dispatch_fault
      fault_info_of validate_command
  run_command-Means flags words w (Means.status rest) = refl
  run_command-Means flags words w (Means.validate_all [] all) = refl
  run_command-Means flags words w (Means.validate_all (flag ∷ []) all) = refl
  run_command-Means flags words w (Means.validate_all (flag ∷ id ∷ more) all) =
      elim (Bool-cases (flag == "--check")) [
        | inl e ↦
            absurd (all id more (ap (λ f. f ∷ id ∷ more) ((string_eq.same_iff flag "--check").0 e)))
        | inr e ↦ rw e refl
      ]
  run_command-Means flags words w (Means.validate_one id rest) = refl
  run_command-Means flags words w (Means.list_faults rest) = refl
  run_command-Means flags words w (Means.show_fault id rest) = refl
  run_command-Means flags words w (Means.apply_fault arg rest) =
      rw (fault_apply_of_lem flags.yes arg rest _) refl
  run_command-Means flags words w (Means.resets rest) =
      rw (option_value_lem "--tier" (λ tier before. tier) rest "") refl
  run_command-Means flags words w (Means.provisions rest) = refl
  run_command-Means flags words w (Means.shows_history rest) =
      rw (option_value_lem "--last" scan_last rest (ℤ.pos 20)) refl

  pub run-Means :
      (args words : List String) (flags : GlobalFlags) (w : World S)
      {meaning : World S → Option (CommandResult S × World S)}
      → parse_global_flags args ≡ ok (flags, words)
      → Means env flags.yes words meaning
      → run env args w
        ≡ exited env
            (renderer_of env flags)
            (ran (meaning (with_logger (text_append "lab " (join_args words)) (silent env w))))
  unfolding run run_parsed
  run-Means args words flags w is m =
      ap (λ r. run_parsed env r (silent env w)) is ∙ run_command-Means flags words (silent env w) m
