-- ===== src/App/Printed.antt =====
-- app.go and internal/output/render.go: what a run prints under the global flags.
use lab_env.Common.{
  String, Bool, true, false, ◌≡◌, refl, Option, none, some, List, [], ◌∷◌, ◌++◌, contains,
  string_eq, inl, inr, ◌⊎◌, subst, Bool-cases, ◌==◌, ◌||◌, if◌then◌else◌,
}
use lab_env.Common.Errors.{Error, Result, ok, err, cause, nil}
use lab_env.Cmd.{Env, World, CommandResult, Value}
use lab_env.Output.{Format, render, encodes, json_lines}
use lab_env.Output.Lines.{Line, printf, encoded}
use lab_env.App.{
  Exit, Dispatched, misuse, finished, shown, rendered, exit_of, exited, usage, run_command,
  run_parsed, run, renderer_of, notices, silent,
}
use lab_env.App.Flags.{GlobalFlags, parse_global_flags}
use lab_env.App.Flags.Parsed.{parse_global_flags-ok}

-- What is printed of the result: on at most one of the two streams, and --quiet and --json decide
-- what may stand on stdout: nothing, or at most one encoded value.
abbrev pub Disciplined : {S : Type 0} → Bool → Bool → List (Line S) → List (Line S) → Type 0
Disciplined {S} quiet json out errors =
    ((out ≡ []) ⊎ (errors ≡ []))
    × (quiet ≡ true → out ≡ [])
    × (json ≡ true → (out ≡ []) ⊎ ((v : Value S) × (out ≡ encoded v ∷ [])))

-- The result stands on its stream behind the warnings that the command has printed there itself.
abbrev pub PrintsResult : {S : Type 0} → Env S → Bool → Bool → Exit S → World S → Type 0
PrintsResult {S} env quiet json x w =
    (out : List (Line S)) × (errors : List (Line S)) × Disciplined quiet json out errors
    × (x.stdout ≡ notices env w.printed ++ out)
    × (x.stderr ≡ notices env w.warnings ++ errors)

-- A run that returns is disciplined, or it prints the usage text.
abbrev Prints : {S : Type 0} → Env S → Bool → Bool → Option (Exit S × World S) → Type 0
Prints env quiet json none = Unit
Prints env quiet json (some (x, w)) = PrintsResult env quiet json x w ⊎ (x ≡ usage env)

module _ {S : Type 0} (env : Env S) where
  encoded-Disciplined :
      (v : Value S) (b : Bool) → Disciplined false true (json_lines b v).out (json_lines b v).errors
  encoded-Disciplined v true = (inr refl, λ q. cc, λ j. inr (v, refl))
  encoded-Disciplined v false = (inl refl, λ q. refl, λ j. inl refl)

  shown-Disciplined :
      (json quiet : Bool) (v : Option (Value S))
      → let p =
          shown env
            (record { format = if json then Format.json else Format.human; quiet = quiet })
            v in
        Disciplined quiet json p.out p.errors
  unfolding shown render
  shown-Disciplined json quiet none = (inl refl, λ q. refl, λ j. inl refl)
  shown-Disciplined json true (some v) = (inl refl, λ q. refl, λ j. inl refl)
  shown-Disciplined true false (some v) = encoded-Disciplined v (encodes v)
  shown-Disciplined false false (some v) = (inr refl, λ q. cc, λ j. cc)

  rendered-Disciplined :
      (flags : GlobalFlags) (e : Option Error) (c : CommandResult S)
      → let x = rendered env (renderer_of env flags) e c in
        Disciplined flags.quiet flags.json x.stdout x.stderr
  unfolding rendered
  rendered-Disciplined flags (some e) c = (inl refl, λ q. refl, λ j. inl refl)
  rendered-Disciplined flags none c = shown-Disciplined flags.json flags.quiet c.value

  exited-Prints :
      (flags : GlobalFlags) (o : Option (Dispatched S × World S))
      → Prints env flags.quiet flags.json (exited env (renderer_of env flags) o)
  unfolding exited exit_of
  exited-Prints flags none = tt
  exited-Prints flags (some (misuse lines, w)) =
      inl (_, _, (inl refl, λ q. refl, λ j. inl refl), refl, refl)
  exited-Prints flags (some (finished c, w)) =
      inl (_, _, rendered-Disciplined flags c.err c, refl, refl)

  run_command-Prints :
      (flags : GlobalFlags) (args : List String) (w : World S)
      → Prints env flags.quiet flags.json (run_command env flags args w)
  unfolding run_command
  run_command-Prints flags [] w = inr refl
  run_command-Prints flags (command ∷ args) w =
      elim (Bool-cases ((command == "--help") || (command == "-h"))) [
        | inl e ↦ rw e (inr refl)
        | inr e ↦ rw e (exited-Prints flags _)
      ]

  run_parsed-Prints :
      (args : List String) (r : Result (GlobalFlags × List String)) (w : World S)
      → (w.printed ≡ []) × (w.warnings ≡ [])
      → parse_global_flags args ≡ r
      → Prints env (contains "--quiet" args) (contains "--json" args) (run_parsed env r w)
  unfolding run_parsed
  run_parsed-Prints args (err e) w start is = inl (
    [],
    printf "error: %v\n" (cause e nil) ∷ printf "Run 'lab --help' for usage.\n" nil ∷ [],
    (inl refl, λ q. refl, λ j. inl refl),
    rw (start.0) refl,
    rw (start.1) refl,
  )
  run_parsed-Prints args (ok (flags, words)) w start is =
      let (quiet, json) = parse_global_flags-ok args flags words is in
      rw (← quiet, ← json) (run_command-Prints flags words w)

  pub run-Disciplined :
      (args : List String) (w : World S) {x : Exit S} {w' : World S}
      → run env args w ≡ some (x, w')
      → PrintsResult env (contains "--quiet" args) (contains "--json" args) x w' ⊎ (x ≡ usage env)
  unfolding run
  run-Disciplined args w h =
      subst (Prints env (contains "--quiet" args) (contains "--json" args)) h
        (run_parsed-Prints args (parse_global_flags args) (silent env w) (refl, refl) refl)
