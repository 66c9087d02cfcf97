-- ===== src/Conformance/Runner/Masking.antt =====
-- internal/conformance/runner.go: marking endpoint failures as dependent on S-001 hides no failure.

use lab_env.Common.{
  ℕ, ◌≡◌, Bool, true, false, List, [], ◌∷◌, length, map, all_pass, All, arith, not, ◌||◌, is_none,
  ◌==◌, string_eq, refl, contains, none, some, keep, ap, String,
}
use lab_env.Conformance.Observer.{Observer}
use lab_env.Conformance.Check.{Check, Outcome, is_blocking}
use lab_env.Conformance.Result.{is_conformant}
use lab_env.Conformance.Result.Counts.{counts_blocking, classify_tallies}
use lab_env.Conformance.Runner.{recovered, unclassified, run_checks, run, run_ids}

-- The check returns no error and does not panic.
abbrev pub passes : Outcome → Bool
passes (Outcome.returns none) = true
passes (Outcome.returns (some e)) = false
passes (Outcome.panics rec) = false

abbrev pub holds : {S : Type 0} → Observer S → S → Check S → Bool
holds o s c = passes (c.execute o s)

-- `runOne` passes a check exactly on the outcome that the check means to pass on.
recovered-passes : (out : Outcome) → is_none (recovered out) ≡ passes out
recovered-passes (Outcome.returns none) = refl
recovered-passes (Outcome.returns (some e)) = refl
recovered-passes (Outcome.panics rec) = refl

-- The check passes, or only degrades the suite.
abbrev pub does_not_block : {S : Type 0} → Observer S → S → Check S → Bool
does_not_block o s c = not (is_blocking c.severity) || holds o s c

-- S-001, where it is listed, is a blocking check.
abbrev pub GuardBlocks : {S : Type 0} → List (Check S) → Type 0
GuardBlocks = All (λ c. (c.id == "S-001") ≡ true → is_blocking c.severity ≡ true)

module _ {S : Type 0} (o : Observer S) (s : S) where
  run_checks-masking :
      (checks : List (Check S))
      → GuardBlocks checks
      → all_pass (λ res. not (counts_blocking res)) (run_checks o s checks true)
        ≡ all_pass (does_not_block o s) checks
  unfolding run_checks
  run_checks-masking [] g = refl
  run_checks-masking (c ∷ rest) g =
      ground (arith, g.0, recovered-passes (c.execute o s), run_checks-masking rest g.1)

  -- A run of a list in which S-001 is blocking is classified as conformant exactly when every
  -- blocking check of the list holds, although the endpoint checks that fail behind a failed
  -- S-001 are not counted.
  pub run-is_conformant :
      (at : ℕ) (checks : List (Check S))
      → GuardBlocks checks
      → is_conformant (run o s at checks).classification ≡ all_pass (does_not_block o s) checks
  unfolding run
  run-is_conformant at checks g = ground (
    arith,
    classify_tallies (unclassified at (length checks) (run_checks o s checks true)),
    run_checks-masking checks g,
  )

  run_checks-checks :
      (checks : List (Check S)) (b : Bool)
      → map (λ res. res.check) (run_checks o s checks b) ≡ checks
  unfolding run_checks
  run_checks-checks [] b = refl
  run_checks-checks (c ∷ rest) b = ap (λ cs. c ∷ cs) (run_checks-checks rest _)

  run_checks-passed :
      (checks : List (Check S)) (b : Bool)
      → map (λ res. res.passed) (run_checks o s checks b) ≡ map (holds o s) checks
  unfolding run_checks
  run_checks-passed [] b = refl
  run_checks-passed (c ∷ rest) b =
      rw (recovered-passes (c.execute o s), run_checks-passed rest _) refl

  -- A failing or panicking check stops nothing: the results of a run are those of all its checks,
  -- in their order, each passed exactly when its check holds.
  pub run_complete :
      (at : ℕ) (checks : List (Check S))
      → (map (λ res. res.check) (run o s at checks).results ≡ checks)
        × (map (λ res. res.passed) (run o s at checks).results ≡ map (holds o s) checks)
        × ((run o s at checks).total ≡ length checks)
  unfolding run
  run_complete at checks = ground (
    arith,
    classify_tallies (unclassified at (length checks) (run_checks o s checks true)),
    run_checks-checks checks true,
    run_checks-passed checks true,
  )

  -- `RunIDs` runs exactly the checks that are asked for, in the order of the catalog whatever the
  -- order of the IDs, and marks none of them as dependent.
  pub run_ids_order :
      (checks : List (Check S)) (ids : List String)
      → run_ids o s checks ids
        ≡ map
            (λ c. record {
              check = c;
              passed = holds o s c;
              err = recovered (c.execute o s);
              dependent = false;
            })
            (keep (λ c. contains c.id ids) checks)
  unfolding run_ids
  run_ids_order [] ids = refl
  run_ids_order (c ∷ rest) ids =
      ground (arith, recovered-passes (c.execute o s), run_ids_order rest ids)
