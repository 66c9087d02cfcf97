-- ===== src/Examples/Checks.antt =====
-- The catalogs, the runner and the state detection on a concrete system.

use lab_env.Cmd.Fault.Preconditions.{Passing}
use lab_env.Catalog.Fault.{FaultDef}
use lab_env.Common.{
  string_eq, contains, ◌↔◌, true, false, ◌≡◌, none, refl, [], ◌∷◌, map, All, all_pass,
}
use lab_env.Common.Errors.{ok}
use lab_env.Conformance.Catalog.{catalog}
use lab_env.Conformance.Catalog.Registry.{catalog-is_conformant}
use lab_env.Conformance.Result.{SuiteResult, classify, is_conformant}
use lab_env.Conformance.Result.Counts.{classify_tallies}
use lab_env.Conformance.Runner.{run, unclassified}
use lab_env.Conformance.Runner.Masking.{does_not_block, run_complete}
use lab_env.State.{State, state_eq}
use lab_env.Executor.{Op}
use lab_env.Executor.Machine.{Machine}
use lab_env.Catalog.{by_id}
use lab_env.Catalog.Registry.{by_id-usable, usable}
use lab_env.Catalog.StorageFaults.{fault_f004}
use lab_env.Cmd.Fault.{refusal}
use lab_env.Cmd.Fault.Preconditions.{refusal_unforced}
use lab_env.Cmd.Reset.{run_tier}
use lab_env.Cmd.Reset.Tiers.{run_tier-plan, performed}
use lab_env.Cmd.Validate.{validate}
use lab_env.Cmd.Validate.Observation.{validate-Observed}
use lab_env.Config.{bootstrap_script}
use lab_env.Examples.{Sys, observer, executor, json, env, conformant_world, faulty_file}

abbrev machine : Machine Sys
machine = record { sys = []; audit = none }

catalog-is_conformant_example :
    is_conformant (run observer machine 0 (catalog json)).classification
    ≡ all_pass (does_not_block observer machine) (catalog json)
catalog-is_conformant_example = catalog-is_conformant (Machine Sys) json observer machine 0

run_complete_example :
    map (λ res. res.check) (run observer machine 0 (catalog json)).results ≡ catalog json
run_complete_example = (run_complete observer machine 0 (catalog json)).0

abbrev suite : SuiteResult (Machine Sys)
suite = unclassified 0 0 []

classify_tallies_example : (classify suite).results ≡ []
classify_tallies_example = (classify_tallies suite).3

by_id-usable_example : usable Sys json (fault_f004 {S = Sys}).def ≡ true
unfolding by_id
by_id-usable_example = by_id-usable Sys json "F-004" {f = fault_f004} refl

executor-succeeds : (op : Op) (m : Machine Sys) → (executor.perform op m).0 ≡ ok tt
executor-succeeds op m = refl

run_tier-plan_example :
    run_tier executor "R3" machine
    ≡ (ok tt, performed executor (Op.run_mutation "bash" (bootstrap_script ∷ []) ∷ []) machine)
run_tier-plan_example = (run_tier-plan executor executor-succeeds machine).2

abbrev f004 : FaultDef
f004 = (fault_f004 {S = Machine Sys}).def

refusal_unforced_example : (refusal env "F-004" false true f004 faulty_file machine ≡ none) ↔ (
    (faulty_file.state ≡ State.conformant)
    × (faulty_file.active_fault ≡ none)
    × (contains faulty_file.state f004.preconditions ≡ true)
    × All (Passing env "F-004" machine) f004.precondition_checks)
refusal_unforced_example = refusal_unforced env "F-004" true f004 faulty_file machine

validate-Observed_example : (validate env conformant_world).1.machine.sys ≡ []
validate-Observed_example = (validate-Observed env conformant_world).0
