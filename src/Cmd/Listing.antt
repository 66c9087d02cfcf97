-- ===== src/Cmd/Listing.antt =====
-- cmd/fault.go: lab fault list and lab fault info.
use lab_env.Common.{map, String, Option, none, some, length}
use lab_env.Common.Errors.{errorf, text, nil}
use lab_env.Catalog.{all_defs, def_by_id}
use lab_env.Catalog.Fault.{FaultDef}
use lab_env.Cmd.{CommandResult, Value, FaultSummary, failed, succeeded}

abbrev summary : FaultDef → FaultSummary
summary f = record { id = f.id; layer = f.layer; domain = f.domain; symptom = f.symptom }

-- `FaultListCmd.Run`
unfoldable pub fault_list : (S : Type 0) → CommandResult S
unfolding all_defs
fault_list S =
    let defs = all_defs S in
    succeeded 0 (Value.fault_list (record { faults = map summary defs; total = length defs }))

unfoldable pub info_found : {S : Type 0} → String → Option FaultDef → CommandResult S
info_found id none = failed 1 (
    errorf "ErrUnknownFaultID: unknown fault ID %q — run 'lab fault list' to see available faults"
      (text id nil))
info_found id (some f) = succeeded 0 (
    Value.fault_info (record {
      id = f.id;
      layer = f.layer;
      domain = f.domain;
      reset_tier = f.reset_tier;
      requires_confirmation = f.requires_confirmation;
      is_reversible = f.is_reversible;
      mutation_display = f.mutation_display;
      symptom = f.symptom;
      authoritative_signal = f.authoritative_signal;
      observable = f.observable;
      reset_action = f.reset_action;
    }))

-- `FaultInfoCmd.Run`
unfoldable pub fault_info : (S : Type 0) → String → CommandResult S
unfolding info_found def_by_id
fault_info S id = info_found id (def_by_id S id)
