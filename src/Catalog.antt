-- ===== src/Catalog.antt =====
-- internal/catalog: the fault catalog.
pub mod Fault
pub mod StartupFaults
pub mod UnitFaults
pub mod NetworkFaults
pub mod StorageFaults
pub mod ChaosFaults
pub mod Registry
use mathlib.Core.Option
use lab_env.Common.{String, Option, List, [], ◌∷◌, find_first, map, ◌==◌, string_eq}
use Fault.{FaultDef, FaultImpl}
use StartupFaults.{fault_f001, fault_f003, fault_f005, fault_f009}
use UnitFaults.{fault_f006, fault_f013, fault_f017}
use NetworkFaults.{fault_f002, fault_f007, fault_f015, fault_f016, fault_f021}
use StorageFaults.{fault_f004, fault_f010, fault_f018, fault_f019}
use ChaosFaults.{fault_f008, fault_f014, fault_f020}

-- `AllImpls`
unfoldable pub all_impls : {S : Type 0} → List (FaultImpl S)
unfolding fault_f001 fault_f002 fault_f003 fault_f004 fault_f005 fault_f006 fault_f007 fault_f008
    fault_f009 fault_f010 fault_f013 fault_f014 fault_f015 fault_f016 fault_f017 fault_f018
    fault_f020 fault_f021 fault_f019
all_impls =
    fault_f001 ∷ fault_f002 ∷ fault_f003 ∷ fault_f004 ∷ fault_f005 ∷ fault_f006 ∷ fault_f007
    ∷ fault_f008 ∷ fault_f009 ∷ fault_f010 ∷ fault_f013 ∷ fault_f014 ∷ fault_f015 ∷ fault_f016
    ∷ fault_f017 ∷ fault_f018 ∷ fault_f020 ∷ fault_f021 ∷ fault_f019 ∷ []

-- `AllDefs`
unfoldable pub all_defs : (S : Type 0) → List FaultDef
unfolding all_impls
all_defs S = map (λ f. f.def) (all_impls {S = S})

-- `ImplByID` and `ByID`
unfoldable pub by_id : {S : Type 0} → String → Option (FaultImpl S)
unfolding all_impls
by_id id = find_first (λ f. f.def.id == id) all_impls

-- `DefByID`
unfoldable pub def_by_id : (S : Type 0) → String → Option FaultDef
unfolding by_id
def_by_id S id = Option.map (λ (f : FaultImpl S). f.def) (by_id id)
