-- ===== src/Catalog/Registry.antt =====
-- internal/catalog/faults.go: what the catalog as a whole guarantees to the commands that look up
-- a fault in it.
use lab_env.Common.{
  String, Bool, true, ◌≡◌, some, List, All, all_pass, find_first-all_pass, contains, is_some, ◌&&◌,
  ◌||◌, ◌==◌, string_eq, refl, arith,
}
use lab_env.Conformance.Catalog.{check_by_id}
use lab_env.Conformance.Catalog.Outcomes.{Json}
use lab_env.State.{State, state_eq}
use lab_env.Catalog.{all_impls, by_id}
use lab_env.Catalog.Fault.{FaultImpl, FaultDef}

abbrev pub is_tier : String → Bool
is_tier t = (t == "R1") || ((t == "R2") || (t == "R3"))

-- Every named check is one of the catalog of checks.
abbrev pub checks_exist : (S : Type 0) → Json → List String → Bool
checks_exist S j ids = all_pass (λ id. is_some (check_by_id {S = S} j id)) ids

-- The definition is one that the commands can work with.
abbrev pub usable : (S : Type 0) → Json → FaultDef → Bool
usable S j def =
    is_tier def.reset_tier
    && (contains State.conformant def.preconditions
        && (checks_exist S j def.precondition_checks
            && (checks_exist S j def.postcondition.failing_checks
                && checks_exist S j def.postcondition.passing_checks)))

all_impls-usable :
    (S : Type 0) (j : Json) → all_pass (λ f. usable S j f.def) (all_impls {S = S}) ≡ true
unfolding all_impls check_by_id
all_impls-usable S j = refl

-- A search for a fault's ID finds that fault: no two faults share an ID.
pub by_id-all_impls : (S : Type 0) → All (λ (f : FaultImpl S). by_id f.def.id ≡ some f) all_impls
unfolding by_id
by_id-all_impls S = ground arith

-- Whatever ID is looked up: the fault that is found has a reset tier that lab reset knows, admits
-- the state CONFORMANT, and names, as its preconditions and as the failing and the passing checks
-- of its postcondition, only checks that the catalog of checks has.
pub by_id-usable :
    (S : Type 0) (j : Json) (id : String) {f : FaultImpl S}
    → by_id id ≡ some f
    → usable S j f.def ≡ true
unfolding by_id
by_id-usable S j id {f = f} h =
    find_first-all_pass (λ x. x.def.id == id) (λ x. usable S j x.def) all_impls {x = f}
      (all_impls-usable S j) h
