-- ===== src/Cmd/Reset/Tiers.antt =====
-- cmd/reset.go: which tier a reset chooses, and which operations the tiers perform.
use lab_env.Common.{
  String, true, ◌≡◌, Option, none, some, List, [], ◌∷◌, ◌++◌, arith, refl, map, Option-cases, inl,
  inr, ℕ,
}
use lab_env.Common.Errors.{ok}
use lab_env.Config.{app_service_name, bootstrap_script, r2_restore_files, r2_restore_modes}
use lab_env.Conformance.Catalog.Outcomes.{Json}
use lab_env.State.File.{File, ActiveFault}
use lab_env.Executor.{Op, Executor}
use lab_env.Catalog.{by_id}
use lab_env.Catalog.Registry.{is_tier, by_id-usable}
use lab_env.Cmd.Reset.{
  select_tier, fault_tier, declared_tier, run_tier, restore_files, restore_modes, at_path, tier_r1,
  tier_r2, tier_r3,
}

fault_tier-is_tier :
    (S : Type 0) (j : Json) (active : Option ActiveFault) → is_tier (fault_tier S active) ≡ true
unfolding fault_tier declared_tier
fault_tier-is_tier S j none = refl
fault_tier-is_tier S j (some a) = elim (Option-cases (by_id {S = S} a.id)) [
  | inl e ↦ rw e refl
  | inr (f, e) ↦ rw e (ground (arith, by_id-usable S j a.id {f = f} e))
]

-- Whatever fault is recorded, known to the catalog or not, the tier that a reset without --tier
-- chooses is one of the three that it can perform.
pub select_tier-is_tier : (S : Type 0) (j : Json) (sf : File) → is_tier (select_tier S sf) ≡ true
unfolding select_tier
select_tier-is_tier S j sf = fault_tier-is_tier S j sf.active_fault

module _ {S : Type 0} (x : Executor S) where
  -- The state after a list of operations, in their order.
  abbrev pub performed : List Op → S → S
  performed [] s = s
  performed (op ∷ rest) s = performed rest (x.perform op s).1

abbrev plan_r1 : List Op
plan_r1 =
    Op.systemctl "reset-failed" app_service_name
    ∷ Op.systemctl "restart" app_service_name
    ∷ Op.nginx_reload
    ∷ []

abbrev plan_r2 : List Op
plan_r2 =
    map Op.restore_file r2_restore_files
    ++ map (λ ((path, mode) : String × ℕ). Op.chmod path mode) r2_restore_modes
    ++ Op.systemctl "daemon-reload" "" ∷ plan_r1

abbrev plan_r3 : List Op
plan_r3 = Op.run_mutation "bash" (bootstrap_script ∷ []) ∷ []

module _ {S : Type 0} (x : Executor S)
    (succeeds : (op : Op) (s : S) → (x.perform op s).0 ≡ ok tt) where
  -- On an executor whose operations succeed, a tier performs the operations of its plan, all of
  -- them, in that order, and nothing else, and succeeds.
  pub run_tier-plan :
      (s : S)
      → (run_tier x "R1" s ≡ (ok tt, performed x plan_r1 s))
        × (run_tier x "R2" s ≡ (ok tt, performed x plan_r2 s))
        × (run_tier x "R3" s ≡ (ok tt, performed x plan_r3 s))
  unfolding run_tier tier_r1 tier_r2 tier_r3 restore_files restore_modes at_path
  run_tier-plan s = (simp succeeds, simp succeeds, simp succeeds)
