-- ===== src/Conformance/Catalog/Registry.antt =====
-- internal/conformance/catalog.go: what the catalog as a whole guarantees to the runner.
use lab_env.Common.{ℕ, ◌≡◌, some, All, all_pass, string_eq, arith}
use lab_env.Conformance.Observer.{Observer}
use lab_env.Conformance.Check.{Check}
use lab_env.Conformance.Catalog.{catalog, check_by_id}
use lab_env.Conformance.Catalog.Outcomes.{Json}
use lab_env.Conformance.Result.{is_conformant}
use lab_env.Conformance.Runner.{run}
use lab_env.Conformance.Runner.Masking.{GuardBlocks, does_not_block, run-is_conformant}

module _ (S : Type 0) (j : Json) where
  catalog-GuardBlocks : GuardBlocks {S = S} (catalog j)
  unfolding catalog
  catalog-GuardBlocks = ground arith

  -- The full suite of the catalog is conformant exactly when every blocking check of the catalog
  -- holds, although the endpoint checks are not counted while S-001 fails.
  pub catalog-is_conformant :
      (o : Observer S) (s : S) (at : ℕ)
      → is_conformant (run o s at (catalog j)).classification
        ≡ all_pass (does_not_block o s) (catalog j)
  catalog-is_conformant o s at = run-is_conformant o s at (catalog j) catalog-GuardBlocks

  -- A search for a check's ID finds that check: no two checks share an ID.
  pub check_by_id-catalog : All (λ (c : Check S). check_by_id j c.id ≡ some c) (catalog j)
  unfolding check_by_id
  check_by_id-catalog = ground arith
