-- ===== src/Conformance/Result/Counts.antt =====
-- internal/conformance/result.go: what `Classify` counts, and the agreement of the exit code.
use lab_env.Common.{
  suc, ◌+◌, ◌≡◌, refl, sym, ◌↔◌, Bool, true, List, [], ◌∷◌, ◌++◌, length, map, keep, arith,
  if◌then◌else◌, not, ◌&&◌, String, append_assoc, append-nil, all_pass, ap, length-keep,
}
use lab_env.Conformance.Check.{CheckResult, is_blocking}
use lab_env.Conformance.Result.{
  SuiteResult, count_result, count_results, classify, exit_code, is_conformant, Classification,
}

-- A result that counts against the suite: failed, and not as the consequence of S-001.
abbrev pub counts : {S : Type 0} → CheckResult S → Bool
counts res = not res.passed && not res.dependent

abbrev pub counts_blocking : {S : Type 0} → CheckResult S → Bool
counts_blocking res = counts res && is_blocking res.check.severity

abbrev pub counts_degraded : {S : Type 0} → CheckResult S → Bool
counts_degraded res = counts res && not (is_blocking res.check.severity)

abbrev pub ids : {S : Type 0} → List (CheckResult S) → List String
ids = map (λ res. res.check.id)

module _ {S : Type 0} where
  count_results-ids :
      (rs : List (CheckResult S)) (r : SuiteResult S)
      → ((count_results rs r).failing_blocking_ids
          ≡ r.failing_blocking_ids ++ ids (keep counts_blocking rs))
        × ((count_results rs r).failing_degraded_ids
            ≡ r.failing_degraded_ids ++ ids (keep counts_degraded rs))
        × ((count_results rs r).passed ≡ r.passed + length (keep (λ res. res.passed) rs))
        × ((count_results rs r).results ≡ r.results)
        × ((count_results rs r).total ≡ r.total)
        × ((count_results rs r).at ≡ r.at)
  unfolding count_results
  count_results-ids [] r = (sym (append-nil _), sym (append-nil _), omega arith, refl, refl, refl)
  count_results-ids (x ∷ rs) r = ground (
    arith,
    count_results-ids rs (count_result x r),
    append_assoc r.failing_blocking_ids (x.check.id ∷ []) (ids (keep counts_blocking rs)),
    append_assoc r.failing_degraded_ids (x.check.id ∷ []) (ids (keep counts_degraded rs)),
  )

  length-ids : (rs : List (CheckResult S)) → length (ids rs) ≡ length rs
  length-ids [] = refl
  length-ids (x ∷ rs) = ap suc (length-ids rs)

  all_pass-counts :
      (rs : List (CheckResult S))
      → all_pass (λ res. not (counts res)) rs ≡ (
          all_pass (λ res. not (counts_blocking res)) rs
          && all_pass (λ res. not (counts_degraded res)) rs)
  all_pass-counts [] = refl
  all_pass-counts (x ∷ rs) = ground (arith, all_pass-counts rs)

  cleared : SuiteResult S → SuiteResult S
  cleared r = record r { passed = 0; failing_blocking_ids = []; failing_degraded_ids = [] }

  -- After `Classify` the counters and the lists of failing checks are exactly those of the results
  -- (a dependent failure is in neither list), the results, the total and the time stay, the classification is conformant
  -- exactly when no blocking failure counts, it is the full one exactly when no failure counts, and
  -- the exit code is 0 exactly when the classification is conformant.
  pub classify_tallies :
      (r : SuiteResult S)
      → ((classify r).failing_blocking_ids ≡ ids (keep counts_blocking r.results))
        × ((classify r).failing_degraded_ids ≡ ids (keep counts_degraded r.results))
        × ((classify r).passed ≡ length (keep (λ res. res.passed) r.results))
        × ((classify r).results ≡ r.results)
        × ((classify r).total ≡ r.total)
        × ((classify r).at ≡ r.at)
        × (is_conformant (classify r).classification
            ≡ all_pass (λ res. not (counts_blocking res)) r.results)
        × (((classify r).classification ≡ Classification.conformant)
            ↔ (all_pass (λ res. not (counts res)) r.results ≡ true))
        × (exit_code (classify r) ≡ (if is_conformant (classify r).classification then 0 else 1))
  unfolding classify exit_code cleared
  classify_tallies r = ground (
    arith,
    count_results-ids r.results (unfold cleared in cleared r),
    length-ids (keep counts_blocking r.results),
    length-ids (keep counts_degraded r.results),
    length-keep counts_blocking r.results,
    length-keep counts_degraded r.results,
    all_pass-counts r.results,
  )
