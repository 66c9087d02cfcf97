-- ===== src/Conformance/Catalog.antt =====
-- internal/conformance/catalog.go: the ordered registry of the checks.
pub mod Outcomes
pub mod Services
pub mod Endpoints
pub mod Files
pub mod Registry
use lab_env.Common.{String, Option, List, [], ◌∷◌, find_first, ◌==◌, string_eq}
use lab_env.Conformance.Check.{Check}
use Outcomes.{Json}
use Services.{
  check_s001, check_s002, check_s003, check_s004, check_p001, check_p002, check_p003, check_p004,
}
use Endpoints.{check_e001, check_e002, check_e003, check_e004, check_e005, check_h001, check_h002}
use Files.{
  check_f001, check_f002, check_f003, check_f004, check_f005, check_f006, check_f007, check_l001,
  check_l002, check_l003,
}

-- `Catalog`
unfoldable pub catalog : {S : Type 0} → Json → List (Check S)
unfolding check_s001 check_s002 check_s003 check_s004 check_p001 check_p002 check_p003 check_p004
    check_e001 check_e002 check_e003 check_e004 check_e005 check_f001 check_f002 check_f003
    check_f004 check_f005 check_f006 check_f007 check_l001 check_l002 check_l003 check_h001
    check_h002
catalog j =
    check_s001
    ∷ check_s002
    ∷ check_s003
    ∷ check_s004
    ∷ check_p001
    ∷ check_p002
    ∷ check_p003
    ∷ check_p004
    ∷ check_e001
    ∷ check_e002
    ∷ check_e003 j
    ∷ check_e004
    ∷ check_e005
    ∷ check_f001
    ∷ check_f002
    ∷ check_f003
    ∷ check_f004
    ∷ check_f005
    ∷ check_f006
    ∷ check_f007
    ∷ check_l001
    ∷ check_l002 j
    ∷ check_l003
    ∷ check_h001
    ∷ check_h002
    ∷ []

-- `CheckByID`
unfoldable pub check_by_id : {S : Type 0} → Json → String → Option (Check S)
unfolding catalog
check_by_id j id = find_first (λ c. c.id == id) (catalog j)
