-- ===== src/Procurement/Sourcing/Reading.antt =====
-- application/source-to-award-service.ts: `getSourceToAwardCase` and `listSourceToAwardCases`, which
-- write nothing.
use blockchain_based_e_procu.Prelude.{
  String, Bool, true, not, ◌||◌, Option, none, some, if◌then◌else◌, false,
}
use blockchain_based_e_procu.Prelude.Text.{◌=s◌, truthy}
use blockchain_based_e_procu.Prelude.Guard.{Guard, refuse, pass, refuse_if, need, ◌>>=◌, ◌>>◌}
use blockchain_based_e_procu.Procurement.Actor.{Actor, KnownActor, known_actor}
use blockchain_based_e_procu.Procurement.SourceCase.{
  SourceToAwardCase, invites, find_case, cases_of_buyer, cases_of_supplier,
}
use blockchain_based_e_procu.Procurement.Sourcing.{
  SourceResult, source_ok, source_list, unauthorized, forbidden, not_found, can_manage, can_quote,
  is_privileged_reader,
}
use blockchain_based_e_procu.World.{World}

abbrev seen_by : SourceToAwardCase → Option String → Bool
seen_by c none = false
seen_by c (some organization) =
    (c.buyer_organization_id =s organization) || invites organization c.rfq

-- `sourceCaseVisibleToActor`
unfoldable pub is_visible : SourceToAwardCase → Actor → Bool
unfolding is_privileged_reader
is_visible c a =
    if is_privileged_reader a
    then true
    else if truthy a.organization_id
    then seen_by c a.organization_id
    else false

-- The result, whether a test or the end of the operation gave it.
abbrev result : Guard SourceResult SourceResult → SourceResult
result (refuse r) = r
result (pass r) = r

-- `getSourceToAwardCase`
unfoldable pub get_case : String → Actor → World → SourceResult
unfolding known_actor find_case is_visible
get_case id a w = result (do
  actor ← need (known_actor a) unauthorized
  case ← need (find_case id w.cases) (not_found "caseNotFound")
  refuse_if (not (is_visible case a)) (forbidden "caseNotVisible")
  pass (source_ok case none))

list_for : Actor → World → Option KnownActor → SourceResult
unfolding can_manage can_quote is_privileged_reader cases_of_buyer cases_of_supplier
list_for a w none = unauthorized
list_for a w (some k) =
    if can_manage a
    then source_list (cases_of_buyer k.organization w.cases)
    else if can_quote a
    then source_list (cases_of_supplier k.organization w.cases)
    else if is_privileged_reader a
    then source_list w.cases
    else forbidden "sourceToAwardReadRoleRequired"

-- `listSourceToAwardCases`
unfoldable pub list_cases : Actor → World → SourceResult
unfolding known_actor list_for
list_cases a w = list_for a w (known_actor a)
