-- ===== src/Procurement/Eligibility.antt =====
-- application/procurement-eligibility-gateway.ts. What the gateway answers is the caller's.
use blockchain_based_e_procu.Prelude.{String, List, Bool, true, false, Option}

pub data Eligibility : Type 0 where
  eligible flagged blocked not_eligible pending_review unknown : Eligibility

pub record EligibilityResult : Type 0 where
  pub member_organization_id : String
  pub eligibility : Eligibility
  pub reason_codes : Option (List String)
  pub rationale : Option String

-- `eligibility === 'eligible'`
unfoldable pub is_eligible : Eligibility → Bool
is_eligible eligible = true
is_eligible flagged = false
is_eligible blocked = false
is_eligible not_eligible = false
is_eligible pending_review = false
is_eligible unknown = false

-- `canPerformProcurementAction`
unfoldable pub can_perform_procurement_action : EligibilityResult → Bool
unfolding is_eligible
can_perform_procurement_action r = is_eligible r.eligibility
