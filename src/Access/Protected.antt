-- ===== src/Access/Protected.antt =====
-- application/evaluate-protected-access.ts. The lookups of statuses are the caller's.
use blockchain_based_e_procu.Prelude.{String, Option, none, some}

pub data UserStatus : Type 0 where
  user_active user_inactive : UserStatus

pub data MemberStatus : Type 0 where
  pending_review active inactive suspended deleted : MemberStatus

pub data DenialReason : Type 0 where
  denied_user_inactive organization_inactive organization_suspended : DenialReason
  organization_deleted organization_not_active user_not_found organization_not_found : DenialReason

pub record StatusLookups : Type 0 where
  pub user_status : String → Option UserStatus
  pub member_status : String → Option MemberStatus

organization_decision : Option MemberStatus → Option DenialReason
organization_decision none = some organization_not_found
organization_decision (some active) = none
organization_decision (some inactive) = some organization_inactive
organization_decision (some suspended) = some organization_suspended
organization_decision (some deleted) = some organization_deleted
organization_decision (some pending_review) = some organization_not_active

user_decision : Option UserStatus → Option DenialReason → Option DenialReason
user_decision none rest = some user_not_found
user_decision (some user_inactive) rest = some denied_user_inactive
user_decision (some user_active) rest = rest

-- `evaluateProtectedAccess`: the reason of the denial, or none where access is allowed. The message
-- is one for each reason.
unfoldable pub evaluate_protected_access : StatusLookups → String → String → Option DenialReason
unfolding organization_decision user_decision
evaluate_protected_access l user organization =
    user_decision (l.user_status user) (organization_decision (l.member_status organization))
