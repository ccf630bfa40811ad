-- ===== src/Access/Assignments.antt =====
-- domain/role-assignment.ts, the array of infrastructure/in-memory-role-assignment-repository.ts, and
-- application/create-role-assignment.ts and application/change-role-assignment.ts.
pub mod Unique
pub mod Shadow
use blockchain_based_e_procu.Prelude.{
  String, Bool, true, false, not, ◌&&◌, List, [], ◌∷◌, ◌++◌, Option, none, some, find, is_some,
  if◌then◌else◌,
}
use blockchain_based_e_procu.Prelude.Text.{◌=s◌}
use blockchain_based_e_procu.Access.Protected.{
  StatusLookups, DenialReason, evaluate_protected_access,
}

pub data AssignmentStatus : Type 0 where
  active revoked : AssignmentStatus

pub record RoleAssignment : Type 0 where
  pub user_id : String
  pub organization_id : String
  pub role_id : String
  pub status : AssignmentStatus

abbrev pub is_active : AssignmentStatus → Bool
is_active active = true
is_active revoked = false

-- `assignment.userId === userId && …`
abbrev pub matches : String → String → String → RoleAssignment → Bool
matches user organization role a =
    a.user_id =s user && a.organization_id =s organization && a.role_id =s role

abbrev pub matches_active : String → String → String → RoleAssignment → Bool
matches_active user organization role a = matches user organization role a && is_active a.status

-- `findActiveByUserOrganizationRole`
unfoldable pub find_active : String → String → String → List RoleAssignment → Option RoleAssignment
find_active user organization role l = find (matches_active user organization role) l

-- `save`
unfoldable pub save : RoleAssignment → List RoleAssignment → List RoleAssignment
save a l = l ++ a ∷ []

-- `update`: the first assignment of the same user, organization and role is replaced, whatever its
-- status is.
unfoldable pub update : RoleAssignment → List RoleAssignment → List RoleAssignment
update a [] = a ∷ []
update a (b ∷ l) = if matches a.user_id a.organization_id a.role_id b then a ∷ l else b ∷ update a l

-- The other repositories, by the one question that is asked of each.
pub record Lookups : Type 0 where
  pub role_exists : String → Bool
  pub organization_exists : String → Bool
  pub user_exists : Option (String → Bool)
  pub is_member : String → String → Bool
  pub protected_access : Option (String × StatusLookups)

pub data CreateResult : Type 0 where
  created : RoleAssignment → CreateResult
  duplicate role_not_found organization_not_found user_not_found user_not_member : CreateResult
  access_denied : DenialReason → CreateResult

-- The denial, where the caller asks for protected access.
denial : Option (String × StatusLookups) → String → Option DenialReason
unfolding evaluate_protected_access
denial none organization = none
denial (some (actor, lookups)) organization = evaluate_protected_access lookups actor organization

-- The test of the user, where the caller passes the lookups for it.
user_problem : Lookups → RoleAssignment → Option (String → Bool) → Option CreateResult
user_problem l a none = none
user_problem l a (some exists) =
    if not (exists a.user_id)
    then some user_not_found
    else if not (l.is_member a.user_id a.organization_id)
    then some user_not_member
    else none

create_last :
    RoleAssignment → Option DenialReason → List RoleAssignment → CreateResult × List RoleAssignment
unfolding find_active save
create_last a (some reason) s = (access_denied reason, s)
create_last a none s =
    if is_some (find_active a.user_id a.organization_id a.role_id s)
    then (duplicate, s)
    else (created a, save a s)

create_checked :
    Lookups
    → RoleAssignment
    → Option CreateResult
    → List RoleAssignment
    → CreateResult × List RoleAssignment
unfolding create_last denial
create_checked l a (some problem) s = (problem, s)
create_checked l a none s = create_last a (denial l.protected_access a.organization_id) s

-- `createRoleAssignment`
unfoldable pub create_role_assignment :
    Lookups → RoleAssignment → List RoleAssignment → CreateResult × List RoleAssignment
unfolding create_checked user_problem
create_role_assignment l a s =
    if not (l.role_exists a.role_id)
    then (role_not_found, s)
    else if not (l.organization_exists a.organization_id)
    then (organization_not_found, s)
    else create_checked l a (user_problem l a l.user_exists) s

pub data ChangeResult : Type 0 where
  changed : RoleAssignment → RoleAssignment → ChangeResult
  not_found change_role_not_found change_duplicate same_role : ChangeResult
  change_denied : DenialReason → ChangeResult

module _ (l : Lookups) (user organization current next : String) where
  abbrev new_assignment : RoleAssignment
  new_assignment = record {
    user_id = user;
    organization_id = organization;
    role_id = next;
    status = active;
  }

  change_last :
      RoleAssignment
      → Option DenialReason
      → List RoleAssignment
      → ChangeResult × List RoleAssignment
  unfolding find_active save update
  change_last a (some reason) s = (change_denied reason, s)
  change_last a none s =
      if is_some (find_active user organization next s) then (change_duplicate, s) else (
        changed (record a { status = revoked }) new_assignment,
        save new_assignment (update (record a { status = revoked }) s),
      )

  change_found : Option RoleAssignment → List RoleAssignment → ChangeResult × List RoleAssignment
  unfolding change_last denial
  change_found none s = (not_found, s)
  change_found (some a) s = change_last a (denial l.protected_access organization) s

  -- `changeRoleAssignment`
  unfoldable pub change_role_assignment : List RoleAssignment → ChangeResult × List RoleAssignment
  unfolding change_found find_active
  change_role_assignment s =
      if current =s next
      then (same_role, s)
      else if not (l.role_exists next)
      then (change_role_not_found, s)
      else change_found (find_active user organization current s) s
