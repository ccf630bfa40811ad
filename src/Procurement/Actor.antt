-- ===== src/Procurement/Actor.antt =====
-- The caller of the services of procurement: `SourceToAwardActor`, `InvoiceActor` and
-- `ProcurementCloseoutActor` have the same fields, and so do the inputs for an order.
use blockchain_based_e_procu.Prelude.{
  String, Bool, false, List, Option, none, some, any, is_some, not, when, if◌then◌else◌, get_or,
}
use blockchain_based_e_procu.Prelude.Text.{includes, truthy}
use blockchain_based_e_procu.Errors.{Issue, issue}

pub record Actor : Type 0 where
  pub user_id : Option String
  pub organization_id : Option String
  pub role_codes : Option (List String)

-- The actor whose user and organization are known.
pub record KnownActor : Type 0 where
  pub user : String
  pub organization : String

abbrev known : Option String → Option String → Option KnownActor
known (some u) (some o) = some (record { user = u; organization = o })
known none o = none
known (some u) none = none

-- `!actor.actorUserId || !actor.actorOrganizationId` is the case without a value.
unfoldable pub known_actor : Actor → Option KnownActor
known_actor a =
    if truthy a.user_id
    then (if truthy a.organization_id then known a.user_id a.organization_id else none)
    else none

-- `hasAnyRole`: `actorRoleCodes?.some(role => roles.includes(role)) === true`
unfoldable pub has_any_role : Actor → List String → Bool
has_any_role a roles = elim (a.role_codes) [
  | none ↦ false
  | some codes ↦ any (λ role. includes roles role) codes
]

-- `hasRole`: `actorRoleCodes?.includes(role) === true`
unfoldable pub has_role : Actor → String → Bool
has_role a role = elim (a.role_codes) [ none ↦ false | some codes ↦ includes codes role ]

-- `if (!value) issues.push({ path, message })`
abbrev pub missing : {A : Type 0} → Option A → String → String → List Issue
missing value path message = when (not (is_some value)) (issue path message)

-- `value as string`, where an issue has been raised if it is missing
abbrev pub as_string : Option String → String
as_string value = get_or value ""
