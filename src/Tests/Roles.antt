-- ===== src/Tests/Roles.antt =====
-- A role that was revoked and given again, then changed.
use blockchain_based_e_procu.Prelude.{true, not, List, [], ◌∷◌, none, is_some, ◌≡◌, refl, Pairwise}
use blockchain_based_e_procu.Access.Assignments.{
  RoleAssignment, active, revoked, is_active, find_active, Lookups, create_role_assignment, changed,
  change_role_assignment,
}
use blockchain_based_e_procu.Access.Assignments.Unique.{
  Apart, create_role_assignment-Apart, change_role_assignment-Apart,
}
use blockchain_based_e_procu.Access.Assignments.Shadow.{change_role_assignment-shadowed}

abbrev lookups : Lookups
lookups = record {
  role_exists = λ r. true;
  organization_exists = λ o. true;
  user_exists = none;
  is_member = λ u o. true;
  protected_access = none;
}

abbrev earlier : RoleAssignment
earlier = record { user_id = "u"; organization_id = "o"; role_id = "r1"; status = revoked }

abbrev given : RoleAssignment
given = record earlier { status = active }

abbrev assignments : List RoleAssignment
assignments = earlier ∷ given ∷ []

assignments-Apart : Pairwise Apart assignments
assignments-Apart = ((λ on _ _ _ _. cc on, tt), (tt, tt))

create_role_assignment-Apart_example :
    Pairwise Apart (create_role_assignment lookups given assignments).1
create_role_assignment-Apart_example =
    create_role_assignment-Apart lookups given assignments assignments-Apart

change_role_assignment-Apart_example :
    Pairwise Apart (change_role_assignment lookups "u" "o" "r1" "r2" assignments).1
change_role_assignment-Apart_example =
    change_role_assignment-Apart lookups "u" "o" "r1" "r2" assignments assignments-Apart

-- The state after the change: the first record is written again, and the active one stays.
abbrev after_change : List RoleAssignment
after_change = earlier ∷ given ∷ record given { role_id = "r2" } ∷ []

change_result :
    change_role_assignment lookups "u" "o" "r1" "r2" assignments
    ≡ (changed earlier (record given { role_id = "r2" }), after_change)
unfolding change_role_assignment
change_result = refl

change_role_assignment-shadowed_example :
    is_some (find_active "u" "o" "r1" after_change) ≡ not (is_active revoked)
change_role_assignment-shadowed_example =
    change_role_assignment-shadowed lookups "u" "o" "r1" "r2" earlier earlier
      (record given { role_id = "r2" }) assignments after_change assignments-Apart refl
      change_result
