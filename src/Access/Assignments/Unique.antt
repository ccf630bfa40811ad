-- ===== src/Access/Assignments/Unique.antt =====
-- That a user has a role in an organization at most once, after `createRoleAssignment` and
-- `changeRoleAssignment` (application/create-role-assignment.ts, application/change-role-assignment.ts).
use blockchain_based_e_procu.Prelude.{
  String, true, false, List, [], ◌∷◌, Option, none, some, ◌≡◌, refl, sym, ◌∙◌, ◌≢◌, inl, inr, arith,
  eq_iff, All, All-map, Pairwise, Pairwise-append_one, find-eq-none, Bool-cases, Option-cases,
}
use blockchain_based_e_procu.Prelude.Text.{◌=s◌}
use blockchain_based_e_procu.Access.Protected.{DenialReason}
use blockchain_based_e_procu.Access.Assignments.{
  revoked, RoleAssignment, is_active, matches, matches_active, find_active, save, update, Lookups,
  CreateResult, denial, user_problem, create_last, create_checked, create_role_assignment,
  new_assignment, change_last, change_found, change_role_assignment,
}

-- Not two active assignments of one user, organization and role.
abbrev pub Apart : RoleAssignment → RoleAssignment → Type 0
Apart a b =
    is_active a.status ≡ true
    → is_active b.status ≡ true
    → a.user_id ≡ b.user_id
    → a.organization_id ≡ b.organization_id
    → a.role_id ≢ b.role_id

-- Where no active assignment is found, each assignment is apart from one with these identifiers.
absent-Apart :
    (a : RoleAssignment) (l : List RoleAssignment)
    → find_active a.user_id a.organization_id a.role_id l ≡ none
    → All (λ b. Apart b a) l
unfolding find_active
absent-Apart a l h =
    All-map (λ b. matches_active a.user_id a.organization_id a.role_id b ≡ false) (λ b. Apart b a)
      (λ b other on _ u o r. ground (
        arith,
        eq_iff b.user_id a.user_id,
        eq_iff b.organization_id a.organization_id,
        eq_iff b.role_id a.role_id,
      ))
      l (find-eq-none (matches_active a.user_id a.organization_id a.role_id) l h)

update-All :
    (P : RoleAssignment → Type 0) (a : RoleAssignment) (l : List RoleAssignment)
    → P a
    → All P l
    → All P (update a l)
unfolding update
update-All P a [] p h = (p, tt)
update-All P a (b ∷ l) p (q, h) =
    elim (Bool-cases (matches a.user_id a.organization_id a.role_id b)) [
      | inl same ↦ rw same (p, h)
      | inr other ↦ rw other (q, update-All P a l p h)
    ]

revoked-All :
    (a : RoleAssignment) (l : List RoleAssignment) → is_active a.status ≡ false → All (Apart a) l
revoked-All a [] off = tt
revoked-All a (b ∷ l) off = (λ on _ _ _ _. cc (sym off ∙ on), revoked-All a l off)

update-Apart :
    (a : RoleAssignment) (l : List RoleAssignment)
    → is_active a.status ≡ false
    → Pairwise Apart l
    → Pairwise Apart (update a l)
unfolding update
update-Apart a [] off h = (tt, tt)
update-Apart a (b ∷ l) off (q, h) =
    elim (Bool-cases (matches a.user_id a.organization_id a.role_id b)) [
      | inl same ↦ rw same (revoked-All a l off, h)
      | inr other ↦
          rw other
            (update-All (Apart b) a l (λ _ on _ _ _. cc (sym off ∙ on)) q, update-Apart a l off h)
    ]

module _ (l : Lookups) where
  create_last-Apart :
      (a : RoleAssignment) (reason : Option DenialReason) (s : List RoleAssignment)
      → Pairwise Apart s
      → Pairwise Apart (create_last a reason s).1
  unfolding create_last save
  create_last-Apart a (some reason) s h = h
  create_last-Apart a none s h =
      elim (Option-cases (find_active a.user_id a.organization_id a.role_id s)) [
        | inl free ↦ rw free (Pairwise-append_one Apart s a h (absent-Apart a s free))
        | inr (b, found) ↦ rw found h
      ]

  create_checked-Apart :
      (a : RoleAssignment) (problem : Option CreateResult) (s : List RoleAssignment)
      → Pairwise Apart s
      → Pairwise Apart (create_checked l a problem s).1
  unfolding create_checked
  create_checked-Apart a (some problem) s h = h
  create_checked-Apart a none s h =
      create_last-Apart a (denial l.protected_access a.organization_id) s h

  -- A creation keeps the active assignments of a user, organization and role unique, however it ends.
  pub create_role_assignment-Apart :
      (a : RoleAssignment) (s : List RoleAssignment)
      → Pairwise Apart s
      → Pairwise Apart (create_role_assignment l a s).1
  unfolding create_role_assignment
  create_role_assignment-Apart a s h = elim (Bool-cases (l.role_exists a.role_id)) [
    | inl role ↦ elim (Bool-cases (l.organization_exists a.organization_id)) [
      | inl organization ↦
          rw (role, organization) (create_checked-Apart a (user_problem l a l.user_exists) s h)
      | inr missing ↦ rw (role, missing) h
    ]
    | inr missing ↦ rw missing h
  ]

  module _ (user organization current next : String) where
    change_last-Apart :
        (a : RoleAssignment) (reason : Option DenialReason) (s : List RoleAssignment)
        → Pairwise Apart s
        → Pairwise Apart (change_last l user organization current next a reason s).1
    unfolding change_last save
    change_last-Apart a (some reason) s h = h
    change_last-Apart a none s h =
        let off : RoleAssignment = record a { status = revoked } in
        let fresh : RoleAssignment = new_assignment l user organization current next in
        elim (Option-cases (find_active user organization next s)) [
          | inl free ↦ rw free (
              Pairwise-append_one Apart (update off s) fresh (update-Apart off s refl h) (
                update-All (λ b. Apart b fresh) off s (λ on _ _ _ _. cc on)
                  (absent-Apart fresh s free)))
          | inr (b, found) ↦ rw found h
        ]

    change_found-Apart :
        (a : Option RoleAssignment) (s : List RoleAssignment)
        → Pairwise Apart s
        → Pairwise Apart (change_found l user organization current next a s).1
    unfolding change_found
    change_found-Apart none s h = h
    change_found-Apart (some a) s h =
        change_last-Apart a (denial l.protected_access organization) s h

    -- A change keeps the active assignments of a user, organization and role unique, however it ends.
    pub change_role_assignment-Apart :
        (s : List RoleAssignment)
        → Pairwise Apart s
        → Pairwise Apart (change_role_assignment l user organization current next s).1
    unfolding change_role_assignment
    change_role_assignment-Apart s h = elim (Bool-cases (current =s next)) [
      | inl same ↦ rw same h
      | inr other ↦ elim (Bool-cases (l.role_exists next)) [
        | inl role ↦
            rw (other, role) (change_found-Apart (find_active user organization current s) s h)
        | inr missing ↦ rw (other, missing) h
      ]
    ]
