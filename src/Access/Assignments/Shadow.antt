-- ===== src/Access/Assignments/Shadow.antt =====
-- What `changeRoleAssignment` (application/change-role-assignment.ts) leaves of the current role, over
-- the array of infrastructure/in-memory-role-assignment-repository.ts.
use blockchain_based_e_procu.Prelude.{
  String, Bool, true, false, not, ◌&&◌, List, [], ◌∷◌, ◌++◌, Option, none, some, find, is_some, ◌≡◌,
  refl, sym, ◌∙◌, ap, inl, inr, arith, eq_iff, All, Pairwise, Bool-cases, Option-cases,
}
use blockchain_based_e_procu.Prelude.Text.{◌=s◌}
use blockchain_based_e_procu.Access.Protected.{DenialReason}
use blockchain_based_e_procu.Access.Assignments.{
  revoked, RoleAssignment, is_active, matches, matches_active, find_active, save, update, Lookups,
  denial, ChangeResult, changed, new_assignment, change_last, change_found, change_role_assignment,
}
use blockchain_based_e_procu.Access.Assignments.Unique.{Apart}

find-holds :
    (p : RoleAssignment → Bool) (l : List RoleAssignment) (a : RoleAssignment)
    → find p l ≡ some a
    → p a ≡ true
find-holds p [] a h = absurd (ground arith)
find-holds p (b ∷ l) a h = elim (Bool-cases (p b)) [
  | inl found ↦ let same : b ≡ a = ground arith in rw (← same) found
  | inr other ↦ find-holds p l a (rw other at h)
]

find-append_one :
    (p : RoleAssignment → Bool) (l : List RoleAssignment) (a : RoleAssignment)
    → p a ≡ false
    → find p (l ++ a ∷ []) ≡ find p l
find-append_one p [] a h = rw h refl
find-append_one p (b ∷ l) a h = ground (arith, find-append_one p l a h)

and_false : (b : Bool) → b && false ≡ false
and_false true = refl
and_false false = refl

and_true : (b : Bool) → b && true ≡ b
and_true true = refl
and_true false = refl

module _ (user organization role : String) where
  -- Beyond an active assignment there is no other active one.
  none_after :
      (b : RoleAssignment) (l : List RoleAssignment)
      → matches user organization role b ≡ true
      → is_active b.status ≡ true
      → All (Apart b) l
      → find_active user organization role l ≡ none
  unfolding find_active
  none_after b [] same on h = refl
  none_after b (x ∷ l) same on (apart, h) =
      let off : matches_active user organization role x ≡ false = ground (
        arith,
        apart,
        on,
        same,
        eq_iff b.user_id x.user_id,
        eq_iff b.organization_id x.organization_id,
        eq_iff b.role_id x.role_id,
        eq_iff b.user_id user,
        eq_iff x.user_id user,
        eq_iff b.organization_id organization,
        eq_iff x.organization_id organization,
        eq_iff b.role_id role,
        eq_iff x.role_id role,
      ) in
      rw off (none_after b l same on h)

  quiet :
      (a : RoleAssignment)
      → is_active a.status ≡ false
      → matches_active user organization role a ≡ false
  quiet a off = rw off (and_false (matches user organization role a))

  passed :
      (b : RoleAssignment)
      → matches user organization role b ≡ false
      → matches_active user organization role b ≡ false
  passed b other = rw other refl

  first_found :
      (b : RoleAssignment) (l : List RoleAssignment)
      → matches user organization role b ≡ true
      → All (Apart b) l
      → is_some (find_active user organization role l)
        ≡ (is_some (find_active user organization role (b ∷ l)) && not (is_active b.status))
  unfolding find_active
  first_found b l same apart = elim (Bool-cases (is_active b.status)) [
    | inl on ↦
        let gone : find (matches_active user organization role) l ≡ none =
          none_after b l same on apart in
        rw (same, on, gone) refl
    | inr idle ↦
        rw (same, idle) (sym (and_true (is_some (find (matches_active user organization role) l))))
  ]

  -- A revocation takes effect exactly where the first assignment is the active one.
  update-find :
      (a : RoleAssignment) (l : List RoleAssignment) (r : RoleAssignment)
      → a.user_id ≡ user
      → a.organization_id ≡ organization
      → a.role_id ≡ role
      → is_active a.status ≡ false
      → Pairwise Apart l
      → find (matches user organization role) l ≡ some r
      → is_some (find_active user organization role (update a l))
        ≡ (is_some (find_active user organization role l) && not (is_active r.status))
  unfolding update find_active
  update-find a [] r au ao ar off h first = absurd (ground arith)
  update-find a (b ∷ l) r au ao ar off (apart, h) first =
      let keyed : matches a.user_id a.organization_id a.role_id b
          ≡ matches user organization role b =
        rw (au, ao, ar) refl in
      elim (Bool-cases (matches user organization role b)) [
        | inl same ↦
            let is_r : b ≡ r = ground arith in
            let replaced : update a (b ∷ l) ≡ a ∷ l = rw (keyed ∙ same) refl in
            rw (replaced, quiet a off, ← is_r) (first_found b l same apart)
        | inr other ↦
            let rest = update-find a l r au ao ar off h (rw other at first) in
            let kept : update a (b ∷ l) ≡ b ∷ update a l = rw (keyed ∙ other) refl in
            rw (kept, passed b other) rest
      ]

keys :
    (user organization role : String) (a : RoleAssignment)
    → matches_active user organization role a ≡ true
    → (a.user_id ≡ user) × (a.organization_id ≡ organization) × (a.role_id ≡ role)
keys user organization role a h = (
  ground (arith, eq_iff a.user_id user),
  ground (arith, eq_iff a.organization_id organization),
  ground (arith, eq_iff a.role_id role),
)

other_role :
    (user organization current next : String)
    → (current =s next) ≡ false
    → (user =s user && organization =s organization && next =s current) ≡ false
other_role user organization current next h =
    ground (arith, eq_iff current next, eq_iff next current)

module _ (l : Lookups) (user organization current next : String) where
  -- What is left of the current role in the result of a call.
  abbrev Left : RoleAssignment → List RoleAssignment → ChangeResult × List RoleAssignment → Type 0
  Left first s q =
      (old new : RoleAssignment) (t : List RoleAssignment)
      → q ≡ (changed old new, t)
      → is_some (find_active user organization current t) ≡ not (is_active first.status)

  change_last-Left :
      (first a : RoleAssignment) (reason : Option DenialReason) (s : List RoleAssignment)
      → (current =s next) ≡ false
      → Pairwise Apart s
      → find (matches user organization current) s ≡ some first
      → find_active user organization current s ≡ some a
      → Left first s (change_last l user organization current next a reason s)
  unfolding change_last save find_active
  change_last-Left first a (some reason) s apart h is_first found old new t q = absurd (cc q)
  change_last-Left first a none s apart h is_first found old new t q =
      elim (Option-cases (find_active user organization next s)) [
        | inl free ↦
            let (au, ao, ar) = keys user organization current a (find-holds _ s a found) in
            let off : RoleAssignment = record a { status = revoked } in
            let fresh : RoleAssignment = new_assignment l user organization current next in
            let end : t ≡ update off s ++ fresh ∷ [] = sym (ap (λ r. r.1) (rw free at q)) in
            let beyond : find_active user organization current (update off s ++ fresh ∷ [])
                ≡ find_active user organization current (update off s) =
              find-append_one (matches_active user organization current) (update off s) fresh (
                passed user organization current fresh
                  (other_role user organization current next apart)) in
            let revoking =
              update-find user organization current off s first au ao ar refl h is_first in
            rw (end, beyond) (revoking ∙ rw found refl)
        | inr (b, there) ↦ absurd (ground (arith, there, q))
      ]

  change_found-Left :
      (first : RoleAssignment) (a : Option RoleAssignment) (s : List RoleAssignment)
      → (current =s next) ≡ false
      → Pairwise Apart s
      → find (matches user organization current) s ≡ some first
      → find_active user organization current s ≡ a
      → Left first s (change_found l user organization current next a s)
  unfolding change_found
  change_found-Left first none s apart h is_first found old new t q = absurd (cc q)
  change_found-Left first (some a) s apart h is_first found old new t q =
      change_last-Left first a (denial l.protected_access organization) s apart h is_first found old
        new t q

  -- Where the active assignments are unique, a reported change takes the current role away exactly
  -- when the first stored assignment of it is the active one: an earlier revoked one shadows it.
  pub change_role_assignment-shadowed :
      (first old new : RoleAssignment) (s t : List RoleAssignment)
      → Pairwise Apart s
      → find (matches user organization current) s ≡ some first
      → change_role_assignment l user organization current next s ≡ (changed old new, t)
      → is_some (find_active user organization current t) ≡ not (is_active first.status)
  unfolding change_role_assignment
  change_role_assignment-shadowed first old new s t h is_first q =
      elim (Bool-cases (current =s next)) [
        | inl same ↦ absurd (cc (rw same at q))
        | inr apart ↦ elim (Bool-cases (l.role_exists next)) [
          | inl role ↦
              change_found-Left first (find_active user organization current s) s apart h is_first
                refl old new t (rw (apart, role) at q)
          | inr missing ↦ absurd (cc (rw (apart, missing) at q))
        ]
      ]
