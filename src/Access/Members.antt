-- ===== src/Access/Members.antt =====
-- Grants take effect, and only the one that is asked for.

use lambs_server.Base.{
  ◌≡◌, refl, ap, ◌↔◌, ◌⊎◌, Bool, true, false, not, ◌&&◌, ◌||◌, String, Option, none, some, List, [],
  ◌∷◌, ◌++◌, any, filter, find, contains, update_where, if◌then◌else◌, ◌==◌, eq_iff, string_eq,
  arith, Bool-cases, Option-cases, inl, inr,
}
use lambs_server.Store.{scan_or}
use lambs_server.Access.{
  Member, Caller, super_admin, access_of, check_project_view, check_project_access,
  users_share_project, Notice, notice_project, can_touch_notification, forbidden, set_access,
  add_member, remove_member,
}

set_access_if : String → List String → String → Option (List String) → Option (List String)
set_access_if id ids u none = none
set_access_if id ids u (some old) = if u == id then some ids else some old

access_of-set_access :
    (id u : String) (ids : List String) (us : List Member)
    → access_of u (set_access id ids us) ≡ set_access_if id ids u (access_of u us)
unfolding access_of set_access find update_where set_access_if
access_of-set_access id u ids [] = refl
access_of-set_access id u ids (m ∷ us) =
    ground (arith, access_of-set_access id u ids us, eq_iff m.id id, eq_iff m.id u, eq_iff u id)

contains-append :
    (xs : List String) (p q : String) → contains (xs ++ p ∷ []) q ≡ (contains xs q || p == q)
unfolding contains
contains-append [] p q = ground arith
contains-append (x ∷ xs) p q = ground (arith, contains-append xs p q)

contains-without :
    (xs : List String) (p q : String)
    → contains (filter (λ x. not (x == p)) xs) q ≡ (contains xs q && not (p == q))
unfolding contains filter
contains-without [] p q = refl
contains-without (x ∷ xs) p q =
    ground (arith, contains-without xs p q, eq_iff x p, eq_iff x q, eq_iff p q)

contains-one : (p q : String) → contains (p ∷ []) q ≡ (p == q)
unfolding contains
contains-one p q = ground arith

or_middle : (a b c : Bool) → (a || (b || c)) ≡ ((a || b) || c)
or_middle true b c = refl
or_middle false b c = refl

-- The projects that a user's column lists.
unfoldable pub held : String → List Member → List String
held u us = scan_or false [] (access_of u us)

view-held :
    (us : List Member) (q : Caller) (p : String)
    → check_project_view false us q p ≡ (q.role == super_admin || contains (held q.user_id us) p)
unfolding check_project_view held
view-held us q p = ground arith

held_of_known :
    (u : String) (us : List Member) (ids : List String)
    → access_of u us ≡ some ids
    → held u us ≡ ids
unfolding held scan_or
held_of_known u us ids e = rw e

held-set_access :
    (id u : String) (ids old : List String) (us : List Member)
    → access_of id us ≡ some old
    → held u (set_access id ids us) ≡ (if u == id then ids else held u us)
unfolding held scan_or
held-set_access id u ids old us known = rw (access_of-set_access id u ids us) (
    unfold set_access_if in
    ground (arith, known, eq_iff u id, ap (λ v. access_of v us) {x = u} {y = id}))

module _ (us : List Member) (r : Caller) (project user : String) (ids : List String)
    (allowed : check_project_access false us r project ≡ true)
    (known : access_of user us ≡ some ids) where
  added_lem :
      (add_member false false false r project user us).0
      ≡ (if contains ids project then us else set_access user (ids ++ project ∷ []) us)
  unfolding add_member
  added_lem = rw (allowed, known) (ground arith)

  removed_lem :
      (remove_member false false false r project user us).0
      ≡ set_access user (filter (λ p. not (p == project)) ids) us
  unfolding remove_member
  removed_lem = rw (allowed, known)

  held-add_member :
      (u p : String)
      → contains (held u (add_member false false false r project user us).0) p
        ≡ (contains (held u us) p || (u == user && project == p))
  held-add_member u p = rw added_lem (elim (Bool-cases (contains ids project)) [
    | inl old ↦
        rw old
          (ground (arith, old, held_of_known user us ids known, eq_iff u user, eq_iff project p))
    | inr new ↦ rw new (
        ground (
          arith,
          held-set_access user u (ids ++ project ∷ []) ids us known,
          contains-append ids project p,
          held_of_known user us ids known,
          eq_iff u user,
        ))
  ])

  held-remove_member :
      (u p : String)
      → contains (held u (remove_member false false false r project user us).0) p
        ≡ (contains (held u us) p && not (u == user && project == p))
  held-remove_member u p = rw removed_lem (
      ground (
        arith,
        held-set_access user u (filter (λ x. not (x == project)) ids) ids us known,
        contains-without ids project p,
        held_of_known user us ids known,
        eq_iff u user,
      ))

  -- After a permitted AddMember for an existing user, where no statement fails, a caller may view a
  -- project if and only if the caller could before, or is that user and the project is the one
  -- granted.
  pub view-add_member :
      (q : Caller) (p : String)
      → check_project_view false (add_member false false false r project user us).0 q p
        ≡ (check_project_view false us q p || (q.user_id == user && project == p))
  view-add_member q p = cc (
    view-held (add_member false false false r project user us).0 q p,
    view-held us q p,
    held-add_member q.user_id p,
    or_middle (q.role == super_admin) (contains (held q.user_id us) p)
        (q.user_id == user && project == p),
  )

  -- After a permitted RemoveMember for an existing user, where no statement fails, a caller who is
  -- not a super_admin may view a project if and only if the caller could before, and is not that
  -- user or the project is not the one taken away.
  pub view-remove_member :
      (q : Caller) (p : String)
      → (q.role == super_admin) ≡ false
      → check_project_view false (remove_member false false false r project user us).0 q p
        ≡ (check_project_view false us q p && not (q.user_id == user && project == p))
  view-remove_member q p plain = ground (
    arith,
    view-held (remove_member false false false r project user us).0 q p,
    view-held us q p,
    held-remove_member q.user_id p,
  )

-- Without access to the project neither handler changes anything, and both answer 403.
pub members-forbidden :
    (a b c : Bool) (us : List Member) (r : Caller) (project user : String)
    → check_project_access a us r project ≡ false
    → (add_member a b c r project user us ≡ (us, forbidden))
      × (remove_member a b c r project user us ≡ (us, forbidden))
unfolding add_member remove_member
members-forbidden a b c us r project user e = (rw e, rw e)

-- When AddMember's read of the old list fails and its write does not, the user is left with the new
-- project alone: every other grant of an existing user is gone.
pub add_member-lossy :
    (us : List Member) (r : Caller) (project user p : String) (ids : List String)
    → check_project_access false us r project ≡ true
    → access_of user us ≡ some ids
    → contains (held user (add_member false true false r project user us).0) p ≡ (project == p)
add_member-lossy us r project user p ids allowed known =
    let lost : (add_member false true false r project user us).0
        ≡ set_access user (project ∷ []) us =
      unfold add_member contains in rw allowed in
    rw lost (
      ground (
        arith,
        held-set_access user user (project ∷ []) ids us known,
        eq_iff user user,
        contains-one project p,
      ))

any_witness :
    (p : String → Bool) (xs : List String)
    → any p xs ≡ true
    → (x : String) × (contains xs x ≡ true) × (p x ≡ true)
unfolding any contains
any_witness p [] h = cc
any_witness p (x ∷ xs) h = elim (Bool-cases (p x)) [
  | inl good ↦ (x, ground (arith, eq_iff x x), good)
  | inr bad ↦ let (y, listed, good) = any_witness p xs (ground arith) in (y, ground arith, good)
]

any_of_contains :
    (p : String → Bool) (xs : List String) (x : String)
    → contains xs x ≡ true
    → p x ≡ true
    → any p xs ≡ true
unfolding any contains
any_of_contains p [] x listed good = cc
any_of_contains p (y ∷ xs) x listed good = elim (Bool-cases (y == x)) [
  | inl same ↦ rw ((eq_iff y x).0 same, good)
  | inr other ↦ let rest = any_of_contains p xs x (ground arith) good in ground arith
]

any-contains_swap :
    (xs ys : List String) → any (contains xs) ys ≡ true → any (contains ys) xs ≡ true
any-contains_swap xs ys h =
    let (x, in_ys, in_xs) = any_witness (contains xs) ys h in
    any_of_contains (contains ys) xs x in_xs in_ys

-- Sharing a project is symmetric.
pub users_share_project_comm :
    (down : Bool) (us : List Member) (a b : String)
    → users_share_project down us a b ≡ users_share_project down us b a
unfolding users_share_project
users_share_project_comm down us a b =
    let xs = scan_or down [] (access_of a us) in
    let ys = scan_or down [] (access_of b us) in
    ground (arith, any-contains_swap xs ys, any-contains_swap ys xs)

-- What lets a caller who is no super_admin at a notification of the project.
pub record MayTouch (e : Bool) (us : List Member) (r : Caller) (project : String) : Type 0 where
  pub ids : List String
  pub up : e ≡ false
  pub read : access_of r.user_id us ≡ some ids
  pub granted : (contains ids "all" || contains ids project) ≡ true

module _ (d e : Bool) (us : List Member) (ns : List Notice) (r : Caller) (nid : String)
    (plain : (r.role == super_admin) ≡ false) where
  touch_sound :
      can_touch_notification d e us ns r nid ≡ true
      → (project : String) × (d ≡ false)
        × (notice_project nid ns ≡ some project)
        × ((project ≡ "") ⊎ MayTouch e us r project)
  unfolding can_touch_notification
  touch_sound h = elim (Option-cases (notice_project nid ns)) [
    | inl missing ↦ ground arith
    | inr (project, found) ↦ elim (Bool-cases (project == "")) [
      | inl global ↦ (project, ground arith, found, inl ((eq_iff project "").0 global))
      | inr local ↦ elim (Option-cases (access_of r.user_id us)) [
        | inl nobody ↦ ground arith
        | inr (ids, read) ↦ (
          project,
          ground arith,
          found,
          inr (record { ids = ids; up = ground arith; read = read; granted = ground arith }),
        )
      ]
    ]
  ]

  touch_complete :
      (project : String)
      → d ≡ false
      → notice_project nid ns ≡ some project
      → (project ≡ "") ⊎ MayTouch e us r project
      → can_touch_notification d e us ns r nid ≡ true
  unfolding can_touch_notification
  touch_complete project up found (inl global) = ground (arith, eq_iff project "")
  touch_complete project up found (inr m) =
      ground (arith, eq_iff project "", m.up, m.read, m.granted)

  -- A caller who is no super_admin gets at a notification if and only if its row could be read, and
  -- is global, or the caller's list could be read and holds 'all' or the row's project. So a failing
  -- query refuses.
  pub can_touch_notification_iff : (can_touch_notification d e us ns r nid ≡ true) ↔ (
      (project : String) × (d ≡ false)
      × (notice_project nid ns ≡ some project)
      × ((project ≡ "") ⊎ MayTouch e us r project))
  can_touch_notification_iff = (touch_sound, λ h. touch_complete h.0 h.1 h.2 h.3)
