-- ===== src/Users/Reset.antt =====
-- Who may reset a password, and what becomes of the account's tokens.
use mathlib.Core.List.{map}
use mathlib.Core.Option
use lambs_server.Base.{
  ◌+◌, ◌≡◌, refl, ap, ◌∙◌, inl, inr, Bool, true, false, String, some, List, [], ◌∷◌, ltb, leb, ℕ,
  find-update_where, if◌then◌else◌, text_beq, ◌==◌, eq_iff, string_eq, text_eq, arith, Bool-cases,
  ok, err,
}
use lambs_server.Base.Text.{Text, byte_len}
use lambs_server.Store.{exec, scan_or}
use lambs_server.Auth.Model.{Account, Tables, Crypto, Jwt, user_by_id, update_user, insert_audit}
use lambs_server.Auth.Accounts.{user_by_id-update_self}
use lambs_server.Auth.Password.{wrap}
use lambs_server.Auth.Session.{Identity, require_auth}
use lambs_server.Auth.Session.Guard.{require_auth_iff}
use lambs_server.Auth.Session.Stale.{require_auth_stale}
use lambs_server.Access.{Caller, super_admin, project_admin, users_share_project}
use lambs_server.Users.{
  ResetWorld, ResetReply, failure, changed, member_of, role_of, may_reset, empty_hash, set_hash,
  reset_salt, store_reset, reset_password,
}

-- On what ground a caller may reset the password of an account.
pub data Authority (w : ResetWorld) (r : Caller) (id : String) (us : List Account) : Type 0 where
  by_super_admin : r.role ≡ super_admin → Authority w r id us
  by_project_admin :
      r.role ≡ project_admin
      → (scan_or w.down_role "" (role_of id us) == super_admin) ≡ false
      → users_share_project w.down_share (map member_of us) r.user_id id ≡ true
      → Authority w r id us

may_reset-Authority :
    (w : ResetWorld) (r : Caller) (id : String) (us : List Account)
    → may_reset w r id us ≡ true
    → Authority w r id us
unfolding may_reset
may_reset-Authority w r id us e = elim (Bool-cases (r.role == super_admin)) [
  | inl super ↦ Authority.by_super_admin ((eq_iff r.role super_admin).0 super)
  | inr plain ↦
      Authority.by_project_admin (ground (arith, eq_iff r.role project_admin)) (ground arith)
        (ground arith)
]

module _ (c : Crypto) (w : ResetWorld) (r : Caller) (id : String) (new : Text) (t : Tables) where
  reset_password-passes :
      (reset_password c w r id new t).1 ≡ changed
      → (may_reset w r id t.users ≡ true)
        × (reset_password c w r id new t ≡ store_reset c w r id new t)
  unfolding reset_password
  reset_password-passes e = (ground arith, ground arith)

  store_reset-users :
      (store_reset c w r id new t).1 ≡ changed
      → (hash : String) × ((store_reset c w r id new t).0.users ≡ (set_hash id hash t).users)
  unfolding store_reset exec insert_audit
  store_reset-users e = elim (Bool-cases w.down_update) [
    | inl failed ↦ ground arith
    | inr done ↦ (
      empty_hash (c.generate w.seed (wrap c new (reset_salt w id t.users))),
      ground (arith, done),
    )
  ]

abbrev pub with_hash : String → Account → Account
with_hash hash a = record a { password_hash = hash; token_version = a.token_version + 1 }

user_by_id-set_hash :
    (id hash : String) (t : Tables) (u : Account)
    → user_by_id id t.users ≡ some u
    → user_by_id id (set_hash id hash t).users ≡ some (with_hash hash u)
unfolding set_hash
user_by_id-set_hash id hash t u found =
    user_by_id-update_self id (with_hash hash) t.users u (λ a. refl) found

-- How a request to reset the password of an account may end.
abbrev pub Resetting :
    Crypto → ResetWorld → Caller → String → Text → Tables → Tables × ResetReply → Type 0
Resetting c w r id new t (t', failure code) = t' ≡ t
Resetting c w r id new t (t', changed) =
    Authority w r id t.users
    × (leb 6 (byte_len new) ≡ true)
    × ((hash : String) × (hash
          ≡ empty_hash (c.generate w.seed (wrap c new (reset_salt w id t.users))))
        × ((q : String)
            → user_by_id q t'.users
              ≡ Option.map (λ a. if a.id == id then with_hash hash a else a)
                  (user_by_id q t.users)))

module _ (c : Crypto) (w : ResetWorld) (r : Caller) (id : String) (new : Text) (t : Tables) where
  rows-set_hash :
      (hash q : String)
      → user_by_id q (set_hash id hash t).users
        ≡ Option.map (λ a. if a.id == id then with_hash hash a else a) (user_by_id q t.users)
  unfolding set_hash user_by_id update_user
  rows-set_hash hash q =
      find-update_where (λ a. a.id == q) (λ a. a.id == id) (with_hash hash) t.users (λ a. refl)

  refused-Resetting : (code : ℕ) → Resetting c w r id new t (t, failure code)
  refused-Resetting code = refl

  stored-Resetting :
      Authority w r id t.users
      → leb 6 (byte_len new) ≡ true
      → Resetting c w r id new t (store_reset c w r id new t)
  stored-Resetting authority long = elim (Bool-cases w.down_update) [
    | inl failed ↦ unfold store_reset in rw failed refl
    | inr done ↦
        let hash : String = empty_hash (c.generate w.seed (wrap c new (reset_salt w id t.users))) in
        elim (Bool-cases w.down_audit) [
          | inl silent ↦
              unfold store_reset exec in
              simp (done, silent) (authority, long, (hash, refl, rows-set_hash hash))
          | inr noted ↦
              unfold store_reset exec insert_audit in
              simp (done, noted) (authority, long, (hash, refl, rows-set_hash hash))
        ]
  ]

  -- A request to reset a password that fails changes nothing at all. One that succeeds comes from a
  -- super_admin, or from a project_admin who shares a project with the account, and then not for an
  -- account whose role was read as super_admin; the new password has six bytes or more, the row of the
  -- account holds its hash (the empty text where none could be made) and the next token version, and
  -- every other row is as before.
  pub reset_password-Resetting : Resetting c w r id new t (reset_password c w r id new t)
  reset_password-Resetting = elim (Bool-cases (new == [])) [
    | inl bare ↦ unfold reset_password in rw bare refl
    | inr given ↦ elim (Bool-cases (ltb (byte_len new) 6)) [
      | inl short ↦ unfold reset_password in rw (given, short) refl
      | inr long ↦ elim (Bool-cases (may_reset w r id t.users)) [
        | inr refused ↦ unfold reset_password in rw (given, long, refused) refl
        | inl allowed ↦
            unfold reset_password in
            rw (given, long, allowed)
              (stored-Resetting (may_reset-Authority w r id t.users allowed) (ground (arith, long)))
      ]
    ]
  ]

-- A token that was accepted for an account is refused after an administrator has reset the
-- account's password.
pub reset_password-revokes :
    (c : Crypto) (w : ResetWorld) (r : Caller) (new : Text) (t : Tables) (jwt : Jwt) (header : Text)
    (who : Identity) (down_before down : Bool)
    → require_auth jwt down_before t.users header ≡ ok who
    → (reset_password c w r who.user_id new t).1 ≡ changed
    → require_auth jwt down (reset_password c w r who.user_id new t).0.users header ≡ err 401
reset_password-revokes c w r new t jwt header who down_before down accepted e =
    let current = ((require_auth_iff jwt t.users header who down_before).0 accepted).1 in
    let passed = (reset_password-passes c w r who.user_id new t e).1 in
    let (hash, users) = store_reset-users c w r who.user_id new t (rw passed at e) in
    let found : user_by_id who.user_id t.users ≡ some current.row =
      rw current.user_id current.found in
    require_auth_stale jwt header t.users (reset_password c w r who.user_id new t).0.users who
      current.row down current found
      (
        with_hash hash current.row,
        ap (λ p. user_by_id who.user_id p.0.users) passed
            ∙ ap (user_by_id who.user_id) users
            ∙ user_by_id-set_hash who.user_id hash t current.row found,
        refl,
      )

-- Where the query for the role of the account fails, a project_admin who shares a project with the
-- account resets its password, of six bytes or more, whatever the account's role, if the update does
-- not fail.
pub reset_password-unread :
    (c : Crypto) (w : ResetWorld) (r : Caller) (id : String) (new : Text) (t : Tables)
    → w.down_role ≡ true
    → w.down_update ≡ false
    → ltb (byte_len new) 6 ≡ false
    → r.role ≡ project_admin
    → users_share_project w.down_share (map member_of t.users) r.user_id id ≡ true
    → (reset_password c w r id new t).1 ≡ changed
unfolding reset_password store_reset may_reset scan_or byte_len text_beq
reset_password-unread c w r id [] t down up long plain shared = cc
reset_password-unread c w r id (x ∷ new) t down up long plain shared =
    simp (down, up, long, plain, shared)
