-- ===== src/Users/Edit/Grants.antt =====
-- What an edit leaves of an account.
use mathlib.Core.Option
use lambs_server.Base.{
  ℕ, ◌+◌, ◌≡◌, refl, sym, ap, ◌∙◌, subst, inl, inr, Bool, true, false, not, ◌||◌, String, Option,
  none, some, List, [], if◌then◌else◌, ◌==◌, string_eq, text_eq, Result, ok, err, arith, Bool-cases,
}
use lambs_server.Store.{exec, query_row, scan_or}
use lambs_server.Auth.Model.{Account, Tables, Crypto, user_by_id, update_user, insert_audit}
use lambs_server.Auth.Accounts.{user_by_id-update_user, id_of_user_by_id}
use lambs_server.Auth.Password.{verify_password, wrap}
use lambs_server.Access.{Caller}
use lambs_server.Users.{set_hash, empty_hash}
use lambs_server.Users.Edit.{
  UserPatch, EditWorld, EditReply, failure, updated, is_role, is_account_status, edit_hash,
  edit_password, is_name_taken, with_grants, edit_columns, edit_rest, update_user_row,
}

-- What an account may do: every column but those of the password.
pub record Grants : Type 0 where
  pub username : String
  pub email : String
  pub role : String
  pub status : String
  pub project_access : List String

unfoldable pub grants_of : Account → Grants
grants_of a = record {
  username = a.username;
  email = a.email;
  role = a.role;
  status = a.status;
  project_access = a.project_access;
}

-- What the request grants.
unfoldable pub granted : UserPatch → (access : List String) → Grants
granted m access = record {
  username = m.username;
  email = m.email;
  role = m.role;
  status = m.status;
  project_access = access;
}

-- The grants of every account are as before.
abbrev pub SameGrants : List Account → List Account → Type 0
SameGrants us us' =
    (q : String) → Option.map grants_of (user_by_id q us') ≡ Option.map grants_of (user_by_id q us)

-- How an edit may end.
abbrev pub Edits : String → UserPatch → Tables → Tables × EditReply → Type 0
Edits id m t (t', failure c) = (c ≡ 400) × SameGrants t.users t'.users
Edits id m t (t', updated) =
    (is_role m.role ≡ true)
    × (is_account_status m.status ≡ true)
    × ((access : List String) × (m.project_access ≡ some access)
        × ((q : String)
            → Option.map grants_of (user_by_id q t'.users)
              ≡ Option.map (λ g. if q == id then granted m access else g)
                  (Option.map grants_of (user_by_id q t.users))))

map_grants :
    (p : Account → Bool) (f : Account → Account) (o : Option Account)
    → ((a : Account) → grants_of (f a) ≡ grants_of a)
    → Option.map grants_of (Option.map (λ a. if p a then f a else a) o) ≡ Option.map grants_of o
map_grants p f none same = refl
map_grants p f (some a) same = ap some (ground (arith, same a))

set_hash-SameGrants :
    (down : Bool) (id hash : String) (t : Tables)
    → SameGrants t.users (exec down (set_hash id hash) t).users
unfolding exec set_hash
set_hash-SameGrants true id hash t q = refl
set_hash-SameGrants false id hash t q =
    let f : Account → Account =
      λ a. record a { password_hash = hash; token_version = a.token_version + 1 } in
    ap (Option.map grants_of) (user_by_id-update_user q id f t.users (λ a. refl))
    ∙ map_grants (λ a. a.id == id) f (user_by_id q t.users) (λ a. unfold grants_of in refl)

users-insert_audit :
    (down : Bool) (user action : String) (t : Tables)
    → (exec down (insert_audit user action) t).users ≡ t.users
unfolding exec insert_audit
users-insert_audit true user action t = refl
users-insert_audit false user action t = refl

-- A test that is passed, or the error of the code that ends there.
ok_of_if : (b : Bool) (code : ℕ) (x y : Tables) → (if not b then err code else ok x) ≡ ok y → x ≡ y
ok_of_if true code x y e = cc e
ok_of_if false code x y e = cc

edit_hash-SameGrants :
    (c : Crypto) (w : EditWorld) (r : Caller) (id : String) (m : UserPatch) (o : Option Account)
    (t t' : Tables)
    → edit_hash c w r id m o t ≡ ok t'
    → SameGrants t.users t'.users
unfolding edit_hash
edit_hash-SameGrants c w r id m none t t' e = cc
edit_hash-SameGrants c w r id m (some admin) t t' e =
    let hash = empty_hash (
      c.generate w.seed (
        wrap c m.password
          (scan_or w.down_salt [] (Option.map (λ u. u.pwd_salt) (user_by_id id t.users))))) in
    let kept = set_hash-SameGrants w.down_password id hash t in
    let stored : Tables = exec w.down_password (set_hash id hash) t in
    let same : exec w.down_password_audit (insert_audit r.user_id "修改用户") stored ≡ t' =
      ok_of_if (verify_password c admin.password_hash m.old_password admin.pwd_salt).0 400 _ t' e in
    let users : t'.users ≡ stored.users =
      ap (λ x. x.users) (sym same)
      ∙ users-insert_audit w.down_password_audit r.user_id "修改用户" stored in
    λ q. ap (λ us. Option.map grants_of (user_by_id q us)) users ∙ kept q

edit_password-SameGrants :
    (c : Crypto) (w : EditWorld) (r : Caller) (id : String) (m : UserPatch) (t t' : Tables)
    → edit_password c w r id m t ≡ ok t'
    → SameGrants t.users t'.users
edit_password-SameGrants c w r id m t t' e = elim (Bool-cases (m.password == [])) [
  | inl missing ↦
      let kept : edit_password c w r id m t ≡ ok t = unfold edit_password in simp missing refl in
      let same : t ≡ t' = cc (kept, e) in
      λ q. ap (λ x. Option.map grants_of (user_by_id q x.users)) (sym same)
  | inr sent ↦
      let o = query_row w.down_admin (user_by_id r.user_id t.users) in
      let hashed : edit_password c w r id m t ≡ edit_hash c w r id m o t =
        unfold edit_password in simp sent refl in
      edit_hash-SameGrants c w r id m o t t' (sym hashed ∙ e)
]

edit_hash-code :
    (c : Crypto) (w : EditWorld) (r : Caller) (id : String) (m : UserPatch) (o : Option Account)
    (t : Tables) (code : ℕ)
    → edit_hash c w r id m o t ≡ err code
    → code ≡ 400
unfolding edit_hash
edit_hash-code c w r id m none t code e = cc e
edit_hash-code c w r id m (some admin) t code e = ground (arith, e)

edit_password-code :
    (c : Crypto) (w : EditWorld) (r : Caller) (id : String) (m : UserPatch) (t : Tables) (code : ℕ)
    → edit_password c w r id m t ≡ err code
    → code ≡ 400
unfolding edit_password
edit_password-code c w r id m t code e = ground (
  arith,
  e,
  edit_hash-code c w r id m (query_row w.down_admin (user_by_id r.user_id t.users)) t code,
)

regranted :
    (id q : String) (m : UserPatch) (access : List String) (o : Option Account)
    → ((a : Account) → o ≡ some a → a.id ≡ q)
    → Option.map grants_of (Option.map (λ a. if a.id == id then with_grants m access a else a) o)
      ≡ Option.map (λ g. if q == id then granted m access else g) (Option.map grants_of o)
unfolding with_grants granted grants_of
regranted id q m access none named = refl
regranted id q m access (some a) named = ap some (ground (arith, named a refl))

with_grants-Edits :
    (id : String) (m : UserPatch) (access : List String) (t t1 : Tables)
    → SameGrants t.users t1.users
    → (q : String)
    → Option.map grants_of (user_by_id q (update_user id (with_grants m access) t1.users))
      ≡ Option.map
          (λ g. if q == id then granted m access else g)
          (Option.map grants_of (user_by_id q t.users))
with_grants-Edits id m access t t1 same q =
    ap (Option.map grants_of) (
      user_by_id-update_user q id (with_grants m access) t1.users (λ a. unfold with_grants in refl))
    ∙ regranted id q m access (user_by_id q t1.users) (id_of_user_by_id q t1.users)
    ∙ ap (Option.map (λ g. if q == id then granted m access else g)) (same q)

module _ (w : EditWorld) (r : Caller) (id : String) (m : UserPatch) (t : Tables)
    (role : is_role m.role ≡ true) (status : is_account_status m.status ≡ true) where
  edit_columns-Edits :
      (t1 : Tables) (o : Option (List String))
      → SameGrants t.users t1.users
      → m.project_access ≡ o
      → Edits id m t (edit_columns w r id m o t1)
  unfolding edit_columns
  edit_columns-Edits t1 none same sent = (refl, same)
  edit_columns-Edits t1 (some access) same sent =
      elim (Bool-cases (w.down_update || is_name_taken id m.username t1.users)) [
        | inl failed ↦ simp failed (refl, same)
        | inr done ↦
            let written : Tables = record t1 {
              users = update_user id (with_grants m access) t1.users;
            } in
            let end : Edits id m t
                (exec w.down_audit (insert_audit r.user_id "修改用户") written, updated) =
              (
                role,
                status,
                (
                  access,
                  sent,
                  λ q.
                      ap (λ us. Option.map grants_of (user_by_id q us))
                        (users-insert_audit w.down_audit r.user_id "修改用户" written)
                      ∙ with_grants-Edits id m access t t1 same q,
                ),
              ) in
            simp done end
      ]

  edit_rest-Edits :
      (o : Result ℕ Tables)
      → ((t1 : Tables) → o ≡ ok t1 → SameGrants t.users t1.users)
      → ((code : ℕ) → o ≡ err code → code ≡ 400)
      → Edits id m t (edit_rest w r id m t o)
  unfolding edit_rest
  edit_rest-Edits (err code) same bad = (bad code refl, λ q. refl)
  edit_rest-Edits (ok t1) same bad = edit_columns-Edits t1 m.project_access (same t1 refl) refl

-- An edit of an account that is refused leaves what every account may do as it was, though the
-- password may be new already. One that is accepted gives the account of the id, if there is one, the
-- role, the status, the projects and the names of the request, the role being one of three and the
-- status one of two, and leaves every other account as it was.
pub update_user_row-Edits :
    (c : Crypto) (w : EditWorld) (r : Caller) (id : String) (m : UserPatch) (t : Tables)
    → Edits id m t (update_user_row c w r id m t)
update_user_row-Edits c w r id m t =
    let refused : Edits id m t (t, failure 400) = (refl, λ q. refl) in
    elim (Bool-cases (m.username == "")) [
      | inl unnamed ↦
          let e : update_user_row c w r id m t ≡ (t, failure 400) =
            unfold update_user_row in simp unnamed refl in
          subst (Edits id m t) (sym e) refused
      | inr named ↦ elim (Bool-cases (is_role m.role)) [
        | inr bad ↦
            let e : update_user_row c w r id m t ≡ (t, failure 400) =
              unfold update_user_row in simp (named, bad) refl in
            subst (Edits id m t) (sym e) refused
        | inl role ↦ elim (Bool-cases (is_account_status m.status)) [
          | inr bad ↦
              let e : update_user_row c w r id m t ≡ (t, failure 400) =
                unfold update_user_row in simp (named, role, bad) refl in
              subst (Edits id m t) (sym e) refused
          | inl status ↦
              let e : update_user_row c w r id m t
                  ≡ edit_rest w r id m t (edit_password c w r id m t) =
                unfold update_user_row in simp (named, role, status) refl in
              subst (Edits id m t) (sym e) (
                edit_rest-Edits w r id m t role status (edit_password c w r id m t)
                  (edit_password-SameGrants c w r id m t) (edit_password-code c w r id m t))
        ]
      ]
    ]
