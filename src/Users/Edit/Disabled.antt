-- ===== src/Users/Edit/Disabled.antt =====
-- A disabled account.
use mathlib.Core.Option
use lambs_server.Base.{
  ◌≡◌, sym, ap, ◌∙◌, subst, inl, inr, Bool, true, false, String, Option, none, some, if◌then◌else◌,
  ◌==◌, eq_iff, string_eq, text_eq, ok, Bool-cases,
}
use lambs_server.Base.Text.{Text}
use lambs_server.Auth.Model.{Account, Tables, Crypto, Jwt, active, user_by_id}
use lambs_server.Auth.Session.{Identity, require_auth}
use lambs_server.Auth.Session.Guard.{require_auth_iff}
use lambs_server.Access.{Caller}
use lambs_server.Users.Edit.{UserPatch, EditWorld, updated, update_user_row}
use lambs_server.Users.Edit.Grants.{Grants, grants_of, granted, Edits, update_user_row-Edits}

status_of :
    (row : Account) (b : Bool) (new : Grants) (o : Option Grants)
    → some (grants_of row) ≡ Option.map (λ g. if b then new else g) o
    → b ≡ true
    → row.status ≡ new.status
unfolding grants_of
status_of row b new none e hit = cc
status_of row false new (some g) e hit = cc
status_of row true new (some g) e hit =
    let same : grants_of row ≡ new = cc e in ap (λ x. x.status) same

-- Once an account is disabled, no request passes RequireAuth as that account, whatever token it
-- carries.
pub update_user_row-disabled :
    (c : Crypto) (w : EditWorld) (r : Caller) (id : String) (m : UserPatch) (t t' : Tables)
    (jwt : Jwt) (down : Bool) (header : Text) (who : Identity)
    → update_user_row c w r id m t ≡ (t', updated)
    → m.status ≡ "disabled"
    → require_auth jwt down t'.users header ≡ ok who
    → (who.user_id == id) ≡ false
update_user_row-disabled c w r id m t t' jwt down header who e off accepted =
    let spec : Edits id m t (t', updated) =
      subst (Edits id m t) e (update_user_row-Edits c w r id m t) in
    let (role, status, (access, sent, rows)) = spec in
    let current = ((require_auth_iff jwt t'.users header who down).0 accepted).1 in
    elim (Bool-cases (who.user_id == id)) [
      | inr other ↦ other
      | inl mine ↦
          let q = current.claims.user_id in
          let hit : (q == id) ≡ true = rw (← current.user_id) mine in
          let found : Option.map grants_of (user_by_id q t'.users) ≡ some (grants_of current.row) =
            ap (Option.map grants_of) current.found in
          let given : current.row.status ≡ m.status =
            unfold granted in
            status_of current.row (q == id) (granted m access)
              (Option.map grants_of (user_by_id q t.users)) (sym found ∙ rows q) hit in
          let clash : "disabled" ≡ active = sym off ∙ sym given ∙ current.is_active in
          let never : false ≡ true = (eq_iff "disabled" active).1 clash in cc never
    ]
