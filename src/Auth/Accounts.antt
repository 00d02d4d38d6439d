-- ===== src/Auth/Accounts.antt =====
-- The account of an id, before and after an update.
use mathlib.Core.Option
use lambs_server.Base.{
  ◌≡◌, ◌∙◌, String, some, List, [], ◌∷◌, if◌then◌else◌, ◌==◌, eq_iff, find, find-update_where,
  string_eq, arith,
}
use lambs_server.Auth.Model.{Account, user_by_id, update_user}

pub user_by_id-update_user :
    (k id : String) (f : Account → Account) (us : List Account)
    → ((a : Account) → (f a).id ≡ a.id)
    → user_by_id k (update_user id f us)
      ≡ Option.map (λ a. if a.id == id then f a else a) (user_by_id k us)
unfolding user_by_id update_user
user_by_id-update_user k id f us ids =
    find-update_where (λ a. a.id == k) (λ a. a.id == id) f us (λ a. rw (ids a))

pub id_of_user_by_id :
    (k : String) (us : List Account) (u : Account) → user_by_id k us ≡ some u → u.id ≡ k
unfolding user_by_id find
id_of_user_by_id k [] u e = cc
id_of_user_by_id k (a ∷ us) u e = ground (arith, eq_iff a.id k, id_of_user_by_id k us u)

-- An update of the account of an id, which keeps the id.
pub user_by_id-update_self :
    (id : String) (f : Account → Account) (us : List Account) (u : Account)
    → ((a : Account) → (f a).id ≡ a.id)
    → user_by_id id us ≡ some u
    → user_by_id id (update_user id f us) ≡ some (f u)
user_by_id-update_self id f us u ids found =
    user_by_id-update_user id id f us ids
    ∙ rw found (ground (arith, id_of_user_by_id id us u found, eq_iff u.id id))
