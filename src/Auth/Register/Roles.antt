-- ===== src/Auth/Register/Roles.antt =====
-- What a registration adds.
use lambs_server.Base.{
  ℕ, ◌≡◌, refl, ◌∙◌, Bool, true, false, String, Option, none, some, [], ◌∷◌, ◌++◌, if◌then◌else◌,
  nat_eq, arith, Bool-cases, inl, inr,
}
use lambs_server.Base.Text.{Text}
use lambs_server.Store.{exec}
use lambs_server.Auth.Model.{Account, Tables, Crypto, Jwt, insert_audit}
use lambs_server.Auth.Register.{
  RegisterRequest, registered, RegisterWorld, is_valid, is_first, new_account, insert_account,
  hash_register, register_payload, register_trimmed, register_names, issue_token, handle_register,
}

-- The row that was added behind the others, and what let it in.
pub record Registers (is_han : ℕ → Bool) (w : RegisterWorld) (req : RegisterRequest) (t t' : Tables)
    : Type 0 where
  pub row : Account
  pub open_door : w.closed ≡ false
  pub valid : is_valid is_han req ≡ true
  pub added : t'.users ≡ t.users ++ row ∷ []
  pub name : row.username ≡ req.username
  pub role : row.role ≡ (if is_first w t.users then "super_admin" else "viewer")
  pub access : row.project_access ≡ (if is_first w t.users then "all" ∷ [] else [])

module _ (is_han : ℕ → Bool) (c : Crypto) (jwt : Jwt) (w : RegisterWorld) (req : RegisterRequest)
    (t : Tables) (token : Text) where
  insert_account-registered :
      (hash : String)
      → (insert_account is_han c jwt w req hash t).1 ≡ registered token
      → (insert_account is_han c jwt w req hash t).0.users
        ≡ t.users ++ new_account w req hash t.users ∷ []
  unfolding insert_account exec insert_audit
  insert_account-registered hash e = elim (Bool-cases w.down_insert) [
    | inl failed ↦ ground arith
    | inr done ↦ elim (Bool-cases w.down_audit) [
      | inl silent ↦ simp (done, silent)
      | inr noted ↦ simp (done, noted)
    ]
  ]

  hash_register-registered :
      (o : Option String)
      → (hash_register is_han c jwt w req o t).1 ≡ registered token
      → (hash : String) × (w.closed ≡ false)
        × ((hash_register is_han c jwt w req o t).0.users
            ≡ t.users ++ new_account w req hash t.users ∷ [])
  unfolding hash_register insert_account new_account is_first issue_token
  hash_register-registered none e = cc
  hash_register-registered (some hash) e = elim (Bool-cases w.closed) [
    | inl shut ↦ ground arith
    | inr open_door ↦
        (hash, open_door, simp (open_door, insert_account-registered hash (rw open_door at e)))
  ]

  register_trimmed-Registers :
      (register_trimmed is_han c jwt w req t).1 ≡ registered token
      → Registers is_han w req t (register_trimmed is_han c jwt w req t).0
  unfolding register_trimmed new_account
  register_trimmed-Registers e = elim (Bool-cases (is_valid is_han req)) [
    | inr wrong ↦ ground arith
    | inl valid ↦
        let (hash, open_door, added) =
          hash_register-registered (c.generate w.seed (register_payload c req.password))
            (rw valid at e) in
        record {
          row = new_account w req hash t.users;
          open_door = open_door;
          valid = valid;
          added = rw valid added;
          name = refl;
          role = refl;
          access = refl;
        }
  ]

-- A registration that succeeds was open and valid, and adds one row behind the others, for the
-- trimmed name: of a viewer without any project; or, where the table of users is empty or cannot be
-- counted, of a super_admin with all projects.
pub handle_register-Registers :
    (is_han : ℕ → Bool) (c : Crypto) (jwt : Jwt) (w : RegisterWorld) (req : RegisterRequest)
    (t : Tables) (token : Text)
    → (handle_register is_han c jwt w (some req) t).1 ≡ registered token
    → Registers is_han w (register_names req) t (handle_register is_han c jwt w (some req) t).0
unfolding handle_register
handle_register-Registers is_han c jwt w req t token e =
    register_trimmed-Registers is_han c jwt w (register_names req) t token e

-- Where the query that counts the users fails, a registration that succeeds adds a super_admin,
-- however many users there are.
pub handle_register-uncounted :
    (is_han : ℕ → Bool) (c : Crypto) (jwt : Jwt) (w : RegisterWorld) (req : RegisterRequest)
    (t : Tables) (token : Text)
    → w.down_count ≡ true
    → (handle_register is_han c jwt w (some req) t).1 ≡ registered token
    → (row : Account) × ((handle_register is_han c jwt w (some req) t).0.users
        ≡ t.users ++ row ∷ [])
      × (row.role ≡ "super_admin")
unfolding is_first
handle_register-uncounted is_han c jwt w req t token down e =
    let k = handle_register-Registers is_han c jwt w req t token e in
    (k.row, k.added, k.role ∙ simp down)
