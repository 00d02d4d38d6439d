-- ===== src/Auth/Password/Contract.antt =====
-- Which payloads a stored password accepts.
use lambs_server.Base.{ℕ, ◌≡◌, ◌⊎◌, inl, inr, ◌↔◌, true, String, some, ◌++◌, arith, Bool-cases}
use lambs_server.Base.Text.{Text}
use lambs_server.Auth.Model.{Crypto, IsBcrypt}
use lambs_server.Auth.Password.{is_sha256_hex, verify_password, wrap}

module _ (c : Crypto) (laws : IsBcrypt c) (seed : ℕ) (hash : String) (payload salt : Text)
    (stored : c.generate seed payload ≡ some hash) where
  -- Against the hash of a payload, a login is accepted if and only if it sends that payload, or
  -- something whose digest with the account's salt is that payload.
  pub verify_password_iff :
      (sent : Text)
      → ((verify_password c hash sent salt).0 ≡ true)
        ↔ ((payload ≡ sent) ⊎ (payload ≡ c.sha256_hex (sent ++ salt)))
  unfolding verify_password
  verify_password_iff sent = (
    (λ h. elim (Bool-cases (c.compares hash sent)) [
      | inl direct ↦ inl (laws.rejects seed payload sent hash stored direct)
      | inr other ↦
          inr (laws.rejects seed payload (c.sha256_hex (sent ++ salt)) hash stored (ground arith))
    ]),
    (elim [
      | inl same ↦ rw (← same, laws.accepts seed payload hash stored)
      | inr same ↦
          let ok' = rw same at (laws.accepts seed payload hash stored) in ground (arith, ok')
    ]),
  )

-- Whoever sets a password can log in by sending the same text again: a digest is accepted as it is,
-- a plaintext by the legacy path.
pub wrap-accepted :
    (c : Crypto) (seed : ℕ) (hash : String) (password salt : Text)
    → IsBcrypt c
    → c.generate seed (wrap c password salt) ≡ some hash
    → (verify_password c hash password salt).0 ≡ true
wrap-accepted c seed hash password salt laws stored =
    (verify_password_iff c laws seed hash (wrap c password salt) salt stored password).1 (
      unfold wrap in
      elim (Bool-cases (is_sha256_hex password)) [
        | inl digest ↦ inl (rw digest)
        | inr plain ↦ inr (rw plain)
      ])
