-- ===== src/Auth/Forgot/Reset.antt =====
-- What a reset takes, and what it does.
use lambs_server.Base.{
  ◌<◌, ◌≡◌, refl, ap, ◌∙◌, Bool, true, false, ◌||◌, String, Option, none, some, ltb, eq_iff, nat_eq,
  text_eq, arith, Bool-cases, inl, inr,
}
use lambs_server.Base.Text.{Text}
use lambs_server.Store.{exec, query_row}
use lambs_server.Auth.Model.{Crypto}
use lambs_server.Auth.Forgot.{
  CodeRow, ForgotTables, failure, reset, VerifyRequest, VerifyWorld, open_code, recent_fails,
  use_up, reset_account, new_payload, store_password, verify_row, verify_trimmed, trimmed,
  handle_forgot_verify,
}
use lambs_server.Auth.Forgot.Log.{IsSingle}
use lambs_server.Auth.Forgot.Once.{closed_after, open_code-none}

-- What a reset was based on, for a request whose texts are trimmed.
pub record Resets (mac : Text → Text) (c : Crypto) (w : VerifyWorld) (req : VerifyRequest)
    (t t' : ForgotTables) : Type 0 where
  pub row : CodeRow
  pub hash : String
  pub found : open_code req.username req.email w.now t.rows ≡ some row
  pub few : row.attempts < 5
  pub calm : (w.down_recent || ltb (recent_fails req.username w.now t.rows) 20) ≡ true
  pub matched : row.code ≡ mac req.code
  pub hashed : c.generate w.seed (new_payload c w req t.users) ≡ some hash
  pub users : t'.users ≡ reset_account req.username hash t.users
  pub rows : t'.rows ≡ exec w.down_used (use_up row.id) t.rows

module _ (mac : Text → Text) (c : Crypto) (w : VerifyWorld) (req : VerifyRequest)
    (t : ForgotTables) where
  store_password-reset :
      (row : CodeRow) (o : Option String)
      → (store_password mac c w req row o t).1 ≡ reset
      → (hash : String) × (o ≡ some hash)
        × ((store_password mac c w req row o t).0.users ≡ reset_account req.username hash t.users)
        × ((store_password mac c w req row o t).0.rows ≡ exec w.down_used (use_up row.id) t.rows)
  unfolding store_password
  store_password-reset row none e = cc
  store_password-reset row (some hash) e = elim (Bool-cases w.down_update) [
    | inl failed ↦ ground arith
    | inr done ↦ (hash, refl, simp done, simp done)
  ]

  -- The guards in front of the hash.
  verify_row-passes :
      (row : CodeRow)
      → (verify_row mac c w req (some row) t).1 ≡ reset
      → (row.attempts < 5)
        × ((w.down_recent || ltb (recent_fails req.username w.now t.rows) 20) ≡ true)
        × (row.code ≡ mac req.code)
        × (verify_row mac c w req (some row) t
            ≡ store_password mac c w req row (c.generate w.seed (new_payload c w req t.users)) t)
  unfolding verify_row
  verify_row-passes row e =
      (ground arith, ground arith, ground (arith, eq_iff row.code (mac req.code)), ground arith)

  verify_row-Resets :
      (o : Option CodeRow)
      → (verify_row mac c w req o t).1 ≡ reset
      → (row : CodeRow) × (o ≡ some row)
        × (row.attempts < 5)
        × ((w.down_recent || ltb (recent_fails req.username w.now t.rows) 20) ≡ true)
        × (row.code ≡ mac req.code)
        × ((hash : String) × (c.generate w.seed (new_payload c w req t.users) ≡ some hash)
            × ((verify_row mac c w req o t).0.users ≡ reset_account req.username hash t.users)
            × ((verify_row mac c w req o t).0.rows ≡ exec w.down_used (use_up row.id) t.rows))
  verify_row-Resets none e = unfold verify_row in cc
  verify_row-Resets (some row) e =
      let (few, calm, matched, same) = verify_row-passes row e in
      (
        row,
        refl,
        few,
        calm,
        matched,
        rw same (
            store_password-reset row (c.generate w.seed (new_payload c w req t.users))
              (rw same at e)),
      )

  query-found :
      (down : Bool) (o : Option CodeRow) (r : CodeRow) → query_row down o ≡ some r → o ≡ some r
  unfolding query_row
  query-found true o r e = cc
  query-found false o r e = e

  verify_trimmed-reset :
      (verify_trimmed mac c w req t).1 ≡ reset
      → verify_trimmed mac c w req t
        ≡ verify_row mac c w req
            (query_row w.down_select (open_code req.username req.email w.now t.rows))
            t
  unfolding verify_trimmed
  verify_trimmed-reset e = ground arith

  verify_trimmed-Resets :
      (verify_trimmed mac c w req t).1 ≡ reset
      → Resets mac c w req t (verify_trimmed mac c w req t).0
  verify_trimmed-Resets e =
      let same = verify_trimmed-reset e in
      let (row, read, few, calm, matched, (hash, hashed, users, rows)) =
        verify_row-Resets (query_row w.down_select (open_code req.username req.email w.now t.rows))
          (rw same at e) in
      record {
        row = row;
        hash = hash;
        found = query-found w.down_select _ row read;
        few = few;
        calm = calm;
        matched = matched;
        hashed = hashed;
        users = ap (λ r. r.0.users) same ∙ users;
        rows = ap (λ r. r.0.rows) same ∙ rows;
      }

refused :
    (mac : Text → Text) (c : Crypto) (w : VerifyWorld) (req : VerifyRequest) (t : ForgotTables)
    → open_code req.username req.email w.now t.rows ≡ none
    → verify_trimmed mac c w req t ≡ (t, failure 400)
unfolding verify_trimmed verify_row query_row
refused mac c w req t gone = ground (arith, gone)

-- A reset was asked for with the code of the newest row that is open for the trimmed name and
-- address, at fewer than five attempts on it, and fewer than twenty in ten minutes on the name unless
-- that query failed. It sets the hash of the new password and raises the token version of the
-- accounts of that name, and uses up the code unless that last statement failed.
pub handle_forgot_verify-Resets :
    (mac : Text → Text) (c : Crypto) (w : VerifyWorld) (req : VerifyRequest) (t : ForgotTables)
    → (handle_forgot_verify mac c w (some req) t).1 ≡ reset
    → Resets mac c w (trimmed req) t (handle_forgot_verify mac c w (some req) t).0
unfolding handle_forgot_verify
handle_forgot_verify-Resets mac c w req t e = verify_trimmed-Resets mac c w (trimmed req) t e

-- After a reset whose last statement did not fail, from a table with one open code for a name at
-- most: no request for that name resets a password, whatever address and code it sends and whenever.
pub handle_forgot_verify-once :
    (mac : Text → Text) (c : Crypto) (w w' : VerifyWorld) (req again : VerifyRequest)
    (t : ForgotTables)
    → IsSingle t.rows
    → w.down_used ≡ false
    → (trimmed again).username ≡ (trimmed req).username
    → (handle_forgot_verify mac c w (some req) t).1 ≡ reset
    → handle_forgot_verify mac c w' (some again) (handle_forgot_verify mac c w (some req) t).0
      ≡ ((handle_forgot_verify mac c w (some req) t).0, failure 400)
handle_forgot_verify-once mac c w w' req again t single up same e =
    let k = handle_forgot_verify-Resets mac c w req t e in
    let t' = (handle_forgot_verify mac c w (some req) t).0 in
    let stored : t'.rows ≡ use_up k.row.id t.rows = k.rows ∙ (unfold exec in rw up) in
    let closed =
      closed_after (trimmed req).username (trimmed req).email w.now t.rows k.row k.found single in
    let gone : open_code (trimmed again).username (trimmed again).email w'.now t'.rows ≡ none =
      rw (same, stored)
        (open_code-none (trimmed req).username (trimmed again).email w'.now (use_up k.row.id t.rows)
          closed) in
    unfold handle_forgot_verify in refused mac c w' (trimmed again) t' gone
