-- ===== src/Auth/Forgot/Once.antt =====
-- A code resets a password once.
use lambs_server.Base.{
  ℕ, ◌≡◌, refl, subst, Bool, true, false, not, ◌||◌, none, some, List, [], ◌∷◌, find, update_where,
  All, ◌==◌, eq_iff, nat_eq, text_eq, arith, Bool-cases, inl, inr,
}
use lambs_server.Base.Text.{Text}
use lambs_server.Auth.Forgot.{CodeRow, is_open, open_code, use_up}
use lambs_server.Auth.Forgot.Log.{IsSingle, not_both_open}

-- No row of the name is left that is not used.
unfoldable pub is_closed : Text → CodeRow → Bool
is_closed name r = not (r.username == name) || r.used

-- Beside an open row, every row of its name is used.
others_closed :
    (name : Text) (r : CodeRow) (rs : List CodeRow)
    → r.username ≡ name
    → r.used ≡ false
    → All (λ s. not_both_open r s ≡ true) rs
    → All (λ s. is_closed name s ≡ true) rs
unfolding not_both_open is_closed
others_closed name r [] same open' a = tt
others_closed name r (s ∷ rs) same open' a = (
  ground (arith, eq_iff r.username s.username, eq_iff s.username name),
  others_closed name r rs same open' a.1,
)

closed-use_up :
    (name : Text) (id : ℕ) (rs : List CodeRow)
    → All (λ s. is_closed name s ≡ true) rs
    → All (λ s. is_closed name s ≡ true) (use_up id rs)
unfolding use_up update_where is_closed
closed-use_up name id [] a = tt
closed-use_up name id (s ∷ rs) a = (ground arith, closed-use_up name id rs a.1)

-- What is found among the rows is of the name and open, and stands beside closed rows only.
closed_before :
    (name : Text) (s r : CodeRow) (rs : List CodeRow) (p : CodeRow → Bool)
    → find p rs ≡ some r
    → All (λ x. not_both_open s x ≡ true) rs
    → not_both_open s r ≡ true
unfolding find
closed_before name s r [] p e a = cc
closed_before name s r (x ∷ rs) p e a = elim (Bool-cases (p x)) [
  | inl hit ↦ let here : x ≡ r = ground arith in subst (λ y. not_both_open s y ≡ true) here a.0
  | inr miss ↦ closed_before name s r rs p (ground arith) a.1
]

found_open :
    (name email : Text) (now : ℕ) (rs : List CodeRow) (r : CodeRow)
    → open_code name email now rs ≡ some r
    → (r.username ≡ name) × (r.used ≡ false)
unfolding open_code find is_open
found_open name email now [] r e = cc
found_open name email now (s ∷ rs) r e = elim (Bool-cases (is_open name email now s)) [
  | inl hit ↦
      let here : s ≡ r = unfold is_open in ground arith in
      subst (λ x. (x.username ≡ name) × (x.used ≡ false)) here
        (unfold is_open in (ground (arith, eq_iff s.username name), ground arith))
  | inr miss ↦ found_open name email now rs r (unfold is_open in ground arith)
]

pub closed_after :
    (name email : Text) (now : ℕ) (rs : List CodeRow) (r : CodeRow)
    → open_code name email now rs ≡ some r
    → IsSingle rs
    → All (λ s. is_closed name s ≡ true) (use_up r.id rs)
unfolding use_up update_where
closed_after name email now [] r e h = tt
closed_after name email now (s ∷ rs) r e h = elim (Bool-cases (is_open name email now s)) [
  | inl hit ↦
      let here : s ≡ r = unfold open_code find in ground arith in
      let mine =
        found_open name email now (s ∷ rs) s (unfold open_code find in ground (arith, hit)) in
      let others = others_closed name s rs mine.0 mine.1 h.0 in
      subst (λ x. All (λ y. is_closed name y ≡ true) (use_up x.id (s ∷ rs))) here
        (unfold use_up update_where is_closed in
          (ground (arith, eq_iff s.id s.id), closed-use_up name s.id rs others))
  | inr miss ↦
      let later : open_code name email now rs ≡ some r = unfold open_code find in ground arith in
      let mine = found_open name email now rs r later in
      let beside =
        closed_before name s r rs (is_open name email now) (unfold open_code in later) h.0 in
      (
        unfold is_closed not_both_open in
            ground
              (arith, mine.0, mine.1, beside, eq_iff s.username name, eq_iff s.username r.username),
        closed_after name email now rs r later h.1,
      )
]

-- Among closed rows no code is open, under any address and at any time.
pub open_code-none :
    (name email : Text) (now : ℕ) (rs : List CodeRow)
    → All (λ s. is_closed name s ≡ true) rs
    → open_code name email now rs ≡ none
unfolding open_code find is_open is_closed
open_code-none name email now [] a = refl
open_code-none name email now (s ∷ rs) a = ground (arith, open_code-none name email now rs a.1)
