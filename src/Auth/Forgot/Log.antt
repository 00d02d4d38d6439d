-- ===== src/Auth/Forgot/Log.antt =====
-- The table of codes: ids that grow, at most five attempts on a code, one open code for a name.
use lambs_server.Base.{
  ℕ, ◌+◌, ◌≤◌, ◌<◌, ◌≡◌, refl, sym, ap, subst, Bool, true, not, ◌||◌, some, List, [], ◌∷◌, find,
  update_where, All, if◌then◌else◌, ◌==◌, eq_iff, nat_eq, text_eq, arith, Bool-cases, inl, inr,
}
use lambs_server.Base.Text.{Text}
use lambs_server.Auth.Forgot.{CodeRow, bump, use_up, retire}

-- Ids below `n`, from the newest on, and no more than five attempts on any code.
abbrev pub IsLog : ℕ → List CodeRow → Type 0
IsLog n [] = Unit
IsLog n (r ∷ rs) = (r.id < n) × (r.attempts ≤ 5) × IsLog r.id rs

-- Of two rows for one name, one is used.
unfoldable pub not_both_open : CodeRow → CodeRow → Bool
not_both_open r s = r.used || (not (r.username == s.username) || s.used)

abbrev pub IsSingle : List CodeRow → Type 0
IsSingle [] = Unit
IsSingle (r ∷ rs) = All (λ s. not_both_open r s ≡ true) rs × IsSingle rs

pub IsLog-weaken : (n m : ℕ) (rs : List CodeRow) → n ≤ m → IsLog n rs → IsLog m rs
IsLog-weaken n m [] h l = tt
IsLog-weaken n m (r ∷ rs) h l = (omega arith, l.1, l.2)

-- An update by an id that is no longer there changes nothing.
update_where_above :
    (f : CodeRow → CodeRow) (k n : ℕ) (rs : List CodeRow)
    → n ≤ k
    → IsLog n rs
    → update_where (λ r. r.id == k) f rs ≡ rs
unfolding update_where
update_where_above f k n [] h l = refl
update_where_above f k n (r ∷ rs) h l = ground (arith, update_where_above f k r.id rs)

found_below :
    (p : CodeRow → Bool) (n : ℕ) (rs : List CodeRow) (r : CodeRow)
    → IsLog n rs
    → find p rs ≡ some r
    → r.id < n
unfolding find
found_below p n [] r l e = cc
found_below p n (s ∷ rs) r l e = ground (arith, found_below p s.id rs r l.2)

update_where_first :
    (f : CodeRow → CodeRow) (s : CodeRow) (rs : List CodeRow)
    → IsLog s.id rs
    → update_where (λ x. x.id == s.id) f (s ∷ rs) ≡ f s ∷ rs
unfolding update_where
update_where_first f s rs l =
    ground (arith, update_where_above f s.id s.id rs (omega arith) l, eq_iff s.id s.id)

IsLog-first :
    (f : CodeRow → CodeRow) (s : CodeRow) (n : ℕ) (rs : List CodeRow)
    → (f s).id ≡ s.id
    → (f s).attempts ≤ 5
    → IsLog n (s ∷ rs)
    → IsLog n (update_where (λ x. x.id == s.id) f (s ∷ rs))
IsLog-first f s n rs same few l = rw (update_where_first f s rs l.2, same) (l.0, few, l.2)

-- An update of a found row that keeps its id, and leaves it at most five attempts.
pub IsLog-update :
    (p : CodeRow → Bool) (f : CodeRow → CodeRow) (n : ℕ) (rs : List CodeRow) (r : CodeRow)
    → find p rs ≡ some r
    → (f r).id ≡ r.id
    → (f r).attempts ≤ 5
    → IsLog n rs
    → IsLog n (update_where (λ s. s.id == r.id) f rs)
unfolding find update_where
IsLog-update p f n [] r e same few l = tt
IsLog-update p f n (s ∷ rs) r e same few l = elim (Bool-cases (p s)) [
  | inl hit ↦
      let here : s ≡ r = ground arith in
      subst (λ x. IsLog n (update_where (λ y. y.id == x.id) f (s ∷ rs))) here
        (IsLog-first f s n rs (subst (λ x. (f x).id ≡ x.id) (sym here) same)
          (subst (λ x. (f x).attempts ≤ 5) (sym here) few) l)
  | inr miss ↦
      let later : find p rs ≡ some r = ground arith in
      let below = found_below p s.id rs r l.2 later in
      ground (arith, below, IsLog-update p f s.id rs r later same few l.2, l.1)
]

-- Attempts go up on a code that has fewer than five, and a code is used up: both keep the table.
pub IsLog-bump :
    (p : CodeRow → Bool) (n : ℕ) (rs : List CodeRow) (r : CodeRow)
    → find p rs ≡ some r
    → r.attempts < 5
    → IsLog n rs
    → IsLog n (bump r.id rs)
unfolding bump
IsLog-bump p n rs r e few l =
    IsLog-update p (λ r. record r { attempts = r.attempts + 1 }) n rs r e refl (omega arith) l

attempts_of_found :
    (p : CodeRow → Bool) (n : ℕ) (rs : List CodeRow) (r : CodeRow)
    → find p rs ≡ some r
    → IsLog n rs
    → r.attempts ≤ 5
unfolding find
attempts_of_found p n [] r e l = cc
attempts_of_found p n (s ∷ rs) r e l =
    ground (arith, attempts_of_found p s.id rs r, l.1, l.2, ap (λ x. x.attempts) {x = s} {y = r})

pub IsLog-use_up :
    (p : CodeRow → Bool) (n : ℕ) (rs : List CodeRow) (r : CodeRow)
    → find p rs ≡ some r
    → IsLog n rs
    → IsLog n (use_up r.id rs)
unfolding use_up
IsLog-use_up p n rs r e l =
    IsLog-update p (λ r. record r { used = true }) n rs r e refl (attempts_of_found p n rs r e l) l

pub IsLog-retire : (name : Text) (n : ℕ) (rs : List CodeRow) → IsLog n rs → IsLog n (retire name rs)
unfolding retire update_where
IsLog-retire name n [] l = tt
IsLog-retire name n (r ∷ rs) l = ground (arith, IsLog-retire name r.id rs l.2, l.0, l.1)

-- An update that takes no row back into use.
All-not_both_open :
    (q : CodeRow → Bool) (r : CodeRow) (rs : List CodeRow)
    → All (λ s. not_both_open r s ≡ true) rs
    → All
        (λ s. not_both_open (if q r then record r { used = true } else r) s ≡ true)
        (update_where q (λ s. record s { used = true }) rs)
unfolding update_where not_both_open
All-not_both_open q r [] a = tt
All-not_both_open q r (s ∷ rs) a = (ground arith, All-not_both_open q r rs a.1)

pub IsSingle-used :
    (q : CodeRow → Bool) (rs : List CodeRow)
    → IsSingle rs
    → IsSingle (update_where q (λ s. record s { used = true }) rs)
unfolding update_where
IsSingle-used q [] h = tt
IsSingle-used q (r ∷ rs) h = (All-not_both_open q r rs h.0, IsSingle-used q rs h.1)

All-bumped :
    (id : ℕ) (r : CodeRow) (rs : List CodeRow)
    → All (λ s. not_both_open r s ≡ true) rs
    → All
        (λ s.
          not_both_open (if r.id == id then record r { attempts = r.attempts + 1 } else r) s ≡ true)
        (bump id rs)
unfolding bump update_where not_both_open
All-bumped id r [] a = tt
All-bumped id r (s ∷ rs) a = (ground arith, All-bumped id r rs a.1)

pub IsSingle-bump : (id : ℕ) (rs : List CodeRow) → IsSingle rs → IsSingle (bump id rs)
unfolding bump update_where
IsSingle-bump id [] h = tt
IsSingle-bump id (r ∷ rs) h =
    (unfold bump update_where in All-bumped id r rs h.0, IsSingle-bump id rs h.1)

-- After the older codes of a name are retired, a new one for it stands alone.
pub All-retired :
    (r : CodeRow) (rs : List CodeRow) → All (λ s. not_both_open r s ≡ true) (retire r.username rs)
unfolding retire update_where not_both_open
All-retired r [] = tt
All-retired r (s ∷ rs) =
    (ground (arith, eq_iff s.username r.username, eq_iff r.username s.username), All-retired r rs)
