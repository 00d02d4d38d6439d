-- ===== src/Runtime/Ports/Search.antt =====
-- The loop over the ports of the range.
use lambs_server.Base.{
  ℕ, zero, suc, ◌+◌, ◌≤◌, ◌<◌, ◌≡◌, Bool, true, false, none, some, arith, Bool-cases, inl, inr,
}
use lambs_server.Runtime.Ports.{search}

-- `p` is the first usable number of `rounds` from `from` on.
pub record IsFirst (usable : ℕ → Bool) (from rounds p : ℕ) : Type 0 where
  pub lower : from ≤ p
  pub upper : p < from + rounds
  pub good : usable p ≡ true
  pub first : (q : ℕ) → from ≤ q → q < p → usable q ≡ false

abbrev pub NoneUsable : (ℕ → Bool) → (from rounds : ℕ) → Type 0
NoneUsable usable from rounds = (q : ℕ) → from ≤ q → q < from + rounds → usable q ≡ false

module _ (usable : ℕ → Bool) where
  pub search-IsFirst :
      (rounds from p : ℕ) → search usable rounds from ≡ some p → IsFirst usable from rounds p
  unfolding search
  search-IsFirst zero from p e = cc
  search-IsFirst (suc rounds) from p e = elim (Bool-cases (usable from)) [
    | inl good ↦
        let same : from ≡ p = ground arith in
        rw (← same) (record {
          lower = omega arith;
          upper = omega arith;
          good = good;
          first = λ q le lt. absurd (omega arith);
        })
    | inr bad ↦
        let r = search-IsFirst rounds (from + 1) p (ground arith) in
        record {
          lower = omega (arith, r.lower);
          upper = omega (arith, r.upper);
          good = r.good;
          first = λ q le lt. ground (arith, r.first q);
        }
  ]

  pub search-NoneUsable :
      (rounds from : ℕ) → search usable rounds from ≡ none → NoneUsable usable from rounds
  unfolding search
  search-NoneUsable zero from e q le lt = absurd (omega arith)
  search-NoneUsable (suc rounds) from e q le lt = elim (Bool-cases (usable from)) [
    | inl good ↦ ground arith
    | inr bad ↦
        let rest = search-NoneUsable rounds (from + 1) (ground arith) in ground (arith, rest q)
  ]
