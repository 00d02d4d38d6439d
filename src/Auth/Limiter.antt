-- ===== src/Auth/Limiter.antt =====
-- internal/auth/ratelimit.go: the sliding-window limiter of the credential endpoints. A time is
-- the reading of Go's monotonic clock, so `-` stands for `now.Sub(t)` where the window is positive:
-- a negative difference is below the window, and so is 0.
pub mod Window
pub mod Step
pub mod Traces
pub mod Client
use mathlib.Core.List.{foldl}
use lambs_server.Base.{
  ℕ, ◌-◌, String, ◌≡◌, Bool, true, false, not, Option, none, some, List, [], ◌∷◌, ◌++◌, ltb, leb,
  length, filter, lookup, insert, retain, if◌then◌else◌, string_eq,
}

-- `loginLimiter.hits`: the times of the accepted requests of each address.
abbrev pub Hits : Type 0
Hits = List (String × List ℕ)

abbrev pub or_nil : Option (List ℕ) → List ℕ
or_nil none = []
or_nil (some ts) = ts

-- `loginLimiter.hits[ip]`: the empty slice for a missing key.
unfoldable pub times : String → Hits → List ℕ
times ip hits = or_nil (lookup ip hits)

-- `times[len(times)-1]`
unfoldable pub last : List ℕ → Option ℕ
last [] = none
last (t ∷ []) = some t
last (t ∷ u ∷ ts) = last (u ∷ ts)

module _ (window : ℕ) where
  -- The test that deletes a key in the sweep.
  unfoldable pub is_stale : ℕ → List ℕ → Bool
  unfolding last
  is_stale now ts = elim (last ts) [ none ↦ true | some t ↦ ltb window (now - t) ]

  unfoldable pub sweep : ℕ → Hits → Hits
  unfolding is_stale
  sweep now hits =
      if ltb 10000 (length hits) then retain (λ ts. not (is_stale now ts)) hits else hits

  unfoldable pub is_fresh : ℕ → ℕ → Bool
  is_fresh now t = ltb (now - t) window

  -- The loop that fills `kept`.
  unfoldable pub kept : ℕ → List ℕ → List ℕ
  unfolding is_fresh
  kept now ts = filter (is_fresh now) ts

  -- One request: the new map, and whether the handler behind the limiter is called; otherwise the
  -- reply is 429.
  unfoldable pub rate_limit : (max : ℕ) → String → ℕ → Hits → Hits × Bool
  unfolding sweep kept times
  rate_limit max ip now hits =
      let swept = sweep now hits in
      let recent = kept now (times ip swept) in
      if leb max (length recent)
      then (insert ip recent swept, false)
      else (insert ip (recent ++ now ∷ []) swept, true)
