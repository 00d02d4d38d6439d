-- ===== src/Auth/Limiter/Traces.antt =====
-- Runs of the limiter over a sequence of requests, as the lock of `loginLimiter` orders them.
use lambs_server.Base.{
  ℕ, ◌+◌, ◌≤◌, ◌<◌, String, ◌≡◌, refl, ap, Bool, true, false, ◌&&◌, List, [], ◌∷◌, ◌++◌, ltb, leb,
  count, ◌==◌, if◌then◌else◌, string_eq, arith, count-append, append_assoc, eq_iff, subst, lookup,
  append-nil,
}
use lambs_server.Auth.Limiter.{Hits, times, is_fresh, rate_limit}
use lambs_server.Auth.Limiter.Window.{History, recent_accepts, admits, Tracks}
use lambs_server.Auth.Limiter.Step.{record_if, rate_limit-eq-admits, rate_limit-Tracks}

-- The requests arrive at times that do not decrease, as the monotonic clock gives them.
abbrev pub IsTimely : ℕ → List (String × ℕ) → Type 0
IsTimely since [] = Unit
IsTimely since ((ip, now) ∷ requests) = (since ≤ now) × IsTimely now requests

record_if-append :
    (b : Bool) (ip : String) (now : ℕ) (h later : History)
    → record_if b ip now h ++ later ≡ h ++ (if b then (ip, now) ∷ later else later)
unfolding record_if
record_if-append true ip now h later = append_assoc h _ later
record_if-append false ip now h later = refl

Tracks-empty : (window : ℕ) → Tracks window 0 [] []
unfolding times lookup recent_accepts count
Tracks-empty window = record {
  map = tt;
  sorted = λ ip. tt;
  past = λ ip. tt;
  counts = λ ip now le. refl;
}

module _ (window max : ℕ) where
  -- The decisions of the limiter, from the map `hits`.
  unfoldable pub decisions : Hits → List (String × ℕ) → List Bool
  decisions hits [] = []
  decisions hits ((ip, now) ∷ requests) =
      let (hits', admitted) = rate_limit window max ip now hits in
      admitted ∷ decisions hits' requests

  -- The decisions of the plain rule, which forgets nothing.
  unfoldable pub plain_decisions : History → List (String × ℕ) → List Bool
  unfolding record_if
  plain_decisions h [] = []
  plain_decisions h ((ip, now) ∷ requests) =
      let admitted = admits window max ip now h in
      admitted ∷ plain_decisions (record_if admitted ip now h) requests

  -- The requests that the limiter lets through.
  unfoldable pub accepted : Hits → List (String × ℕ) → History
  accepted hits [] = []
  accepted hits ((ip, now) ∷ requests) =
      let (hits', admitted) = rate_limit window max ip now hits in
      let later = accepted hits' requests in if admitted then (ip, now) ∷ later else later

  decisions_from :
      (since : ℕ) (h : History) (hits : Hits) (requests : List (String × ℕ))
      → Tracks window since h hits
      → IsTimely since requests
      → decisions hits requests ≡ plain_decisions h requests
  unfolding decisions plain_decisions
  decisions_from since h hits [] t timely = refl
  decisions_from since h hits ((ip, now) ∷ requests) t timely =
      let same = rate_limit-eq-admits window max ip since now h hits t timely.0 in
      let next = rate_limit-Tracks window max ip since now h hits t timely.0 in
      let rest =
        decisions_from now _ (rate_limit window max ip now hits).0 requests next timely.1 in
      rw (← same) (ap (λ l. (rate_limit window max ip now hits).1 ∷ l) rest)

  -- The requests of `ip` in the window that begins at `from`.
  unfoldable pub in_window : String → ℕ → History → ℕ
  in_window ip from h = count (λ e. e.0 == ip && (leb from e.1 && ltb e.1 (from + window))) h

  in_window-snoc :
      (ip jp : String) (from now : ℕ) (h : History)
      → in_window ip from (h ++ (jp, now) ∷ [])
        ≡ in_window ip from h
          + (if jp == ip && (leb from now && ltb now (from + window)) then 1 else 0)
  unfolding in_window count
  in_window-snoc ip jp from now h =
      rw
        (count-append (λ e. e.0 == ip && (leb from e.1 && ltb e.1 (from + window))) h
          ((jp, now) ∷ []))
        (omega arith)

  -- What lies in a window that reaches `now` is recent at `now`.
  in_window-le-recent :
      (ip : String) (from now : ℕ) (h : History)
      → from ≤ now
      → now < from + window
      → in_window ip from h ≤ recent_accepts window ip now h
  unfolding in_window recent_accepts count is_fresh
  in_window-le-recent ip from now [] le lt = omega arith
  in_window-le-recent ip from now ((jp, t) ∷ h) le lt =
      ground (arith, in_window-le-recent ip from now h le lt)

  Bounded : History → Type 0
  Bounded h = (ip : String) (from : ℕ) → in_window ip from h ≤ max

  record_if-Bounded :
      (ip : String) (now : ℕ) (h : History)
      → Bounded h
      → Bounded (record_if (admits window max ip now h) ip now h)
  unfolding Bounded record_if admits
  record_if-Bounded ip now h b jp from = ground (
    arith,
    b jp from,
    in_window-snoc jp ip from now h,
    in_window-le-recent jp from now h,
    eq_iff ip jp,
  )

  accepted_from :
      (since : ℕ) (h : History) (hits : Hits) (requests : List (String × ℕ))
      → Tracks window since h hits
      → IsTimely since requests
      → Bounded h
      → Bounded (h ++ accepted hits requests)
  unfolding accepted
  accepted_from since h hits [] t timely b = rw append-nil b
  accepted_from since h hits ((ip, now) ∷ requests) t timely b =
      let same = rate_limit-eq-admits window max ip since now h hits t timely.0 in
      let next = rate_limit-Tracks window max ip since now h hits t timely.0 in
      let ih =
        accepted_from now _ (rate_limit window max ip now hits).0 requests next timely.1
          (rw same (record_if-Bounded ip now h b)) in
      subst Bounded
        (record_if-append (rate_limit window max ip now hits).1 ip now h
          (accepted (rate_limit window max ip now hits).0 requests))
        ih

  -- Over requests at times that do not decrease, the limiter that starts with an empty map decides
  -- each one exactly as the rule that keeps the whole history: a request of an address is let
  -- through if and only if fewer than `max` requests of that address were let through less than a
  -- window before it. The sweep of stale keys and the forgotten times never change a decision.
  pub decisions-eq-plain_decisions :
      (requests : List (String × ℕ))
      → IsTimely 0 requests
      → decisions [] requests ≡ plain_decisions [] requests
  decisions-eq-plain_decisions requests timely =
      decisions_from 0 [] [] requests (Tracks-empty window) timely

  -- Over requests at times that do not decrease, from an empty map: in every window of time, wherever
  -- it begins, at most `max` requests of one address are let through.
  pub in_window-accepted-le-max :
      (requests : List (String × ℕ)) (ip : String) (from : ℕ)
      → IsTimely 0 requests
      → in_window ip from (accepted [] requests) ≤ max
  in_window-accepted-le-max requests ip from timely =
      unfold Bounded in
      accepted_from 0 [] [] requests (Tracks-empty window) timely
        (λ jp n. unfold in_window count in omega arith) ip from
