-- ===== src/Runtime/Proxy/Reached.antt =====
-- What every interleaving of the proxy's goroutines keeps.
use lambs_server.Base.{
  ℕ, ◌≤◌, ◌≡◌, inl, inr, refl, true, String, none, some, List, ◌∷◌, [], lookup, All, count, nat_eq,
  string_eq, arith, Option-cases,
}
use lambs_server.Base.Text.{Text}
use lambs_server.Runtime.Proxy.{no_proxy, Net, Connection, Proxy, source_allowed, counted}
use lambs_server.Runtime.Proxy.Steps.{servers, connections, Steps, done, next, intruders, IsSound}
use lambs_server.Runtime.Proxy.Kept.{Step-IsSound}

-- The entry of the project as a number, and the goroutines of its listener.
abbrev pub entries : String → Proxy → ℕ
entries id s = elim (lookup id s.listeners) [ none ↦ 0 | some a ↦ 1 ]

abbrev pub own_servers : String → Proxy → ℕ
own_servers id s = elim (lookup id s.listeners) [ none ↦ 0 | some a ↦ servers id a s ]

module _ (net : Net) (allowed : List Text) where
  pub Steps-IsSound :
      {s s' : Proxy} → Steps net allowed s s' → IsSound net allowed s → IsSound net allowed s'
  Steps-IsSound done h = h
  Steps-IsSound (next r rs) h = Steps-IsSound rs (Step-IsSound net allowed r h)

  empty-IsSound : IsSound net allowed no_proxy
  unfolding count lookup
  empty-IsSound = (
    (tt, (λ id. refl), (λ id a e. ground (arith, e))),
    (λ n. refl),
    (λ n low. (refl, refl, refl)),
    (refl, refl),
  )

  pub reached-IsSound : {s : Proxy} → Steps net allowed no_proxy s → IsSound net allowed s
  reached-IsSound r = Steps-IsSound r empty-IsSound

  screened-All :
      (cs : List Connection)
      → intruders net allowed cs ≡ 0
      → All (λ c. source_allowed net allowed c.remote ≡ true) cs
  unfolding count
  screened-All [] e = tt
  screened-All (c ∷ cs) e = (ground (arith, e), screened-All cs (ground (arith, e)))

  -- In every state that the proxy reaches from its start, in any interleaving of calls of Start and
  -- Stop with connections that come, begin and end and listeners that fail: a project has a counter
  -- in the one map if and only if it has a listener in the other, and both are of one call of Start; a
  -- listener in the map has a goroutine that still serves it; every counter is the number of the
  -- connections of its listener that are handled; and all of these come from allowed addresses.
  pub Steps-served :
      (id : String) (n : ℕ) {s : Proxy}
      → Steps net allowed no_proxy s
      → (lookup id s.actives ≡ lookup id s.listeners)
        × (entries id s ≤ own_servers id s)
        × (counted s n ≡ connections n s.handled)
        × All (λ c. source_allowed net allowed c.remote ≡ true) s.handled
  Steps-served id n {s} r =
      let ((m, same, served), counts, fresh, screened) = reached-IsSound r in
      (
        same id,
        elim (Option-cases (lookup id s.listeners)) [
          | inl none' ↦ rw (none', entries) (omega arith)
          | inr (a, e) ↦ rw (e, entries, own_servers) (served id a e)
        ],
        counts n,
        screened-All s.handled screened.1,
      )
