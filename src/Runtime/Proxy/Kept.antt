-- ===== src/Runtime/Proxy/Kept.antt =====
-- Every step of the proxy keeps what is to hold.
use lambs_server.Base.{
  ℕ, ◌+◌, ◌-◌, ◌≡◌, inl, inr, sym, ap, subst, ◌∙◌, not, ◌&&◌, String, none, List, ◌∷◌, ◌++◌, lookup,
  lookup-erase, lookup-insert, insert, erase-IsMap, insert-IsMap, count, count_middle,
  if◌then◌else◌, ◌==◌, eq_iff, nat_eq, string_eq, arith, Option-cases, Bool-cases,
}
use lambs_server.Base.Text.{Text}
use lambs_server.Runtime.Processes.{Host}
use lambs_server.Runtime.Proxy.{
  Net, Site, Listener, Connection, Proxy, source_allowed, add_listener, start_proxy, accept,
  counted, begin, finish, is_at, serve_end, stop_proxy,
}
use lambs_server.Runtime.Proxy.Steps.{
  Step, starts, accepts, begins, finishes, ends, stops, moves, IsSound,
}
use lambs_server.Runtime.Proxy.Adding.{start_proxy-adds, stop_proxy-free, stop_proxy-busy}

counted-insert :
    (n k v : ℕ) (s : Proxy)
    → counted (record s { counters = insert k v s.counters }) n
      ≡ (if k == n then v else counted s n)
counted-insert n k v s = rw (counted, lookup-insert k n v s.counters) (ground arith)

module _ (net : Net) (allowed : List Text) where
  add_listener-IsSound :
      (id : String) (backend : Text) (s : Proxy)
      → lookup id s.listeners ≡ none
      → IsSound net allowed s
      → IsSound net allowed (add_listener id backend s)
  add_listener-IsSound id backend s free ((m, same, served), counts, fresh, screened) =
      unfold add_listener in
      (
        (
          insert-IsMap id s.next_address s.actives m,
          (λ j.
              rw
                (
                  lookup-insert id j s.next_address s.actives,
                  lookup-insert id j s.next_address s.listeners,
                )
                (ground (arith, same j))),
          (λ j a.
              rw (lookup-insert id j s.next_address s.listeners)
                (λ e. unfold count in ground (arith, e, served j a, eq_iff id j))),
        ),
        (λ n. counted-insert n s.next_address 0 s ∙ ground (arith, counts n, fresh n)),
        (λ n low. unfold count in ground (arith, low, fresh n (omega (arith, low)))),
        screened,
      )

  start-IsSound :
      (w : Site) (id : String) (s : Proxy)
      → IsSound net allowed s
      → IsSound net allowed (start_proxy net w id s).0
  start-IsSound w id s h = elim (start_proxy-adds net w id s) [
    | inl same ↦ subst (IsSound net allowed) (sym same) h
    | inr (b, free, more) ↦
        subst (IsSound net allowed) (sym more) (add_listener-IsSound id b s free h)
  ]

  accept-IsSound :
      (before : List Listener) (l : Listener) (after : List Listener) (remote : Text) (s : Proxy)
      → s.serving ≡ before ++ l ∷ after
      → IsSound net allowed s
      → IsSound net allowed (accept net allowed l remote s)
  accept-IsSound before l after remote s split (served, counts, fresh, screened) =
      elim (Bool-cases (source_allowed net allowed remote)) [
        | inl good ↦
            unfold accept in
            rw good (
              served,
              counts,
              (λ n low.
                  unfold count in
                  ground (
                    arith,
                    fresh n low,
                    count_middle (λ v. v.address == n) before l after s.serving split,
                  )),
              (unfold count in ground (arith, good, screened.0), screened.1),
            )
        | inr bad ↦ unfold accept in rw bad (served, counts, fresh, screened)
      ]

  begin-IsSound :
      (h : Host) (before : List Connection) (c : Connection) (after : List Connection) (s : Proxy)
      → s.accepted ≡ before ++ c ∷ after
      → IsSound net allowed s
      → IsSound net allowed (begin h before c after s)
  begin-IsSound h before c after s split (served, counts, fresh, screened) =
      unfold begin in
      (
        served,
        (λ n.
            counted-insert n c.counter (counted s c.counter + 1) s
            ∙ unfold count in ground (arith, counts n, counts c.counter)),
        (λ n low.
            unfold count in
            ground (
              arith,
              fresh n low,
              count_middle (λ v. v.counter == n) before c after s.accepted split,
            )),
        unfold count in
            ground (
              arith,
              screened,
              count_middle (λ v. not (source_allowed net allowed v.remote)) before c after
                  s.accepted split,
            ),
      )

  finish-IsSound :
      (before : List Connection) (c : Connection) (after : List Connection) (s : Proxy)
      → s.handled ≡ before ++ c ∷ after
      → IsSound net allowed s
      → IsSound net allowed (finish before c after s)
  finish-IsSound before c after s split (served, counts, fresh, screened) =
      unfold finish in
      (
        served,
        (λ n.
            counted-insert n c.counter (counted s c.counter - 1) s
            ∙ ground (
              arith,
              counts n,
              counts c.counter,
              count_middle (λ v. v.counter == n) before c after s.handled split,
            )),
        (λ n low. ground (
          arith,
          fresh n low,
          count_middle (λ v. v.counter == n) before c after s.handled split,
        )),
        ground (
          arith,
          screened,
          count_middle (λ v. not (source_allowed net allowed v.remote)) before c after s.handled
              split,
        ),
      )

  serve_end-IsSound :
      (before : List Listener) (l : Listener) (after : List Listener) (s : Proxy)
      → s.serving ≡ before ++ l ∷ after
      → IsSound net allowed s
      → IsSound net allowed (serve_end before l after s)
  serve_end-IsSound before l after s split (served, counts, fresh, screened) =
      elim (Bool-cases (is_at (lookup l.project s.listeners) l.address)) [
        | inl own ↦
            unfold serve_end in
            rw own (
              (
                erase-IsMap l.project s.actives served.0,
                (λ j.
                    rw (lookup-erase l.project j s.actives, lookup-erase l.project j s.listeners)
                      (ground (arith, served.1 j))),
                (λ j a. rw (lookup-erase l.project j s.listeners) (λ e. ground (
                  arith,
                  e,
                  served.2 j a,
                  eq_iff l.project j,
                  count_middle (λ v. v.project == j && v.address == a) before l after s.serving
                      split,
                ))),
              ),
              counts,
              (λ n low. ground (
                arith,
                fresh n low,
                count_middle (λ v. v.address == n) before l after s.serving split,
              )),
              screened,
            )
        | inr other ↦
            unfold serve_end in
            rw other (
              (
                served.0,
                served.1,
                (λ j a e. ground (
                  arith,
                  e,
                  other,
                  served.2 j a e,
                  eq_iff l.project j,
                  eq_iff l.address a,
                  ap (λ k. is_at (lookup k s.listeners) l.address) {x = l.project} {y = j},
                  count_middle (λ v. v.project == j && v.address == a) before l after s.serving
                      split,
                )),
              ),
              counts,
              (λ n low. ground (
                arith,
                fresh n low,
                count_middle (λ v. v.address == n) before l after s.serving split,
              )),
              screened,
            )
      ]

  stop_proxy-IsSound :
      (id : String) (s : Proxy) → IsSound net allowed s → IsSound net allowed (stop_proxy id s)
  stop_proxy-IsSound id s ((m, same, served), counts, fresh, screened) =
      elim (Option-cases (lookup id s.listeners)) [
        | inl free ↦ subst (IsSound net allowed) (sym (stop_proxy-free id s free)) (
          (
            erase-IsMap id s.actives m,
            (λ j. rw (lookup-erase id j s.actives) (ground (arith, same j, free, eq_iff id j))),
            served,
          ),
          counts,
          fresh,
          screened,
        )
        | inr (l, e) ↦ subst (IsSound net allowed) (sym (stop_proxy-busy id s l e)) (
          (
            erase-IsMap id s.actives m,
            (λ j.
                rw (lookup-erase id j s.actives, lookup-erase id j s.listeners)
                  (ground (arith, same j))),
            (λ j a. rw (lookup-erase id j s.listeners) (ground (arith, served j a))),
          ),
          counts,
          fresh,
          screened,
        )
      ]

  pub Step-IsSound :
      {s s' : Proxy} → Step net allowed s s' → IsSound net allowed s → IsSound net allowed s'
  Step-IsSound {s} (starts w id) h = start-IsSound w id s h
  Step-IsSound {s} (accepts before l after remote e) h = accept-IsSound before l after remote s e h
  Step-IsSound {s} (begins host before c after e) h = begin-IsSound host before c after s e h
  Step-IsSound {s} (finishes before c after e) h = finish-IsSound before c after s e h
  Step-IsSound {s} (ends before l after e) h = serve_end-IsSound before l after s e h
  Step-IsSound {s} (stops id) h = stop_proxy-IsSound id s h
  Step-IsSound {s} (moves ps) h = h
