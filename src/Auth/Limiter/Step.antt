-- ===== src/Auth/Limiter/Step.antt =====
-- One request: the decision, and what the new map answers for.
use lambs_server.Base.{
  ℕ, ◌≤◌, String, ◌≡◌, refl, sym, Bool, false, List, [], ◌∷◌, ◌++◌, leb, length, count, All, insert,
  ◌==◌, if◌then◌else◌, string_eq, arith, eq_iff, insert-IsMap, Bool-cases, All-append, ◌∙◌, inl,
  inr,
}
use lambs_server.Auth.Limiter.{Hits, times, sweep, is_fresh, kept, rate_limit}
use lambs_server.Auth.Limiter.Window.{
  History, IsSorted, recent_accepts, admits, Tracks, SameFrom, count-snoc, IsSorted-snoc, le_later,
  recent_accepts-snoc, times-insert, sweep-SameFrom, sweep-IsMap, count-kept, kept-IsSorted,
  kept-All, length-kept,
}

unfoldable pub record_if : Bool → String → ℕ → History → History
record_if admitted ip now h = if admitted then h ++ (ip, now) ∷ [] else h

module _ (window max : ℕ) where
  pub rate_limit-eq-admits :
      (ip : String) (since now : ℕ) (h : History) (hits : Hits)
      → Tracks window since h hits
      → since ≤ now
      → (rate_limit window max ip now hits).1 ≡ admits window max ip now h
  unfolding rate_limit admits
  rate_limit-eq-admits ip since now h hits t le =
      let same = sweep-SameFrom window ip now hits t.map (t.sorted ip) in
      ground (
        arith,
        length-kept window now (times ip (sweep window now hits)),
        same.counts now (omega arith),
        t.counts ip now le,
      )

  -- Writing the times of `ip` back, where they answer for the history with its new entries.
  module _ (ip : String) (since now : ℕ) (h h' : History) (hits : Hits) (us : List ℕ)
      (t : Tracks window since h hits) (le : since ≤ now) where
    insert-Tracks :
        IsSorted us
        → All (λ u. u ≤ now) us
        → ((later : ℕ)
            → now ≤ later
            → count (is_fresh window later) us ≡ recent_accepts window ip later h')
        → ((jp : String) (later : ℕ)
            → (ip == jp) ≡ false
            → recent_accepts window jp later h' ≡ recent_accepts window jp later h)
        → Tracks window now h' (insert ip us (sweep window now hits))
    insert-Tracks sorted past counts others = record {
      map = insert-IsMap ip us (sweep window now hits) (sweep-IsMap window now hits t.map);
      sorted = λ jp. rw (times-insert window jp ip us (sweep window now hits)) (sorted_at jp);
      past = λ jp. rw (times-insert window jp ip us (sweep window now hits)) (past_at jp);
      counts = λ jp later le'.
          rw (times-insert window jp ip us (sweep window now hits)) (counts_at jp later le');
    }
      where
        swept :
            (jp : String) → SameFrom window now (times jp hits) (times jp (sweep window now hits))
        swept jp = sweep-SameFrom window jp now hits t.map (t.sorted jp)

        sorted_at :
            (jp : String) → IsSorted (if ip == jp then us else times jp (sweep window now hits))
        sorted_at jp = elim (Bool-cases (ip == jp)) [
          | inl same ↦ rw same sorted
          | inr other ↦ rw other (swept jp).sorted
        ]

        past_at :
            (jp : String)
            → All (λ u. u ≤ now) (if ip == jp then us else times jp (sweep window now hits))
        past_at jp = elim (Bool-cases (ip == jp)) [
          | inl same ↦ rw same past
          | inr other ↦ rw other ((swept jp).past now (le_later window since now _ le (t.past jp)))
        ]

        counts_at :
            (jp : String) (later : ℕ)
            → now ≤ later
            → count
                (is_fresh window later)
                (if ip == jp then us else times jp (sweep window now hits))
              ≡ recent_accepts window jp later h'
        counts_at jp later le' = elim (Bool-cases (ip == jp)) [
          | inl same ↦ rw (same, ← (eq_iff ip jp).0 same) (counts later le')
          | inr other ↦ rw other (
              (swept jp).counts later le'
              ∙ t.counts jp later (omega arith)
              ∙ sym (others jp later other))
        ]

  pub rate_limit-Tracks :
      (ip : String) (since now : ℕ) (h : History) (hits : Hits)
      → Tracks window since h hits
      → since ≤ now
      → Tracks window now
          (record_if (rate_limit window max ip now hits).1 ip now h)
          (rate_limit window max ip now hits).0
  unfolding rate_limit record_if
  rate_limit-Tracks ip since now h hits t le = elim (Bool-cases (leb max (length recent))) [
    | inl full ↦
        rw full
          (insert-Tracks ip since now h h hits recent t le sorted past counts (λ jp later e. refl))
    | inr room ↦ rw room (
        insert-Tracks ip since now h (h ++ (ip, now) ∷ []) hits (recent ++ now ∷ []) t le
          (IsSorted-snoc window recent now sorted past)
          (All-append (λ u. u ≤ now) recent (now ∷ []) past (omega arith))
          (λ later le'. grind (
            arith,
            count-snoc window later now recent,
            recent_accepts-snoc window ip ip later now h,
            counts later le',
            eq_iff ip ip,
          ))
          (λ jp later e. rw (recent_accepts-snoc window jp ip later now h, e) (omega arith)))
  ]
    where
      recent : List ℕ
      recent = kept window now (times ip (sweep window now hits))

      swept : SameFrom window now (times ip hits) (times ip (sweep window now hits))
      swept = sweep-SameFrom window ip now hits t.map (t.sorted ip)

      sorted : IsSorted recent
      sorted = kept-IsSorted window now _ swept.sorted

      past : All (λ u. u ≤ now) recent
      past =
          kept-All window (λ u. u ≤ now) now _
            (swept.past now (le_later window since now _ le (t.past ip)))

      counts :
          (later : ℕ)
          → now ≤ later
          → count (is_fresh window later) recent ≡ recent_accepts window ip later h
      counts later le' =
          count-kept window now later _ le'
          ∙ swept.counts later le'
          ∙ t.counts ip later (omega arith)
